-- ===== src/Net/Run.antt =====
-- Two parties joined by a connection. What the library relies on of PETAce-Network is stated here
-- as a step relation: each direction is a stream of bytes, delivered whole and in order; a send
-- never waits; a receive of n bytes waits until n have come. The parties run in any interleaving.
use petace_set_ops.Base.{
  ℕ, zero, suc, ◌≡◌, [], ◌++◌, Option, none, some, Bytes, length, take, drop, leb, if◌then◌else◌,
}
use petace_set_ops.Net.{Proc, done, fail, send, recv}

pub record Sys {ℓ κ} (A : Type ℓ) (B : Type κ) : Type (ℓ ⊔ κ) where
  pub left : Proc A
  pub right : Proc B
  pub to_left : Bytes
  pub to_right : Bytes

-- One call of a party: what is left of it, of the bytes that wait for it, and what it sends.
pub record Call {ℓ} (A : Type ℓ) : Type ℓ where
  pub rest : Proc A
  pub waiting : Bytes
  pub sent : Bytes

unfoldable pub step_proc {ℓ} : {A : Type ℓ} → Proc A → Bytes → Option (Call A)
step_proc (done a) q = none
step_proc (fail e) q = none
step_proc (send bs k) q = some (record { rest = k; waiting = q; sent = bs })
step_proc (recv n k) q =
    if leb n (length q)
    then some (record { rest = k (take n q); waiting = drop n q; sent = [] })
    else none

module _ {ℓ κ} {A : Type ℓ} {B : Type κ} where
  abbrev pub after_left : Sys A B → Call A → Sys A B
  after_left s c = record s { left = c.rest; to_left = c.waiting; to_right = s.to_right ++ c.sent }

  abbrev pub after_right : Sys A B → Call B → Sys A B
  after_right s c = record s { right = c.rest; to_right = c.waiting; to_left = s.to_left ++ c.sent }

  -- The scheduler chooses the party that moves.
  pub data Step (s t : Sys A B) : Type (ℓ ⊔ κ) where
    left_moves : (c : Call A) → step_proc s.left s.to_left ≡ some c → t ≡ after_left s c → Step s t
    right_moves :
        (c : Call B) → step_proc s.right s.to_right ≡ some c → t ≡ after_right s c → Step s t

  -- An interleaving of so many calls.
  abbrev pub Steps : ℕ → Sys A B → Sys A B → Type (ℓ ⊔ κ)
  Steps zero s t = s ≡ t
  Steps (suc n) s t = (u : Sys A B) × Step s u × Steps n u t

  abbrev pub Reach : Sys A B → Sys A B → Type (ℓ ⊔ κ)
  Reach s t = (n : ℕ) × Steps n s t

  -- No party can move: each has returned, has thrown, or waits for bytes that nobody sends.
  abbrev pub IsFinal : Sys A B → Type (ℓ ⊔ κ)
  IsFinal s = (t : Sys A B) → ¬ Step s t

  -- Both parties at their beginning, or one at its end, with nothing on the way.
  abbrev pub joined : Proc A → Proc B → Sys A B
  joined p q = record { left = p; right = q; to_left = []; to_right = [] }
