-- ===== src/Net/Meet.antt =====
-- Two programs that meet: one interleaving takes them, with nothing on the way, to two others with
-- nothing on the way. The rules below follow the text of the two programs.
use petace_set_ops.Base.{
  ℕ, zero, suc, ◌≡◌, ◌≢◌, refl, sym, ap, subst, ◌∙◌, [], ◌++◌, append-nil, some, arith, Bytes,
  length, take, drop, leb, le→leb, Bool-cases, inl, inr, true, take_whole, drop_all,
}
use mathlib.Core.Path.{fun_ext}
use petace_set_ops.Net.{Proc, done, fail, send, recv, ◌>>=◌}
use petace_set_ops.Net.Run.{
  Sys, Call, step_proc, after_left, after_right, Step, left_moves, right_moves, Steps, Reach,
  IsFinal, joined,
}
use petace_set_ops.Net.Confluence.{Reach-confluent}

-- A receive takes its bytes as soon as they are there.
step_proc-recv {ℓ} :
    {A : Type ℓ} (n : ℕ) (k : Bytes → Proc A) (q : Bytes)
    → leb n (length q) ≡ true
    → step_proc (recv n k) q ≡ some (record { rest = k (take n q); waiting = drop n q; sent = [] })
unfolding step_proc
step_proc-recv n k q fits = rw fits

-- A receive of as many bytes as wait takes them all.
step_proc-recv_all {ℓ} :
    {A : Type ℓ} (n : ℕ) (k : Bytes → Proc A) (bs : Bytes)
    → length bs ≡ n
    → step_proc (recv n k) bs ≡ some (record { rest = k bs; waiting = []; sent = [] })
step_proc-recv_all n k bs e = step_proc-recv n k bs (le→leb n (length bs) (omega arith)) ∙ (λ i.
    some (record {
      rest = k (take_whole n bs (omega arith) i);
      waiting = drop_all n bs (omega arith) i;
      sent = [];
    }))

step_proc-bind {ℓ κ} :
    {A : Type ℓ} {B : Type κ} (p : Proc A) (f : A → Proc B) (q : Bytes) (c : Call A)
    → step_proc p q ≡ some c
    → step_proc (p >>= f) q
      ≡ some (record { rest = c.rest >>= f; waiting = c.waiting; sent = c.sent })
unfolding step_proc
step_proc-bind (done a) f q c h = cc
step_proc-bind (fail e) f q c h = cc
step_proc-bind (send bs k) f q c h = ground arith
step_proc-bind {A = A} (recv n k) f q c h = elim (Bool-cases (leb n (length q))) [
  | inl fits ↦
      let e : c ≡ record { rest = k (take n q); waiting = drop n q; sent = [] } =
        cc (step_proc-recv n k q fits) in
      rw (e, step_proc-recv n (λ bs. k bs >>= f) q fits)
  | inr short ↦ absurd (ground (arith, h, short))
]

module _ {ℓ κ} {A : Type ℓ} {B : Type κ} where
  abbrev pub Meets : Proc A → Proc B → Proc A → Proc B → Type (ℓ ⊔ κ)
  Meets p q p' q' = Reach (joined p q) (joined p' q')

  Steps-trans : (m n : ℕ) (s t u : Sys A B) → Steps m s t → Steps n t u → (k : ℕ) × Steps k s u
  Steps-trans zero n s t u e r = (n, subst (λ x. Steps n x u) (sym e) r)
  Steps-trans (suc m) n s t u (s', first, others) r =
      let (k, all) = Steps-trans m n s' t u others r in (suc k, (s', first, all))

  pub Reach-trans : (s t u : Sys A B) → Reach s t → Reach t u → Reach s u
  Reach-trans s t u (m, p) (n, q) = Steps-trans m n s t u p q

  pub Reach-Step : (s t u : Sys A B) → Step s t → Reach t u → Reach s u
  Reach-Step s t u st (n, r) = (suc n, (t, st, r))

  Reach-left :
      (s t : Sys A B) (c : Call A)
      → step_proc s.left s.to_left ≡ some c
      → Reach (after_left s c) t
      → Reach s t
  Reach-left s t c e = Reach-Step s (after_left s c) t (left_moves c e refl)

  Reach-right :
      (s t : Sys A B) (c : Call B)
      → step_proc s.right s.to_right ≡ some c
      → Reach (after_right s c) t
      → Reach s t
  Reach-right s t c e = Reach-Step s (after_right s c) t (right_moves c e refl)

  -- The left party sends what the right one waits for.
  pub Meets-send_left :
      (bs : Bytes) (n : ℕ) (p : Proc A) (k : Bytes → Proc B) (p' : Proc A) (q' : Proc B)
      → length bs ≡ n
      → Meets p (k bs) p' q'
      → Meets (send bs p) (recv n k) p' q'
  unfolding step_proc
  Meets-send_left bs n p k p' q' e h =
      Reach-left _ _ (record { rest = p; waiting = []; sent = bs }) refl
        (Reach-right _ _ (record { rest = k bs; waiting = []; sent = [] })
          (step_proc-recv_all n k bs e) h)

  -- The right party sends what the left one waits for.
  pub Meets-send_right :
      (bs : Bytes) (n : ℕ) (k : Bytes → Proc A) (q : Proc B) (p' : Proc A) (q' : Proc B)
      → length bs ≡ n
      → Meets (k bs) q p' q'
      → Meets (recv n k) (send bs q) p' q'
  unfolding step_proc
  Meets-send_right bs n k q p' q' e h =
      Reach-right _ _ (record { rest = q; waiting = []; sent = bs }) refl
        (Reach-left _ _ (record { rest = k bs; waiting = []; sent = [] })
          (step_proc-recv_all n k bs e) h)

  -- Both send first and then receive: the messages cross.
  pub Meets-cross :
      (bs cs : Bytes) (n m : ℕ) (k : Bytes → Proc A) (l : Bytes → Proc B) (p' : Proc A)
      (q' : Proc B)
      → length bs ≡ n
      → length cs ≡ m
      → Meets (k cs) (l bs) p' q'
      → Meets (send bs (recv m k)) (send cs (recv n l)) p' q'
  unfolding step_proc
  Meets-cross bs cs n m k l p' q' e d h =
      Reach-left _ _ (record { rest = recv m k; waiting = []; sent = bs }) refl
        (Reach-right _ _ (record { rest = recv n l; waiting = bs; sent = cs }) refl
          (Reach-left _ _ (record { rest = k cs; waiting = []; sent = [] })
            (step_proc-recv_all m k cs d)
            (Reach-right _ _ (record { rest = l (bs ++ []); waiting = []; sent = [] })
              (step_proc-recv_all n l (bs ++ []) (rw (append-nil bs) e)) (rw (append-nil bs) h))))

module _ {ℓ κ} {A : Type ℓ} {B : Type κ} where
  flip : Sys A B → Sys B A
  flip s = record { left = s.right; right = s.left; to_left = s.to_right; to_right = s.to_left }

  Step-flip : {s t : Sys A B} → Step s t → Step (flip s) (flip t)
  unfolding flip
  Step-flip (left_moves c e et) = right_moves c e (rw et)
  Step-flip (right_moves c e et) = left_moves c e (rw et)

  Steps-flip : (n : ℕ) (s t : Sys A B) → Steps n s t → Steps n (flip s) (flip t)
  Steps-flip zero s t e = ap flip e
  Steps-flip (suc n) s t (u, st, r) = (flip u, Step-flip st, Steps-flip n u t r)

  -- The two sides can be named either way.
  pub Meets-flip :
      (p : Proc A) (q : Proc B) (p' : Proc A) (q' : Proc B) → Meets p q p' q' → Meets q p q' p'
  unfolding flip
  Meets-flip p q p' q' (n, r) = (n, Steps-flip n (joined p q) (joined p' q') r)

-- A party that has returned or thrown.
abbrev pub IsEnded {ℓ} : {A : Type ℓ} → Proc A → Type 0
IsEnded (done a) = Unit
IsEnded (fail e) = Unit
IsEnded (send bs k) = ⊥
IsEnded (recv n k) = ⊥

step_proc-IsEnded {ℓ} :
    {A : Type ℓ} (p : Proc A) (q : Bytes) (c : Call A) → IsEnded p → step_proc p q ≢ some c
unfolding step_proc
step_proc-IsEnded (done a) q c h e = cc
step_proc-IsEnded (fail x) q c h e = cc
step_proc-IsEnded (send bs k) q c h e = elim h [ ]
step_proc-IsEnded (recv n k) q c h e = elim h [ ]

module _ {ℓ κ} {A : Type ℓ} {B : Type κ} where
  IsEnded-IsFinal : (p : Proc A) (q : Proc B) → IsEnded p → IsEnded q → IsFinal (joined p q)
  IsEnded-IsFinal p q hp hq t (left_moves c e _) = step_proc-IsEnded p [] c hp e
  IsEnded-IsFinal p q hp hq t (right_moves c e _) = step_proc-IsEnded q [] c hq e

  -- If two programs meet at their ends, then every interleaving of their calls, however far it has
  -- gone, can go on to those same ends: neither can block the other or change the outcome.
  pub Meets-every_schedule :
      (p : Proc A) (q : Proc B) (p' : Proc A) (q' : Proc B) (m : ℕ) (u : Sys A B)
      → Meets p q p' q'
      → IsEnded p'
      → IsEnded q'
      → Steps m (joined p q) u
      → Reach u (joined p' q')
  Meets-every_schedule p q p' q' m u (n, run) hp hq steps =
      let (k, _, rest) =
        Reach-confluent m n (joined p q) (joined p' q') u run (IsEnded-IsFinal p' q' hp hq) steps in
      (k, rest)

module _ {ℓ κ ℓ' κ'} {A : Type ℓ} {B : Type κ} {A' : Type ℓ'} {B' : Type κ'} where
  module _ (f : A → Proc A') (g : B → Proc B') where
    onward : Sys A B → Sys A' B'
    onward s = record {
      left = s.left >>= f;
      right = s.right >>= g;
      to_left = s.to_left;
      to_right = s.to_right;
    }

    Step-onward : {s t : Sys A B} → Step s t → Step (onward s) (onward t)
    unfolding onward
    Step-onward {s} (left_moves c e et) =
        left_moves (record { rest = c.rest >>= f; waiting = c.waiting; sent = c.sent })
          (step_proc-bind s.left f s.to_left c e) (rw et)
    Step-onward {s} (right_moves c e et) =
        right_moves (record { rest = c.rest >>= g; waiting = c.waiting; sent = c.sent })
          (step_proc-bind s.right g s.to_right c e) (rw et)

    Steps-onward : (n : ℕ) (s t : Sys A B) → Steps n s t → Steps n (onward s) (onward t)
    Steps-onward zero s t e = ap onward e
    Steps-onward (suc n) s t (u, st, r) = (onward u, Step-onward st, Steps-onward n u t r)

    -- Programs that meet do so with the same continuations behind them.
    pub Meets-onward :
        (p : Proc A) (q : Proc B) (p' : Proc A) (q' : Proc B)
        → Meets p q p' q'
        → Meets (p >>= f) (q >>= g) (p' >>= f) (q' >>= g)
    unfolding onward
    Meets-onward p q p' q' (n, r) = (n, Steps-onward n (joined p q) (joined p' q') r)

    -- Programs that meet when their first parts have returned go on from there.
    pub Meets-bind :
        (p : Proc A) (q : Proc B) (a : A) (b : B) (p' : Proc A') (q' : Proc B')
        → Meets p q (done a) (done b)
        → Meets (f a) (g b) p' q'
        → Meets (p >>= f) (q >>= g) p' q'
    Meets-bind p q a b p' q' (n, r) h =
        Reach-trans _ _ _ (Meets-onward p q (done a) (done b) (n, r)) h

>>=-done {ℓ} : {A : Type ℓ} (p : Proc A) → (p >>= λ a. done a) ≡ p
>>=-done (done a) = refl
>>=-done (fail e) = refl
>>=-done (send bs k) = ap (send bs) (>>=-done k)
>>=-done (recv n k) = ap (recv n) (fun_ext (λ bs. >>=-done (k bs)))

-- The same where only the right one goes on.
pub Meets-bind_right {ℓ κ κ'} :
    {A : Type ℓ} {B : Type κ} {B' : Type κ'} (g : B → Proc B') (p : Proc A) (q : Proc B) (a : A)
    (b : B) (q' : Proc B')
    → Meets p q (done a) (done b)
    → Meets (done a) (g b) (done a) q'
    → Meets p (q >>= g) (done a) q'
Meets-bind_right g p q a b q' h k =
    subst (λ r. Meets r (q >>= g) (done a) q') (>>=-done p)
      (Meets-bind (λ x. done x) g p q a b (done a) q' h k)
