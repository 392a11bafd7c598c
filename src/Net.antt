-- ===== src/Net.antt =====
-- A party of a protocol as a tree of the calls that it makes of its connection,
-- `net->send_data(p, n)` and `net->recv_data(p, n)`, and of the exceptions that it throws.
pub mod Run
pub mod Confluence
pub mod Wire
pub mod Meet
use petace_set_ops.Base.{ℕ, String, Bytes}

-- The exceptions `std::invalid_argument` and `std::runtime_error` that the library throws.
pub data Error : Type 0 where
  net_is_null : Error
  point_length_is_zero : Error
  check_failed : String → Error
  disagreement : String → Error
  stash_not_empty : Error

-- A handle `std::shared_ptr<network::Network>`.
pub data NetHandle : Type 0 where
  nullptr connected : NetHandle

pub data Proc {ℓ} (A : Type ℓ) : Type ℓ where
  done : A → Proc A
  fail : Error → Proc A
  send : Bytes → Proc A → Proc A
  recv : ℕ → (Bytes → Proc A) → Proc A

infixl 5 ◌>>=◌ ◌>>◌
abbrev pub ◌>>=◌ {ℓ κ} : {A : Type ℓ} {B : Type κ} → Proc A → (A → Proc B) → Proc B
done a >>= f = f a
fail e >>= f = fail e
send bs k >>= f = send bs (k >>= f)
recv n k >>= f = recv n (λ bs. k bs >>= f)

abbrev pub ◌>>◌ {ℓ} : {B : Type ℓ} → Proc (Unit {0}) → Proc B → Proc B
m >> k = m >>= λ _. k
