-- ===== src/Base/Members.antt =====
-- The library's `Mem` and `Perm` together with lengths and positions in native numbers.
use Prim.Native.Nat.{ℕ, zero, suc, ◌<◌}
use mathlib.Core.Path.{◌≡◌, refl, sym, ap, ◌∙◌}
use mathlib.Core.Logic.{∥∥₁_elim}
use mathlib.Core.List.{
  List, [], ◌∷◌, Mem, Perm, Permᴰ, not-mem-nil, mem-cons_self, mem-cons_of_mem, mem_of_ne_of_mem,
}
use native.Mathlib.Nat.{ℕ_set}
use native.Mathlib.Decide.{ℕ_discrete}
use native.Mathlib.Omega.{arith}
use petace_set_ops.Base.Lists.{length, get_or}

module _ {ℓ} {A : Type ℓ} where
  length-permᴰ : {xs ys : List A} → Permᴰ xs ys → length xs ≡ length ys
  length-permᴰ Permᴰ.nil = refl
  length-permᴰ (Permᴰ.cons e p) = ap suc (length-permᴰ p)
  length-permᴰ (Permᴰ.swap e f) = refl
  length-permᴰ (Permᴰ.trans p q) = length-permᴰ p ∙ length-permᴰ q

  pub length-perm : {xs ys : List A} → Perm xs ys → length xs ≡ length ys
  length-perm p = ∥∥₁_elim p (ℕ_set _ _) length-permᴰ

  pub get_or-mem : (xs : List A) (i : ℕ) (d : A) → i < length xs → Mem (get_or xs i d) xs
  get_or-mem [] i d h = elim h [ ]
  get_or-mem (x ∷ xs) zero d h = mem-cons_self
  get_or-mem (x ∷ xs) (suc i) d h = mem-cons_of_mem x (get_or-mem xs i d (omega arith))

-- A number that occurs has a position.
pub index_of_mem :
    (xs : List ℕ) (k : ℕ) → Mem k xs → (i : ℕ) × (i < length xs) × (get_or xs i 0 ≡ k)
index_of_mem [] k m = absurd (not-mem-nil m)
index_of_mem (x ∷ xs) k m = elim (ℕ_discrete k x) [
  | yes e ↦ (0, omega arith, sym e)
  | no ne ↦ let (i, lt, e) = index_of_mem xs k (mem_of_ne_of_mem ne m) in (suc i, omega arith, e)
]
