-- ===== src/Psi/Collect.antt =====
-- The collecting loop keeps exactly the marked keys, in their order.
use mathlib.Core.List.{filter, Mem, mem-cons_self, mem-cons_of_mem}
use mathlib.Core.Logic.{if_pos, if_neg}
use petace_set_ops.Base.{
  ℕ, ◌+◌, ◌≤◌, ◌≡◌, ◌↔◌, refl, sym, ap, ◌∙◌, List, [], ◌∷◌, ◌++◌, append_assoc, map, Bool, true,
  false, arith, Bytes, length, get_or, set_append, length-append, Bool-cases, inl, inr,
  if◌then◌else◌,
}
use petace_set_ops.Psi.{collect_loop}

module _ {ℓ} {A : Type ℓ} where
  unfoldable pub count_if : (A → Bool) → List A → ℕ
  count_if f [] = 0
  count_if f (x ∷ xs) = (if f x then 1 else 0) + count_if f xs

  -- the items at the positions that are marked
  unfoldable pub select : List Bool → List A → List A
  select [] xs = []
  select (f ∷ fs) [] = []
  select (f ∷ fs) (x ∷ xs) = let rest = select fs xs in if f then x ∷ rest else rest

get_or_behind :
    (before : List Bool) (f : Bool) (fs : List Bool)
    → get_or (before ++ f ∷ fs) (length before) false ≡ f
get_or_behind [] f fs = refl
get_or_behind (b ∷ before) f fs = get_or_behind before f fs

length-snoc {ℓ} : {A : Type ℓ} (xs : List A) (x : A) → length xs + 1 ≡ length (xs ++ x ∷ [])
length-snoc xs x = omega (arith, length-append xs (x ∷ []))

-- `before` are the marks of the keys that are done, `written` their results, and `space` the slots
-- that are left, one for each marked key to come.
collect_loop-split :
    (keys : List Bytes) (item_idx : ℕ) (all : List Bool) (output : List Bytes) (result_idx : ℕ)
    (before flags : List Bool) (written space : List Bytes)
    → item_idx ≡ length before
    → all ≡ before ++ flags
    → output ≡ written ++ space
    → result_idx ≡ length written
    → length keys ≤ length flags
    → length space ≡ length (select flags keys)
    → collect_loop keys item_idx all output result_idx ≡ written ++ select flags keys
unfolding collect_loop select
collect_loop-split [] i all out r before [] written [] ei ea eo er e c = eo
collect_loop-split [] i all out r before (f ∷ flags) written [] ei ea eo er e c = eo
collect_loop-split [] i all out r before [] written (s ∷ space) ei ea eo er e c =
    absurd (omega arith)
collect_loop-split [] i all out r before (f ∷ flags) written (s ∷ space) ei ea eo er e c =
    absurd (omega arith)
collect_loop-split (key ∷ keys) i all out r before [] written space ei ea eo er e c =
    absurd (omega arith)
collect_loop-split (key ∷ keys) i all out r before (true ∷ flags) written [] ei ea eo er e c =
    absurd (omega arith)
collect_loop-split (key ∷ keys) i all out r before (true ∷ flags) written (s ∷ space) ei ea eo er e
      c =
    rw (ei, ea, eo, er, get_or_behind before true flags, set_append written space s key)
      (collect_loop-split keys (length before + 1) _ _ (length written + 1) (before ++ true ∷ [])
          flags (written ++ key ∷ []) space (length-snoc before true)
          (sym (append_assoc before (true ∷ []) flags))
          (sym (append_assoc written (key ∷ []) space)) (length-snoc written key) (omega arith)
          (omega arith)
        ∙ append_assoc written (key ∷ []) (select flags keys))
collect_loop-split (key ∷ keys) i all out r before (false ∷ flags) written space ei ea eo er e c =
    rw (ei, ea, eo, er, get_or_behind before false flags)
      (collect_loop-split keys (length before + 1) _ _ (length written) (before ++ false ∷ []) flags
        written space (length-snoc before false) (sym (append_assoc before (false ∷ []) flags)) refl
        refl (omega arith) c)

-- With a mark for each key and as many slots as marked keys, the loop returns the marked keys.
pub collect_loop-select :
    (keys : List Bytes) (flags : List Bool) (output : List Bytes)
    → length keys ≤ length flags
    → length output ≡ length (select flags keys)
    → collect_loop keys 0 flags output 0 ≡ select flags keys
collect_loop-select keys flags output e c =
    collect_loop-split keys 0 flags output 0 [] flags [] output refl refl refl refl e c

module _ {ℓ κ} {A : Type ℓ} {P : A → Type κ} (d : (a : A) → Dec (P a)) (f : A → Bool) where
  -- Marks that decide a predicate select what the library's `filter` keeps.
  pub select-filter :
      (xs : List A) → ((x : A) → Mem x xs → (f x ≡ true) ↔ P x) → select (map f xs) xs ≡ filter d xs
  unfolding select
  select-filter [] h = refl
  select-filter (x ∷ xs) h =
      let rest = select-filter xs (λ y m. h y (mem-cons_of_mem x m)) in
      let (to, from) = h x mem-cons_self in
      elim (Bool-cases (f x)) [
        | inl e ↦ rw (e, if_pos (d x) (to e)) (ap (◌∷◌ x) rest)
        | inr e ↦ rw (e, if_neg (d x) (λ p. cc (from p))) rest
      ]

-- as many as the marks that are set
pub length-select :
    {A : Type 0} (f : A → Bool) (xs : List A) → length (select (map f xs) xs) ≡ count_if f xs
unfolding select count_if
length-select f [] = refl
length-select f (x ∷ xs) = ground (arith, length-select f xs)
