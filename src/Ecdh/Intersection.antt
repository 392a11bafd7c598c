-- ===== src/Ecdh/Intersection.antt =====
-- `calculate_intersection` and `calculate_cardinality_only` against the library's `filter`.
use mathlib.Core.List.{filter, Perm, dec_mem, not-mem-nil, map-map, filter_congr}
use mathlib.Core.List.Perm
use mathlib.Core.Logic.{if_neg}
use native.Mathlib.Nat.{zero-add}
use petace_set_ops.Base.{
  ℕ, ◌+◌, ◌≡◌, ◌≢◌, ◌⊎◌, refl, sym, ap, ◌∙◌, List, [], ◌∷◌, ◌++◌, append_assoc, map, Bool, true,
  false, arith, Bytes, Bytes-discrete, length, length-append, length-map, length-resize,
  length-perm, replicate, set_append, resize, Bool-cases, inl, inr, if◌then◌else◌,
}
use petace_set_ops.Std.Order.{bytes_order, sort, sort-perm}
use petace_set_ops.Std.Search.{binary_search, binary_search-sort}
use petace_set_ops.Psi.{collect_loop}
use petace_set_ops.Psi.Collect.{select, count_if, collect_loop-select, select-filter, length-select}
use petace_set_ops.Ecdh.{
  mark_loop, count_loop, is_empty, calculate_intersection, calculate_cardinality_only,
}

-- the items of which a value occurs in a list, in their order and as often as they occur
abbrev pub those_in {ℓ} : {A : Type ℓ} → (A → Bytes) → List Bytes → List A → List A
those_in value listed = filter (λ x. dec_mem Bytes-discrete (value x) listed)

module _ (remote : List Bytes) where
  abbrev hit : Bytes → Bool
  hit = binary_search bytes_order remote

  mark_loop-map :
      (keys : List Bytes) (idx : ℕ) (flags before : List Bool) (count : ℕ)
      → idx ≡ length before
      → flags ≡ before ++ replicate (length keys) false
      → mark_loop remote keys idx flags count ≡ (before ++ map hit keys, count + count_if hit keys)
  unfolding mark_loop count_if
  mark_loop-map [] idx flags before count ei ef = λ i. (ef i, add_zero i)
    where
      add_zero : count ≡ count + 0
      add_zero = omega arith
  mark_loop-map (key ∷ keys) idx flags before count ei ef = elim (Bool-cases (hit key)) [
    | inl found ↦
        rw (found, ei, ef, set_append before (replicate (length keys) false) false true)
          (mark_loop-map keys (length before + 1) _ (before ++ true ∷ []) (count + 1)
              (omega (arith, length-append before (true ∷ [])))
              (sym (append_assoc before (true ∷ []) (replicate (length keys) false)))
            ∙ λ i. (append_assoc before (true ∷ []) (map hit keys) i, sum_true i))
    | inr missed ↦
        rw (missed, ei, ef)
          (mark_loop-map keys (length before + 1) _ (before ++ false ∷ []) count
              (omega (arith, length-append before (false ∷ [])))
              (sym (append_assoc before (false ∷ []) (replicate (length keys) false)))
            ∙ λ i. (append_assoc before (false ∷ []) (map hit keys) i, sum_false i))
  ]
    where
      sum_true : count + 1 + count_if hit keys ≡ count + (1 + count_if hit keys)
      sum_true = omega arith

      sum_false : count + count_if hit keys ≡ count + (0 + count_if hit keys)
      sum_false = omega arith

  count_loop-count_if :
      (keys : List Bytes) (count : ℕ) → count_loop remote keys count ≡ count + count_if hit keys
  unfolding count_loop count_if
  count_loop-count_if [] count = omega arith
  count_loop-count_if (key ∷ keys) count = elim (Bool-cases (hit key)) [
    | inl found ↦ rw (found) (omega (arith, count_loop-count_if keys (count + 1)))
    | inr missed ↦ rw (missed) (omega (arith, count_loop-count_if keys count))
  ]

  count_if-map :
      (value : Bytes → Bytes) (input : List Bytes)
      → count_if hit (map value input) ≡ count_if (λ x. hit (value x)) input
  unfolding count_if
  count_if-map value [] = refl
  count_if-map value (x ∷ input) =
      ap (λ n. (if hit (value x) then 1 else 0) + n) (count_if-map value input)

  -- What the marking and the collecting loop leave in the output.
  marked_and_collected :
      (value : Bytes → Bytes) (input output : List Bytes)
      → (let (flags, count) =
            mark_loop remote (map value input) 0 (replicate (length input) false) 0 in
          collect_loop input 0 flags (resize count [] output) 0)
        ≡ select (map (λ x. hit (value x)) input) input
  marked_and_collected value input output =
      rw
        (
          mark_loop-map (map value input) 0 (replicate (length input) false) [] 0 refl
              (ap (λ n. replicate n false) (sym (length-map value input))),
          map-map hit value input,
        )
        (collect_loop-select input (map (λ x. hit (value x)) input) _
          (omega (arith, length-map (λ x. hit (value x)) input))
          (omega (
            arith,
            length-resize (0 + count_if hit (map value input)) [] output,
            length-select (λ x. hit (value x)) input,
            count_if-map value input,
          )))

is_empty-perm : (l m : List Bytes) → length l ≡ length m → is_empty l ≡ is_empty m
unfolding is_empty
is_empty-perm [] [] e = refl
is_empty-perm [] (y ∷ m) e = absurd (omega arith)
is_empty-perm (x ∷ l) [] e = absurd (omega arith)
is_empty-perm (x ∷ l) (y ∷ m) e = refl

is_empty-sort : (l : List Bytes) → is_empty (sort bytes_order l) ≡ is_empty l
is_empty-sort l = is_empty-perm _ l (length-perm (sort-perm bytes_order l))

-- For a peer that holds some keys and own keys that are some, the result is exactly the own keys
-- whose value occurs among the peer's, in the own order, whatever the output held before.
pub calculate_intersection-filter :
    (value : Bytes → Bytes) (remote input output : List Bytes)
    → remote ≢ []
    → input ≢ []
    → calculate_intersection (sort bytes_order remote) (map value input) input output
      ≡ those_in value remote input
unfolding calculate_intersection is_empty
calculate_intersection-filter value [] input output hr hi = absurd (hr refl)
calculate_intersection-filter value (r ∷ remote) [] output hr hi = absurd (hi refl)
calculate_intersection-filter value (r ∷ remote) (x ∷ input) output hr hi =
    rw (is_empty-sort (r ∷ remote)) (
      marked_and_collected (sort bytes_order (r ∷ remote)) value (x ∷ input) output
      ∙ select-filter (λ y. dec_mem Bytes-discrete (value y) (r ∷ remote))
          (λ y. binary_search bytes_order (sort bytes_order (r ∷ remote)) (value y)) (x ∷ input)
          (λ y _. binary_search-sort bytes_order (r ∷ remote) (value y)))

-- If one of the three lists is empty, the output is left as the caller passed it.
pub calculate_intersection_empty :
    (remote self input output : List Bytes)
    → (remote ≡ []) ⊎ (self ≡ []) ⊎ (input ≡ [])
    → calculate_intersection remote self input output ≡ output
unfolding calculate_intersection is_empty
calculate_intersection_empty remote self input output h = ground arith

-- Nothing occurs in the empty list.
pub those_in-nil {ℓ} : {A : Type ℓ} (value : A → Bytes) (l : List A) → those_in value [] l ≡ []
those_in-nil value [] = refl
those_in-nil value (x ∷ l) =
    if_neg (dec_mem Bytes-discrete (value x) []) not-mem-nil (x ∷ those_in value [] l) _
    ∙ those_in-nil value l

-- The cardinality is the number of own values that occur among the peer's, with repetitions, also
-- where one of the lists is empty.
pub calculate_cardinality_only-length :
    (remote self : List Bytes)
    → calculate_cardinality_only (sort bytes_order remote) self
      ≡ length (those_in (λ key. key) remote self)
unfolding calculate_cardinality_only is_empty
calculate_cardinality_only-length [] self =
    rw is_empty-sort (ap length (sym (those_in-nil (λ key. key) self)))
calculate_cardinality_only-length (r ∷ remote) [] = rw is_empty-sort refl
calculate_cardinality_only-length (r ∷ remote) (key ∷ self) =
    let found = hit (sort bytes_order (r ∷ remote)) in
    rw is_empty-sort (
      count_loop-count_if (sort bytes_order (r ∷ remote)) (key ∷ self) 0
      ∙ zero-add _
      ∙ sym (length-select found (key ∷ self))
      ∙ ap length (
          select-filter (λ y. dec_mem Bytes-discrete y (r ∷ remote)) found (key ∷ self)
            (λ y _. binary_search-sort bytes_order (r ∷ remote) y)))

module _ {ℓ} {A : Type ℓ} (value : A → Bytes) where
  -- The order of the peer's list does not matter.
  pub those_in-perm :
      {l m : List Bytes} → Perm l m → (xs : List A) → those_in value l xs ≡ those_in value m xs
  those_in-perm p xs = filter_congr _ _ xs (λ x _. Perm.mem_iff p)

  pub length-those_in_perm :
      (l : List Bytes) {xs ys : List A}
      → Perm xs ys
      → length (those_in value l xs) ≡ length (those_in value l ys)
  length-those_in_perm l p = length-perm (Perm.filter _ p)
