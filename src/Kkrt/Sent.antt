-- ===== src/Kkrt/Sent.antt =====
-- The rows that the sender of KKRT-PSI sends (psi/kkrt_psi.cpp): shuffled, then reduced to bytes.
use mathlib.Core.List.{Perm}
use petace_set_ops.Base.{
  ℕ, zero, suc, ◌+◌, ◌*◌, ◌<◌, ◌≡◌, refl, sym, ap, ◌∙◌, subst, List, [], ◌∷◌, ◌++◌, map, true,
  arith, Bytes, length, length-map, get_or, get_or-map, take, drop, take_append, drop_append,
  drop-drop, eq_of_get_or,
}
use petace_set_ops.Util.Permutation.{generate_permutation, permute_and_undo}
use petace_set_ops.Util.Permutation.RoundTrip.{
  IsPermutation, generate_permutation-IsPermutation, permute-perm, length-permuted,
}
use petace_set_ops.Kkrt.Tables.{Verse, shuffle_rows, reduce, reduce_row, reduce_rows}

module _ (verse : Verse) where
  -- Row k after the shuffles is a rearrangement of row k before, if each shuffle permutes.
  pub shuffled_row :
      (shuffles : ℕ → List ℕ → List ℕ) (rounds i n k : ℕ) (permutation : List ℕ)
      (rows : List (List verse.Block))
      → ((j : ℕ) (l : List ℕ) → Perm (shuffles j l) l)
      → k < rounds
      → length (get_or rows (i + k) []) ≡ n
      → (let row = get_or (shuffle_rows verse shuffles rounds i n permutation rows) k [] in
          Perm row (get_or rows (i + k) []) × (length row ≡ n))
  unfolding shuffle_rows
  shuffled_row shuffles zero i n k permutation rows permutes lt e = absurd (omega arith)
  shuffled_row shuffles (suc rounds) i n zero permutation rows permutes lt e =
      let here : i ≡ i + 0 = omega arith in
      let perm = generate_permutation (shuffles i) n permutation in
      let counted : length (get_or rows i []) ≡ n = ap (λ m. length (get_or rows m [])) here ∙ e in
      let p = generate_permutation-IsPermutation (shuffles i) n permutation (permutes i) in
      let p' = subst (λ m. IsPermutation m perm) (sym counted) p in
      (
        subst
            (λ m.
              Perm (permute_and_undo verse.zero_block perm true (get_or rows i []))
                (get_or rows m []))
            here (permute-perm verse.zero_block perm (get_or rows i []) p'),
        length-permuted verse.zero_block perm (get_or rows i []) p' ∙ counted,
      )
  shuffled_row shuffles (suc rounds) i n (suc k) permutation rows permutes lt e =
      let next : i + 1 + k ≡ i + suc k = omega arith in
      let perm = generate_permutation (shuffles i) n permutation in
      let (rearranged, counted) =
        shuffled_row shuffles rounds (i + 1) n k perm rows permutes (omega arith)
          (ap (λ m. length (get_or rows m [])) next ∙ e) in
      (
        subst
            (λ m.
              Perm (get_or (shuffle_rows verse shuffles rounds (i + 1) n perm rows) k [])
                (get_or rows m []))
            next rearranged,
        counted,
      )

  length-reduce_row :
      (rounds j : ℕ) (row : List verse.Block) → length (reduce_row verse rounds j row) ≡ rounds
  unfolding reduce_row
  length-reduce_row zero j row = refl
  length-reduce_row (suc rounds) j row = ap suc (length-reduce_row rounds (j + 1) row)

  get_or-reduce_row :
      (rounds j k : ℕ) (row : List verse.Block)
      → k < rounds
      → get_or (reduce_row verse rounds j row) k []
        ≡ reduce verse (get_or row (j + k) verse.zero_block)
  unfolding reduce_row
  get_or-reduce_row zero j k row lt = absurd (omega arith)
  get_or-reduce_row (suc rounds) j zero row lt =
      let here : j ≡ j + 0 = omega arith in
      ap (λ m. reduce verse (get_or row m verse.zero_block)) here
  get_or-reduce_row (suc rounds) j (suc k) row lt =
      let next : j + 1 + k ≡ j + suc k = omega arith in
      get_or-reduce_row rounds (j + 1) k row (omega arith)
      ∙ ap (λ m. reduce verse (get_or row m verse.zero_block)) next

  -- A row of n masks is reduced mask by mask.
  pub reduce_row-map :
      (n : ℕ) (row : List verse.Block)
      → length row ≡ n
      → reduce_row verse n 0 row ≡ map (reduce verse) row
  reduce_row-map n row e =
      eq_of_get_or [] _ _
        (omega (arith, length-reduce_row n 0 row, length-map (reduce verse) row, e))
        λ k lt.
          let in_row : k < n = omega (arith, lt, length-reduce_row n 0 row) in
          let plain : 0 + k ≡ k = omega arith in
          get_or-reduce_row n 0 k row in_row
          ∙ ap (λ m. reduce verse (get_or row m verse.zero_block)) plain
          ∙ sym (get_or-map (reduce verse) row k verse.zero_block [] (omega (arith, in_row, e)))

  take_first : (n : ℕ) (xs ys : List Bytes) → length xs ≡ n → take n (xs ++ ys) ≡ xs
  take_first n xs ys e = ap (λ m. take m (xs ++ ys)) (sym e) ∙ take_append xs ys

  pub slice-reduce_rows :
      (n f : ℕ) (rows : List (List verse.Block))
      → f < length rows
      → take n (drop (f * n) (reduce_rows verse n rows)) ≡ reduce_row verse n 0 (get_or rows f [])
  unfolding reduce_rows
  slice-reduce_rows n f [] lt = elim lt [ ]
  slice-reduce_rows n zero (row ∷ rows) lt =
      let start : 0 * n ≡ 0 = omega arith in
      ap (λ m. take n (drop m (reduce_row verse n 0 row ++ reduce_rows verse n rows))) start
      ∙ take_first n (reduce_row verse n 0 row) (reduce_rows verse n rows)
          (length-reduce_row n 0 row)
  slice-reduce_rows n (suc f) (row ∷ rows) lt =
      let data' = reduce_row verse n 0 row ++ reduce_rows verse n rows in
      let counted = length-reduce_row n 0 row in
      let next : suc f * n ≡ length (reduce_row verse n 0 row) + f * n = omega (arith, counted) in
      ap (λ m. take n (drop m data')) next
      ∙ ap (take n) (
          sym (drop-drop (f * n) (length (reduce_row verse n 0 row)) data')
          ∙ ap (drop (f * n)) (drop_append (reduce_row verse n 0 row) (reduce_rows verse n rows)))
      ∙ slice-reduce_rows n f rows (omega arith)
