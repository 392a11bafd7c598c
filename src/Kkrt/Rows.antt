-- ===== src/Kkrt/Rows.antt =====
-- What stands in the rows that the sender of KKRT-PSI sends.
use mathlib.Core.List.{flatten}
use petace_set_ops.Base.{
  ℕ, zero, suc, ◌+◌, ◌<◌, ◌≡◌, refl, sym, ap, ◌∙◌, List, [], ◌∷◌, ◌++◌, append_assoc, append-nil,
  Bool, true, false, arith, Bytes, length, length-append, get_or, set, get_or-set_self,
  get_or-set_ne, length-set, replicate, length-replicate, ◌==◌, ==_iff, Bool-cases, inl, inr,
  if◌then◌else◌, ℕ_discrete,
}
use petace_set_ops.Psi.Collect.{count_if}
use petace_set_ops.Kkrt.Tables.{Verse, push_mask, encode_bin, encode_bins}

-- Entry t of bin b is the value v under function f.
abbrev pub Entry : List (List (Bytes × ℕ)) → ℕ → ℕ → Bytes → ℕ → Type 0
Entry table b t v f =
    (b < length table)
    × (t < length (get_or table b []))
    × (get_or (get_or table b []) t ([], 0) ≡ (v, f))

module _ (verse : Verse) (key : verse.Key) where
  -- The masks of the entries under function f, in the order of the table.
  unfoldable pub bin_masks : ℕ → ℕ → List (Bytes × ℕ) → List verse.Block
  bin_masks f i [] = []
  bin_masks f i ((value, id) ∷ entries) =
      let rest = bin_masks f i entries in
      if id == f then verse.encode key i (verse.block_of_bytes value) ∷ rest else rest

  unfoldable pub table_masks : ℕ → ℕ → List (List (Bytes × ℕ)) → List verse.Block
  table_masks f i [] = []
  table_masks f i (entries ∷ bins) = bin_masks f i entries ++ table_masks f (i + 1) bins

  length-push_mask :
      (rows : List (List verse.Block)) (id : ℕ) (mask : verse.Block)
      → length (push_mask verse rows id mask) ≡ length rows
  unfolding push_mask
  length-push_mask rows id mask = length-set rows id (get_or rows id [] ++ mask ∷ [])

  row-push_mask :
      (rows : List (List verse.Block)) (id f : ℕ) (mask : verse.Block) (rest : List verse.Block)
      → f < length rows
      → get_or (push_mask verse rows id mask) f [] ++ rest
        ≡ get_or rows f [] ++ (if id == f then mask ∷ rest else rest)
  unfolding push_mask
  row-push_mask rows id f mask rest lt = elim (ℕ_discrete id f) [
    | yes same ↦
        let here : (id == f) ≡ true = (==_iff id f).1 same in
        rw here (
          ap (λ k. get_or (set rows k (get_or rows k [] ++ mask ∷ [])) f [] ++ rest) same
          ∙ ap (λ r. r ++ rest) (get_or-set_self rows f (get_or rows f [] ++ mask ∷ []) [] lt)
          ∙ append_assoc (get_or rows f []) (mask ∷ []) rest)
    | no other ↦
        let apart : (id == f) ≡ false = ground (arith, other) in
        rw apart
          (ap (λ r. r ++ rest) (get_or-set_ne rows id f (get_or rows id [] ++ mask ∷ []) [] other))
  ]

  length-encode_bin :
      (i : ℕ) (entries : List (Bytes × ℕ)) (rows : List (List verse.Block))
      → length (encode_bin verse key i entries rows) ≡ length rows
  unfolding encode_bin
  length-encode_bin i [] rows = refl
  length-encode_bin i ((value, id) ∷ entries) rows =
      length-encode_bin i entries _ ∙ length-push_mask rows id _

  row-encode_bin :
      (i f : ℕ) (entries : List (Bytes × ℕ)) (rows : List (List verse.Block))
      → f < length rows
      → get_or (encode_bin verse key i entries rows) f []
        ≡ get_or rows f [] ++ bin_masks f i entries
  unfolding encode_bin bin_masks
  row-encode_bin i f [] rows lt = sym (append-nil (get_or rows f []))
  row-encode_bin i f ((value, id) ∷ entries) rows lt =
      let mask = verse.encode key i (verse.block_of_bytes value) in
      row-encode_bin i f entries _ (omega (arith, lt, length-push_mask rows id mask))
      ∙ row-push_mask rows id f mask (bin_masks f i entries) lt

  length-encode_bins :
      (i : ℕ) (table : List (List (Bytes × ℕ))) (rows : List (List verse.Block))
      → length (encode_bins verse key i table rows) ≡ length rows
  unfolding encode_bins
  length-encode_bins i [] rows = refl
  length-encode_bins i (entries ∷ bins) rows =
      length-encode_bins (i + 1) bins _ ∙ length-encode_bin i entries rows

  row-encode_bins :
      (i f : ℕ) (table : List (List (Bytes × ℕ))) (rows : List (List verse.Block))
      → f < length rows
      → get_or (encode_bins verse key i table rows) f [] ≡ get_or rows f [] ++ table_masks f i table
  unfolding encode_bins table_masks
  row-encode_bins i f [] rows lt = sym (append-nil (get_or rows f []))
  row-encode_bins i f (entries ∷ bins) rows lt =
      row-encode_bins (i + 1) f bins _ (omega (arith, lt, length-encode_bin i entries rows))
      ∙ ap (λ r. r ++ table_masks f (i + 1) bins) (row-encode_bin i f entries rows lt)
      ∙ append_assoc (get_or rows f []) (bin_masks f i entries) (table_masks f (i + 1) bins)

  get_or-replicate_nil : (n k : ℕ) → ◌≡◌ {A = List verse.Block} (get_or (replicate n []) k []) []
  get_or-replicate_nil zero k = refl
  get_or-replicate_nil (suc n) zero = refl
  get_or-replicate_nil (suc n) (suc k) = get_or-replicate_nil n k

  -- The row of function f holds the masks of all entries under f.
  pub encoded_row :
      (n f : ℕ) (table : List (List (Bytes × ℕ)))
      → f < n
      → get_or (encode_bins verse key 0 table (replicate n [])) f [] ≡ table_masks f 0 table
  encoded_row n f table lt =
      row-encode_bins 0 f table (replicate n [])
        (omega (arith, lt, length-replicate {A = List verse.Block} n []))
      ∙ ap (λ r. r ++ table_masks f 0 table) (get_or-replicate_nil n f)

  bin_masks-length :
      (f i : ℕ) (entries : List (Bytes × ℕ))
      → length (bin_masks f i entries) ≡ count_if (λ e. e.1 == f) entries
  unfolding bin_masks count_if
  bin_masks-length f i [] = refl
  bin_masks-length f i ((value, id) ∷ entries) = elim (Bool-cases (id == f)) [
    | inl e ↦ rw e (omega (arith, bin_masks-length f i entries))
    | inr e ↦ rw e (omega (arith, bin_masks-length f i entries))
  ]

  count_if-append :
      (test : Bytes × ℕ → Bool) (xs ys : List (Bytes × ℕ))
      → count_if test (xs ++ ys) ≡ count_if test xs + count_if test ys
  unfolding count_if
  count_if-append test [] ys = omega arith
  count_if-append test (x ∷ xs) ys = omega (arith, count_if-append test xs ys)

  pub table_masks-length :
      (f i : ℕ) (table : List (List (Bytes × ℕ)))
      → length (table_masks f i table) ≡ count_if (λ e. e.1 == f) (flatten table)
  unfolding table_masks count_if flatten
  table_masks-length f i [] = refl
  table_masks-length f i (entries ∷ bins) = omega (
    arith,
    length-append (bin_masks f i entries) (table_masks f (i + 1) bins),
    bin_masks-length f i entries,
    table_masks-length f (i + 1) bins,
    count_if-append (λ e. e.1 == f) entries (flatten bins),
  )
