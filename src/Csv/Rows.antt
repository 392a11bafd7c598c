-- ===== src/Csv/Rows.antt =====
-- Which rows of a file the batches of `CsvDataProvider` deliver.
use petace_set_ops.Base.{
  ℕ, ◌+◌, ◌-◌, ◌*◌, ◌≤◌, ◌≡◌, ap, ◌∙◌, List, [], ◌∷◌, ◌++◌, Bool, true, false, arith, Bytes, length,
  length-append, take, All, min, some, inr,
}
use petace_set_ops.Csv.{CsvDataProvider, is_blank, open_csv}
use petace_set_ops.Csv.Lines.{
  IsLine, text, nonblank, nonblank-append, nonblank_same, take_whole, take_append_len,
}
use petace_set_ops.Csv.Batches.{
  read_batches, read_batches-Reads, body, counted_rows, open_csv-Reads,
}

-- A provider that is opened on a file of newline-closed lines, the first being the header if there
-- is one, delivers by k batches of size b into one vector the non-empty ones of the first lines of
-- data: as many lines as k * b, but no more than the provider has counted as rows.
pub read_batches-open_csv :
    (c : ℕ) (path l : Bytes) (ls : List Bytes) (has_header : Bool) (cols k b : ℕ)
    → All IsLine (l ∷ ls)
    → (p : CsvDataProvider) × (open_csv (c ∷ path) (some (text (l ∷ ls))) has_header cols ≡ inr p)
      × (read_batches k b p []
          ≡ nonblank
              (take (min (k * b) (counted_rows has_header (l ∷ ls))) (body has_header (l ∷ ls))))
read_batches-open_csv c path l ls has_header cols k b h =
    let (p, opened, r, at_start, rows) = open_csv-Reads c path l ls has_header cols h in
    (
      p,
      opened,
      read_batches-Reads (body has_header (l ∷ ls)) k b p [] (body_lines has_header) r
          ∙ rw (at_start, rows)
              (ap (λ n. nonblank (take (min (k * b) n) (body has_header (l ∷ ls))))
                (sub_zero (counted_rows has_header (l ∷ ls)))),
    )
  where
    body_lines : (has_header : Bool) → All IsLine (body has_header (l ∷ ls))
    body_lines true = h.1
    body_lines false = h

    sub_zero : (n : ℕ) → n - 0 ≡ n
    sub_zero n = omega arith

counted_every :
    (has_header : Bool) (l : Bytes) (ls : List Bytes)
    → All (λ row. is_blank row ≡ false) (body has_header (l ∷ ls))
    → counted_rows has_header (l ∷ ls) ≡ length (body has_header (l ∷ ls))
counted_every true l ls h = ap length (nonblank_same ls h)
counted_every false l ls h = omega (arith, ap length (nonblank_same ls h.1))

-- If no line of data is empty, enough batches of any size deliver every line of data once, in the
-- file's order.
pub read_batches_whole :
    (c : ℕ) (path l : Bytes) (ls : List Bytes) (has_header : Bool) (cols k b : ℕ)
    → All IsLine (l ∷ ls)
    → All (λ row. is_blank row ≡ false) (body has_header (l ∷ ls))
    → length (body has_header (l ∷ ls)) ≤ k * b
    → (p : CsvDataProvider) × (open_csv (c ∷ path) (some (text (l ∷ ls))) has_header cols ≡ inr p)
      × (read_batches k b p [] ≡ body has_header (l ∷ ls))
read_batches_whole c path l ls has_header cols k b h full enough =
    let (p, opened, e) = read_batches-open_csv c path l ls has_header cols k b h in
    let data_lines = body has_header (l ∷ ls) in
    let n = min (k * b) (counted_rows has_header (l ∷ ls)) in
    let whole : length data_lines ≤ n = omega (arith, counted_every has_header l ls full) in
    (p, opened, e ∙ ap nonblank (take_whole n data_lines whole) ∙ nonblank_same data_lines full)

length_counted :
    (before after : List Bytes) (last : Bytes)
    → All (λ row. is_blank row ≡ false) before
    → All (λ row. is_blank row ≡ false) after
    → is_blank last ≡ false
    → length (nonblank (before ++ [] ∷ after ++ last ∷ [])) ≡ length before + length after + 1
unfolding is_blank
length_counted before after last hb ha hl =
    rw
      (
        nonblank-append (before ++ [] ∷ after) (last ∷ []),
        nonblank-append before ([] ∷ after),
        hl,
        nonblank_same before hb,
        nonblank_same after ha,
      )
      (omega (arith, length-append (before ++ after) (last ∷ []), length-append before after))

-- An empty line in a file without a header costs a row: of `first`, non-empty rows `before`, the
-- empty line, non-empty rows `after`, and a last row, however many batches are read, the last row is
-- never delivered, though it is not empty.
pub read_batches_blank :
    (c : ℕ) (path first : Bytes) (before after : List Bytes) (last : Bytes) (cols k b : ℕ)
    → All IsLine (first ∷ before ++ [] ∷ after ++ last ∷ [])
    → All (λ row. is_blank row ≡ false) (first ∷ before)
    → All (λ row. is_blank row ≡ false) after
    → is_blank last ≡ false
    → length (first ∷ before ++ [] ∷ after ++ last ∷ []) ≤ k * b
    → (p : CsvDataProvider) × (open_csv
          (c ∷ path)
          (some (text (first ∷ before ++ [] ∷ after ++ last ∷ [])))
          false
          cols
        ≡ inr p)
      × (read_batches k b p [] ≡ first ∷ before ++ after)
unfolding is_blank
read_batches_blank c path first before after last cols k b h (hf, hb) ha hl enough =
    let (p, opened, e) =
      read_batches-open_csv c path first (before ++ [] ∷ after ++ last ∷ []) false cols k b h in
    let n = min (k * b) (counted_rows false (first ∷ before ++ [] ∷ after ++ last ∷ [])) in
    let all_but_last = first ∷ before ++ [] ∷ after in
    let sizes : n ≡ length all_but_last = omega (
      arith,
      length_counted before after last hb ha hl,
      length-append all_but_last (last ∷ []),
      length-append (first ∷ before) ([] ∷ after),
    ) in
    (
      p,
      opened,
      e
          ∙ ap (λ m. nonblank (take m (all_but_last ++ last ∷ []))) sizes
          ∙ ap nonblank (take_append_len all_but_last (last ∷ []))
          ∙ nonblank-append (first ∷ before) ([] ∷ after)
          ∙ (λ i. nonblank_same (first ∷ before) (hf, hb) i ++ nonblank_same after ha i),
    )
