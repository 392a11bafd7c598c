-- ===== src/Csv/Batches.antt =====
-- Reading a whole file batch by batch.
use petace_set_ops.Base.{
  ℕ, zero, suc, ◌+◌, ◌-◌, ◌*◌, ◌≤◌, ◌≡◌, refl, sym, ap, ◌∙◌, List, [], ◌∷◌, ◌++◌, append_assoc,
  append-nil, Bool, true, false, arith, Bytes, length, length-drop, take, drop, All, min, none,
  some, inr,
}
use petace_set_ops.Csv.{
  CsvDataProvider, start, count_rows_and_coulmns, open_csv, read_lines_count, advance, read_loop,
  batch, get_next_batch,
}
use petace_set_ops.Csv.Lines.{
  IsLine, text, nonblank, getline-line, length-text, count_rows-text, read_loop-text,
  nonblank-append, length-nonblank, take_add, drop_add,
}

-- The provider stands in front of the line at its index, and its row number is within the lines.
pub record Reads (ls : List Bytes) (p : CsvDataProvider) : Type 0 where
  pub stream : p.file_stream_in ≡ start (text (drop p.cur_line_idx ls))
  pub in_rows : p.cur_line_idx ≤ p.rows_num
  pub enough : p.rows_num ≤ length ls

-- The lines that the next batch reads.
abbrev pub next_lines : ℕ → CsvDataProvider → List Bytes → List Bytes
next_lines batch_size p ls =
    take (min batch_size (p.rows_num - p.cur_line_idx)) (drop p.cur_line_idx ls)

All-drop : (P : Bytes → Type 0) (n : ℕ) (ls : List Bytes) → All P ls → All P (drop n ls)
All-drop P zero ls h = h
All-drop P (suc n) [] h = tt
All-drop P (suc n) (l ∷ ls) (hl, h) = All-drop P n ls h

pub read_lines_count-min :
    (b : ℕ) (p : CsvDataProvider)
    → p.cur_line_idx ≤ p.rows_num
    → read_lines_count b p ≡ min b (p.rows_num - p.cur_line_idx)
unfolding read_lines_count
read_lines_count-min b p h = ground arith

-- One batch appends the non-empty lines among the next ones and goes on behind them.
get_next_batch-Reads :
    (ls : List Bytes) (b : ℕ) (p : CsvDataProvider) (items : List Bytes)
    → All IsLine ls
    → Reads ls p
    → (let (p', items', thrown) = get_next_batch b p items in
        (items' ≡ items ++ nonblank (next_lines b p ls))
        × Reads ls p'
        × (p'.cur_line_idx ≡ p.cur_line_idx + min b (p.rows_num - p.cur_line_idx))
        × (p'.rows_num ≡ p.rows_num)
        × (thrown ≡ none))
unfolding get_next_batch batch read_lines_count advance
get_next_batch-Reads ls zero p items h r =
    let none_left : min 0 (p.rows_num - p.cur_line_idx) ≡ 0 = omega arith in
    (
      sym (append-nil items)
          ∙ ap (λ n. items ++ nonblank (take n (drop p.cur_line_idx ls))) (sym none_left),
      r,
      omega arith,
      refl,
      refl,
    )
get_next_batch-Reads ls (suc b) p items h r =
    rw (r.stream, whole)
      ((
        ap (λ n. items ++ nonblank (take n (drop p.cur_line_idx ls))) counted,
        record {
          stream = ap (λ rest. start (text rest)) (sym (drop_add p.cur_line_idx n ls));
          in_rows = omega (arith, counted, r.in_rows);
          enough = r.enough;
        },
        ap (λ k. p.cur_line_idx + k) counted,
        refl,
        refl,
      ))
  where
    n : ℕ
    n = read_lines_count (suc b) p

    counted : n ≡ min (suc b) (p.rows_num - p.cur_line_idx)
    counted = read_lines_count-min (suc b) p r.in_rows

    whole :
        read_loop
          (λ line items. (items ++ line ∷ [], none))
          n
          (start (text (drop p.cur_line_idx ls)))
          []
          items
        ≡ (
          start (text (drop n (drop p.cur_line_idx ls))),
          items ++ nonblank (take n (drop p.cur_line_idx ls)),
          none,
        )
    whole =
        read_loop-text n (drop p.cur_line_idx ls) [] items (All-drop _ p.cur_line_idx ls h)
          (omega (arith, counted, r.enough, length-drop p.cur_line_idx ls))

-- k batches of one size into one vector
unfoldable pub read_batches : ℕ → ℕ → CsvDataProvider → List Bytes → List Bytes
read_batches zero b p items = items
read_batches (suc k) b p items =
    let (p', items', thrown) = get_next_batch b p items in read_batches k b p' items'

-- Two runs of lines, one behind the other, are one run.
nonblank_runs :
    (ls : List Bytes) (m n total i j : ℕ) (items items' : List Bytes)
    → items' ≡ items ++ nonblank (take m (drop i ls))
    → j ≡ i + m
    → total ≡ m + n
    → items' ++ nonblank (take n (drop j ls)) ≡ items ++ nonblank (take total (drop i ls))
nonblank_runs ls m n total i j items items' e ej et =
    rw
      (
        e,
        ej,
        et,
        drop_add i m ls,
        take_add m n (drop i ls),
        nonblank-append (take m (drop i ls)) (take n (drop m (drop i ls))),
      )
      (append_assoc items _ _)

-- However a file is cut into batches, they give the non-empty ones of the lines that are read.
pub read_batches-Reads :
    (ls : List Bytes) (k b : ℕ) (p : CsvDataProvider) (items : List Bytes)
    → All IsLine ls
    → Reads ls p
    → read_batches k b p items ≡ items ++ nonblank (next_lines (k * b) p ls)
unfolding read_batches
read_batches-Reads ls zero b p items h r =
    let none_left : min (0 * b) (p.rows_num - p.cur_line_idx) ≡ 0 = omega arith in
    sym (append-nil items)
    ∙ ap (λ n. items ++ nonblank (take n (drop p.cur_line_idx ls))) (sym none_left)
read_batches-Reads ls (suc k) b p items h r =
    let (e, r', cur, rows, quiet) = get_next_batch-Reads ls b p items h r in
    read_batches-Reads ls k b _ _ h r'
    ∙ nonblank_runs ls (min b (p.rows_num - p.cur_line_idx)) _ _ p.cur_line_idx _ items _ e cur
        (omega (arith, cur, rows))

-- The lines that hold data: without the header, if there is one.
abbrev pub body : Bool → List Bytes → List Bytes
body true [] = []
body true (l ∷ ls) = ls
body false ls = ls

-- The number of rows that the provider counts: the lines that are not empty, of a file without a
-- header its first line in any case.
abbrev pub counted_rows : Bool → List Bytes → ℕ
counted_rows true ls = length (nonblank (body true ls))
counted_rows false ls = 1 + length (nonblank (body true ls))

count_rows_and_coulmns-text :
    (l : Bytes) (ls : List Bytes) (has_header : Bool)
    → All IsLine (l ∷ ls)
    → (count_rows_and_coulmns (text (l ∷ ls)) has_header).0 ≡ counted_rows has_header (l ∷ ls)
unfolding count_rows_and_coulmns
count_rows_and_coulmns-text l ls true (hl, h) =
    rw (getline-line l (text ls) [] hl)
      (count_rows-text ls _ l 0 h (omega (arith, length-text (l ∷ ls))) ∙ omega arith)
count_rows_and_coulmns-text l ls false (hl, h) =
    rw (getline-line l (text ls) [] hl)
      (count_rows-text ls _ l 1 h (omega (arith, length-text (l ∷ ls))))

-- The provider of a file with some lines stands in front of its first line of data.
pub open_csv-Reads :
    (c : ℕ) (path : Bytes) (l : Bytes) (ls : List Bytes) (has_header : Bool) (cols : ℕ)
    → All IsLine (l ∷ ls)
    → (p : CsvDataProvider) × (open_csv (c ∷ path) (some (text (l ∷ ls))) has_header cols ≡ inr p)
      × Reads (body has_header (l ∷ ls)) p
      × (p.cur_line_idx ≡ 0)
      × (p.rows_num ≡ counted_rows has_header (l ∷ ls))
unfolding open_csv
open_csv-Reads c path l ls true cols h =
    let n = count_rows_and_coulmns-text l ls true h in
    (
      _,
      refl,
      record {
        stream = ap (λ r. r.0) (getline-line l (text ls) [] h.0);
        in_rows = omega arith;
        enough = omega (arith, n, length-nonblank ls);
      },
      refl,
      n,
    )
open_csv-Reads c path l ls false cols h =
    let n = count_rows_and_coulmns-text l ls false h in
    (
      _,
      refl,
      record {
        stream = refl;
        in_rows = omega arith;
        enough = omega (arith, n, length-nonblank ls);
      },
      refl,
      n,
    )
