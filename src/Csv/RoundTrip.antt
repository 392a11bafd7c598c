-- ===== src/Csv/RoundTrip.antt =====
-- A file that `write_data_to_file` writes, read by the provider.
use petace_set_ops.Base.{
  ℕ, zero, suc, ◌+◌, ◌^◌, ◌≤◌, ◌<◌, ◌≡◌, refl, sym, ap, ◌∙◌, List, [], ◌∷◌, ◌++◌, append_assoc,
  append-nil, true, false, arith, Bytes, length, get_or, drop, All, Option, none, some, ◌⊎◌, inl,
  inr, ◌==◌,
}
use petace_set_ops.Csv.Stoull.{Exception, stoull, is_digit}
use petace_set_ops.Csv.Stoull.Decimal.{stoull-decimal, digits-All}
use petace_set_ops.Csv.Write.{write_data_to_file, write_rows, write_row, fields, row, decimal}
use petace_set_ops.Csv.{
  CsvDataProvider, Stream, start, comma, newline, split_at, is_blank, getline, read_pair, read_loop,
  read_lines_count, batch, open_csv, get_next_batch_with_payloads,
}
use petace_set_ops.Csv.Lines.{IsLine, text, getline-line, nonblank_same}
use petace_set_ops.Csv.Batches.{open_csv-Reads, read_lines_count-min}

-- A text without commas.
abbrev pub IsCell : Bytes → Type 0
IsCell cell = All (λ c. (c == comma) ≡ false) cell

abbrev line_of : Bytes → ℕ → Bytes
line_of key n = key ++ comma ∷ decimal n

abbrev lines_of : List Bytes → List ℕ → List Bytes
lines_of [] ns = []
lines_of (key ∷ keys) [] = []
lines_of (key ∷ keys) (n ∷ ns) = line_of key n ∷ lines_of keys ns

drop_step {ℓ} :
    {A : Type ℓ} (xs : List A) (j : ℕ) (d : A)
    → j < length xs
    → drop j xs ≡ get_or xs j d ∷ drop (j + 1) xs
drop_step [] j d h = elim h [ ]
drop_step (x ∷ xs) zero d h = refl
drop_step (x ∷ xs) (suc j) d h =
    let next : suc (j + 1) ≡ suc j + 1 = omega arith in
    drop_step xs j d (omega arith) ∙ ap (λ k. get_or xs j d ∷ drop k (x ∷ xs)) next

drop_end {ℓ} : {A : Type ℓ} (xs : List A) (j : ℕ) → length xs ≤ j → ◌≡◌ {A = List A} (drop j xs) []
drop_end [] zero h = refl
drop_end [] (suc j) h = refl
drop_end (x ∷ xs) zero h = absurd (omega arith)
drop_end (x ∷ xs) (suc j) h = drop_end xs j (omega arith)

-- One row of a column of keys and a column of payloads.
write_row-line :
    (keys : List Bytes) (payloads : List ℕ) (j : ℕ) (rest : Bytes)
    → write_row (keys ∷ []) (payloads ∷ []) j ++ rest
      ≡ line_of (get_or keys j []) (get_or payloads j 0) ++ newline ∷ rest
unfolding write_row fields row
write_row-line keys payloads j rest =
    let key = get_or keys j [] in
    let number = decimal (get_or payloads j 0) in
    append_assoc (key ++ comma ∷ []) (number ++ newline ∷ []) rest
    ∙ append_assoc key (comma ∷ []) ((number ++ newline ∷ []) ++ rest)
    ∙ ap (λ r. key ++ comma ∷ r) (append_assoc number (newline ∷ []) rest)
    ∙ sym (append_assoc key (comma ∷ number) (newline ∷ rest))

write_rows-lines :
    (keys : List Bytes) (payloads : List ℕ) (rounds j : ℕ)
    → rounds + j ≡ length keys
    → length payloads ≡ length keys
    → write_rows (keys ∷ []) (payloads ∷ []) rounds j
      ≡ text (lines_of (drop j keys) (drop j payloads))
unfolding write_rows
write_rows-lines keys payloads zero j e same =
    ap (λ l. text (lines_of l (drop j payloads))) (sym (drop_end keys j (omega (arith, e))))
write_rows-lines keys payloads (suc rounds) j e same =
    write_row-line keys payloads j (write_rows (keys ∷ []) (payloads ∷ []) rounds (j + 1))
    ∙ ap (λ r. line_of (get_or keys j []) (get_or payloads j 0) ++ newline ∷ r)
        (write_rows-lines keys payloads rounds (j + 1) (omega (arith, e)) same)
    ∙ sym (λ i. text (
        lines_of (drop_step keys j [] (omega (arith, e)) i)
          (drop_step payloads j 0 (omega (arith, e, same)) i)))

split_at-cell :
    (cell rest : Bytes) → IsCell cell → split_at comma (cell ++ comma ∷ rest) ≡ (cell, rest, true)
unfolding split_at
split_at-cell [] rest h = refl
split_at-cell (c ∷ cell) rest (e, h) = rw (e, split_at-cell cell rest h) refl

split_at-last : (cell : Bytes) → IsCell cell → split_at comma cell ≡ (cell, [], false)
unfolding split_at
split_at-last [] h = refl
split_at-last (c ∷ cell) (e, h) = rw (e, split_at-last cell h) refl

-- Digits are neither commas nor ends of lines.
digits-IsCell : (cell : Bytes) → All (λ d. is_digit d ≡ true) cell → IsCell cell × IsLine cell
unfolding is_digit
digits-IsCell [] h = (tt, tt)
digits-IsCell (c ∷ cell) (hc, h) =
    let (cells, line) = digits-IsCell cell h in
    let no_comma : (c == comma) ≡ false = ground (arith, hc) in
    let no_newline : (c == newline) ≡ false = ground (arith, hc) in
    ((no_comma, cells), (no_newline, line))

decimal-IsCell : (n : ℕ) → IsCell (decimal n) × IsLine (decimal n)
unfolding decimal
decimal-IsCell n = digits-IsCell (decimal n) (digits-All 20 n)

getline-cell :
    (cell rest str : Bytes)
    → IsCell cell
    → getline comma (start (cell ++ comma ∷ rest)) str ≡ (start rest, cell)
unfolding getline
getline-cell cell rest str h = rw (split_at-cell cell rest h) refl

getline-last : (cell str : Bytes) → IsCell cell → (getline comma (start cell) str).1 ≡ cell
unfolding getline
getline-last cell str h = rw (split_at-last cell h) refl

-- A line of the file is read as the key and the number that were written.
read_pair-line :
    (key : Bytes) (n : ℕ) (items : List Bytes) (payloads : List ℕ)
    → IsCell key
    → n < 2 ^ 64
    → read_pair (line_of key n) (items, payloads) ≡ ((items ++ key ∷ [], payloads ++ n ∷ []), none)
unfolding read_pair
read_pair-line key n items payloads h fits =
    (λ i. after (getline-cell key (decimal n) [] h i))
    ∙ ap (λ payload. read (stoull payload)) (getline-last (decimal n) key (decimal-IsCell n).0)
    ∙ ap read (stoull-decimal n fits)
  where
    read : Exception ⊎ ℕ → (List Bytes × List ℕ) × Option Exception
    read r = elim r [
      | inl e ↦ ((items ++ key ∷ [], payloads), some e)
      | inr m ↦ ((items ++ key ∷ [], payloads ++ m ∷ []), none)
    ]

    after : Stream × Bytes → (List Bytes × List ℕ) × Option Exception
    after (ss, item) = elim (stoull (getline comma ss item).1) [
      | inl e ↦ ((items ++ item ∷ [], payloads), some e)
      | inr m ↦ ((items ++ item ∷ [], payloads ++ m ∷ []), none)
    ]

line_of-is_blank : (key : Bytes) (n : ℕ) → is_blank (line_of key n) ≡ false
unfolding is_blank
line_of-is_blank [] n = refl
line_of-is_blank (c ∷ key) n = refl

append-IsLine : (l m : Bytes) → IsLine l → IsLine m → IsLine (l ++ m)
append-IsLine [] m hl hm = hm
append-IsLine (c ∷ l) m (h, hl) hm = (h, append-IsLine l m hl hm)

line_of-IsLine : (key : Bytes) (n : ℕ) → IsLine key → IsLine (line_of key n)
line_of-IsLine key n h = append-IsLine key (comma ∷ decimal n) h (refl, (decimal-IsCell n).1)

lines_of-IsLine :
    (keys : List Bytes) (ns : List ℕ) → All IsLine keys → All IsLine (lines_of keys ns)
lines_of-IsLine [] ns h = tt
lines_of-IsLine (key ∷ keys) [] h = tt
lines_of-IsLine (key ∷ keys) (n ∷ ns) (hk, h) = (line_of-IsLine key n hk, lines_of-IsLine keys ns h)

lines_of-is_blank :
    (keys : List Bytes) (ns : List ℕ) → All (λ l. is_blank l ≡ false) (lines_of keys ns)
lines_of-is_blank [] ns = tt
lines_of-is_blank (key ∷ keys) [] = tt
lines_of-is_blank (key ∷ keys) (n ∷ ns) = (line_of-is_blank key n, lines_of-is_blank keys ns)

length-lines_of :
    (keys : List Bytes) (ns : List ℕ)
    → length ns ≡ length keys
    → length (lines_of keys ns) ≡ length keys
length-lines_of [] ns e = refl
length-lines_of (key ∷ keys) [] e = absurd (omega arith)
length-lines_of (key ∷ keys) (n ∷ ns) e = ap suc (length-lines_of keys ns (omega arith))

-- The loop of a batch reads all keys and payloads back.
read_loop-lines :
    (keys : List Bytes) (ns : List ℕ) (line : Bytes) (items : List Bytes) (payloads : List ℕ)
    → length ns ≡ length keys
    → All IsLine keys
    → All IsCell keys
    → All (λ n. n < 2 ^ 64) ns
    → read_loop read_pair (length keys) (start (text (lines_of keys ns))) line (items, payloads)
      ≡ (start [], (items ++ keys, payloads ++ ns), none)
unfolding read_loop
read_loop-lines [] [] line items payloads e hl hc hn =
    sym (λ i. (start [], (append-nil items i, append-nil payloads i), none))
read_loop-lines [] (n ∷ ns) line items payloads e hl hc hn = absurd (omega arith)
read_loop-lines (key ∷ keys) [] line items payloads e hl hc hn = absurd (omega arith)
read_loop-lines (key ∷ keys) (n ∷ ns) line items payloads e (hl, hls) (hc, hcs) (hn, hns) =
    rw
      (
        getline-line (line_of key n) (text (lines_of keys ns)) line (line_of-IsLine key n hl),
        line_of-is_blank key n,
        read_pair-line key n items payloads hc hn,
      )
      (read_loop-lines keys ns (line_of key n) (items ++ key ∷ []) (payloads ++ n ∷ [])
          (omega arith) hls hcs hns
        ∙ (λ i. (
          start [],
          (append_assoc items (key ∷ []) keys i, append_assoc payloads (n ∷ []) ns i),
          none,
        )))

-- Let a column of keys without commas and ends of lines, and a column of as many 64-bit payloads, one or
-- more, be written to a file without a header. Then the provider opens the file, and one batch of at
-- least as many lines delivers the same keys and payloads in the same order, without an exception.
pub write_then_read :
    (c : ℕ) (path key : Bytes) (keys : List Bytes) (n : ℕ) (ns : List ℕ) (b : ℕ)
    → length ns ≡ length keys
    → All IsLine (key ∷ keys)
    → All IsCell (key ∷ keys)
    → All (λ n. n < 2 ^ 64) (n ∷ ns)
    → length keys ≤ b
    → (content : Bytes) × (p : CsvDataProvider) × (write_data_to_file
          ((key ∷ keys) ∷ [])
          ((n ∷ ns) ∷ [])
          false
          []
        ≡ inr content)
      × (open_csv (c ∷ path) (some content) false 1 ≡ inr p)
      × ((get_next_batch_with_payloads (suc b) p ([], [])).1 ≡ (key ∷ keys, n ∷ ns))
      × ((get_next_batch_with_payloads (suc b) p ([], [])).2 ≡ none)
unfolding write_data_to_file get_next_batch_with_payloads batch
write_then_read c path key keys n ns b e hl hc hn enough =
    let (p, opened, reads, at_start, rows) =
      open_csv-Reads c path (line_of key n) (lines_of keys ns) false 1
        (lines_of-IsLine (key ∷ keys) (n ∷ ns) hl) in
    let counted : p.rows_num ≡ length (key ∷ keys) = omega (
      arith,
      rows,
      ap length (nonblank_same (lines_of keys ns) (lines_of-is_blank keys ns)),
      length-lines_of keys ns e,
    ) in
    let whole : read_lines_count (suc b) p ≡ length (key ∷ keys) =
      omega (arith, read_lines_count-min (suc b) p reads.in_rows, at_start, counted, enough) in
    let stream : p.file_stream_in ≡ start (text (lines_of (key ∷ keys) (n ∷ ns))) =
      reads.stream ∙ ap (λ k. start (text (drop k (lines_of (key ∷ keys) (n ∷ ns))))) at_start in
    let read =
      (λ i. read_loop read_pair (whole i) (stream i) [] ([], []))
      ∙ read_loop-lines (key ∷ keys) (n ∷ ns) [] [] [] (omega (arith, e)) hl hc hn in
    (
      text (lines_of (key ∷ keys) (n ∷ ns)),
      p,
      ap inr (
          write_rows-lines (key ∷ keys) (n ∷ ns) (length (key ∷ keys)) 0 (omega arith)
            (omega (arith, e))),
      opened,
      ap (λ r. r.1) read,
      ap (λ r. r.2) read,
    )
