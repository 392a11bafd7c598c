-- ===== src/Csv.antt =====
-- src/setops/data/csv_data_provider.h and csv_data_provider.cpp. A file is the vector of its
-- characters; `std::getline` is written out with its flags, since the provider's loops depend on
-- what it does to a stream that is at its end.
pub mod Stoull
pub mod Write
pub mod Lines
pub mod Batches
pub mod Counting
pub mod Rows
pub mod RoundTrip
pub mod Cursor
pub mod Tests
use petace_set_ops.Base.{
  ℕ, zero, suc, ◌+◌, ◌-◌, ◌^◌, List, [], ◌∷◌, ◌++◌, Bool, true, false, not, ◌||◌, Bytes, ◌==◌, ltb,
  leb, if◌then◌else◌, length, get_or, set, resize, Option, none, some, ◌⊎◌, inl, inr,
}
use petace_set_ops.Csv.Stoull.{
  Exception, file_path_is_empty, file_read_failed, vector_too_long, stoull,
}

-- A stream: the characters that are left, and its flags `eofbit` and `failbit`.
pub record Stream : Type 0 where
  pub rest : Bytes
  pub eof : Bool
  pub failed : Bool

-- Up to the first delimiter; the flag says whether there is one.
unfoldable pub split_at : ℕ → Bytes → Bytes × Bytes × Bool
split_at delim [] = ([], [], false)
split_at delim (c ∷ cs) =
    let (line, rest, found) = split_at delim cs in
    if c == delim then ([], cs, true) else (c ∷ line, rest, found)

unfoldable pub is_blank : Bytes → Bool
is_blank [] = true
is_blank (c ∷ cs) = false

-- `std::getline(stream, str, delim)`. A stream with a flag set leaves the string as it is.
unfoldable pub getline : ℕ → Stream → Bytes → Stream × Bytes
getline delim s str =
    let (line, rest, found) = split_at delim s.rest in
    if s.eof || s.failed
    then (record { rest = s.rest; eof = s.eof; failed = true }, str)
    else if found
    then (record { rest = rest; eof = false; failed = false }, line)
    else (record { rest = []; eof = true; failed = is_blank line }, line)

abbrev pub newline : ℕ
newline = 10

abbrev pub comma : ℕ
comma = 44

-- A stream at its start.
abbrev pub start : Bytes → Stream
start content = record { rest = content; eof = false; failed = false }

-- `while (std::getline(ss, column_str, ',')) if (!column_str.empty()) ++cols;`, with fuel.
unfoldable pub count_columns : ℕ → Stream → Bytes → ℕ → ℕ
count_columns zero ss column_str cols = cols
count_columns (suc fuel) ss column_str cols =
    let (ss', column) = getline comma ss column_str in
    let rest = count_columns fuel ss' column (if is_blank column then cols else cols + 1) in
    if ss'.failed then cols else rest

-- `while (getline(in, line)) if (!line.empty()) ++raws;`, with fuel.
unfoldable pub count_rows : ℕ → Stream → Bytes → ℕ → ℕ
count_rows zero in_file line raws = raws
count_rows (suc fuel) in_file line raws =
    let (in_file', line') = getline newline in_file line in
    let rest = count_rows fuel in_file' line' (if is_blank line' then raws else raws + 1) in
    if in_file'.failed then raws else rest

-- The stream is at its start when this returns. Every round takes a character or sets a flag.
unfoldable pub count_rows_and_coulmns : Bytes → Bool → ℕ × ℕ
count_rows_and_coulmns content has_header =
    let (in_file, line) = getline newline (start content) [] in
    (
      count_rows (suc (length content)) in_file line (if has_header then 0 else 1),
      count_columns (suc (length line)) (start line) [] 0,
    )

pub record CsvDataProvider : Type 0 where
  pub has_header : Bool
  pub content : Bytes
  pub file_stream_in : Stream
  pub cur_line_idx : ℕ
  pub rows_num : ℕ
  pub columns_num : ℕ
  pub items_columns_num : ℕ

-- `if (has_header_) std::getline(file_stream_in_, header_line);`
abbrev pub skip_header : Bool → Stream → Stream
skip_header true s = (getline newline s []).0
skip_header false s = s

-- The constructor. There is no content where the file cannot be opened.
unfoldable pub open_csv : Bytes → Option Bytes → Bool → ℕ → Exception ⊎ CsvDataProvider
open_csv [] file has_header items_columns_num = inl file_path_is_empty
open_csv (c ∷ file_path) none has_header items_columns_num = inl file_read_failed
open_csv (c ∷ file_path) (some content) has_header items_columns_num =
    let (rows_num, columns_num) = count_rows_and_coulmns content has_header in
    inr (record {
      has_header = has_header;
      content = content;
      file_stream_in = skip_header has_header (start content);
      cur_line_idx = 0;
      rows_num = rows_num;
      columns_num = columns_num;
      items_columns_num = items_columns_num;
    })

unfoldable pub seek_begin : CsvDataProvider → CsvDataProvider
seek_begin p = record {
  has_header = p.has_header;
  content = p.content;
  file_stream_in = skip_header p.has_header (start p.content);
  cur_line_idx = 0;
  rows_num = p.rows_num;
  columns_num = p.columns_num;
  items_columns_num = p.items_columns_num;
}

-- `a - b` of two `std::size_t`
abbrev pub sub64 : ℕ → ℕ → ℕ
sub64 a b = if leb b a then a - b else a + 2 ^ 64 - b

-- `std::min(batch_size, rows_num_ - cur_line_idx_)`
unfoldable pub read_lines_count : ℕ → CsvDataProvider → ℕ
read_lines_count batch_size p =
    let left = sub64 p.rows_num p.cur_line_idx in if ltb left batch_size then left else batch_size

-- The end of a batch: `cur_line_idx_ += read_lines_count`, which an exception skips.
unfoldable pub advance : CsvDataProvider → Stream → ℕ → Option Exception → CsvDataProvider
advance p s n thrown = record {
  has_header = p.has_header;
  content = p.content;
  file_stream_in = s;
  cur_line_idx = elim thrown [ none ↦ p.cur_line_idx + n | some e ↦ p.cur_line_idx ];
  rows_num = p.rows_num;
  columns_num = p.columns_num;
  items_columns_num = p.items_columns_num;
}

-- What a batch leaves: the provider, the output vectors, and the exception if one was thrown.
abbrev pub Batch : Type 0 → Type 0
Batch S = CsvDataProvider × S × Option Exception

-- An exception leaves the loop.
abbrev pub unless_thrown :
    {S : Type 0}
    → Stream × S × Option Exception
    → Stream
    → S
    → Option Exception
    → Stream × S × Option Exception
unless_thrown rest s out none = rest
unless_thrown rest s out (some e) = (s, out, some e)

module _ {S : Type 0} (body : Bytes → S → S × Option Exception) where
  -- `while (count++ < read_lines_count) { std::getline(…); if (!cur_line.empty()) {…} }`
  unfoldable pub read_loop : ℕ → Stream → Bytes → S → Stream × S × Option Exception
  read_loop zero s cur_line out = (s, out, none)
  read_loop (suc n) s cur_line out =
      let (s', line) = getline newline s cur_line in
      let (out', thrown) = if is_blank line then (out, none) else body line out in
      let rest = read_loop n s' line out' in unless_thrown rest s' out' thrown

  -- The rest of a batch, `prepare` being what it does to the output vectors before.
  unfoldable pub batch : (S → S) → ℕ → CsvDataProvider → S → Batch S
  unfolding read_loop
  batch prepare zero p out = (p, out, none)
  batch prepare (suc size) p out =
      let n = read_lines_count (suc size) p in
      let (s, out', thrown) = read_loop n p.file_stream_in [] (prepare out) in
      (advance p s n thrown, out', thrown)

unfoldable pub get_next_batch : ℕ → CsvDataProvider → List Bytes → Batch (List Bytes)
get_next_batch batch_size p items =
    batch (λ line items. (items ++ line ∷ [], none)) (λ items. items) batch_size p items

-- `vectors[idx].emplace_back(x)`
abbrev pub push_at {ℓ} : {A : Type ℓ} → List (List A) → ℕ → A → List (List A)
push_at vectors idx x = set vectors idx (get_or vectors idx [] ++ x ∷ [])

-- One line's items, of which `rounds` are left.
unfoldable pub item_columns :
    ℕ → ℕ → Stream → Bytes → List (List Bytes) → Stream × Bytes × List (List Bytes)
item_columns zero idx ss column_str items = (ss, column_str, items)
item_columns (suc rounds) idx ss column_str items =
    let (ss', column) = getline comma ss column_str in
    item_columns rounds (idx + 1) ss' column (push_at items idx column)

unfoldable pub get_next_batch_2d :
    ℕ → CsvDataProvider → List (List Bytes) → Batch (List (List Bytes))
get_next_batch_2d batch_size p items =
    batch
      (λ line items.
        let (ss, column, items') = item_columns p.items_columns_num 0 (start line) [] items in
        (items', none))
      (resize p.items_columns_num []) batch_size p items

-- One line's item and payload.
unfoldable pub read_pair : Bytes → List Bytes × List ℕ → (List Bytes × List ℕ) × Option Exception
read_pair line (items, payloads) =
    let (ss, item) = getline comma (start line) [] in
    let (ss', payload) = getline comma ss item in
    elim (stoull payload) [
      | inl e ↦ ((items ++ item ∷ [], payloads), some e)
      | inr n ↦ ((items ++ item ∷ [], payloads ++ n ∷ []), none)
    ]

unfoldable pub get_next_batch_with_payloads :
    ℕ → CsvDataProvider → List Bytes × List ℕ → Batch (List Bytes × List ℕ)
get_next_batch_with_payloads batch_size p out = batch read_pair (λ out. out) batch_size p out

-- One line's payloads, of which `rounds` are left.
unfoldable pub payload_columns :
    ℕ → ℕ → Stream → Bytes → List (List ℕ) → List (List ℕ) × Option Exception
payload_columns zero idx ss column_str payloads = (payloads, none)
payload_columns (suc rounds) idx ss column_str payloads =
    let (ss', column) = getline comma ss column_str in
    elim (stoull column) [
      | inl e ↦ (payloads, some e)
      | inr n ↦ payload_columns rounds (idx + 1) ss' column (push_at payloads idx n)
    ]

-- With fewer columns than item columns the number of payload columns wraps around, and the vector
-- cannot be made as long.
unfoldable pub get_next_batch_with_payloads_2d :
    ℕ
    → CsvDataProvider
    → List (List Bytes) × List (List ℕ)
    → Batch (List (List Bytes) × List (List ℕ))
get_next_batch_with_payloads_2d zero p out = (p, out, none)
get_next_batch_with_payloads_2d (suc size) p (items, payloads) =
    let payloads_num = sub64 p.columns_num p.items_columns_num in
    if ltb p.columns_num p.items_columns_num
    then (p, (resize p.items_columns_num [] items, payloads), some vector_too_long)
    else batch
        (λ line (items, payloads).
          let (ss, column, items') = item_columns p.items_columns_num 0 (start line) [] items in
          let (payloads', thrown) = payload_columns payloads_num 0 ss column payloads in
          ((items', payloads'), thrown))
        (λ (items, payloads).
          (resize p.items_columns_num [] items, resize payloads_num [] payloads))
        (suc size) p (items, payloads)
