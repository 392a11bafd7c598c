-- ===== src/Csv/Tests.antt =====
-- The theorems on the CSV provider at concrete files, and runs of its operations.
use petace_set_ops.Base.{
  ◌*◌, ◌≡◌, refl, List, [], ◌∷◌, true, false, arith, Bytes, codes, suc, ◌+◌, length, none, some,
  inl, inr, take, min,
}
use petace_set_ops.Csv.Stoull.{stoull, read_digits, stoull_out_of_range}
use petace_set_ops.Csv.Write.{write_data_to_file, write_rows, fields, row, decimal, digits}
use petace_set_ops.Csv.{
  CsvDataProvider, newline, start, open_csv, seek_begin, get_next_batch, get_next_batch_2d,
  get_next_batch_with_payloads, get_next_batch_with_payloads_2d, getline, split_at, is_blank,
  count_rows, count_columns, count_rows_and_coulmns, read_loop, batch, read_lines_count, advance,
  item_columns, read_pair,
}
use petace_set_ops.Csv.Lines.{text, nonblank}
use petace_set_ops.Csv.Batches.{read_batches, body, counted_rows}
use petace_set_ops.Csv.Rows.{read_batches-open_csv, read_batches_whole, read_batches_blank}
use petace_set_ops.Csv.Counting.{count_rows_and_coulmns_terminate}
use petace_set_ops.Csv.RoundTrip.{write_then_read}
use petace_set_ops.Csv.Cursor.{CursorInRows, batches-CursorInRows, seek_begin-batches}

abbrev three_lines : List Bytes
three_lines = codes "id" ∷ codes "a,1" ∷ codes "b,2" ∷ []

read_batches-open_csv_example :
    (p : CsvDataProvider) × (open_csv (codes "in") (some (text three_lines)) true 1 ≡ inr p)
    × (read_batches 1 2 p []
        ≡ nonblank (take (min (1 * 2) (counted_rows true three_lines)) (body true three_lines)))
read_batches-open_csv_example =
    read_batches-open_csv 105 (codes "n") (codes "id") (codes "a,1" ∷ codes "b,2" ∷ []) true 1 1 2
      (((refl, (refl, tt)), ((refl, (refl, (refl, tt))), ((refl, (refl, (refl, tt))), tt))))

read_batches_whole_example :
    (p : CsvDataProvider) × (open_csv (codes "in") (some (text three_lines)) true 1 ≡ inr p)
    × (read_batches 2 1 p [] ≡ body true three_lines)
unfolding is_blank
read_batches_whole_example =
    read_batches_whole 105 (codes "n") (codes "id") (codes "a,1" ∷ codes "b,2" ∷ []) true 1 2 1
      (((refl, (refl, tt)), ((refl, (refl, (refl, tt))), ((refl, (refl, (refl, tt))), tt))))
      (refl, (refl, tt)) (omega arith)

read_batches_blank_example :
    (p : CsvDataProvider) × (open_csv
        (codes "in")
        (some (text (codes "a" ∷ [] ∷ codes "b" ∷ [])))
        false
        1
      ≡ inr p)
    × (read_batches 1 3 p [] ≡ codes "a" ∷ [])
unfolding is_blank
read_batches_blank_example =
    read_batches_blank 105 (codes "n") (codes "a") [] [] (codes "b") 1 1 3
      ((refl, tt), (tt, ((refl, tt), tt))) (refl, tt) tt refl (omega arith)

abbrev at_start : CsvDataProvider
at_start = record {
  has_header = false;
  content = text (codes "a,1" ∷ codes "b,x" ∷ []);
  file_stream_in = start (text (codes "a,1" ∷ codes "b,x" ∷ []));
  cur_line_idx = 0;
  rows_num = 2;
  columns_num = 2;
  items_columns_num = 1;
}

batches-CursorInRows_example :
    CursorInRows (get_next_batch 3 at_start []).0
    × CursorInRows (get_next_batch_2d 3 at_start []).0
    × CursorInRows (get_next_batch_with_payloads 3 at_start ([], [])).0
    × CursorInRows (get_next_batch_with_payloads_2d 3 at_start ([], [])).0
batches-CursorInRows_example = batches-CursorInRows at_start 3 [] [] [] [] (omega arith)

at_start-opened :
    open_csv (codes "in") (some (text (codes "a,1" ∷ codes "b,x" ∷ []))) false 1 ≡ inr at_start
unfolding open_csv count_rows_and_coulmns count_rows count_columns getline split_at is_blank
at_start-opened = refl

seek_begin-batches_example :
    (seek_begin (get_next_batch 1 at_start []).0 ≡ at_start)
    × (seek_begin (get_next_batch_2d 1 at_start []).0 ≡ at_start)
    × (seek_begin (get_next_batch_with_payloads 1 at_start ([], [])).0 ≡ at_start)
    × (seek_begin (get_next_batch_with_payloads_2d 1 at_start ([], [])).0 ≡ at_start)
seek_begin-batches_example =
    seek_begin-batches (codes "in") (some (text (codes "a,1" ∷ codes "b,x" ∷ []))) false 1 at_start
      1 [] [] [] [] at_start-opened

payload_run :
    (get_next_batch_with_payloads 2 at_start ([], [])).1 ≡ (codes "a" ∷ codes "b" ∷ [], 1 ∷ [])
unfolding get_next_batch_with_payloads batch read_loop read_lines_count advance read_pair getline
    split_at is_blank stoull read_digits
payload_run = refl

columns_run : (get_next_batch_2d 1 at_start []).1 ≡ (codes "a" ∷ []) ∷ []
unfolding get_next_batch_2d batch read_loop read_lines_count advance item_columns getline split_at
    is_blank
columns_run = refl

stoull_run :
    (stoull (codes " +12a") ≡ inr 12)
    × (stoull (codes "-1") ≡ inr 18446744073709551615)
    × (stoull (codes "18446744073709551616") ≡ inl stoull_out_of_range)
unfolding stoull read_digits
stoull_run = (refl, refl, refl)

write_run :
    write_data_to_file
      ((codes "a" ∷ codes "b" ∷ []) ∷ [])
      ((10 ∷ 0 ∷ []) ∷ [])
      true
      (codes "id" ∷ codes "n" ∷ [])
    ≡ inr (text (codes "id,n" ∷ codes "a,10" ∷ codes "b,0" ∷ []))
unfolding write_data_to_file write_rows fields row decimal digits
write_run = refl

count_rows_and_coulmns_terminate_example :
    count_rows_and_coulmns (text (codes "a,1" ∷ codes "b,2" ∷ [])) false ≡ (
      let (in_file, line) = getline newline (start (text (codes "a,1" ∷ codes "b,2" ∷ []))) [] in
      (
        count_rows (suc 8 + 5) in_file line 1,
        count_columns (suc (length line) + 5) (start line) [] 0,
      ))
count_rows_and_coulmns_terminate_example =
    count_rows_and_coulmns_terminate (text (codes "a,1" ∷ codes "b,2" ∷ [])) false 5

write_then_read_example :
    (content : Bytes) × (p : CsvDataProvider) × (write_data_to_file
        ((codes "a" ∷ codes "bc" ∷ []) ∷ [])
        ((10 ∷ 0 ∷ []) ∷ [])
        false
        []
      ≡ inr content)
    × (open_csv (codes "in") (some content) false 1 ≡ inr p)
    × ((get_next_batch_with_payloads 4 p ([], [])).1 ≡ (codes "a" ∷ codes "bc" ∷ [], 10 ∷ 0 ∷ []))
    × ((get_next_batch_with_payloads 4 p ([], [])).2 ≡ none)
write_then_read_example =
    write_then_read 105 (codes "n") (codes "a") (codes "bc" ∷ []) 10 (0 ∷ []) 3 refl
      ((refl, tt), ((refl, (refl, tt)), tt)) ((refl, tt), ((refl, (refl, tt)), tt))
      (omega arith, (omega arith, tt)) (omega arith)
