-- ===== src/Csv/Cursor.antt =====
-- The provider's line index, and the return to the first line.
use petace_set_ops.Base.{
  ℕ, zero, suc, ◌+◌, ◌≤◌, ◌≡◌, refl, ◌∙◌, subst, ◌⊎◌, List, [], ◌∷◌, Bool, arith, Bytes, Option,
  none, some, inl, inr, ltb, Bool-cases,
}
use petace_set_ops.Csv.Stoull.{Exception}
use petace_set_ops.Csv.{
  Stream, CsvDataProvider, open_csv, seek_begin, read_lines_count, advance, batch, get_next_batch,
  get_next_batch_2d, get_next_batch_with_payloads, get_next_batch_with_payloads_2d,
}

-- The index is within the rows.
abbrev pub CursorInRows : CsvDataProvider → Type 0
CursorInRows p = p.cur_line_idx ≤ p.rows_num

advance-CursorInRows :
    (p : CsvDataProvider) (s : Stream) (n : ℕ) (thrown : Option Exception)
    → CursorInRows p
    → p.cur_line_idx + n ≤ p.rows_num
    → CursorInRows (advance p s n thrown)
unfolding advance
advance-CursorInRows p s n none h fits = fits
advance-CursorInRows p s n (some e) h fits = h

read_lines_count-fits :
    (b : ℕ) (p : CsvDataProvider)
    → CursorInRows p
    → p.cur_line_idx + read_lines_count b p ≤ p.rows_num
unfolding read_lines_count
read_lines_count-fits b p h = ground arith

batch-CursorInRows :
    {S : Type 0} (step : Bytes → S → S × Option Exception) (prepare : S → S) (b : ℕ)
    (p : CsvDataProvider) (out : S)
    → CursorInRows p
    → CursorInRows (batch step prepare b p out).0
unfolding batch
batch-CursorInRows step prepare zero p out h = h
batch-CursorInRows step prepare (suc b) p out h =
    advance-CursorInRows p _ (read_lines_count (suc b) p) _ h (read_lines_count-fits (suc b) p h)

payloads_2d-CursorInRows :
    (b : ℕ) (p : CsvDataProvider) (columns : List (List Bytes)) (payload_columns : List (List ℕ))
    → CursorInRows p
    → CursorInRows (get_next_batch_with_payloads_2d b p (columns, payload_columns)).0
unfolding get_next_batch_with_payloads_2d
payloads_2d-CursorInRows zero p columns payload_columns h = h
payloads_2d-CursorInRows (suc b) p columns payload_columns h =
    elim (Bool-cases (ltb p.columns_num p.items_columns_num)) [
      | inl e ↦ rw e h
      | inr e ↦ rw e (batch-CursorInRows _ _ (suc b) p _ h)
    ]

-- The index never passes the number of rows, so that the unsigned subtraction in the four batch
-- operations does not wrap around: each keeps this, whatever the file holds, also where it throws.
pub batches-CursorInRows :
    (p : CsvDataProvider) (b : ℕ) (items : List Bytes) (columns : List (List Bytes))
    (payloads : List ℕ) (payload_columns : List (List ℕ))
    → CursorInRows p
    → CursorInRows (get_next_batch b p items).0
      × CursorInRows (get_next_batch_2d b p columns).0
      × CursorInRows (get_next_batch_with_payloads b p (items, payloads)).0
      × CursorInRows (get_next_batch_with_payloads_2d b p (columns, payload_columns)).0
unfolding get_next_batch get_next_batch_2d get_next_batch_with_payloads
batches-CursorInRows p b items columns payloads payload_columns h = (
  batch-CursorInRows _ _ b p _ h,
  batch-CursorInRows _ _ b p _ h,
  batch-CursorInRows _ _ b p _ h,
  payloads_2d-CursorInRows b p columns payload_columns h,
)

batch-seek_begin :
    {S : Type 0} (step : Bytes → S → S × Option Exception) (prepare : S → S) (b : ℕ)
    (p : CsvDataProvider) (out : S)
    → seek_begin (batch step prepare b p out).0 ≡ seek_begin p
unfolding batch advance seek_begin
batch-seek_begin step prepare zero p out = refl
batch-seek_begin step prepare (suc b) p out = refl

payloads_2d-seek_begin :
    (b : ℕ) (p : CsvDataProvider) (columns : List (List Bytes)) (payload_columns : List (List ℕ))
    → seek_begin (get_next_batch_with_payloads_2d b p (columns, payload_columns)).0 ≡ seek_begin p
unfolding get_next_batch_with_payloads_2d
payloads_2d-seek_begin zero p columns payload_columns = refl
payloads_2d-seek_begin (suc b) p columns payload_columns =
    elim (Bool-cases (ltb p.columns_num p.items_columns_num)) [
      | inl e ↦ rw e refl
      | inr e ↦ rw e (batch-seek_begin _ _ (suc b) p _)
    ]

same_provider :
    (q p : CsvDataProvider)
    → seek_begin q ≡ q
    → ◌≡◌ {A = Exception ⊎ CsvDataProvider} (inr q) (inr p)
    → seek_begin p ≡ p
same_provider q p start e = let same : q ≡ p = cc in subst (λ r. seek_begin r ≡ r) same start

open_csv-seek_begin :
    (path : Bytes) (file : Option Bytes) (has_header : Bool) (cols : ℕ) (p : CsvDataProvider)
    → open_csv path file has_header cols ≡ inr p
    → seek_begin p ≡ p
unfolding open_csv seek_begin
open_csv-seek_begin [] file has_header cols p e = cc
open_csv-seek_begin (c ∷ path) none has_header cols p e = cc
open_csv-seek_begin (c ∷ path) (some content) has_header cols p e = same_provider _ p refl e

-- `seek_begin` after a batch of any of the four kinds, also one that threw, gives the provider as the
-- constructor made it, whatever the file holds.
pub seek_begin-batches :
    (path : Bytes) (file : Option Bytes) (has_header : Bool) (cols : ℕ) (p : CsvDataProvider)
    (b : ℕ) (items : List Bytes) (columns : List (List Bytes)) (payloads : List ℕ)
    (payload_columns : List (List ℕ))
    → open_csv path file has_header cols ≡ inr p
    → (seek_begin (get_next_batch b p items).0 ≡ p)
      × (seek_begin (get_next_batch_2d b p columns).0 ≡ p)
      × (seek_begin (get_next_batch_with_payloads b p (items, payloads)).0 ≡ p)
      × (seek_begin (get_next_batch_with_payloads_2d b p (columns, payload_columns)).0 ≡ p)
unfolding get_next_batch get_next_batch_2d get_next_batch_with_payloads
seek_begin-batches path file has_header cols p b items columns payloads payload_columns e =
    let back = open_csv-seek_begin path file has_header cols p e in
    (
      batch-seek_begin _ _ b p _ ∙ back,
      batch-seek_begin _ _ b p _ ∙ back,
      batch-seek_begin _ _ b p _ ∙ back,
      payloads_2d-seek_begin b p columns payload_columns ∙ back,
    )
