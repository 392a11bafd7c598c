-- ===== src/Csv/Counting.antt =====
-- The loops that count the rows and columns of a file end.
use petace_set_ops.Base.{
  ℕ, zero, suc, ◌+◌, ◌<◌, ◌≤◌, ◌≡◌, refl, [], ◌∷◌, Bool, true, false, ◌||◌, arith, Bytes, length,
  ◌==◌, if◌then◌else◌, Bool-cases, inl, inr,
}
use petace_set_ops.Csv.{
  Stream, split_at, is_blank, getline, start, comma, newline, count_columns, count_rows,
  count_rows_and_coulmns,
}

split_at-found :
    (delim : ℕ) (cs : Bytes)
    → (split_at delim cs).2 ≡ true
    → length (split_at delim cs).1 < length cs
unfolding split_at
split_at-found delim [] h = cc
split_at-found delim (c ∷ cs) h = elim (Bool-cases (c == delim)) [
  | inl e ↦ rw e (omega arith)
  | inr e ↦
      let later : (split_at delim cs).2 ≡ true = rw e at h in
      rw e (omega (arith, split_at-found delim cs later))
]

split_at-is_blank :
    (delim : ℕ) (cs : Bytes) → is_blank (split_at delim cs).0 ≡ false → 0 < length cs
unfolding split_at is_blank
split_at-is_blank delim [] h = cc
split_at-is_blank delim (c ∷ cs) h = omega arith

-- A line that is read takes characters away.
getline-shorter :
    (delim : ℕ) (s : Stream) (str : Bytes)
    → (getline delim s str).0.failed ≡ false
    → length (getline delim s str).0.rest < length s.rest
unfolding getline
getline-shorter delim s str h = elim (Bool-cases (s.eof || s.failed)) [
  | inl ended ↦ (let wrong : true ≡ false = rw ended at h in absurd cc)
  | inr going ↦ elim (Bool-cases (split_at delim s.rest).2) [
    | inl found ↦ rw (going, found) (split_at-found delim s.rest found)
    | inr last ↦
        let some_text : is_blank (split_at delim s.rest).0 ≡ false = rw (going, last) at h in
        rw (going, last) (split_at-is_blank delim s.rest some_text)
  ]
]

pub count_rows_fuel :
    (fuel fuel' : ℕ) (s : Stream) (line : Bytes) (raws : ℕ)
    → length s.rest < fuel
    → length s.rest < fuel'
    → count_rows fuel s line raws ≡ count_rows fuel' s line raws
unfolding count_rows
count_rows_fuel zero fuel' s line raws h h' = absurd (omega arith)
count_rows_fuel (suc fuel) zero s line raws h h' = absurd (omega arith)
count_rows_fuel (suc fuel) (suc fuel') s line raws h h' =
    elim (Bool-cases (getline newline s line).0.failed) [
      | inl e ↦ rw e refl
      | inr e ↦
          let shorter = getline-shorter newline s line e in
          rw e (count_rows_fuel fuel fuel' _ _ _ (omega (arith, shorter)) (omega (arith, shorter)))
    ]

pub count_columns_fuel :
    (fuel fuel' : ℕ) (ss : Stream) (column_str : Bytes) (cols : ℕ)
    → length ss.rest < fuel
    → length ss.rest < fuel'
    → count_columns fuel ss column_str cols ≡ count_columns fuel' ss column_str cols
unfolding count_columns
count_columns_fuel zero fuel' ss column_str cols h h' = absurd (omega arith)
count_columns_fuel (suc fuel) zero ss column_str cols h h' = absurd (omega arith)
count_columns_fuel (suc fuel) (suc fuel') ss column_str cols h h' =
    elim (Bool-cases (getline comma ss column_str).0.failed) [
      | inl e ↦ rw e refl
      | inr e ↦
          let shorter = getline-shorter comma ss column_str e in
          rw e
            (count_columns_fuel fuel fuel' _ _ _ (omega (arith, shorter)) (omega (arith, shorter)))
    ]

getline_rest :
    (delim : ℕ) (s : Stream) (str : Bytes) → length (getline delim s str).0.rest ≤ length s.rest
unfolding getline
getline_rest delim s str = elim (Bool-cases (s.eof || s.failed)) [
  | inl ended ↦ rw ended (omega arith)
  | inr going ↦ elim (Bool-cases (split_at delim s.rest).2) [
    | inl found ↦ rw (going, found) (omega (arith, split_at-found delim s.rest found))
    | inr last ↦ rw (going, last) (omega arith)
  ]
]

-- The two loops that count the rows and the columns of a file end before their fuel does: with any more
-- fuel the counts are the same, for every content.
pub count_rows_and_coulmns_terminate :
    (content : Bytes) (has_header : Bool) (more : ℕ)
    → count_rows_and_coulmns content has_header ≡ (
        let (in_file, line) = getline newline (start content) [] in
        (
          count_rows (suc (length content) + more) in_file line (if has_header then 0 else 1),
          count_columns (suc (length line) + more) (start line) [] 0,
        ))
unfolding count_rows_and_coulmns
count_rows_and_coulmns_terminate content has_header more =
    let first = getline newline (start content) [] in
    let short = getline_rest newline (start content) [] in
    λ i. (
      count_rows_fuel (suc (length content)) (suc (length content) + more) first.0 first.1
          (if has_header then 0 else 1) (omega (arith, short)) (omega (arith, short)) i,
      count_columns_fuel (suc (length first.1)) (suc (length first.1) + more) (start first.1) [] 0
          (omega arith) (omega arith) i,
    )
