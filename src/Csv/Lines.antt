-- ===== src/Csv/Lines.antt =====
-- Reading a text line by line: `getline`, the row count and the reading loop of the CSV provider on
-- lines that are each closed by a newline.
use native.Mathlib.Numerals.{unary_clauses}
use native.Mathlib.Nat.{zero-add}
use petace_set_ops.Base.{
  ℕ, zero, suc, ◌+◌, ◌≤◌, ◌<◌, ◌≡◌, refl, sym, ap, ◌∙◌, List, [], ◌∷◌, ◌++◌, append_assoc,
  append-nil, true, false, arith, Bytes, ◌==◌, length, length-append, take, drop, All, Bool-cases,
  inl, inr, none, if◌then◌else◌,
}
use petace_set_ops.Csv.{split_at, is_blank, getline, newline, start, count_rows, read_loop}

-- No character of a line is a newline.
abbrev pub IsLine : Bytes → Type 0
IsLine line = All (λ c. (c == newline) ≡ false) line

abbrev pub text : List Bytes → Bytes
text [] = []
text (l ∷ ls) = l ++ newline ∷ text ls

-- the lines that are not empty
abbrev pub nonblank : List Bytes → List Bytes
nonblank [] = []
nonblank (l ∷ ls) = if is_blank l then nonblank ls else l ∷ nonblank ls

split_at-line :
    (l rest : Bytes) → IsLine l → split_at newline (l ++ newline ∷ rest) ≡ (l, rest, true)
unfolding split_at
split_at-line [] rest h = refl
split_at-line (c ∷ l) rest (e, h) = rw (e, split_at-line l rest h) refl

pub getline-line :
    (l rest str : Bytes)
    → IsLine l
    → getline newline (start (l ++ newline ∷ rest)) str ≡ (start rest, l)
unfolding getline
getline-line l rest str h = rw (split_at-line l rest h) refl

getline-end :
    (str : Bytes)
    → getline newline (start []) str ≡ (record { rest = []; eof = true; failed = true }, [])
unfolding getline split_at is_blank
getline-end str = refl

pub length-text : (ls : List Bytes) → length ls ≤ length (text ls)
length-text [] = omega arith
length-text (l ∷ ls) = omega (arith, length-text ls, length-append l (newline ∷ text ls))

-- The loop counts the lines that are not empty, given a round for each line and one more.
pub count_rows-text :
    (ls : List Bytes) (fuel : ℕ) (line : Bytes) (raws : ℕ)
    → All IsLine ls
    → length ls < fuel
    → count_rows fuel (start (text ls)) line raws ≡ raws + length (nonblank ls)
unfolding count_rows
count_rows-text ls zero line raws h lt = absurd (omega arith)
count_rows-text [] (suc fuel) line raws h lt = rw (getline-end line) (omega arith)
count_rows-text (l ∷ ls) (suc fuel) line raws (hl, h) lt = elim (Bool-cases (is_blank l)) [
  | inl e ↦
      rw (getline-line l (text ls) line hl, e) (count_rows-text ls fuel l raws h (omega arith))
  | inr e ↦
      rw (getline-line l (text ls) line hl, e)
        (omega (arith, count_rows-text ls fuel l (raws + 1) h (omega arith)))
]

-- The loop of `get_next_batch` appends the lines that are not empty, of the next n.
pub read_loop-text :
    (n : ℕ) (ls : List Bytes) (line : Bytes) (out : List Bytes)
    → All IsLine ls
    → n ≤ length ls
    → read_loop (λ line items. (items ++ line ∷ [], none)) n (start (text ls)) line out
      ≡ (start (text (drop n ls)), out ++ nonblank (take n ls), none)
unfolding read_loop
read_loop-text zero ls line out h le = λ i. (start (text ls), sym (append-nil out) i, none)
read_loop-text (suc n) [] line out h le = absurd (omega arith)
read_loop-text (suc n) (l ∷ ls) line out (hl, h) le = elim (Bool-cases (is_blank l)) [
  | inl e ↦ rw (getline-line l (text ls) line hl, e) (read_loop-text n ls l out h (omega arith))
  | inr e ↦
      rw (getline-line l (text ls) line hl, e)
        (read_loop-text n ls l (out ++ l ∷ []) h (omega arith) ∙ λ i.
          (start (text (drop n ls)), append_assoc out (l ∷ []) (nonblank (take n ls)) i, none))
]

pub nonblank-append : (ls ms : List Bytes) → nonblank (ls ++ ms) ≡ nonblank ls ++ nonblank ms
nonblank-append [] ms = refl
nonblank-append (l ∷ ls) ms = elim (Bool-cases (is_blank l)) [
  | inl e ↦ rw e (nonblank-append ls ms)
  | inr e ↦ rw e (ap (◌∷◌ l) (nonblank-append ls ms))
]

pub length-nonblank : (ls : List Bytes) → length (nonblank ls) ≤ length ls
length-nonblank [] = omega arith
length-nonblank (l ∷ ls) = ground (arith, length-nonblank ls)

-- Where no line is empty, all are kept.
pub nonblank_same : (ls : List Bytes) → All (λ l. is_blank l ≡ false) ls → nonblank ls ≡ ls
nonblank_same [] h = refl
nonblank_same (l ∷ ls) (e, h) = rw e (ap (◌∷◌ l) (nonblank_same ls h))

module _ {ℓ} {A : Type ℓ} where
  pub take_add : (m n : ℕ) (xs : List A) → take (m + n) xs ≡ take m xs ++ take n (drop m xs)
  take_add zero n xs = ap (λ k. take k xs) (zero-add n)
  take_add (suc m) zero [] = simp unary_clauses refl
  take_add (suc m) (suc n) [] = simp unary_clauses refl
  take_add (suc m) n (x ∷ xs) =
      let shift : suc m + n ≡ suc (m + n) = omega arith in
      ap (λ k. take k (x ∷ xs)) shift ∙ ap (◌∷◌ x) (take_add m n xs)

  pub drop_add : (m n : ℕ) (xs : List A) → drop (m + n) xs ≡ drop n (drop m xs)
  drop_add zero n xs = ap (λ k. drop k xs) (zero-add n)
  drop_add (suc m) zero [] = simp unary_clauses refl
  drop_add (suc m) (suc n) [] = simp unary_clauses refl
  drop_add (suc m) n (x ∷ xs) =
      let shift : suc m + n ≡ suc (m + n) = omega arith in
      ap (λ k. drop k (x ∷ xs)) shift ∙ drop_add m n xs

  pub take_whole : (n : ℕ) (xs : List A) → length xs ≤ n → take n xs ≡ xs
  take_whole zero [] h = refl
  take_whole zero (x ∷ xs) h = absurd (omega arith)
  take_whole (suc n) [] h = refl
  take_whole (suc n) (x ∷ xs) h = ap (◌∷◌ x) (take_whole n xs (omega arith))

  pub take_append_len : (xs ys : List A) → take (length xs) (xs ++ ys) ≡ xs
  take_append_len [] ys = refl
  take_append_len (x ∷ xs) ys = ap (◌∷◌ x) (take_append_len xs ys)
