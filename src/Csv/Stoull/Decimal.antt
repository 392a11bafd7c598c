-- ===== src/Csv/Stoull/Decimal.antt =====
-- A payload that src/setops/data/csv_data_provider.cpp writes is read back by `std::stoull`.
use petace_set_ops.Base.{
  ℕ, zero, suc, ◌+◌, ◌-◌, ◌*◌, ◌/◌, ◌%◌, ◌^◌, ◌<◌, ◌≡◌, refl, sym, ap, ◌∙◌, [], ◌∷◌, ◌++◌, true,
  false, arith, Bytes, All, ltb, ◌==◌, Bool-cases, inl, inr,
}
use petace_set_ops.Csv.Stoull.{
  is_digit, is_space, read_digits, starts_with_digit, trim, magnitude, after_sign, stoull,
}
use petace_set_ops.Csv.Write.{digits, decimal}

-- One more digit behind others.
read_digits-append :
    (cs : Bytes) (c acc : ℕ)
    → All (λ d. is_digit d ≡ true) cs
    → is_digit c ≡ true
    → read_digits (cs ++ c ∷ []) acc ≡ 10 * read_digits cs acc + (c - 48)
unfolding read_digits
read_digits-append [] c acc h hc = rw hc refl
read_digits-append (d ∷ cs) c acc (hd, h) hc = rw hd (read_digits-append cs c _ h hc)

append-digit :
    (cs : Bytes) (c : ℕ)
    → All (λ d. is_digit d ≡ true) cs
    → is_digit c ≡ true
    → All (λ d. is_digit d ≡ true) (cs ++ c ∷ [])
append-digit [] c h hc = (hc, tt)
append-digit (d ∷ cs) c (hd, h) hc = (hd, append-digit cs c h hc)

last_digit : (n : ℕ) → is_digit (48 + n % 10) ≡ true
last_digit n = ground arith

pub digits-All : (fuel n : ℕ) → All (λ d. is_digit d ≡ true) (digits fuel n)
unfolding digits
digits-All zero n = tt
digits-All (suc fuel) n = elim (Bool-cases (ltb n 10)) [
  | inl e ↦ rw e (last_digit n, tt)
  | inr e ↦
      rw e (
        append-digit (digits fuel (n / 10)) (48 + n % 10) (digits-All fuel (n / 10)) (last_digit n))
]

read_digits-digits : (fuel n : ℕ) → n < 10 ^ fuel → read_digits (digits fuel n) 0 ≡ n
unfolding digits
read_digits-digits zero n h = unfold read_digits in omega arith
read_digits-digits (suc fuel) n h = elim (Bool-cases (ltb n 10)) [
  | inl e ↦
      rw e (
        read_digits-append [] (48 + n % 10) 0 tt (last_digit n)
        ∙ unfold read_digits in ground arith)
  | inr e ↦ rw e (
      read_digits-append (digits fuel (n / 10)) (48 + n % 10) 0 (digits-All fuel (n / 10))
        (last_digit n)
      ∙ omega (arith, read_digits-digits fuel (n / 10) (omega arith)))
]

stoull-digits :
    (c : ℕ) (cs : Bytes)
    → is_digit c ≡ true
    → read_digits (c ∷ cs) 0 < 2 ^ 64
    → stoull (c ∷ cs) ≡ inr (read_digits (c ∷ cs) 0)
unfolding stoull read_digits trim after_sign magnitude starts_with_digit
stoull-digits c cs h fits =
    let no_space : is_space c ≡ false = ground arith in
    let no_minus : (c == 45) ≡ false = ground arith in
    let no_plus : (c == 43) ≡ false = ground arith in
    let shifted : read_digits (c ∷ cs) 0 ≡ read_digits cs (10 * 0 + (c - 48)) = rw h refl in
    let in_range : ltb (read_digits cs (10 * 0 + (c - 48))) (2 ^ 64) ≡ true =
      ground (arith, shifted, fits) in
    rw (no_space, no_minus, no_plus, h, in_range) refl

digits-first :
    (fuel n : ℕ) → (c : ℕ) × (cs : Bytes) × (digits (suc fuel) n ≡ c ∷ cs) × (is_digit c ≡ true)
unfolding digits
digits-first zero n = elim (Bool-cases (ltb n 10)) [
  | inl e ↦ (48 + n % 10, [], rw e refl, last_digit n)
  | inr e ↦ (48 + n % 10, [], rw e refl, last_digit n)
]
digits-first (suc fuel) n = elim (Bool-cases (ltb n 10)) [
  | inl e ↦ (48 + n % 10, [], rw e refl, last_digit n)
  | inr e ↦
      let (c, cs, shape, h) = digits-first fuel (n / 10) in
      (c, cs ++ (48 + n % 10) ∷ [], rw e (ap (λ ds. ds ++ (48 + n % 10) ∷ []) shape), h)
]

-- A payload below 2 ^ 64, as `write_data_to_file` writes it, is read back by `std::stoull` as it was.
pub stoull-decimal : (n : ℕ) → n < 2 ^ 64 → stoull (decimal n) ≡ inr n
unfolding decimal
stoull-decimal n h =
    let (c, cs, shape, first) = digits-first 19 n in
    let value : read_digits (c ∷ cs) 0 ≡ n =
      ap (λ ds. read_digits ds 0) (sym shape) ∙ read_digits-digits 20 n (omega arith) in
    ap stoull shape ∙ stoull-digits c cs first (omega (arith, value)) ∙ ap inr value
