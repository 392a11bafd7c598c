-- ===== src/Csv/Stoull.antt =====
-- `std::stoull`, by which src/setops/data/csv_data_provider.cpp reads a payload, and the exceptions
-- that the provider throws.
pub mod Decimal
use petace_set_ops.Base.{
  ℕ, ◌+◌, ◌-◌, ◌*◌, ◌^◌, [], ◌∷◌, Bool, true, false, not, ◌||◌, ◌&&◌, Bytes, ◌==◌, ltb, leb,
  if◌then◌else◌, ◌⊎◌, inl, inr,
}

pub data Exception : Type 0 where
  file_path_is_empty file_read_failed items_are_empty stoull_invalid stoull_out_of_range
        vector_too_long :
      Exception

abbrev pub is_digit : ℕ → Bool
is_digit c = leb 48 c && leb c 57

abbrev is_space : ℕ → Bool
is_space c = c == 32 || (leb 9 c && leb c 13)

-- the value of the digits at the front
unfoldable pub read_digits : Bytes → ℕ → ℕ
read_digits [] n = n
read_digits (c ∷ cs) n =
    let rest = read_digits cs (10 * n + (c - 48)) in if is_digit c then rest else n

starts_with_digit : Bytes → Bool
starts_with_digit [] = false
starts_with_digit (c ∷ cs) = is_digit c

-- without its leading spaces
trim : Bytes → Bytes
trim [] = []
trim (c ∷ cs) = let rest = trim cs in if is_space c then rest else c ∷ cs

-- `-` has the result negated in the 64 bits; a magnitude that does not fit them is out of range.
magnitude : Bool → Bytes → Exception ⊎ ℕ
magnitude negative cs =
    let n = read_digits cs 0 in
    if not (starts_with_digit cs)
    then inl stoull_invalid
    else if not (ltb n (2 ^ 64))
    then inl stoull_out_of_range
    else inr (if negative && ltb 0 n then 2 ^ 64 - n else n)

after_sign : Bytes → Exception ⊎ ℕ
after_sign [] = inl stoull_invalid
after_sign (c ∷ cs) =
    if c == 45
    then magnitude true cs
    else if c == 43
    then magnitude false cs
    else magnitude false (c ∷ cs)

unfoldable pub stoull : Bytes → Exception ⊎ ℕ
unfolding read_digits starts_with_digit trim magnitude after_sign
stoull cs = after_sign (trim cs)
