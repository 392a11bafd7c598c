-- ===== src/Csv/Write.antt =====
-- `CsvDataProvider::write_data_to_file` of src/setops/data/csv_data_provider.cpp.
use petace_set_ops.Base.{
  ℕ, zero, suc, ◌+◌, ◌/◌, ◌%◌, List, [], ◌∷◌, ◌++◌, Bool, true, false, Bytes, ltb, length, get_or,
  if◌then◌else◌, ◌⊎◌, inl, inr,
}
use petace_set_ops.Csv.Stoull.{Exception, items_are_empty}

-- the decimal digits of a number, with fuel
unfoldable pub digits : ℕ → ℕ → Bytes
digits zero n = []
digits (suc fuel) n =
    let rest = digits fuel (n / 10) in (if ltb n 10 then [] else rest) ++ (48 + n % 10) ∷ []

-- `out << n` for a `std::uint64_t`, which has at most twenty digits
unfoldable pub decimal : ℕ → Bytes
unfolding digits
decimal n = digits 20 n

-- Fields with commas between them, closed by `last`.
unfoldable pub fields : ℕ → List Bytes → Bytes
fields last [] = []
fields last (f ∷ []) = f ++ last ∷ []
fields last (f ∷ g ∷ fs) = f ++ 44 ∷ fields last (g ∷ fs)

-- row `j` of the columns
unfoldable pub row {ℓ} : {A : Type ℓ} → A → ℕ → List (List A) → List A
row default' j [] = []
row default' j (column ∷ columns) = get_or column j default' ∷ row default' j columns

is_none {ℓ} : {A : Type ℓ} → List A → Bool
is_none [] = true
is_none (x ∷ xs) = false

map_decimal : List ℕ → List Bytes
map_decimal [] = []
map_decimal (n ∷ ns) = decimal n ∷ map_decimal ns

unfoldable pub write_row : List (List Bytes) → List (List ℕ) → ℕ → Bytes
unfolding is_none map_decimal
write_row items payloads j =
    fields (if is_none payloads then 10 else 44) (row [] j items)
    ++ fields 10 (map_decimal (row 0 j payloads))

unfoldable pub write_rows : List (List Bytes) → List (List ℕ) → ℕ → ℕ → Bytes
unfolding write_row
write_rows items payloads zero j = []
write_rows items payloads (suc rounds) j =
    write_row items payloads j ++ write_rows items payloads rounds (j + 1)

-- The content of the file, or the exception.
unfoldable pub write_data_to_file :
    List (List Bytes) → List (List ℕ) → Bool → List Bytes → Exception ⊎ Bytes
write_data_to_file [] payloads has_header header = inl items_are_empty
write_data_to_file (column ∷ items) payloads has_header header = inr (
    (if has_header then fields 10 header else [])
    ++ write_rows (column ∷ items) payloads (length column) 0)
