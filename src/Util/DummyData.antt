-- ===== src/Util/DummyData.antt =====
-- src/setops/util/dummy_data_util.h. The bytes and the words that the generator yields, one after the
-- other, are parameters.
pub mod Keys
use petace_set_ops.Base.{
  ℕ, zero, suc, ◌+◌, ◌%◌, List, [], ◌∷◌, ◌++◌, Bool, true, false, Bytes, codes, length, get_or, set,
  resize, ◌==◌, if◌then◌else◌,
}

abbrev pub k_identifier_len : ℕ
k_identifier_len = 32

abbrev pub alphabet : Bytes
alphabet = codes "ABCDEFGHIJKLMNOPQRSTUVWXYZabcdefghijklmnopqrstuvwxyz"

abbrev pub number : Bytes
number = codes "0123456789"

-- a letter or a digit, by a byte
unfoldable pub character : ℕ → ℕ → ℕ
character idx byte =
    if idx % 2 == 1
    then get_or alphabet (byte % 256 % length alphabet) 0
    else get_or number (byte % 256 % length number) 0

-- The loop over the characters of one identifier, with the rounds left first; `pos` is the position in
-- the generator's bytes.
unfoldable pub identifier_loop : (ℕ → ℕ) → ℕ → ℕ → ℕ → Bytes → Bytes
identifier_loop sample zero idx pos identifier = identifier
identifier_loop sample (suc rounds) idx pos identifier =
    identifier_loop sample rounds (idx + 1) (pos + 1)
      (identifier ++ character idx (sample pos) ∷ [])

-- The keys are appended to `result`.
unfoldable pub generate_random_keys : (ℕ → ℕ) → ℕ → ℕ → Bytes → List Bytes → List Bytes
generate_random_keys sample zero pos suffix result = result
generate_random_keys sample (suc n) pos suffix result =
    generate_random_keys sample n (pos + k_identifier_len) suffix
      (result ++ (identifier_loop sample k_identifier_len 0 pos [] ++ suffix) ∷ [])

-- `for (i = 0; i < n; ++i) result[i] = sample_uniform_uint64(prng);` with the rounds left first.
unfoldable pub fill_features : (ℕ → ℕ) → ℕ → ℕ → List ℕ → List ℕ
fill_features sample zero i result = result
fill_features sample (suc rounds) i result =
    fill_features sample rounds (i + 1) (set result i (sample i))

unfoldable pub generate_random_features : (ℕ → ℕ) → ℕ → Bool → List ℕ → List ℕ
generate_random_features sample n is_zero result =
    let sized = resize n 0 result in if is_zero then sized else fill_features sample n 0 sized
