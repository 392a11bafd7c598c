-- ===== src/Util/DummyData/Keys.antt =====
-- The keys and the features that are generated.
use petace_set_ops.Base.{
  ℕ, zero, suc, ◌+◌, ◌-◌, ◌%◌, ◌≤◌, ◌<◌, ◌≡◌, inl, inr, refl, sym, ap, ◌∙◌, subst, List, [], ◌∷◌,
  ◌++◌, replicate, take, Bool, true, false, arith, Bytes, length, length-append, length-resize,
  get_or, set, length-set, get_or-set_self, get_or-set_ne, resize, get_or-append_left,
  get_or-append_right, drop, drop_append, ◌*◌, ==_iff, ltb, ◌==◌, ◌&&◌, if◌then◌else◌, Bool-cases,
  ℕ_discrete,
}
use petace_set_ops.Util.DummyData.{
  alphabet, number, character, k_identifier_len, identifier_loop, generate_random_keys,
  fill_features, generate_random_features,
}

-- The character that a byte gives: a decimal digit at an even position, and a letter at an odd one, the
-- capitals before the small letters.
abbrev pub generated_character : ℕ → ℕ → ℕ
generated_character idx byte =
    if idx % 2 == 0
    then 48 + byte % 256 % 10
    else if ltb (byte % 256 % 52) 26
    then 65 + byte % 256 % 52
    else 71 + byte % 256 % 52

-- The tables of the digits and the letters hold their codes.
agree_to : ℕ → (ℕ → ℕ) → (ℕ → ℕ) → Bool
agree_to zero f g = true
agree_to (suc n) f g = (f n == g n) && agree_to n f g

agree_to-eq : (n i : ℕ) (f g : ℕ → ℕ) → agree_to n f g ≡ true → i < n → f i ≡ g i
unfolding agree_to
agree_to-eq zero i f g h lt = elim lt [ ]
agree_to-eq (suc n) i f g h lt = elim (ℕ_discrete i n) [
  | yes e ↦
      let here : (f n == g n) ≡ true = both_left (f n == g n) (agree_to n f g) h in
      subst (λ k. f k ≡ g k) (sym e) ((==_iff (f n) (g n)).0 here)
  | no ne ↦ agree_to-eq n i f g (both_right (f n == g n) (agree_to n f g) h) (omega arith)
]
  where
    both_left : (a b : Bool) → (a && b) ≡ true → a ≡ true
    both_left a b h = ground (arith, h)

    both_right : (a b : Bool) → (a && b) ≡ true → b ≡ true
    both_right a b h = ground (arith, h)

number_at : (n : ℕ) → n < 10 → get_or number n 0 ≡ 48 + n
unfolding agree_to
number_at n lt = agree_to-eq 10 n (λ n. get_or number n 0) (λ n. 48 + n) refl lt

alphabet_at : (n : ℕ) → n < 52 → get_or alphabet n 0 ≡ (if ltb n 26 then 65 + n else 71 + n)
unfolding agree_to
alphabet_at n lt =
    agree_to-eq 52 n (λ n. get_or alphabet n 0) (λ n. if ltb n 26 then 65 + n else 71 + n) refl lt

character-generated : (idx byte : ℕ) → character idx byte ≡ generated_character idx byte
unfolding character
character-generated idx byte = elim (Bool-cases (idx % 2 == 1)) [
  | inl e ↦
      let odd : (idx % 2 == 0) ≡ false = ground arith in
      rw (e, odd) (alphabet_at (byte % 256 % 52) (omega arith))
  | inr e ↦
      let even : (idx % 2 == 0) ≡ true = ground arith in
      rw (e, even) (number_at (byte % 256 % 10) (omega arith))
]

length-identifier_loop :
    (sample : ℕ → ℕ) (rounds idx pos : ℕ) (identifier : Bytes)
    → length (identifier_loop sample rounds idx pos identifier) ≡ length identifier + rounds
unfolding identifier_loop
length-identifier_loop sample zero idx pos identifier = omega arith
length-identifier_loop sample (suc rounds) idx pos identifier =
    let c = character idx (sample pos) in
    omega (
      arith,
      length-identifier_loop sample rounds (idx + 1) (pos + 1) (identifier ++ c ∷ []),
      length-append identifier (c ∷ []),
    )

identifier_loop_below :
    (sample : ℕ → ℕ) (rounds idx pos k : ℕ) (identifier : Bytes)
    → k < length identifier
    → get_or (identifier_loop sample rounds idx pos identifier) k 0 ≡ get_or identifier k 0
unfolding identifier_loop
identifier_loop_below sample zero idx pos k identifier lt = refl
identifier_loop_below sample (suc rounds) idx pos k identifier lt =
    let c = character idx (sample pos) in
    identifier_loop_below sample rounds (idx + 1) (pos + 1) k (identifier ++ c ∷ [])
      (omega (arith, lt, length-append identifier (c ∷ [])))
    ∙ get_or-append_left identifier (c ∷ []) k 0 lt

get_or-identifier_loop :
    (sample : ℕ → ℕ) (rounds idx pos k : ℕ) (identifier : Bytes)
    → k < rounds
    → get_or (identifier_loop sample rounds idx pos identifier) (length identifier + k) 0
      ≡ character (idx + k) (sample (pos + k))
unfolding identifier_loop
get_or-identifier_loop sample zero idx pos k identifier lt = elim lt [ ]
get_or-identifier_loop sample (suc rounds) idx pos zero identifier lt =
    let c = character idx (sample pos) in
    let plain : length identifier + 0 ≡ length identifier = omega arith in
    let plain_idx : idx ≡ idx + 0 = omega arith in
    let plain_pos : pos ≡ pos + 0 = omega arith in
    identifier_loop_below sample rounds (idx + 1) (pos + 1) (length identifier + 0)
      (identifier ++ c ∷ []) (omega (arith, length-append identifier (c ∷ [])))
    ∙ get_or-append_right identifier (c ∷ []) 0 0
    ∙ (λ t. character (plain_idx t) (sample (plain_pos t)))
get_or-identifier_loop sample (suc rounds) idx pos (suc k) identifier lt =
    let c = character idx (sample pos) in
    let place : length identifier + suc k ≡ length (identifier ++ c ∷ []) + k =
      omega (arith, length-append identifier (c ∷ [])) in
    let next_idx : idx + 1 + k ≡ idx + suc k = omega arith in
    let next_pos : pos + 1 + k ≡ pos + suc k = omega arith in
    ap (λ n. get_or (identifier_loop sample rounds (idx + 1) (pos + 1) (identifier ++ c ∷ [])) n 0)
      place
    ∙ get_or-identifier_loop sample rounds (idx + 1) (pos + 1) k (identifier ++ c ∷ [])
        (omega arith)
    ∙ (λ t. character (next_idx t) (sample (next_pos t)))

-- The keys that are there stay, and n keys are added.
kept_key :
    (sample : ℕ → ℕ) (n pos m : ℕ) (suffix : Bytes) (result : List Bytes)
    → m < length result
    → get_or (generate_random_keys sample n pos suffix result) m [] ≡ get_or result m []
unfolding generate_random_keys
kept_key sample zero pos m suffix result lt = refl
kept_key sample (suc n) pos m suffix result lt =
    let key = identifier_loop sample k_identifier_len 0 pos [] ++ suffix in
    kept_key sample n (pos + k_identifier_len) m suffix (result ++ key ∷ [])
      (omega (arith, lt, length-append result (key ∷ [])))
    ∙ get_or-append_left result (key ∷ []) m [] lt

length-generate_random_keys :
    (sample : ℕ → ℕ) (n pos : ℕ) (suffix : Bytes) (result : List Bytes)
    → length (generate_random_keys sample n pos suffix result) ≡ length result + n
unfolding generate_random_keys
length-generate_random_keys sample zero pos suffix result = omega arith
length-generate_random_keys sample (suc n) pos suffix result =
    let key = identifier_loop sample k_identifier_len 0 pos [] ++ suffix in
    omega (
      arith,
      length-generate_random_keys sample n (pos + k_identifier_len) suffix (result ++ key ∷ []),
      length-append result (key ∷ []),
    )

-- Key m is an identifier of its own bytes of the generator, and the suffix.
generated_key :
    (sample : ℕ → ℕ) (n pos m : ℕ) (suffix : Bytes) (result : List Bytes)
    → m < n
    → get_or (generate_random_keys sample n pos suffix result) (length result + m) []
      ≡ identifier_loop sample k_identifier_len 0 (pos + 32 * m) [] ++ suffix
unfolding generate_random_keys
generated_key sample zero pos m suffix result lt = elim lt [ ]
generated_key sample (suc n) pos zero suffix result lt =
    let key = identifier_loop sample k_identifier_len 0 pos [] ++ suffix in
    let plain : pos ≡ pos + 32 * 0 = omega arith in
    let plain_m : length result + 0 ≡ length result = omega arith in
    kept_key sample n (pos + k_identifier_len) (length result + 0) suffix (result ++ key ∷ [])
      (omega (arith, length-append result (key ∷ [])))
    ∙ get_or-append_right result (key ∷ []) 0 []
    ∙ ap (λ k. identifier_loop sample k_identifier_len 0 k [] ++ suffix) plain
generated_key sample (suc n) pos (suc m) suffix result lt =
    let key = identifier_loop sample k_identifier_len 0 pos [] ++ suffix in
    let place : length result + suc m ≡ length (result ++ key ∷ []) + m =
      omega (arith, length-append result (key ∷ [])) in
    let next : pos + k_identifier_len + 32 * m ≡ pos + 32 * suc m = omega arith in
    ap
      (λ k.
        get_or (generate_random_keys sample n (pos + k_identifier_len) suffix (result ++ key ∷ []))
          k [])
      place
    ∙ generated_key sample n (pos + k_identifier_len) m suffix (result ++ key ∷ []) (omega arith)
    ∙ ap (λ k. identifier_loop sample k_identifier_len 0 k [] ++ suffix) next

-- The function adds n keys to those that are there. Key m of them has 32 characters before the suffix, and
-- character j of these is made of byte 32 m + j of the generator's: a decimal digit at an even position,
-- and a letter at an odd one.
pub generate_random_keys-alternate :
    (sample : ℕ → ℕ) (n pos m j : ℕ) (suffix : Bytes) (result : List Bytes)
    → m < n
    → j < 32
    → (let keys = generate_random_keys sample n pos suffix result in
        let key = get_or keys (length result + m) [] in
        (length keys ≡ length result + n)
        × (length key ≡ 32 + length suffix)
        × (drop 32 key ≡ suffix)
        × (get_or key j 0 ≡ generated_character j (sample (pos + 32 * m + j))))
generate_random_keys-alternate sample n pos m j suffix result lm lj =
    let identifier = identifier_loop sample k_identifier_len 0 (pos + 32 * m) [] in
    let counted : length identifier ≡ 32 =
      length-identifier_loop sample k_identifier_len 0 (pos + 32 * m) [] in
    let key_at = generated_key sample n pos m suffix result lm in
    let plain : 0 + j ≡ j = omega arith in
    (
      length-generate_random_keys sample n pos suffix result,
      omega (arith, ap length key_at, length-append identifier suffix, counted),
      ap (drop 32) key_at
          ∙ ap (λ k. drop k (identifier ++ suffix)) (sym counted)
          ∙ drop_append identifier suffix,
      ap (λ key. get_or key j 0) key_at
          ∙ get_or-append_left identifier suffix j 0 (omega (arith, lj, counted))
          ∙ ap (λ k. get_or identifier k 0) (sym plain)
          ∙ get_or-identifier_loop sample k_identifier_len 0 (pos + 32 * m) j [] lj
          ∙ ap (λ k. character k (sample (pos + 32 * m + j))) plain
          ∙ character-generated j (sample (pos + 32 * m + j)),
    )

length-fill_features :
    (sample : ℕ → ℕ) (rounds i : ℕ) (result : List ℕ)
    → length (fill_features sample rounds i result) ≡ length result
unfolding fill_features
length-fill_features sample zero i result = refl
length-fill_features sample (suc rounds) i result =
    length-fill_features sample rounds (i + 1) _ ∙ length-set result i (sample i)

fill_features_below :
    (sample : ℕ → ℕ) (rounds i k : ℕ) (result : List ℕ)
    → k < i
    → get_or (fill_features sample rounds i result) k 0 ≡ get_or result k 0
unfolding fill_features
fill_features_below sample zero i k result h = refl
fill_features_below sample (suc rounds) i k result h =
    fill_features_below sample rounds (i + 1) k _ (omega arith)
    ∙ get_or-set_ne result i k (sample i) 0 (omega arith)

get_or-fill_features :
    (sample : ℕ → ℕ) (rounds i k : ℕ) (result : List ℕ)
    → i ≤ k
    → k < i + rounds
    → k < length result
    → get_or (fill_features sample rounds i result) k 0 ≡ sample k
unfolding fill_features
get_or-fill_features sample zero i k result le lt fits = absurd (omega arith)
get_or-fill_features sample (suc rounds) i k result le lt fits = elim (ℕ_discrete i k) [
  | yes e ↦
      fill_features_below sample rounds (i + 1) k _ (omega arith)
      ∙ subst (λ j. get_or (set result i (sample i)) j 0 ≡ sample j) e
          (get_or-set_self result i (sample i) 0 (omega arith))
  | no ne ↦
      get_or-fill_features sample rounds (i + 1) k _ (omega arith) (omega arith)
        (omega (arith, fits, length-set result i (sample i)))
]

get_or-zeros : (n k : ℕ) → ◌≡◌ {A = ℕ} (get_or (replicate n 0) k 0) 0
get_or-zeros zero k = refl
get_or-zeros (suc n) zero = refl
get_or-zeros (suc n) (suc k) = get_or-zeros n k

get_or-resize :
    (n k : ℕ) (result : List ℕ) → k < n → get_or (resize n 0 result) k 0 ≡ get_or result k 0
get_or-resize zero k result h = absurd (omega arith)
get_or-resize (suc n) k [] h = get_or-zeros (suc n - 0) k
get_or-resize (suc n) zero (x ∷ result) h = refl
get_or-resize (suc n) (suc k) (x ∷ result) h =
    let fewer : suc n - suc (length result) ≡ n - length result = omega arith in
    ap (λ m. get_or (take n result ++ replicate m 0) k 0) fewer
    ∙ get_or-resize n k result (omega arith)

-- The function leaves n features. With `is_zero` set they are what `result` held there, or 0 beyond its
-- end; else each is the word that the generator yields for it.
pub generate_random_features-get_or :
    (sample : ℕ → ℕ) (n : ℕ) (is_zero : Bool) (result : List ℕ) (k : ℕ)
    → k < n
    → (length (generate_random_features sample n is_zero result) ≡ n)
      × (get_or (generate_random_features sample n is_zero result) k 0
          ≡ (if is_zero then get_or result k 0 else sample k))
unfolding generate_random_features
generate_random_features-get_or sample n true result k h =
    (length-resize n 0 result, get_or-resize n k result h)
generate_random_features-get_or sample n false result k h =
    let sized = length-resize n 0 result in
    (
      length-fill_features sample n 0 (resize n 0 result) ∙ sized,
      get_or-fill_features sample n 0 k (resize n 0 result) (omega arith) (omega arith)
          (omega (arith, h, sized)),
    )
