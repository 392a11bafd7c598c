-- ===== src/Circuit/Words.antt =====
-- Vectors of 64-bit words on their way, and the words that the sender puts into its filters.
use mathlib.Core.List.{flatten}
use native.Mathlib.Nat.{mod-eq_of_lt}
use petace_set_ops.Base.{
  ℕ, zero, suc, ◌+◌, ◌*◌, ◌^◌, ◌<◌, ◌≡◌, refl, sym, ap, ◌∙◌, subst, List, [], ◌∷◌, map, Bool, true,
  false, arith, Bytes, length, length-map, All, get_or, if◌then◌else◌,
}
use petace_set_ops.Net.{done}
use petace_set_ops.Net.Wire.{size_t}
use petace_set_ops.Net.Meet.{Meets, Meets-send_left}
use petace_set_ops.Psi.{unpack}
use petace_set_ops.Psi.Unpack.{AllOfLength, length-flatten, unpack-flatten}
use petace_set_ops.Std.Bits.{bit_xor-lt}
use petace_set_ops.Kkrt.Tables.{Verse}
use petace_set_ops.Circuit.Tables.{
  HintTable, Pads, tabulate, pad_loop, filter_loop, hint, feature_hint,
}
use petace_set_ops.Circuit.{send_words, recv_words}

-- A word of 64 bits.
abbrev pub IsWord : ℕ → Type 0
IsWord x = x < 2 ^ 64

encode-AllOfLength : (words : List ℕ) → AllOfLength 8 (map size_t.encode words)
encode-AllOfLength [] = tt
encode-AllOfLength (x ∷ words) = (size_t.length-encode x, encode-AllOfLength words)

decode-encode_map :
    (words : List ℕ) → All IsWord words → map size_t.decode (map size_t.encode words) ≡ words
decode-encode_map [] h = refl
decode-encode_map (x ∷ words) (hx, h) =
    λ i. size_t.decode-encode x hx i ∷ decode-encode_map words h i

-- A vector of words that fits a buffer arrives as it was sent.
pub words-Meets :
    (words : List ℕ)
    → All IsWord words
    → length words * 8 < 2 ^ 64
    → Meets (send_words words) (recv_words (length words)) (done tt) (done words)
unfolding send_words recv_words
words-Meets words h fits =
    let buffer = map size_t.encode words in
    let sized = encode-AllOfLength words in
    Meets-send_left _ _ _ _ _ _
      (length-flatten buffer 8 sized
        ∙ ap (λ n. n * 8) (length-map size_t.encode words)
        ∙ sym (mod-eq_of_lt fits))
      (
        0,
        λ i. record {
          left = done tt;
          right = done (
              (ap (λ n. map size_t.decode (unpack n 0 8 (flatten buffer)))
                    (sym (length-map size_t.encode words))
                  ∙ ap (map size_t.decode) (unpack-flatten buffer 8 sized)
                  ∙ decode-encode_map words h)
                i);
          to_left = [];
          to_right = [];
        },
      )

module _ {ℓ} {A : Type ℓ} where
  pub length-tabulate : (n i : ℕ) (f : ℕ → A) → length (tabulate n i f) ≡ n
  length-tabulate zero i f = refl
  length-tabulate (suc n) i f = ap suc (length-tabulate n (i + 1) f)

  pub get_or-tabulate :
      (n i : ℕ) (f : ℕ → A) (k : ℕ) (d : A) → k < n → get_or (tabulate n i f) k d ≡ f (i + k)
  get_or-tabulate zero i f k d h = absurd (omega arith)
  get_or-tabulate (suc n) i f zero d h = let here : i ≡ i + 0 = omega arith in ap f here
  get_or-tabulate (suc n) i f (suc k) d h =
      let next : i + 1 + k ≡ i + suc k = omega arith in
      get_or-tabulate n (i + 1) f k d (omega arith) ∙ ap f next

-- Every element of such a vector is a word, also the one that is read out of range.
pub tabulate-IsWord :
    (n i : ℕ) (f : ℕ → ℕ)
    → ((k : ℕ) → IsWord (f k))
    → (k : ℕ) → IsWord (get_or (tabulate n i f) k 0)
tabulate-IsWord zero i f h k = omega arith
tabulate-IsWord (suc n) i f h zero = h i
tabulate-IsWord (suc n) i f h (suc k) = tabulate-IsWord n (i + 1) f h k

-- The last word that the loop draws.
pub pad_loop_last :
    (generate : ℕ → ℕ) (n j pad : ℕ) → pad_loop generate (suc n) j pad ≡ generate (j + n)
unfolding pad_loop
pad_loop_last generate zero j pad = let here : j ≡ j + 0 = omega arith in ap generate here
pad_loop_last generate (suc n) j pad =
    let next : j + 1 + n ≡ j + suc n = omega arith in
    pad_loop_last generate n (j + 1) (generate j) ∙ ap generate next

module _ (own : ℕ → ℕ) (occupancy : List Bool) (value : ℕ → ℕ) where
  pub length-filter_loop : (n i pos : ℕ) → length (filter_loop own occupancy value n i pos).0 ≡ n
  unfolding filter_loop
  length-filter_loop zero i pos = refl
  length-filter_loop (suc n) i pos = ap suc (length-filter_loop n (i + 1) _)

  pub filter_loop-IsWord :
      (n i pos : ℕ)
      → ((k : ℕ) → IsWord (own k))
      → ((k : ℕ) → IsWord (value k))
      → All IsWord (filter_loop own occupancy value n i pos).0
  unfolding filter_loop
  filter_loop-IsWord zero i pos ho hv = tt
  filter_loop-IsWord (suc n) i pos ho hv =
      (word (get_or occupancy i false), filter_loop-IsWord n (i + 1) _ ho hv)
    where
      word : (b : Bool) → IsWord (if b then value i else own pos)
      word true = hv i
      word false = ho pos

  -- A taken bin holds its value.
  pub get_or-filter_loop :
      (n i pos k : ℕ)
      → k < n
      → get_or occupancy (i + k) false ≡ true
      → get_or (filter_loop own occupancy value n i pos).0 k 0 ≡ value (i + k)
  unfolding filter_loop
  get_or-filter_loop zero i pos k lt h = absurd (omega arith)
  get_or-filter_loop (suc n) i pos zero lt h =
      let here : i + 0 ≡ i = omega arith in
      let taken : get_or occupancy i false ≡ true =
        ap (λ b. get_or occupancy b false) (sym here) ∙ h in
      ap (λ b. if b then value i else own pos) taken ∙ ap value (sym here)
  get_or-filter_loop (suc n) i pos (suc k) lt h =
      let next : i + 1 + k ≡ i + suc k = omega arith in
      get_or-filter_loop n (i + 1) _ k (omega arith) (ap (λ b. get_or occupancy b false) next ∙ h)
      ∙ ap value next

-- What is relied on of the generators: they yield words.
pub record PadsLaws (verse : Verse) (pads : Pads verse) : Type 0 where
  pub seeded-IsWord : (seed : Bytes) (j : ℕ) → IsWord (pads.seeded seed j)

module _ (verse : Verse) (pads : Pads verse) (laws : PadsLaws verse pads) where
  pad_loop-IsWord : (seed : Bytes) (n : ℕ) → IsWord (pad_loop (pads.seeded seed) (suc n) 0 0)
  pad_loop-IsWord seed n =
      subst IsWord (sym (pad_loop_last (pads.seeded seed) n 0 0)) (laws.seeded-IsWord seed (0 + n))

  pub hint-IsWord :
      (table : HintTable) (table_loc : List (Bytes × (ℕ × ℕ))) (masks : List (List verse.Block))
      (contents : List ℕ)
      → ((k : ℕ) → IsWord (get_or contents k 0))
      → (i : ℕ) → IsWord (hint verse pads table table_loc masks contents i)
  unfolding hint
  hint-IsWord table table_loc masks contents h i =
      bit_xor-lt 64 _ _ (h _) (pad_loop-IsWord _ (get_or table.function_ids i 0))

  pub feature_hint-IsWord :
      (table : HintTable) (table_loc : List (Bytes × (ℕ × ℕ))) (masks : List (List verse.Block))
      (features : List (Bytes × List ℕ)) (fid : ℕ) (contents : List ℕ) (i : ℕ)
      → IsWord (feature_hint verse pads table table_loc masks features fid contents i)
  unfolding feature_hint
  feature_hint-IsWord table table_loc masks features fid contents i =
      bit_xor-lt 64 _ _ (omega arith) (pad_loop-IsWord _ (get_or table.function_ids i 0))
