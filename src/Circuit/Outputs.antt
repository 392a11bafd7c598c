-- ===== src/Circuit/Outputs.antt =====
-- What the two parties' values of `output_shares` are together.
use Prim.Native.Nat.{bit_xor}
use petace_set_ops.Base.{
  ℕ, zero, suc, ◌+◌, ◌%◌, ◌^◌, ◌<◌, ◌≡◌, refl, sym, ap, ◌∙◌, List, [], ◌∷◌, ◌++◌, map, Bool, true,
  false, arith, length, length-map, get_or, get_or-map, get_or-append_left, get_or-append_right,
  if◌then◌else◌, ◌==◌,
}
use petace_set_ops.Kkrt.Phases.{VerseLaws}
use petace_set_ops.Circuit.Tables.{Matrix, Duet, tabulate, xor_loop, sum_loop}
use petace_set_ops.Circuit.{sum_rows}
use petace_set_ops.Circuit.Words.{IsWord, PadsLaws, get_or-tabulate}
use petace_set_ops.Circuit.Shares.{DuetLaws, xor_loop_parties, sum_loop_parties}
use petace_set_ops.Circuit.Joint.{
  Inputs, bins, garbled, feature_run, feature_shares, shares, agrees,
}
use petace_set_ops.Circuit.Phases.{key, result_x, result_y, own_feature, output_x, output_y}

-- Row k of the output, at bin i.
abbrev pub share_at : List (List ℕ) → ℕ → ℕ → ℕ
share_at output k i = get_or (get_or output k []) i 0

-- The test of two numbers of which the other party's share is 0.
plain_equal :
    (x y : ℕ)
    → x < 2 ^ 62
    → y < 2 ^ 62
    → ◌≡◌ {A = ℕ} (if (x + 0) % 2 ^ 64 == (0 + y) % 2 ^ 64 then 1 else 0) (if x == y then 1 else 0)
plain_equal x y hx hy =
    let plain_x : (x + 0) % 2 ^ 64 ≡ x = omega arith in
    let plain_y : (0 + y) % 2 ^ 64 ≡ y = omega arith in λ t. if plain_x t == plain_y t then 1 else 0

module _ (inputs : Inputs) (key : inputs.verse.Key) where
  length-feature_run :
      (rounds fid pos : ℕ) → length (feature_run inputs key rounds fid pos) ≡ rounds
  unfolding feature_run
  length-feature_run zero fid pos = refl
  length-feature_run (suc rounds) fid pos = ap suc (length-feature_run rounds (fid + 1) _)

  length-feature_shares :
      (fid : ℕ) (run : List (List ℕ × List ℕ))
      → length (feature_shares inputs key fid run) ≡ length run
  unfolding feature_shares
  length-feature_shares fid [] = refl
  length-feature_shares fid (p ∷ run) = ap suc (length-feature_shares (fid + 1) run)

  pub length-shares : length (shares inputs key) ≡ length inputs.x_features
  length-shares =
      length-feature_shares 0 _
      ∙ length-feature_run (length inputs.x_features) 0 (garbled inputs key).1

module _ (inputs : Inputs) (verse_laws : VerseLaws inputs.verse)
    (pads_laws : PadsLaws inputs.verse inputs.pads) (duet : Duet) (duet_laws : DuetLaws duet)
    (own_words : (k : ℕ) → IsWord (inputs.own k)) where
  open inputs use {num_of_fun_hint, x_features, y_features}

  abbrev out_x : List (List ℕ)
  out_x = output_x inputs verse_laws pads_laws duet duet_laws own_words

  abbrev out_y : List (List ℕ)
  out_y = output_y inputs verse_laws pads_laws duet duet_laws own_words

  abbrev matches : ℕ → ℕ → Bool
  matches = agrees inputs (key inputs verse_laws pads_laws duet duet_laws own_words)

  abbrev rx : Matrix
  rx = result_x inputs verse_laws pads_laws duet duet_laws own_words

  abbrev ry : Matrix
  ry = result_y inputs verse_laws pads_laws duet duet_laws own_words

  -- The two result bits of the comparison.
  results :
      (i j : ℕ)
      → i < bins inputs
      → j < num_of_fun_hint
      → bit_xor (rx i j) (ry i j) ≡ (if matches i j then 1 else 0)
  results i j hi hj =
      duet_laws.equal_bits (bins inputs) num_of_fun_hint _ (λ i j. 0) (λ i j. 0) _ i j hi hj
      ∙ plain_equal _ _ (omega arith) (omega arith)

  pub share_bits :
      (i : ℕ)
      → i < bins inputs
      → bit_xor (share_at out_x 0 i) (share_at out_y 0 i)
        ≡ xor_loop (λ j. if matches i j then 1 else 0) num_of_fun_hint 0 0
  share_bits i hi =
      (λ t.
        bit_xor
          (get_or-tabulate (bins inputs) 0 (λ i. xor_loop (rx i) num_of_fun_hint 0 0) i 0 hi t)
          (get_or-tabulate (bins inputs) 0 (λ i. xor_loop (ry i) num_of_fun_hint 0 0) i 0 hi t))
      ∙ (λ t.
          bit_xor (xor_loop (rx (start t)) num_of_fun_hint 0 0)
            (xor_loop (ry (start t)) num_of_fun_hint 0 0))
      ∙ xor_loop_parties (rx i) (ry i) _ num_of_fun_hint 0 0 0 (omega arith) (omega arith)
          (λ k lt. duet_laws.bits_s (bins inputs) num_of_fun_hint _ _ _ _ i k hi (omega arith))
          (λ k lt. duet_laws.bits_r (bins inputs) num_of_fun_hint _ _ _ _ i k hi (omega arith))
          (λ k lt. results i k hi (omega arith))
    where
      start : 0 + i ≡ i
      start = omega arith

  -- The shares of the sender's feature k before the multiplexers.
  abbrev pub feature_pair : ℕ → Matrix × Matrix
  feature_pair k =
      get_or (shares inputs (key inputs verse_laws pads_laws duet duet_laws own_words)) k
        ((λ i j. 0), (λ i j. 0))

  rows_at :
      (chosen : Matrix × Matrix → Matrix) (others : List (List ℕ)) (k i : ℕ)
      → i < bins inputs
      → k < length x_features
      → (let pairs = shares inputs (key inputs verse_laws pads_laws duet duet_laws own_words) in
          share_at (sum_rows (bins inputs) num_of_fun_hint (map chosen pairs) ++ others) k i
          ≡ sum_loop (chosen (feature_pair k) i) num_of_fun_hint 0 0)
  rows_at chosen others k i hi hk =
      let own_key = key inputs verse_laws pads_laws duet duet_laws own_words in
      let pairs = shares inputs own_key in
      let row : Matrix → List ℕ =
        λ result. tabulate (bins inputs) 0 (λ i. sum_loop (result i) num_of_fun_hint 0 0) in
      let counted : length pairs ≡ length x_features = length-shares inputs own_key in
      let start : 0 + i ≡ i = omega arith in
      ap (λ r. get_or r i 0)
        (get_or-append_left (map row (map chosen pairs)) others k []
            (omega (arith, length-map row (map chosen pairs), length-map chosen pairs, counted))
          ∙ get_or-map row (map chosen pairs) k (λ i j. 0) []
              (omega (arith, length-map chosen pairs, counted))
          ∙ ap row (
              get_or-map chosen pairs k ((λ i j. 0), (λ i j. 0)) (λ i j. 0)
                (omega (arith, counted))))
      ∙ get_or-tabulate (bins inputs) 0
          (λ i. sum_loop (chosen (feature_pair k) i) num_of_fun_hint 0 0) i 0 hi
      ∙ ap (λ n. sum_loop (chosen (feature_pair k) n) num_of_fun_hint 0 0) start

  -- The shares of the sender's feature k.
  pub share_x_feature :
      (k i : ℕ)
      → i < bins inputs
      → k < length x_features
      → (share_at out_x (suc k) i + share_at out_y (suc k) i) % 2 ^ 64
        ≡ sum_loop
            (λ j.
              if matches i j then ((feature_pair k).0 i j + (feature_pair k).1 i j) % 2 ^ 64 else 0)
            num_of_fun_hint
            0
            0
  share_x_feature k i hi hk =
      let p = feature_pair k in
      (λ t.
        (rows_at (λ p. duet_laws.mux_s (bins inputs) num_of_fun_hint rx ry p.0 p.1)
            (tabulate (length y_features) 0 (λ k. tabulate (bins inputs) 0 (λ i. 0))) k i hi hk t
          + rows_at (λ p. duet_laws.mux_r (bins inputs) num_of_fun_hint rx ry p.0 p.1)
              (tabulate (length y_features) 0 (λ k.
                tabulate (bins inputs) 0
                  (own_feature inputs verse_laws pads_laws duet duet_laws own_words k)))
              k i hi hk t)
        % 2 ^ 64)
      ∙ sum_loop_parties (duet_laws.mux_s (bins inputs) num_of_fun_hint rx ry p.0 p.1 i)
          (duet_laws.mux_r (bins inputs) num_of_fun_hint rx ry p.0 p.1 i) _ num_of_fun_hint 0 0 0 0
          (omega arith)
          (λ j lt.
            duet_laws.mux_sum (bins inputs) num_of_fun_hint rx ry p.0 p.1 i j hi (omega arith)
            ∙ ap (λ b. if b == 1 then (p.0 i j + p.1 i j) % 2 ^ 64 else 0)
                (results i j hi (omega arith))
            ∙ chosen (matches i j) ((p.0 i j + p.1 i j) % 2 ^ 64))
    where
      chosen :
          (b : Bool) (n : ℕ) → (if (if b then 1 else 0) == 1 then n else 0) ≡ (if b then n else 0)
      chosen true n = refl
      chosen false n = refl

  -- The shares of the receiver's feature k.
  pub share_y_feature :
      (k i : ℕ)
      → i < bins inputs
      → k < length y_features
      → (share_at out_x (suc (length x_features + k)) i ≡ 0)
        × (share_at out_y (suc (length x_features + k)) i
            ≡ own_feature inputs verse_laws pads_laws duet duet_laws own_words k i)
  share_y_feature k i hi hk = (
    row_at _ (λ k. tabulate (bins inputs) 0 (λ i. 0)) (sized _)
        ∙ get_or-tabulate (bins inputs) 0 (λ i. 0) i 0 hi,
    row_at _ (λ k. tabulate (bins inputs) 0 (feature k)) (sized _)
        ∙ get_or-tabulate (bins inputs) 0 (feature (0 + k)) i 0 hi
        ∙ (λ t. feature (start k t) (start i t)),
  )
    where
      start : (n : ℕ) → 0 + n ≡ n
      start n = omega arith

      feature : ℕ → ℕ → ℕ
      feature = own_feature inputs verse_laws pads_laws duet duet_laws own_words

      sized :
          (chosen : Matrix × Matrix → Matrix)
          → length (
              sum_rows (bins inputs) num_of_fun_hint (
                map chosen
                  (shares inputs (key inputs verse_laws pads_laws duet duet_laws own_words))))
            ≡ length x_features
      sized chosen =
          length-map _ _
          ∙ length-map chosen _
          ∙ length-shares inputs (key inputs verse_laws pads_laws duet duet_laws own_words)

      row_at :
          (rows : List (List ℕ)) (f : ℕ → List ℕ)
          → length rows ≡ length x_features
          → share_at (rows ++ tabulate (length y_features) 0 f) (length x_features + k) i
            ≡ get_or (f (0 + k)) i 0
      row_at rows f e =
          ap (λ r. get_or r i 0)
            (ap (λ n. get_or (rows ++ tabulate (length y_features) 0 f) (n + k) []) (sym e)
              ∙ get_or-append_right rows (tabulate (length y_features) 0 f) k []
              ∙ get_or-tabulate (length y_features) 0 f k [] hk)
