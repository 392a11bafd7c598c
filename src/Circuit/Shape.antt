-- ===== src/Circuit/Shape.antt =====
-- The sizes of the shares of circuit PSI, and of their words.
use petace_set_ops.Base.{
  ℕ, zero, suc, ◌+◌, ◌%◌, ◌^◌, ◌≤◌, ◌<◌, ◌≡◌, List, [], ◌∷◌, ◌++◌, map, Bool, true, false, arith,
  length, length-append, length-map, All, get_or, if◌then◌else◌,
}
use petace_set_ops.Net.{done}
use petace_set_ops.Net.Run.{Sys, Steps, Reach, joined}
use petace_set_ops.Std.Bits.{bit_xor-lt}
use petace_set_ops.Kkrt.Phases.{VerseLaws}
use petace_set_ops.Circuit.Tables.{Matrix, Duet, tabulate, xor_loop, sum_loop}
use petace_set_ops.Circuit.{bit_row, sum_rows, process}
use petace_set_ops.Circuit.Words.{IsWord, PadsLaws, length-tabulate}
use petace_set_ops.Circuit.Shares.{DuetLaws}
use petace_set_ops.Circuit.Joint.{Inputs, object, bins, hint_table, key_table, shares}
use petace_set_ops.Circuit.Phases.{key, result_x, result_y, own_feature, output_x, output_y}
use petace_set_ops.Circuit.Outputs.{length-shares}
use petace_set_ops.Circuit.Process.{SizesFit, process-Meets}
use petace_set_ops.Net.Meet.{Meets-every_schedule}

module _ {ℓ κ} {A : Type ℓ} (P : A → Type κ) where
  tabulate-All :
      (n i : ℕ) (f : ℕ → A) → ((k : ℕ) → i ≤ k → k < i + n → P (f k)) → All P (tabulate n i f)
  tabulate-All zero i f h = tt
  tabulate-All (suc n) i f h = (
    h i (omega arith) (omega arith),
    tabulate-All n (i + 1) f (λ k le lt. h k (omega arith) (omega arith)),
  )

  append-All : (xs ys : List A) → All P xs → All P ys → All P (xs ++ ys)
  append-All [] ys hx hy = hy
  append-All (x ∷ xs) ys (h, hx) hy = (h, append-All xs ys hx hy)

-- A row of n words.
abbrev pub IsRow : ℕ → List ℕ → Type 0
IsRow n row = (length row ≡ n) × All IsWord row

tabulate-IsRow : (n : ℕ) (f : ℕ → ℕ) → ((k : ℕ) → k < n → IsWord (f k)) → IsRow n (tabulate n 0 f)
tabulate-IsRow n f h =
    (length-tabulate n 0 f, tabulate-All IsWord n 0 f (λ k le lt. h k (omega arith)))

xor_loop-lt :
    (f : ℕ → ℕ) (n i acc : ℕ)
    → acc < 2 ^ 1
    → ((k : ℕ) → k < i + n → f k < 2 ^ 1)
    → xor_loop f n i acc < 2 ^ 1
unfolding xor_loop
xor_loop-lt f zero i acc ha h = ha
xor_loop-lt f (suc n) i acc ha h =
    xor_loop-lt f n (i + 1) _ (bit_xor-lt 1 acc (f i) ha (h i (omega arith)))
      (λ k lt. h k (omega arith))

sum_loop-IsWord : (f : ℕ → ℕ) (n i acc : ℕ) → IsWord acc → IsWord (sum_loop f n i acc)
unfolding sum_loop
sum_loop-IsWord f zero i acc h = h
sum_loop-IsWord f (suc n) i acc h = sum_loop-IsWord f n (i + 1) _ (omega arith)

sum_rows-IsRow :
    (n columns : ℕ) (results : List Matrix) → All (IsRow n) (sum_rows n columns results)
sum_rows-IsRow n columns [] = tt
sum_rows-IsRow n columns (result ∷ results) = (
  tabulate-IsRow n _ (λ k lt. sum_loop-IsWord (result k) columns 0 0 (omega arith)),
  sum_rows-IsRow n columns results,
)

module _ (inputs : Inputs) (verse_laws : VerseLaws inputs.verse)
    (pads_laws : PadsLaws inputs.verse inputs.pads) (duet : Duet) (duet_laws : DuetLaws duet)
    (own_words : (k : ℕ) → IsWord (inputs.own k)) (fit : SizesFit inputs) where
  open inputs use {
    hashing, verse, pads, num_of_fun_hint, own, x_keys, x_features, y_keys, y_features,
  }

  abbrev out_x : List (List ℕ)
  out_x = output_x inputs verse_laws pads_laws duet duet_laws own_words

  abbrev out_y : List (List ℕ)
  out_y = output_y inputs verse_laws pads_laws duet duet_laws own_words

  abbrev feature : ℕ → ℕ → ℕ
  feature = own_feature inputs verse_laws pads_laws duet duet_laws own_words

  own_feature-IsWord : (k i : ℕ) → IsWord (feature k i)
  own_feature-IsWord k i = word (get_or (key_table inputs).occupancy i false) _
    where
      word : (b : Bool) (n : ℕ) → IsWord (if b then n % 2 ^ 64 else 0)
      word true n = omega arith
      word false n = omega arith

  rows :
      (bit : List ℕ) (results : List Matrix) (f : ℕ → ℕ → ℕ)
      → IsRow (bins inputs) bit
      → ((k i : ℕ) → IsWord (f k i))
      → All (IsRow (bins inputs)) (
          bit
          ∷ (sum_rows (bins inputs) num_of_fun_hint results
              ++ tabulate (length y_features) 0 (λ k. tabulate (bins inputs) 0 (f k))))
  rows bit results f hb hf = (
    hb,
    append-All (IsRow (bins inputs)) _ _ (sum_rows-IsRow (bins inputs) num_of_fun_hint results) (
        tabulate-All (IsRow (bins inputs)) (length y_features) 0 _
          (λ k le lt. tabulate-IsRow (bins inputs) (f k) (λ i lt'. hf k i))),
  )

  counted :
      (chosen : Matrix × Matrix → Matrix) (bit : List ℕ) (f : ℕ → List ℕ)
      → (let results =
            map chosen (shares inputs (key inputs verse_laws pads_laws duet duet_laws own_words)) in
          length (
            bit
            ∷ (sum_rows (bins inputs) num_of_fun_hint results ++ tabulate (length y_features) 0 f))
          ≡ 1 + length x_features + length y_features)
  counted chosen bit f =
      let own_key = key inputs verse_laws pads_laws duet duet_laws own_words in
      let results = map chosen (shares inputs own_key) in
      omega (
        arith,
        length-append (sum_rows (bins inputs) num_of_fun_hint results)
            (tabulate (length y_features) 0 f),
        length-tabulate (length y_features) 0 f,
        length-map
            (λ result. tabulate (bins inputs) 0 (λ i. sum_loop (result i) num_of_fun_hint 0 0))
            results,
        length-map chosen (shares inputs own_key),
        length-shares inputs own_key,
      )

  bit-IsWord :
      (f : ℕ → ℕ)
      → ((j : ℕ) → j < num_of_fun_hint → f j < 2)
      → IsWord (xor_loop f num_of_fun_hint 0 0)
  bit-IsWord f h =
      omega (arith, xor_loop-lt f num_of_fun_hint 0 0 (omega arith) (λ j lt. h j (omega arith)))

  -- Let the cuckoo tables have no stash, the receiver's as many bins as were asked for, and the sizes fit.
  -- Then every interleaving can go on to ends at which each party has one row of shares for membership and
  -- one for each feature of either party, and each row has one word of 64 bits for each bin.
  pub process_shape :
      (own_y : ℕ → ℕ) (n : ℕ) (u : Sys (List (List ℕ)) (List (List ℕ)))
      → length (key_table inputs).values ≡ bins inputs
      → (key_table inputs).stash_size ≡ 0
      → (hint_table inputs).stash_size ≡ 0
      → Steps n
          (joined
            (process hashing verse pads duet (object inputs true) own x_keys x_features)
            (process hashing verse pads duet (object inputs false) own_y y_keys y_features))
          u
      → Reach u (joined (done out_x) (done out_y))
        × (length out_x ≡ 1 + length x_features + length y_features)
        × (length out_y ≡ 1 + length x_features + length y_features)
        × All (IsRow (bins inputs)) out_x
        × All (IsRow (bins inputs)) out_y
  process_shape own_y n u full no_stash no_stash' steps = (
    Meets-every_schedule _ _ _ _ n u
        (process-Meets inputs verse_laws pads_laws duet duet_laws own_words fit own_y full no_stash
          no_stash')
        tt tt steps,
    counted _
        (bit_row (bins inputs) num_of_fun_hint
          (result_x inputs verse_laws pads_laws duet duet_laws own_words))
        _,
    counted _
        (bit_row (bins inputs) num_of_fun_hint
          (result_y inputs verse_laws pads_laws duet duet_laws own_words))
        _,
    rows _ _ (λ k i. 0)
        (tabulate-IsRow (bins inputs) _ (λ i lt.
          bit-IsWord _
            (λ j lt'. duet_laws.bits_s (bins inputs) num_of_fun_hint _ _ _ _ i j lt lt')))
        (λ k i. omega arith),
    rows _ _ feature
        (tabulate-IsRow (bins inputs) _ (λ i lt.
          bit-IsWord _
            (λ j lt'. duet_laws.bits_r (bins inputs) num_of_fun_hint _ _ _ _ i j lt lt')))
        own_feature-IsWord,
  )
