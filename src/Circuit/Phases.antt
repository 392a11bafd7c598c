-- ===== src/Circuit/Phases.antt =====
-- The two roles of circuit PSI together, from the transfer on.
use mathlib.Core.Path.{subst₂}
use petace_set_ops.Base.{
  ℕ, zero, suc, ◌+◌, ◌*◌, ◌%◌, ◌^◌, ◌<◌, ◌≡◌, refl, ap, List, [], ◌∷◌, ◌++◌, map, true, false,
  length, get_or, if◌then◌else◌,
}
use petace_set_ops.Net.{done}
use petace_set_ops.Net.Meet.{Meets, Meets-bind}
use petace_set_ops.Kkrt.Phases.{VerseLaws}
use petace_set_ops.Circuit.Tables.{Matrix, Duet, tabulate, at_key}
use petace_set_ops.Circuit.{
  bit_row, sum_rows, multiplex, send_features, receive_features, sender_phase, receiver_phase,
}
use petace_set_ops.Circuit.Words.{
  IsWord, PadsLaws, tabulate-IsWord, hint-IsWord, feature_hint-IsWord,
}
use petace_set_ops.Circuit.Shares.{DuetLaws, multiplex-Meets}
use petace_set_ops.Circuit.Joint.{
  Inputs, object, bins, hint_num, hint_table, key_table, blocks, table_loc, contents, addresses,
  features_x, features_y, x_masks, y_masks, garbled, feature_run, feature_opened, feature_shares,
  shares, x_matrix, y_matrix,
}
use petace_set_ops.Circuit.Transfer.{filter-Meets, Meets-no_stash, transfer-Meets}

module _ (inputs : Inputs) (verse_laws : VerseLaws inputs.verse)
    (pads_laws : PadsLaws inputs.verse inputs.pads) (duet : Duet) (duet_laws : DuetLaws duet)
    (own_words : (k : ℕ) → IsWord (inputs.own k)) where
  open inputs use {hashing, verse, pads, num_of_fun, num_of_fun_hint, own}
  open inputs use {x_keys, x_features, y_keys, y_features}

  -- The sender's key of the transfer.
  abbrev pub key : verse.Key
  key = verse_laws.key_of (blocks inputs)

  run_contents : List (List ℕ × List ℕ) → List (List ℕ)
  run_contents [] = []
  run_contents ((feature_contents, filter') ∷ more) = feature_contents ∷ run_contents more

  run_opened : ℕ → List (List ℕ × List ℕ) → List (List (List ℕ))
  run_opened fid [] = []
  run_opened fid ((feature_contents, filter') ∷ more) =
      feature_opened inputs key fid filter' ∷ run_opened (fid + 1) more

  x_shares :
      (fid : ℕ) (run : List (List ℕ × List ℕ))
      → map (λ p. p.0) (feature_shares inputs key fid run)
        ≡ map (λ feature. λ i j. get_or feature i 0) (run_contents run)
  unfolding feature_shares run_contents
  x_shares fid [] = refl
  x_shares fid (p ∷ run) = ap (◌∷◌ (λ i j. get_or p.0 i 0)) (x_shares (fid + 1) run)

  y_shares :
      (fid : ℕ) (run : List (List ℕ × List ℕ))
      → map (λ p. p.1) (feature_shares inputs key fid run)
        ≡ map (λ feature. λ i j. get_or (get_or feature i []) j 0) (run_opened fid run)
  unfolding feature_shares run_opened
  y_shares fid [] = refl
  y_shares fid (p ∷ run) =
      ap (◌∷◌ (λ i j. get_or (get_or (feature_opened inputs key fid p.1) i []) j 0))
        (y_shares (fid + 1) run)

  features-Meets :
      (rounds fid pos : ℕ)
      → hint_num inputs * 8 < 2 ^ 64
      → (let run = feature_run inputs key rounds fid pos in
          Meets
            (send_features hashing verse pads duet
              (object inputs true)
              own
              (hint_table inputs)
              (table_loc inputs)
              (x_masks inputs key)
              (features_x inputs)
              (bins inputs)
              (hint_num inputs)
              rounds
              fid
              pos)
            (receive_features hashing verse pads duet
              (object inputs false)
              (addresses inputs)
              (y_masks inputs key)
              (bins inputs)
              (hint_num inputs)
              rounds
              fid)
            (done (run_contents run))
            (done (run_opened fid run)))
  unfolding send_features receive_features feature_run run_contents run_opened
  features-Meets zero fid pos fits = (0, refl)
  features-Meets (suc rounds) fid pos fits =
      Meets-bind _ _ _ _ tt _ _ _
        (filter-Meets own (hint_table inputs).occupancy _ (hint_num inputs) (pos + bins inputs)
          own_words
          (feature_hint-IsWord verse pads pads_laws (hint_table inputs) (table_loc inputs)
            (x_masks inputs key) (features_x inputs) fid (tabulate (bins inputs) pos own))
          fits)
        (Meets-bind (λ more. done (_ ∷ more)) (λ more. done (_ ∷ more)) _ _ _ _ _ _
          (features-Meets rounds (fid + 1) _ fits) (0, refl))

  -- The shares of the comparison.
  abbrev pub result_x : Matrix
  result_x =
      duet_laws.equal_s (bins inputs) num_of_fun_hint (x_matrix inputs key) (λ i j. 0) (λ i j. 0)
        (y_matrix inputs key)

  abbrev pub result_y : Matrix
  result_y =
      duet_laws.equal_r (bins inputs) num_of_fun_hint (x_matrix inputs key) (λ i j. 0) (λ i j. 0)
        (y_matrix inputs key)

  -- The shares of the sender's features, after the multiplexers.
  abbrev pub chosen_x : List Matrix
  chosen_x =
      map (λ p. duet_laws.mux_s (bins inputs) num_of_fun_hint result_x result_y p.0 p.1)
        (shares inputs key)

  abbrev pub chosen_y : List Matrix
  chosen_y =
      map (λ p. duet_laws.mux_r (bins inputs) num_of_fun_hint result_x result_y p.0 p.1)
        (shares inputs key)

  -- The receiver's value of its own feature k in bin i.
  abbrev pub own_feature : ℕ → ℕ → ℕ
  own_feature k i =
      if get_or (key_table inputs).occupancy i false
      then get_or (at_key [] (get_or (key_table inputs).source_values i []) (features_y inputs)) k 0
        % 2 ^ 64
      else 0

  -- What the two parties put out.
  abbrev pub output_x : List (List ℕ)
  output_x =
      bit_row (bins inputs) num_of_fun_hint result_x
      ∷ (sum_rows (bins inputs) num_of_fun_hint chosen_x
          ++ tabulate (length y_features) 0 (λ k. tabulate (bins inputs) 0 (λ i. 0)))

  abbrev pub output_y : List (List ℕ)
  output_y =
      bit_row (bins inputs) num_of_fun_hint result_y
      ∷ (sum_rows (bins inputs) num_of_fun_hint chosen_y
          ++ tabulate (length y_features) 0 (λ k. tabulate (bins inputs) 0 (own_feature k)))

  -- The features' shares, the comparison and the multiplexers, from the filters' words on.
  multiplexers-Meets :
      (run : List (List ℕ × List ℕ))
      → Meets
          (multiplex duet true
            (bins inputs)
            num_of_fun_hint
            result_x
            (map (λ feature. λ i j. get_or feature i 0) (run_contents run)))
          (multiplex duet false
            (bins inputs)
            num_of_fun_hint
            result_y
            (map (λ feature. λ i j. get_or (get_or feature i []) j 0) (run_opened 0 run)))
          (done (
            map
              (λ p. duet_laws.mux_s (bins inputs) num_of_fun_hint result_x result_y p.0 p.1)
              (feature_shares inputs key 0 run)))
          (done (
            map
              (λ p. duet_laws.mux_r (bins inputs) num_of_fun_hint result_x result_y p.0 p.1)
              (feature_shares inputs key 0 run)))
  multiplexers-Meets run =
      subst₂
        (λ xs ys.
          Meets (multiplex duet true (bins inputs) num_of_fun_hint result_x xs)
            (multiplex duet false (bins inputs) num_of_fun_hint result_y ys)
            (done (
              map (λ p. duet_laws.mux_s (bins inputs) num_of_fun_hint result_x result_y p.0 p.1)
                (feature_shares inputs key 0 run)))
            (done (
              map (λ p. duet_laws.mux_r (bins inputs) num_of_fun_hint result_x result_y p.0 p.1)
                (feature_shares inputs key 0 run))))
        (x_shares 0 run) (y_shares 0 run)
        (multiplex-Meets duet duet_laws (bins inputs) num_of_fun_hint result_x result_y
          (feature_shares inputs key 0 run))

  -- From the transfer on, where neither cuckoo table has a stash.
  pub phases-Meets :
      length (key_table inputs).values ≡ bins inputs
      → (hint_table inputs).stash_size ≡ 0
      → hint_num inputs * 8 < 2 ^ 64
      → Meets
          (sender_phase hashing verse pads duet
            (object inputs true)
            own
            (bins inputs)
            (hint_num inputs)
            (length y_features)
            x_keys
            x_features)
          (receiver_phase hashing verse pads duet
            (object inputs false)
            (bins inputs)
            (hint_num inputs)
            (length x_features)
            (key_table inputs)
            y_keys
            y_features)
          (done output_x)
          (done output_y)
  unfolding sender_phase receiver_phase
  phases-Meets full no_stash fits =
      Meets-bind _ _ _ _ key (y_masks inputs key) _ _ (transfer-Meets inputs verse_laws full) (
        Meets-no_stash _ _ _ _ _ no_stash (
          Meets-bind _ _ _ _ tt (garbled inputs key).0 _ _
            (filter-Meets own (hint_table inputs).occupancy _ (hint_num inputs) (bins inputs)
              own_words
              (hint-IsWord verse pads pads_laws (hint_table inputs) (table_loc inputs)
                (x_masks inputs key) (contents inputs)
                (tabulate-IsWord (bins inputs) 0 own own_words))
              fits)
            (Meets-bind _ _ _ _ _ _ _ _
              (features-Meets (length x_features) 0 (garbled inputs key).1 fits)
              (Meets-bind _ _ _ _ result_x result_y _ _
                (duet_laws.equal_Meets (bins inputs) num_of_fun_hint (x_matrix inputs key)
                  (λ i j. 0) (λ i j. 0) (y_matrix inputs key))
                (Meets-bind _ _ _ _ chosen_x chosen_y _ _ (multiplexers-Meets _) (0, refl))))))
