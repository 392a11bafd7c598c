-- ===== src/Circuit/Found.antt =====
-- The shares of circuit PSI for a bin whose key both parties have, and for the other bins.
use Prim.Native.Nat.{bit_xor}
use petace_set_ops.Base.{
  ℕ, zero, suc, ◌+◌, ◌%◌, ◌^◌, ◌<◌, ◌≡◌, ◌≢◌, refl, ap, ◌∙◌, List, [], ◌∷◌, map, length-map, Bool,
  true, false, arith, Bytes, length, get_or, ◌==◌, ==_iff,
}
use petace_set_ops.Net.{done}
use petace_set_ops.Net.Run.{Sys, Steps, Reach, joined}
use petace_set_ops.Kkrt.Phases.{VerseLaws}
use petace_set_ops.Circuit.Tables.{
  Matrix, Duet, tabulate, at_key, xor_first, filter_loop, feature_hint,
}
use petace_set_ops.Circuit.{process}
use petace_set_ops.Circuit.Words.{IsWord, PadsLaws, tabulate-IsWord}
use petace_set_ops.Circuit.Shares.{DuetLaws}
use petace_set_ops.Circuit.Loops.{xor_loop_one, sum_loop_one}
use petace_set_ops.Circuit.Joint.{
  Inputs, object, bins, simple_values, hint_num, hint_table, key_table, table_loc, features_x,
  x_masks, garbled, feature_run, feature_opened, feature_shares, agrees, x_matrix,
}
use petace_set_ops.Circuit.Features.{feature_at}
use petace_set_ops.Circuit.Locate.{IndexFits}
use petace_set_ops.Circuit.Hints.{
  HashingLaws, Shared, Hinted, find_Hinted, open_content, open_feature,
}
use petace_set_ops.Circuit.Phases.{key, output_x, output_y}
use petace_set_ops.Circuit.Outputs.{share_at, feature_pair}
use petace_set_ops.Circuit.Process.{SizesFit, process_membership, process_sender_feature}

-- What a loop lists for the elements of a list, by position.
pub tabulate-map :
    (f : ℕ → ℕ) (g : List ℕ → ℕ) (start : ℕ) (l : List (List ℕ))
    → ((k : ℕ) → k < length l → f (start + k) ≡ g (get_or l k []))
    → tabulate (length l) start f ≡ map g l
tabulate-map f g start [] h = refl
tabulate-map f g start (x ∷ l) h =
    let here : start ≡ start + 0 = omega arith in
    let rest : tabulate (length l) (start + 1) f ≡ map g l = tabulate-map f g (start + 1) l (λ k lt.
      let next : start + 1 + k ≡ start + suc k = omega arith in
      ap f next ∙ h (suc k) (omega arith)) in
    (λ t. (ap f here ∙ h 0 (omega arith)) t ∷ rest t)

module _ (inputs : Inputs) (key : inputs.verse.Key) where
  open inputs use {verse, pads, own, x_features}

  -- The filter of feature fid for contents that are drawn from a position on.
  abbrev filter_at : ℕ → ℕ → List ℕ
  filter_at fid pos =
      (filter_loop own (hint_table inputs).occupancy
        (feature_hint verse pads (hint_table inputs) (table_loc inputs) (x_masks inputs key)
          (features_x inputs) fid (tabulate (bins inputs) pos own))
        (hint_num inputs) 0 (pos + bins inputs)).0

  abbrev pair_at : ℕ → ℕ → Matrix × Matrix
  pair_at fid pos = (
    (λ i j. get_or (tabulate (bins inputs) pos own) i 0),
    (λ i j. get_or (get_or (feature_opened inputs key fid (filter_at fid pos)) i []) j 0),
  )

  run_shares :
      (rounds fid pos k : ℕ) (d : Matrix × Matrix)
      → k < rounds
      → (pos' : ℕ) × (get_or
            (feature_shares inputs key fid (feature_run inputs key rounds fid pos))
            k
            d
          ≡ pair_at (fid + k) pos')
  unfolding feature_run feature_shares
  run_shares zero fid pos k d h = elim h [ ]
  run_shares (suc rounds) fid pos zero d h =
      let here : fid ≡ fid + 0 = omega arith in (pos, ap (λ n. pair_at n pos) here)
  run_shares (suc rounds) fid pos (suc k) d h =
      let next : fid + 1 + k ≡ fid + suc k = omega arith in
      let (pos', e) = run_shares rounds (fid + 1) _ k d (omega arith) in
      (pos', e ∙ ap (λ n. pair_at n pos') next)

module _ (inputs : Inputs) (verse_laws : VerseLaws inputs.verse)
    (pads_laws : PadsLaws inputs.verse inputs.pads) (duet : Duet) (duet_laws : DuetLaws duet)
    (own_words : (k : ℕ) → IsWord (inputs.own k)) (fit : SizesFit inputs)
    (hashing_laws : HashingLaws inputs.hashing)
    (index_fits : IndexFits (simple_values inputs)) where
  open inputs use {hashing, verse, pads, num_of_fun, num_of_fun_hint, own}
  open inputs use {x_keys, x_features, y_keys, y_features}

  abbrev own_key : verse.Key
  own_key = key inputs verse_laws pads_laws duet duet_laws own_words

  abbrev out_x : List (List ℕ)
  out_x = output_x inputs verse_laws pads_laws duet duet_laws own_words

  abbrev out_y : List (List ℕ)
  out_y = output_y inputs verse_laws pads_laws duet duet_laws own_words

  abbrev matches : ℕ → ℕ → Bool
  matches = agrees inputs own_key

  content_agrees :
      (v : Bytes) (i t j : ℕ)
      → Shared inputs hashing_laws own_key v i t
      → Hinted inputs hashing_laws own_key v j
      → matches i j ≡ true
  content_agrees v i t j shared hinted =
      ap (λ n. x_matrix inputs own_key i j == n % 2 ^ 62)
        (open_content inputs hashing_laws own_key v i t j index_fits shared hinted)
      ∙ (==_iff _ _).1 refl

  -- What the parties hold of feature k for a shared value adds up to the feature.
  pair_sum :
      (v : Bytes) (i t j k : ℕ)
      → Shared inputs hashing_laws own_key v i t
      → Hinted inputs hashing_laws own_key v j
      → k < length x_features
      → (let p = feature_pair inputs verse_laws pads_laws duet duet_laws own_words k in
          (p.0 i j + p.1 i j) % 2 ^ 64 ≡ get_or (at_key [] v (features_x inputs)) k 0 % 2 ^ 64)
  pair_sum v i t j k shared hinted hk =
      let (pos, e) =
        run_shares inputs own_key (length x_features) 0 (garbled inputs own_key).1 k
          ((λ i j. 0), (λ i j. 0)) hk in
      let plain : 0 + k ≡ k = omega arith in
      (λ s. ((e s).0 i j + (e s).1 i j) % 2 ^ 64)
      ∙ (λ s.
          ((pair_at inputs own_key (plain s) pos).0 i j
            + (pair_at inputs own_key (plain s) pos).1 i j)
          % 2 ^ 64)
      ∙ ap (λ n. (get_or (tabulate (bins inputs) pos own) i 0 + n) % 2 ^ 64)
          (open_feature inputs hashing_laws own_key v i t j k (pos + bins inputs)
            (tabulate (bins inputs) pos own) index_fits shared hinted)
      ∙ omega (arith, tabulate-IsWord (bins inputs) pos own own_words i)

  -- The shares of feature k of the sender add up to the feature of key a.
  feature_sum :
      (own_y : ℕ → ℕ) (n k i t a f : ℕ) (v : Bytes) (u : Sys (List (List ℕ)) (List (List ℕ)))
      → length (key_table inputs).values ≡ bins inputs
      → (key_table inputs).stash_size ≡ 0
      → (hint_table inputs).stash_size ≡ 0
      → Shared inputs hashing_laws own_key v i t
      → ((j j' : ℕ)
          → j < num_of_fun_hint
          → j' < num_of_fun_hint
          → matches i j ≡ true
          → matches i j' ≡ true
          → j ≡ j')
      → a < length x_keys
      → f < num_of_fun
      → xor_first f (get_or (map hashing.hash x_keys) a []) ≡ v
      → ((b g : ℕ)
          → b < a
          → g < num_of_fun
          → xor_first g (get_or (map hashing.hash x_keys) b []) ≢ v)
      → k < length x_features
      → Steps n
          (joined
            (process hashing verse pads duet (object inputs true) own x_keys x_features)
            (process hashing verse pads duet (object inputs false) own_y y_keys y_features))
          u
      → (share_at out_x (suc k) i + share_at out_y (suc k) i) % 2 ^ 64
        ≡ get_or (get_or x_features k []) a 0 % 2 ^ 64
  feature_sum own_y n k i t a f v u full no_stash no_stash' shared single la lf e first hk steps =
      let (at_v, alone, hi, hv, is_v) = shared in
      let (j, hinted) = find_Hinted inputs hashing_laws own_key v i t no_stash' at_v in
      let (hj, _, _, _, _) = hinted in
      let here = content_agrees v i t j shared hinted in
      let (_, sums) =
        process_sender_feature inputs verse_laws pads_laws duet duet_laws own_words fit own_y n k i
          u full no_stash no_stash' hi hk steps in
      sums
      ∙ sum_loop_one (matches i) _ num_of_fun_hint j hj here (λ k lt m. single k j lt hj m here)
      ∙ word _
      ∙ pair_sum v i t j k shared hinted hk
      ∙ ap (λ n. n % 2 ^ 64)
          (feature_at num_of_fun x_features (map hashing.hash x_keys) v a f k (counted la) lf e
            first hk)
    where
      word : (n : ℕ) → n % 2 ^ 64 % 2 ^ 64 ≡ n % 2 ^ 64
      word n = omega arith

      counted : a < length x_keys → a < length (map hashing.hash x_keys)
      counted la = omega (arith, la, length-map hashing.hash x_keys)

  -- Let the libraries keep their laws, the sizes and the positions in the simple table fit, the
  -- tables have no stash, and the receiver's as many bins as were asked for. Let v be the
  -- receiver's value of bin i and an entry of the sender's bin i and of no other; let it be a value
  -- of key a of the sender and of no earlier key; and let the content of the bin be read under one
  -- hint function at most. Then every interleaving can go on to ends at which the membership shares
  -- of bin i differ by exactly 1, also where the sender has no features, and the shares of the
  -- sender's features add up, in 64 bits, to those of key a, in their order.
  pub process_found :
      (own_y : ℕ → ℕ) (n i t a f : ℕ) (v : Bytes) (u : Sys (List (List ℕ)) (List (List ℕ)))
      → length (key_table inputs).values ≡ bins inputs
      → (key_table inputs).stash_size ≡ 0
      → (hint_table inputs).stash_size ≡ 0
      → Shared inputs hashing_laws own_key v i t
      → ((j j' : ℕ)
          → j < num_of_fun_hint
          → j' < num_of_fun_hint
          → matches i j ≡ true
          → matches i j' ≡ true
          → j ≡ j')
      → a < length x_keys
      → f < num_of_fun
      → xor_first f (get_or (map hashing.hash x_keys) a []) ≡ v
      → ((b g : ℕ)
          → b < a
          → g < num_of_fun
          → xor_first g (get_or (map hashing.hash x_keys) b []) ≢ v)
      → Steps n
          (joined
            (process hashing verse pads duet (object inputs true) own x_keys x_features)
            (process hashing verse pads duet (object inputs false) own_y y_keys y_features))
          u
      → Reach u (joined (done out_x) (done out_y))
        × (bit_xor (share_at out_x 0 i) (share_at out_y 0 i) ≡ 1)
        × (tabulate
              (length x_features)
              0
              (λ k. (share_at out_x (suc k) i + share_at out_y (suc k) i) % 2 ^ 64)
            ≡ map (λ feature. get_or feature a 0 % 2 ^ 64) x_features)
  process_found own_y n i t a f v u full no_stash no_stash' shared single la lf e first steps =
      let (at_v, alone, hi, hv, is_v) = shared in
      let (j, hinted) = find_Hinted inputs hashing_laws own_key v i t no_stash' at_v in
      let (hj, _, _, _, _) = hinted in
      let here = content_agrees v i t j shared hinted in
      let (reach, bits) =
        process_membership inputs verse_laws pads_laws duet duet_laws own_words fit own_y n i u full
          no_stash no_stash' hi steps in
      (
        reach,
        bits
            ∙ xor_loop_one (matches i) num_of_fun_hint j hj here
                (λ k lt m. single k j lt hj m here),
        tabulate-map _ (λ feature. get_or feature a 0 % 2 ^ 64) 0 x_features
            (λ k hk.
              let plain : 0 + k ≡ k = omega arith in
              (λ s. (share_at out_x (suc (plain s)) i + share_at out_y (suc (plain s)) i) % 2 ^ 64)
              ∙ feature_sum own_y n k i t a f v u full no_stash no_stash' shared single la lf e
                  first hk steps),
      )
