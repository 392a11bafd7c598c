-- ===== src/Circuit/Process.antt =====
-- `CircuitPSI::process` on both sides, in every interleaving, and what its shares add up to.
use Prim.Native.Nat.{bit_xor}
use petace_set_ops.Base.{
  ℕ, suc, ◌+◌, ◌*◌, ◌%◌, ◌^◌, ◌<◌, ◌≡◌, ◌≢◌, ◌⊎◌, inl, inr, refl, ap, ◌∙◌, List, [], map,
  length-map, Bool, true, false, Bool-cases, arith, length, get_or, if◌then◌else◌,
}
use petace_set_ops.Net.{Proc, done}
use petace_set_ops.Net.Wire.{size_t}
use petace_set_ops.Net.Run.{Sys, Steps, Reach, joined}
use petace_set_ops.Net.Meet.{
  Meets, Meets-send_left, Meets-send_right, Meets-bind, Meets-flip, Meets-every_schedule,
}
use petace_set_ops.Kkrt.Phases.{VerseLaws}
use petace_set_ops.Circuit.Tables.{Matrix, Duet, at_key, xor_loop, sum_loop}
use petace_set_ops.Circuit.{exchange_sizes, hint_bins, process}
use petace_set_ops.Circuit.Words.{IsWord, PadsLaws}
use petace_set_ops.Circuit.Shares.{DuetLaws}
use petace_set_ops.Circuit.Features.{own_feature_at}
use petace_set_ops.Circuit.Joint.{
  Inputs, object, bins, hint_num, hint_table, key_table, features_y, agrees,
}
use petace_set_ops.Circuit.Outputs.{
  share_at, share_bits, share_x_feature, share_y_feature, feature_pair,
}
use petace_set_ops.Circuit.Transfer.{Meets-no_stash}
use petace_set_ops.Circuit.Phases.{key, own_feature, output_x, output_y, phases-Meets}

pub exchange_sizes-Meets :
    (a b c d : ℕ)
    → a < 2 ^ 64
    → b < 2 ^ 64
    → c < 2 ^ 64
    → d < 2 ^ 64
    → Meets (exchange_sizes true a b) (exchange_sizes false c d) (done (c, d)) (done (a, b))
unfolding exchange_sizes
exchange_sizes-Meets a b c d ha hb hc hd = Meets-send_right _ _ _ _ _ _ (size_t.length-encode c) (
    Meets-send_right _ _ _ _ _ _ (size_t.length-encode d) (
      Meets-send_left _ _ _ _ _ _ (size_t.length-encode a) (
        Meets-send_left _ _ _ _ _ _ (size_t.length-encode b) (
          rw
            (
              size_t.decode-encode a ha,
              size_t.decode-encode b hb,
              size_t.decode-encode c hc,
              size_t.decode-encode d hd,
            )
            (0, refl)))))

-- The sizes fit their types.
pub record SizesFit (inputs : Inputs) : Type 0 where
  pub x_keys : length inputs.x_keys < 2 ^ 64
  pub x_features : length inputs.x_features < 2 ^ 64
  pub y_keys : length inputs.y_keys < 2 ^ 64
  pub y_features : length inputs.y_features < 2 ^ 64
  pub filter_bytes : hint_num inputs * 8 < 2 ^ 64

module _ (inputs : Inputs) (verse_laws : VerseLaws inputs.verse)
    (pads_laws : PadsLaws inputs.verse inputs.pads) (duet : Duet) (duet_laws : DuetLaws duet)
    (own_words : (k : ℕ) → IsWord (inputs.own k)) (fit : SizesFit inputs) where
  open inputs use {
    hashing, verse, pads, num_of_fun_hint, own, x_keys, x_features, y_keys, y_features,
  }

  abbrev x_process : Proc (List (List ℕ))
  x_process = process hashing verse pads duet (object inputs true) own x_keys x_features

  -- `own_y` is the receiver's generator, which it does not use.
  abbrev y_process : (ℕ → ℕ) → Proc (List (List ℕ))
  y_process own_y = process hashing verse pads duet (object inputs false) own_y y_keys y_features

  -- the values of `output_shares`
  abbrev out_x : List (List ℕ)
  out_x = output_x inputs verse_laws pads_laws duet duet_laws own_words

  abbrev out_y : List (List ℕ)
  out_y = output_y inputs verse_laws pads_laws duet duet_laws own_words

  -- Whether the content of bin i is what the receiver reads there under function j.
  abbrev matches : ℕ → ℕ → Bool
  matches = agrees inputs (key inputs verse_laws pads_laws duet duet_laws own_words)

  -- The shares of the sender's feature k before the multiplexers.
  abbrev pair : ℕ → Matrix × Matrix
  pair = feature_pair inputs verse_laws pads_laws duet duet_laws own_words

  pub process-Meets :
      (own_y : ℕ → ℕ)
      → length (key_table inputs).values ≡ bins inputs
      → (key_table inputs).stash_size ≡ 0
      → (hint_table inputs).stash_size ≡ 0
      → Meets x_process (y_process own_y) (done out_x) (done out_y)
  unfolding process hint_bins
  process-Meets own_y full no_stash no_stash' =
      Meets-bind _ _ _ _ (length y_keys, length y_features) (length x_keys, length x_features)
        (done out_x) (done out_y)
        (exchange_sizes-Meets (length x_keys) (length x_features) (length y_keys)
          (length y_features) fit.x_keys fit.x_features fit.y_keys fit.y_features)
        (Meets-flip _ _ (done out_y) (done out_x) (
          Meets-no_stash (key_table inputs).stash_size _ (done out_y) _ (done out_x) no_stash (
            Meets-flip _ _ (done out_x) (done out_y) (
              phases-Meets inputs verse_laws pads_laws duet duet_laws own_words full no_stash'
                fit.filter_bytes))))

  -- Let the cuckoo tables have no stash, the receiver's as many bins as were asked for, and the sizes fit
  -- their types. Then whatever calls the two parties have made so far, in any interleaving, they can
  -- go on to their ends, and the exclusive or of their shares of bin i is the exclusive or, over the hint
  -- functions j, of whether the 62 low bits of the sender's content of bin i are those that the receiver
  -- reads in the filter for its value of that bin under j.
  pub process_membership :
      (own_y : ℕ → ℕ) (n i : ℕ) (u : Sys (List (List ℕ)) (List (List ℕ)))
      → length (key_table inputs).values ≡ bins inputs
      → (key_table inputs).stash_size ≡ 0
      → (hint_table inputs).stash_size ≡ 0
      → i < bins inputs
      → Steps n (joined x_process (y_process own_y)) u
      → Reach u (joined (done out_x) (done out_y))
        × (bit_xor (share_at out_x 0 i) (share_at out_y 0 i)
            ≡ xor_loop (λ j. if matches i j then 1 else 0) num_of_fun_hint 0 0)
  process_membership own_y n i u full no_stash no_stash' hi steps = (
    Meets-every_schedule _ _ _ _ n u (process-Meets own_y full no_stash no_stash') tt tt steps,
    share_bits inputs verse_laws pads_laws duet duet_laws own_words i hi,
  )

  -- Under the same conditions, the ends that every interleaving can go on to hold these shares of
  -- feature k of the sender in bin i: their sum, in 64 bits, is the sum over the hint functions j for which
  -- the contents agree of what the sender hid for the bin and what the receiver reads under j.
  pub process_sender_feature :
      (own_y : ℕ → ℕ) (n k i : ℕ) (u : Sys (List (List ℕ)) (List (List ℕ)))
      → length (key_table inputs).values ≡ bins inputs
      → (key_table inputs).stash_size ≡ 0
      → (hint_table inputs).stash_size ≡ 0
      → i < bins inputs
      → k < length x_features
      → Steps n (joined x_process (y_process own_y)) u
      → Reach u (joined (done out_x) (done out_y))
        × ((share_at out_x (suc k) i + share_at out_y (suc k) i) % 2 ^ 64
            ≡ sum_loop
                (λ j. if matches i j then ((pair k).0 i j + (pair k).1 i j) % 2 ^ 64 else 0)
                num_of_fun_hint
                0
                0)
  process_sender_feature own_y n k i u full no_stash no_stash' hi hk steps = (
    Meets-every_schedule _ _ _ _ n u (process-Meets own_y full no_stash no_stash') tt tt steps,
    share_x_feature inputs verse_laws pads_laws duet duet_laws own_words k i hi hk,
  )

  -- Let the libraries keep their laws, the sizes fit, the tables have no stash, and the receiver's
  -- as many bins as were asked for. If bin i is taken, let it be by the item of key b of the
  -- receiver, and let no key before b have the item of b. Then every interleaving can go on to ends
  -- at which the sender's share of feature k of the receiver in bin i is 0, and the receiver's is
  -- the word of feature k of key b if the bin is taken, and else 0.
  pub process_receiver_feature :
      (own_y : ℕ → ℕ) (n k i b : ℕ) (u : Sys (List (List ℕ)) (List (List ℕ)))
      → length (key_table inputs).values ≡ bins inputs
      → (key_table inputs).stash_size ≡ 0
      → (hint_table inputs).stash_size ≡ 0
      → i < bins inputs
      → (get_or (key_table inputs).occupancy i false ≡ true
          → (b < length y_keys)
            × (get_or (key_table inputs).source_values i []
                ≡ get_or (map hashing.hash y_keys) b []))
      → ((c : ℕ)
          → c < b
          → get_or (map hashing.hash y_keys) c [] ≢ get_or (map hashing.hash y_keys) b [])
      → k < length y_features
      → Steps n (joined x_process (y_process own_y)) u
      → Reach u (joined (done out_x) (done out_y))
        × (share_at out_x (suc (length x_features + k)) i ≡ 0)
        × (share_at out_y (suc (length x_features + k)) i ≡ (
            if get_or (key_table inputs).occupancy i false
            then get_or (get_or y_features k []) b 0 % 2 ^ 64
            else 0))
  process_receiver_feature own_y n k i b u full no_stash no_stash' hi took first hk steps =
      let (x_share, y_share) =
        share_y_feature inputs verse_laws pads_laws duet duet_laws own_words k i hi hk in
      (
        Meets-every_schedule _ _ _ _ n u (process-Meets own_y full no_stash no_stash') tt tt steps,
        x_share,
        y_share ∙ content (Bool-cases (get_or (key_table inputs).occupancy i false)),
      )
    where
      content :
          (get_or (key_table inputs).occupancy i false ≡ true)
            ⊎ (get_or (key_table inputs).occupancy i false ≡ false)
          → own_feature inputs verse_laws pads_laws duet duet_laws own_words k i ≡ (
              if get_or (key_table inputs).occupancy i false
              then get_or (get_or y_features k []) b 0 % 2 ^ 64
              else 0)
      content (inl taken) =
          let (lb, source) = took taken in
          rw taken (
            ap (λ n. n % 2 ^ 64)
              (ap (λ v. get_or (at_key [] v (features_y inputs)) k 0) source
                ∙ own_feature_at y_features (map hashing.hash y_keys)
                    (get_or (map hashing.hash y_keys) b []) b k
                    (omega (arith, lb, length-map hashing.hash y_keys)) refl first hk))
      content (inr vacant) = rw vacant refl
