-- ===== src/Circuit/Absent.antt =====
-- The shares of circuit PSI for a bin whose value the sender does not have.
use Prim.Native.Nat.{bit_xor}
use petace_set_ops.Base.{
  ℕ, suc, ◌+◌, ◌%◌, ◌^◌, ◌<◌, ◌≡◌, ◌∙◌, List, map, true, false, arith, length,
}
use petace_set_ops.Net.{done}
use petace_set_ops.Net.Run.{Sys, Steps, Reach, joined}
use petace_set_ops.Kkrt.Phases.{VerseLaws}
use petace_set_ops.Circuit.Tables.{Duet, tabulate}
use petace_set_ops.Circuit.{process}
use petace_set_ops.Circuit.Words.{IsWord, PadsLaws}
use petace_set_ops.Circuit.Shares.{DuetLaws}
use petace_set_ops.Circuit.Loops.{xor_loop_none, sum_loop_none}
use petace_set_ops.Circuit.Locate.{IndexFits}
use petace_set_ops.Circuit.Joint.{
  Inputs, object, bins, hint_num, simple_values, hint_table, key_table, agrees,
}
use petace_set_ops.Circuit.Hints.{HashingLaws}
use petace_set_ops.Circuit.Phases.{key, output_x, output_y}
use petace_set_ops.Circuit.Outputs.{share_at, share_x_feature}
use petace_set_ops.Circuit.Process.{SizesFit, process_membership}
use petace_set_ops.Circuit.Found.{tabulate-map}
use petace_set_ops.Circuit.Reading.{TakenLaws, NoAccident, agrees-false}

module _ (inputs : Inputs) (verse_laws : VerseLaws inputs.verse)
    (pads_laws : PadsLaws inputs.verse inputs.pads) (duet : Duet) (duet_laws : DuetLaws duet)
    (own_words : (k : ℕ) → IsWord (inputs.own k)) (fit : SizesFit inputs)
    (hashing_laws : HashingLaws inputs.hashing) (taken_laws : TakenLaws inputs.hashing hashing_laws)
    (index_fits : IndexFits (simple_values inputs)) where
  open inputs use {hashing, verse, pads, own, x_keys, x_features, y_keys, y_features}

  abbrev own_key : verse.Key
  own_key = key inputs verse_laws pads_laws duet duet_laws own_words

  abbrev out_x : List (List ℕ)
  out_x = output_x inputs verse_laws pads_laws duet duet_laws own_words

  abbrev out_y : List (List ℕ)
  out_y = output_y inputs verse_laws pads_laws duet duet_laws own_words

  -- Let the libraries keep their laws, the sizes and the positions in the simple table fit, the
  -- tables have no stash, the receiver's as many bins as were asked for, and the sender's filter a
  -- bin. Let no content that the sender hides for an entry and no fresh word of its filter, under
  -- the pads of the receiver's value of bin i, have by accident the 62 low bits of the content of
  -- bin i; an entry that is the receiver's value in that bin would have them. Then every
  -- interleaving can go on to ends at which the membership shares of bin i are equal, and the
  -- shares of each feature of the sender add up to 0 in 64 bits.
  pub process_absent :
      (own_y : ℕ → ℕ) (n i : ℕ) (u : Sys (List (List ℕ)) (List (List ℕ)))
      → length (key_table inputs).values ≡ bins inputs
      → (key_table inputs).stash_size ≡ 0
      → (hint_table inputs).stash_size ≡ 0
      → 0 < hint_num inputs
      → i < bins inputs
      → NoAccident inputs own_key i
      → Steps n
          (joined
            (process hashing verse pads duet (object inputs true) own x_keys x_features)
            (process hashing verse pads duet (object inputs false) own_y y_keys y_features))
          u
      → Reach u (joined (done out_x) (done out_y))
        × (bit_xor (share_at out_x 0 i) (share_at out_y 0 i) ≡ 0)
        × (tabulate
              (length x_features)
              0
              (λ k. (share_at out_x (suc k) i + share_at out_y (suc k) i) % 2 ^ 64)
            ≡ map (λ feature. 0) x_features)
  process_absent own_y n i u full no_stash no_stash' some_bin hi apart steps =
      let (reach, bits) =
        process_membership inputs verse_laws pads_laws duet duet_laws own_words fit own_y n i u full
          no_stash no_stash' hi steps in
      let never : (j : ℕ) → j < inputs.num_of_fun_hint → agrees inputs own_key i j ≡ false = λ j.
        agrees-false inputs own_key hashing_laws taken_laws index_fits no_stash' some_bin i j hi
          (omega (arith, hi, full)) apart in
      (
        reach,
        bits ∙ xor_loop_none (agrees inputs own_key i) inputs.num_of_fun_hint never,
        tabulate-map _ (λ feature. 0) 0 x_features
            (λ k hk.
              let plain : 0 + k ≡ k = omega arith in
              (λ s. (share_at out_x (suc (plain s)) i + share_at out_y (suc (plain s)) i) % 2 ^ 64)
              ∙ share_x_feature inputs verse_laws pads_laws duet duet_laws own_words k i hi hk
              ∙ sum_loop_none (agrees inputs own_key i) _ inputs.num_of_fun_hint never),
      )
