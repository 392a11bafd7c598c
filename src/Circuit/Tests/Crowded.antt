-- ===== src/Circuit/Tests/Crowded.antt =====
-- Circuit PSI where a table has a stash.
use mathlib.Core.List.{flatten}
use petace_set_ops.Base.{◌+◌, ◌%◌, ◌^◌, ◌≡◌, refl, [], ◌∷◌, true, false, arith, codes, length}
use petace_set_ops.Net.{fail, stash_not_empty}
use petace_set_ops.Net.Run.{Reach, joined}
use petace_set_ops.Kkrt.Tables.{eq_bytes}
use petace_set_ops.Kkrt.Tests.{adding, adding_laws}
use petace_set_ops.Circuit.{hint_bins, simple_of, local_table, receiver_table, process}
use petace_set_ops.Circuit.Joint.{Inputs, object, bins, key_table, hint_table}
use petace_set_ops.Circuit.Process.{SizesFit}
use petace_set_ops.Circuit.Stash.{process_key_stash, process_hint_stash}
use petace_set_ops.Circuit.Toy.{first_byte, counting}
use petace_set_ops.Circuit.ToyDuet.{shown}

-- Receiver's keys that both belong to bin 0, and sender's keys that both belong to bin 1 of its own table.
abbrev crowded : Inputs
crowded = record {
  hashing = first_byte;
  verse = adding;
  pads = counting;
  num_of_fun = 1;
  num_of_fun_hint = 2;
  table_seed = [];
  hint_seed = [];
  own = λ k. (k + 5) % 2 ^ 64;
  x_keys = codes "a" ∷ codes "b" ∷ [];
  x_features = [];
  y_keys = codes "b" ∷ codes "d" ∷ [];
  y_features = [];
}

abbrev crowded_hints : Inputs
crowded_hints = record {
  hashing = first_byte;
  verse = adding;
  pads = counting;
  num_of_fun = 1;
  num_of_fun_hint = 2;
  table_seed = [];
  hint_seed = [];
  own = λ k. (k + 5) % 2 ^ 64;
  x_keys = codes "a" ∷ codes "e" ∷ [];
  x_features = [];
  y_keys = codes "b" ∷ codes "c" ∷ [];
  y_features = [];
}

crowded_fit : SizesFit crowded
unfolding hint_bins
crowded_fit = record {
  x_keys = omega arith;
  x_features = omega arith;
  y_keys = omega arith;
  y_features = omega arith;
  filter_bytes = omega arith;
}

crowded_hints_fit : SizesFit crowded_hints
unfolding hint_bins
crowded_hints_fit = record {
  x_keys = omega arith;
  x_features = omega arith;
  y_keys = omega arith;
  y_features = omega arith;
  filter_bytes = omega arith;
}

crowded_stash : (key_table crowded).stash_size ≡ 1
unfolding receiver_table eq_bytes
crowded_stash = refl

crowded_hints_full : length (key_table crowded_hints).values ≡ bins crowded_hints
unfolding receiver_table
crowded_hints_full = refl

crowded_hints_no_stash : (key_table crowded_hints).stash_size ≡ 0
unfolding receiver_table eq_bytes
crowded_hints_no_stash = refl

crowded_hints_stash : (hint_table crowded_hints).stash_size ≡ 1
unfolding local_table simple_of flatten hint_bins eq_bytes
crowded_hints_stash = refl

process_key_stash_example :
    Reach
      (joined
        (process first_byte adding counting shown
          (object crowded true)
          crowded.own
          crowded.x_keys
          [])
        (process first_byte adding counting shown
          (object crowded false)
          crowded.own
          crowded.y_keys
          []))
      (joined (fail stash_not_empty) (fail stash_not_empty))
process_key_stash_example =
    process_key_stash crowded shown crowded_fit crowded.own 0 _
      (λ e. omega (arith, e, crowded_stash)) (omega (arith, crowded_stash)) refl

process_hint_stash_example :
    Reach
      (joined
        (process first_byte adding counting shown
          (object crowded_hints true)
          crowded_hints.own
          crowded_hints.x_keys
          [])
        (process first_byte adding counting shown
          (object crowded_hints false)
          crowded_hints.own
          crowded_hints.y_keys
          []))
      (joined (fail stash_not_empty) (fail stash_not_empty))
process_hint_stash_example =
    process_hint_stash crowded_hints shown crowded_hints_fit adding_laws crowded_hints.own 0 _
      crowded_hints_full crowded_hints_no_stash (λ e. omega (arith, e, crowded_hints_stash))
      (omega (arith, crowded_hints_stash)) refl
