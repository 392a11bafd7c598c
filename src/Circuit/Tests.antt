-- ===== src/Circuit/Tests.antt =====
-- The theorems of circuit PSI at small inputs: the sender has the keys "a" and "b" and the receiver "b"
-- and "c", each with one feature.
mod Crowded
mod Apart
use mathlib.Core.List.{flatten}
use Prim.Native.Nat.{bit_xor}
use petace_set_ops.Base.{
  ℕ, zero, suc, ◌+◌, ◌%◌, ◌^◌, ◌≤◌, ◌<◌, ◌≡◌, ◌≢◌, refl, List, [], ◌∷◌, Bool, true, false, arith,
  Bytes, codes, get_or, length, All, ap,
}
use petace_set_ops.Net.{Proc, done, send, recv}
use petace_set_ops.Net.Meet.{Meets, Meets-cross}
use petace_set_ops.Net.Run.{Reach, joined}
use petace_set_ops.Kkrt.Tables.{eq_bytes}
use petace_set_ops.Kkrt.Tests.{adding, adding_laws, flags, flags_laws}
use petace_set_ops.Circuit.Tables.{
  tabulate, at_key, assign, as_index, locate_bin, locate_bins, xor_first, pad_loop, filter_loop,
  encode_rows, hint, feature_hint, open_hints,
}
use petace_set_ops.Circuit.{CircuitPsi, hint_bins, simple_of, local_table, receiver_table, process}
use petace_set_ops.Circuit.Words.{IsWord}
use petace_set_ops.Circuit.Locate.{At, IndexFits}
use petace_set_ops.Circuit.Hints.{Shared}
use petace_set_ops.Circuit.Joint.{
  Inputs, object, bins, key_table, hint_table, simple_values, table_loc, agrees,
}
use petace_set_ops.Circuit.Phases.{output_x, output_y}
use petace_set_ops.Circuit.Outputs.{share_at}
use petace_set_ops.Circuit.Process.{SizesFit, process_receiver_feature}
use petace_set_ops.Circuit.Found.{process_found}
use petace_set_ops.Circuit.Shape.{IsRow, process_shape}
use petace_set_ops.Circuit.Reuse.{same_pad}
use petace_set_ops.Circuit.Init.{CircuitParams, init, params_of, object_of, init_same_seeds}
use petace_set_ops.Circuit.Toy.{first_byte, first_byte_laws, counting, counting_laws}
use petace_set_ops.Circuit.ToyDuet.{shown, shown_laws}

abbrev pub toy : Inputs
toy = record {
  hashing = first_byte;
  verse = adding;
  pads = counting;
  num_of_fun = 1;
  num_of_fun_hint = 2;
  table_seed = [];
  hint_seed = [];
  own = λ k. (k + 5) % 2 ^ 64;
  x_keys = codes "a" ∷ codes "b" ∷ [];
  x_features = (11 ∷ 22 ∷ []) ∷ [];
  y_keys = codes "b" ∷ codes "c" ∷ [];
  y_features = (33 ∷ 44 ∷ []) ∷ [];
}

pub toy_words : (k : ℕ) → IsWord (toy.own k)
toy_words k = omega arith

pub toy_fit : SizesFit toy
unfolding hint_bins
toy_fit = record {
  x_keys = omega arith;
  x_features = omega arith;
  y_keys = omega arith;
  y_features = omega arith;
  filter_bytes = omega arith;
}

-- What the receiver reads in bin 0, where it has "b".
matches_00 : agrees toy 7 0 0 ≡ true
unfolding at_key assign as_index locate_bin locate_bins pad_loop filter_loop encode_rows hint
    open_hints hint_bins simple_of local_table receiver_table eq_bytes flatten
matches_00 = refl

matches_01 : agrees toy 7 0 1 ≡ false
unfolding at_key assign as_index locate_bin locate_bins pad_loop filter_loop encode_rows hint
    open_hints hint_bins simple_of local_table receiver_table eq_bytes flatten
matches_01 = refl

pub toy_full : length (key_table toy).values ≡ bins toy
unfolding receiver_table
toy_full = refl

pub toy_no_stash : (key_table toy).stash_size ≡ 0
unfolding receiver_table eq_bytes
toy_no_stash = refl

pub toy_no_hint_stash : (hint_table toy).stash_size ≡ 0
unfolding local_table simple_of flatten hint_bins eq_bytes
toy_no_hint_stash = refl

pub toy-IndexFits : IndexFits (simple_values toy)
unfolding simple_of
toy-IndexFits = (omega arith, short)
  where
    short : (b : ℕ) → length (get_or (simple_values toy) b []) ≤ 2 ^ 31
    short zero = omega arith
    short (suc zero) = omega arith
    short (suc (suc b)) = omega arith

alone : (b t : ℕ) → At (simple_values toy) (codes "b") b t → b ≡ 0
unfolding simple_of
alone zero t h = refl
alone (suc zero) zero (_, _, e) = absurd (omega (arith, ap (λ bs. get_or bs 0 0) e))
alone (suc zero) (suc t) (_, lt, _) = absurd (omega (arith, lt))
alone (suc (suc b)) t (lt, _, _) = absurd (omega (arith, lt))

toy-Shared : Shared toy first_byte_laws 7 (codes "b") 0 0
unfolding simple_of receiver_table
toy-Shared = ((omega arith, omega arith, refl), alone, omega arith, omega arith, refl)

single : (j j' : ℕ) → j < 2 → j' < 2 → agrees toy 7 0 j ≡ true → agrees toy 7 0 j' ≡ true → j ≡ j'
single zero zero h h' m m' = refl
single zero (suc zero) h h' m m' = cc (m', matches_01)
single (suc zero) zero h h' m m' = cc (m, matches_01)
single (suc zero) (suc zero) h h' m m' = refl
single (suc (suc j)) j' h h' m m' = absurd (omega arith)
single j (suc (suc j')) h h' m m' = absurd (omega arith)

first : (b g : ℕ) → b < 1 → g < 1 → xor_first g (get_or toy.x_keys b []) ≢ codes "b"
unfolding xor_first
first zero zero h k e = absurd (omega (arith, ap (λ bs. get_or bs 0 0) e))
first (suc b) g h k e = absurd (omega arith)
first b (suc g) h k e = absurd (omega arith)

abbrev pub x_run : Proc (List (List ℕ))
x_run = process first_byte adding counting shown (object toy true) toy.own toy.x_keys toy.x_features

abbrev pub y_run : Proc (List (List ℕ))
y_run =
    process first_byte adding counting shown (object toy false) toy.own toy.y_keys toy.y_features

abbrev pub x_out : List (List ℕ)
x_out = output_x toy adding_laws counting_laws shown shown_laws toy_words

abbrev pub y_out : List (List ℕ)
y_out = output_y toy adding_laws counting_laws shown shown_laws toy_words

process_found_example :
    Reach (joined x_run y_run) (joined (done x_out) (done y_out))
    × (bit_xor (share_at x_out 0 0) (share_at y_out 0 0) ≡ 1)
    × (tabulate 1 0 (λ k. (share_at x_out (suc k) 0 + share_at y_out (suc k) 0) % 2 ^ 64) ≡ 22 ∷ [])
unfolding adding_laws xor_first
process_found_example =
    process_found toy adding_laws counting_laws shown shown_laws toy_words toy_fit first_byte_laws
      toy-IndexFits toy.own 0 0 0 1 0 (codes "b") _ toy_full toy_no_stash toy_no_hint_stash
      toy-Shared single (omega arith) (omega arith) refl first refl

process_shape_example :
    Reach (joined x_run y_run) (joined (done x_out) (done y_out))
    × (length x_out ≡ 3)
    × (length y_out ≡ 3)
    × All (IsRow 2) x_out
    × All (IsRow 2) y_out
process_shape_example =
    process_shape toy adding_laws counting_laws shown shown_laws toy_words toy_fit toy.own 0 _
      toy_full toy_no_stash toy_no_hint_stash refl

took_bin :
    get_or (key_table toy).occupancy 1 false ≡ true
    → (1 < 2) × (get_or (key_table toy).source_values 1 [] ≡ codes "c")
unfolding receiver_table
took_bin h = (omega arith, refl)

first_item : (c : ℕ) → c < 1 → get_or toy.y_keys c [] ≢ codes "c"
first_item zero h e = absurd (omega (arith, ap (λ bs. get_or bs 0 0) e))
first_item (suc c) h e = absurd (omega arith)

process_receiver_feature_example :
    Reach (joined x_run y_run) (joined (done x_out) (done y_out))
    × (share_at x_out 2 1 ≡ 0)
    × (share_at y_out 2 1 ≡ 44)
unfolding receiver_table
process_receiver_feature_example =
    process_receiver_feature toy adding_laws counting_laws shown shown_laws toy_words toy_fit
      toy.own 0 0 1 1 _ toy_full toy_no_stash toy_no_hint_stash (omega arith) took_bin first_item
      (omega arith) refl

plain_fid : (block : ℕ) → block + 0 ≡ block
plain_fid block = omega arith

abbrev two_features : List (Bytes × List ℕ)
two_features = (codes "a", 11 ∷ []) ∷ (codes "b", 22 ∷ []) ∷ []

abbrev toy_masks : List (List ℕ)
toy_masks = encode_rows adding counting 7 0 (simple_values toy)

abbrev toy_filter : (ℕ → ℕ) → ℕ → List ℕ
toy_filter value pos = (filter_loop toy.own (hint_table toy).occupancy value 3 0 pos).0

same_pad_example :
    bit_xor
      (get_or
        (toy_filter
          (hint adding counting (hint_table toy) (table_loc toy) toy_masks (5 ∷ 6 ∷ []))
          0)
        2
        0)
      (get_or
        (toy_filter
          (feature_hint adding counting
            (hint_table toy)
            (table_loc toy)
            toy_masks
            two_features
            0
            (8 ∷ 9 ∷ []))
          9)
        2
        0)
    ≡ bit_xor 5 14
unfolding at_key assign as_index locate_bin locate_bins pad_loop filter_loop encode_rows hint
    open_hints hint_bins simple_of local_table receiver_table eq_bytes flatten
same_pad_example =
    same_pad adding counting toy.own (hint_table toy) (table_loc toy) toy_masks two_features
      (5 ∷ 6 ∷ []) (8 ∷ 9 ∷ []) 3 0 9 2 plain_fid (omega arith) refl

-- A constructor of which each side sends a byte to the other.
abbrev greeting : Bool → Proc (Unit {0})
greeting true = send (1 ∷ []) (recv 1 (λ bytes. done tt))
greeting false = send (2 ∷ []) (recv 1 (λ bytes. done tt))

greeting-Meets : Meets (greeting true) (greeting false) (done tt) (done tt)
greeting-Meets =
    Meets-cross (1 ∷ []) (2 ∷ []) _ _ (λ bytes. done tt) (λ bytes. done tt) _ _ refl refl (0, refl)

abbrev made : Bool → CircuitPsi
made = object_of flags flags_laws (λ seed. seed) greeting greeting-Meets true false 127 130 3 2

abbrev params : Bool → CircuitParams flags
params = params_of flags flags_laws (λ seed. seed) greeting greeting-Meets true false 127 130 3 2

init_same_seeds_example :
    Reach
      (joined
        (init flags (λ seed. seed) greeting true (params true))
        (init flags (λ seed. seed) greeting false (params false)))
      (joined (done (made true)) (done (made false)))
init_same_seeds_example =
    init_same_seeds flags flags_laws (λ seed. seed) greeting greeting-Meets true false 127 130 3 2 0
      _ refl refl (omega arith) (omega arith) (omega arith) (omega arith) refl
