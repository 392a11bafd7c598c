-- ===== src/Kkrt/Tests.antt =====
-- A transfer whose key is added to each block, tables with one function, and the theorems of
-- KKRT-PSI at these inputs.
mod TwoFunctions
use petace_set_ops.Base.{
  ℕ, ◌==◌, ◌+◌, ◌^◌, ◌<◌, ◌≡◌, ◌↔◌, refl, sym, ap, subst, List, [], ◌∷◌, map, true, false, arith,
  Bytes, codes, length, get_or, replicate,
}
use petace_set_ops.Net.{done, fail, send, recv, stash_not_empty}
use petace_set_ops.Net.Run.{Reach, IsFinal, joined}
use petace_set_ops.Net.Meet.{Meets-send_left}
use petace_set_ops.Util.Permutation.{permute_and_undo, generate_permutation}
use petace_set_ops.Util.Serialize.{serialize_string_to_char}
use petace_set_ops.Psi.{collect_loop}
use petace_set_ops.Kkrt.Tables.{
  CuckooTable, Solo, Verse, encode_all, push_mask, encode_bin, encode_bins, shuffle_rows,
  reduce_row, reduce_rows, find_mask, bin_matches, match_loop, reduce,
}
use mathlib.Core.Bool.{Bool, xor}
use petace_set_ops.Net.Wire.{size_t, bool}
use petace_set_ops.Util.ParameterCheck.{int_tests}
use petace_set_ops.Kkrt.Mismatch.{process_waits}
use petace_set_ops.Kkrt.Init.{
  Setup, SetupLaws, init, sender_params, receiver_params, seed_of, init_same_seed,
}
use petace_set_ops.Kkrt.Matching.{Found, match_loop-Found}
use petace_set_ops.Kkrt.{
  process, process_cardinality_only, sender_data, collect_output, receive_result,
}
use petace_set_ops.Kkrt.Phases.{VerseLaws, sender, receiver, matched}
use petace_set_ops.Kkrt.Process.{
  found_keys, process_same_result, cardinality_same_result, process_stash,
}

abbrev pub adding : Verse
adding = record {
  Block = ℕ;
  zero_block = 0;
  block_of_bytes = λ bs. get_or bs 0 0;
  bytes_of_block = λ b. b ∷ replicate 15 0;
  Key = ℕ;
  ot_send = λ n. send (7 ∷ []) (done 7);
  ot_receive = λ blocks. recv 1 (λ bs. done (map (λ b. b + get_or bs 0 0) blocks));
  encode = λ key i b. b + key;
}

pub encode_all-map :
    (i : ℕ) (blocks : List ℕ) → map (λ b. b + 7) blocks ≡ encode_all adding 7 i blocks
encode_all-map i [] = refl
encode_all-map i (b ∷ blocks) = ap (◌∷◌ (b + 7)) (encode_all-map (i + 1) blocks)

unfoldable pub adding_laws : VerseLaws adding
adding_laws = record {
  length_block = λ b. refl;
  key_of = λ blocks. 7;
  ot_Meets = λ blocks.
      Meets-send_left _ _ _ _ _ _ refl (0, λ i. joined (done 7) (done (encode_all-map 0 blocks i)));
}

abbrev one_function : ℕ → Solo
one_function stash = record {
  hash = λ key. key;
  num_of_bins = λ n. n;
  simple_table = λ bins seed f items. map (λ v. (v, 0)) items ∷ [];
  cuckoo_table = λ bins seed f items. record {
    stash_size = stash;
    values = items;
    ids = 0 ∷ 1 ∷ [];
    function_ids = 0 ∷ 0 ∷ [];
  };
}

abbrev keys_s : List Bytes
keys_s = codes "a" ∷ codes "b" ∷ []

abbrev keys_r : List Bytes
keys_r = codes "c" ∷ codes "b" ∷ []

process_stash_example :
    Reach
      (joined
        (process (one_function 2) adding (sender true 1 []) (λ i l. l) keys_s [])
        (process (one_function 2) adding (receiver true 1 []) (λ i l. l) keys_r []))
      (joined (fail stash_not_empty) (fail stash_not_empty))
process_stash_example =
    process_stash (one_function 2) adding true 1 [] (λ i l. l) keys_s keys_r [] [] 0 _ (omega arith)
      (omega arith) (omega arith) (omega arith) refl

abbrev two_bins : CuckooTable
two_bins = (one_function 0).cuckoo_table 2 [] 1 keys_r

match_loop-Found_example :
    (get_or
        (match_loop adding two_bins 1 2
          (106 ∷ 105 ∷ [])
          (reduce adding 104 ∷ reduce adding 105 ∷ [])
          2
          0
          (replicate 2 false)
          0).0
        1
        false
      ≡ true)
    ↔ Found adding two_bins 1 2 (106 ∷ 105 ∷ []) (reduce adding 104 ∷ reduce adding 105 ∷ []) 2 1
match_loop-Found_example =
    match_loop-Found adding two_bins 1 2 (106 ∷ 105 ∷ [])
      (reduce adding 104 ∷ reduce adding 105 ∷ []) 2 1 (omega arith)

process_waits_example :
    (let stuck = joined (receive_result (one_function 0) adding (sender true 1 []) []) (
        done (
          found_keys
            (one_function 0)
            adding
            adding_laws
            false
            1
            []
            (λ i l. l)
            keys_s
            keys_r
            (omega arith)
            (omega arith))) in
      Reach
        (joined
          (process (one_function 0) adding (sender true 1 []) (λ i l. l) keys_s [])
          (process (one_function 0) adding (receiver false 1 []) (λ i l. l) keys_r []))
        stuck
      × IsFinal stuck)
process_waits_example =
    process_waits (one_function 0) adding adding_laws 1 [] (λ i l. l) keys_s keys_r [] (omega arith)
      (omega arith) 0 _ refl refl (omega arith) refl

abbrev pub flags : Setup
flags = record {
  Double = ℕ;
  double_tests = int_tests;
  double_wire = size_t;
  Block = Bool;
  block_wire = bool;
  xor_block = xor;
  generate = λ bs. bs;
  base_ot = λ is_sender. done tt;
}

xor_flags : (a b : Bool) → xor a b ≡ xor b a
unfolding xor
xor_flags true true = refl
xor_flags true false = refl
xor_flags false true = refl
xor_flags false false = refl

pub flags_laws : SetupLaws flags
flags_laws = record { xor_comm = xor_flags; block_fits = λ b. tt; base_ot_Meets = (0, refl) }

init_same_seed_example :
    Reach
      (joined
        (init flags true (sender_params flags flags_laws true false 127 3 true true))
        (init flags false (receiver_params flags flags_laws true false 127 3 true true)))
      (joined
        (done (sender true 3 (seed_of flags flags_laws true false 127 3 true true)))
        (done (receiver true 3 (seed_of flags flags_laws true false 127 3 true true))))
init_same_seed_example =
    init_same_seed flags flags_laws true false 127 3 true true 0 _ refl (omega arith) (omega arith)
      refl
