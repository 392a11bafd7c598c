-- ===== src/Circuit/Hints.antt =====
-- What the receiver of circuit PSI reads in the sender's filters.
use mathlib.Core.List.{Mem, flatten}
use Prim.Native.Nat.{bit_xor}
use petace_set_ops.Base.{
  ℕ, ◌+◌, ◌-◌, ◌*◌, ◌%◌, ◌^◌, ◌<◌, ◌≡◌, sym, ap, ◌∙◌, List, [], true, false, arith, Bytes, length,
  length-map, get_or, get_or-map,
}
use petace_set_ops.Std.Bits.{bit_xor_cancel}
use petace_set_ops.Circuit.Tables.{
  Hashing, tabulate, at_key, filter_loop, pads_of, mask_at, hint, feature_hint, open_hints,
}
use petace_set_ops.Circuit.{local_table}
use petace_set_ops.Circuit.Words.{pad_loop_last, get_or-tabulate, get_or-filter_loop}
use petace_set_ops.Kkrt.Slices.{get_or-encode_all}
use petace_set_ops.Circuit.Locate.{At, IndexFits, locate_bins-At}
use petace_set_ops.Circuit.Joint.{
  Inputs, bins, hint_num, simple_values, hint_table, key_table, blocks, table_loc, contents,
  addresses, features_x, x_masks, y_mask, opened, feature_opened,
}
use petace_set_ops.Circuit.Masks.{flatten-mem, encoded_mask}

-- What is relied on of the tables: one with no stash holds each item that was inserted, in the bin at
-- which one of its functions puts the item; `addresses` lists these bins for each item.
pub record HashingLaws (hashing : Hashing) : Type 0 where
  pub address : ℕ → Bytes → ℕ → Bytes → ℕ → ℕ
  pub placed :
      (n : ℕ) (seed : Bytes) (m : ℕ) (items : List Bytes) (v : Bytes)
      → (hashing.cuckoo_table n seed m items).stash_size ≡ 0
      → Mem v items
      → (j : ℕ) × (j < m)
        × (address n seed m v j < n)
        × (get_or (hashing.cuckoo_table n seed m items).occupancy (address n seed m v j) false
            ≡ true)
        × (get_or (hashing.cuckoo_table n seed m items).source_values (address n seed m v j) [] ≡ v)
        × (get_or (hashing.cuckoo_table n seed m items).function_ids (address n seed m v j) 0 ≡ j)
  pub addressed :
      (n : ℕ) (seed : Bytes) (m : ℕ) (items : List Bytes) (i j : ℕ)
      → i < length items
      → j < m
      → get_or (hashing.addresses n seed m items) (i * m + j) 0
        ≡ address n seed m (get_or items i []) j

module _ (inputs : Inputs) (laws : HashingLaws inputs.hashing) (key : inputs.verse.Key) where
  open inputs use {hashing, verse, pads, num_of_fun_hint, hint_seed, own}

  -- The bin of the sender's filter at which function j puts v.
  abbrev bin_of : Bytes → ℕ → ℕ
  bin_of v j = laws.address (hint_num inputs) hint_seed num_of_fun_hint v j

  -- The value v is in bin i of both parties, and in no other bin of the sender's.
  abbrev pub Shared : Bytes → ℕ → ℕ → Type 0
  Shared v i t =
      At (simple_values inputs) v i t
      × ((b t' : ℕ) → At (simple_values inputs) v b t' → b ≡ i)
      × (i < bins inputs)
      × (i < length (key_table inputs).values)
      × (get_or (key_table inputs).values i [] ≡ v)

  -- The sender's table has v under function j.
  abbrev pub Hinted : Bytes → ℕ → Type 0
  Hinted v j =
      (j < num_of_fun_hint)
      × (bin_of v j < hint_num inputs)
      × (get_or (hint_table inputs).occupancy (bin_of v j) false ≡ true)
      × (get_or (hint_table inputs).source_values (bin_of v j) [] ≡ v)
      × (get_or (hint_table inputs).function_ids (bin_of v j) 0 ≡ j)

  pub find_Hinted :
      (v : Bytes) (i t : ℕ)
      → (hint_table inputs).stash_size ≡ 0
      → At (simple_values inputs) v i t
      → (j : ℕ) × Hinted v j
  unfolding local_table
  find_Hinted v i t no_stash at_v =
      let (j, hj, in_n, taken, source, function) =
        laws.placed (hint_num inputs) hint_seed num_of_fun_hint (flatten (simple_values inputs)) v
          no_stash (flatten-mem (simple_values inputs) v i t at_v) in
      (j, (hj, in_n, taken, source, function))

  -- The receiver's mask of its value of bin i.
  pub y_mask_value :
      (i : ℕ)
      → i < length (key_table inputs).values
      → y_mask inputs key i
        ≡ verse.encode key i (verse.block_of_bytes (get_or (key_table inputs).values i []))
  y_mask_value i hv =
      let plain : 0 + i ≡ i = omega arith in
      get_or-encode_all verse key 0 (blocks inputs) i
        (omega (arith, length-map verse.block_of_bytes (key_table inputs).values))
      ∙ (λ k.
          verse.encode key (plain k)
            (get_or-map verse.block_of_bytes (key_table inputs).values i [] verse.zero_block hv k))

  y_mask_of :
      (v : Bytes) (i t : ℕ)
      → Shared v i t
      → y_mask inputs key i ≡ verse.encode key i (verse.block_of_bytes v)
  y_mask_of v i t (at_v, alone, hi, hv, e) =
      y_mask_value i hv ∙ ap (λ x. verse.encode key i (verse.block_of_bytes x)) e

  -- The map gives bin i, and there the receiver's mask.
  located :
      (v : Bytes) (i t : ℕ)
      → IndexFits (simple_values inputs)
      → Shared v i t
      → ((at_key (0, 0) v (table_loc inputs)).0 ≡ i)
        × (mask_at verse pads (x_masks inputs key) (at_key (0, 0) v (table_loc inputs))
            ≡ y_mask inputs key i)
  located v i t fits shared =
      let (at_v, alone, _, _, _) = shared in
      let (b, t', at_b, found) = locate_bins-At v (simple_values inputs) i t fits at_v in
      let same : b ≡ i = alone b t' at_b in
      let plain : 0 + b ≡ i = omega (arith, same) in
      (
        ap (λ p. p.0) found ∙ same,
        ap (mask_at verse pads (x_masks inputs key)) found
            ∙ encoded_mask verse pads key 0 (simple_values inputs) v b t' at_b
            ∙ ap (λ n. verse.encode key n (verse.block_of_bytes v)) plain
            ∙ sym (y_mask_of v i t shared),
      )

  -- Under function j the receiver reads the sender's value of the item's bin, without its pad.
  read :
      (v : Bytes) (i t j pos : ℕ) (value : ℕ → ℕ) (mask : ℕ → verse.Block)
      → Shared v i t
      → Hinted v j
      → get_or
          (get_or
            (open_hints verse pads
              (bins inputs)
              num_of_fun_hint
              (addresses inputs)
              (filter_loop own (hint_table inputs).occupancy value (hint_num inputs) 0 pos).0
              mask)
            i
            [])
          j
          0
        ≡ bit_xor (value (bin_of v j)) (pads_of verse pads (mask i) j)
  unfolding open_hints
  read v i t j pos value mask (at_v, alone, hi, hv, e) (hj, in_n, taken, source, function) =
      let words = (filter_loop own (hint_table inputs).occupancy value (hint_num inputs) 0 pos).0 in
      let entry : ℕ → ℕ → ℕ = λ i j.
        bit_xor (get_or words (get_or (addresses inputs) (i * num_of_fun_hint + j) 0) 0)
          (pads_of verse pads (mask i) j) in
      let plain_i : 0 + i ≡ i = omega arith in
      let plain_j : 0 + j ≡ j = omega arith in
      let plain_e : 0 + bin_of v j ≡ bin_of v j = omega arith in
      ap (λ r. get_or r j 0)
        (get_or-tabulate (bins inputs) 0 (λ i. tabulate num_of_fun_hint 0 (entry i)) i [] hi)
      ∙ get_or-tabulate num_of_fun_hint 0 (entry (0 + i)) j 0 hj
      ∙ (λ k. entry (plain_i k) (plain_j k))
      ∙ ap (λ n. bit_xor (get_or words n 0) (pads_of verse pads (mask i) j))
          (laws.addressed (hint_num inputs) hint_seed num_of_fun_hint (key_table inputs).values i j
              hv hj
            ∙ ap (λ x. bin_of x j) e)
      ∙ ap (λ n. bit_xor n (pads_of verse pads (mask i) j))
          (get_or-filter_loop own (hint_table inputs).occupancy value (hint_num inputs) 0 pos
              (bin_of v j) in_n
              (ap (λ n. get_or (hint_table inputs).occupancy n false) plain_e ∙ taken)
            ∙ ap value plain_e)

  -- It is the content of the bin,
  pub open_content :
      (v : Bytes) (i t j : ℕ)
      → IndexFits (simple_values inputs)
      → Shared v i t
      → Hinted v j
      → get_or (get_or (opened inputs key) i []) j 0 ≡ get_or (contents inputs) i 0
  unfolding hint
  open_content v i t j fits shared hinted =
      let (hj, in_n, taken, source, function) = hinted in
      let (bin_i, mask_i) = located v i t fits shared in
      let generate = pads_of verse pads in
      read v i t j (bins inputs) _ (y_mask inputs key) shared hinted
      ∙ ap (λ n. bit_xor n (generate (y_mask inputs key i) j))
          ((λ k.
              bit_xor (get_or (contents inputs) (at_key (0, 0) (source k) (table_loc inputs)).0 0) (
                pad_loop_last
                  (generate (
                    mask_at verse pads (x_masks inputs key)
                      (at_key (0, 0) (source k) (table_loc inputs))))
                  (function k) 0 0 k))
            ∙ (λ k. bit_xor (get_or (contents inputs) (bin_i k) 0) (generate (mask_i k) (0 + j)))
            ∙ ap (λ n. bit_xor (get_or (contents inputs) i 0) (generate (y_mask inputs key i) n))
                (plain j))
      ∙ bit_xor_cancel (get_or (contents inputs) i 0) (generate (y_mask inputs key i) j)
    where
      plain : (n : ℕ) → 0 + n ≡ n
      plain n = omega arith

  -- and in the filter of feature fid the item's feature less the content that the feature's filter has for
  -- the bin.
  pub open_feature :
      (v : Bytes) (i t j fid pos : ℕ) (feature_contents : List ℕ)
      → IndexFits (simple_values inputs)
      → Shared v i t
      → Hinted v j
      → get_or
          (get_or
            (feature_opened inputs key fid
              (filter_loop own
                (hint_table inputs).occupancy
                (feature_hint verse pads
                  (hint_table inputs)
                  (table_loc inputs)
                  (x_masks inputs key)
                  (features_x inputs)
                  fid
                  feature_contents)
                (hint_num inputs)
                0
                pos).0)
            i
            [])
          j
          0
        ≡ (get_or (at_key [] v (features_x inputs)) fid 0 + 2 ^ 64 - get_or feature_contents i 0)
          % 2 ^ 64
  unfolding feature_hint
  open_feature v i t j fid pos feature_contents fits shared hinted =
      let (hj, in_n, taken, source, function) = hinted in
      let (bin_i, mask_i) = located v i t fits shared in
      let generate : verse.Block → ℕ → ℕ = λ block. pads_of verse pads (pads.xor_fid block fid) in
      let held : Bytes → ℕ → ℕ = λ x b.
        (get_or (at_key [] x (features_x inputs)) fid 0 + 2 ^ 64 - get_or feature_contents b 0)
        % 2 ^ 64 in
      read v i t j pos _ (λ i. pads.xor_fid (y_mask inputs key i) fid) shared hinted
      ∙ ap (λ n. bit_xor n (generate (y_mask inputs key i) j))
          ((λ k. bit_xor (held (source k) (at_key (0, 0) (source k) (table_loc inputs)).0) (
              pad_loop_last
                (generate (
                  mask_at verse pads (x_masks inputs key)
                    (at_key (0, 0) (source k) (table_loc inputs))))
                (function k) 0 0 k))
            ∙ (λ k. bit_xor (held v (bin_i k)) (generate (mask_i k) (0 + j)))
            ∙ ap (λ n. bit_xor (held v i) (generate (y_mask inputs key i) n)) (plain j))
      ∙ bit_xor_cancel (held v i) (generate (y_mask inputs key i) j)
    where
      plain : (n : ℕ) → 0 + n ≡ n
      plain n = omega arith
