-- ===== src/Circuit/Reuse.antt =====
-- The pads of the sender's filter of contents and of its filter of feature 0.
use Prim.Native.Nat.{bit_xor}
use petace_set_ops.Base.{
  ℕ, suc, ◌+◌, ◌-◌, ◌%◌, ◌^◌, ◌<◌, ◌≡◌, ap, ◌∙◌, true, false, arith, List, [], Bytes, get_or,
}
use petace_set_ops.Std.Bits.{bit_xor_pad}
use petace_set_ops.Kkrt.Tables.{Verse}
use petace_set_ops.Circuit.Words.{get_or-filter_loop}
use petace_set_ops.Circuit.Tables.{
  HintTable, Pads, at_key, filter_loop, pad_loop, pads_of, mask_at, hint, feature_hint,
}

-- The values that the two filters hold for an element have the same pad.
same_pad_at :
    (verse : Verse) (pads : Pads verse) (table : HintTable) (table_loc : List (Bytes × (ℕ × ℕ)))
    (masks : List (List verse.Block)) (features : List (Bytes × List ℕ))
    (contents feature_contents : List ℕ) (i : ℕ)
    → ((block : verse.Block) → pads.xor_fid block 0 ≡ block)
    → (let element = get_or table.source_values i [] in
        let bin = (at_key (0, 0) element table_loc).0 in
        bit_xor
          (hint verse pads table table_loc masks contents i)
          (feature_hint verse pads table table_loc masks features 0 feature_contents i)
        ≡ bit_xor (get_or contents bin 0) (
            (get_or (at_key [] element features) 0 0 + 2 ^ 64 - get_or feature_contents bin 0)
            % 2 ^ 64))
unfolding hint feature_hint
same_pad_at verse pads table table_loc masks features contents feature_contents i unchanged =
    let element = get_or table.source_values i [] in
    let location = at_key (0, 0) element table_loc in
    let hidden =
      (get_or (at_key [] element features) 0 0 + 2 ^ 64 - get_or feature_contents location.0 0)
      % 2 ^ 64 in
    let pad : verse.Block → ℕ =
      λ block. pad_loop (pads_of verse pads block) (suc (get_or table.function_ids i 0)) 0 0 in
    (λ k.
      bit_xor (bit_xor (get_or contents location.0 0) (pad (mask_at verse pads masks location)))
        (bit_xor hidden (pad (unchanged (mask_at verse pads masks location) k))))
    ∙ bit_xor_pad _ _ _

-- If a block is unchanged by the exclusive or with 0, then in each bin of the sender's table that is taken
-- the words of the filter of contents and of the filter of feature 0 have the same pad: their exclusive
-- or is that of the content and of feature 0 less its own content, at the place of the bin's element.
-- The bins that are not taken hold random words.
pub same_pad :
    (verse : Verse) (pads : Pads verse) (own : ℕ → ℕ) (table : HintTable)
    (table_loc : List (Bytes × (ℕ × ℕ))) (masks : List (List verse.Block))
    (features : List (Bytes × List ℕ)) (contents feature_contents : List ℕ)
    (hint_num pos pos' i : ℕ)
    → ((block : verse.Block) → pads.xor_fid block 0 ≡ block)
    → i < hint_num
    → get_or table.occupancy i false ≡ true
    → (let element = get_or table.source_values i [] in
        let bin = (at_key (0, 0) element table_loc).0 in
        let words =
          (filter_loop own table.occupancy
            (hint verse pads table table_loc masks contents)
            hint_num
            0
            pos).0 in
        let feature_words =
          (filter_loop own table.occupancy
            (feature_hint verse pads table table_loc masks features 0 feature_contents)
            hint_num
            0
            pos').0 in
        bit_xor (get_or words i 0) (get_or feature_words i 0)
        ≡ bit_xor (get_or contents bin 0) (
            (get_or (at_key [] element features) 0 0 + 2 ^ 64 - get_or feature_contents bin 0)
            % 2 ^ 64))
same_pad verse pads own table table_loc masks features contents feature_contents hint_num pos pos' i
      unchanged lt taken =
    let plain : 0 + i ≡ i = omega arith in
    let value = hint verse pads table table_loc masks contents in
    let feature_value = feature_hint verse pads table table_loc masks features 0 feature_contents in
    let taken' : get_or table.occupancy (0 + i) false ≡ true =
      ap (λ n. get_or table.occupancy n false) plain ∙ taken in
    (λ k.
      bit_xor
        ((get_or-filter_loop own table.occupancy value hint_num 0 pos i lt taken' ∙ ap value plain)
          k)
        ((get_or-filter_loop own table.occupancy feature_value hint_num 0 pos' i lt taken'
            ∙ ap feature_value plain)
          k))
    ∙ same_pad_at verse pads table table_loc masks features contents feature_contents i unchanged
