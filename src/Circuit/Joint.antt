-- ===== src/Circuit/Joint.antt =====
-- The values that the two parties of circuit PSI compute, as functions of their inputs.
use petace_set_ops.Base.{
  ℕ, zero, suc, ◌+◌, List, [], ◌∷◌, map, Bool, true, false, Bytes, length, get_or, ◌==◌,
}
use petace_set_ops.Kkrt.Tables.{Verse, encode_all}
use petace_set_ops.Circuit.Tables.{
  HintTable, Hashing, Pads, Matrix, tabulate, locate_bins, sender_features, receiver_features,
  filter_loop, encode_rows, hint, feature_hint, open_hints,
}
use petace_set_ops.Circuit.{
  CircuitPsi, reduce_bits, hint_bins, simple_of, local_table, receiver_table,
}

-- The libraries, the parameters after `init`, the words of the sender's generator, the keys and the
-- features of the sender (x) and of the receiver (y).
pub record Inputs : Type 1 where
  pub hashing : Hashing
  pub verse : Verse
  pub pads : Pads verse
  pub num_of_fun : ℕ
  pub num_of_fun_hint : ℕ
  pub table_seed : Bytes
  pub hint_seed : Bytes
  pub own : ℕ → ℕ
  pub x_keys : List Bytes
  pub x_features : List (List ℕ)
  pub y_keys : List Bytes
  pub y_features : List (List ℕ)

module _ (inputs : Inputs) where
  open inputs use {hashing, verse, pads, num_of_fun, num_of_fun_hint, table_seed, hint_seed, own}
  open inputs use {x_keys, x_features, y_keys, y_features}

  -- The objects of the two parties.
  abbrev pub object : Bool → CircuitPsi
  object is_sender = record {
    is_sender = is_sender;
    num_of_fun = num_of_fun;
    num_of_fun_hint = num_of_fun_hint;
    table_seed = table_seed;
    hint_seed = hint_seed;
  }

  abbrev pub bins : ℕ
  bins = hashing.num_of_bins (length y_keys)

  abbrev pub hint_num : ℕ
  hint_num = hint_bins hashing (object true) (length x_keys) bins

  abbrev pub simple_values : List (List Bytes)
  simple_values = simple_of hashing (object true) bins x_keys

  abbrev pub hint_table : HintTable
  hint_table = local_table hashing (object true) hint_num bins x_keys

  abbrev pub key_table : HintTable
  key_table = receiver_table hashing (object false) bins y_keys

  -- what the receiver puts into the transfer
  abbrev pub blocks : List verse.Block
  blocks = map verse.block_of_bytes key_table.values

  abbrev pub table_loc : List (Bytes × (ℕ × ℕ))
  table_loc = locate_bins 0 simple_values []

  abbrev pub contents : List ℕ
  contents = tabulate bins 0 own

  abbrev pub addresses : List ℕ
  addresses = hashing.addresses hint_num hint_seed num_of_fun_hint key_table.values

  abbrev pub features_x : List (Bytes × List ℕ)
  features_x =
      sender_features num_of_fun (length x_features) 0 x_features (map hashing.hash x_keys) []

  abbrev pub features_y : List (Bytes × List ℕ)
  features_y = receiver_features (length y_features) 0 y_features (map hashing.hash y_keys) []

  -- With the sender's key of the transfer.
  module _ (key : verse.Key) where
    abbrev pub x_masks : List (List verse.Block)
    x_masks = encode_rows verse pads key 0 simple_values

    abbrev pub y_masks : List verse.Block
    y_masks = encode_all verse key 0 blocks

    abbrev pub y_mask : ℕ → verse.Block
    y_mask i = get_or y_masks i verse.zero_block

    -- The filter with the bins' contents, and the position after it in the generator's words.
    abbrev pub garbled : List ℕ × ℕ
    garbled =
        filter_loop own hint_table.occupancy (hint verse pads hint_table table_loc x_masks contents)
          hint_num 0 bins

    -- What the receiver reads in it, by bin and function.
    abbrev pub opened : List (List ℕ)
    opened = open_hints verse pads bins num_of_fun_hint addresses garbled.0 y_mask

    -- For each feature of the sender, from `fid` and a position on, the bins' contents and the filter.
    unfoldable pub feature_run : ℕ → ℕ → ℕ → List (List ℕ × List ℕ)
    feature_run zero fid pos = []
    feature_run (suc rounds) fid pos =
        let feature_contents = tabulate bins pos own in
        let filter' =
          filter_loop own hint_table.occupancy
            (feature_hint verse pads hint_table table_loc x_masks features_x fid feature_contents)
            hint_num 0 (pos + bins) in
        (feature_contents, filter'.0) ∷ feature_run rounds (fid + 1) filter'.1

    -- What the receiver reads in the filter of feature fid.
    abbrev pub feature_opened : ℕ → List ℕ → List (List ℕ)
    feature_opened fid filter' =
        open_hints verse pads bins num_of_fun_hint addresses filter'
          (λ i. pads.xor_fid (y_mask i) fid)

    -- The two shares of each feature, by bin and function.
    unfoldable pub feature_shares : ℕ → List (List ℕ × List ℕ) → List (Matrix × Matrix)
    feature_shares fid [] = []
    feature_shares fid ((feature_contents, filter') ∷ more) =
        (
          (λ i j. get_or feature_contents i 0),
          (λ i j. get_or (get_or (feature_opened fid filter') i []) j 0),
        )
        ∷ feature_shares (fid + 1) more

    abbrev pub shares : List (Matrix × Matrix)
    shares = feature_shares 0 (feature_run (length x_features) 0 garbled.1)

    -- The inputs of `equal`.
    abbrev pub x_matrix : Matrix
    x_matrix i j = reduce_bits (get_or contents i 0)

    abbrev pub y_matrix : Matrix
    y_matrix i j = reduce_bits (get_or (get_or opened i []) j 0)

    -- Whether the content of bin i is what the receiver reads there under function j.
    abbrev pub agrees : ℕ → ℕ → Bool
    agrees i j = x_matrix i j == y_matrix i j
