-- ===== src/Kkrt/Tables.antt =====
-- What KKRT-PSI (src/setops/psi/kkrt_psi.cpp) takes from the libraries PETAce-Solo and PETAce-Verse,
-- and its loops over the hash tables and the masks.
use petace_set_ops.Base.{
  ℕ, zero, suc, ◌+◌, ◌*◌, List, [], ◌∷◌, ◌++◌, Bool, true, false, ◌&&◌, ◌||◌, Bytes, ◌==◌, ltb,
  if◌then◌else◌, get_or, set, take, drop,
}
use petace_set_ops.Net.{Proc}
use petace_set_ops.Util.Permutation.{generate_permutation, permute_and_undo}
use petace_set_ops.Psi.{k_reduce_statistics_len}

-- A filled `solo::CuckooHashing`: the size of the stash, and of each bin the value, the position of
-- its item in the input, and the number of the hash function that put it there.
pub record CuckooTable : Type 0 where
  pub stash_size : ℕ
  pub values : List Bytes
  pub ids : List ℕ
  pub function_ids : List ℕ

-- `simple_table` returns of each bin its entries, each a value and the number of the function.
-- Tables are made from the number of bins, the seed, the number of functions and the items.
pub record Solo : Type 0 where
  pub hash : Bytes → Bytes
  pub num_of_bins : ℕ → ℕ
  pub simple_table : ℕ → Bytes → ℕ → List Bytes → List (List (Bytes × ℕ))
  pub cuckoo_table : ℕ → Bytes → ℕ → List Bytes → CuckooTable

-- Blocks of 128 bits, and the oblivious transfer: the sender learns a key by which it encodes any
-- block at any bin, the receiver the masks of its own block at each bin.
pub record Verse : Type 1 where
  pub Block : Type 0
  pub zero_block : Block
  pub block_of_bytes : Bytes → Block
  pub bytes_of_block : Block → Bytes
  pub Key : Type 0
  pub ot_send : ℕ → Proc Key
  pub ot_receive : List Block → Proc (List Block)
  pub encode : Key → ℕ → Block → Block

unfoldable pub eq_bytes : Bytes → Bytes → Bool
eq_bytes [] [] = true
eq_bytes [] (b ∷ right) = false
eq_bytes (a ∷ left) [] = false
eq_bytes (a ∷ left) (b ∷ right) = a == b && eq_bytes left right

-- `std::find(…) != end`
unfoldable pub find_mask : List Bytes → Bytes → Bool
unfolding eq_bytes
find_mask [] mask = false
find_mask (m ∷ masks) mask = eq_bytes m mask || find_mask masks mask

module _ (verse : Verse) where
  open verse use {Block, zero_block, block_of_bytes, bytes_of_block, Key, encode}

  -- the receiver's masks, from bin i on
  abbrev pub encode_all : Key → ℕ → List Block → List Block
  encode_all key i [] = []
  encode_all key i (b ∷ blocks) = encode key i b ∷ encode_all key (i + 1) blocks

  -- `sender_enc_data[function_id].push_back(mask)`
  unfoldable pub push_mask : List (List Block) → ℕ → Block → List (List Block)
  push_mask rows id mask = set rows id (get_or rows id [] ++ mask ∷ [])

  -- the entries of bin i
  unfoldable pub encode_bin : Key → ℕ → List (Bytes × ℕ) → List (List Block) → List (List Block)
  encode_bin key i [] rows = rows
  encode_bin key i ((value, id) ∷ entries) rows =
      encode_bin key i entries (push_mask rows id (encode key i (block_of_bytes value)))

  unfoldable pub encode_bins :
      Key → ℕ → List (List (Bytes × ℕ)) → List (List Block) → List (List Block)
  encode_bins key i [] rows = rows
  encode_bins key i (entries ∷ bins) rows =
      encode_bins key (i + 1) bins (encode_bin key i entries rows)

  -- Each row is shuffled by a permutation of its own; the vector `permutation` is used again.
  unfoldable pub shuffle_rows :
      (ℕ → List ℕ → List ℕ) → ℕ → ℕ → ℕ → List ℕ → List (List Block) → List (List Block)
  shuffle_rows shuffles zero i n permutation rows = []
  shuffle_rows shuffles (suc rounds) i n permutation rows =
      let permutation' = generate_permutation (shuffles i) n permutation in
      permute_and_undo zero_block permutation' true (get_or rows i [])
      ∷ shuffle_rows shuffles rounds (i + 1) n permutation' rows

  -- the first `kReduceStatisticsLen` bytes of a block
  abbrev pub reduce : Block → Bytes
  reduce b = take k_reduce_statistics_len (bytes_of_block b)

  unfoldable pub reduce_row : ℕ → ℕ → List Block → List Bytes
  reduce_row zero j row = []
  reduce_row (suc rounds) j row = reduce (get_or row j zero_block) ∷ reduce_row rounds (j + 1) row

  unfoldable pub reduce_rows : ℕ → List (List Block) → List Bytes
  reduce_rows n [] = []
  reduce_rows n (row ∷ rows) = reduce_row n 0 row ++ reduce_rows n rows

  module _ (table : CuckooTable) (num_of_fun sender_data_size : ℕ) (masks : List Block)
      (unpacked : List Bytes) where
    -- whether the mask of a bin stands in the row of the bin's function
    unfoldable pub bin_matches : ℕ → Bool
    bin_matches item_idx =
        let index = get_or table.function_ids item_idx 0 in
        ltb index num_of_fun
        && find_mask (take sender_data_size (drop (index * sender_data_size) unpacked))
            (reduce (get_or masks item_idx zero_block))

    -- The loop over the bins, of which `rounds` are left.
    unfoldable pub match_loop : ℕ → ℕ → List Bool → ℕ → List Bool × ℕ
    match_loop zero item_idx flags count = (flags, count)
    match_loop (suc rounds) item_idx flags count =
        let found = bin_matches item_idx in
        match_loop rounds (item_idx + 1)
          (if found then set flags (get_or table.ids item_idx 0) true else flags)
          (if found then count + 1 else count)
