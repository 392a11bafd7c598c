-- ===== src/Circuit/Tables.antt =====
-- What circuit PSI (src/setops/pjc/circuit_psi.cpp) takes from PETAce-Solo, PETAce-Verse and
-- PETAce-Duet, and its hash maps and loops.
use Prim.Native.Nat.{bit_xor}
use petace_set_ops.Base.{
  ℕ, zero, suc, ◌+◌, ◌-◌, ◌*◌, ◌%◌, ◌^◌, List, [], ◌∷◌, map, Bool, false, Bytes, ltb, if◌then◌else◌,
  get_or, take,
}
use petace_set_ops.Net.{Proc}
use petace_set_ops.Psi.{k_rand_seed_bytes_len}
use petace_set_ops.Kkrt.Tables.{Verse, eq_bytes}

-- A filled `solo::CuckooHashing`: the size of the stash, and of each bin the value that is put into
-- the transfer, whether the bin is taken, the item that took it, and the number of the function.
pub record HintTable : Type 0 where
  pub stash_size : ℕ
  pub values : List Bytes
  pub occupancy : List Bool
  pub source_values : List Bytes
  pub function_ids : List ℕ

-- Tables are made from the number of bins, the seed, the number of functions and the items. The two
-- numbers of bins are computed in floating point. `addresses` lists for each item the bins at which
-- the functions would put it.
pub record Hashing : Type 0 where
  pub hash : Bytes → Bytes
  pub num_of_bins : ℕ → ℕ
  pub num_of_hint_bins : ℕ → ℕ
  pub simple_values : ℕ → Bytes → ℕ → List Bytes → List (List Bytes)
  pub cuckoo_table : ℕ → Bytes → ℕ → List Bytes → HintTable
  pub addresses : ℕ → Bytes → ℕ → List Bytes → List ℕ

-- The words that a generator yields that is created from a seed, and `block ^ _mm_set_epi64x(0, fid)`.
pub record Pads (verse : Verse) : Type 0 where
  pub seeded : Bytes → ℕ → ℕ
  pub xor_fid : verse.Block → ℕ → verse.Block

-- The shares of a matrix, by row and column.
abbrev pub Matrix : Type 0
Matrix = ℕ → ℕ → ℕ

-- The operations of `duet::Duet` on shares; the arguments are the party (whether it is the sender), the
-- numbers of rows and columns, and the party's shares.
pub record Duet : Type 0 where
  pub equal : Bool → ℕ → ℕ → Matrix → Matrix → Proc Matrix
  pub multiplexer : Bool → ℕ → ℕ → Matrix → Matrix → Proc Matrix

-- `for (i = …; …) v.push_back(f(i))`, with the rounds left first.
abbrev pub tabulate {ℓ} : {A : Type ℓ} → ℕ → ℕ → (ℕ → A) → List A
tabulate zero i f = []
tabulate (suc rounds) i f = f i ∷ tabulate rounds (i + 1) f

-- `std::unordered_map`: `map[key]`, with the value-initialised element for a key that is not there,
-- `map[key] = v`, and `map.emplace(key, v)`, which keeps an element that is there.
module _ {ℓ} {V : Type ℓ} where
  unfoldable pub at_key : V → Bytes → List (Bytes × V) → V
  at_key d key [] = d
  at_key d key ((k, v) ∷ entries) = if eq_bytes k key then v else at_key d key entries

  unfoldable pub assign : Bytes → V → List (Bytes × V) → List (Bytes × V)
  assign key v [] = (key, v) ∷ []
  assign key v ((k, w) ∷ entries) =
      if eq_bytes k key then (k, v) ∷ entries else (k, w) ∷ assign key v entries

  unfoldable pub emplace : Bytes → V → List (Bytes × V) → List (Bytes × V)
  emplace key v [] = (key, v) ∷ []
  emplace key v ((k, w) ∷ entries) =
      if eq_bytes k key then (k, w) ∷ entries else (k, w) ∷ emplace key v entries

-- A number that is cast to `int` and later indexes a vector: 32 bits, with the sign extended.
unfoldable pub as_index : ℕ → ℕ
as_index n = let low = n % 2 ^ 32 in if ltb low (2 ^ 31) then low else low + 2 ^ 64 - 2 ^ 32

-- Bin and index of each entry of the simple table: `table_loc[value] = {i, j}`.
unfoldable pub locate_bin : ℕ → ℕ → List Bytes → List (Bytes × (ℕ × ℕ)) → List (Bytes × (ℕ × ℕ))
locate_bin i j [] table_loc = table_loc
locate_bin i j (value ∷ entries) table_loc =
    locate_bin i (j + 1) entries (assign value (as_index i, as_index j) table_loc)

unfoldable pub locate_bins : ℕ → List (List Bytes) → List (Bytes × (ℕ × ℕ)) → List (Bytes × (ℕ × ℕ))
locate_bins i [] table_loc = table_loc
locate_bins i (entries ∷ bins) table_loc =
    locate_bins (i + 1) bins (locate_bin i 0 entries table_loc)

-- `keys_xor_fun[0] ^= Byte(j)`
unfoldable pub xor_first : ℕ → Bytes → Bytes
xor_first j [] = []
xor_first j (c ∷ cs) = bit_xor c (j % 256) ∷ cs

-- the features of item i
unfoldable pub feature_of : ℕ → List (List ℕ) → ℕ → List ℕ
feature_of feature_size input_features i =
    tabulate feature_size 0 (λ j. get_or (get_or input_features j []) i 0)

-- `table_features_loc` of the sender, item i under each of its values
unfoldable pub emplace_functions :
    ℕ → ℕ → Bytes → List ℕ → List (Bytes × List ℕ) → List (Bytes × List ℕ)
emplace_functions zero j key feature entries = entries
emplace_functions (suc rounds) j key feature entries =
    emplace_functions rounds (j + 1) key feature (emplace (xor_first j key) feature entries)

unfoldable pub sender_features :
    ℕ → ℕ → ℕ → List (List ℕ) → List Bytes → List (Bytes × List ℕ) → List (Bytes × List ℕ)
sender_features num_of_fun feature_size i input_features [] entries = entries
sender_features num_of_fun feature_size i input_features (key ∷ keys) entries =
    sender_features num_of_fun feature_size (i + 1) input_features keys
      (emplace_functions num_of_fun 0 key (feature_of feature_size input_features i) entries)

-- and of the receiver
unfoldable pub receiver_features :
    ℕ → ℕ → List (List ℕ) → List Bytes → List (Bytes × List ℕ) → List (Bytes × List ℕ)
receiver_features feature_size i input_features [] entries = entries
receiver_features feature_size i input_features (key ∷ keys) entries =
    receiver_features feature_size (i + 1) input_features keys
      (emplace key (feature_of feature_size input_features i) entries)

-- `for (j = 0; j <= function_id; j++) local_prng->generate(…, &pad);` with the rounds left first.
unfoldable pub pad_loop : (ℕ → ℕ) → ℕ → ℕ → ℕ → ℕ
pad_loop generate zero j pad = pad
pad_loop generate (suc rounds) j pad = pad_loop generate rounds (j + 1) (generate j)

-- Each taken bin of the table holds a value, each other a random word; the position in the words of
-- the party's own generator is passed on.
unfoldable pub filter_loop : (ℕ → ℕ) → List Bool → (ℕ → ℕ) → ℕ → ℕ → ℕ → List ℕ × ℕ
filter_loop own occupancy value zero i pos = ([], pos)
filter_loop own occupancy value (suc rounds) i pos =
    let taken = get_or occupancy i false in
    let (rest, pos') =
      filter_loop own occupancy value rounds (i + 1) (if taken then pos else pos + 1) in
    ((if taken then value i else own pos) ∷ rest, pos')

-- `for (j = 0; j < n; j++) acc ^= f(j)` and `acc += f(j)`, with the rounds left first.
unfoldable pub xor_loop : (ℕ → ℕ) → ℕ → ℕ → ℕ → ℕ
xor_loop f zero j acc = acc
xor_loop f (suc rounds) j acc = xor_loop f rounds (j + 1) (bit_xor acc (f j))

unfoldable pub sum_loop : (ℕ → ℕ) → ℕ → ℕ → ℕ → ℕ
sum_loop f zero j acc = acc
sum_loop f (suc rounds) j acc = sum_loop f rounds (j + 1) ((acc + f j) % 2 ^ 64)

module _ (verse : Verse) (pads : Pads verse) where
  open verse use {Block, Key, zero_block, block_of_bytes, bytes_of_block, encode}

  -- `masks[i][j]`, from bin i on
  unfoldable pub encode_rows : Key → ℕ → List (List Bytes) → List (List Block)
  encode_rows key i [] = []
  encode_rows key i (entries ∷ bins) =
      map (λ value. encode key i (block_of_bytes value)) entries ∷ encode_rows key (i + 1) bins

  -- the words of the generator whose seed is a block's bytes
  abbrev pub pads_of : Block → ℕ → ℕ
  pads_of block = pads.seeded (take k_rand_seed_bytes_len (bytes_of_block block))

  -- the mask of an entry
  abbrev pub mask_at : List (List Block) → ℕ × ℕ → Block
  mask_at masks (bin, index) = get_or (get_or masks bin []) index zero_block

  -- `content_of_bins[location.bin] ^ pad` for the item in bin i of the table
  unfoldable pub hint : HintTable → List (Bytes × (ℕ × ℕ)) → List (List Block) → List ℕ → ℕ → ℕ
  hint table table_loc masks contents i =
      let location = at_key (0, 0) (get_or table.source_values i []) table_loc in
      bit_xor (get_or contents location.0 0)
        (pad_loop (pads_of (mask_at masks location)) (suc (get_or table.function_ids i 0)) 0 0)

  -- `(feature - content_of_bins_features[location.bin]) ^ pad`
  unfoldable pub feature_hint :
      HintTable
      → List (Bytes × (ℕ × ℕ))
      → List (List Block)
      → List (Bytes × List ℕ)
      → ℕ
      → List ℕ
      → ℕ
      → ℕ
  feature_hint table table_loc masks features fid contents i =
      let element = get_or table.source_values i [] in
      let location = at_key (0, 0) element table_loc in
      let feature = get_or (at_key [] element features) fid 0 in
      bit_xor ((feature + 2 ^ 64 - get_or contents location.0 0) % 2 ^ 64) (
        pad_loop (pads_of (pads.xor_fid (mask_at masks location) fid))
          (suc (get_or table.function_ids i 0)) 0 0)

  -- `garbled_cuckoo_filter[addresses[i * num_of_fun_hint_ + j]] ^ pad`, for the bins from 0 on
  unfoldable pub open_hints : ℕ → ℕ → List ℕ → List ℕ → (ℕ → Block) → List (List ℕ)
  open_hints bins num_of_fun_hint addresses filter' mask = tabulate bins 0 (λ i.
      tabulate num_of_fun_hint 0 (λ j.
        bit_xor (get_or filter' (get_or addresses (i * num_of_fun_hint + j) 0) 0)
          (pads_of (mask i) j)))
