-- ===== src/Circuit.antt =====
-- src/setops/pjc/circuit_psi.h and circuit_psi.cpp; `init` is in the module Init. The tables of
-- PETAce-Solo, the transfer of PETAce-Verse, the operations on shares of PETAce-Duet and the
-- generators are parameters (Circuit/Tables). Logging is left out.
pub mod Tables
pub mod Words
pub mod Loops
pub mod Shares
pub mod Joint
pub mod Locate
pub mod Features
pub mod Masks
pub mod Hints
pub mod Transfer
pub mod Phases
pub mod Outputs
pub mod Process
pub mod Found
pub mod Reading
pub mod Absent
pub mod Shape
pub mod Stash
pub mod Reuse
pub mod Init
pub mod Toy
pub mod ToyDuet
pub mod Tests
use mathlib.Core.List.{flatten}
use petace_set_ops.Base.{
  ℕ, zero, suc, ◌+◌, ◌*◌, ◌%◌, ◌^◌, List, [], ◌∷◌, ◌++◌, map, Bool, true, false, Bytes, ltb,
  if◌then◌else◌, length, get_or,
}
use petace_set_ops.Net.{Proc, done, fail, send, recv, stash_not_empty, ◌>>=◌, ◌>>◌}
use petace_set_ops.Net.Wire.{size_t, send_value, recv_value}
use petace_set_ops.Psi.{unpack}
use petace_set_ops.Kkrt.Tables.{Verse}
use petace_set_ops.Circuit.Tables.{
  HintTable, Hashing, Pads, Matrix, Duet, tabulate, at_key, locate_bins, sender_features,
  receiver_features, filter_loop, xor_loop, sum_loop, encode_rows, hint, feature_hint, open_hints,
}

-- The object after `init`. The common generator yields the two seeds, one after the other, to both
-- parties.
pub record CircuitPsi : Type 0 where
  pub is_sender : Bool
  pub num_of_fun : ℕ
  pub num_of_fun_hint : ℕ
  pub table_seed : Bytes
  pub hint_seed : Bytes

-- The exchange of the numbers of keys and of features; the result is the peer's.
unfoldable pub exchange_sizes : Bool → ℕ → ℕ → Proc (ℕ × ℕ)
exchange_sizes true data_size feature_size = do
  peer_data_size ← recv_value size_t
  peer_feature_size ← recv_value size_t
  send_value size_t data_size
  send_value size_t feature_size
  done (peer_data_size, peer_feature_size)
exchange_sizes false data_size feature_size = do
  send_value size_t data_size
  send_value size_t feature_size
  peer_data_size ← recv_value size_t
  peer_feature_size ← recv_value size_t
  done (peer_data_size, peer_feature_size)

-- A vector of `std::uint64_t`, which has n elements.
unfoldable pub send_words : List ℕ → Proc (Unit {0})
send_words words = send (flatten (map size_t.encode words)) (done tt)

unfoldable pub recv_words : ℕ → Proc (List ℕ)
recv_words n = recv (n * 8 % 2 ^ 64) (λ buffer. done (map size_t.decode (unpack n 0 8 buffer)))

-- `x & kReduceBitsLen`
abbrev pub reduce_bits : ℕ → ℕ
reduce_bits x = x % 2 ^ 62

module _ (hashing : Hashing) (self : CircuitPsi) where
  open hashing use {hash, num_of_bins, num_of_hint_bins}

  -- `num_of_bins_hint`
  unfoldable pub hint_bins : ℕ → ℕ → ℕ
  hint_bins sender_data_size bins =
      let entries = sender_data_size * self.num_of_fun % 2 ^ 64 in
      if ltb entries bins then num_of_hint_bins bins else num_of_hint_bins entries

  -- The sender's simple table, and its own cuckoo table of all entries of the simple table.
  unfoldable pub simple_of : ℕ → List Bytes → List (List Bytes)
  simple_of bins input_keys =
      hashing.simple_values bins self.table_seed self.num_of_fun (map hash input_keys)

  unfoldable pub local_table : ℕ → ℕ → List Bytes → HintTable
  local_table hint_num bins input_keys =
      hashing.cuckoo_table hint_num self.hint_seed self.num_of_fun_hint
        (flatten (simple_of bins input_keys))

  -- The receiver's cuckoo table.
  unfoldable pub receiver_table : ℕ → List Bytes → HintTable
  receiver_table bins input_keys =
      hashing.cuckoo_table bins self.table_seed self.num_of_fun (map hash input_keys)

-- `output_shares[0]`: the exclusive or of each row of the result
abbrev pub bit_row : ℕ → ℕ → Matrix → List ℕ
bit_row bins columns result = tabulate bins 0 (λ i. xor_loop (result i) columns 0 0)

-- `output_shares[k + 1]` for the sender's features: the sum of each row of the k-th result
abbrev pub sum_rows : ℕ → ℕ → List Matrix → List (List ℕ)
sum_rows bins columns results =
    map (λ result. tabulate bins 0 (λ i. sum_loop (result i) columns 0 0)) results

module _ (duet : Duet) where
  -- The multiplexer for each feature of the sender, one after the other.
  unfoldable pub multiplex : Bool → ℕ → ℕ → Matrix → List Matrix → Proc (List Matrix)
  multiplex party bins columns result [] = done []
  multiplex party bins columns result (shares ∷ more) = do
    feature_result ← duet.multiplexer party bins columns result shares
    feature_results ← multiplex party bins columns result more
    done (feature_result ∷ feature_results)

module _ (hashing : Hashing) (verse : Verse) (pads : Pads verse) (duet : Duet)
    (self : CircuitPsi) where
  -- The sender's loop over its features, from `fid` on: each is hidden in a filter of its own, whose
  -- bins' contents are fresh words. The result is the contents.
  unfoldable pub send_features :
      (ℕ → ℕ)
      → HintTable
      → List (Bytes × (ℕ × ℕ))
      → List (List verse.Block)
      → List (Bytes × List ℕ)
      → ℕ
      → ℕ
      → ℕ
      → ℕ
      → ℕ
      → Proc (List (List ℕ))
  send_features own table table_loc masks features bins hint_num zero fid pos = done []
  send_features own table table_loc masks features bins hint_num (suc rounds) fid pos = do
    let contents = tabulate bins pos own
    let garbled =
        filter_loop own table.occupancy
          (feature_hint verse pads table table_loc masks features fid contents) hint_num 0
          (pos + bins)
    send_words garbled.0
    more ← send_features own table table_loc masks features bins hint_num rounds (fid + 1) garbled.1
    done (contents ∷ more)

  -- The receiver's.
  unfoldable pub receive_features :
      List ℕ → List verse.Block → ℕ → ℕ → ℕ → ℕ → Proc (List (List (List ℕ)))
  receive_features addresses masks bins hint_num zero fid = done []
  receive_features addresses masks bins hint_num (suc rounds) fid = do
    garbled ← recv_words hint_num
    more ← receive_features addresses masks bins hint_num rounds (fid + 1)
    done (
        open_hints verse pads bins self.num_of_fun_hint addresses garbled
          (λ i. pads.xor_fid (get_or masks i verse.zero_block) fid)
        ∷ more)

  -- The sender from the transfer on, with the numbers of bins, its keys' values, and the number of the
  -- receiver's features. `own` is the words of its own generator.
  unfoldable pub sender_phase :
      (ℕ → ℕ) → ℕ → ℕ → ℕ → List Bytes → List (List ℕ) → Proc (List (List ℕ))
  sender_phase own bins hint_num receiver_feature_size input_keys input_features = do
    let values = simple_of hashing self bins input_keys
    let table = local_table hashing self hint_num bins input_keys
    key ← verse.ot_send bins
    send_value size_t table.stash_size
    if ltb 0 table.stash_size then fail stash_not_empty else (do
      let masks = encode_rows verse pads key 0 values
      let contents = tabulate bins 0 own
      let table_loc = locate_bins 0 values []
      let garbled =
          filter_loop own table.occupancy (hint verse pads table table_loc masks contents) hint_num
            0 bins
      let features =
          sender_features self.num_of_fun (length input_features) 0 input_features
            (map hashing.hash input_keys) []
      send_words garbled.0
      feature_contents ←
          send_features own table table_loc masks features bins hint_num (length input_features) 0
            garbled.1
      result ←
          duet.equal true bins self.num_of_fun_hint (λ i j. reduce_bits (get_or contents i 0))
            (λ i j. 0)
      feature_results ←
          multiplex duet true bins self.num_of_fun_hint result
            (map (λ feature. λ i j. get_or feature i 0) feature_contents)
      done (
          bit_row bins self.num_of_fun_hint result
          ∷ (sum_rows bins self.num_of_fun_hint feature_results
              ++ tabulate receiver_feature_size 0 (λ k. tabulate bins 0 (λ i. 0)))))

  -- The receiver's, with its keys' table and the number of the sender's features.
  unfoldable pub receiver_phase :
      ℕ → ℕ → ℕ → HintTable → List Bytes → List (List ℕ) → Proc (List (List ℕ))
  receiver_phase bins hint_num sender_feature_size table input_keys input_features = do
    masks ← verse.ot_receive (map verse.block_of_bytes table.values)
    stash_size ← recv_value size_t
    if ltb 0 stash_size then fail stash_not_empty else (do
      garbled ← recv_words hint_num
      let addresses = hashing.addresses hint_num self.hint_seed self.num_of_fun_hint table.values
      let contents =
          open_hints verse pads bins self.num_of_fun_hint addresses garbled
            (λ i. get_or masks i verse.zero_block)
      let features =
          receiver_features (length input_features) 0 input_features (map hashing.hash input_keys)
            []
      feature_contents ← receive_features addresses masks bins hint_num sender_feature_size 0
      result ←
          duet.equal false bins self.num_of_fun_hint (λ i j. 0)
            (λ i j. reduce_bits (get_or (get_or contents i []) j 0))
      feature_results ←
          multiplex duet false bins self.num_of_fun_hint result
            (map (λ feature. λ i j. get_or (get_or feature i []) j 0) feature_contents)
      done (
          bit_row bins self.num_of_fun_hint result
          ∷ (sum_rows bins self.num_of_fun_hint feature_results
              ++ tabulate (length input_features) 0 (λ k. tabulate bins 0 (λ i.
                if get_or table.occupancy i false
                then get_or (at_key [] (get_or table.source_values i []) features) k 0 % 2 ^ 64
                else 0)))))

  -- The value that `output_shares` holds when `process` returns.
  unfoldable pub process : (ℕ → ℕ) → List Bytes → List (List ℕ) → Proc (List (List ℕ))
  process own input_keys input_features =
      if self.is_sender
      then (do
        peer ← exchange_sizes true (length input_keys) (length input_features)
        let bins = hashing.num_of_bins peer.0
        stash_size ← recv_value size_t
        if ltb 0 stash_size
            then fail stash_not_empty
            else sender_phase own bins (hint_bins hashing self (length input_keys) bins) peer.1
                input_keys input_features)
      else (do
        peer ← exchange_sizes false (length input_keys) (length input_features)
        let bins = hashing.num_of_bins (length input_keys)
        let table = receiver_table hashing self bins input_keys
        send_value size_t table.stash_size
        if ltb 0 table.stash_size
            then fail stash_not_empty
            else receiver_phase bins (hint_bins hashing self peer.0 bins) peer.1 table input_keys
                input_features)
