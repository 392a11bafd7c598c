-- ===== src/Kkrt.antt =====
-- src/setops/psi/kkrt_psi.h and kkrt_psi.cpp; `init` is in the module Init. The hash and the hash tables of
-- PETAce-Solo and the oblivious transfer of PETAce-Verse are parameters; so is the number of bins,
-- which the source computes in floating point. Logging is left out.
pub mod Tables
pub mod Phases
pub mod Process
pub mod Rows
pub mod Sent
pub mod Slices
pub mod Marks
pub mod Matching
pub mod Contract
pub mod Intersection
pub mod Init
pub mod Mismatch
pub mod Tests
use mathlib.Core.List.{flatten}
use petace_set_ops.Base.{
  ℕ, zero, suc, ◌+◌, ◌*◌, ◌%◌, ◌^◌, List, [], ◌∷◌, ◌++◌, map, Bool, true, false, ◌&&◌, Bytes, ltb,
  if◌then◌else◌, length, get_or, set, resize, take, drop, replicate,
}
use petace_set_ops.Net.{Proc, done, fail, send, recv, stash_not_empty, ◌>>=◌, ◌>>◌}
use petace_set_ops.Net.Wire.{size_t, send_value, recv_value}
use petace_set_ops.Util.Permutation.{generate_permutation}
use petace_set_ops.Util.Serialize.{serialize_string_to_char, deserialize_string_from_char}
use petace_set_ops.Psi.{k_reduce_statistics_len, unpack, collect_loop}
use petace_set_ops.Kkrt.Tables.{
  Solo, Verse, push_mask, encode_bins, shuffle_rows, reduce_rows, match_loop,
}

-- The object after `init`. The common generator yields `seed` to both parties.
pub record KkrtPsi : Type 0 where
  pub is_sender : Bool
  pub sender_obtain_result : Bool
  pub num_of_fun : ℕ
  pub seed : Bytes

-- The exchange of the numbers of keys; the result is the peer's.
unfoldable pub exchange_sizes : Bool → ℕ → Proc ℕ
exchange_sizes true data_size = do
  receiver_data_size ← recv_value size_t
  send_value size_t data_size
  done receiver_data_size
exchange_sizes false data_size = do send_value size_t data_size; recv_value size_t

module _ (solo : Solo) (verse : Verse) (self : KkrtPsi) where
  open solo use {hash, num_of_bins, simple_table, cuckoo_table}
  open verse use {zero_block, block_of_bytes, ot_send, ot_receive}

  -- What the sender sends: row by row the reduced masks of its keys, each row shuffled.
  unfoldable pub sender_data : (ℕ → List ℕ → List ℕ) → ℕ → verse.Key → List Bytes → List Bytes
  sender_data shuffles bins key input_keys =
      let table = simple_table bins self.seed self.num_of_fun (map hash input_keys) in
      let sender_enc_data = encode_bins verse key 0 table (replicate self.num_of_fun []) in
      reduce_rows verse (length input_keys)
        (shuffle_rows verse shuffles self.num_of_fun 0 (length input_keys) [] sender_enc_data)

  -- The sender until its reduced masks are sent.
  unfoldable pub sender_phase : (ℕ → List ℕ → List ℕ) → List Bytes → Proc (Unit {0})
  unfolding exchange_sizes
  sender_phase shuffles input_keys = do
    receiver_data_size ← exchange_sizes true (length input_keys)
    let bins = num_of_bins receiver_data_size
    stash_size ← recv_value size_t
    if ltb 0 stash_size then fail stash_not_empty else (do
      key ← ot_send bins
      send (flatten (sender_data shuffles bins key input_keys)) (done tt))

  -- What the receiver makes of the masks: the marks of its keys, and the number of bins that match.
  unfoldable pub receiver_matches : ℕ → List Bytes → ℕ → List verse.Block → Bytes → List Bool × ℕ
  receiver_matches bins input_keys sender_data_size masks reduced_data =
      let table = cuckoo_table bins self.seed self.num_of_fun (map hash input_keys) in
      match_loop verse table self.num_of_fun sender_data_size masks
        (unpack (sender_data_size * self.num_of_fun) 0 k_reduce_statistics_len reduced_data) bins 0
        (replicate bins false) 0

  -- The receiver until its keys are matched.
  unfoldable pub receiver_phase : List Bytes → Proc (List Bool × ℕ)
  unfolding exchange_sizes
  receiver_phase input_keys = do
    sender_data_size ← exchange_sizes false (length input_keys)
    let bins = num_of_bins (length input_keys)
    let table = cuckoo_table bins self.seed self.num_of_fun (map hash input_keys)
    send_value size_t table.stash_size
    if ltb 0 table.stash_size then fail stash_not_empty else (do
      masks ← ot_receive (map block_of_bytes table.values)
      recv (self.num_of_fun * sender_data_size * k_reduce_statistics_len % 2 ^ 64) (λ reduced_data.
          done (receiver_matches bins input_keys sender_data_size masks reduced_data)))

  -- the end of the sender's `process`
  unfoldable pub receive_result : List Bytes → Proc (List Bytes)
  receive_result output_keys =
      if self.sender_obtain_result
      then (do
        count ← recv_value size_t
        recv count (λ serialized_key. done (deserialize_string_from_char serialized_key [])))
      else done output_keys

  -- the end of the receiver's
  unfoldable pub send_result : List Bytes → Proc (List Bytes)
  send_result output_keys =
      if self.sender_obtain_result
      then (do
        let serialized_key = serialize_string_to_char output_keys []
        send_value size_t (length serialized_key)
        send serialized_key (done tt)
        done output_keys)
      else done output_keys

  -- The keys that are marked.
  unfoldable pub collect_output : List Bytes → List Bytes → List Bool × ℕ → List Bytes
  collect_output input_keys output_keys (intersection_indices, count) =
      collect_loop input_keys 0 intersection_indices (resize count [] output_keys) 0

  -- The last argument is `output_keys` as the caller passes it.
  unfoldable pub process : (ℕ → List ℕ → List ℕ) → List Bytes → List Bytes → Proc (List Bytes)
  unfolding sender_phase receiver_phase receive_result send_result
  process shuffles input_keys output_keys =
      if self.is_sender
      then sender_phase shuffles input_keys >> receive_result output_keys
      else receiver_phase input_keys >>= λ matched.
          send_result (collect_output input_keys output_keys matched)

  unfoldable pub process_cardinality_only : (ℕ → List ℕ → List ℕ) → List Bytes → Proc ℕ
  unfolding sender_phase receiver_phase
  process_cardinality_only shuffles input_keys =
      if self.is_sender
      then sender_phase shuffles input_keys
        >> (if self.sender_obtain_result then recv_value size_t else done 0)
      else receiver_phase input_keys >>= λ matched.
          (if self.sender_obtain_result
            then send_value size_t matched.1 >> done matched.1
            else done matched.1)
