-- ===== src/Ecdh.antt =====
-- src/setops/psi/ecdh_psi.h and ecdh_psi.cpp. The elliptic-curve cipher of PETAce-Solo and the
-- shuffle of the standard library are parameters. Logging, OpenMP and the reading of the JSON
-- parameters are left out: `Params` holds the values that `init` reads.
pub mod Exchange
pub mod Intersection
pub mod Party
pub mod Protocol
pub mod Init
pub mod Schedules
pub mod Object
pub mod Tests
use mathlib.Core.List.{flatten}
use petace_set_ops.Base.{
  ℕ, zero, suc, ◌+◌, ◌-◌, ◌*◌, ◌%◌, ◌^◌, List, [], ◌∷◌, ◌++◌, map, Bool, true, false, ◌||◌, Bytes,
  ◌==◌, if◌then◌else◌, ◌≡◌, String, length, get_or, set, resize, drop, replicate,
}
use petace_set_ops.Net.{
  NetHandle, nullptr, connected, Error, net_is_null, point_length_is_zero, Proc, done, fail, send,
  recv, ◌>>=◌, ◌>>◌,
}
use petace_set_ops.Net.Wire.{Wire, size_t, int32, bool, send_value, recv_value}
use petace_set_ops.Std.Order.{bytes_order, sort}
use petace_set_ops.Std.Search.{binary_search}
use petace_set_ops.Util.Permutation.{generate_permutation, permute_and_undo}
use petace_set_ops.Util.ParameterCheck.{int_tests, check_consistency, check_equal}
use petace_set_ops.Psi.{k_ecc_point_len, k_ecc_compare_bytes_len, unpack, collect_loop}

-- What the protocol calls of `solo::ECOpenSSL`; a point is converted to `kEccPointLen` bytes.
pub record Ecc : Type 1 where
  pub Point : Type 0
  pub SecretKey : Type 0
  pub hash_to_curve : Bytes → Point
  pub encrypt : Point → SecretKey → Point
  pub point_to_bytes : Point → Bytes
  pub point_from_bytes : Bytes → Point

-- What the protocol relies on of it: multiplications by two scalars commute, and the encoding of a
-- point has its length and is read back.
pub record EccLaws (ecc : Ecc) : Type 0 where
  pub encrypt_comm :
      (p : ecc.Point) (a b : ecc.SecretKey)
      → ecc.encrypt (ecc.encrypt p a) b ≡ ecc.encrypt (ecc.encrypt p b) a
  pub length_point : (p : ecc.Point) → length (ecc.point_to_bytes p) ≡ k_ecc_point_len
  pub from_bytes_to_bytes : (p : ecc.Point) → ecc.point_from_bytes (ecc.point_to_bytes p) ≡ p

-- The values of the parameters, the defaults merged with the user's.
pub record Params : Type 0 where
  pub is_sender : Bool
  pub curve_id : ℕ
  pub obtain_result : Bool

-- The object after `init`.
pub record EcdhPsi (ecc : Ecc) : Type 0 where
  pub is_sender : Bool
  pub obtain_result : Bool
  pub remote_obtain_result : Bool
  pub sk : ecc.SecretKey

abbrev pub the_curve_id : ℕ
the_curve_id = 415

check_params : Params → Proc (Unit {0})
check_params params = do
  check_consistency int_tests int32 params.is_sender "ecc_curve_id" params.curve_id
  check_equal int_tests "curve_id" params.curve_id the_curve_id

-- the exchange of the two flags
exchange_flags : Bool → Bool → Proc Bool
exchange_flags true obtain_result = do send_value bool obtain_result; recv_value bool
exchange_flags false obtain_result = do
  remote_obtain_result ← recv_value bool
  send_value bool obtain_result
  done remote_obtain_result

-- `sk` is the secret key that the fresh generator yields.
unfoldable pub init : (ecc : Ecc) → ecc.SecretKey → Params → Proc (EcdhPsi ecc)
unfolding check_params exchange_flags
init ecc sk params = do
  check_params params
  remote_obtain_result ← exchange_flags params.is_sender params.obtain_result
  done (record {
    is_sender = params.is_sender;
    obtain_result = params.obtain_result;
    remote_obtain_result = remote_obtain_result;
    sk = sk;
  })

-- `preprocess_data` leaves its output parameter as it is.
unfoldable pub preprocess_data : List Bytes → List Bytes → List Bytes
preprocess_data input_keys preprocessed_keys = preprocessed_keys

send_keys : List Bytes → Proc (Unit {0})
send_keys encrypted_keys =
    let self_data_size = length encrypted_keys in
    send_value size_t self_data_size
    >> (if self_data_size == 0 then done tt else send (flatten encrypted_keys) (done tt))

receive_keys : ℕ → Proc (List Bytes)
receive_keys point_byte_count = do
  received_data_size ← recv_value size_t
  received_keys_buffer ←
      (if received_data_size == 0
        then done (replicate (received_data_size * point_byte_count % 2 ^ 64) 0)
        else recv (received_data_size * point_byte_count % 2 ^ 64) (λ bs. done bs))
  done (unpack received_data_size 0 point_byte_count received_keys_buffer)

-- The received keys are the output parameter `received_keys`, which every caller passes empty.
unfoldable pub exchange_encrypted_keys : Bool → NetHandle → List Bytes → ℕ → Proc (List Bytes)
unfolding send_keys receive_keys
exchange_encrypted_keys is_sender nullptr encrypted_keys point_byte_count = fail net_is_null
exchange_encrypted_keys true connected encrypted_keys point_byte_count =
    if point_byte_count == 0
    then fail point_length_is_zero
    else send_keys encrypted_keys >> receive_keys point_byte_count
exchange_encrypted_keys false connected encrypted_keys point_byte_count =
    if point_byte_count == 0 then fail point_length_is_zero else (do
      received_keys ← receive_keys point_byte_count
      send_keys encrypted_keys
      done received_keys)

-- `if (binary_search(…)) { intersection_indices[item_idx] = true; ++count; }`
mark_loop : List Bytes → List Bytes → ℕ → List Bool → ℕ → List Bool × ℕ
mark_loop remote_keys [] item_idx flags count = (flags, count)
mark_loop remote_keys (key ∷ self_keys) item_idx flags count =
    let found = binary_search bytes_order remote_keys key in
    mark_loop remote_keys self_keys (item_idx + 1)
      (if found then set flags item_idx true else flags) (if found then count + 1 else count)

is_empty : List Bytes → Bool
is_empty [] = true
is_empty (key ∷ keys) = false

-- The last argument is `output_keys` as the caller passes it.
unfoldable pub calculate_intersection :
    List Bytes → List Bytes → List Bytes → List Bytes → List Bytes
unfolding is_empty mark_loop
calculate_intersection remote_keys self_keys input_keys output_keys =
    if is_empty remote_keys || is_empty self_keys || is_empty input_keys
    then output_keys
    else (let (intersection_indices, count) =
          mark_loop remote_keys self_keys 0 (replicate (length input_keys) false) 0 in
        collect_loop input_keys 0 intersection_indices (resize count [] output_keys) 0)

count_loop : List Bytes → List Bytes → ℕ → ℕ
count_loop remote_keys [] count = count
count_loop remote_keys (key ∷ self_keys) count =
    count_loop remote_keys self_keys
      (if binary_search bytes_order remote_keys key then count + 1 else count)

unfoldable pub calculate_cardinality_only : List Bytes → List Bytes → ℕ
unfolding is_empty count_loop
calculate_cardinality_only remote_keys self_keys =
    if is_empty remote_keys || is_empty self_keys then 0 else count_loop remote_keys self_keys 0

module _ (ecc : Ecc) (self : EcdhPsi ecc) where
  open ecc use {hash_to_curve, encrypt, point_to_bytes, point_from_bytes}

  -- Each round of the parallel loop writes its own item.
  unfoldable pub encrypt_keys : List Bytes → List Bytes
  encrypt_keys input_keys =
      map (λ key. point_to_bytes (encrypt (hash_to_curve key) self.sk)) input_keys

  -- The last `kECCCompareBytesLen` of the point's bytes are kept: the reverse iterators of the copy
  -- start at both ends.
  unfoldable pub doublely_encrypt_keys : List Bytes → List Bytes
  doublely_encrypt_keys exchanged_encrypted_keys =
      map
        (λ key.
          drop (k_ecc_point_len - k_ecc_compare_bytes_len)
            (point_to_bytes (encrypt (point_from_bytes key) self.sk)))
        exchanged_encrypted_keys

  module _ (shuffle : List ℕ → List ℕ) (net : NetHandle) (input_keys : List Bytes) where
    -- The value that `output_keys` holds when `process` returns.
    unfoldable pub process : Proc (List Bytes)
    process = do
      let permutation = generate_permutation shuffle (length input_keys) []
      let output_keys = permute_and_undo [] permutation true input_keys
      let encrypted_keys = encrypt_keys output_keys
      exchanged_keys ← exchange_encrypted_keys self.is_sender net encrypted_keys k_ecc_point_len
      let doubled_keys = doublely_encrypt_keys exchanged_keys
      self_doubled_keys ←
          exchange_encrypted_keys self.is_sender net
            (if self.remote_obtain_result then doubled_keys else []) k_ecc_compare_bytes_len
      done (
          if self.obtain_result
          then calculate_intersection (sort bytes_order doubled_keys)
              (permute_and_undo [] permutation false self_doubled_keys) input_keys output_keys
          else [])

    unfoldable pub process_cardinality_only : Proc ℕ
    process_cardinality_only = do
      let permutation = generate_permutation shuffle (length input_keys) []
      let shuffled_keys = permute_and_undo [] permutation true input_keys
      let encrypted_keys = encrypt_keys shuffled_keys
      exchanged_keys ← exchange_encrypted_keys self.is_sender net encrypted_keys k_ecc_point_len
      let doubled_keys = doublely_encrypt_keys exchanged_keys
      self_doubled_keys ←
          exchange_encrypted_keys self.is_sender net
            (if self.remote_obtain_result then doubled_keys else []) k_ecc_compare_bytes_len
      done (
          if self.obtain_result
          then calculate_cardinality_only (sort bytes_order doubled_keys) self_doubled_keys
          else 0)
