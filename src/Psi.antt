-- ===== src/Psi.antt =====
-- What the protocols of src/setops/psi share: the constants of src/setops/util/defines.h, the
-- unpacking of fixed-size items from a buffer, and the loop that collects the marked keys.
pub mod Unpack
pub mod Collect
use petace_set_ops.Base.{
  ℕ, zero, suc, ◌+◌, ◌*◌, List, [], ◌∷◌, Bool, false, Bytes, get_or, set, take, drop, if◌then◌else◌,
}

abbrev pub k_ecc_point_len : ℕ
k_ecc_point_len = 33

abbrev pub k_ecc_compare_bytes_len : ℕ
k_ecc_compare_bytes_len = 12

abbrev pub k_rand_seed_bytes_len : ℕ
k_rand_seed_bytes_len = 16

abbrev pub k_item_bytes_len : ℕ
k_item_bytes_len = 16

abbrev pub k_reduce_statistics_len : ℕ
k_reduce_statistics_len = 12

-- `emplace_back(buffer.begin() + item_idx * width, buffer.begin() + (item_idx + 1) * width)` for each
-- `item_idx`; the first argument counts the rounds that are left.
unfoldable pub unpack : ℕ → ℕ → ℕ → Bytes → List Bytes
unpack zero item_idx width buffer = []
unpack (suc rounds) item_idx width buffer =
    take width (drop (item_idx * width) buffer) ∷ unpack rounds (item_idx + 1) width buffer

-- `if (intersection_indices[item_idx]) output_keys[result_idx++] = input_keys[item_idx];`
unfoldable pub collect_loop : List Bytes → ℕ → List Bool → List Bytes → ℕ → List Bytes
collect_loop [] item_idx flags output_keys result_idx = output_keys
collect_loop (key ∷ input_keys) item_idx flags output_keys result_idx =
    let flag = get_or flags item_idx false in
    collect_loop input_keys (item_idx + 1) flags
      (if flag then set output_keys result_idx key else output_keys)
      (if flag then result_idx + 1 else result_idx)
