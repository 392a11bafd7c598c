-- ===== src/Util/Permutation.antt =====
-- src/setops/util/permutation.h. `std::shuffle` driven by the generator is a parameter, of which the
-- standard says that it permutes the elements; `perm` is the vector `permutation`.
pub mod RoundTrip
use petace_set_ops.Base.{
  ℕ, zero, suc, ◌+◌, List, [], ◌∷◌, Bool, true, false, length, get_or, set, resize,
}

-- `for (i = 0; i < n; ++i) permutation[i] = i;` with the rounds left first.
fill_identity : ℕ → ℕ → List ℕ → List ℕ
fill_identity zero i perm = perm
fill_identity (suc rounds) i perm = fill_identity rounds (i + 1) (set perm i i)

-- The parameter `permutation` is resized, filled and shuffled in place.
unfoldable pub generate_permutation : (List ℕ → List ℕ) → ℕ → List ℕ → List ℕ
unfolding fill_identity
generate_permutation shuffle n permutation = shuffle (fill_identity n 0 (resize n 0 permutation))

module _ {ℓ} {T : Type ℓ} (value_init : T) where
  -- `output[i] = data[permutation[i]]`
  apply_loop : ℕ → ℕ → List ℕ → List T → List T → List T
  apply_loop zero i perm data' output = output
  apply_loop (suc rounds) i perm data' output =
      apply_loop rounds (i + 1) perm data'
        (set output i (get_or data' (get_or perm i 0) value_init))

  -- `output[permutation[i]] = data[i]`
  undo_loop : ℕ → ℕ → List ℕ → List T → List T → List T
  undo_loop zero i perm data' output = output
  undo_loop (suc rounds) i perm data' output =
      undo_loop rounds (i + 1) perm data' (set output (get_or perm i 0) (get_or data' i value_init))

  -- `value_init` is the element that `output.resize(data.size())` fills up with.
  unfoldable pub permute_and_undo : List ℕ → Bool → List T → List T
  unfolding apply_loop undo_loop
  permute_and_undo perm true data' =
      apply_loop (length perm) 0 perm data' (resize (length data') value_init [])
  permute_and_undo perm false data' =
      undo_loop (length perm) 0 perm data' (resize (length data') value_init [])
