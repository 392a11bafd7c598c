-- ===== src/Util/Tests.antt =====
-- The theorems of the helpers at concrete inputs, and runs of them.
use mathlib.Core.List.{reverse, reverse_perm, Perm}
use petace_set_ops.Base.{
  ℕ, ◌≡◌, refl, List, [], ◌∷◌, ◌++◌, ◌+◌, ◌*◌, true, false, arith, codes, length, get_or, drop, ◌↔◌,
  ◌<◌, ◌≤◌,
}
use petace_set_ops.Net.{disagreement, done, fail}
use petace_set_ops.Net.Wire.{int32}
use petace_set_ops.Net.Meet.{Meets}
use petace_set_ops.Util.DummyData.{generate_random_keys, generate_random_features}
use petace_set_ops.Util.DummyData.Keys.{
  generate_random_keys-alternate, generate_random_features-get_or,
}
use petace_set_ops.Util.ParameterCheck.{
  int_tests, check_less_than, check_greater_than, check_equal, check_in_range, check_consistency,
}
use petace_set_ops.Util.ParameterCheck.Agreement.{check_consistency-verdict}
use petace_set_ops.Util.ParameterCheck.Verdict.{checks-verdict}
use petace_set_ops.Util.Permutation.{generate_permutation, permute_and_undo}
use petace_set_ops.Util.Permutation.RoundTrip.{
  IsPermutation, generate_permutation-IsPermutation, undo-permute, permute-perm,
}
use petace_set_ops.Util.Serialize.{serialize_string_to_char, deserialize_string_from_char}
use petace_set_ops.Util.Serialize.RoundTrip.{deserialize-serialize}

reversed : IsPermutation 3 (generate_permutation reverse 3 [])
reversed = generate_permutation-IsPermutation reverse 3 [] reverse_perm

undo-permute_example :
    permute_and_undo {T = ℕ} 0
      (generate_permutation reverse 3 [])
      false
      (permute_and_undo {T = ℕ} 0 (generate_permutation reverse 3 []) true (7 ∷ 8 ∷ 7 ∷ []))
    ≡ 7 ∷ 8 ∷ 7 ∷ []
undo-permute_example = undo-permute 0 (generate_permutation reverse 3 []) (7 ∷ 8 ∷ 7 ∷ []) reversed

permute-perm_example :
    Perm
      (permute_and_undo {T = ℕ} 0 (generate_permutation reverse 3 []) true (7 ∷ 8 ∷ 7 ∷ []))
      (7 ∷ 8 ∷ 7 ∷ [])
permute-perm_example = permute-perm 0 (generate_permutation reverse 3 []) (7 ∷ 8 ∷ 7 ∷ []) reversed

check_consistency-verdict_example :
    Meets
      (check_consistency int_tests int32 true "x" 4)
      (check_consistency int_tests int32 false "x" 5)
      (fail (disagreement "x"))
      (fail (disagreement "x"))
check_consistency-verdict_example =
    check_consistency-verdict int_tests int32 "x" 4 5 (omega arith) (omega arith)

checks-verdict_example :
    ((check_less_than int_tests "x" 3 2 ≡ done tt) ↔ (3 < 2))
    × ((check_greater_than int_tests "x" 3 2 ≡ done tt) ↔ (2 < 3))
    × ((check_equal int_tests "x" 3 2 ≡ done tt) ↔ ◌≡◌ {A = ℕ} 3 2)
    × ((check_in_range int_tests "x" 3 2 7 ≡ done tt) ↔ ((2 ≤ 3) × (3 ≤ 7)))
checks-verdict_example = checks-verdict "x" 3 2 7

deserialize-serialize_example :
    deserialize_string_from_char
      (serialize_string_to_char (codes "ab" ∷ [] ∷ []) [])
      (codes "z" ∷ [])
    ≡ codes "z" ∷ codes "ab" ∷ [] ∷ []
deserialize-serialize_example =
    deserialize-serialize (codes "ab" ∷ [] ∷ []) (codes "z" ∷ []) (omega arith)

rotate : List ℕ → List ℕ
rotate [] = []
rotate (x ∷ xs) = xs ++ x ∷ []

permute_run :
    permute_and_undo {T = ℕ} 0 (generate_permutation rotate 3 []) true (7 ∷ 8 ∷ 9 ∷ [])
    ≡ 8 ∷ 9 ∷ 7 ∷ []
unfolding permute_and_undo generate_permutation rotate
permute_run = refl

serialize_run :
    serialize_string_to_char (codes "ab" ∷ codes "c" ∷ []) [] ≡ 97 ∷ 98 ∷ 0 ∷ 99 ∷ 0 ∷ []
unfolding serialize_string_to_char
serialize_run = refl

generate_random_keys-alternate_example :
    (let keys = generate_random_keys (λ k. k * 7) 2 0 (codes "0") (codes "x" ∷ []) in
      (length keys ≡ 3)
      × (length (get_or keys 2 []) ≡ 33)
      × (drop 32 (get_or keys 2 []) ≡ codes "0")
      × (get_or (get_or keys 2 []) 1 0 ≡ 88))
generate_random_keys-alternate_example =
    generate_random_keys-alternate (λ k. k * 7) 2 0 1 1 (codes "0") (codes "x" ∷ []) (omega arith)
      (omega arith)

generate_random_features-get_or_example :
    (length (generate_random_features (λ k. k + 9) 3 true (5 ∷ [])) ≡ 3)
    × (get_or (generate_random_features (λ k. k + 9) 3 true (5 ∷ [])) 0 0 ≡ 5)
generate_random_features-get_or_example =
    generate_random_features-get_or (λ k. k + 9) 3 true (5 ∷ []) 0 (omega arith)
