-- ===== src/Util/ParameterCheck/Verdict.antt =====
-- When the local checks return and when they throw, for natural numbers.
use petace_set_ops.Base.{ℕ, String, ◌≡◌, ◌<◌, ◌≤◌, ◌↔◌, arith}
use petace_set_ops.Net.{done}
use petace_set_ops.Util.ParameterCheck.{
  int_tests, check_less_than, check_greater_than, check_equal, check_in_range,
}

-- Natural numbers pass `check_less_than` exactly below the threshold, `check_greater_than` exactly
-- above it, `check_equal` exactly at the expected value, and `check_in_range` exactly from the low
-- to the high bound, both included.
pub checks-verdict :
    (param_name : String) (value a b : ℕ)
    → ((check_less_than int_tests param_name value a ≡ done tt) ↔ (value < a))
      × ((check_greater_than int_tests param_name value a ≡ done tt) ↔ (a < value))
      × ((check_equal int_tests param_name value a ≡ done tt) ↔ (value ≡ a))
      × ((check_in_range int_tests param_name value a b ≡ done tt) ↔ ((a ≤ value) × (value ≤ b)))
unfolding check_less_than check_greater_than check_equal check_in_range
checks-verdict param_name value a b = (
  (λ h. ground arith, λ h. ground arith),
  (λ h. ground arith, λ h. ground arith),
  (λ h. ground arith, λ h. ground arith),
  (λ h. ground arith, λ h. ground arith),
)
