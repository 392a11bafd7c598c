-- ===== src/Util/ParameterCheck.antt =====
-- src/setops/util/parameter_check.h. A check returns or throws; the message of the exception is kept
-- as the parameter's name. `T` is a type with the tests that C++ makes of it.
pub mod Agreement
pub mod Verdict
use petace_set_ops.Base.{
  ℕ, ◌==◌, ltb, String, List, [], ◌∷◌, Bool, true, false, not, ◌||◌, if◌then◌else◌,
}
use petace_set_ops.Net.{Error, check_failed, disagreement, Proc, done, fail, ◌>>=◌, ◌>>◌}
use petace_set_ops.Net.Wire.{Wire, send_value, recv_value}

-- The comparisons `==` and `<` of a parameter type.
pub record Comparable (T : Type 0) : Type 0 where
  pub eq : T → T → Bool
  pub lt : T → T → Bool

-- the integers
abbrev pub int_tests : Comparable ℕ
int_tests = record { eq = ◌==◌; lt = ltb }

module _ {T : Type 0} (c : Comparable T) where
  -- `value >= threshold`, `value <= threshold`
  abbrev ge : T → T → Bool
  ge a b = not (c.lt a b)

  unfoldable pub check_less_than : String → T → T → Proc (Unit {0})
  check_less_than param_name value threshold =
      if ge value threshold then fail (check_failed param_name) else done tt

  unfoldable pub check_greater_than : String → T → T → Proc (Unit {0})
  check_greater_than param_name value threshold =
      if ge threshold value then fail (check_failed param_name) else done tt

  unfoldable pub check_equal : String → T → T → Proc (Unit {0})
  check_equal param_name value expected_value =
      if not (c.eq value expected_value) then fail (check_failed param_name) else done tt

  -- the search in the `std::set` of the expected values
  is_listed : T → List T → Bool
  is_listed value [] = false
  is_listed value (e ∷ expected_values) = c.eq value e || is_listed value expected_values

  unfoldable pub check_equal_any : String → T → List T → Proc (Unit {0})
  unfolding is_listed
  check_equal_any param_name value expected_values =
      if is_listed value expected_values then done tt else fail (check_failed param_name)

  unfoldable pub check_in_range : String → T → T → T → Proc (Unit {0})
  check_in_range param_name value low high =
      if c.lt high value || c.lt value low then fail (check_failed param_name) else done tt

  -- the comparison with the peer's value
  unfoldable pub compare_remote : String → T → T → Proc (Unit {0})
  compare_remote param_name value remote_value =
      if not (c.eq value remote_value) then fail (disagreement param_name) else done tt

  module _ (w : Wire T) where
    unfoldable pub check_consistency : Bool → String → T → Proc (Unit {0})
    unfolding compare_remote
    check_consistency true param_name value = do
      send_value w value
      remote_value ← recv_value w
      compare_remote param_name value remote_value
    check_consistency false param_name value = do
      remote_value ← recv_value w
      send_value w value
      compare_remote param_name value remote_value
