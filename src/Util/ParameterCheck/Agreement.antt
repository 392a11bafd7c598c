-- ===== src/Util/ParameterCheck/Agreement.antt =====
-- Both parties' `check_consistency` together.
use petace_set_ops.Base.{String, ◌≡◌, refl, true, false, inl, inr, Bool-cases, if◌then◌else◌}
use petace_set_ops.Net.{disagreement, done, fail}
use mathlib.Core.Path.{subst₂}
use petace_set_ops.Net.Wire.{Wire}
use petace_set_ops.Net.Meet.{Meets, Meets-send_left, Meets-send_right}
use petace_set_ops.Util.ParameterCheck.{Comparable, compare_remote, check_consistency}

module _ {T : Type 0} (c : Comparable T) (w : Wire T) where
  -- The sender's and the receiver's checks meet where each has compared its value with the other's.
  pub check_consistency-Meets :
      (param_name : String) (a b : T)
      → w.Fits a
      → w.Fits b
      → Meets
          (check_consistency c w true param_name a)
          (check_consistency c w false param_name b)
          (compare_remote c param_name a b)
          (compare_remote c param_name b a)
  unfolding check_consistency
  check_consistency-Meets param_name a b ha hb = Meets-send_left _ _ _ _ _ _ (w.length-encode a) (
      Meets-send_right _ _ _ _ _ _ (w.length-encode b)
        (rw (w.decode-encode a ha, w.decode-encode b hb) (0, refl)))

  -- the comparison's outcome
  compare_remote-if :
      (param_name : String) (a b : T)
      → compare_remote c param_name a b
        ≡ (if c.eq a b then done tt else fail (disagreement param_name))
  unfolding compare_remote
  compare_remote-if param_name a b = elim (Bool-cases (c.eq a b)) [
    | inl e ↦ rw e refl
    | inr e ↦ rw e refl
  ]

  -- For values that the connection transmits, the two checks meet where each party has returned if
  -- its test finds its own value equal to the other's, and has thrown the disagreement if not.
  pub check_consistency-verdict :
      (param_name : String) (a b : T)
      → w.Fits a
      → w.Fits b
      → Meets
          (check_consistency c w true param_name a)
          (check_consistency c w false param_name b)
          (if c.eq a b then done tt else fail (disagreement param_name))
          (if c.eq b a then done tt else fail (disagreement param_name))
  check_consistency-verdict param_name a b ha hb =
      subst₂
        (Meets (check_consistency c w true param_name a) (check_consistency c w false param_name b))
        (compare_remote-if param_name a b) (compare_remote-if param_name b a)
        (check_consistency-Meets param_name a b ha hb)
