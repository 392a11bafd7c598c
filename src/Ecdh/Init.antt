-- ===== src/Ecdh/Init.antt =====
-- `init` on both sides: the parameters are compared, then the flags are exchanged.
use petace_set_ops.Base.{
  ℕ, ◌^◌, ◌<◌, ◌≡◌, ◌≢◌, ◌⊎◌, inl, inr, refl, sym, ◌∙◌, ℕ_discrete, Bool, true, false, arith, ◌==◌,
  if◌then◌else◌,
}
use petace_set_ops.Net.{Error, check_failed, disagreement, Proc, done, fail, ◌>>◌}
use petace_set_ops.Net.Run.{joined}
use petace_set_ops.Net.Wire.{int32, bool}
use petace_set_ops.Net.Meet.{
  Meets, Meets-bind, Meets-onward, Meets-send_left, Meets-send_right, Reach-trans,
}
use petace_set_ops.Util.ParameterCheck.{compare_remote, check_equal}
use petace_set_ops.Util.ParameterCheck.Agreement.{check_consistency-Meets}
use petace_set_ops.Util.ParameterCheck.{int_tests}
use petace_set_ops.Ecdh.{Ecc, Params, the_curve_id, check_params, exchange_flags, init}
use petace_set_ops.Ecdh.Party.{sender, receiver}

-- The exception that a party throws whose curve is `c` where the peer's is `d`.
abbrev pub refusal : ℕ → ℕ → Error
refusal c d = if c == d then check_failed "curve_id" else disagreement "ecc_curve_id"

-- what a party has decided when the curves are compared
abbrev checked : ℕ → ℕ → Proc (Unit {0})
checked c d =
    compare_remote int_tests "ecc_curve_id" c d >> check_equal int_tests "curve_id" c the_curve_id

checked-done : (c d : ℕ) → c ≡ the_curve_id → d ≡ the_curve_id → checked c d ≡ done tt
unfolding compare_remote check_equal
checked-done c d h k = rw (h, k)

checked-fail : (c d : ℕ) → (c ≢ d) ⊎ (c ≢ the_curve_id) → checked c d ≡ fail (refusal c d)
unfolding compare_remote check_equal
checked-fail c d h = ground arith

check_params-Meets :
    (c d : ℕ) (a b : Bool)
    → c < 2 ^ 32
    → d < 2 ^ 32
    → Meets
        (check_params (record { is_sender = true; curve_id = c; obtain_result = a }))
        (check_params (record { is_sender = false; curve_id = d; obtain_result = b }))
        (checked c d)
        (checked d c)
unfolding check_params
check_params-Meets c d a b hc hd =
    Meets-onward _ _ _ _ _ _ (check_consistency-Meets int_tests int32 "ecc_curve_id" c d hc hd)

exchange_flags-Meets :
    (a b : Bool) → Meets (exchange_flags true a) (exchange_flags false b) (done b) (done a)
unfolding exchange_flags
exchange_flags-Meets a b = Meets-send_left _ _ _ _ _ _ (bool.length-encode a) (
    Meets-send_right _ _ _ _ _ _ (bool.length-encode b)
      (rw (bool.decode-encode a tt, bool.decode-encode b tt) (0, refl)))

module _ (ecc : Ecc) (sk_s sk_r : ecc.SecretKey) (a b : Bool) (c d : ℕ) where
  abbrev pub params_s : Params
  params_s = record { is_sender = true; curve_id = c; obtain_result = a }

  abbrev pub params_r : Params
  params_r = record { is_sender = false; curve_id = d; obtain_result = b }

  -- With the one supported curve on both sides the two objects know of each other who obtains the
  -- result.
  pub init-Meets :
      c ≡ the_curve_id
      → d ≡ the_curve_id
      → Meets
          (init ecc sk_s params_s)
          (init ecc sk_r params_r)
          (done (sender ecc sk_s sk_r a b))
          (done (receiver ecc sk_s sk_r a b))
  unfolding init
  init-Meets hc hd =
      Meets-bind _ _ _ _ tt tt _ _
        (Reach-trans _ _ _ (check_params-Meets c d a b (omega arith) (omega arith))
          (0, λ i. joined (checked-done c d hc hd i) (checked-done d c hd hc i)))
        (Meets-bind (λ x. done (sender ecc sk_s sk_r a x)) (λ x. done (receiver ecc sk_s sk_r x b))
          _ _ b a _ _ (exchange_flags-Meets a b) (0, refl))

  -- Otherwise both throw: for different curves since they disagree, for one that is not supported
  -- since it is refused.
  pub init_refused-Meets :
      c < 2 ^ 32
      → d < 2 ^ 32
      → (c ≢ d) ⊎ (c ≢ the_curve_id)
      → Meets
          (init ecc sk_s params_s)
          (init ecc sk_r params_r)
          (fail (refusal c d))
          (fail (refusal d c))
  unfolding init
  init_refused-Meets hc hd h = Meets-onward _ _ _ _ _ _ (
      Reach-trans _ _ _ (check_params-Meets c d a b hc hd)
        (0, λ i. joined (checked-fail c d h i) (checked-fail d c (other h) i)))
    where
      other : (c ≢ d) ⊎ (c ≢ the_curve_id) → (d ≢ c) ⊎ (d ≢ the_curve_id)
      other (inl ne) = inl (λ e. ne (sym e))
      other (inr ne) = elim (ℕ_discrete d c) [ yes e ↦ inr (λ k. ne (sym e ∙ k)) | no e ↦ inl e ]
