-- ===== src/Net/Confluence.antt =====
-- The interleaving does not matter: if one leads to a final state, every other is on its way to the
-- same state and ends after the same number of calls.
use petace_set_ops.Base.{
  ℕ, zero, suc, ◌+◌, ◌≤◌, ◌≡◌, refl, sym, ap, subst, ◌∙◌, ◌⊎◌, inl, inr, true, ◌++◌, some, arith,
  Bytes, length, leb, leb→le, le→leb, Bool-cases, length-append, take_append_le, drop_append_le,
}
use petace_set_ops.Net.{Proc, done, fail, send, recv}
use petace_set_ops.Net.Run.{
  Sys, Call, step_proc, after_left, after_right, Step, left_moves, right_moves, Steps, IsFinal,
}

-- Bytes that come later do not change the next call.
step_proc-append {ℓ} :
    {A : Type ℓ} (p : Proc A) (q later : Bytes) (c : Call A)
    → step_proc p q ≡ some c
    → step_proc p (q ++ later) ≡ some (record c { waiting = c.waiting ++ later })
unfolding step_proc
step_proc-append (done a) q later c h = cc
step_proc-append (fail e) q later c h = cc
step_proc-append (send bs k) q later c h = ground arith
step_proc-append (recv n k) q later c h = elim (Bool-cases (leb n (length q))) [
  | inl fits ↦
      let le : n ≤ length q = leb→le n (length q) fits in
      let fits' : leb n (length (q ++ later)) ≡ true =
        le→leb n (length (q ++ later)) (omega (arith, length-append q later)) in
      let e = rw fits at h in
      rw (fits', take_append_le n q later le, drop_append_le n q later le) (ground (arith, e))
  | inr short ↦ absurd (ground (arith, h, short))
]

module _ {ℓ κ} {A : Type ℓ} {B : Type κ} where
  both : (s : Sys A B) (c : Call A) (c' : Call B) → Sys A B
  both s c c' = record {
    left = c.rest;
    right = c'.rest;
    to_left = c.waiting ++ c'.sent;
    to_right = c'.waiting ++ c.sent;
  }

  right_after_left :
      (s : Sys A B) (c : Call A) (c' : Call B)
      → step_proc s.right s.to_right ≡ some c'
      → Step (after_left s c) (both s c c')
  unfolding both
  right_after_left s c c' e =
      right_moves (record c' { waiting = c'.waiting ++ c.sent })
        (step_proc-append s.right s.to_right c.sent c' e) refl

  left_after_right :
      (s : Sys A B) (c : Call A) (c' : Call B)
      → step_proc s.left s.to_left ≡ some c
      → Step (after_right s c') (both s c c')
  unfolding both
  left_after_right s c c' e =
      left_moves (record c { waiting = c.waiting ++ c'.sent })
        (step_proc-append s.left s.to_left c'.sent c e) refl

  -- Two calls that are both possible can follow one another either way.
  diamond :
      {s t u : Sys A B} → Step s t → Step s u → (t ≡ u) ⊎ ((v : Sys A B) × Step t v × Step u v)
  diamond {s} (left_moves c e et) (left_moves c' e' eu) = inl (et ∙ ap (after_left s) (cc) ∙ sym eu)
  diamond {s} (right_moves c e et) (right_moves c' e' eu) =
      inl (et ∙ ap (after_right s) (cc) ∙ sym eu)
  diamond {s} (left_moves c e et) (right_moves c' e' eu) =
      inr (both s c c', rw et (right_after_left s c c' e'), rw eu (left_after_right s c c' e))
  diamond {s} (right_moves c' e' et) (left_moves c e eu) =
      inr (both s c c', rw et (left_after_right s c c' e), rw eu (right_after_left s c c' e'))

  -- The first call of another schedule can be put in front.
  strip :
      (n : ℕ) (s t u : Sys A B)
      → Steps n s t
      → IsFinal t
      → Step s u
      → (m : ℕ) × (n ≡ suc m) × Steps m u t
  strip zero s t u e fin st = absurd (fin u (subst (λ x. Step x u) e st))
  strip (suc n) s t u (s', first, others) fin st = elim (diamond first st) [
    | inl e ↦ (n, refl, subst (λ x. Steps n x t) e others)
    | inr (v, down, across) ↦
        let (m, e, more) = strip n s' t v others fin down in
        (n, refl, subst (λ k. Steps k u t) (sym e) (v, across, more))
  ]

  -- Whatever the scheduler has done so far, the parties can still reach the final state that one
  -- schedule leads to, and no schedule makes more calls than that one.
  pub Reach-confluent :
      (m n : ℕ) (s t u : Sys A B)
      → Steps n s t
      → IsFinal t
      → Steps m s u
      → (k : ℕ) × (m + k ≡ n) × Steps k u t
  Reach-confluent zero n s t u run fin e = (n, omega arith, subst (λ x. Steps n x t) e run)
  Reach-confluent (suc m) n s t u run fin (s', first, others) =
      let (n', e, run') = strip n s t s' run fin first in
      let (k, e', rest) = Reach-confluent m n' s' t u run' fin others in (k, omega arith, rest)
