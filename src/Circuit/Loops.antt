-- ===== src/Circuit/Loops.antt =====
-- A row of which one element at most counts.
use Prim.Native.Nat.{bit_xor}
use petace_set_ops.Base.{
  ℕ, zero, suc, ◌+◌, ◌%◌, ◌^◌, ◌≤◌, ◌<◌, ◌≡◌, ◌≢◌, refl, ap, ◌∙◌, Bool, true, false, arith,
  Bool-cases, inl, inr, if◌then◌else◌, ℕ_discrete,
}
use petace_set_ops.Circuit.Tables.{xor_loop, sum_loop}

-- The loops of `xor_loop` and `sum_loop`, with the operation as an argument.
module _ (op : ℕ → ℕ → ℕ) where
  fold_loop : (ℕ → ℕ) → ℕ → ℕ → ℕ → ℕ
  fold_loop f zero j acc = acc
  fold_loop f (suc rounds) j acc = fold_loop f rounds (j + 1) (op acc (f j))

  fold_none :
      (f : ℕ → ℕ) (n i acc : ℕ)
      → op acc 0 ≡ acc
      → ((k : ℕ) → i ≤ k → k < i + n → f k ≡ 0)
      → fold_loop f n i acc ≡ acc
  unfolding fold_loop
  fold_none f zero i acc e h = refl
  fold_none f (suc n) i acc e h =
      ap (fold_loop f n (i + 1)) (ap (op acc) (h i (omega arith) (omega arith)) ∙ e)
      ∙ fold_none f n (i + 1) acc e (λ k le lt. h k (omega arith) (omega arith))

  fold_one :
      (f : ℕ → ℕ) (n i j acc : ℕ)
      → op acc 0 ≡ acc
      → op (op acc (f j)) 0 ≡ op acc (f j)
      → i ≤ j
      → j < i + n
      → ((k : ℕ) → i ≤ k → k < i + n → k ≢ j → f k ≡ 0)
      → fold_loop f n i acc ≡ op acc (f j)
  unfolding fold_loop
  fold_one f zero i j acc e e' le lt h = absurd (omega arith)
  fold_one f (suc n) i j acc e e' le lt h = elim (ℕ_discrete i j) [
    | yes same ↦
        ap (λ k. fold_loop f n (i + 1) (op acc (f k))) same
        ∙ fold_none f n (i + 1) (op acc (f j)) e'
            (λ k le' lt'. h k (omega arith) (omega arith) (λ s. omega (arith, s, same, le')))
    | no ne ↦
        ap (fold_loop f n (i + 1)) (ap (op acc) (h i (omega arith) (omega arith) ne) ∙ e)
        ∙ fold_one f n (i + 1) j acc e e' (omega arith) (omega arith)
            (λ k le' lt'. h k (omega arith) (omega arith))
  ]

xor_loop-fold : (f : ℕ → ℕ) (n i acc : ℕ) → xor_loop f n i acc ≡ fold_loop bit_xor f n i acc
unfolding xor_loop fold_loop
xor_loop-fold f zero i acc = refl
xor_loop-fold f (suc n) i acc = xor_loop-fold f n (i + 1) (bit_xor acc (f i))

abbrev add_word : ℕ → ℕ → ℕ
add_word a b = (a + b) % 2 ^ 64

sum_loop-fold : (f : ℕ → ℕ) (n i acc : ℕ) → sum_loop f n i acc ≡ fold_loop add_word f n i acc
unfolding sum_loop fold_loop
sum_loop-fold f zero i acc = refl
sum_loop-fold f (suc n) i acc = sum_loop-fold f n (i + 1) (add_word acc (f i))

module _ (chosen : ℕ → Bool) where
  left_out : (k x : ℕ) → chosen k ≡ false → (if chosen k then x else 0) ≡ 0
  left_out k x h = rw h refl

  taken : (k x : ℕ) → chosen k ≡ true → (if chosen k then x else 0) ≡ x
  taken k x h = rw h refl

  not_chosen : (j k : ℕ) → (chosen k ≡ true → k ≡ j) → k ≢ j → chosen k ≡ false
  not_chosen j k only ne = elim (Bool-cases (chosen k)) [ inl e ↦ absurd (ne (only e)) | inr e ↦ e ]

  pub xor_loop_one :
      (n j : ℕ)
      → j < n
      → chosen j ≡ true
      → ((k : ℕ) → k < n → chosen k ≡ true → k ≡ j)
      → xor_loop (λ k. if chosen k then 1 else 0) n 0 0 ≡ 1
  xor_loop_one n j lt h only =
      let one = taken j 1 h in
      xor_loop-fold _ n 0 0
      ∙ fold_one bit_xor (λ k. if chosen k then 1 else 0) n 0 j 0 refl (rw one refl) (omega arith)
          (omega arith) (λ k _ lt' ne. left_out k 1 (not_chosen j k (only k (omega arith)) ne))
      ∙ ap (bit_xor 0) one

  pub sum_loop_one :
      (f : ℕ → ℕ) (n j : ℕ)
      → j < n
      → chosen j ≡ true
      → ((k : ℕ) → k < n → chosen k ≡ true → k ≡ j)
      → sum_loop (λ k. if chosen k then f k else 0) n 0 0 ≡ f j % 2 ^ 64
  sum_loop_one f n j lt h only =
      sum_loop-fold _ n 0 0
      ∙ fold_one add_word (λ k. if chosen k then f k else 0) n 0 j 0 refl (omega arith)
          (omega arith) (omega arith)
          (λ k _ lt' ne. left_out k (f k) (not_chosen j k (only k (omega arith)) ne))
      ∙ ap (λ x. (0 + x) % 2 ^ 64) (taken j (f j) h)
      ∙ omega arith

  pub xor_loop_none :
      (n : ℕ)
      → ((k : ℕ) → k < n → chosen k ≡ false)
      → xor_loop (λ k. if chosen k then 1 else 0) n 0 0 ≡ 0
  xor_loop_none n none_there =
      xor_loop-fold _ n 0 0
      ∙ fold_none bit_xor (λ k. if chosen k then 1 else 0) n 0 0 refl
          (λ k _ lt. left_out k 1 (none_there k (omega arith)))

  pub sum_loop_none :
      (f : ℕ → ℕ) (n : ℕ)
      → ((k : ℕ) → k < n → chosen k ≡ false)
      → sum_loop (λ k. if chosen k then f k else 0) n 0 0 ≡ 0
  sum_loop_none f n none_there =
      sum_loop-fold _ n 0 0
      ∙ fold_none add_word (λ k. if chosen k then f k else 0) n 0 0 refl
          (λ k _ lt. left_out k (f k) (none_there k (omega arith)))
