-- ===== src/Kkrt/Marks.antt =====
-- The marks and the count of the matching loop of KKRT-PSI, and what is collected by them.
use mathlib.Core.List.{Mem, dec_mem}
use mathlib.Core.Logic.{if_pos, if_neg}
use petace_set_ops.Base.{
  ℕ, zero, suc, ◌+◌, ◌≤◌, ◌<◌, ◌≡◌, ◌≢◌, ◌↔◌, refl, ap, ◌∙◌, List, [], ◌∷◌, Bool, true, false,
  arith, Bytes, Bytes-discrete, length, get_or, set, length-set, get_or-set_ne, Bool-cases, inl,
  inr,
}
use petace_set_ops.Psi.Collect.{count_if, select}
use petace_set_ops.Ecdh.Intersection.{those_in}
use petace_set_ops.Kkrt.Tables.{CuckooTable, Verse, bin_matches, match_loop}

-- the number of marks
abbrev pub marks : List Bool → ℕ
marks = count_if (λ b. b)

set_fresh :
    (flags : List Bool) (k : ℕ)
    → k < length flags
    → get_or flags k false ≡ false
    → marks (set flags k true) ≡ suc (marks flags)
unfolding count_if
set_fresh [] k lt h = elim lt [ ]
set_fresh (b ∷ flags) zero lt h = rw h (omega arith)
set_fresh (b ∷ flags) (suc k) lt h = omega (arith, set_fresh flags k (omega arith) h)

module _ (verse : Verse) (table : CuckooTable) (num_of_fun n : ℕ) (masks : List verse.Block)
    (unpacked : List Bytes) where
  abbrev matches : ℕ → Bool
  matches = bin_matches verse table num_of_fun n masks unpacked

  abbrev item : ℕ → ℕ
  item idx = get_or table.ids idx 0

  abbrev loop : ℕ → ℕ → List Bool → ℕ → List Bool × ℕ
  loop = match_loop verse table num_of_fun n masks unpacked

  pub length-match_loop :
      (rounds idx : ℕ) (flags : List Bool) (count : ℕ)
      → length (loop rounds idx flags count).0 ≡ length flags
  unfolding match_loop
  length-match_loop zero idx flags count = refl
  length-match_loop (suc rounds) idx flags count = elim (Bool-cases (matches idx)) [
    | inl e ↦
        rw (e, match_loop)
          (length-match_loop rounds (idx + 1) (set flags (item idx) true) (count + 1)
            ∙ length-set flags (item idx) true)
    | inr e ↦ rw (e, match_loop) (length-match_loop rounds (idx + 1) flags count)
  ]

  -- If each match marks an item of its own that was not marked, the count grows with the marks.
  pub match_loop-marks :
      (rounds idx : ℕ) (flags : List Bool) (count : ℕ)
      → ((i : ℕ) → idx ≤ i → i < idx + rounds → matches i ≡ true → item i < length flags)
      → ((i : ℕ)
          → idx ≤ i
          → i < idx + rounds
          → matches i ≡ true
          → get_or flags (item i) false ≡ false)
      → ((i i' : ℕ)
          → idx ≤ i
          → i < i'
          → i' < idx + rounds
          → matches i ≡ true
          → matches i' ≡ true
          → item i ≢ item i')
      → (loop rounds idx flags count).1 + marks flags
        ≡ marks (loop rounds idx flags count).0 + count
  unfolding match_loop
  match_loop-marks zero idx flags count fits fresh once = omega arith
  match_loop-marks (suc rounds) idx flags count fits fresh once = elim (Bool-cases (matches idx)) [
    | inl e ↦
        let flags' = set flags (item idx) true in
        let grown : marks flags' ≡ suc (marks flags) =
          set_fresh flags (item idx) (fits idx (omega arith) (omega arith) e)
            (fresh idx (omega arith) (omega arith) e) in
        let rest : (loop rounds (idx + 1) flags' (count + 1)).1 + marks flags'
            ≡ marks (loop rounds (idx + 1) flags' (count + 1)).0 + (count + 1) =
          match_loop-marks rounds (idx + 1) flags' (count + 1)
            (λ i le lt m.
              omega (arith, fits i (omega arith) (omega arith) m, length-set flags (item idx) true))
            (λ i le lt m.
              get_or-set_ne flags (item idx) (item i) true false
                (once idx i (omega arith) (omega arith) (omega arith) e m)
              ∙ fresh i (omega arith) (omega arith) m)
            (λ i i' le lt lt'. once i i' (omega arith) lt (omega arith)) in
        rw (e, match_loop) (omega (arith, rest, grown))
    | inr e ↦
        rw (e, match_loop)
          (match_loop-marks rounds (idx + 1) flags count
            (λ i le lt. fits i (omega arith) (omega arith))
            (λ i le lt. fresh i (omega arith) (omega arith))
            (λ i i' le lt lt'. once i i' (omega arith) lt (omega arith)))
  ]

select_nothing : (flags : List Bool) → ◌≡◌ {A = List Bytes} (select flags []) []
unfolding select
select_nothing [] = refl
select_nothing (f ∷ flags) = refl

-- If only keys are marked, as many are selected as there are marks.
pub length-select-marks :
    (flags : List Bool) (keys : List Bytes)
    → ((j : ℕ) → get_or flags j false ≡ true → j < length keys)
    → length (select flags keys) ≡ marks flags
unfolding select count_if
length-select-marks [] keys h = refl
length-select-marks (true ∷ flags) [] h = absurd (omega (arith, h 0 refl))
length-select-marks (false ∷ flags) [] h = omega (
  arith,
  length-select-marks flags [] (λ j m. absurd (omega (arith, h (suc j) m))),
  ap length (select_nothing flags),
)
length-select-marks (true ∷ flags) (key ∷ keys) h =
    omega (arith, length-select-marks flags keys (λ j m. omega (arith, h (suc j) m)))
length-select-marks (false ∷ flags) (key ∷ keys) h =
    omega (arith, length-select-marks flags keys (λ j m. omega (arith, h (suc j) m)))

-- If exactly the keys that are listed are marked, these are selected.
pub select_marked-those_in :
    (listed : List Bytes) (flags : List Bool) (keys : List Bytes)
    → length keys ≤ length flags
    → ((j : ℕ) → j < length keys → (get_or flags j false ≡ true) ↔ Mem (get_or keys j []) listed)
    → select flags keys ≡ those_in (λ key. key) listed keys
unfolding select
select_marked-those_in listed [] [] le h = refl
select_marked-those_in listed (f ∷ flags) [] le h = refl
select_marked-those_in listed [] (key ∷ keys) le h = absurd (omega arith)
select_marked-those_in listed (f ∷ flags) (key ∷ keys) le h =
    let rest =
      select_marked-those_in listed flags keys (omega arith) (λ j lt. h (suc j) (omega arith)) in
    let (to, from) = h 0 (omega arith) in
    elim (Bool-cases f) [
      | inl e ↦ rw (e, if_pos (dec_mem Bytes-discrete key listed) (to e)) (ap (◌∷◌ key) rest)
      | inr e ↦ rw (e, if_neg (dec_mem Bytes-discrete key listed) (λ p. cc (e, from p))) rest
    ]
