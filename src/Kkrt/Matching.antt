-- ===== src/Kkrt/Matching.antt =====
-- Which keys the receiver of KKRT-PSI marks.
use mathlib.Core.List.{Mem, mem-cons, mem-cons_self, mem-cons_of_mem, not-mem-nil}
use mathlib.Core.Logic.Or
use mathlib.Core.Bool.{Bool-set}
use petace_set_ops.Base.{
  ℕ, zero, suc, ◌+◌, ◌*◌, ◌<◌, ◌≤◌, ◌≡◌, ◌↔◌, ◌⊎◌, inl, inr, refl, sym, ap, ◌∙◌, subst, List, [],
  ◌∷◌, Bool, true, false, arith, Bytes, ℕ_discrete, ◌||◌, length, get_or, set, take, drop,
  replicate, length-set, length-replicate, get_or-set_self, get_or-set_ne, Bool-cases,
  if◌then◌else◌,
}
use petace_set_ops.Kkrt.Tables.{
  CuckooTable, Verse, eq_bytes, find_mask, reduce, bin_matches, match_loop,
}

pub eq_bytes-eq : (a b : Bytes) → eq_bytes a b ≡ true → a ≡ b
unfolding eq_bytes
eq_bytes-eq [] [] h = refl
eq_bytes-eq [] (y ∷ b) h = cc
eq_bytes-eq (x ∷ a) [] h = cc
eq_bytes-eq (x ∷ a) (y ∷ b) h =
    let heads : x ≡ y = ground arith in
    let tails : eq_bytes a b ≡ true = ground arith in λ i. heads i ∷ eq_bytes-eq a b tails i

pub eq_bytes_self : (a : Bytes) → eq_bytes a a ≡ true
unfolding eq_bytes
eq_bytes_self [] = refl
eq_bytes_self (x ∷ a) = ground (arith, eq_bytes_self a)

-- The search finds exactly the masks that are listed.
pub find_mask-Mem :
    (masks : List Bytes) (mask : Bytes) → (find_mask masks mask ≡ true) ↔ Mem mask masks
unfolding find_mask
find_mask-Mem [] mask = (λ h. cc, λ m. absurd (not-mem-nil m))
find_mask-Mem (x ∷ masks) mask = (
  λ h. elim (Bool-cases (eq_bytes x mask)) [
    | inl e ↦ subst (λ y. Mem y (x ∷ masks)) (eq_bytes-eq x mask e) mem-cons_self
    | inr e ↦ mem-cons_of_mem x ((find_mask-Mem masks mask).0 (rw e at h))
  ],
  λ m.
      Or.elim (Bool-set _ _) (mem-cons.0 m)
        (λ same.
          ap (λ y. eq_bytes x y || find_mask masks y) same
          ∙ ap (λ b. b || find_mask masks x) (eq_bytes_self x))
        (λ listed. ground (arith, (find_mask-Mem masks mask).1 listed)),
)

get_or-replicate : (n j : ℕ) → get_or (replicate n false) j false ≡ false
get_or-replicate zero j = refl
get_or-replicate (suc n) zero = refl
get_or-replicate (suc n) (suc j) = get_or-replicate n j

module _ (verse : Verse) (table : CuckooTable) (num_of_fun n : ℕ) (masks : List verse.Block)
    (unpacked : List Bytes) where
  abbrev matches : ℕ → Bool
  matches = bin_matches verse table num_of_fun n masks unpacked

  abbrev flags_of : ℕ → ℕ → List Bool → ℕ → List Bool
  flags_of rounds idx flags count =
      (match_loop verse table num_of_fun n masks unpacked rounds idx flags count).0

  -- A bin of the loop that matches and holds item j.
  abbrev Hit : ℕ → ℕ → ℕ → Type 0
  Hit rounds idx j =
      (i : ℕ) × (idx ≤ i) × (i < idx + rounds) × (matches i ≡ true) × (get_or table.ids i 0 ≡ j)

  step_hit :
      (rounds idx : ℕ) (flags : List Bool) (count : ℕ)
      → matches idx ≡ true
      → flags_of (suc rounds) idx flags count
        ≡ flags_of rounds (idx + 1) (set flags (get_or table.ids idx 0) true) (count + 1)
  unfolding match_loop
  step_hit rounds idx flags count e i =
      flags_of rounds (idx + 1) (if e i then set flags (get_or table.ids idx 0) true else flags)
        (if e i then count + 1 else count)

  step_miss :
      (rounds idx : ℕ) (flags : List Bool) (count : ℕ)
      → matches idx ≡ false
      → flags_of (suc rounds) idx flags count ≡ flags_of rounds (idx + 1) flags count
  unfolding match_loop
  step_miss rounds idx flags count e i =
      flags_of rounds (idx + 1) (if e i then set flags (get_or table.ids idx 0) true else flags)
        (if e i then count + 1 else count)

  marks_sound :
      (rounds idx : ℕ) (flags : List Bool) (count j : ℕ)
      → get_or (flags_of rounds idx flags count) j false ≡ true
      → (get_or flags j false ≡ true) ⊎ Hit rounds idx j
  unfolding match_loop
  marks_sound zero idx flags count j h = inl h
  marks_sound (suc rounds) idx flags count j h = elim (Bool-cases (matches idx)) [
    | inl e ↦
        elim (marks_sound rounds (idx + 1) (set flags (get_or table.ids idx 0) true) (count + 1) j
          (subst (λ w. get_or w j false ≡ true) (step_hit rounds idx flags count e) h)) [
            | inl old ↦ elim (ℕ_discrete (get_or table.ids idx 0) j) [
              | yes same ↦ inr (idx, omega arith, omega arith, e, same)
              | no other ↦
                  inl (sym (get_or-set_ne flags (get_or table.ids idx 0) j true false other) ∙ old)
            ]
            | inr (i, above, below, m, at) ↦ inr (i, omega arith, omega arith, m, at)
          ]
    | inr e ↦
        elim (marks_sound rounds (idx + 1) flags count j
          (subst (λ w. get_or w j false ≡ true) (step_miss rounds idx flags count e) h)) [
            | inl old ↦ inl old
            | inr (i, above, below, m, at) ↦ inr (i, omega arith, omega arith, m, at)
          ]
  ]

  still_marked :
      (flags : List Bool) (k j : ℕ)
      → j < length flags
      → get_or flags j false ≡ true
      → get_or (set flags k true) j false ≡ true
  still_marked flags k j lt h = elim (ℕ_discrete k j) [
    | yes same ↦
        subst (λ k. get_or (set flags k true) j false ≡ true) (sym same)
          (get_or-set_self flags j true false lt)
    | no other ↦ get_or-set_ne flags k j true false other ∙ h
  ]

  marks_complete :
      (rounds idx : ℕ) (flags : List Bool) (count j : ℕ)
      → j < length flags
      → (get_or flags j false ≡ true) ⊎ Hit rounds idx j
      → get_or (flags_of rounds idx flags count) j false ≡ true
  unfolding match_loop
  marks_complete zero idx flags count j lt (inl h) = h
  marks_complete zero idx flags count j lt (inr (i, above, below, m, at)) = absurd (omega arith)
  marks_complete (suc rounds) idx flags count j lt h = elim (Bool-cases (matches idx)) [
    | inl e ↦
        ap (λ w. get_or w j false) (step_hit rounds idx flags count e)
        ∙ (marks_complete rounds (idx + 1) (set flags (get_or table.ids idx 0) true) (count + 1) j
            (omega (arith, length-set flags (get_or table.ids idx 0) true))
            (elim h [
              | inl old ↦ inl (still_marked flags (get_or table.ids idx 0) j lt old)
              | inr (i, above, below, m, at) ↦ elim (ℕ_discrete idx i) [
                | yes here ↦ inl (
                    subst (λ k. get_or (set flags k true) j false ≡ true)
                      (sym (ap (λ k. get_or table.ids k 0) here ∙ at))
                      (get_or-set_self flags j true false lt))
                | no later ↦ inr (i, omega arith, omega arith, m, at)
              ]
            ]))
    | inr e ↦
        ap (λ w. get_or w j false) (step_miss rounds idx flags count e)
        ∙ (marks_complete rounds (idx + 1) flags count j lt (elim h [
          | inl old ↦ inl old
          | inr (i, above, below, m, at) ↦ elim (ℕ_discrete idx i) [
            | yes here ↦ (let wrong : true ≡ false = sym m ∙ sym (ap matches here) ∙ e in absurd cc)
            | no later ↦ inr (i, omega arith, omega arith, m, at)
          ]
        ]))
  ]

  -- What it is for the receiver to find item j of `bins` bins: some bin holds it, put there by one of
  -- the functions, and the bin's reduced mask stands in the row that the sender sent for this function.
  abbrev pub Found : ℕ → ℕ → Type 0
  Found bins j =
      (i : ℕ) × (i < bins)
      × (get_or table.ids i 0 ≡ j)
      × (get_or table.function_ids i 0 < num_of_fun)
      × Mem (reduce verse (get_or masks i verse.zero_block))
          (take n (drop (get_or table.function_ids i 0 * n) unpacked))

  matches-Found : (bins j : ℕ) → Hit bins 0 j ↔ Found bins j
  unfolding bin_matches
  matches-Found bins j = (
    λ (i, above, below, m, at).
        (i, omega arith, at, ground arith, (find_mask-Mem _ _).0 (ground arith)),
    λ (i, below, at, known, listed).
        (i, omega arith, omega arith, ground (arith, (find_mask-Mem _ _).1 listed), at),
  )

  -- After the matching loop over all bins, item j of the receiver, j being below the number of bins,
  -- is marked exactly if some bin holds it, put there by one of the hash functions, and the reduced
  -- mask of this bin stands in the row that the sender sent for this function.
  pub match_loop-Found :
      (bins j : ℕ)
      → j < bins
      → (get_or
            (match_loop verse table num_of_fun n masks unpacked bins 0 (replicate bins false) 0).0
            j
            false
          ≡ true)
        ↔ Found bins j
  match_loop-Found bins j lt = (
    λ h. elim (marks_sound bins 0 (replicate bins false) 0 j h) [
      | inl old ↦ (let wrong : true ≡ false = sym old ∙ get_or-replicate bins j in absurd cc)
      | inr hit ↦ (matches-Found bins j).0 hit
    ],
    λ found.
        marks_complete bins 0 (replicate bins false) 0 j
          (omega (arith, length-replicate bins false)) (inr ((matches-Found bins j).1 found)),
  )
