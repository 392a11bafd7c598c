-- ===== src/Circuit/Locate.antt =====
-- What the hash maps of circuit PSI hold: the place of each entry of the simple table.
use petace_set_ops.Base.{
  ℕ, zero, suc, ◌+◌, ◌^◌, ◌≤◌, ◌<◌, ◌≡◌, ◌≢◌, ◌⊎◌, inl, inr, refl, sym, ap, ◌∙◌, List, [], ◌∷◌,
  false, arith, Bytes, length, get_or, Bool-cases, if◌then◌else◌,
}
use petace_set_ops.Kkrt.Tables.{eq_bytes}
use petace_set_ops.Kkrt.Matching.{eq_bytes-eq, eq_bytes_self}
use petace_set_ops.Circuit.Tables.{at_key, assign, as_index, locate_bin, locate_bins}

pub eq_bytes_ne : (a b : Bytes) → a ≢ b → eq_bytes a b ≡ false
eq_bytes_ne a b ne = elim (Bool-cases (eq_bytes a b)) [
  | inl e ↦ absurd (ne (eq_bytes-eq a b e))
  | inr e ↦ e
]

module _ {ℓ} {V : Type ℓ} (d : V) where
  pub at_key-assign_self :
      (key : Bytes) (v : V) (entries : List (Bytes × V)) → at_key d key (assign key v entries) ≡ v
  unfolding at_key assign
  at_key-assign_self key v [] = rw (eq_bytes_self key) refl
  at_key-assign_self key v ((k, w) ∷ entries) = elim (Bool-cases (eq_bytes k key)) [
    | inl e ↦ rw (e, at_key, e) refl
    | inr e ↦ rw (e, at_key, e) (at_key-assign_self key v entries)
  ]

  pub at_key-assign_ne :
      (key other : Bytes) (v : V) (entries : List (Bytes × V))
      → key ≢ other
      → at_key d other (assign key v entries) ≡ at_key d other entries
  unfolding at_key assign
  at_key-assign_ne key other v [] ne = rw (eq_bytes_ne key other ne) refl
  at_key-assign_ne key other v ((k, w) ∷ entries) ne = elim (Bool-cases (eq_bytes k key)) [
    | inl e ↦
        let apart : eq_bytes k other ≡ false =
          eq_bytes_ne k other (λ s. ne (sym (eq_bytes-eq k key e) ∙ s)) in
        rw (e, at_key, apart) refl
    | inr e ↦
        rw e (ap (λ r. if eq_bytes k other then w else r) (at_key-assign_ne key other v entries ne))
  ]

-- Entry `index` of bin `bin` is v.
abbrev pub At : List (List Bytes) → Bytes → ℕ → ℕ → Type 0
At values v bin index =
    (bin < length values)
    × (index < length (get_or values bin []))
    × (get_or (get_or values bin []) index [] ≡ v)

-- The place of v among the entries of a bin is found, or v is not among them.
locate_bin-cases :
    (v : Bytes) (i j : ℕ) (entries : List Bytes) (table_loc : List (Bytes × (ℕ × ℕ)))
    → ((t : ℕ) × (t < length entries)
        × (get_or entries t [] ≡ v)
        × (at_key (0, 0) v (locate_bin i j entries table_loc) ≡ (as_index i, as_index (j + t))))
      ⊎ (((t : ℕ) → t < length entries → get_or entries t [] ≢ v)
          × (at_key (0, 0) v (locate_bin i j entries table_loc) ≡ at_key (0, 0) v table_loc))
unfolding locate_bin
locate_bin-cases v i j [] table_loc = inr ((λ t h. elim h [ ]), refl)
locate_bin-cases v i j (value ∷ entries) table_loc =
    elim (locate_bin-cases v i (j + 1) entries (assign value (as_index i, as_index j) table_loc)) [
      | inl (t, lt, e, found) ↦
          let next : j + 1 + t ≡ j + suc t = omega arith in
          inl (suc t, omega arith, e, found ∙ ap (λ n. (as_index i, as_index n)) next)
      | inr (none_there, same) ↦ elim (Bool-cases (eq_bytes value v)) [
        | inl e ↦
            let here : j ≡ j + 0 = omega arith in
            let is_v : value ≡ v = eq_bytes-eq value v e in
            inl (
              0,
              omega arith,
              is_v,
              same
                  ∙ ap (λ k. at_key (0, 0) v (assign k (as_index i, as_index j) table_loc)) is_v
                  ∙ at_key-assign_self (0, 0) v (as_index i, as_index j) table_loc
                  ∙ ap (λ n. (as_index i, as_index n)) here,
            )
        | inr e ↦
            let ne : value ≢ v =
              λ s. cc (e, sym (eq_bytes_self v) ∙ ap (λ k. eq_bytes k v) (sym s)) in
            inr (
              absent value v entries ne none_there,
              same ∙ at_key-assign_ne (0, 0) value v (as_index i, as_index j) table_loc ne,
            )
      ]
    ]
  where
    absent :
        (value v : Bytes) (entries : List Bytes)
        → value ≢ v
        → ((t : ℕ) → t < length entries → get_or entries t [] ≢ v)
        → (t : ℕ) → t < suc (length entries)
        → get_or (value ∷ entries) t [] ≢ v
    absent value v entries ne h zero lt = ne
    absent value v entries ne h (suc t) lt = h t (omega arith)

locate_bins-cases :
    (v : Bytes) (i : ℕ) (values : List (List Bytes)) (table_loc : List (Bytes × (ℕ × ℕ)))
    → ((b : ℕ) × (t : ℕ) × At values v b t
        × (at_key (0, 0) v (locate_bins i values table_loc) ≡ (as_index (i + b), as_index t)))
      ⊎ (((b t : ℕ) → ¬ (At values v b t))
          × (at_key (0, 0) v (locate_bins i values table_loc) ≡ at_key (0, 0) v table_loc))
unfolding locate_bins
locate_bins-cases v i [] table_loc = inr ((λ b t h. elim h.0 [ ]), refl)
locate_bins-cases v i (entries ∷ values) table_loc =
    elim (locate_bins-cases v (i + 1) values (locate_bin i 0 entries table_loc)) [
      | inl (b, t, (lt, in_b, e), found) ↦
          let next : i + 1 + b ≡ i + suc b = omega arith in
          inl (suc b, t, (omega arith, in_b, e), found ∙ ap (λ n. (as_index n, as_index t)) next)
      | inr (none_there, same) ↦ elim (locate_bin-cases v i 0 entries table_loc) [
        | inl (t, lt, e, found) ↦
            let here : i ≡ i + 0 = omega arith in
            let index : 0 + t ≡ t = omega arith in
            inl (
              0,
              t,
              (omega arith, lt, e),
              same ∙ found ∙ (λ k. (as_index (here k), as_index (index k))),
            )
        | inr (absent, same') ↦ inr (nowhere absent none_there, same ∙ same')
      ]
    ]
  where
    nowhere :
        ((t : ℕ) → t < length entries → get_or entries t [] ≢ v)
        → ((b t : ℕ) → ¬ (At values v b t))
        → (b t : ℕ) → ¬ (At (entries ∷ values) v b t)
    nowhere absent none_there zero t (lt, at_t, e) = absent t at_t e
    nowhere absent none_there (suc b) t (lt, at_t, e) = none_there b t (omega arith, at_t, e)

-- The bins and the places in them can be cast to `int`.
abbrev pub IndexFits : List (List Bytes) → Type 0
IndexFits values = (length values ≤ 2 ^ 31) × ((b : ℕ) → length (get_or values b []) ≤ 2 ^ 31)

as_index_fits : (n : ℕ) → n < 2 ^ 31 → as_index n ≡ n
unfolding as_index
as_index_fits n lt = ground (arith, lt)

-- The map gives a place of each entry of the simple table.
pub locate_bins-At :
    (v : Bytes) (values : List (List Bytes)) (b t : ℕ)
    → IndexFits values
    → At values v b t
    → (b' : ℕ) × (t' : ℕ) × At values v b' t'
      × (at_key (0, 0) v (locate_bins 0 values []) ≡ (b', t'))
locate_bins-At v values b t (few, short) h = elim (locate_bins-cases v 0 values []) [
  | inl (b', t', at_b, found) ↦
      let (lb, lt, _) = at_b in
      let bin : as_index (0 + b') ≡ b' =
        let plain : 0 + b' ≡ b' = omega arith in
        ap as_index plain ∙ as_index_fits b' (omega (arith, lb, few)) in
      let index : as_index t' ≡ t' = as_index_fits t' (omega (arith, lt, short b')) in
      (b', t', at_b, found ∙ (λ k. (bin k, index k)))
  | inr (nowhere, same) ↦ absurd (nowhere b t h)
]
