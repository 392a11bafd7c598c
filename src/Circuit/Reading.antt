-- ===== src/Circuit/Reading.antt =====
-- What the receiver of circuit PSI reads in the sender's filter, whatever value it has.
use mathlib.Core.List.{flatten}
use Prim.Native.Nat.{bit_xor}
use petace_set_ops.Base.{
  ℕ, zero, suc, ◌+◌, ◌-◌, ◌*◌, ◌%◌, ◌^◌, ◌≤◌, ◌<◌, ◌≡◌, ◌≢◌, ◌⊎◌, inl, inr, sym, ap, ◌∙◌, List, [],
  ◌∷◌, ◌++◌, Bool, true, false, arith, Bytes, length, length-append, get_or, get_or-append_left,
  get_or-append_right, ltb, ltb→lt, ◌==◌, Bool-cases, if◌then◌else◌,
}
use petace_set_ops.Circuit.Tables.{
  Hashing, tabulate, at_key, filter_loop, pads_of, mask_at, hint, open_hints,
}
use petace_set_ops.Circuit.{local_table}
use petace_set_ops.Circuit.Words.{pad_loop_last, get_or-tabulate}
use petace_set_ops.Circuit.Locate.{At, IndexFits, locate_bins-At}
use petace_set_ops.Circuit.Masks.{encoded_mask}
use petace_set_ops.Circuit.Joint.{
  Inputs, bins, hint_num, simple_values, hint_table, key_table, table_loc, contents, addresses,
  x_masks, y_mask, garbled, opened, agrees,
}
use petace_set_ops.Circuit.Hints.{HashingLaws, y_mask_value}

-- What else is relied on of the tables: the bins that the functions give are in range, and a bin that is
-- taken holds an item that was inserted, under one of the functions.
pub record TakenLaws (hashing : Hashing) (laws : HashingLaws hashing) : Type 0 where
  pub within :
      (n : ℕ) (seed : Bytes) (m : ℕ) (v : Bytes) (j : ℕ)
      → 0 < n
      → j < m
      → laws.address n seed m v j < n
  pub inserted :
      (n : ℕ) (seed : Bytes) (m : ℕ) (items : List Bytes) (p : ℕ)
      → (hashing.cuckoo_table n seed m items).stash_size ≡ 0
      → p < n
      → get_or (hashing.cuckoo_table n seed m items).occupancy p false ≡ true
      → (get_or (hashing.cuckoo_table n seed m items).function_ids p 0 < m)
        × ((t : ℕ) × (t < length items)
            × (get_or items t [] ≡ get_or (hashing.cuckoo_table n seed m items).source_values p []))

-- An element of the joined bins is an entry of one of them.
At-flatten :
    (values : List (List Bytes)) (k : ℕ)
    → k < length (flatten values)
    → (b : ℕ) × (t : ℕ) × At values (get_or (flatten values) k []) b t
unfolding flatten
At-flatten [] k lt = elim lt [ ]
At-flatten (entries ∷ values) k lt = elim (Bool-cases (ltb k (length entries))) [
  | inl e ↦
      let in_b = ltb→lt k (length entries) e in
      (0, k, (omega arith, in_b, sym (get_or-append_left entries (flatten values) k [] in_b)))
  | inr e ↦
      let past : length entries ≤ k = ground (arith, e) in
      let split : length entries + (k - length entries) ≡ k = omega (arith, past) in
      let (b, t, (lb, in_b, same)) =
        At-flatten values (k - length entries)
          (omega (arith, lt, past, length-append entries (flatten values))) in
      (
        suc b,
        t,
        (
          omega arith,
          in_b,
          same
              ∙ sym (get_or-append_right entries (flatten values) (k - length entries) [])
              ∙ ap (λ n. get_or (entries ++ flatten values) n []) split,
        ),
      )
]

-- Each word of a filter is the value of a bin that is taken, or a fresh word.
filter_loop-cases :
    (own : ℕ → ℕ) (occupancy : List Bool) (value : ℕ → ℕ) (n i pos k : ℕ)
    → k < n
    → ((get_or occupancy (i + k) false ≡ true)
        × (get_or (filter_loop own occupancy value n i pos).0 k 0 ≡ value (i + k)))
      ⊎ ((q : ℕ) × (pos ≤ q)
          × (q < pos + n)
          × (get_or (filter_loop own occupancy value n i pos).0 k 0 ≡ own q))
unfolding filter_loop
filter_loop-cases own occupancy value zero i pos k lt = elim lt [ ]
filter_loop-cases own occupancy value (suc n) i pos zero lt =
    let here : i ≡ i + 0 = omega arith in
    elim (Bool-cases (get_or occupancy i false)) [
      | inl e ↦ inl (
        ap (λ b. get_or occupancy b false) (sym here) ∙ e,
        ap (λ b. if b then value i else own pos) e ∙ ap value here,
      )
      | inr e ↦ inr (pos, omega arith, omega arith, ap (λ b. if b then value i else own pos) e)
    ]
filter_loop-cases own occupancy value (suc n) i pos (suc k) lt =
    let next : i + 1 + k ≡ i + suc k = omega arith in
    let pos' = if get_or occupancy i false then pos else pos + 1 in
    let (le, le') = moved (get_or occupancy i false) pos in
    elim (filter_loop-cases own occupancy value n (i + 1) pos' k (omega arith)) [
      | inl (taken, e) ↦
          inl (ap (λ b. get_or occupancy b false) (sym next) ∙ taken, e ∙ ap value next)
      | inr (q, lq, lq', e) ↦ inr (q, omega (arith, le, lq), omega (arith, le', lq'), e)
    ]
  where
    moved :
        (b : Bool) (pos : ℕ)
        → (pos ≤ (if b then pos else pos + 1)) × ((if b then pos else pos + 1) ≤ pos + 1)
    moved true pos = (omega arith, omega arith)
    moved false pos = (omega arith, omega arith)

module _ (inputs : Inputs) (key : inputs.verse.Key) where
  open inputs use {verse, pads, num_of_fun_hint, own}

  -- The pads of value v in bin i.
  abbrev pub pads_at : ℕ → Bytes → ℕ → ℕ
  pads_at i v = pads_of verse pads (verse.encode key i (verse.block_of_bytes v))

  abbrev pub value_at : ℕ → Bytes
  value_at i = get_or (key_table inputs).values i []

  -- Under the pads of the receiver's value of bin i, neither the content of a bin that is hidden under the
  -- pads of an entry of the sender's in that bin, nor a fresh word of the filter, has the 62 low bits of
  -- the content of bin i.
  abbrev pub NoAccident : ℕ → Type 0
  NoAccident i =
      ((w : Bytes) (b t g j : ℕ)
        → At (simple_values inputs) w b t
        → g < num_of_fun_hint
        → j < num_of_fun_hint
        → bit_xor (bit_xor (get_or (contents inputs) b 0) (pads_at b w g))
              (pads_at i (value_at i) j)
            % 2 ^ 62
          ≢ get_or (contents inputs) i 0 % 2 ^ 62)
      × ((q j : ℕ)
          → bins inputs ≤ q
          → q < bins inputs + hint_num inputs
          → j < num_of_fun_hint
          → bit_xor (own q) (pads_at i (value_at i) j) % 2 ^ 62
            ≢ get_or (contents inputs) i 0 % 2 ^ 62)

  module _ (laws : HashingLaws inputs.hashing) (taken_laws : TakenLaws inputs.hashing laws)
      (fits : IndexFits (simple_values inputs)) (no_stash : (hint_table inputs).stash_size ≡ 0)
      (some_bin : 0 < hint_num inputs) where
    -- What the receiver reads in bin i under function j.
    read_word :
        (i j : ℕ)
        → i < bins inputs
        → i < length (key_table inputs).values
        → j < num_of_fun_hint
        → get_or (get_or (opened inputs key) i []) j 0
          ≡ bit_xor
              (get_or
                (garbled inputs key).0
                (laws.address (hint_num inputs) inputs.hint_seed num_of_fun_hint (value_at i) j)
                0)
              (pads_at i (value_at i) j)
    unfolding open_hints
    read_word i j hi hv hj =
        let words = (garbled inputs key).0 in
        let entry : ℕ → ℕ → ℕ = λ i j.
          bit_xor (get_or words (get_or (addresses inputs) (i * num_of_fun_hint + j) 0) 0)
            (pads_of verse pads (y_mask inputs key i) j) in
        let plain_i : 0 + i ≡ i = omega arith in
        let plain_j : 0 + j ≡ j = omega arith in
        ap (λ r. get_or r j 0)
          (get_or-tabulate (bins inputs) 0 (λ i. tabulate num_of_fun_hint 0 (entry i)) i [] hi)
        ∙ get_or-tabulate num_of_fun_hint 0 (entry (0 + i)) j 0 hj
        ∙ (λ k. entry (plain_i k) (plain_j k))
        ∙ (λ k.
            bit_xor
              (get_or words
                (laws.addressed (hint_num inputs) inputs.hint_seed num_of_fun_hint
                  (key_table inputs).values i j hv hj k)
                0)
              (pads_of verse pads (y_mask_value inputs laws key i hv k) j))

    -- The value of a bin of the filter that is taken is a content under the pads of an entry.
    hint_value :
        (p : ℕ)
        → p < hint_num inputs
        → get_or (hint_table inputs).occupancy p false ≡ true
        → (w : Bytes) × (b : ℕ) × (t : ℕ) × (g : ℕ) × At (simple_values inputs) w b t
          × (g < num_of_fun_hint)
          × (hint verse pads
                (hint_table inputs)
                (table_loc inputs)
                (x_masks inputs key)
                (contents inputs)
                p
              ≡ bit_xor (get_or (contents inputs) b 0) (pads_at b w g))
    unfolding hint local_table
    hint_value p lt taken =
        let (lg, (k, lk, source)) =
          taken_laws.inserted (hint_num inputs) inputs.hint_seed num_of_fun_hint
            (flatten (simple_values inputs)) p no_stash lt taken in
        let w = get_or (flatten (simple_values inputs)) k [] in
        let g = get_or (hint_table inputs).function_ids p 0 in
        let (b0, t0, at0) = At-flatten (simple_values inputs) k lk in
        let (b, t, at_b, found) = locate_bins-At w (simple_values inputs) b0 t0 fits at0 in
        let plain_b : 0 + b ≡ b = omega arith in
        let plain_g : 0 + g ≡ g = omega arith in
        let at_place : at_key (0, 0) (get_or (hint_table inputs).source_values p [])
              (table_loc inputs)
            ≡ (b, t) =
          ap (λ x. at_key (0, 0) x (table_loc inputs)) (sym source) ∙ found in
        let mask : mask_at verse pads (x_masks inputs key) (b, t)
            ≡ verse.encode key b (verse.block_of_bytes w) =
          encoded_mask verse pads key 0 (simple_values inputs) w b t at_b
          ∙ ap (λ n. verse.encode key n (verse.block_of_bytes w)) plain_b in
        (
          w,
          b,
          t,
          g,
          at_b,
          lg,
          (λ s. bit_xor (get_or (contents inputs) (at_place s).0 0) (
                pad_loop_last
                  (pads_of verse pads (mask_at verse pads (x_masks inputs key) (at_place s))) g 0 0
                  s))
              ∙ (λ s.
                  bit_xor (get_or (contents inputs) b 0) (pads_of verse pads (mask s) (plain_g s))),
        )

    pub agrees-false :
        (i j : ℕ)
        → i < bins inputs
        → i < length (key_table inputs).values
        → NoAccident i
        → j < num_of_fun_hint
        → agrees inputs key i j ≡ false
    agrees-false i j hi hv (entries_apart, words_apart) hj =
        let p = laws.address (hint_num inputs) inputs.hint_seed num_of_fun_hint (value_at i) j in
        let lp =
          taken_laws.within (hint_num inputs) inputs.hint_seed num_of_fun_hint (value_at i) j
            some_bin hj in
        let plain : 0 + p ≡ p = omega arith in
        let read = read_word i j hi hv hj in
        let pad = pads_at i (value_at i) j in
        elim (filter_loop-cases own (hint_table inputs).occupancy
          (hint verse pads (hint_table inputs) (table_loc inputs) (x_masks inputs key)
            (contents inputs))
          (hint_num inputs) 0 (bins inputs) p lp) [
            | inl (taken, e) ↦
                let (w, b, t, g, at_b, lg, hidden) =
                  hint_value p lp
                    (ap (λ n. get_or (hint_table inputs).occupancy n false) (sym plain) ∙ taken) in
                differ _ _ (λ same. entries_apart w b t g j at_b lg hj (
                  sym (
                    ap (λ n. n % 2 ^ 62)
                      (read
                        ∙ ap (λ n. bit_xor n pad)
                            (e
                              ∙ ap
                                  (hint verse pads (hint_table inputs) (table_loc inputs)
                                    (x_masks inputs key) (contents inputs))
                                  plain
                              ∙ hidden)))
                  ∙ sym same))
            | inr (q, lq, lq', e) ↦ differ _ _ (λ same.
                words_apart q j lq lq' hj
                  (sym (ap (λ n. n % 2 ^ 62) (read ∙ ap (λ n. bit_xor n pad) e)) ∙ sym same))
          ]
      where
        differ : (a b : ℕ) → a ≢ b → (a == b) ≡ false
        differ a b ne = ground arith
