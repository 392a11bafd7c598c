-- ===== src/Kkrt/Intersection.antt =====
-- The result of KKRT-PSI is the intersection.
use mathlib.Core.List.{Mem, Perm}
use native.Mathlib.Bridge.{le_prop}
use petace_set_ops.Base.{
  ltb, ltb→lt, ℕ, ◌+◌, ◌*◌, ◌^◌, ◌≤◌, ◌<◌, ◌≡◌, refl, sym, ap, ◌∙◌, subst, List, [], Bool, true,
  false, arith, Bytes, length, length-map, length-replicate, length-resize, get_or, get_or-map,
  get_or-mem, replicate, resize, if◌then◌else◌, Bool-cases, inl, inr,
}
use petace_set_ops.Net.{done}
use petace_set_ops.Net.Run.{Sys, Steps, Reach, joined}
use petace_set_ops.Util.Serialize.{serialize_string_to_char}
use petace_set_ops.Util.Serialize.RoundTrip.{AllLackZero}
use petace_set_ops.Psi.{k_reduce_statistics_len}
use petace_set_ops.Psi.Collect.{collect_loop-select}
use petace_set_ops.Ecdh.Intersection.{those_in}
use petace_set_ops.Kkrt.Tables.{CuckooTable, Solo, Verse, encode_all, reduce, bin_matches}
use petace_set_ops.Kkrt.{sender_data, collect_output, process, process_cardinality_only}
use petace_set_ops.Kkrt.Rows.{Entry}
use petace_set_ops.Kkrt.Slices.{mask_of, get_or-encode_all, slice, slice-sound, slice-complete}
use petace_set_ops.Kkrt.Marks.{
  marks, length-match_loop, match_loop-marks, length-select-marks, select_marked-those_in,
}
use petace_set_ops.Kkrt.Matching.{find_mask-Mem, match_loop-Found}
use petace_set_ops.Kkrt.Phases.{VerseLaws, sender, receiver, cuckoo_of, blocks_of, matched}
use petace_set_ops.Kkrt.Process.{found_keys, process_same_result, cardinality_same_result}
use petace_set_ops.Kkrt.Contract.{
  simple_of, item_of, TableLaws, index_of, get_or_past, no_mark, no_marks,
}

module _ (solo : Solo) (verse : Verse) (laws : VerseLaws verse) (obtain : Bool) (num_of_fun : ℕ)
    (seed : Bytes) (shuffles : ℕ → List ℕ → List ℕ) (xs ys : List Bytes)
    (count_fits : length xs < 2 ^ 64) (count_fits' : length ys < 2 ^ 64)
    (tables : TableLaws solo num_of_fun seed xs ys)
    (permutes : (j : ℕ) (l : List ℕ) → Perm (shuffles j l) l) where
  abbrev bins : ℕ
  bins = solo.num_of_bins (length ys)

  abbrev table : CuckooTable
  table = cuckoo_of solo num_of_fun seed ys

  abbrev blocks : List verse.Block
  blocks = blocks_of solo verse laws obtain num_of_fun seed shuffles xs ys count_fits count_fits'

  abbrev key : verse.Key
  key = laws.key_of blocks

  abbrev masks : List verse.Block
  masks = encode_all verse key 0 blocks

  abbrev sent : List Bytes
  sent = sender_data solo verse (sender obtain num_of_fun seed) shuffles bins key xs

  abbrev function : ℕ → ℕ
  function i = get_or table.function_ids i 0

  abbrev named : ℕ → ℕ
  named i = get_or table.ids i 0

  abbrev value : ℕ → Bytes
  value i = get_or table.values i []

  -- Bin i holds a value of the receiver's key that it names, which the sender has too.
  abbrev Good : ℕ → Type 0
  Good i =
      (named i < length ys)
      × (value i ≡ tables.tag (item_of solo ys (named i)) (function i))
      × Mem (get_or ys (named i) []) xs

  Good-prop : (i : ℕ) → IsProp (Good i)
  Good-prop i = hlevel le_prop

  -- Masks of different values at one function are told apart by their reduced bytes.
  abbrev pub NoCollision : Type 0
  NoCollision =
      (i b t : ℕ) (v : Bytes)
      → i < bins
      → Entry (simple_of solo num_of_fun seed xs ys) b t v (function i)
      → reduce verse (mask_of verse key b v) ≡ reduce verse (mask_of verse key i (value i))
      → v ≡ value i

  -- Keys of the two parties have different hashes.
  abbrev pub HashApart : Type 0
  HashApart =
      (a j : ℕ)
      → a < length xs
      → j < length ys
      → item_of solo xs a ≡ item_of solo ys j
      → get_or xs a [] ≡ get_or ys j []

  module _ (full : length table.values ≡ bins) where
    mask_at : (i : ℕ) → i < bins → get_or masks i verse.zero_block ≡ mask_of verse key i (value i)
    mask_at i lt =
        let plain : 0 + i ≡ i = omega arith in
        get_or-encode_all verse key 0 blocks i
          (omega (arith, lt, full, length-map verse.block_of_bytes table.values))
        ∙ (λ k. verse.encode key (plain k) (
            get_or-map verse.block_of_bytes table.values i [] verse.zero_block
              (omega (arith, lt, full)) k))

    abbrev matches : ℕ → Bool
    matches = bin_matches verse table num_of_fun (length xs) masks sent

    matches-Good : (i : ℕ) → i < bins → NoCollision → HashApart → matches i ≡ true → Good i
    unfolding bin_matches sender_data
    matches-Good i lt apart hashes m =
        let known : ltb (function i) num_of_fun ≡ true = ground (arith, m) in
        let known' = ltb→lt (function i) num_of_fun known in
        let listed =
          (find_mask-Mem
              (slice verse key shuffles num_of_fun (length xs)
                (simple_of solo num_of_fun seed xs ys) permutes (function i))
              (reduce verse (get_or masks i verse.zero_block))).0
            (ground (arith, m)) in
        slice-sound verse key shuffles num_of_fun (length xs) (simple_of solo num_of_fun seed xs ys)
          permutes (Good i) (function i) (reduce verse (get_or masks i verse.zero_block))
          (Good-prop i) known' (tables.row_full (function i) known')
          (λ b t v entry e.
            let same : v ≡ value i =
              apart i b t v lt entry (e ∙ ap (reduce verse) (mask_at i lt)) in
            let (a, la, tagged) = tables.entry_of b t v (function i) entry in
            let (below, is_item) = tables.held i (item_of solo xs a) lt (sym same ∙ tagged) in
            (
              below,
              sym same ∙ tagged ∙ ap (λ x. tables.tag x (function i)) is_item,
              subst (λ x. Mem x xs) (hashes a (named i) la below is_item) (get_or-mem xs a [] la),
            ))
          listed

    -- A key that both parties have is matched in the bin that holds it.
    matches-common :
        (a j : ℕ)
        → a < length xs
        → j < length ys
        → get_or xs a [] ≡ get_or ys j []
        → (i : ℕ) × (i < bins) × (named i ≡ j) × (matches i ≡ true)
    unfolding bin_matches sender_data
    matches-common a j la lj e =
        let (i, lt, names, known, tagged, at) = tables.placed j lj in
        let same_item : item_of solo xs a ≡ item_of solo ys j = ap solo.hash e in
        let (t, entry) = tables.entered a (function i) la known in
        let simple = simple_of solo num_of_fun seed xs ys in
        let entry_i : Entry simple i t (value i) (function i) =
          subst (λ b. Entry simple b t (value i) (function i))
            (ap (λ x. tables.address x (function i)) same_item ∙ sym at)
            (subst
              (λ v. Entry simple (tables.address (item_of solo xs a) (function i)) t v (function i))
              (ap (λ x. tables.tag x (function i)) same_item ∙ sym tagged) entry) in
        let listed : Mem (reduce verse (get_or masks i verse.zero_block))
            (slice verse key shuffles num_of_fun (length xs) simple permutes (function i)) =
          subst
            (λ m.
              Mem (reduce verse m)
                (slice verse key shuffles num_of_fun (length xs) simple permutes (function i)))
            (sym (mask_at i lt))
            (slice-complete verse key shuffles num_of_fun (length xs) simple permutes (function i) i
              t (value i) known (tables.row_full (function i) known) entry_i) in
        let known' : ltb (function i) num_of_fun ≡ true = ground (arith, known) in
        (i, lt, names, ground (arith, known', (find_mask-Mem _ _).1 listed))

    abbrev flags : List Bool
    flags = (matched solo verse laws obtain num_of_fun seed shuffles xs ys count_fits count_fits').0

    abbrev count : ℕ
    count = (matched solo verse laws obtain num_of_fun seed shuffles xs ys count_fits count_fits').1

    length-flags : length flags ≡ bins
    length-flags =
        length-match_loop verse table num_of_fun (length xs) masks sent bins 0
          (replicate bins false) 0
        ∙ length-replicate bins false

    -- A mark stands for a key of the receiver that the sender has,
    marked_sound :
        (j : ℕ)
        → NoCollision
        → HashApart
        → get_or flags j false ≡ true
        → (j < length ys) × Mem (get_or ys j []) xs
    unfolding bin_matches
    marked_sound j apart hashes m = elim (Bool-cases (ltb j bins)) [
      | inl e ↦
          let (i, lt, names, known, listed) =
            (match_loop-Found verse table num_of_fun (length xs) masks sent bins j
                (ltb→lt j bins e)).0
              m in
          let known' : ltb (function i) num_of_fun ≡ true = ground (arith, known) in
          let (below, _, common) =
            matches-Good i lt apart hashes (ground (arith, known', (find_mask-Mem _ _).1 listed)) in
          (omega (arith, below, names), subst (λ k. Mem (get_or ys k []) xs) names common)
      | inr e ↦
          let outside : bins ≤ j = ground (arith, e) in
          let wrong : true ≡ false =
            sym m ∙ get_or_past flags j false (omega (arith, length-flags, outside)) in
          absurd cc
    ]

    -- and each such key is marked.
    marked_complete :
        (j : ℕ) → j < length ys → Mem (get_or ys j []) xs → get_or flags j false ≡ true
    unfolding bin_matches
    marked_complete j lt common =
        let (a, la, e) = index_of xs (get_or ys j []) common in
        let (i, li, names, m) = matches-common a j la lt e in
        (match_loop-Found verse table num_of_fun (length xs) masks sent bins j
            (omega (arith, tables.enough))).1
          (i, li, names, ground (arith, m), (find_mask-Mem _ _).0 (ground (arith, m)))

    count-marks : NoCollision → HashApart → count ≡ marks flags
    count-marks apart hashes =
        let good : (i : ℕ) → i < bins → matches i ≡ true → Good i =
          λ i lt. matches-Good i lt apart hashes in
        omega (
          arith,
          match_loop-marks verse table num_of_fun (length xs) masks sent bins 0
              (replicate bins false) 0
              (λ i le lt m.
                omega
                  (arith, tables.enough, (good i (omega arith) m).0, length-replicate bins false))
              (λ i le lt m. no_mark bins (named i))
              (λ i i' le lt lt' m m' same.
                let (below, tagged, _) = good i (omega arith) m in
                let (_, tagged', _) = good i' (omega arith) m' in
                let equal =
                  tables.once i i' (named i) (omega arith) (omega arith) below refl (sym same)
                    tagged
                    (subst (λ k. value i' ≡ tables.tag (item_of solo ys k) (function i')) (sym same)
                      tagged') in
                absurd (omega (arith, equal, lt))),
          no_marks bins,
        )

    -- The count is the number of the keys that both parties have.
    count-those_in : NoCollision → HashApart → count ≡ length (those_in (λ key. key) xs ys)
    count-those_in apart hashes =
        count-marks apart hashes
        ∙ sym (length-select-marks flags ys (λ j m. (marked_sound j apart hashes m).0))
        ∙ ap length (
            select_marked-those_in xs flags ys (omega (arith, length-flags, tables.enough))
              (λ j lt. ((λ m. (marked_sound j apart hashes m).1), marked_complete j lt)))

    -- The receiver collects the keys that both parties have.
    pub found_keys-those_in :
        NoCollision
        → HashApart
        → found_keys solo verse laws obtain num_of_fun seed shuffles xs ys count_fits count_fits'
          ≡ those_in (λ key. key) xs ys
    unfolding collect_output
    found_keys-those_in apart hashes =
        collect_loop-select ys flags (resize count [] [])
          (omega (arith, length-flags, tables.enough))
          (length-resize count [] []
            ∙ count-marks apart hashes
            ∙ sym (length-select-marks flags ys (λ j m. (marked_sound j apart hashes m).0)))
        ∙ select_marked-those_in xs flags ys (omega (arith, length-flags, tables.enough))
            (λ j lt. ((λ m. (marked_sound j apart hashes m).1), marked_complete j lt))

  -- Let the receiver's cuckoo table have no stash and as many bins as were asked for, let the tables keep
  -- what hash tables promise and `std::shuffle` permute, let hashes and reduced masks of different keys
  -- differ, let the sizes fit their types, and let no key of the receiver contain a zero byte. Then
  -- whatever calls the two parties have made so far, in any interleaving, they can go on to their ends:
  -- the receiver with exactly those of its keys that the sender has, in its own order, and the sender, if
  -- it may obtain the result, with the same list, and else with its output as it was.
  pub process_intersection :
      (output_s : List Bytes) (m : ℕ) (u : Sys (List Bytes) (List Bytes))
      → table.stash_size ≡ 0
      → length table.values ≡ bins
      → num_of_fun * length xs * k_reduce_statistics_len < 2 ^ 64
      → AllLackZero ys
      → length (serialize_string_to_char (those_in (λ key. key) xs ys) []) < 2 ^ 64
      → NoCollision
      → HashApart
      → Steps m
          (joined
            (process solo verse (sender obtain num_of_fun seed) shuffles xs output_s)
            (process solo verse (receiver obtain num_of_fun seed) shuffles ys []))
          u
      → (let result = those_in (λ key. key) xs ys in
          Reach u (joined (done (if obtain then result else output_s)) (done result)))
  process_intersection output_s m u no_stash full bytes_fit lack fits apart hashes steps =
      let same = found_keys-those_in full apart hashes in
      subst (λ keys. Reach u (joined (done (if obtain then keys else output_s)) (done keys))) same
        (process_same_result solo verse laws obtain num_of_fun seed shuffles xs ys count_fits
          count_fits' output_s m u no_stash full bytes_fit lack
          (subst (λ keys. length (serialize_string_to_char keys []) < 2 ^ 64) (sym same) fits)
          steps)

  -- Let the receiver's cuckoo table have no stash and as many bins as were asked for, let the
  -- tables keep what hash tables promise and `std::shuffle` permute, let hashes and reduced masks
  -- of different keys differ, and let the sizes and the number of bins fit their types. Then
  -- whatever calls the two sides of `process_cardinality_only` have made so far, in any
  -- interleaving, they can go on to their ends: the receiver with the number of its keys that the
  -- sender has, and the sender, if it may obtain the result, with the same number, and else with 0.
  pub process_cardinality_intersection :
      (m : ℕ) (u : Sys ℕ ℕ)
      → table.stash_size ≡ 0
      → length table.values ≡ bins
      → num_of_fun * length xs * k_reduce_statistics_len < 2 ^ 64
      → bins < 2 ^ 64
      → NoCollision
      → HashApart
      → Steps m
          (joined
            (process_cardinality_only solo verse (sender obtain num_of_fun seed) shuffles xs)
            (process_cardinality_only solo verse (receiver obtain num_of_fun seed) shuffles ys))
          u
      → (let common = length (those_in (λ key. key) xs ys) in
          Reach u (joined (done (if obtain then common else 0)) (done common)))
  process_cardinality_intersection m u no_stash full bytes_fit bins_fit apart hashes steps =
      subst (λ n. Reach u (joined (done (if obtain then n else 0)) (done n)))
        (count-those_in full apart hashes)
        (cardinality_same_result solo verse laws obtain num_of_fun seed shuffles xs ys count_fits
          count_fits' m u no_stash full bytes_fit bins_fit steps)
