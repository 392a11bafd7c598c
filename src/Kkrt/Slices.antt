-- ===== src/Kkrt/Slices.antt =====
-- The receiver's view of a row of KKRT-PSI: a slice of the unpacked masks.
use mathlib.Core.List.{
  Mem, Perm, mem-cons, mem-cons_self, mem-cons_of_mem, not-mem-nil, mem-append, mem-append_left,
  mem-append_right, mem-map_of_mem, exists_of_mem-map, flatten,
}
use mathlib.Core.List.Perm
use mathlib.Core.Logic.Or
use mathlib.Core.Logic.{∥∥₁_elim}
use petace_set_ops.Base.{
  ℕ, zero, suc, ◌+◌, ◌*◌, ◌<◌, ◌≡◌, refl, sym, ap, ◌∙◌, subst, List, [], ◌∷◌, map, true, arith,
  Bytes, length, get_or, take, drop, ◌==◌, ==_iff, Bool-cases, inl, inr, replicate,
}
use petace_set_ops.Kkrt.Tables.{Verse, encode_all, encode_bins, shuffle_rows, reduce, reduce_rows}
use petace_set_ops.Psi.Collect.{count_if}
use petace_set_ops.Kkrt.Rows.{Entry, bin_masks, table_masks, encoded_row, table_masks-length}
use petace_set_ops.Kkrt.Sent.{shuffled_row, reduce_row-map, slice-reduce_rows}

module _ (verse : Verse) where
  module _ (key : verse.Key) where
    abbrev pub mask_of : ℕ → Bytes → verse.Block
    mask_of i v = verse.encode key i (verse.block_of_bytes v)

    -- the receiver's mask of a block at its bin
    pub get_or-encode_all :
        (i : ℕ) (bs : List verse.Block) (b : ℕ)
        → b < length bs
        → get_or (encode_all verse key i bs) b verse.zero_block
          ≡ verse.encode key (i + b) (get_or bs b verse.zero_block)
    get_or-encode_all i [] b h = elim h [ ]
    get_or-encode_all i (x ∷ bs) zero h =
        let here : i ≡ i + 0 = omega arith in ap (λ n. verse.encode key n x) here
    get_or-encode_all i (x ∷ bs) (suc b) h =
        let next : i + 1 + b ≡ i + suc b = omega arith in
        get_or-encode_all (i + 1) bs b (omega arith)
        ∙ ap (λ n. verse.encode key n (get_or bs b verse.zero_block)) next

    bin_masks-complete :
        (f i t : ℕ) (entries : List (Bytes × ℕ)) (v : Bytes)
        → t < length entries
        → get_or entries t ([], 0) ≡ (v, f)
        → Mem (mask_of i v) (bin_masks verse key f i entries)
    unfolding bin_masks
    bin_masks-complete f i t [] v lt e = elim lt [ ]
    bin_masks-complete f i zero ((value, id) ∷ entries) v lt e =
        let same : (id == f) ≡ true = (==_iff id f).1 (ap (λ p. p.1) e) in
        rw same (
          subst (λ x. Mem (mask_of i x) (mask_of i value ∷ bin_masks verse key f i entries))
            (ap (λ p. p.0) e) mem-cons_self)
    bin_masks-complete f i (suc t) ((value, id) ∷ entries) v lt e =
        let later = bin_masks-complete f i t entries v (omega arith) e in
        elim (Bool-cases (id == f)) [
          | inl same ↦ rw same (mem-cons_of_mem _ later)
          | inr other ↦ rw other later
        ]

    table_masks-complete :
        (f i b t : ℕ) (table : List (List (Bytes × ℕ))) (v : Bytes)
        → Entry table b t v f
        → Mem (mask_of (i + b) v) (table_masks verse key f i table)
    unfolding table_masks
    table_masks-complete f i b t [] v (lt, _, _) = elim lt [ ]
    table_masks-complete f i zero t (entries ∷ bins) v (lt, in_b, e) =
        let here : i ≡ i + 0 = omega arith in
        mem-append_left (table_masks verse key f (i + 1) bins) (
          subst (λ m. Mem (mask_of m v) (bin_masks verse key f i entries)) here
            (bin_masks-complete f i t entries v in_b e))
    table_masks-complete f i (suc b) t (entries ∷ bins) v (lt, in_b, e) =
        let next : i + 1 + b ≡ i + suc b = omega arith in
        mem-append_right (bin_masks verse key f i entries) (
          subst (λ m. Mem (mask_of m v) (table_masks verse key f (i + 1) bins)) next
            (table_masks-complete f (i + 1) b t bins v (omega arith, in_b, e)))

    -- What follows from a property of the mask of any entry follows from the property of any mask.
    module _ (P : verse.Block → Type 0) (G : Type 0) (single : IsProp G) where
      bin_masks-sound :
          (f i : ℕ) (entries : List (Bytes × ℕ)) (m : verse.Block)
          → P m
          → ((t : ℕ) (v : Bytes)
              → t < length entries
              → get_or entries t ([], 0) ≡ (v, f)
              → P (mask_of i v)
              → G)
          → Mem m (bin_masks verse key f i entries)
          → G
      unfolding bin_masks
      bin_masks-sound f i [] m p h listed = absurd (not-mem-nil listed)
      bin_masks-sound f i ((value, id) ∷ entries) m p h listed =
          let later = bin_masks-sound f i entries m p (λ t v lt e. h (suc t) v (omega arith) e) in
          elim (Bool-cases (id == f)) [
            | inl same ↦
                Or.elim single (mem-cons.0 (rw same at listed))
                  (λ e.
                    h 0 value (omega arith) (λ k. (value, (==_iff id f).0 same k)) (subst P e p))
                  later
            | inr other ↦ later (rw other at listed)
          ]

      table_masks-sound :
          (f i : ℕ) (table : List (List (Bytes × ℕ))) (m : verse.Block)
          → P m
          → ((b t : ℕ) (v : Bytes) → Entry table b t v f → P (mask_of (i + b) v) → G)
          → Mem m (table_masks verse key f i table)
          → G
      unfolding table_masks
      table_masks-sound f i [] m p h listed = absurd (not-mem-nil listed)
      table_masks-sound f i (entries ∷ bins) m p h listed =
          Or.elim single (mem-append.0 listed)
            (bin_masks-sound f i entries m p (λ t v lt e q.
              let here : i ≡ i + 0 = omega arith in
              h 0 t v (omega arith, lt, e) (subst (λ n. P (mask_of n v)) here q)))
            (table_masks-sound f (i + 1) bins m p (λ b t v entry q.
              let (lt, in_b, e) = entry in
              let next : i + 1 + b ≡ i + suc b = omega arith in
              h (suc b) t v (omega arith, in_b, e) (subst (λ n. P (mask_of n v)) next q)))

    module _ (shuffles : ℕ → List ℕ → List ℕ) (num_of_fun n : ℕ) (table : List (List (Bytes × ℕ)))
        (permutes : (j : ℕ) (l : List ℕ) → Perm (shuffles j l) l) where
      -- What the sender sends for this table.
      abbrev pub sent_rows : List Bytes
      sent_rows = reduce_rows verse n (
          shuffle_rows verse shuffles num_of_fun 0 n []
            (encode_bins verse key 0 table (replicate num_of_fun [])))

      abbrev pub slice : ℕ → List Bytes
      slice f = take n (drop (f * n) sent_rows)

      length-shuffled :
          (rounds i : ℕ) (permutation : List ℕ) (rows : List (List verse.Block))
          → length (shuffle_rows verse shuffles rounds i n permutation rows) ≡ rounds
      unfolding shuffle_rows
      length-shuffled zero i permutation rows = refl
      length-shuffled (suc rounds) i permutation rows =
          ap suc (length-shuffled rounds (i + 1) _ rows)

      -- The slice of function f is a rearrangement of the reduced masks under f, if these are n.
      slice-perm :
          (f : ℕ)
          → f < num_of_fun
          → count_if (λ e. e.1 == f) (flatten table) ≡ n
          → Perm (slice f) (map (reduce verse) (table_masks verse key f 0 table))
      slice-perm f lt full =
          let rows = encode_bins verse key 0 table (replicate num_of_fun []) in
          let shuffled = shuffle_rows verse shuffles num_of_fun 0 n [] rows in
          let plain : f ≡ 0 + f = omega arith in
          let row : get_or rows (0 + f) [] ≡ table_masks verse key f 0 table =
            ap (λ k. get_or rows k []) (sym plain) ∙ encoded_row verse key num_of_fun f table lt in
          let (rearranged, counted) =
            shuffled_row verse shuffles num_of_fun 0 n f [] rows permutes lt
              (ap length row ∙ table_masks-length verse key f 0 table ∙ full) in
          subst (λ l. Perm l (map (reduce verse) (table_masks verse key f 0 table)))
            (sym (
              slice-reduce_rows verse n f shuffled
                (omega (arith, lt, length-shuffled num_of_fun 0 [] rows))
              ∙ reduce_row-map verse n (get_or shuffled f []) counted))
            (Perm.map (reduce verse) (subst (Perm (get_or shuffled f [])) row rearranged))

      pub slice-complete :
          (f b t : ℕ) (v : Bytes)
          → f < num_of_fun
          → count_if (λ e. e.1 == f) (flatten table) ≡ n
          → Entry table b t v f
          → Mem (reduce verse (mask_of b v)) (slice f)
      slice-complete f b t v lt full entry =
          let plain : 0 + b ≡ b = omega arith in
          (Perm.mem_iff (slice-perm f lt full)).1 (
            mem-map_of_mem (reduce verse) (
              subst (λ k. Mem (mask_of k v) (table_masks verse key f 0 table)) plain
                (table_masks-complete f 0 b t table v entry)))

      pub slice-sound :
          (G : Type 0) (f : ℕ) (target : Bytes)
          → IsProp G
          → f < num_of_fun
          → count_if (λ e. e.1 == f) (flatten table) ≡ n
          → ((b t : ℕ) (v : Bytes) → Entry table b t v f → reduce verse (mask_of b v) ≡ target → G)
          → Mem target (slice f)
          → G
      slice-sound G f target single lt full h listed =
          ∥∥₁_elim (exists_of_mem-map ((Perm.mem_iff (slice-perm f lt full)).0 listed)) single
            (λ (m, in_row, e).
              table_masks-sound (λ m. reduce verse m ≡ target) G single f 0 table m e
                (λ b t v entry q.
                  let plain : 0 + b ≡ b = omega arith in
                  h b t v entry (subst (λ k. reduce verse (mask_of k v) ≡ target) plain q))
                in_row)
