-- ===== src/Util/Permutation/RoundTrip.antt =====
-- `permute_and_undo` both ways, for the permutations that `generate_permutation` makes.
use mathlib.Core.List.{Mem, Perm}
use mathlib.Core.List.Perm
use petace_set_ops.Base.{
  ℕ, zero, suc, ◌+◌, ◌≤◌, ◌<◌, ◌≡◌, refl, sym, ap, ◌∙◌, subst, List, [], map, true, false, arith,
  length, get_or, set, resize, length-set, length-resize, length-map, get_or-map, get_or-set_self,
  get_or-set_ne, eq_of_get_or, length-perm, get_or-mem, index_of_mem, ℕ_discrete,
}
use petace_set_ops.Util.Permutation.{
  fill_identity, generate_permutation, apply_loop, undo_loop, permute_and_undo,
}

length-fill_identity :
    (rounds i : ℕ) (perm : List ℕ) → length (fill_identity rounds i perm) ≡ length perm
unfolding fill_identity
length-fill_identity zero i perm = refl
length-fill_identity (suc rounds) i perm =
    length-fill_identity rounds (i + 1) (set perm i i) ∙ length-set perm i i

get_or-fill_identity_below :
    (rounds i k : ℕ) (perm : List ℕ)
    → k < i
    → get_or (fill_identity rounds i perm) k 0 ≡ get_or perm k 0
unfolding fill_identity
get_or-fill_identity_below zero i k perm h = refl
get_or-fill_identity_below (suc rounds) i k perm h =
    get_or-fill_identity_below rounds (i + 1) k (set perm i i) (omega arith)
    ∙ get_or-set_ne perm i k i 0 (omega arith)

get_or-fill_identity :
    (rounds i k : ℕ) (perm : List ℕ)
    → i ≤ k
    → k < i + rounds
    → k < length perm
    → get_or (fill_identity rounds i perm) k 0 ≡ k
unfolding fill_identity
get_or-fill_identity zero i k perm h lt fits = absurd (omega arith)
get_or-fill_identity (suc rounds) i k perm h lt fits = elim (ℕ_discrete i k) [
  | yes e ↦
      get_or-fill_identity_below rounds (i + 1) k (set perm i i) (omega arith)
      ∙ subst (λ j. get_or (set perm i i) j 0 ≡ j) e (get_or-set_self perm i i 0 (omega arith))
  | no ne ↦
      get_or-fill_identity rounds (i + 1) k (set perm i i) (omega arith) (omega arith)
        (omega (arith, length-set perm i i))
]

-- A permutation of the positions below n.
pub record IsPermutation (n : ℕ) (perm : List ℕ) : Type 0 where
  pub identity : List ℕ
  pub length_identity : length identity ≡ n
  pub get_or_identity : (k : ℕ) → k < n → get_or identity k 0 ≡ k
  pub rearranged : Perm perm identity

-- `generate_permutation` returns a permutation of the positions, if the shuffle permutes.
pub generate_permutation-IsPermutation :
    (shuffle : List ℕ → List ℕ) (n : ℕ) (perm : List ℕ)
    → ((l : List ℕ) → Perm (shuffle l) l)
    → IsPermutation n (generate_permutation shuffle n perm)
unfolding generate_permutation
generate_permutation-IsPermutation shuffle n perm permutes = record {
  identity = fill_identity n 0 (resize n 0 perm);
  length_identity = length-fill_identity n 0 (resize n 0 perm) ∙ length-resize n 0 perm;
  get_or_identity = λ k h.
      get_or-fill_identity n 0 k (resize n 0 perm) (omega arith) (omega arith)
        (omega (arith, length-resize n 0 perm));
  rearranged = permutes _;
}

module _ (n : ℕ) (perm : List ℕ) (p : IsPermutation n perm) where
  pub length-permutation : length perm ≡ n
  length-permutation = length-perm p.rearranged ∙ p.length_identity

  -- Every position is an entry, and the entry has a position.
  position_of : (k : ℕ) → k < n → (i : ℕ) × (i < length perm) × (get_or perm i 0 ≡ k)
  position_of k h = index_of_mem perm k (
      (Perm.mem_iff p.rearranged).1 (
        subst (λ j. Mem j p.identity) (p.get_or_identity k h)
          (get_or-mem p.identity k 0 (omega (arith, p.length_identity)))))

  -- Every entry is a position.
  pub entry-lt : (i : ℕ) → i < length perm → get_or perm i 0 < n
  entry-lt i h =
      let m = (Perm.mem_iff p.rearranged).0 (get_or-mem perm i 0 h) in
      let (k, lt, e) = index_of_mem p.identity (get_or perm i 0) m in
      let same = p.get_or_identity k (omega (arith, p.length_identity)) in
      omega (arith, p.length_identity)

module _ {ℓ} {T : Type ℓ} (v : T) where
  length-apply_loop :
      (rounds i : ℕ) (perm : List ℕ) (xs out : List T)
      → length (apply_loop v rounds i perm xs out) ≡ length out
  unfolding apply_loop
  length-apply_loop zero i perm xs out = refl
  length-apply_loop (suc rounds) i perm xs out =
      length-apply_loop rounds (i + 1) perm xs _ ∙ length-set out i _

  get_or-apply_loop_below :
      (rounds i k : ℕ) (perm : List ℕ) (xs out : List T)
      → k < i
      → get_or (apply_loop v rounds i perm xs out) k v ≡ get_or out k v
  unfolding apply_loop
  get_or-apply_loop_below zero i k perm xs out h = refl
  get_or-apply_loop_below (suc rounds) i k perm xs out h =
      get_or-apply_loop_below rounds (i + 1) k perm xs _ (omega arith)
      ∙ get_or-set_ne out i k _ v (omega arith)

  get_or-apply_loop :
      (rounds i k : ℕ) (perm : List ℕ) (xs out : List T)
      → i ≤ k
      → k < i + rounds
      → k < length out
      → get_or (apply_loop v rounds i perm xs out) k v ≡ get_or xs (get_or perm k 0) v
  unfolding apply_loop
  get_or-apply_loop zero i k perm xs out h lt fits = absurd (omega arith)
  get_or-apply_loop (suc rounds) i k perm xs out h lt fits = elim (ℕ_discrete i k) [
    | yes e ↦
        get_or-apply_loop_below rounds (i + 1) k perm xs _ (omega arith)
        ∙ subst
            (λ j.
              get_or (set out i (get_or xs (get_or perm i 0) v)) j v
              ≡ get_or xs (get_or perm j 0) v)
            e (get_or-set_self out i _ v (omega arith))
    | no ne ↦
        get_or-apply_loop rounds (i + 1) k perm xs _ (omega arith) (omega arith)
          (omega (arith, length-set out i (get_or xs (get_or perm i 0) v)))
  ]

  -- Permuting reads the data at each entry of the permutation.
  pub permute-map :
      (perm : List ℕ) (xs : List T)
      → length perm ≡ length xs
      → permute_and_undo v perm true xs ≡ map (λ j. get_or xs j v) perm
  unfolding permute_and_undo
  permute-map perm xs e =
      let size = length-apply_loop (length perm) 0 perm xs (resize (length xs) v []) in
      let size' = length-resize (length xs) v [] in
      eq_of_get_or v _ _ (omega (arith, size, size', length-map (λ j. get_or xs j v) perm)) λ k h.
        get_or-apply_loop (length perm) 0 k perm xs _ (omega arith) (omega (arith, size, size'))
          (omega (arith, size, size'))
        ∙ sym (get_or-map (λ j. get_or xs j v) perm k 0 v (omega (arith, size, size')))

  length-undo_loop :
      (rounds i : ℕ) (perm : List ℕ) (xs out : List T)
      → length (undo_loop v rounds i perm xs out) ≡ length out
  unfolding undo_loop
  length-undo_loop zero i perm xs out = refl
  length-undo_loop (suc rounds) i perm xs out =
      length-undo_loop rounds (i + 1) perm xs _ ∙ length-set out _ _

  module _ (perm : List ℕ) (xs target : List T)
      (moved : (i : ℕ) → i < length perm → get_or xs i v ≡ get_or target (get_or perm i 0) v) where
    -- What has been written once stays right.
    undo_loop_keeps :
        (rounds i k : ℕ) (out : List T)
        → i + rounds ≤ length perm
        → k < length out
        → get_or out k v ≡ get_or target k v
        → get_or (undo_loop v rounds i perm xs out) k v ≡ get_or target k v
    unfolding undo_loop
    undo_loop_keeps zero i k out le fits h = h
    undo_loop_keeps (suc rounds) i k out le fits h =
        undo_loop_keeps rounds (i + 1) k (set out (get_or perm i 0) (get_or xs i v)) (omega arith)
          (omega (arith, length-set out (get_or perm i 0) (get_or xs i v)))
          (elim (ℕ_discrete (get_or perm i 0) k) [
            | yes e ↦
                subst
                  (λ j. get_or (set out (get_or perm i 0) (get_or xs i v)) j v ≡ get_or target j v)
                  e
                  (get_or-set_self out (get_or perm i 0) _ v (omega arith) ∙ moved i (omega arith))
            | no ne ↦ get_or-set_ne out (get_or perm i 0) k _ v ne ∙ h
          ])

    undo_loop_writes :
        (rounds i k j : ℕ) (out : List T)
        → i + rounds ≤ length perm
        → k < length out
        → i ≤ j
        → j < i + rounds
        → get_or perm j 0 ≡ k
        → get_or (undo_loop v rounds i perm xs out) k v ≡ get_or target k v
    unfolding undo_loop
    undo_loop_writes zero i k j out le fits ij ji e = absurd (omega arith)
    undo_loop_writes (suc rounds) i k j out le fits ij ji e =
        let fits' : k < length (set out (get_or perm i 0) (get_or xs i v)) =
          omega (arith, length-set out (get_or perm i 0) (get_or xs i v)) in
        elim (ℕ_discrete i j) [
          | yes here ↦
              let ek : get_or perm i 0 ≡ k = ap (λ l. get_or perm l 0) here ∙ e in
              undo_loop_keeps rounds (i + 1) k _ (omega arith) fits' (
                subst
                  (λ l. get_or (set out (get_or perm i 0) (get_or xs i v)) l v ≡ get_or target l v)
                  ek
                  (get_or-set_self out (get_or perm i 0) _ v (omega arith) ∙ moved i (omega arith)))
          | no later ↦
              undo_loop_writes rounds (i + 1) k j _ (omega arith) fits' (omega arith) (omega arith)
                e
        ]

  -- Undoing recovers any list of which `xs` is the permuted copy.
  pub undo_permuted :
      (n : ℕ) (perm : List ℕ) (xs target : List T)
      → IsPermutation n perm
      → length xs ≡ n
      → length target ≡ n
      → ((i : ℕ) → i < length perm → get_or xs i v ≡ get_or target (get_or perm i 0) v)
      → permute_and_undo v perm false xs ≡ target
  unfolding permute_and_undo
  undo_permuted n perm xs target p ex et moved =
      let size = length-undo_loop (length perm) 0 perm xs (resize (length xs) v []) in
      let size' = length-resize (length xs) v [] in
      eq_of_get_or v _ _ (omega (arith, size, size')) λ k h.
        let (i, lt, e) = position_of n perm p k (omega (arith, size, size')) in
        undo_loop_writes perm xs target moved (length perm) 0 k i _ (omega arith)
          (omega (arith, size, size')) (omega arith) (omega arith) e

module _ {ℓ} {T : Type ℓ} (v : T) (perm : List ℕ) (xs : List T)
    (p : IsPermutation (length xs) perm) where
  get_or-permuted :
      (i : ℕ)
      → i < length perm
      → get_or (permute_and_undo v perm true xs) i v ≡ get_or xs (get_or perm i 0) v
  get_or-permuted i h =
      ap (λ ys. get_or ys i v) (permute-map v perm xs (length-permutation _ perm p))
      ∙ get_or-map (λ j. get_or xs j v) perm i 0 v h

  pub length-permuted : length (permute_and_undo v perm true xs) ≡ length xs
  length-permuted =
      ap length (permute-map v perm xs (length-permutation _ perm p))
      ∙ length-map _ perm
      ∙ length-permutation _ perm p

  -- Undoing a permutation gives the data back in its first order, whatever the permutation and
  -- whatever values repeat in the data.
  pub undo-permute : permute_and_undo v perm false (permute_and_undo v perm true xs) ≡ xs
  undo-permute = undo_permuted v (length xs) perm _ xs p length-permuted refl get_or-permuted

  -- Permuted data that has been mapped is unpermuted to the mapped data: a value computed from each
  -- item comes back to the item's own place.
  pub undo-map-permute {κ} :
      {U : Type κ} (w : U) (g : T → U)
      → permute_and_undo w perm false (map g (permute_and_undo v perm true xs)) ≡ map g xs
  undo-map-permute w g =
      undo_permuted w (length xs) perm _ (map g xs) p (length-map g _ ∙ length-permuted)
        (length-map g xs)
        λ i h.
          let here : i < length (permute_and_undo v perm true xs) =
            omega (arith, length-permuted, length-permutation _ perm p) in
          let lt = entry-lt _ perm p i h in
          get_or-map g _ i v w here ∙ ap g (get_or-permuted i h) ∙ sym (get_or-map g xs _ v w lt)

  -- Permuting keeps every item, as often as it occurs.
  pub permute-perm : Perm (permute_and_undo v perm true xs) xs
  permute-perm = rw (permute-map v perm xs (length-permutation _ perm p)) (
      subst (Perm (map (λ j. get_or xs j v) perm)) identity_reads
        (Perm.map (λ j. get_or xs j v) p.rearranged))
    where
      identity_reads : map (λ j. get_or xs j v) p.identity ≡ xs
      identity_reads = eq_of_get_or v _ _ (length-map _ p.identity ∙ p.length_identity) λ k h.
          let lt : k < length xs =
            omega (arith, length-map (λ j. get_or xs j v) p.identity, p.length_identity) in
          get_or-map (λ j. get_or xs j v) p.identity k 0 v (omega (arith, p.length_identity))
          ∙ ap (λ j. get_or xs j v) (p.get_or_identity k lt)
