-- ===== src/Circuit/Toy.antt =====
-- Small instances of the libraries that circuit PSI uses, with the laws that it relies on.
use mathlib.Core.List.{Mem, mem-cons, not-mem-nil, flatten}
use mathlib.Core.Logic.Or
use mathlib.Core.Bool.{Bool-set}
use petace_set_ops.Base.{
  ℕ, zero, suc, ◌+◌, ◌*◌, ◌%◌, ◌^◌, ◌<◌, ◌≡◌, refl, sym, ap, ◌∙◌, List, [], ◌∷◌, ◌++◌, map, Bool,
  true, false, ◌&&◌, arith, Bytes, length, length-map, length-replicate, get_or, get_or-map,
  get_or-mem, subst, get_or-append_left, get_or-append_right, replicate, ◌==◌, ltb, ltb→lt,
  if◌then◌else◌, Bool-cases, inl, inr,
}
use petace_set_ops.Psi.Unpack.{AllOfLength}
use petace_set_ops.Kkrt.Tables.{eq_bytes}
use petace_set_ops.Kkrt.Matching.{eq_bytes-eq}
use petace_set_ops.Kkrt.Tests.{adding}
use petace_set_ops.Circuit.Tables.{Hashing, Pads, tabulate}
use petace_set_ops.Circuit.Words.{PadsLaws, get_or-tabulate}
use petace_set_ops.Circuit.Hints.{HashingLaws}
use petace_set_ops.Circuit.Reading.{TakenLaws}

-- Rows of one length, one behind the other.
pub get_or-flatten :
    (m : ℕ) (rows : List (List ℕ)) (i j : ℕ)
    → AllOfLength m rows
    → i < length rows
    → j < m
    → get_or (flatten rows) (i * m + j) 0 ≡ get_or (get_or rows i []) j 0
unfolding flatten
get_or-flatten m [] i j sized hi hj = elim hi [ ]
get_or-flatten m (row ∷ rows) zero j (e, sized) hi hj =
    let here : 0 * m + j ≡ j = omega arith in
    ap (λ n. get_or (row ++ flatten rows) n 0) here
    ∙ get_or-append_left row (flatten rows) j 0 (omega (arith, e))
get_or-flatten m (row ∷ rows) (suc i) j (e, sized) hi hj =
    let later : suc i * m + j ≡ length row + (i * m + j) = omega (arith, e) in
    ap (λ n. get_or (row ++ flatten rows) n 0) later
    ∙ get_or-append_right row (flatten rows) (i * m + j) 0
    ∙ get_or-flatten m rows i j sized (omega arith) hj

-- An item goes to the bin that its first byte gives, under every function.
abbrev bin_of : ℕ → Bytes → ℕ
bin_of n v = get_or v 0 0 % n

abbrev first_at : ℕ → ℕ → List Bytes → Bytes
first_at n e [] = []
first_at n e (v ∷ items) = if bin_of n v == e then v else first_at n e items

abbrev taken_at : ℕ → ℕ → List Bytes → Bool
taken_at n e [] = false
taken_at n e (v ∷ items) = if bin_of n v == e then true else taken_at n e items

-- Whether an item is in its bin.
abbrev is_placed : ℕ → ℕ → List Bytes → Bytes → Bool
is_placed n m items v =
    ltb 0 m
    && (ltb (bin_of n v) n
        && (taken_at n (bin_of n v) items && eq_bytes (first_at n (bin_of n v) items) v))

abbrev all_pass : (Bytes → Bool) → List Bytes → Bool
all_pass test [] = true
all_pass test (v ∷ items) = test v && all_pass test items

abbrev in_bin : ℕ → ℕ → List Bytes → List Bytes
in_bin n e [] = []
in_bin n e (v ∷ items) = let rest = in_bin n e items in if bin_of n v == e then v ∷ rest else rest

abbrev pub first_byte : Hashing
first_byte = record {
  hash = λ key. key;
  num_of_bins = λ n. n;
  num_of_hint_bins = λ n. n + n;
  simple_values = λ n seed f items. tabulate n 0 (λ e. in_bin n e items);
  cuckoo_table = λ n seed m items. record {
    stash_size = if all_pass (is_placed n m items) items then 0 else 1;
    values = tabulate n 0 (λ e. first_at n e items);
    occupancy = tabulate n 0 (λ e. taken_at n e items);
    source_values = tabulate n 0 (λ e. first_at n e items);
    function_ids = replicate n 0;
  };
  addresses = λ n seed m items. flatten (map (λ v. replicate m (bin_of n v)) items);
}

all_pass-mem :
    (test : Bytes → Bool) (items : List Bytes) (v : Bytes)
    → all_pass test items ≡ true
    → Mem v items
    → test v ≡ true
all_pass-mem test [] v h m = absurd (not-mem-nil m)
all_pass-mem test (x ∷ items) v h m =
    Or.elim (Bool-set _ _) (mem-cons.0 m)
      (λ same. let first : test x ≡ true = ground (arith, h) in ap test same ∙ first)
      (λ later. all_pass-mem test items v (ground (arith, h)) later)

get_or-zeros : (n e : ℕ) → ◌≡◌ {A = ℕ} (get_or (replicate n 0) e 0) 0
get_or-zeros zero e = refl
get_or-zeros (suc n) zero = refl
get_or-zeros (suc n) (suc e) = get_or-zeros n e

rows-AllOfLength :
    (n m : ℕ) (items : List Bytes) → AllOfLength m (map (λ v. replicate m (bin_of n v)) items)
rows-AllOfLength n m [] = tt
rows-AllOfLength n m (v ∷ items) = (length-replicate m (bin_of n v), rows-AllOfLength n m items)

get_or-replicate : (m j x : ℕ) → j < m → get_or (replicate m x) j 0 ≡ x
get_or-replicate zero j x h = elim h [ ]
get_or-replicate (suc m) zero x h = refl
get_or-replicate (suc m) (suc j) x h = get_or-replicate m j x (omega arith)

no_stash_passes :
    (n m : ℕ) (items : List Bytes)
    → ◌≡◌ {A = ℕ} (if all_pass (is_placed n m items) items then 0 else 1) 0
    → all_pass (is_placed n m items) items ≡ true
no_stash_passes n m items no_stash = elim (Bool-cases (all_pass (is_placed n m items) items)) [
  | inl e ↦ e
  | inr e ↦ absurd (omega (arith, sym (ap (λ b. if b then 0 else 1) e) ∙ no_stash))
]

pub first_byte_laws : HashingLaws first_byte
first_byte_laws = record {
  address = λ n seed m v j. bin_of n v;
  placed = λ n seed m items v no_stash listed.
      let passed : all_pass (is_placed n m items) items ≡ true =
        no_stash_passes n m items no_stash in
      let here : is_placed n m items v ≡ true =
        all_pass-mem (is_placed n m items) items v passed listed in
      let some_function : ltb 0 m ≡ true = ground (arith, here) in
      let in_n : ltb (bin_of n v) n ≡ true = ground (arith, here) in
      let taken : taken_at n (bin_of n v) items ≡ true = ground (arith, here) in
      let first : eq_bytes (first_at n (bin_of n v) items) v ≡ true = ground (arith, here) in
      let lt = ltb→lt (bin_of n v) n in_n in
      let plain : 0 + bin_of n v ≡ bin_of n v = omega arith in
      (
        0,
        ltb→lt 0 m some_function,
        lt,
        get_or-tabulate n 0 (λ e. taken_at n e items) (bin_of n v) false lt
            ∙ ap (λ e. taken_at n e items) plain
            ∙ taken,
        get_or-tabulate n 0 (λ e. first_at n e items) (bin_of n v) [] lt
            ∙ ap (λ e. first_at n e items) plain
            ∙ eq_bytes-eq _ _ first,
        get_or-zeros n (bin_of n v),
      );
  addressed = λ n seed m items i j hi hj.
      get_or-flatten m (map (λ v. replicate m (bin_of n v)) items) i j (rows-AllOfLength n m items)
        (omega (arith, hi, length-map (λ v. replicate m (bin_of n v)) items)) hj
      ∙ ap (λ r. get_or r j 0) (get_or-map (λ v. replicate m (bin_of n v)) items i [] [] hi)
      ∙ get_or-replicate m j (bin_of n (get_or items i [])) hj;
}

in_bin_taken :
    (n e : ℕ) (items : List Bytes)
    → taken_at n e items ≡ true
    → (t : ℕ) × (t < length items) × (get_or items t [] ≡ first_at n e items)
in_bin_taken n e [] h = cc
in_bin_taken n e (v ∷ items) h = elim (Bool-cases (bin_of n v == e)) [
  | inl same ↦ rw same (0, omega arith, refl)
  | inr other ↦
      let (t, lt, found) = in_bin_taken n e items (rw other at h) in
      rw other (suc t, omega (arith, lt), found)
]

remainder_lt : (x n : ℕ) → 0 < n → x % n < n
remainder_lt x n h = omega arith

pub first_byte_taken : TakenLaws first_byte first_byte_laws
unfolding first_byte_laws
first_byte_taken = record {
  within = λ n seed m v j h hj. remainder_lt (get_or v 0 0) n h;
  inserted = λ n seed m items p no_stash lt taken.
      let plain : 0 + p ≡ p = omega arith in
      let is_taken : taken_at n p items ≡ true =
        sym (
          get_or-tabulate n 0 (λ e. taken_at n e items) p false lt
          ∙ ap (λ e. taken_at n e items) plain)
        ∙ taken in
      let (t, in_items, found) = in_bin_taken n p items is_taken in
      let passed = no_stash_passes n m items no_stash in
      let here : is_placed n m items (get_or items t []) ≡ true =
        all_pass-mem (is_placed n m items) items (get_or items t []) passed
          (get_or-mem items t [] in_items) in
      let some_function : ltb 0 m ≡ true = ground (arith, here) in
      (
        subst (λ x. x < m) (sym (get_or-zeros n p)) (ltb→lt 0 m some_function),
        (
          t,
          in_items,
          found
              ∙ sym (
                  get_or-tabulate n 0 (λ e. first_at n e items) p [] lt
                  ∙ ap (λ e. first_at n e items) plain),
        ),
      );
}

-- Words that a seed's first byte and a position give.
abbrev pub counting : Pads adding
counting = record {
  seeded = λ seed j. (get_or seed 0 0 * 7 + j * 3 + 1) % 2 ^ 64;
  xor_fid = λ block fid. block + fid;
}

pub counting_laws : PadsLaws adding counting
counting_laws = record { seeded-IsWord = λ seed j. omega arith }
