-- ===== src/Kkrt/Contract.antt =====
-- What KKRT-PSI (psi/kkrt_psi.cpp) relies on of its two hash tables, with lemmas on positions in lists.
use mathlib.Core.List.{Mem, flatten, not-mem-nil, mem_of_ne_of_mem}
use petace_set_ops.Base.{
  ℕ, zero, suc, ◌≤◌, ◌<◌, ◌≡◌, refl, sym, List, [], ◌∷◌, map, false, ◌==◌, arith, Bytes,
  Bytes-discrete, length, get_or, replicate,
}
use petace_set_ops.Psi.Collect.{count_if}
use petace_set_ops.Kkrt.Tables.{Solo}
use petace_set_ops.Kkrt.Rows.{Entry}
use petace_set_ops.Kkrt.Marks.{marks}
use petace_set_ops.Kkrt.Phases.{cuckoo_of}

-- The sender's table.
abbrev pub simple_of : Solo → ℕ → Bytes → List Bytes → List Bytes → List (List (Bytes × ℕ))
simple_of solo num_of_fun seed xs ys =
    solo.simple_table (solo.num_of_bins (length ys)) seed num_of_fun (map solo.hash xs)

-- The item at a position of a list of keys.
abbrev pub item_of : Solo → List Bytes → ℕ → Bytes
item_of solo keys i = solo.hash (get_or keys i [])

-- What is relied on of the tables of the keys xs of the sender and ys of the receiver. An item has one
-- value under each function (`tag`), in one bin (`address`). The simple table holds each value of each
-- item. The cuckoo table holds each item once, under one of the functions, and where it holds a value of
-- some item, that is the item that it names there.
pub record TableLaws (solo : Solo) (num_of_fun : ℕ) (seed : Bytes) (xs ys : List Bytes)
    : Type 0 where
  pub tag : Bytes → ℕ → Bytes
  pub address : Bytes → ℕ → ℕ
  pub enough : length ys ≤ solo.num_of_bins (length ys)
  pub entered :
      (a f : ℕ)
      → a < length xs
      → f < num_of_fun
      → (t : ℕ) × Entry
          (simple_of solo num_of_fun seed xs ys)
          (address (item_of solo xs a) f)
          t
          (tag (item_of solo xs a) f)
          f
  pub entry_of :
      (b t : ℕ) (v : Bytes) (f : ℕ)
      → Entry (simple_of solo num_of_fun seed xs ys) b t v f
      → (a : ℕ) × (a < length xs) × (v ≡ tag (item_of solo xs a) f)
  pub row_full :
      (f : ℕ)
      → f < num_of_fun
      → count_if (λ e. e.1 == f) (flatten (simple_of solo num_of_fun seed xs ys)) ≡ length xs
  pub placed :
      (j : ℕ)
      → j < length ys
      → (i : ℕ) × (i < solo.num_of_bins (length ys))
        × (get_or (cuckoo_of solo num_of_fun seed ys).ids i 0 ≡ j)
        × (get_or (cuckoo_of solo num_of_fun seed ys).function_ids i 0 < num_of_fun)
        × (get_or (cuckoo_of solo num_of_fun seed ys).values i []
            ≡ tag (item_of solo ys j) (get_or (cuckoo_of solo num_of_fun seed ys).function_ids i 0))
        × (i
            ≡ address
                (item_of solo ys j)
                (get_or (cuckoo_of solo num_of_fun seed ys).function_ids i 0))
  pub held :
      (i : ℕ) (item : Bytes)
      → i < solo.num_of_bins (length ys)
      → get_or (cuckoo_of solo num_of_fun seed ys).values i []
        ≡ tag item (get_or (cuckoo_of solo num_of_fun seed ys).function_ids i 0)
      → (get_or (cuckoo_of solo num_of_fun seed ys).ids i 0 < length ys)
        × (item ≡ item_of solo ys (get_or (cuckoo_of solo num_of_fun seed ys).ids i 0))
  pub once :
      (i i' j : ℕ)
      → i < solo.num_of_bins (length ys)
      → i' < solo.num_of_bins (length ys)
      → j < length ys
      → get_or (cuckoo_of solo num_of_fun seed ys).ids i 0 ≡ j
      → get_or (cuckoo_of solo num_of_fun seed ys).ids i' 0 ≡ j
      → get_or (cuckoo_of solo num_of_fun seed ys).values i []
        ≡ tag (item_of solo ys j) (get_or (cuckoo_of solo num_of_fun seed ys).function_ids i 0)
      → get_or (cuckoo_of solo num_of_fun seed ys).values i' []
        ≡ tag (item_of solo ys j) (get_or (cuckoo_of solo num_of_fun seed ys).function_ids i' 0)
      → i ≡ i'

-- A key that is listed has a position.
pub index_of :
    (keys : List Bytes) (key : Bytes)
    → Mem key keys
    → (a : ℕ) × (a < length keys) × (get_or keys a [] ≡ key)
index_of [] key m = absurd (not-mem-nil m)
index_of (x ∷ keys) key m = elim (Bytes-discrete key x) [
  | yes e ↦ (0, omega arith, sym e)
  | no ne ↦ let (a, lt, e) = index_of keys key (mem_of_ne_of_mem ne m) in (suc a, omega arith, e)
]

pub get_or_past {ℓ} : {A : Type ℓ} (l : List A) (i : ℕ) (d : A) → length l ≤ i → get_or l i d ≡ d
get_or_past [] i d h = refl
get_or_past (x ∷ l) zero d h = absurd (omega arith)
get_or_past (x ∷ l) (suc i) d h = get_or_past l i d (omega arith)

pub no_mark : (n j : ℕ) → get_or (replicate n false) j false ≡ false
no_mark zero j = refl
no_mark (suc n) zero = refl
no_mark (suc n) (suc j) = no_mark n j

pub no_marks : (n : ℕ) → marks (replicate n false) ≡ 0
unfolding count_if
no_marks zero = refl
no_marks (suc n) = omega (arith, no_marks n)
