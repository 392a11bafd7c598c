-- ===== src/Std/Order.antt =====
-- Strict total orders with a Boolean test, the lexicographic order of byte vectors, and sorting.
use mathlib.Core.List.{Perm}
use mathlib.Core.List.Perm
use petace_set_ops.Base.{
  ◌≡◌, inl, inr, refl, List, [], ◌∷◌, Bool, true, false, arith, Bytes, ltb, Bool-cases, All,
  if◌then◌else◌,
}

pub record StrictOrder (A : Type 0) : Type 0 where
  pub lt : A → A → Bool
  pub irrefl : (a : A) → lt a a ≡ false
  pub trans : (a b c : A) → lt a b ≡ true → lt b c ≡ true → lt a c ≡ true
  pub connected : (a b : A) → lt a b ≡ false → lt b a ≡ false → a ≡ b

-- `operator<` of `std::vector<Byte>`
unfoldable pub lt_bytes : Bytes → Bytes → Bool
lt_bytes [] [] = false
lt_bytes [] (y ∷ ys) = true
lt_bytes (x ∷ xs) [] = false
lt_bytes (x ∷ xs) (y ∷ ys) =
    let rest = lt_bytes xs ys in if ltb x y then true else if ltb y x then false else rest

pub lt_bytes_irrefl : (a : Bytes) → lt_bytes a a ≡ false
unfolding lt_bytes
lt_bytes_irrefl [] = refl
lt_bytes_irrefl (x ∷ xs) = ground (arith, lt_bytes_irrefl xs)

pub lt_bytes_trans :
    (a b c : Bytes) → lt_bytes a b ≡ true → lt_bytes b c ≡ true → lt_bytes a c ≡ true
unfolding lt_bytes
lt_bytes_trans [] [] c h k = cc
lt_bytes_trans [] (y ∷ ys) [] h k = cc
lt_bytes_trans [] (y ∷ ys) (z ∷ zs) h k = refl
lt_bytes_trans (x ∷ xs) [] c h k = cc
lt_bytes_trans (x ∷ xs) (y ∷ ys) [] h k = cc
lt_bytes_trans (x ∷ xs) (y ∷ ys) (z ∷ zs) h k = ground (arith, lt_bytes_trans xs ys zs)

pub lt_bytes_connected : (a b : Bytes) → lt_bytes a b ≡ false → lt_bytes b a ≡ false → a ≡ b
unfolding lt_bytes
lt_bytes_connected [] [] h k = refl
lt_bytes_connected [] (y ∷ ys) h k = cc
lt_bytes_connected (x ∷ xs) [] h k = cc
lt_bytes_connected (x ∷ xs) (y ∷ ys) h k = ground (arith, lt_bytes_connected xs ys)

abbrev pub bytes_order : StrictOrder Bytes
bytes_order = record {
  lt = lt_bytes;
  irrefl = lt_bytes_irrefl;
  trans = lt_bytes_trans;
  connected = lt_bytes_connected;
}

module _ {A : Type 0} (o : StrictOrder A) where
  insert_sorted : A → List A → List A
  insert_sorted x [] = x ∷ []
  insert_sorted x (y ∷ ys) =
      let rest = insert_sorted x ys in if o.lt y x then y ∷ rest else x ∷ y ∷ ys

  -- `std::sort`. The order is total, so that every sorting algorithm returns this list.
  unfoldable pub sort : List A → List A
  unfolding insert_sorted
  sort [] = []
  sort (x ∷ xs) = insert_sorted x (sort xs)

  -- No item is below one that stands before it.
  abbrev pub IsSorted : List A → Type 0
  IsSorted [] = Unit
  IsSorted (x ∷ xs) = All (λ y. o.lt y x ≡ false) xs × IsSorted xs

  pub lt_asymm : (a b : A) → o.lt a b ≡ true → o.lt b a ≡ false
  lt_asymm a b h = elim (Bool-cases (o.lt b a)) [
    | inl k ↦ cc (o.trans a b a h k, o.irrefl a)
    | inr k ↦ k
  ]

  -- a < b and b ≤ c give a < c; a ≤ b and b < c give a < c.
  pub lt_of_lt_of_le : (a b c : A) → o.lt a b ≡ true → o.lt c b ≡ false → o.lt a c ≡ true
  lt_of_lt_of_le a b c h k = elim (Bool-cases (o.lt a c)) [
    | inl e ↦ e
    | inr e ↦ elim (Bool-cases (o.lt c a)) [
      | inl e' ↦ cc (o.trans c a b e' h)
      | inr e' ↦ cc (o.connected a c e e')
    ]
  ]

  pub lt_of_le_of_lt : (a b c : A) → o.lt b a ≡ false → o.lt b c ≡ true → o.lt a c ≡ true
  lt_of_le_of_lt a b c h k = elim (Bool-cases (o.lt a c)) [
    | inl e ↦ e
    | inr e ↦ elim (Bool-cases (o.lt c a)) [
      | inl e' ↦ cc (o.trans b c a k e')
      | inr e' ↦ cc (o.connected a c e e')
    ]
  ]

  le_trans_lt : (a b c : A) → o.lt b a ≡ false → o.lt c b ≡ false → o.lt c a ≡ false
  le_trans_lt a b c h k = elim (Bool-cases (o.lt c a)) [
    | inl e ↦ cc (lt_of_lt_of_le c a b e h)
    | inr e ↦ e
  ]

  All-le :
      (x y : A) (l : List A)
      → o.lt y x ≡ false
      → All (λ z. o.lt z y ≡ false) l
      → All (λ z. o.lt z x ≡ false) l
  All-le x y [] h a = tt
  All-le x y (z ∷ l) h (hz, a) = (le_trans_lt x y z h hz, All-le x y l h a)

  All-insert : (P : A → Type 0) (x : A) (l : List A) → P x → All P l → All P (insert_sorted x l)
  unfolding insert_sorted
  All-insert P x [] px a = (px, tt)
  All-insert P x (y ∷ l) px (py, a) = elim (Bool-cases (o.lt y x)) [
    | inl e ↦ rw e (py, All-insert P x l px a)
    | inr e ↦ rw e (px, (py, a))
  ]

  insert-IsSorted : (x : A) (l : List A) → IsSorted l → IsSorted (insert_sorted x l)
  unfolding insert_sorted
  insert-IsSorted x [] s = (tt, tt)
  insert-IsSorted x (y ∷ l) (a, s) = elim (Bool-cases (o.lt y x)) [
    | inl e ↦
        rw e (All-insert (λ z. o.lt z y ≡ false) x l (lt_asymm y x e) a, insert-IsSorted x l s)
    | inr e ↦ rw e ((e, All-le x y l e a), (a, s))
  ]

  insert-perm : (x : A) (l : List A) → Perm (insert_sorted x l) (x ∷ l)
  unfolding insert_sorted
  insert-perm x [] = Perm.rfl
  insert-perm x (y ∷ l) = elim (Bool-cases (o.lt y x)) [
    | inl e ↦ rw e (Perm.trans (Perm.cons y (insert-perm x l)) (Perm.swap x y l))
    | inr e ↦ rw e Perm.rfl
  ]

  -- `sort` returns a sorted list,
  pub sort-IsSorted : (l : List A) → IsSorted (sort l)
  unfolding sort
  sort-IsSorted [] = tt
  sort-IsSorted (x ∷ l) = insert-IsSorted x (sort l) (sort-IsSorted l)

  -- a rearrangement of its argument.
  pub sort-perm : (l : List A) → Perm (sort l) l
  unfolding sort
  sort-perm [] = Perm.rfl
  sort-perm (x ∷ l) = Perm.trans (insert-perm x (sort l)) (Perm.cons x (sort-perm l))
