-- ===== src/Std/Search.antt =====
-- `std::binary_search` by `std::lower_bound`.
use mathlib.Core.Bool.{Bool-set}
use mathlib.Core.Logic.Or
use mathlib.Core.List.{Mem, mem-cons, mem-cons_self, mem-cons_of_mem, not-mem-nil}
use mathlib.Core.List.Perm
use petace_set_ops.Base.{
  ℕ, zero, suc, ◌/◌, ◌≤◌, ◌<◌, ◌≡◌, ◌↔◌, inl, inr, refl, sym, ap, ◌∙◌, subst, List, [], ◌∷◌, ◌++◌,
  Bool, true, false, not, ◌&&◌, ◌||◌, Option, none, some, arith, Bool-cases, length, get_or, take,
  drop, length-take, length-drop, All, All-append_inv, if◌then◌else◌,
}
use petace_set_ops.Std.Order.{
  StrictOrder, sort, IsSorted, sort-IsSorted, sort-perm, lt_of_lt_of_le, lt_of_le_of_lt,
}

module _ {A : Type 0} (o : StrictOrder A) where
  -- The item at the lower bound of `v`: of the window that is left, or, where that is empty, the
  -- one behind it. Each round halves the window.
  lower_bound : ℕ → List A → Option A → A → Option A
  lower_bound zero window behind v = behind
  lower_bound (suc fuel) [] behind v = behind
  lower_bound (suc fuel) (x ∷ xs) behind v =
      let half = length (x ∷ xs) / 2 in
      let mid = get_or (x ∷ xs) half x in
      let right = lower_bound fuel (drop (suc half) (x ∷ xs)) behind v in
      let left = lower_bound fuel (take half (x ∷ xs)) (some mid) v in
      if o.lt mid v then right else left

  abbrev is_found : A → Option A → Bool
  is_found v none = false
  is_found v (some m) = not (o.lt v m)

  unfoldable pub binary_search : List A → A → Bool
  unfolding lower_bound
  binary_search sorted v = is_found v (lower_bound (length sorted) sorted none v)

  abbrev same : A → A → Bool
  same a b = not (o.lt a b) && not (o.lt b a)

  -- linear search
  occurs : A → List A → Bool
  occurs v [] = false
  occurs v (x ∷ xs) = same v x || occurs v xs

  occurs-append : (v : A) (l r : List A) → occurs v (l ++ r) ≡ (occurs v l || occurs v r)
  unfolding occurs
  occurs-append v [] r = refl
  occurs-append v (x ∷ l) r = ground (arith, occurs-append v l r)

  same-eq : (a b : A) → same a b ≡ true → a ≡ b
  same-eq a b h = o.connected a b (ground arith) (ground arith)

  occurs_below :
      (v mid : A) (l : List A)
      → All (λ y. o.lt mid y ≡ false) l
      → o.lt mid v ≡ true
      → occurs v l ≡ false
  unfolding occurs
  occurs_below v mid [] a h = refl
  occurs_below v mid (y ∷ l) (ay, a) h =
      let y_lt = lt_of_le_of_lt o y mid v ay h in ground (arith, y_lt, occurs_below v mid l a h)

  occurs_above :
      (v mid : A) (l : List A)
      → All (λ y. o.lt y mid ≡ false) l
      → o.lt v mid ≡ true
      → occurs v l ≡ false
  unfolding occurs
  occurs_above v mid [] a h = refl
  occurs_above v mid (y ∷ l) (ay, a) h =
      let v_lt = lt_of_lt_of_le o v mid y h ay in ground (arith, v_lt, occurs_above v mid l a h)

  IsSorted-append :
      (l r : List A) (mid : A)
      → IsSorted o (l ++ mid ∷ r)
      → IsSorted o l
        × All (λ y. o.lt mid y ≡ false) l
        × IsSorted o r
        × All (λ y. o.lt y mid ≡ false) r
  IsSorted-append [] r mid (a, s) = (tt, tt, s, a)
  IsSorted-append (x ∷ l) r mid (a, s) =
      let (sl, below, sr, above) = IsSorted-append l r mid s in
      let (al, (amid, ar)) = All-append_inv (λ y. o.lt y x ≡ false) l (mid ∷ r) a in
      ((al, sl), (amid, below), sr, above)

  -- What the window's follower must satisfy: not below `v`, and not below the window.
  abbrev Follows : List A → Option A → A → Type 0
  Follows window none v = Unit
  Follows window (some m) v = (o.lt m v ≡ false) × All (λ y. o.lt m y ≡ false) window

  Follows-right :
      (l r : List A) (mid : A) (behind : Option A) (v : A)
      → Follows (l ++ mid ∷ r) behind v
      → Follows r behind v
  Follows-right l r mid none v h = tt
  Follows-right l r mid (some m) v (hv, h) =
      (hv, (All-append_inv (λ y. o.lt m y ≡ false) l (mid ∷ r) h).1.1)

  -- Behind an item above `v` nothing is found.
  is_found_above :
      (l r : List A) (mid : A) (behind : Option A) (v : A)
      → Follows (l ++ mid ∷ r) behind v
      → o.lt v mid ≡ true
      → is_found v behind ≡ false
  is_found_above l r mid none v h k = refl
  is_found_above l r mid (some m) v (hv, h) k =
      let m_mid = (All-append_inv (λ y. o.lt m y ≡ false) l (mid ∷ r) h).1.0 in
      ap not (lt_of_lt_of_le o v mid m k m_mid)

  -- The window is split at its middle.
  split_at :
      (l : List A) (i : ℕ) (d : A) → i < length l → take i l ++ get_or l i d ∷ drop (suc i) l ≡ l
  split_at [] i d h = elim h [ ]
  split_at (x ∷ l) zero d h = refl
  split_at (x ∷ l) (suc i) d h = ap (◌∷◌ x) (split_at l i d (omega arith))

  -- the two rounds, over the parts of the window
  found_right :
      (l r : List A) (mid : A) (behind : Option A) (v : A)
      → IsSorted o (l ++ mid ∷ r)
      → o.lt mid v ≡ true
      → (occurs v r || is_found v behind) ≡ (occurs v (l ++ mid ∷ r) || is_found v behind)
  unfolding occurs
  found_right l r mid behind v s h =
      let parts = IsSorted-append l r mid s in
      ground (arith, occurs-append v l (mid ∷ r), occurs_below v mid l parts.1 h)

  found_left :
      (l r : List A) (mid : A) (behind : Option A) (v : A)
      → IsSorted o (l ++ mid ∷ r)
      → Follows (l ++ mid ∷ r) behind v
      → o.lt mid v ≡ false
      → (occurs v l || is_found v (some mid)) ≡ (occurs v (l ++ mid ∷ r) || is_found v behind)
  unfolding occurs
  found_left l r mid behind v s f h =
      let parts = IsSorted-append l r mid s in
      rw (occurs-append v l (mid ∷ r)) (elim (Bool-cases (o.lt v mid)) [
        | inl above ↦
            rw (is_found_above l r mid behind v f above, occurs_above v mid r parts.3 above, above)
              (ground arith)
        | inr equal ↦ rw (equal, h) (ground arith)
      ])

  lower_bound-occurs :
      (fuel : ℕ) (window : List A) (behind : Option A) (v : A)
      → length window ≤ fuel
      → IsSorted o window
      → Follows window behind v
      → is_found v (lower_bound fuel window behind v) ≡ (occurs v window || is_found v behind)
  unfolding lower_bound
  lower_bound-occurs zero [] behind v le s f = unfold occurs in refl
  lower_bound-occurs zero (x ∷ xs) behind v le s f = absurd (omega arith)
  lower_bound-occurs (suc fuel) [] behind v le s f = unfold occurs in refl
  lower_bound-occurs (suc fuel) (x ∷ xs) behind v le s f = elim (Bool-cases (o.lt mid v)) [
    | inl below ↦ rw below (
        lower_bound-occurs fuel r behind v (omega (arith, length-drop (suc half) (x ∷ xs))) parts.2
          (Follows-right l r mid behind v f')
        ∙ found_right l r mid behind v s' below
        ∙ back)
    | inr above ↦ rw above (
        lower_bound-occurs fuel l (some mid) v (omega (arith, length-take half (x ∷ xs))) parts.0
          (above, parts.1)
        ∙ found_left l r mid behind v s' f' above
        ∙ back)
  ]
    where
      half : ℕ
      half = length (x ∷ xs) / 2

      mid : A
      mid = get_or (x ∷ xs) half x

      l : List A
      l = take half (x ∷ xs)

      r : List A
      r = drop (suc half) (x ∷ xs)

      whole : l ++ mid ∷ r ≡ x ∷ xs
      whole = split_at (x ∷ xs) half x (omega arith)

      s' : IsSorted o (l ++ mid ∷ r)
      s' = subst (IsSorted o) (sym whole) s

      f' : Follows (l ++ mid ∷ r) behind v
      f' = subst (λ w. Follows w behind v) (sym whole) f

      parts :
          IsSorted o l
          × All (λ y. o.lt mid y ≡ false) l
          × IsSorted o r
          × All (λ y. o.lt y mid ≡ false) r
      parts = IsSorted-append l r mid s'

      back :
          (occurs v (l ++ mid ∷ r) || is_found v behind) ≡ (occurs v (x ∷ xs) || is_found v behind)
      back = ap (λ w. occurs v w || is_found v behind) whole

  occurs_sound : (v : A) (l : List A) → occurs v l ≡ true → Mem v l
  unfolding occurs
  occurs_sound v [] h = cc
  occurs_sound v (x ∷ l) h = elim (Bool-cases (same v x)) [
    | inl e ↦ rw (same-eq v x e) mem-cons_self
    | inr e ↦ mem-cons_of_mem x (occurs_sound v l (rw e at h))
  ]

  occurs_complete : (v : A) (l : List A) → Mem v l → occurs v l ≡ true
  unfolding occurs
  occurs_complete v [] m = absurd (not-mem-nil m)
  occurs_complete v (x ∷ l) m =
      Or.elim (Bool-set _ _) (mem-cons.0 m) (λ e. rw e (ground (arith, o.irrefl x)))
        (λ m'. ground (arith, occurs_complete v l m'))

  -- Binary search in a sorted list finds exactly its items.
  pub binary_search-mem : (l : List A) (v : A) → IsSorted o l → (binary_search l v ≡ true) ↔ Mem v l
  unfolding binary_search
  binary_search-mem l v s =
      let e = lower_bound-occurs (length l) l none v (omega arith) s tt in
      (λ h. occurs_sound v l (ground (arith, e, h)), λ m. ground (arith, e, occurs_complete v l m))

  -- So it finds in the sorted copy of any list exactly that list's items.
  pub binary_search-sort : (l : List A) (v : A) → (binary_search (sort o l) v ≡ true) ↔ Mem v l
  binary_search-sort l v =
      let (sound, complete) = binary_search-mem (sort o l) v (sort-IsSorted o l) in
      (
        λ h. (Perm.mem_iff (sort-perm o l)).0 (sound h),
        λ m. complete ((Perm.mem_iff (sort-perm o l)).1 m),
      )
