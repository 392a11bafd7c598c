-- ===== src/Circuit/Features.antt =====
-- The map from the values of a key to the key's features, which the sender of circuit PSI fills.
use petace_set_ops.Base.{
  ℕ, zero, suc, ◌+◌, ◌<◌, ◌≡◌, ◌≢◌, inl, inr, refl, sym, ap, ◌∙◌, subst, List, [], ◌∷◌, Bool, true,
  false, ◌||◌, arith, Bytes, length, get_or, Bool-cases, if◌then◌else◌,
}
use petace_set_ops.Kkrt.Tables.{eq_bytes}
use petace_set_ops.Kkrt.Matching.{eq_bytes-eq, eq_bytes_self}
use petace_set_ops.Circuit.Tables.{
  at_key, emplace, xor_first, feature_of, emplace_functions, sender_features, receiver_features,
}
use petace_set_ops.Circuit.Locate.{eq_bytes_ne}
use petace_set_ops.Circuit.Words.{get_or-tabulate}

module _ {ℓ} {V : Type ℓ} (d : V) (key : Bytes) where
  -- Whether the key is there.
  has : List (Bytes × V) → Bool
  has [] = false
  has ((k, w) ∷ entries) = eq_bytes k key || has entries

  -- The key is there with the element v.
  abbrev Holds : List (Bytes × V) → V → Type ℓ
  Holds entries v = (has entries ≡ true) × (at_key d key entries ≡ v)

  emplace-absent :
      (entries : List (Bytes × V)) (v : V) → has entries ≡ false → Holds (emplace key v entries) v
  unfolding has at_key emplace
  emplace-absent [] v h = rw (eq_bytes_self key) (refl, refl)
  emplace-absent ((k, w) ∷ entries) v h =
      let differs : eq_bytes k key ≡ false = ground arith in
      let later : has entries ≡ false = ground arith in
      rw (differs, has, at_key, differs) (emplace-absent entries v later)

  emplace_ne-absent :
      (entries : List (Bytes × V)) (other : Bytes) (w : V)
      → other ≢ key
      → has entries ≡ false
      → has (emplace other w entries) ≡ false
  unfolding has emplace
  emplace_ne-absent [] other w ne h = rw (eq_bytes_ne other key ne) refl
  emplace_ne-absent ((k, x) ∷ entries) other w ne h = elim (Bool-cases (eq_bytes k other)) [
    | inl e ↦ rw (e, has) h
    | inr e ↦
        let differs : eq_bytes k key ≡ false = ground arith in
        let later : has entries ≡ false = ground arith in
        rw (e, has, differs) (emplace_ne-absent entries other w ne later)
  ]

  -- An element that is there stays.
  emplace-Holds :
      (entries : List (Bytes × V)) (other : Bytes) (v w : V)
      → Holds entries v
      → Holds (emplace other w entries) v
  unfolding has at_key emplace
  emplace-Holds [] other v w (there, e) = cc there
  emplace-Holds ((k, x) ∷ entries) other v w (there, e) = elim (Bool-cases (eq_bytes k other)) [
    | inl same ↦ rw (same, has, at_key) (there, e)
    | inr differs ↦ elim (Bool-cases (eq_bytes k key)) [
      | inl here ↦
          let is_v : x ≡ v = sym (ap (λ b. if b then x else at_key d key entries) here) ∙ e in
          rw (differs, has, at_key, here) (refl, is_v)
      | inr later ↦
          let rest_there : has entries ≡ true = sym (ap (λ b. b || has entries) later) ∙ there in
          let rest_e : at_key d key entries ≡ v =
            sym (ap (λ b. if b then x else at_key d key entries) later) ∙ e in
          rw (differs, has, at_key, later) (emplace-Holds entries other v w (rest_there, rest_e))
    ]
  ]

module _ (v : Bytes) where
  -- The values of a key that are not v change nothing for v,
  emplace_functions-absent :
      (rounds j : ℕ) (key : Bytes) (feature : List ℕ) (entries : List (Bytes × List ℕ))
      → ((f : ℕ) → f < rounds → xor_first (j + f) key ≢ v)
      → has [] v entries ≡ false
      → has [] v (emplace_functions rounds j key feature entries) ≡ false
  unfolding emplace_functions
  emplace_functions-absent zero j key feature entries others h = h
  emplace_functions-absent (suc rounds) j key feature entries others h =
      let here : j + 0 ≡ j = omega arith in
      emplace_functions-absent rounds (j + 1) key feature _
        (λ f lt e.
          let next : j + suc f ≡ j + 1 + f = omega arith in
          others (suc f) (omega arith) (ap (λ n. xor_first n key) next ∙ e))
        (emplace_ne-absent [] v entries (xor_first j key) feature
          (λ e. others 0 (omega arith) (ap (λ n. xor_first n key) here ∙ e)) h)

  -- an element that is there stays,
  emplace_functions-Holds :
      (rounds j : ℕ) (key : Bytes) (feature x : List ℕ) (entries : List (Bytes × List ℕ))
      → Holds [] v entries x
      → Holds [] v (emplace_functions rounds j key feature entries) x
  unfolding emplace_functions
  emplace_functions-Holds zero j key feature x entries h = h
  emplace_functions-Holds (suc rounds) j key feature x entries h =
      emplace_functions-Holds rounds (j + 1) key feature x _
        (emplace-Holds [] v entries (xor_first j key) x feature h)

  entered :
      (rounds j : ℕ) (key : Bytes) (feature : List ℕ) (entries : List (Bytes × List ℕ))
      → xor_first j key ≡ v
      → has [] v entries ≡ false
      → Holds [] v
          (emplace_functions rounds (j + 1) key feature (emplace (xor_first j key) feature entries))
          feature
  entered rounds j key feature entries e h =
      emplace_functions-Holds rounds (j + 1) key feature feature _ (
        subst (λ k. Holds [] v (emplace k feature entries) feature) (sym e)
          (emplace-absent [] v entries feature h))

  -- and the key of which v is a value enters its feature.
  emplace_functions-enters :
      (rounds j f : ℕ) (key : Bytes) (feature : List ℕ) (entries : List (Bytes × List ℕ))
      → f < rounds
      → xor_first (j + f) key ≡ v
      → has [] v entries ≡ false
      → Holds [] v (emplace_functions rounds j key feature entries) feature
  unfolding emplace_functions
  emplace_functions-enters zero j f key feature entries lt e h = elim lt [ ]
  emplace_functions-enters (suc rounds) j zero key feature entries lt e h =
      let here : j + 0 ≡ j = omega arith in
      entered rounds j key feature entries (ap (λ n. xor_first n key) (sym here) ∙ e) h
  emplace_functions-enters (suc rounds) j (suc f) key feature entries lt e h =
      elim (Bool-cases (eq_bytes (xor_first j key) v)) [
        | inl same ↦ entered rounds j key feature entries (eq_bytes-eq _ _ same) h
        | inr differs ↦
            let next : j + 1 + f ≡ j + suc f = omega arith in
            emplace_functions-enters rounds (j + 1) f key feature _ (omega arith)
              (ap (λ n. xor_first n key) next ∙ e)
              (emplace_ne-absent [] v entries (xor_first j key) feature
                (λ s. cc (differs, sym (eq_bytes_self v) ∙ ap (λ k. eq_bytes k v) (sym s))) h)
      ]

  sender_features-Holds :
      (num_of_fun feature_size i : ℕ) (input_features : List (List ℕ)) (keys : List Bytes)
      (entries : List (Bytes × List ℕ)) (x : List ℕ)
      → Holds [] v entries x
      → Holds [] v (sender_features num_of_fun feature_size i input_features keys entries) x
  unfolding sender_features
  sender_features-Holds num_of_fun feature_size i input_features [] entries x h = h
  sender_features-Holds num_of_fun feature_size i input_features (key ∷ keys) entries x h =
      sender_features-Holds num_of_fun feature_size (i + 1) input_features keys _ x
        (emplace_functions-Holds num_of_fun 0 key _ x entries h)

  -- Under each value of a key that is no value of an earlier key, the sender's map has the key's features.
  sender_features-at_key :
      (num_of_fun feature_size i : ℕ) (input_features : List (List ℕ)) (keys : List Bytes)
      (entries : List (Bytes × List ℕ)) (a f : ℕ)
      → a < length keys
      → f < num_of_fun
      → xor_first f (get_or keys a []) ≡ v
      → ((b g : ℕ) → b < a → g < num_of_fun → xor_first g (get_or keys b []) ≢ v)
      → has [] v entries ≡ false
      → at_key [] v (sender_features num_of_fun feature_size i input_features keys entries)
        ≡ feature_of feature_size input_features (i + a)
  unfolding sender_features
  sender_features-at_key num_of_fun feature_size i input_features [] entries a f la lf e first h =
      elim la [ ]
  sender_features-at_key num_of_fun feature_size i input_features (key ∷ keys) entries zero f la lf
        e first h =
      let here : i ≡ i + 0 = omega arith in
      (sender_features-Holds num_of_fun feature_size (i + 1) input_features keys _ _ (
        emplace_functions-enters num_of_fun 0 f key _ entries lf
          (ap (λ n. xor_first n key) (plain f) ∙ e) h)).1
      ∙ ap (feature_of feature_size input_features) here
    where
      plain : (n : ℕ) → 0 + n ≡ n
      plain n = omega arith
  sender_features-at_key num_of_fun feature_size i input_features (key ∷ keys) entries (suc a) f la
        lf e first h =
      let next : i + 1 + a ≡ i + suc a = omega arith in
      sender_features-at_key num_of_fun feature_size (i + 1) input_features keys _ a f (omega arith)
        lf e (λ b g lb lg. first (suc b) g (omega arith) lg)
        (emplace_functions-absent num_of_fun 0 key _ entries
          (λ g lg s. first 0 g (omega arith) lg (ap (λ n. xor_first n key) (plain g) ∙ s)) h)
      ∙ ap (feature_of feature_size input_features) next
    where
      plain : (n : ℕ) → n ≡ 0 + n
      plain n = omega arith

  receiver_features-Holds :
      (feature_size i : ℕ) (input_features : List (List ℕ)) (keys : List Bytes)
      (entries : List (Bytes × List ℕ)) (x : List ℕ)
      → Holds [] v entries x
      → Holds [] v (receiver_features feature_size i input_features keys entries) x
  unfolding receiver_features
  receiver_features-Holds feature_size i input_features [] entries x h = h
  receiver_features-Holds feature_size i input_features (key ∷ keys) entries x h =
      receiver_features-Holds feature_size (i + 1) input_features keys _ x
        (emplace-Holds [] v entries key x _ h)

  -- Under a key that is no earlier one, the receiver's map has the key's features.
  receiver_features-at_key :
      (feature_size i : ℕ) (input_features : List (List ℕ)) (keys : List Bytes)
      (entries : List (Bytes × List ℕ)) (a : ℕ)
      → a < length keys
      → get_or keys a [] ≡ v
      → ((b : ℕ) → b < a → get_or keys b [] ≢ v)
      → has [] v entries ≡ false
      → at_key [] v (receiver_features feature_size i input_features keys entries)
        ≡ feature_of feature_size input_features (i + a)
  unfolding receiver_features
  receiver_features-at_key feature_size i input_features [] entries a la e first h = elim la [ ]
  receiver_features-at_key feature_size i input_features (key ∷ keys) entries zero la e first h =
      let here : i ≡ i + 0 = omega arith in
      let feature = feature_of feature_size input_features i in
      (receiver_features-Holds feature_size (i + 1) input_features keys _ _ (
        subst (λ k. Holds [] v (emplace k feature entries) feature) (sym e)
          (emplace-absent [] v entries feature h))).1
      ∙ ap (feature_of feature_size input_features) here
  receiver_features-at_key feature_size i input_features (key ∷ keys) entries (suc a) la e first h =
      let next : i + 1 + a ≡ i + suc a = omega arith in
      receiver_features-at_key feature_size (i + 1) input_features keys _ a (omega arith) e
        (λ b lb. first (suc b) (omega arith))
        (emplace_ne-absent [] v entries key _ (first 0 (omega arith)) h)
      ∙ ap (feature_of feature_size input_features) next

-- Feature k of key a, read in the sender's map under the key's value v.
pub feature_at :
    (num_of_fun : ℕ) (x_features : List (List ℕ)) (keys : List Bytes) (v : Bytes) (a f k : ℕ)
    → a < length keys
    → f < num_of_fun
    → xor_first f (get_or keys a []) ≡ v
    → ((b g : ℕ) → b < a → g < num_of_fun → xor_first g (get_or keys b []) ≢ v)
    → k < length x_features
    → get_or (at_key [] v (sender_features num_of_fun (length x_features) 0 x_features keys [])) k 0
      ≡ get_or (get_or x_features k []) a 0
unfolding feature_of has
feature_at num_of_fun x_features keys v a f k la lf e first hk =
    let plain_a : 0 + a ≡ a = omega arith in
    let plain_k : 0 + k ≡ k = omega arith in
    ap (λ r. get_or r k 0)
      (sender_features-at_key v num_of_fun (length x_features) 0 x_features keys [] a f la lf e
        first refl)
    ∙ get_or-tabulate (length x_features) 0 (λ j. get_or (get_or x_features j []) (0 + a) 0) k 0 hk
    ∙ (λ t. get_or (get_or x_features (plain_k t) []) (plain_a t) 0)

-- Feature k of key a, read in the receiver's map.
pub own_feature_at :
    (y_features : List (List ℕ)) (keys : List Bytes) (v : Bytes) (a k : ℕ)
    → a < length keys
    → get_or keys a [] ≡ v
    → ((b : ℕ) → b < a → get_or keys b [] ≢ v)
    → k < length y_features
    → get_or (at_key [] v (receiver_features (length y_features) 0 y_features keys [])) k 0
      ≡ get_or (get_or y_features k []) a 0
unfolding feature_of has
own_feature_at y_features keys v a k la e first hk =
    let plain_a : 0 + a ≡ a = omega arith in
    let plain_k : 0 + k ≡ k = omega arith in
    ap (λ r. get_or r k 0)
      (receiver_features-at_key v (length y_features) 0 y_features keys [] a la e first refl)
    ∙ get_or-tabulate (length y_features) 0 (λ j. get_or (get_or y_features j []) (0 + a) 0) k 0 hk
    ∙ (λ t. get_or (get_or y_features (plain_k t) []) (plain_a t) 0)
