-- ===== src/Ecdh/Party.antt =====
-- One party's part of a run: its shuffled keys, what it sends, and what it makes of what it receives.
use mathlib.Core.List.{Perm, cons-ne-nil, dec_mem, filter-map}
use mathlib.Core.List.Perm
use petace_set_ops.Base.{
  ℕ, ◌-◌, ◌*◌, ◌^◌, ◌<◌, ◌≤◌, ◌≡◌, ◌≢◌, refl, ap, ◌∙◌, subst, List, [], ◌∷◌, map, Bool, true, false,
  arith, inl, inr, Bytes, Bytes-discrete, length, length-map, drop, if◌then◌else◌,
}
use petace_set_ops.Std.Order.{bytes_order, sort}
use petace_set_ops.Util.Permutation.{generate_permutation, permute_and_undo}
use petace_set_ops.Util.Permutation.RoundTrip.{
  IsPermutation, generate_permutation-IsPermutation, undo-map-permute, length-permuted,
  permute-perm,
}
use petace_set_ops.Psi.{k_ecc_point_len, k_ecc_compare_bytes_len}
use petace_set_ops.Psi.Unpack.{AllOfLength}
use petace_set_ops.Ecdh.{Ecc, EcdhPsi, calculate_intersection, calculate_cardinality_only}
use petace_set_ops.Ecdh.Exchange.{IsSendable}
use petace_set_ops.Ecdh.Intersection.{
  those_in, those_in-perm, length-those_in_perm, calculate_intersection-filter,
  calculate_intersection_empty, calculate_cardinality_only-length,
}

-- What the shuffle of the standard library promises.
abbrev pub Permutes : (List ℕ → List ℕ) → Type 0
Permutes shuffle = (l : List ℕ) → Perm (shuffle l) l

-- So many keys that the encrypted ones fit a buffer.
abbrev pub FitsBuffer : List Bytes → Type 0
FitsBuffer keys = length keys * k_ecc_point_len < 2 ^ 64

-- the keys in the order in which they are encrypted
abbrev pub shuffled : (List ℕ → List ℕ) → List Bytes → List Bytes
shuffled shuffle keys =
    permute_and_undo [] (generate_permutation shuffle (length keys) []) true keys

module _ (ecc : Ecc) (sk_s sk_r : ecc.SecretKey) where
  -- The objects of the two parties after `init`: `a` says whether the sender obtains the result, `b`
  -- whether the receiver does.
  abbrev pub sender : Bool → Bool → EcdhPsi ecc
  sender a b = record { is_sender = true; obtain_result = a; remote_obtain_result = b; sk = sk_s }

  abbrev pub receiver : Bool → Bool → EcdhPsi ecc
  receiver a b = record {
    is_sender = false;
    obtain_result = b;
    remote_obtain_result = a;
    sk = sk_r;
  }

  -- The value that is compared: the last bytes of the key's point under both secret keys.
  abbrev pub tag : Bytes → Bytes
  tag key =
      drop (k_ecc_point_len - k_ecc_compare_bytes_len)
        (ecc.point_to_bytes (ecc.encrypt (ecc.encrypt (ecc.hash_to_curve key) sk_s) sk_r))

-- What `process` leaves in the output of a party that obtains the result: its own keys whose tag the
-- peer has too, but, where the peer has no keys, its own keys as it shuffled them.
abbrev pub outcome : (Bytes → Bytes) → List Bytes → List Bytes → List Bytes → List Bytes
outcome value mine shuffled_mine [] = shuffled_mine
outcome value mine shuffled_mine (y ∷ theirs) = those_in value (map value (y ∷ theirs)) mine

sort-nil : sort bytes_order [] ≡ []
unfolding sort
sort-nil = refl

map-ne-nil : (f : Bytes → Bytes) (l : List Bytes) → l ≢ [] → map f l ≢ []
map-ne-nil f [] h e = h refl
map-ne-nil f (x ∷ l) h e = cc

perm-ne-nil : {l m : List Bytes} → Perm l m → m ≢ [] → l ≢ []
perm-ne-nil {m = m} p h e = h (Perm.eq-nil (Perm.symm (subst (λ k. Perm k m) e p)))

pub calculate_intersection-outcome :
    (value : Bytes → Bytes) (mine shuffled_mine theirs shuffled_theirs : List Bytes)
    → Perm shuffled_mine mine
    → Perm shuffled_theirs theirs
    → calculate_intersection
        (sort bytes_order (map value shuffled_theirs))
        (map value mine)
        mine
        shuffled_mine
      ≡ outcome value mine shuffled_mine theirs
calculate_intersection-outcome value mine shuffled_mine [] shuffled_theirs pm pt =
    calculate_intersection_empty _ _ _ _
      (inl (ap (λ l. sort bytes_order (map value l)) (Perm.eq-nil pt) ∙ sort-nil))
calculate_intersection-outcome value [] shuffled_mine (y ∷ theirs) shuffled_theirs pm pt =
    calculate_intersection_empty _ _ _ _ (inr (inl refl)) ∙ Perm.eq-nil pm
calculate_intersection-outcome value (x ∷ mine) shuffled_mine (y ∷ theirs) shuffled_theirs pm pt =
    calculate_intersection-filter value (map value shuffled_theirs) (x ∷ mine) shuffled_mine
      (map-ne-nil value shuffled_theirs (perm-ne-nil pt (cons-ne-nil y theirs)))
      (cons-ne-nil x mine)
    ∙ those_in-perm value (Perm.map value pt) (x ∷ mine)

pub AllOfLength-map :
    (width : ℕ) (f : Bytes → Bytes) (keys : List Bytes)
    → ((key : Bytes) → length (f key) ≡ width)
    → AllOfLength width (map f keys)
AllOfLength-map width f [] h = tt
AllOfLength-map width f (key ∷ keys) h = (h key, AllOfLength-map width f keys h)

module _ (shuffle : List ℕ → List ℕ) (permutes : Permutes shuffle) (keys : List Bytes) where
  shuffled-IsPermutation :
      IsPermutation (length keys) (generate_permutation shuffle (length keys) [])
  shuffled-IsPermutation = generate_permutation-IsPermutation shuffle (length keys) [] permutes

  pub length-shuffled : length (shuffled shuffle keys) ≡ length keys
  length-shuffled = length-permuted [] _ keys shuffled-IsPermutation

  pub shuffled-perm : Perm (shuffled shuffle keys) keys
  shuffled-perm = permute-perm [] _ keys shuffled-IsPermutation

  pub unshuffled :
      (value : Bytes → Bytes)
      → permute_and_undo []
          (generate_permutation shuffle (length keys) [])
          false
          (map value (shuffled shuffle keys))
        ≡ map value keys
  unshuffled value = undo-map-permute [] _ keys shuffled-IsPermutation [] value

  -- the last step of `process`
  pub obtained :
      (obtains : Bool) (value : Bytes → Bytes) (theirs shuffled_theirs : List Bytes)
      → Perm shuffled_theirs theirs
      → (if obtains
          then calculate_intersection
              (sort bytes_order (map value shuffled_theirs))
              (permute_and_undo []
                (generate_permutation shuffle (length keys) [])
                false
                (if obtains then map value (shuffled shuffle keys) else []))
              keys
              (shuffled shuffle keys)
          else [])
        ≡ (if obtains then outcome value keys (shuffled shuffle keys) theirs else [])
  obtained false value theirs shuffled_theirs p = refl
  obtained true value theirs shuffled_theirs p = rw (unshuffled value) (
      calculate_intersection-outcome value keys (shuffled shuffle keys) theirs shuffled_theirs
        shuffled-perm p)

  -- the last step of `process_cardinality_only`
  pub counted :
      (obtains : Bool) (value : Bytes → Bytes) (theirs shuffled_theirs : List Bytes)
      → Perm shuffled_theirs theirs
      → (if obtains
          then calculate_cardinality_only
              (sort bytes_order (map value shuffled_theirs))
              (if obtains then map value (shuffled shuffle keys) else [])
          else 0)
        ≡ (if obtains then length (those_in value (map value theirs) keys) else 0)
  counted false value theirs shuffled_theirs p = refl
  counted true value theirs shuffled_theirs p =
      calculate_cardinality_only-length (map value shuffled_theirs)
        (map value (shuffled shuffle keys))
      ∙ ap length
          (those_in-perm (λ key. key) (Perm.map value p) (map value (shuffled shuffle keys)))
      ∙ ap length (
          filter-map (λ x. dec_mem Bytes-discrete x (map value theirs)) value
            (shuffled shuffle keys))
      ∙ length-map value (those_in value (map value theirs) (shuffled shuffle keys))
      ∙ length-those_in_perm value (map value theirs) shuffled-perm

  pub IsSendable-map :
      (width : ℕ) (value : Bytes → Bytes)
      → FitsBuffer keys
      → width ≤ k_ecc_point_len
      → ((key : Bytes) → length (value key) ≡ width)
      → IsSendable width (map value (shuffled shuffle keys))
  IsSendable-map width value fits le sized = record {
    sized = AllOfLength-map width value (shuffled shuffle keys) sized;
    count_fits = omega (arith, length-map value (shuffled shuffle keys), length-shuffled);
    bytes_fit = grind (arith, length-map value (shuffled shuffle keys), length-shuffled);
  }
