-- ===== src/Ecdh/Protocol.antt =====
-- One run of `process` and of `process_cardinality_only` on both sides.
use petace_set_ops.Base.{
  ℕ, ◌≡◌, refl, ap, List, [], ◌∷◌, map, Bool, true, false, arith, Bytes, length, length-drop, drop,
  if◌then◌else◌,
}
use petace_set_ops.Net.{connected, done}
use petace_set_ops.Net.Run.{joined}
use petace_set_ops.Net.Meet.{Meets, Meets-bind}
use petace_set_ops.Psi.{k_ecc_point_len, k_ecc_compare_bytes_len}
use petace_set_ops.Ecdh.{
  Ecc, EccLaws, EcdhPsi, encrypt_keys, doublely_encrypt_keys, exchange_encrypted_keys, process,
  process_cardinality_only,
}
use petace_set_ops.Ecdh.Party.{
  Permutes, FitsBuffer, shuffled, sender, receiver, tag, outcome, shuffled-perm, obtained, counted,
  IsSendable-map,
}
use petace_set_ops.Ecdh.Exchange.{IsSendable, exchange_encrypted_keys-Meets}
use petace_set_ops.Ecdh.Intersection.{those_in}

module _ (ecc : Ecc) (laws : EccLaws ecc) (sk_s sk_r : ecc.SecretKey) (a b : Bool)
    (shuffle_s shuffle_r : List ℕ → List ℕ) (permutes_s : Permutes shuffle_s)
    (permutes_r : Permutes shuffle_r) (xs ys : List Bytes) (fits_s : FitsBuffer xs)
    (fits_r : FitsBuffer ys) where
  abbrev s : EcdhPsi ecc
  s = sender ecc sk_s sk_r a b

  abbrev r : EcdhPsi ecc
  r = receiver ecc sk_s sk_r a b

  abbrev tag_of : Bytes → Bytes
  tag_of = tag ecc sk_s sk_r

  doubled_by_sender :
      (keys : List Bytes) → doublely_encrypt_keys ecc s (encrypt_keys ecc r keys) ≡ map tag_of keys
  unfolding doublely_encrypt_keys encrypt_keys
  doubled_by_sender [] = refl
  doubled_by_sender (key ∷ keys) = simp laws.from_bytes_to_bytes λ i.
      drop 21 (ecc.point_to_bytes (laws.encrypt_comm (ecc.hash_to_curve key) sk_r sk_s i))
      ∷ doubled_by_sender keys i

  doubled_by_receiver :
      (keys : List Bytes) → doublely_encrypt_keys ecc r (encrypt_keys ecc s keys) ≡ map tag_of keys
  unfolding doublely_encrypt_keys encrypt_keys
  doubled_by_receiver [] = refl
  doubled_by_receiver (key ∷ keys) =
      simp laws.from_bytes_to_bytes (ap (◌∷◌ (tag_of key)) (doubled_by_receiver keys))

  length-tag : (key : Bytes) → length (tag_of key) ≡ k_ecc_compare_bytes_len
  length-tag key = omega (
    arith,
    length-drop 21
        (ecc.point_to_bytes (ecc.encrypt (ecc.encrypt (ecc.hash_to_curve key) sk_s) sk_r)),
    laws.length_point (ecc.encrypt (ecc.encrypt (ecc.hash_to_curve key) sk_s) sk_r),
  )

  abbrev pxs : List Bytes
  pxs = shuffled shuffle_s xs

  abbrev pys : List Bytes
  pys = shuffled shuffle_r ys

  -- The first exchange swaps the encrypted keys.
  first_exchange :
      Meets
        (exchange_encrypted_keys true connected (encrypt_keys ecc s pxs) k_ecc_point_len)
        (exchange_encrypted_keys false connected (encrypt_keys ecc r pys) k_ecc_point_len)
        (done (encrypt_keys ecc r pys))
        (done (encrypt_keys ecc s pxs))
  unfolding encrypt_keys
  first_exchange =
      exchange_encrypted_keys-Meets k_ecc_point_len _ _ (omega arith)
        (IsSendable-map shuffle_s permutes_s xs k_ecc_point_len _ fits_s (omega arith)
          (λ key. laws.length_point _))
        (IsSendable-map shuffle_r permutes_r ys k_ecc_point_len _ fits_r (omega arith)
          (λ key. laws.length_point _))

  -- what a party sends back, if the other obtains the result
  abbrev if_obtains : Bool → List Bytes → List Bytes
  if_obtains obtains keys = if obtains then keys else []

  IsSendable-if_obtains :
      (obtains : Bool) (keys : List Bytes)
      → IsSendable k_ecc_compare_bytes_len keys
      → IsSendable k_ecc_compare_bytes_len (if_obtains obtains keys)
  IsSendable-if_obtains true keys h = h
  IsSendable-if_obtains false keys h = record {
    sized = tt;
    count_fits = omega arith;
    bytes_fit = omega arith;
  }

  -- The second swaps the doubly encrypted ones, each only where the other obtains the result.
  second_exchange :
      Meets
        (exchange_encrypted_keys true connected
          (if_obtains b (map tag_of pys))
          k_ecc_compare_bytes_len)
        (exchange_encrypted_keys false connected
          (if_obtains a (map tag_of pxs))
          k_ecc_compare_bytes_len)
        (done (if_obtains a (map tag_of pxs)))
        (done (if_obtains b (map tag_of pys)))
  second_exchange =
      exchange_encrypted_keys-Meets k_ecc_compare_bytes_len _ _ (omega arith)
        (IsSendable-if_obtains b _ (
          IsSendable-map shuffle_r permutes_r ys k_ecc_compare_bytes_len _ fits_r (omega arith)
            length-tag))
        (IsSendable-if_obtains a _ (
          IsSendable-map shuffle_s permutes_s xs k_ecc_compare_bytes_len _ fits_s (omega arith)
            length-tag))

  -- One run of `process`: each party that obtains the result has the outcome for its keys, the other
  -- an empty output.
  pub process-Meets :
      Meets
        (process ecc (sender ecc sk_s sk_r a b) shuffle_s connected xs)
        (process ecc (receiver ecc sk_s sk_r a b) shuffle_r connected ys)
        (done (if a then outcome (tag ecc sk_s sk_r) xs (shuffled shuffle_s xs) ys else []))
        (done (if b then outcome (tag ecc sk_s sk_r) ys (shuffled shuffle_r ys) xs else []))
  unfolding process
  process-Meets =
      let left_result =
        obtained shuffle_s permutes_s xs a tag_of ys pys (shuffled-perm shuffle_r permutes_r ys) in
      let right_result =
        obtained shuffle_r permutes_r ys b tag_of xs pxs (shuffled-perm shuffle_s permutes_s xs) in
      Meets-bind _ _ _ _ (encrypt_keys ecc r pys) (encrypt_keys ecc s pxs) _ _ first_exchange (
        rw (doubled_by_sender pys, doubled_by_receiver pxs)
          (Meets-bind _ _ _ _ (if_obtains a (map tag_of pxs)) (if_obtains b (map tag_of pys)) _ _
            second_exchange (0, λ i. joined (done (left_result i)) (done (right_result i)))))

  -- One run of `process_cardinality_only`: each party that obtains the result has the number of its
  -- keys whose tag the peer has too, the other 0.
  pub process_cardinality_only-Meets :
      Meets
        (process_cardinality_only ecc (sender ecc sk_s sk_r a b) shuffle_s connected xs)
        (process_cardinality_only ecc (receiver ecc sk_s sk_r a b) shuffle_r connected ys)
        (done
          (if a then length (those_in (tag ecc sk_s sk_r) (map (tag ecc sk_s sk_r) ys) xs) else 0))
        (done
          (if b then length (those_in (tag ecc sk_s sk_r) (map (tag ecc sk_s sk_r) xs) ys) else 0))
  unfolding process_cardinality_only
  process_cardinality_only-Meets =
      let left_result =
        counted shuffle_s permutes_s xs a tag_of ys pys (shuffled-perm shuffle_r permutes_r ys) in
      let right_result =
        counted shuffle_r permutes_r ys b tag_of xs pxs (shuffled-perm shuffle_s permutes_s xs) in
      Meets-bind _ _ _ _ (encrypt_keys ecc r pys) (encrypt_keys ecc s pxs) _ _ first_exchange (
        rw (doubled_by_sender pys, doubled_by_receiver pxs)
          (Meets-bind _ _ _ _ (if_obtains a (map tag_of pxs)) (if_obtains b (map tag_of pys)) _ _
            second_exchange (0, λ i. joined (done (left_result i)) (done (right_result i)))))
