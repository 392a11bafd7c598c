-- ===== src/Ecdh/Schedules.antt =====
-- ECDH-PSI from `init` to the end of `process`, for every interleaving of the two parties.
use mathlib.Core.List.{filter, filter_congr, dec_mem, Mem, mem-map_of_mem, exists_of_mem-map, Perm}
use mathlib.Core.List.Perm
use mathlib.Core.Logic.{∥∥₁_elim}
use mathlib.Core.Path.{subst₂}
use petace_set_ops.Base.{
  ℕ, ◌≡◌, ◌≢◌, ◌⊎◌, refl, sym, subst, ◌^◌, ◌<◌, List, [], ◌∷◌, map, Bool, true, false, arith, Bytes,
  Bytes-discrete, length, if◌then◌else◌,
}
use petace_set_ops.Net.{connected, Proc, done, fail, ◌>>=◌}
use petace_set_ops.Net.Run.{Sys, Steps, Reach, joined}
use petace_set_ops.Net.Meet.{Meets, Meets-bind, Meets-every_schedule, Meets-onward, Reach-trans}
use petace_set_ops.Ecdh.{
  Ecc, EccLaws, Params, the_curve_id, init, process, process_cardinality_only,
}
use petace_set_ops.Ecdh.Intersection.{those_in, those_in-nil}
use petace_set_ops.Ecdh.Party.{
  Permutes, FitsBuffer, shuffled, sender, receiver, tag, outcome, shuffled-perm,
}
use petace_set_ops.Ecdh.Protocol.{process-Meets, process_cardinality_only-Meets}
use petace_set_ops.Ecdh.Init.{init-Meets, init_refused-Meets, refusal}

-- The calls that a user makes: `psi.init(net, params); psi.process(net, keys, output_keys);`
unfoldable pub session :
    (ecc : Ecc) → ecc.SecretKey → Params → (List ℕ → List ℕ) → List Bytes → Proc (List Bytes)
session ecc sk params shuffle keys = do
  psi ← init ecc sk params
  process ecc psi shuffle connected keys

unfoldable pub cardinality_session :
    (ecc : Ecc) → ecc.SecretKey → Params → (List ℕ → List ℕ) → List Bytes → Proc ℕ
cardinality_session ecc sk params shuffle keys = do
  psi ← init ecc sk params
  process_cardinality_only ecc psi shuffle connected keys

-- The keys that also stand in the other list, in their own order.
abbrev pub common : List Bytes → List Bytes → List Bytes
common mine theirs = filter (λ key. dec_mem Bytes-discrete key theirs) mine

-- Different keys of the two parties have different tags.
abbrev pub NoCollision : (Bytes → Bytes) → List Bytes → List Bytes → Type 0
NoCollision value xs ys = (x y : Bytes) → Mem x xs → Mem y ys → value x ≡ value y → x ≡ y

-- With distinct tags, keys that share a tag are common keys.
those_in-common :
    (value : Bytes → Bytes) (xs ys : List Bytes)
    → NoCollision value xs ys
    → those_in value (map value ys) xs ≡ common xs ys
those_in-common value xs ys distinct = filter_congr _ _ xs λ x mx. (
  λ m.
      ∥∥₁_elim (exists_of_mem-map m) squash₁
        (λ (y, my, e). subst (λ z. Mem z ys) (sym (distinct x y mx my (sym e))) my),
  mem-map_of_mem value,
)

NoCollision-sym :
    (value : Bytes → Bytes) (xs ys : List Bytes) → NoCollision value xs ys → NoCollision value ys xs
NoCollision-sym value xs ys distinct y x my mx e = sym (distinct x y mx my (sym e))

outcome-common :
    (value : Bytes → Bytes) (xs shuffled_xs ys : List Bytes)
    → NoCollision value xs ys
    → ys ≢ []
    → outcome value xs shuffled_xs ys ≡ common xs ys
outcome-common value xs shuffled_xs [] distinct ne = absurd (ne refl)
outcome-common value xs shuffled_xs (y ∷ ys) distinct ne =
    those_in-common value xs (y ∷ ys) distinct

shuffled-nil : (shuffle : List ℕ → List ℕ) → Permutes shuffle → shuffled shuffle [] ≡ []
shuffled-nil shuffle permutes = Perm.eq-nil (shuffled-perm shuffle permutes [])

-- A party without keys has an empty output.
empty_output :
    (obtains : Bool) (value : Bytes → Bytes) (theirs : List Bytes) {shuffled_none : List Bytes}
    → shuffled_none ≡ []
    → (if obtains then outcome value [] shuffled_none theirs else []) ≡ []
empty_output false value theirs e = refl
empty_output true value [] e = e
empty_output true value (y ∷ theirs) e = refl

module _ (ecc : Ecc) (laws : EccLaws ecc) (sk_s sk_r : ecc.SecretKey) (a b : Bool)
    (shuffle_s shuffle_r : List ℕ → List ℕ) (permutes_s : Permutes shuffle_s)
    (permutes_r : Permutes shuffle_r) (xs ys : List Bytes) (fits_s : FitsBuffer xs)
    (fits_r : FitsBuffer ys) where
  abbrev sender_params : Params
  sender_params = record { is_sender = true; curve_id = the_curve_id; obtain_result = a }

  abbrev receiver_params : Params
  receiver_params = record { is_sender = false; curve_id = the_curve_id; obtain_result = b }

  abbrev tag_of : Bytes → Bytes
  tag_of = tag ecc sk_s sk_r

  session-Meets :
      Meets
        (session ecc sk_s sender_params shuffle_s xs)
        (session ecc sk_r receiver_params shuffle_r ys)
        (done (if a then outcome tag_of xs (shuffled shuffle_s xs) ys else []))
        (done (if b then outcome tag_of ys (shuffled shuffle_r ys) xs else []))
  unfolding session
  session-Meets =
      Meets-bind _ _ _ _ (sender ecc sk_s sk_r a b) (receiver ecc sk_s sk_r a b) _ _
        (init-Meets ecc sk_s sk_r a b the_curve_id the_curve_id refl refl)
        (process-Meets ecc laws sk_s sk_r a b shuffle_s shuffle_r permutes_s permutes_r xs ys fits_s
          fits_r)

  session_intersection-Meets :
      NoCollision tag_of xs ys
      → xs ≢ []
      → ys ≢ []
      → Meets
          (session ecc sk_s sender_params shuffle_s xs)
          (session ecc sk_r receiver_params shuffle_r ys)
          (done (if a then common xs ys else []))
          (done (if b then common ys xs else []))
  session_intersection-Meets distinct nx ny =
      subst₂
        (λ l r.
          Meets (session ecc sk_s sender_params shuffle_s xs)
            (session ecc sk_r receiver_params shuffle_r ys) (done (if a then l else []))
            (done (if b then r else [])))
        (outcome-common tag_of xs (shuffled shuffle_s xs) ys distinct ny)
        (outcome-common tag_of ys (shuffled shuffle_r ys) xs (NoCollision-sym tag_of xs ys distinct)
          nx)
        session-Meets

  -- Let both parties hold keys, different keys of theirs have different tags, the shuffles permute,
  -- and the encrypted keys fit a buffer. Then whatever calls the two sessions have made so far, from
  -- `init` on and in any interleaving, they can go on to their ends: a party that obtains the result
  -- has exactly its keys that the other party holds too, in its own order and as often as it holds
  -- them, and a party that does not has an empty output.
  pub session_intersection :
      NoCollision tag_of xs ys
      → xs ≢ []
      → ys ≢ []
      → (m : ℕ) (u : Sys (List Bytes) (List Bytes))
      → Steps m
          (joined
            (session ecc sk_s sender_params shuffle_s xs)
            (session ecc sk_r receiver_params shuffle_r ys))
          u
      → Reach u
          (joined (done (if a then common xs ys else [])) (done (if b then common ys xs else [])))
  session_intersection distinct nx ny m u =
      Meets-every_schedule _ _ _ _ m u (session_intersection-Meets distinct nx ny) tt tt

  -- Let different keys of the two parties have different tags, the shuffles permute, and the
  -- encrypted keys fit a buffer; lists may be empty. Then every interleaving of the two sessions with
  -- `process_cardinality_only` goes on to an end at which a party that obtains the result has the
  -- number of its keys that the other holds too, repetitions counted, and one that does not has 0.
  pub cardinality_session_count :
      NoCollision tag_of xs ys
      → (m : ℕ) (u : Sys ℕ ℕ)
      → Steps m
          (joined
            (cardinality_session ecc sk_s sender_params shuffle_s xs)
            (cardinality_session ecc sk_r receiver_params shuffle_r ys))
          u
      → Reach u (
          joined
            (done (if a then length (common xs ys) else 0))
            (done (if b then length (common ys xs) else 0)))
  unfolding cardinality_session
  cardinality_session_count distinct m u =
      Meets-every_schedule _ _ _ _ m u
        (Meets-bind _ _ _ _ (sender ecc sk_s sk_r a b) (receiver ecc sk_s sk_r a b) _ _
          (init-Meets ecc sk_s sk_r a b the_curve_id the_curve_id refl refl)
          (subst₂
            (λ l r.
              Meets (process_cardinality_only ecc (sender ecc sk_s sk_r a b) shuffle_s connected xs)
                (process_cardinality_only ecc (receiver ecc sk_s sk_r a b) shuffle_r connected ys)
                (done (if a then length l else 0)) (done (if b then length r else 0)))
            (those_in-common tag_of xs ys distinct)
            (those_in-common tag_of ys xs (NoCollision-sym tag_of xs ys distinct))
            (process_cardinality_only-Meets ecc laws sk_s sk_r a b shuffle_s shuffle_r permutes_s
              permutes_r xs ys fits_s fits_r)))
        tt tt

-- A receiver with no keys at all, and a sender that obtains the result: with a shuffle that permutes
-- and keys that fit a buffer, every interleaving of the two sessions goes on to an end at which the
-- sender's output is not empty but holds all of its own keys, rearranged. The intersection is empty.
pub session_empty_receiver :
    (ecc : Ecc) (laws : EccLaws ecc) (sk_s sk_r : ecc.SecretKey) (b : Bool)
    (shuffle_s shuffle_r : List ℕ → List ℕ)
    → Permutes shuffle_s
    → Permutes shuffle_r
    → (xs : List Bytes) → FitsBuffer xs
    → (m : ℕ) (u : Sys (List Bytes) (List Bytes))
    → Steps m
        (joined
          (session ecc sk_s
            (record { is_sender = true; curve_id = the_curve_id; obtain_result = true })
            shuffle_s
            xs)
          (session ecc sk_r
            (record { is_sender = false; curve_id = the_curve_id; obtain_result = b })
            shuffle_r
            []))
        u
    → (output : List Bytes) × Perm output xs
      × (common xs [] ≡ [])
      × Reach u (joined (done output) (done []))
session_empty_receiver ecc laws sk_s sk_r b shuffle_s shuffle_r permutes_s permutes_r xs fits m u
      st =
    (
      shuffled shuffle_s xs,
      shuffled-perm shuffle_s permutes_s xs,
      those_in-nil (λ key. key) xs,
      Meets-every_schedule _ _ _ _ m u
          (Reach-trans _ _ _
            (session-Meets ecc laws sk_s sk_r true b shuffle_s shuffle_r permutes_s permutes_r xs []
              fits (omega arith))
            (
              0,
              λ i. joined (done (shuffled shuffle_s xs)) (
                  done
                    (empty_output b (tag ecc sk_s sk_r) xs (shuffled-nil shuffle_r permutes_r) i)),
            ))
          tt tt st,
    )

-- Both sessions throw in `init`, in every interleaving, if the curves differ or are not the
-- supported one, and nobody gets an output.
pub session_refused :
    (ecc : Ecc) (sk_s sk_r : ecc.SecretKey) (a b : Bool) (c d : ℕ)
    (shuffle_s shuffle_r : List ℕ → List ℕ) (xs ys : List Bytes)
    → c < 2 ^ 32
    → d < 2 ^ 32
    → (c ≢ d) ⊎ (c ≢ the_curve_id)
    → (m : ℕ) (u : Sys (List Bytes) (List Bytes))
    → Steps m
        (joined
          (session ecc sk_s
            (record { is_sender = true; curve_id = c; obtain_result = a })
            shuffle_s
            xs)
          (session ecc sk_r
            (record { is_sender = false; curve_id = d; obtain_result = b })
            shuffle_r
            ys))
        u
    → Reach u (joined (fail (refusal c d)) (fail (refusal d c)))
unfolding session
session_refused ecc sk_s sk_r a b c d shuffle_s shuffle_r xs ys hc hd h m u =
    Meets-every_schedule _ _ _ _ m u
      (Meets-onward _ _ _ _ _ _ (init_refused-Meets ecc sk_s sk_r a b c d hc hd h)) tt tt
