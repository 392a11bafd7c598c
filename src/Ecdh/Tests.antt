-- ===== src/Ecdh/Tests.antt =====
-- A cipher over the group of two elements, runs of the protocol with it, and the theorems of
-- ECDH-PSI at these inputs.
use mathlib.Core.List.{Perm, reverse, reverse_perm, mem-cons, not-mem-nil, cons-ne-nil}
use mathlib.Core.Bool.{xor}
use mathlib.Core.HLevel.{hedberg}
use mathlib.Core.Logic.Or
use petace_set_ops.Base.{
  ◌≡◌, ◌≢◌, inl, refl, sym, ap, ◌∙◌, List, [], ◌∷◌, ◌++◌, Bool, true, false, arith, Bytes, codes,
  Bytes-discrete, ℕ_discrete, length, get_or, replicate, ◌==◌, if◌then◌else◌, map,
}
use petace_set_ops.Net.{disagreement, connected, done, fail}
use petace_set_ops.Net.Run.{Reach, joined}
use petace_set_ops.Std.Order.{lt_bytes, bytes_order, sort}
use petace_set_ops.Ecdh.Intersection.{
  those_in, calculate_intersection-filter, calculate_cardinality_only-length,
}
use petace_set_ops.Std.Search.{binary_search}
use petace_set_ops.Psi.{collect_loop}
use petace_set_ops.Ecdh.{
  Ecc, EccLaws, the_curve_id, calculate_intersection, calculate_cardinality_only,
  exchange_encrypted_keys,
}
use petace_set_ops.Ecdh.Exchange.{IsSendable, exchange_encrypted_keys_swap}
use petace_set_ops.Ecdh.Party.{Permutes, tag}
use petace_set_ops.Ecdh.Schedules.{
  session, cardinality_session, common, NoCollision, session_intersection,
  cardinality_session_count, session_empty_receiver, session_refused,
}

abbrev odd_length : Bytes → Bool
odd_length [] = false
odd_length (c ∷ key) = xor true (odd_length key)

abbrev two_points : Ecc
two_points = record {
  Point = Bool;
  SecretKey = Bool;
  hash_to_curve = odd_length;
  encrypt = xor;
  point_to_bytes = λ p. replicate 32 0 ++ (if p then 1 else 0) ∷ [];
  point_from_bytes = λ bs. get_or bs 32 0 == 1;
}

xor_comm : (p a b : Bool) → xor (xor p a) b ≡ xor (xor p b) a
unfolding xor
xor_comm true true true = refl
xor_comm true true false = refl
xor_comm true false true = refl
xor_comm true false false = refl
xor_comm false true true = refl
xor_comm false true false = refl
xor_comm false false true = refl
xor_comm false false false = refl

two_points-read : (p : Bool) → two_points.point_from_bytes (two_points.point_to_bytes p) ≡ p
two_points-read true = refl
two_points-read false = refl

two_points_laws : EccLaws two_points
two_points_laws = record {
  encrypt_comm = xor_comm;
  length_point = λ p. refl;
  from_bytes_to_bytes = two_points-read;
}

abbrev keys_s : List Bytes
keys_s = codes "a" ∷ codes "xy" ∷ []

abbrev keys_r : List Bytes
keys_r = codes "xy" ∷ []

reverse-Permutes : Permutes reverse
reverse-Permutes = reverse_perm

Bytes-set : IsSet Bytes
Bytes-set = hedberg Bytes-discrete

distinct_tags : NoCollision (tag two_points true false) keys_s keys_r
unfolding xor
distinct_tags x y mx my e =
    Or.elim (Bytes-set x y) (mem-cons.0 my)
      (λ ey.
        Or.elim (Bytes-set x y) (mem-cons.0 mx)
          (λ ex. absurd (
            apart
              (sym (ap (tag two_points true false) ex) ∙ e ∙ ap (tag two_points true false) ey)))
          (λ mx'.
            Or.elim (Bytes-set x y) (mem-cons.0 mx') (λ ex. ex ∙ sym ey)
              (λ m. absurd (not-mem-nil m))))
      (λ m. absurd (not-mem-nil m))
  where
    apart : tag two_points true false (codes "a") ≢ tag two_points true false (codes "xy")
    apart h = cc

session_intersection_example :
    Reach
      (joined
        (session two_points true
          (record { is_sender = true; curve_id = the_curve_id; obtain_result = true })
          reverse
          keys_s)
        (session two_points false
          (record { is_sender = false; curve_id = the_curve_id; obtain_result = true })
          reverse
          keys_r))
      (joined (done (common keys_s keys_r)) (done (common keys_r keys_s)))
session_intersection_example =
    session_intersection two_points two_points_laws true false true true reverse reverse
      reverse-Permutes reverse-Permutes keys_s keys_r (omega arith) (omega arith) distinct_tags
      (cons-ne-nil _ _) (cons-ne-nil _ _) 0 _ refl

cardinality_session_count_example :
    Reach
      (joined
        (cardinality_session two_points true
          (record { is_sender = true; curve_id = the_curve_id; obtain_result = true })
          reverse
          keys_s)
        (cardinality_session two_points false
          (record { is_sender = false; curve_id = the_curve_id; obtain_result = false })
          reverse
          keys_r))
      (joined (done (length (common keys_s keys_r))) (done 0))
cardinality_session_count_example =
    cardinality_session_count two_points two_points_laws true false true false reverse reverse
      reverse-Permutes reverse-Permutes keys_s keys_r (omega arith) (omega arith) distinct_tags 0 _
      refl

common_run : (common keys_s keys_r ≡ keys_r) × (common keys_r keys_s ≡ keys_r)
unfolding Bytes-discrete ℕ_discrete
common_run = (refl, refl)

session_empty_receiver_example :
    (output : List Bytes) × Perm output keys_s
    × (common keys_s [] ≡ [])
    × Reach
        (joined
          (session two_points true
            (record { is_sender = true; curve_id = the_curve_id; obtain_result = true })
            reverse
            keys_s)
          (session two_points false
            (record { is_sender = false; curve_id = the_curve_id; obtain_result = true })
            reverse
            []))
        (joined (done output) (done []))
session_empty_receiver_example =
    session_empty_receiver two_points two_points_laws true false true reverse reverse
      reverse-Permutes reverse-Permutes keys_s (omega arith) 0 _ refl

session_refused_example :
    Reach
      (joined
        (session two_points true
          (record { is_sender = true; curve_id = 415; obtain_result = true })
          reverse
          keys_s)
        (session two_points false
          (record { is_sender = false; curve_id = 714; obtain_result = true })
          reverse
          keys_r))
      (joined (fail (disagreement "ecc_curve_id")) (fail (disagreement "ecc_curve_id")))
session_refused_example =
    session_refused two_points true false true true 415 714 reverse reverse keys_s keys_r
      (omega arith) (omega arith) (inl (omega arith)) 0 _ refl

keys-IsSendable : IsSendable 2 (codes "xy" ∷ [])
keys-IsSendable = record { sized = omega arith; count_fits = omega arith; bytes_fit = omega arith }

no_keys-IsSendable : IsSendable 2 []
no_keys-IsSendable = record { sized = tt; count_fits = omega arith; bytes_fit = omega arith }

exchange_encrypted_keys_swap_example :
    Reach
      (joined
        (exchange_encrypted_keys true connected (codes "xy" ∷ []) 2)
        (exchange_encrypted_keys false connected [] 2))
      (joined (done []) (done (codes "xy" ∷ [])))
exchange_encrypted_keys_swap_example =
    exchange_encrypted_keys_swap 2 (codes "xy" ∷ []) [] 0 _ (omega arith) keys-IsSendable
      no_keys-IsSendable refl

calculate_intersection-filter_example :
    calculate_intersection
      (sort bytes_order (codes "d" ∷ codes "a" ∷ []))
      (map (λ key. key) keys_s)
      keys_s
      []
    ≡ those_in (λ key. key) (codes "d" ∷ codes "a" ∷ []) keys_s
calculate_intersection-filter_example =
    calculate_intersection-filter (λ key. key) (codes "d" ∷ codes "a" ∷ []) keys_s []
      (cons-ne-nil _ _) (cons-ne-nil _ _)

calculate_cardinality_only-length_example :
    calculate_cardinality_only (sort bytes_order (codes "d" ∷ codes "a" ∷ [])) keys_s
    ≡ length (those_in (λ key. key) (codes "d" ∷ codes "a" ∷ []) keys_s)
calculate_cardinality_only-length_example =
    calculate_cardinality_only-length (codes "d" ∷ codes "a" ∷ []) keys_s

intersection_run :
    calculate_intersection
      (codes "a" ∷ codes "c" ∷ codes "d" ∷ [])
      (codes "d" ∷ codes "b" ∷ codes "a" ∷ [])
      (codes "1" ∷ codes "2" ∷ codes "3" ∷ [])
      []
    ≡ codes "1" ∷ codes "3" ∷ []
unfolding calculate_intersection binary_search lt_bytes collect_loop
intersection_run = refl
