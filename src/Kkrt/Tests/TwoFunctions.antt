-- ===== src/Kkrt/Tests/TwoFunctions.antt =====
-- KKRT-PSI with two functions of which each has a bin of its own, at small inputs.
use mathlib.Core.List.{Perm, flatten}
use mathlib.Core.List.Perm
use petace_set_ops.Base.{
  ℕ, zero, suc, ◌+◌, ◌^◌, ◌<◌, ◌≡◌, refl, sym, ap, subst, List, [], ◌∷◌, map, true, arith, Bytes,
  Bytes-discrete, ℕ_discrete, codes, length, get_or, ◌==◌,
}
use petace_set_ops.Net.{done}
use petace_set_ops.Net.Run.{Reach, joined}
use petace_set_ops.Util.Serialize.{serialize_string_to_char}
use petace_set_ops.Psi.Collect.{count_if}
use petace_set_ops.Ecdh.Intersection.{those_in}
use petace_set_ops.Kkrt.Tables.{Solo}
use petace_set_ops.Kkrt.{process, process_cardinality_only}
use petace_set_ops.Kkrt.Rows.{Entry}
use petace_set_ops.Kkrt.Phases.{sender, receiver}
use petace_set_ops.Kkrt.Contract.{simple_of, TableLaws}
use petace_set_ops.Kkrt.Intersection.{
  NoCollision, process_intersection, process_cardinality_intersection,
}
use petace_set_ops.Kkrt.Tests.{adding, adding_laws}

-- Function f sends every item to bin f. The cuckoo table puts item j there under function j.
abbrev two_functions : Solo
two_functions = record {
  hash = λ key. key;
  num_of_bins = λ n. n;
  simple_table = λ bins seed f items. map (λ v. (v, 0)) items ∷ map (λ v. (v, 1)) items ∷ [];
  cuckoo_table = λ bins seed f items. record {
    stash_size = 0;
    values = items;
    ids = 0 ∷ 1 ∷ [];
    function_ids = 0 ∷ 1 ∷ [];
  };
}

abbrev keys_s : List Bytes
keys_s = codes "a" ∷ codes "b" ∷ []

abbrev keys_r : List Bytes
keys_r = codes "c" ∷ codes "b" ∷ []

abbrev sent_table : List (List (Bytes × ℕ))
sent_table = simple_of two_functions 2 [] keys_s keys_r

entered : (a f : ℕ) → a < 2 → f < 2 → (t : ℕ) × Entry sent_table f t (get_or keys_s a []) f
entered zero zero h k = (0, (omega arith, omega arith, refl))
entered zero (suc zero) h k = (0, (omega arith, omega arith, refl))
entered (suc zero) zero h k = (1, (omega arith, omega arith, refl))
entered (suc zero) (suc zero) h k = (1, (omega arith, omega arith, refl))
entered (suc (suc a)) f h k = absurd (omega arith)
entered a (suc (suc f)) h k = absurd (omega arith)

-- An entry of bin b is entry t of the sender's keys, under function b.
Entry-cases :
    (b t : ℕ) (v : Bytes) (f : ℕ)
    → Entry sent_table b t v f
    → (t < 2) × (v ≡ get_or keys_s t []) × (b ≡ f)
Entry-cases zero zero v f (lt, in_b, e) = (omega arith, sym (ap (λ p. p.0) e), ap (λ p. p.1) e)
Entry-cases zero (suc zero) v f (lt, in_b, e) =
    (omega arith, sym (ap (λ p. p.0) e), ap (λ p. p.1) e)
Entry-cases zero (suc (suc t)) v f (lt, in_b, e) = absurd (omega (arith, in_b))
Entry-cases (suc zero) zero v f (lt, in_b, e) =
    (omega arith, sym (ap (λ p. p.0) e), ap (λ p. p.1) e)
Entry-cases (suc zero) (suc zero) v f (lt, in_b, e) =
    (omega arith, sym (ap (λ p. p.0) e), ap (λ p. p.1) e)
Entry-cases (suc zero) (suc (suc t)) v f (lt, in_b, e) = absurd (omega (arith, in_b))
Entry-cases (suc (suc b)) t v f (lt, in_b, e) = absurd (omega (arith, lt))

row_full : (f : ℕ) → f < 2 → count_if (λ e. e.1 == f) (flatten sent_table) ≡ 2
unfolding count_if flatten
row_full zero h = refl
row_full (suc zero) h = refl
row_full (suc (suc f)) h = absurd (omega arith)

placed :
    (j : ℕ)
    → j < 2
    → (i : ℕ) × (i < 2)
      × (get_or (0 ∷ 1 ∷ []) i 0 ≡ j)
      × (get_or (0 ∷ 1 ∷ []) i 0 < 2)
      × (get_or keys_r i [] ≡ get_or keys_r j [])
      × (i ≡ get_or (0 ∷ 1 ∷ []) i 0)
placed zero h = (0, omega arith, refl, omega arith, refl, refl)
placed (suc zero) h = (1, omega arith, refl, omega arith, refl, refl)
placed (suc (suc j)) h = absurd (omega arith)

held :
    (i : ℕ) (item : Bytes)
    → i < 2
    → get_or keys_r i [] ≡ item
    → (get_or (0 ∷ 1 ∷ []) i 0 < 2) × (item ≡ get_or keys_r (get_or (0 ∷ 1 ∷ []) i 0) [])
held zero item h e = (omega arith, sym e)
held (suc zero) item h e = (omega arith, sym e)
held (suc (suc i)) item h e = absurd (omega arith)

named_once :
    (i i' j : ℕ)
    → i < 2
    → i' < 2
    → get_or (0 ∷ 1 ∷ []) i 0 ≡ j
    → get_or (0 ∷ 1 ∷ []) i' 0 ≡ j
    → i ≡ i'
named_once zero zero j h h' e e' = refl
named_once zero (suc zero) j h h' e e' = absurd (omega (arith, e, e'))
named_once (suc zero) zero j h h' e e' = absurd (omega (arith, e, e'))
named_once (suc zero) (suc zero) j h h' e e' = refl
named_once (suc (suc i)) i' j h h' e e' = absurd (omega arith)
named_once i (suc (suc i')) j h h' e e' = absurd (omega arith)

two_functions_laws : TableLaws two_functions 2 [] keys_s keys_r
two_functions_laws = record {
  tag = λ v f. v;
  address = λ v f. f;
  enough = omega arith;
  entered = entered;
  entry_of = λ b t v f entry. let (lt, e, _) = Entry-cases b t v f entry in (t, lt, e);
  row_full = row_full;
  placed = placed;
  held = held;
  once = λ i i' j h h' lt e e' _ _. named_once i i' j h h' e e';
}

identity_Permutes : (j : ℕ) (l : List ℕ) → Perm l l
identity_Permutes j l = Perm.refl l

-- The first byte of a mask gives the first byte of its value.
apart :
    NoCollision two_functions adding adding_laws true 2 []
      (λ i l. l)
      keys_s
      keys_r
      (omega arith)
      (omega arith)
      two_functions_laws
      identity_Permutes
unfolding adding_laws
apart i b t v lt entry q =
    let (in_t, e, f) = Entry-cases b t v (get_or (0 ∷ 1 ∷ []) i 0) entry in
    let bytes : get_or v 0 0 + 7 ≡ get_or (get_or keys_r i []) 0 0 + 7 =
      ap (λ bs. get_or bs 0 0) q in
    cases i t lt in_t e bytes
  where
    cases :
        (i t : ℕ)
        → i < 2
        → t < 2
        → v ≡ get_or keys_s t []
        → get_or v 0 0 + 7 ≡ get_or (get_or keys_r i []) 0 0 + 7
        → v ≡ get_or keys_r i []
    cases (suc zero) (suc zero) h k e q = e
    cases zero zero h k e q = absurd (omega (arith, q, ap (λ bs. get_or bs 0 0) e))
    cases zero (suc zero) h k e q = absurd (omega (arith, q, ap (λ bs. get_or bs 0 0) e))
    cases (suc zero) zero h k e q = absurd (omega (arith, q, ap (λ bs. get_or bs 0 0) e))
    cases (suc (suc i)) t h k e q = absurd (omega arith)
    cases i (suc (suc t)) h k e q = absurd (omega arith)

common_run : those_in (λ key. key) keys_s keys_r ≡ codes "b" ∷ []
unfolding Bytes-discrete ℕ_discrete
common_run = refl

common_fits : length (serialize_string_to_char (those_in (λ key. key) keys_s keys_r) []) < 2 ^ 64
unfolding serialize_string_to_char
common_fits =
    subst (λ keys. length (serialize_string_to_char keys []) < 2 ^ 64) (sym common_run)
      (omega arith)

process_intersection_example :
    (let result = those_in (λ key. key) keys_s keys_r in
      Reach
        (joined
          (process two_functions adding (sender true 2 []) (λ i l. l) keys_s [])
          (process two_functions adding (receiver true 2 []) (λ i l. l) keys_r []))
        (joined (done result) (done result)))
process_intersection_example =
    process_intersection two_functions adding adding_laws true 2 [] (λ i l. l) keys_s keys_r
      (omega arith) (omega arith) two_functions_laws identity_Permutes [] 0 _ refl refl
      (omega arith) (omega arith) common_fits apart (λ a j la lj e. e) refl

process_cardinality_intersection_example :
    Reach
      (joined
        (process_cardinality_only two_functions adding (sender true 2 []) (λ i l. l) keys_s)
        (process_cardinality_only two_functions adding (receiver true 2 []) (λ i l. l) keys_r))
      (joined (done 1) (done 1))
unfolding Bytes-discrete ℕ_discrete
process_cardinality_intersection_example =
    process_cardinality_intersection two_functions adding adding_laws true 2 [] (λ i l. l) keys_s
      keys_r (omega arith) (omega arith) two_functions_laws identity_Permutes 0 _ refl refl
      (omega arith) (omega arith) apart (λ a j la lj e. e) refl
