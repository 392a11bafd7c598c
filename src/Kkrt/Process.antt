-- ===== src/Kkrt/Process.antt =====
-- `KkrtPSI::process` and `process_cardinality_only` on both sides, in every interleaving.
use petace_set_ops.Base.{
  ℕ, zero, suc, ◌+◌, ◌-◌, subst, ◌*◌, ◌^◌, ◌<◌, ◌≤◌, ◌≡◌, ◌≢◌, refl, List, [], ◌∷◌, Bool, true,
  false, arith, Bytes, length, replicate, set, resize, get_or, ltb, Bool-cases, inl, inr,
  if◌then◌else◌,
}
use petace_set_ops.Net.{done, fail, stash_not_empty, ◌>>◌}
use petace_set_ops.Net.Wire.{size_t, send_value, recv_value}
use petace_set_ops.Net.Run.{Sys, Steps, Reach, joined}
use petace_set_ops.Net.Meet.{
  Meets, Meets-send_left, Meets-send_right, Meets-bind, Meets-every_schedule,
}
use petace_set_ops.Util.Serialize.{serialize_string_to_char}
use petace_set_ops.Util.Serialize.RoundTrip.{LacksZero, AllLackZero, deserialize-serialize}
use petace_set_ops.Psi.{k_reduce_statistics_len, collect_loop}
use petace_set_ops.Kkrt.Tables.{CuckooTable, Solo, Verse, match_loop, bin_matches}
use petace_set_ops.Kkrt.{
  exchange_sizes, sender_phase, receiver_phase, receive_result, send_result, collect_output,
  process, process_cardinality_only,
}
use petace_set_ops.Kkrt.Phases.{VerseLaws, sender, receiver, cuckoo_of, matched, phases-Meets}

module _ (solo : Solo) (verse : Verse) (num_of_fun : ℕ) (seed : Bytes) where
  -- The receiver's result as the sender reads it.
  results-Meets :
      (obtain : Bool) (output_s output : List Bytes)
      → AllLackZero output
      → length (serialize_string_to_char output []) < 2 ^ 64
      → Meets
          (receive_result solo verse (sender obtain num_of_fun seed) output_s)
          (send_result solo verse (receiver obtain num_of_fun seed) output)
          (done (if obtain then output else output_s))
          (done output)
  unfolding receive_result send_result
  results-Meets false output_s output lack fits = (0, refl)
  results-Meets true output_s output lack fits =
      Meets-send_right _ _ _ _ _ _
        (size_t.length-encode (length (serialize_string_to_char output [])))
        (rw (size_t.decode-encode (length (serialize_string_to_char output [])) fits)
          (Meets-send_right _ _ _ _ _ _ refl (rw (deserialize-serialize output [] lack) (0, refl))))

  -- The receiver's count as the sender reads it.
  counts-Meets :
      (obtain : Bool) (n : ℕ)
      → n < 2 ^ 64
      → Meets
          (if obtain then recv_value size_t else done 0)
          (if obtain then send_value size_t n >> done n else done n)
          (done (if obtain then n else 0))
          (done n)
  counts-Meets false n fits = (0, refl)
  counts-Meets true n fits =
      Meets-send_right _ _ _ _ _ _ (size_t.length-encode n)
        (rw (size_t.decode-encode n fits) (0, refl))

-- Keys without a zero byte are collected without one.
set-AllLackZero :
    (l : List Bytes) (i : ℕ) (key : Bytes)
    → AllLackZero l
    → LacksZero key
    → AllLackZero (set l i key)
set-AllLackZero [] i key h k = tt
set-AllLackZero (x ∷ l) zero key (hx, h) k = (k, h)
set-AllLackZero (x ∷ l) (suc i) key (hx, h) k = (hx, set-AllLackZero l i key h k)

replicate-AllLackZero : (n : ℕ) → AllLackZero (replicate n [])
replicate-AllLackZero zero = tt
replicate-AllLackZero (suc n) = (tt, replicate-AllLackZero n)

resize_nil-AllLackZero : (n : ℕ) → AllLackZero (resize n [] [])
resize_nil-AllLackZero zero = tt
resize_nil-AllLackZero (suc n) =
    let all_new : suc n ≡ suc n - 0 = omega arith in
    subst (λ k. AllLackZero (replicate k [])) all_new (replicate-AllLackZero (suc n))

collect_loop-AllLackZero :
    (keys : List Bytes) (idx : ℕ) (flags : List Bool) (output : List Bytes) (result_idx : ℕ)
    → AllLackZero keys
    → AllLackZero output
    → AllLackZero (collect_loop keys idx flags output result_idx)
unfolding collect_loop
collect_loop-AllLackZero [] idx flags output result_idx hk ho = ho
collect_loop-AllLackZero (key ∷ keys) idx flags output result_idx (k, hk) ho =
    elim (Bool-cases (get_or flags idx false)) [
      | inl e ↦ rw e (
          collect_loop-AllLackZero keys (idx + 1) flags _ _ hk
            (set-AllLackZero output result_idx key ho k))
      | inr e ↦ rw e (collect_loop-AllLackZero keys (idx + 1) flags _ _ hk ho)
    ]

match_loop-count :
    (verse : Verse) (table : CuckooTable) (num_of_fun n : ℕ) (masks : List verse.Block)
    (unpacked : List Bytes) (rounds idx : ℕ) (flags : List Bool) (count : ℕ)
    → (match_loop verse table num_of_fun n masks unpacked rounds idx flags count).1 ≤ count + rounds
unfolding match_loop
match_loop-count verse table num_of_fun n masks unpacked zero idx flags count = omega arith
match_loop-count verse table num_of_fun n masks unpacked (suc rounds) idx flags count =
    elim (Bool-cases (bin_matches verse table num_of_fun n masks unpacked idx)) [
      | inl e ↦
          rw (e, match_loop)
            (omega (
              arith,
              match_loop-count verse table num_of_fun n masks unpacked rounds (idx + 1)
                  (set flags (get_or table.ids idx 0) true) (count + 1),
            ))
      | inr e ↦
          rw (e, match_loop)
            (omega (
              arith,
              match_loop-count verse table num_of_fun n masks unpacked rounds (idx + 1) flags count,
            ))
    ]

module _ (solo : Solo) (verse : Verse) (laws : VerseLaws verse) (obtain : Bool) (num_of_fun : ℕ)
    (seed : Bytes) (shuffles : ℕ → List ℕ → List ℕ) (xs ys : List Bytes)
    (count_fits : length xs < 2 ^ 64) (count_fits' : length ys < 2 ^ 64) where
  abbrev table : CuckooTable
  table = cuckoo_of solo num_of_fun seed ys

  abbrev matches : List Bool × ℕ
  matches = matched solo verse laws obtain num_of_fun seed shuffles xs ys count_fits count_fits'

  -- The keys that the receiver collects.
  abbrev pub found_keys : List Bytes
  found_keys = collect_output solo verse (receiver obtain num_of_fun seed) ys [] matches

  found_keys-AllLackZero : AllLackZero ys → AllLackZero found_keys
  unfolding collect_output
  found_keys-AllLackZero h =
      collect_loop-AllLackZero ys 0 matches.0 _ 0 h (resize_nil-AllLackZero matches.1)

  -- Let the receiver's cuckoo table have no stash and as many bins as were asked for, let the sizes
  -- fit their types, and let no key of the receiver contain a zero byte. Then whatever calls the two
  -- parties have made so far, in any interleaving, they can go on to their ends: the receiver with
  -- the keys that its table and the sender's data mark, and the sender, if it may obtain the result,
  -- with exactly the same keys in the same order, and else with its output as it was.
  pub process_same_result :
      (output_s : List Bytes) (m : ℕ) (u : Sys (List Bytes) (List Bytes))
      → table.stash_size ≡ 0
      → length table.values ≡ solo.num_of_bins (length ys)
      → num_of_fun * length xs * k_reduce_statistics_len < 2 ^ 64
      → AllLackZero ys
      → length (serialize_string_to_char found_keys []) < 2 ^ 64
      → Steps m
          (joined
            (process solo verse (sender obtain num_of_fun seed) shuffles xs output_s)
            (process solo verse (receiver obtain num_of_fun seed) shuffles ys []))
          u
      → Reach u (joined (done (if obtain then found_keys else output_s)) (done found_keys))
  unfolding process
  process_same_result output_s m u no_stash full bytes_fit lack fits =
      Meets-every_schedule _ _ _ _ m u
        (Meets-bind _ _ _ _ tt matches _ _
          (phases-Meets solo verse laws obtain num_of_fun seed shuffles xs ys count_fits count_fits'
            no_stash full bytes_fit)
          (results-Meets solo verse num_of_fun seed obtain output_s found_keys
            (found_keys-AllLackZero lack) fits))
        tt tt

  -- Let the receiver's cuckoo table have no stash and as many bins as were asked for, and let the
  -- sizes and the number of bins fit their types. Then every interleaving of the two sides of
  -- `process_cardinality_only` goes on to an end: the receiver with the count of its matching loop,
  -- and the sender, if it may obtain the result, with the same number, and else with 0.
  pub cardinality_same_result :
      (m : ℕ) (u : Sys ℕ ℕ)
      → table.stash_size ≡ 0
      → length table.values ≡ solo.num_of_bins (length ys)
      → num_of_fun * length xs * k_reduce_statistics_len < 2 ^ 64
      → solo.num_of_bins (length ys) < 2 ^ 64
      → Steps m
          (joined
            (process_cardinality_only solo verse (sender obtain num_of_fun seed) shuffles xs)
            (process_cardinality_only solo verse (receiver obtain num_of_fun seed) shuffles ys))
          u
      → Reach u (joined (done (if obtain then matches.1 else 0)) (done matches.1))
  unfolding process_cardinality_only
  cardinality_same_result m u no_stash full bytes_fit bins_fit =
      Meets-every_schedule _ _ _ _ m u
        (Meets-bind _ _ _ _ tt matches _ _
          (phases-Meets solo verse laws obtain num_of_fun seed shuffles xs ys count_fits count_fits'
            no_stash full bytes_fit)
          (counts-Meets solo verse num_of_fun seed obtain matches.1 few))
        tt tt
    where
      few : matches.1 < 2 ^ 64
      few = omega (
        arith,
        match_loop-count verse table num_of_fun (length xs) _ _ (solo.num_of_bins (length ys)) 0
            (replicate (solo.num_of_bins (length ys)) false) 0,
      )

-- A receiver whose cuckoo table has a stash that is not empty: in every interleaving both parties
-- throw, and nobody gets an output, if the sizes fit their types.
pub process_stash :
    (solo : Solo) (verse : Verse) (obtain : Bool) (num_of_fun : ℕ) (seed : Bytes)
    (shuffles : ℕ → List ℕ → List ℕ) (xs ys output_s output_r : List Bytes) (m : ℕ)
    (u : Sys (List Bytes) (List Bytes))
    → length xs < 2 ^ 64
    → length ys < 2 ^ 64
    → (cuckoo_of solo num_of_fun seed ys).stash_size ≢ 0
    → (cuckoo_of solo num_of_fun seed ys).stash_size < 2 ^ 64
    → Steps m
        (joined
          (process solo verse (sender obtain num_of_fun seed) shuffles xs output_s)
          (process solo verse (receiver obtain num_of_fun seed) shuffles ys output_r))
        u
    → Reach u (joined (fail stash_not_empty) (fail stash_not_empty))
unfolding process sender_phase receiver_phase exchange_sizes
process_stash solo verse obtain num_of_fun seed shuffles xs ys output_s output_r m u hx hy stash
      fits =
    Meets-every_schedule _ _ _ _ m u
      (Meets-send_right _ _ _ _ _ _ (size_t.length-encode (length ys)) (
        rw (size_t.decode-encode (length ys) hy) (
          Meets-send_left _ _ _ _ _ _ (size_t.length-encode (length xs)) (
            rw (size_t.decode-encode (length xs) hx) (
              Meets-send_right _ _ _ _ _ _ (size_t.length-encode size)
                (rw (size_t.decode-encode size fits, positive) (0, refl)))))))
      tt tt
  where
    size : ℕ
    size = (cuckoo_of solo num_of_fun seed ys).stash_size

    positive : ltb 0 size ≡ true
    positive = ground arith
