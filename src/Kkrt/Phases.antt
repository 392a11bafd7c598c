-- ===== src/Kkrt/Phases.antt =====
-- The two roles of KKRT-PSI together, up to the receiver's matching.
use mathlib.Core.List.{flatten}
use native.Mathlib.Nat.{mod-eq_of_lt, mul_comm}
use petace_set_ops.Base.{
  ℕ, zero, suc, ◌+◌, ◌*◌, ◌%◌, ◌^◌, ◌<◌, ◌≡◌, refl, sym, ap, ◌∙◌, subst, List, [], ◌∷◌, ◌++◌, map,
  Bool, true, false, arith, Bytes, length, length-map, length-append, length-take, replicate,
}
use petace_set_ops.Net.{done}
use petace_set_ops.Net.Wire.{size_t}
use petace_set_ops.Net.Run.{joined}
use petace_set_ops.Net.Meet.{Meets, Meets-send_left, Meets-send_right, Meets-bind}
use petace_set_ops.Psi.{k_reduce_statistics_len, unpack}
use petace_set_ops.Psi.Unpack.{AllOfLength, length-flatten, unpack-flatten}
use petace_set_ops.Kkrt.Tables.{
  CuckooTable, Solo, Verse, encode_all, reduce, reduce_row, reduce_rows, shuffle_rows, match_loop,
}
use petace_set_ops.Kkrt.{
  KkrtPsi, exchange_sizes, sender_data, sender_phase, receiver_matches, receiver_phase,
}

-- What the protocol relies on of the oblivious transfer: a block has sixteen bytes, and the two sides
-- run together to their ends, at which the receiver has the masks, under the sender's key, of its
-- own blocks.
pub record VerseLaws (verse : Verse) : Type 0 where
  pub length_block : (b : verse.Block) → length (verse.bytes_of_block b) ≡ 16
  pub key_of : List verse.Block → verse.Key
  pub ot_Meets :
      (blocks : List verse.Block)
      → Meets
          (verse.ot_send (length blocks))
          (verse.ot_receive blocks)
          (done (key_of blocks))
          (done (encode_all verse (key_of blocks) 0 blocks))

module _ (verse : Verse) (laws : VerseLaws verse) where
  length-reduce : (b : verse.Block) → length (reduce verse b) ≡ k_reduce_statistics_len
  length-reduce b =
      omega
        (arith, length-take k_reduce_statistics_len (verse.bytes_of_block b), laws.length_block b)

  reduce_row-AllOfLength :
      (rounds j : ℕ) (row : List verse.Block)
      → AllOfLength k_reduce_statistics_len (reduce_row verse rounds j row)
  unfolding reduce_row
  reduce_row-AllOfLength zero j row = tt
  reduce_row-AllOfLength (suc rounds) j row =
      (length-reduce _, reduce_row-AllOfLength rounds (j + 1) row)

  length-reduce_row :
      (rounds j : ℕ) (row : List verse.Block) → length (reduce_row verse rounds j row) ≡ rounds
  unfolding reduce_row
  length-reduce_row zero j row = refl
  length-reduce_row (suc rounds) j row = ap suc (length-reduce_row rounds (j + 1) row)

  append-AllOfLength :
      (width : ℕ) (ls ms : List Bytes)
      → AllOfLength width ls
      → AllOfLength width ms
      → AllOfLength width (ls ++ ms)
  append-AllOfLength width [] ms hl hm = hm
  append-AllOfLength width (l ∷ ls) ms (h, hl) hm = (h, append-AllOfLength width ls ms hl hm)

  reduce_rows-AllOfLength :
      (n : ℕ) (rows : List (List verse.Block))
      → AllOfLength k_reduce_statistics_len (reduce_rows verse n rows)
  unfolding reduce_rows
  reduce_rows-AllOfLength n [] = tt
  reduce_rows-AllOfLength n (row ∷ rows) =
      append-AllOfLength _ _ _ (reduce_row-AllOfLength n 0 row) (reduce_rows-AllOfLength n rows)

  length-reduce_rows :
      (n : ℕ) (rows : List (List verse.Block)) → length (reduce_rows verse n rows) ≡ n * length rows
  unfolding reduce_rows
  length-reduce_rows n [] = omega arith
  length-reduce_rows n (row ∷ rows) = omega (
    arith,
    length-append (reduce_row verse n 0 row) (reduce_rows verse n rows),
    length-reduce_row n 0 row,
    length-reduce_rows n rows,
  )

  length-shuffle_rows :
      (shuffles : ℕ → List ℕ → List ℕ) (rounds i n : ℕ) (permutation : List ℕ)
      (rows : List (List verse.Block))
      → length (shuffle_rows verse shuffles rounds i n permutation rows) ≡ rounds
  unfolding shuffle_rows
  length-shuffle_rows shuffles zero i n permutation rows = refl
  length-shuffle_rows shuffles (suc rounds) i n permutation rows =
      ap suc (length-shuffle_rows shuffles rounds (i + 1) n _ rows)

-- The objects of the two parties after `init`.
abbrev pub sender : Bool → ℕ → Bytes → KkrtPsi
sender obtain num_of_fun seed = record {
  is_sender = true;
  sender_obtain_result = obtain;
  num_of_fun = num_of_fun;
  seed = seed;
}

abbrev pub receiver : Bool → ℕ → Bytes → KkrtPsi
receiver obtain num_of_fun seed = record {
  is_sender = false;
  sender_obtain_result = obtain;
  num_of_fun = num_of_fun;
  seed = seed;
}

-- The receiver's table.
abbrev pub cuckoo_of : Solo → ℕ → Bytes → List Bytes → CuckooTable
cuckoo_of solo num_of_fun seed ys =
    solo.cuckoo_table (solo.num_of_bins (length ys)) seed num_of_fun (map solo.hash ys)

module _ (solo : Solo) (verse : Verse) (laws : VerseLaws verse) (obtain : Bool) (num_of_fun : ℕ)
    (seed : Bytes) (shuffles : ℕ → List ℕ → List ℕ) (xs ys : List Bytes)
    (count_fits : length xs < 2 ^ 64) (count_fits' : length ys < 2 ^ 64) where
  abbrev bins : ℕ
  bins = solo.num_of_bins (length ys)

  abbrev table : CuckooTable
  table = cuckoo_of solo num_of_fun seed ys

  -- The blocks that the receiver puts into the oblivious transfer, and the sender's key.
  abbrev pub blocks_of : List verse.Block
  blocks_of = map verse.block_of_bytes table.values

  abbrev pub sent_data : List Bytes
  sent_data =
      sender_data solo verse (sender obtain num_of_fun seed) shuffles bins (laws.key_of blocks_of)
        xs

  -- The marks and the count with which the receiver ends.
  abbrev pub matched : List Bool × ℕ
  matched =
      match_loop verse table num_of_fun (length xs)
        (encode_all verse (laws.key_of blocks_of) 0 blocks_of) sent_data bins 0
        (replicate bins false) 0

  sent_data-AllOfLength : AllOfLength k_reduce_statistics_len sent_data
  unfolding sender_data
  sent_data-AllOfLength = reduce_rows-AllOfLength verse laws (length xs) _

  length-sent_data : length sent_data ≡ length xs * num_of_fun
  unfolding sender_data
  length-sent_data =
      length-reduce_rows verse laws (length xs) _
      ∙ ap (λ n. length xs * n)
          (length-shuffle_rows verse laws shuffles num_of_fun 0 (length xs) [] _)

  received_matched :
      receiver_matches solo verse
        (receiver obtain num_of_fun seed)
        bins
        ys
        (length xs)
        (encode_all verse (laws.key_of blocks_of) 0 blocks_of)
        (flatten sent_data)
      ≡ matched
  unfolding receiver_matches
  received_matched =
      ap
        (λ unpacked.
          match_loop verse table num_of_fun (length xs)
            (encode_all verse (laws.key_of blocks_of) 0 blocks_of) unpacked bins 0
            (replicate bins false) 0)
        (ap (λ n. unpack n 0 k_reduce_statistics_len (flatten sent_data)) (sym length-sent_data)
          ∙ unpack-flatten sent_data k_reduce_statistics_len sent_data-AllOfLength)

  transfer :
      length table.values ≡ bins
      → Meets
          (verse.ot_send bins)
          (verse.ot_receive blocks_of)
          (done (laws.key_of blocks_of))
          (done (encode_all verse (laws.key_of blocks_of) 0 blocks_of))
  transfer full =
      subst
        (λ n.
          Meets (verse.ot_send n) (verse.ot_receive blocks_of) (done (laws.key_of blocks_of))
            (done (encode_all verse (laws.key_of blocks_of) 0 blocks_of)))
        (length-map verse.block_of_bytes table.values ∙ full) (laws.ot_Meets blocks_of)

  whole_buffer :
      num_of_fun * length xs * k_reduce_statistics_len < 2 ^ 64
      → length (flatten sent_data) ≡ num_of_fun * length xs * k_reduce_statistics_len % 2 ^ 64
  whole_buffer bytes_fit =
      length-flatten sent_data k_reduce_statistics_len sent_data-AllOfLength
      ∙ ap (λ n. n * k_reduce_statistics_len) (length-sent_data ∙ mul_comm (length xs) num_of_fun)
      ∙ sym (mod-eq_of_lt bytes_fit)

  -- Where the table has no stash and as many bins as were asked for, the sender ends, and the
  -- receiver with the marks that its table and the sender's data give.
  pub phases-Meets :
      table.stash_size ≡ 0
      → length table.values ≡ bins
      → num_of_fun * length xs * k_reduce_statistics_len < 2 ^ 64
      → Meets
          (sender_phase solo verse (sender obtain num_of_fun seed) shuffles xs)
          (receiver_phase solo verse (receiver obtain num_of_fun seed) ys)
          (done tt)
          (done matched)
  unfolding sender_phase receiver_phase exchange_sizes
  phases-Meets no_stash full bytes_fit =
      Meets-send_right _ _ _ _ _ _ (size_t.length-encode (length ys)) (
        rw (size_t.decode-encode (length ys) count_fits') (
          Meets-send_left _ _ _ _ _ _ (size_t.length-encode (length xs)) (
            rw (size_t.decode-encode (length xs) count_fits, no_stash)
              (Meets-send_right _ _ _ _ _ _ (size_t.length-encode 0) (
                rw (size_t.decode-encode 0 (omega arith)) (
                  Meets-bind _ _ _ _ (laws.key_of blocks_of)
                    (encode_all verse (laws.key_of blocks_of) 0 blocks_of) (done tt) (done matched)
                    (transfer full)
                    (Meets-send_left _ _ _ _ _ _ (whole_buffer bytes_fit)
                      (0, λ i. joined (done tt) (done (received_matched i))))))))))
