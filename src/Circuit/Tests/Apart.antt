-- ===== src/Circuit/Tests/Apart.antt =====
-- Circuit PSI for a bin in which the receiver has "c" and the sender "a".
use Prim.Native.Nat.{bit_xor}
use petace_set_ops.Base.{
  ℕ, zero, suc, ◌+◌, ◌%◌, ◌^◌, ◌≤◌, ◌<◌, ◌≡◌, ◌≢◌, refl, ◌∙◌, [], ◌∷◌, arith, Bytes, codes, get_or,
  ap,
}
use petace_set_ops.Net.{done}
use petace_set_ops.Net.Run.{Reach, joined}
use petace_set_ops.Kkrt.Tests.{adding_laws}
use petace_set_ops.Circuit.Tables.{tabulate}
use petace_set_ops.Circuit.{hint_bins, simple_of, receiver_table}
use petace_set_ops.Circuit.Locate.{At}
use petace_set_ops.Circuit.Joint.{hint_num, contents, simple_values}
use petace_set_ops.Circuit.Outputs.{share_at}
use petace_set_ops.Circuit.Reading.{NoAccident, pads_at, value_at}
use petace_set_ops.Circuit.Absent.{process_absent}
use petace_set_ops.Circuit.Toy.{first_byte_laws, first_byte_taken, counting_laws}
use petace_set_ops.Circuit.ToyDuet.{shown, shown_laws}
use petace_set_ops.Circuit.Tests.{
  toy, toy_words, toy_fit, toy_full, toy_no_stash, toy_no_hint_stash, toy-IndexFits, x_run, y_run,
  x_out, y_out,
}

-- What the receiver reads in bin 1, under function j, of a content of bin b that is hidden under pad g of w.
abbrev read_as : ℕ → ℕ → Bytes → ℕ → ℕ → ℕ
read_as content b w g j =
    bit_xor (bit_xor content (pads_at toy 7 b w g)) (pads_at toy 7 1 (codes "c") j) % 2 ^ 62

entries_apart :
    (w : Bytes) (b t g j : ℕ)
    → At (simple_values toy) w b t
    → g < 2
    → j < 2
    → bit_xor
          (bit_xor (get_or (contents toy) b 0) (pads_at toy 7 b w g))
          (pads_at toy 7 1 (value_at toy 7 1) j)
        % 2 ^ 62
      ≢ 6
unfolding simple_of receiver_table
entries_apart w zero zero g j (_, _, e) hg hj h =
    entry_b g j hg hj (ap (λ w. read_as 5 0 w g j) e ∙ h)
  where
    entry_b : (g j : ℕ) → g < 2 → j < 2 → read_as 5 0 (codes "b") g j ≢ 6
    entry_b zero zero hg hj h = absurd (omega (arith, h))
    entry_b zero (suc zero) hg hj h = absurd (omega (arith, h))
    entry_b (suc zero) zero hg hj h = absurd (omega (arith, h))
    entry_b (suc zero) (suc zero) hg hj h = absurd (omega (arith, h))
    entry_b (suc (suc g)) j hg hj h = absurd (omega arith)
    entry_b g (suc (suc j)) hg hj h = absurd (omega arith)
entries_apart w (suc zero) zero g j (_, _, e) hg hj h =
    entry_a g j hg hj (ap (λ w. read_as 6 1 w g j) e ∙ h)
  where
    entry_a : (g j : ℕ) → g < 2 → j < 2 → read_as 6 1 (codes "a") g j ≢ 6
    entry_a zero zero hg hj h = absurd (omega (arith, h))
    entry_a zero (suc zero) hg hj h = absurd (omega (arith, h))
    entry_a (suc zero) zero hg hj h = absurd (omega (arith, h))
    entry_a (suc zero) (suc zero) hg hj h = absurd (omega (arith, h))
    entry_a (suc (suc g)) j hg hj h = absurd (omega arith)
    entry_a g (suc (suc j)) hg hj h = absurd (omega arith)
entries_apart w zero (suc t) g j (_, lt, _) hg hj h = absurd (omega (arith, lt))
entries_apart w (suc zero) (suc t) g j (_, lt, _) hg hj h = absurd (omega (arith, lt))
entries_apart w (suc (suc b)) t g j (lt, _, _) hg hj h = absurd (omega (arith, lt))

words_apart :
    (q j : ℕ)
    → 2 ≤ q
    → q < 6
    → j < 2
    → bit_xor (toy.own q) (pads_at toy 7 1 (value_at toy 7 1) j) % 2 ^ 62 ≢ 6
unfolding receiver_table
words_apart zero j h h' hj e = absurd (omega arith)
words_apart (suc zero) j h h' hj e = absurd (omega arith)
words_apart (suc (suc zero)) zero h h' hj e = absurd (omega (arith, e))
words_apart (suc (suc zero)) (suc zero) h h' hj e = absurd (omega (arith, e))
words_apart (suc (suc (suc zero))) zero h h' hj e = absurd (omega (arith, e))
words_apart (suc (suc (suc zero))) (suc zero) h h' hj e = absurd (omega (arith, e))
words_apart (suc (suc (suc (suc zero)))) zero h h' hj e = absurd (omega (arith, e))
words_apart (suc (suc (suc (suc zero)))) (suc zero) h h' hj e = absurd (omega (arith, e))
words_apart (suc (suc (suc (suc (suc zero))))) zero h h' hj e = absurd (omega (arith, e))
words_apart (suc (suc (suc (suc (suc zero))))) (suc zero) h h' hj e = absurd (omega (arith, e))
words_apart (suc (suc (suc (suc (suc (suc q)))))) j h h' hj e = absurd (omega arith)
words_apart q (suc (suc j)) h h' hj e = absurd (omega arith)

some_bin : 0 < hint_num toy
unfolding hint_bins
some_bin = omega arith

toy-NoAccident : NoAccident toy 7 1
unfolding hint_bins
toy-NoAccident = (entries_apart, words_apart)

process_absent_example :
    Reach (joined x_run y_run) (joined (done x_out) (done y_out))
    × (bit_xor (share_at x_out 0 1) (share_at y_out 0 1) ≡ 0)
    × (tabulate 1 0 (λ k. (share_at x_out (suc k) 1 + share_at y_out (suc k) 1) % 2 ^ 64) ≡ 0 ∷ [])
unfolding adding_laws
process_absent_example =
    process_absent toy adding_laws counting_laws shown shown_laws toy_words toy_fit first_byte_laws
      first_byte_taken toy-IndexFits toy.own 0 1 _ toy_full toy_no_stash toy_no_hint_stash some_bin
      (omega arith) toy-NoAccident refl
