-- ===== src/Kkrt/Mismatch.antt =====
-- KKRT-PSI where the parties disagree on whether the sender obtains the result.
use petace_set_ops.Base.{
  ℕ, ◌*◌, ◌^◌, ◌<◌, ◌≡◌, refl, subst, List, [], Bool, true, false, Bytes, length,
}
use petace_set_ops.Net.{done}
use petace_set_ops.Net.Run.{Sys, left_moves, right_moves, Steps, Reach, IsFinal, joined, step_proc}
use petace_set_ops.Net.Confluence.{Reach-confluent}
use petace_set_ops.Net.Meet.{Meets, Meets-bind}
use petace_set_ops.Psi.{k_reduce_statistics_len}
use petace_set_ops.Kkrt.Tables.{Solo, Verse}
use petace_set_ops.Kkrt.{
  process, sender_phase, receiver_phase, sender_data, receive_result, send_result, collect_output,
}
use petace_set_ops.Kkrt.Phases.{VerseLaws, sender, receiver, cuckoo_of, matched, phases-Meets}
use petace_set_ops.Kkrt.Process.{found_keys}

-- The sender's part before the result does not ask who obtains it.
sender_phase_either :
    (solo : Solo) (verse : Verse) (a b : Bool) (num_of_fun : ℕ) (seed : Bytes)
    (shuffles : ℕ → List ℕ → List ℕ) (xs : List Bytes)
    → sender_phase solo verse (sender a num_of_fun seed) shuffles xs
      ≡ sender_phase solo verse (sender b num_of_fun seed) shuffles xs
unfolding sender_phase sender_data
sender_phase_either solo verse a b num_of_fun seed shuffles xs = refl

waiting-IsFinal :
    {B : Type 0} (solo : Solo) (verse : Verse) (num_of_fun : ℕ) (seed : Bytes) (output : List Bytes)
    (b : B)
    → IsFinal (joined (receive_result solo verse (sender true num_of_fun seed) output) (done b))
unfolding receive_result step_proc
waiting-IsFinal solo verse num_of_fun seed output b t (left_moves c e _) = cc
waiting-IsFinal solo verse num_of_fun seed output b t (right_moves c e _) = cc

-- Let the sender be set to obtain the result and the receiver not to let it; nothing compares the
-- two settings. For a table without a stash and with as many bins as were asked for, and sizes that
-- fit their types, every interleaving goes on to a state in which the receiver has returned its keys
-- and the sender waits for the result, and in this state no party can move.
pub process_waits :
    (solo : Solo) (verse : Verse) (laws : VerseLaws verse) (num_of_fun : ℕ) (seed : Bytes)
    (shuffles : ℕ → List ℕ → List ℕ) (xs ys output_s : List Bytes) (hx : length xs < 2 ^ 64)
    (hy : length ys < 2 ^ 64) (m : ℕ) (u : Sys (List Bytes) (List Bytes))
    → (cuckoo_of solo num_of_fun seed ys).stash_size ≡ 0
    → length (cuckoo_of solo num_of_fun seed ys).values ≡ solo.num_of_bins (length ys)
    → num_of_fun * length xs * k_reduce_statistics_len < 2 ^ 64
    → Steps m
        (joined
          (process solo verse (sender true num_of_fun seed) shuffles xs output_s)
          (process solo verse (receiver false num_of_fun seed) shuffles ys []))
        u
    → (let stuck =
          joined
            (receive_result solo verse (sender true num_of_fun seed) output_s)
            (done (found_keys solo verse laws false num_of_fun seed shuffles xs ys hx hy)) in
        Reach u stuck × IsFinal stuck)
unfolding process send_result
process_waits solo verse laws num_of_fun seed shuffles xs ys output_s hx hy m u no_stash full
      bytes_fit steps =
    let phases =
      subst
        (λ p.
          Meets p (receiver_phase solo verse (receiver false num_of_fun seed) ys) (done tt)
            (done (matched solo verse laws false num_of_fun seed shuffles xs ys hx hy)))
        (sender_phase_either solo verse false true num_of_fun seed shuffles xs)
        (phases-Meets solo verse laws false num_of_fun seed shuffles xs ys hx hy no_stash full
          bytes_fit) in
    let (n, run) =
      Meets-bind (λ _. receive_result solo verse (sender true num_of_fun seed) output_s)
        (λ found.
          send_result solo verse (receiver false num_of_fun seed)
            (collect_output solo verse (receiver false num_of_fun seed) ys [] found))
        _ _ tt (matched solo verse laws false num_of_fun seed shuffles xs ys hx hy)
        (receive_result solo verse (sender true num_of_fun seed) output_s)
        (done (found_keys solo verse laws false num_of_fun seed shuffles xs ys hx hy)) phases
        (0, refl) in
    let final = waiting-IsFinal solo verse num_of_fun seed output_s _ in
    let (k, _, rest) = Reach-confluent m n _ _ u run final steps in ((k, rest), final)
