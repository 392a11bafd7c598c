-- ===== src/Circuit/Transfer.antt =====
-- What the two parties of circuit PSI exchange: the filters, the sizes of the stashes, the transfer.
use petace_set_ops.Base.{
  ℕ, ◌*◌, ◌^◌, ◌<◌, ◌≡◌, ◌≢◌, refl, ◌∙◌, subst, List, Bool, true, arith, length, length-map, ltb,
  if◌then◌else◌,
}
use petace_set_ops.Net.{Proc, done, fail, stash_not_empty, ◌>>=◌}
use petace_set_ops.Net.Wire.{size_t, send_value, recv_value}
use petace_set_ops.Net.Meet.{Meets, Meets-send_left}
use petace_set_ops.Kkrt.Phases.{VerseLaws}
use petace_set_ops.Circuit.Tables.{filter_loop}
use petace_set_ops.Circuit.{send_words, recv_words}
use petace_set_ops.Circuit.Words.{IsWord, words-Meets, length-filter_loop, filter_loop-IsWord}
use petace_set_ops.Circuit.Joint.{Inputs, bins, key_table, blocks, y_masks}

-- A filter arrives as it was sent.
pub filter-Meets :
    (own : ℕ → ℕ) (occupancy : List Bool) (value : ℕ → ℕ) (n pos : ℕ)
    → ((k : ℕ) → IsWord (own k))
    → ((k : ℕ) → IsWord (value k))
    → n * 8 < 2 ^ 64
    → (let words = (filter_loop own occupancy value n 0 pos).0 in
        Meets (send_words words) (recv_words n) (done tt) (done words))
filter-Meets own occupancy value n pos ho hv fits =
    let words = (filter_loop own occupancy value n 0 pos).0 in
    let counted = length-filter_loop own occupancy value n 0 pos in
    subst (λ k. Meets (send_words words) (recv_words k) (done tt) (done words)) counted
      (words-Meets words (filter_loop-IsWord own occupancy value n 0 pos ho hv) (omega arith))

-- The size of a stash on its way. Where it is 0 the parties go on,
pub Meets-no_stash {ℓ κ} :
    {A : Type ℓ} {B : Type κ} (n : ℕ) (p p' : Proc A) (q q' : Proc B)
    → n ≡ 0
    → Meets p q p' q'
    → Meets
        (send_value size_t n >>= λ sent. if ltb 0 n then fail stash_not_empty else p)
        (recv_value size_t >>= λ size. if ltb 0 size then fail stash_not_empty else q)
        p'
        q'
Meets-no_stash n p p' q q' e h = rw e (
    Meets-send_left _ _ _ _ _ _ (size_t.length-encode 0)
      (rw (size_t.decode-encode 0 (omega arith)) h))

-- and else both throw.
pub Meets-stash {ℓ κ} :
    {A : Type ℓ} {B : Type κ} (n : ℕ) (p : Proc A) (q : Proc B)
    → n ≢ 0
    → n < 2 ^ 64
    → Meets
        (send_value size_t n >>= λ sent. if ltb 0 n then fail stash_not_empty else p)
        (recv_value size_t >>= λ size. if ltb 0 size then fail stash_not_empty else q)
        (fail stash_not_empty)
        (fail stash_not_empty)
Meets-stash n p q ne fits =
    let positive : ltb 0 n ≡ true = ground arith in
    Meets-send_left _ _ _ _ _ _ (size_t.length-encode n)
      (rw (size_t.decode-encode n fits, positive) (0, refl))

-- The transfer for the receiver's table, where it has as many bins as were asked for.
pub transfer-Meets :
    (inputs : Inputs) (laws : VerseLaws inputs.verse)
    → length (key_table inputs).values ≡ bins inputs
    → (let key = laws.key_of (blocks inputs) in
        Meets
          (inputs.verse.ot_send (bins inputs))
          (inputs.verse.ot_receive (blocks inputs))
          (done key)
          (done (y_masks inputs key)))
transfer-Meets inputs laws full =
    let key = laws.key_of (blocks inputs) in
    subst
      (λ n.
        Meets (inputs.verse.ot_send n) (inputs.verse.ot_receive (blocks inputs)) (done key)
          (done (y_masks inputs key)))
      (length-map inputs.verse.block_of_bytes (key_table inputs).values ∙ full)
      (laws.ot_Meets (blocks inputs))
