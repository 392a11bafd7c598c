-- ===== src/Ecdh/Exchange.antt =====
-- The two parties' `exchange_encrypted_keys` together, and its guards.
use mathlib.Core.List.{flatten}
use native.Mathlib.Nat.{mod-eq_of_lt}
use petace_set_ops.Base.{
  ℕ, suc, ◌*◌, ◌%◌, ◌^◌, ◌<◌, ◌≡◌, ◌≢◌, refl, sym, ◌∙◌, List, [], ◌∷◌, Bool, true, false, arith,
  Bytes, ◌==◌, length,
}
use petace_set_ops.Net.{
  NetHandle, nullptr, connected, net_is_null, point_length_is_zero, done, fail,
}
use petace_set_ops.Net.Wire.{size_t}
use petace_set_ops.Net.Run.{Sys, Steps, Reach, joined}
use petace_set_ops.Net.Meet.{
  Meets, Meets-send_left, Meets-flip, Meets-bind, Meets-bind_right, Meets-every_schedule,
}
use petace_set_ops.Psi.{unpack}
use petace_set_ops.Psi.Unpack.{AllOfLength, length-flatten, unpack-flatten}
use petace_set_ops.Ecdh.{send_keys, receive_keys, exchange_encrypted_keys}

-- Keys of one size whose number and total size fit a `std::size_t`.
pub record IsSendable (width : ℕ) (keys : List Bytes) : Type 0 where
  pub sized : AllOfLength width keys
  pub count_fits : length keys < 2 ^ 64
  pub bytes_fit : length keys * width < 2 ^ 64

send_keys-receive_keys :
    (width : ℕ) (keys : List Bytes)
    → IsSendable width keys
    → Meets (send_keys keys) (receive_keys width) (done tt) (done keys)
unfolding send_keys receive_keys
send_keys-receive_keys width [] s =
    Meets-send_left _ _ _ _ _ _ (size_t.length-encode 0)
      (rw (size_t.decode-encode 0 (omega arith)) (unfold unpack in (0, refl)))
send_keys-receive_keys width (key ∷ keys) s =
    Meets-send_left _ _ _ _ _ _ (size_t.length-encode (length (key ∷ keys))) (
      rw (size_t.decode-encode (length (key ∷ keys)) s.count_fits, not_empty)
        (Meets-send_left _ _ _ _ _ _ whole_buffer
          (rw (unpack-flatten (key ∷ keys) width s.sized) (0, refl))))
  where
    not_empty : (suc (length keys) == 0) ≡ false
    not_empty = ground arith

    whole_buffer : length (flatten (key ∷ keys)) ≡ suc (length keys) * width % 2 ^ 64
    whole_buffer = length-flatten (key ∷ keys) width s.sized ∙ sym (mod-eq_of_lt s.bytes_fit)

receive_keys-send_keys :
    (width : ℕ) (keys : List Bytes)
    → IsSendable width keys
    → Meets (receive_keys width) (send_keys keys) (done keys) (done tt)
unfolding send_keys receive_keys
receive_keys-send_keys width keys s =
    Meets-flip (send_keys keys) (receive_keys width) (done tt) (done keys)
      (send_keys-receive_keys width keys s)

-- Run together, the two sides of the exchange go on to their ends with the keys swapped.
pub exchange_encrypted_keys-Meets :
    (width : ℕ) (mine theirs : List Bytes)
    → width ≢ 0
    → IsSendable width mine
    → IsSendable width theirs
    → Meets
        (exchange_encrypted_keys true connected mine width)
        (exchange_encrypted_keys false connected theirs width)
        (done theirs)
        (done mine)
unfolding exchange_encrypted_keys
exchange_encrypted_keys-Meets width mine theirs pos sm st = rw positive (
    Meets-bind _ _ (send_keys mine) (receive_keys width) tt mine (done theirs) (done mine)
      (send_keys-receive_keys width mine sm)
      (Meets-bind_right (λ _. done mine) (receive_keys width) (send_keys theirs) theirs tt
        (done mine) (receive_keys-send_keys width theirs st) (0, refl)))
  where
    positive : (width == 0) ≡ false
    positive = ground arith

-- Let all keys of both parties have the same size, which is not 0, and let their numbers and their total
-- sizes be less than 2 ^ 64. Then whatever calls the two sides of the exchange have made so far, in any
-- interleaving, they can go on to their ends, and each has the other's keys, none included.
pub exchange_encrypted_keys_swap :
    (width : ℕ) (mine theirs : List Bytes) (m : ℕ) (u : Sys (List Bytes) (List Bytes))
    → width ≢ 0
    → IsSendable width mine
    → IsSendable width theirs
    → Steps m
        (joined
          (exchange_encrypted_keys true connected mine width)
          (exchange_encrypted_keys false connected theirs width))
        u
    → Reach u (joined (done theirs) (done mine))
exchange_encrypted_keys_swap width mine theirs m u pos sm st =
    Meets-every_schedule _ _ _ _ m u (exchange_encrypted_keys-Meets width mine theirs pos sm st) tt
      tt

-- A null handle and a zero item size are refused before anything is sent, on both sides.
pub exchange_encrypted_keys_guards :
    (is_sender : Bool) (net : NetHandle) (keys : List Bytes) (width : ℕ)
    → (net ≡ nullptr → exchange_encrypted_keys is_sender net keys width ≡ fail net_is_null)
      × (net ≡ connected
          → width ≡ 0
          → exchange_encrypted_keys is_sender net keys width ≡ fail point_length_is_zero)
unfolding exchange_encrypted_keys
exchange_encrypted_keys_guards is_sender nullptr keys width = (λ _. refl, λ e _. cc)
exchange_encrypted_keys_guards true connected keys width = (λ e. cc, λ _ h. rw h)
exchange_encrypted_keys_guards false connected keys width = (λ e. cc, λ _ h. rw h)
