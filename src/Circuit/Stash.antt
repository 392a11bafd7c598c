-- ===== src/Circuit/Stash.antt =====
-- `CircuitPSI::process` where a cuckoo table has a stash that is not empty.
use petace_set_ops.Base.{ℕ, ◌^◌, ◌<◌, ◌≡◌, ◌≢◌, List, true, false, length}
use petace_set_ops.Net.{fail, stash_not_empty}
use petace_set_ops.Net.Run.{Sys, Steps, Reach, joined}
use petace_set_ops.Net.Meet.{Meets-bind, Meets-flip, Meets-every_schedule}
use petace_set_ops.Kkrt.Phases.{VerseLaws}
use petace_set_ops.Circuit.Tables.{Duet}
use petace_set_ops.Circuit.{hint_bins, sender_phase, receiver_phase, process}
use petace_set_ops.Circuit.Joint.{Inputs, object, bins, hint_table, key_table, blocks, y_masks}
use petace_set_ops.Circuit.Transfer.{Meets-no_stash, Meets-stash, transfer-Meets}
use petace_set_ops.Circuit.Process.{SizesFit, exchange_sizes-Meets}

module _ (inputs : Inputs) (duet : Duet) (fit : SizesFit inputs) where
  open inputs use {hashing, verse, pads, own, x_keys, x_features, y_keys, y_features}

  -- If the receiver's cuckoo table has a stash that is not empty, then in every interleaving both parties
  -- go on to throw, and nobody gets shares, if the sizes fit their types.
  pub process_key_stash :
      (own_y : ℕ → ℕ) (n : ℕ) (u : Sys (List (List ℕ)) (List (List ℕ)))
      → (key_table inputs).stash_size ≢ 0
      → (key_table inputs).stash_size < 2 ^ 64
      → Steps n
          (joined
            (process hashing verse pads duet (object inputs true) own x_keys x_features)
            (process hashing verse pads duet (object inputs false) own_y y_keys y_features))
          u
      → Reach u (joined (fail stash_not_empty) (fail stash_not_empty))
  unfolding process
  process_key_stash own_y n u stash fits =
      Meets-every_schedule _ _ (fail stash_not_empty) (fail stash_not_empty) n u
        (Meets-bind _ _ _ _ (length y_keys, length y_features) (length x_keys, length x_features)
          (fail stash_not_empty) (fail stash_not_empty)
          (exchange_sizes-Meets (length x_keys) (length x_features) (length y_keys)
            (length y_features) fit.x_keys fit.x_features fit.y_keys fit.y_features)
          (Meets-flip _ _ (fail stash_not_empty) (fail stash_not_empty)
            (Meets-stash (key_table inputs).stash_size _ _ stash fits)))
        tt tt

  -- If the sender's table of its own entries has a stash that is not empty, and the receiver's
  -- table none, then after the transfer both parties throw, in every interleaving too.
  pub process_hint_stash :
      (laws : VerseLaws verse) (own_y : ℕ → ℕ) (n : ℕ) (u : Sys (List (List ℕ)) (List (List ℕ)))
      → length (key_table inputs).values ≡ bins inputs
      → (key_table inputs).stash_size ≡ 0
      → (hint_table inputs).stash_size ≢ 0
      → (hint_table inputs).stash_size < 2 ^ 64
      → Steps n
          (joined
            (process hashing verse pads duet (object inputs true) own x_keys x_features)
            (process hashing verse pads duet (object inputs false) own_y y_keys y_features))
          u
      → Reach u (joined (fail stash_not_empty) (fail stash_not_empty))
  unfolding process hint_bins sender_phase receiver_phase
  process_hint_stash laws own_y n u full no_stash stash fits =
      Meets-every_schedule _ _ (fail stash_not_empty) (fail stash_not_empty) n u
        (Meets-bind _ _ _ _ (length y_keys, length y_features) (length x_keys, length x_features)
          (fail stash_not_empty) (fail stash_not_empty)
          (exchange_sizes-Meets (length x_keys) (length x_features) (length y_keys)
            (length y_features) fit.x_keys fit.x_features fit.y_keys fit.y_features)
          (Meets-flip _ _ (fail stash_not_empty) (fail stash_not_empty) (
            Meets-no_stash (key_table inputs).stash_size _ (fail stash_not_empty) _
              (fail stash_not_empty) no_stash
              (Meets-flip _ _ (fail stash_not_empty) (fail stash_not_empty) (
                Meets-bind _ _ _ _ (laws.key_of (blocks inputs))
                  (y_masks inputs (laws.key_of (blocks inputs))) _ _
                  (transfer-Meets inputs laws full)
                  (Meets-stash (hint_table inputs).stash_size _ _ stash fits))))))
        tt tt
