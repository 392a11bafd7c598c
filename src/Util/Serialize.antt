-- ===== src/Util/Serialize.antt =====
-- src/setops/util/serialize.h: strings, each closed by a zero byte, as one vector of characters.
pub mod RoundTrip
use petace_set_ops.Base.{ℕ, zero, suc, ◌+◌, List, [], ◌∷◌, ◌++◌, Bool, Bytes, ◌==◌, if◌then◌else◌}

-- the inner loop, with the output vector as accumulator
push_chars : Bytes → Bytes → Bytes
push_chars [] output = output
push_chars (c ∷ str) output = push_chars str (output ++ c ∷ [])

-- The output parameter is appended to.
unfoldable pub serialize_string_to_char : List Bytes → Bytes → Bytes
unfolding push_chars
serialize_string_to_char [] output = output
serialize_string_to_char (str ∷ input) output =
    serialize_string_to_char input (push_chars str output ++ 0 ∷ [])

-- Both loops in one pass over `input`: `str` holds the characters from `begin` on that the inner
-- `while` has counted. A last string with no zero behind it, at which the source reads past the end
-- of its vector, is dropped. The source counts in an `int`, so the model is of strings of less than
-- 2 ^ 31 bytes.
deserialize_loop : Bytes → Bytes → List Bytes → List Bytes
deserialize_loop [] str output = output
deserialize_loop (c ∷ input) str output =
    let close = deserialize_loop input [] (output ++ str ∷ []) in
    let count = deserialize_loop input (str ++ c ∷ []) output in if c == 0 then close else count

unfoldable pub deserialize_string_from_char : Bytes → List Bytes → List Bytes
unfolding deserialize_loop
deserialize_string_from_char input output = deserialize_loop input [] output
