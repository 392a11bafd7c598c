-- ===== src/Util/Serialize/RoundTrip.antt =====
-- What is serialized is read back.
use petace_set_ops.Base.{
  List, [], ◌∷◌, ◌++◌, append_assoc, append-nil, ◌≡◌, ◌≢◌, sym, ap, ◌∙◌, arith, Bytes,
}
use petace_set_ops.Util.Serialize.{
  push_chars, serialize_string_to_char, deserialize_loop, deserialize_string_from_char,
}

-- No character of a string is the zero byte.
abbrev pub LacksZero : Bytes → Type 0
LacksZero [] = Unit
LacksZero (c ∷ str) = (c ≢ 0) × LacksZero str

abbrev pub AllLackZero : List Bytes → Type 0
AllLackZero [] = Unit
AllLackZero (str ∷ input) = LacksZero str × AllLackZero input

push_chars-append : (str output : Bytes) → push_chars str output ≡ output ++ str
unfolding push_chars
push_chars-append [] output = rw append-nil
push_chars-append (c ∷ str) output = simp (push_chars-append str, append_assoc)

-- The accumulator only grows.
serialize_append :
    (input : List Bytes) (output : Bytes)
    → serialize_string_to_char input output ≡ output ++ serialize_string_to_char input []
unfolding serialize_string_to_char
serialize_append [] output = rw append-nil
serialize_append (str ∷ input) output =
    simp (push_chars-append, append_assoc)
      (serialize_append input (output ++ (str ++ 0 ∷ []))
        ∙ append_assoc output (str ++ 0 ∷ []) (serialize_string_to_char input [])
        ∙ ap (◌++◌ output) (sym (serialize_append input (str ++ 0 ∷ []))))

-- The inner loop reads a string up to its zero.
deserialize_loop-string :
    (str rest begun : Bytes) (output : List Bytes)
    → LacksZero str
    → deserialize_loop (str ++ 0 ∷ rest) begun output
      ≡ deserialize_loop rest [] (output ++ (begun ++ str) ∷ [])
unfolding deserialize_loop
deserialize_loop-string [] rest begun output h = rw append-nil
deserialize_loop-string (c ∷ str) rest begun output (hc, hs) = ground (
  arith,
  deserialize_loop-string str rest (begun ++ c ∷ []) output hs,
  append_assoc begun (c ∷ []) str,
)

deserialize_loop-serialize :
    (input : List Bytes) (output : List Bytes)
    → AllLackZero input
    → deserialize_loop (serialize_string_to_char input []) [] output ≡ output ++ input
unfolding serialize_string_to_char
deserialize_loop-serialize [] output h = unfold deserialize_loop in rw append-nil
deserialize_loop-serialize (str ∷ input) output (hs, hi) = rw (
  serialize_append input (push_chars str [] ++ 0 ∷ []),
  push_chars-append,
  append_assoc,
  deserialize_loop-string str _ [] output hs,
  deserialize_loop-serialize input _ hi,
  append_assoc,
)

-- Strings without a zero byte, as many as there are and empty ones too, are read back as they were
-- serialized, behind whatever the output vector held.
pub deserialize-serialize :
    (input output : List Bytes)
    → AllLackZero input
    → deserialize_string_from_char (serialize_string_to_char input []) output ≡ output ++ input
unfolding deserialize_string_from_char
deserialize-serialize input output h = deserialize_loop-serialize input output h
