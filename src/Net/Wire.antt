-- ===== src/Net/Wire.antt =====
-- The values that cross the connection, `send_data(&value, sizeof(value))`: a `std::size_t` is eight
-- bytes, an `int` four, the lowest first; a `bool` is one. A program that runs on both sides with
-- one byte order and one `sizeof` reads what it wrote; these are the ones of x86-64.
use petace_set_ops.Base.{
  ℕ, zero, suc, ◌+◌, ◌*◌, ◌/◌, ◌%◌, ◌^◌, ◌<◌, ◌≡◌, refl, ap, Bool, true, false, not, [], ◌∷◌, arith,
  Bytes, length, get_or, ◌==◌,
}
use petace_set_ops.Net.{Proc, done, send, recv}

pub record Wire (A : Type 0) : Type 1 where
  pub Fits : A → Type 0
  pub width : ℕ
  pub encode : A → Bytes
  pub decode : Bytes → A
  pub length-encode : (a : A) → length (encode a) ≡ width
  pub decode-encode : (a : A) → Fits a → decode (encode a) ≡ a

unfoldable pub le_bytes : ℕ → ℕ → Bytes
le_bytes zero n = []
le_bytes (suc w) n = (n % 256) ∷ le_bytes w (n / 256)

unfoldable pub of_le_bytes : Bytes → ℕ
of_le_bytes [] = 0
of_le_bytes (b ∷ bs) = b + 256 * of_le_bytes bs

pub length-le_bytes : (w n : ℕ) → length (le_bytes w n) ≡ w
unfolding le_bytes
length-le_bytes zero n = refl
length-le_bytes (suc w) n = ap suc (length-le_bytes w (n / 256))

pub of_le_bytes-le_bytes_64 : (n : ℕ) → n < 2 ^ 64 → of_le_bytes (le_bytes 8 n) ≡ n
unfolding of_le_bytes le_bytes
of_le_bytes-le_bytes_64 n h = omega arith

pub of_le_bytes-le_bytes_32 : (n : ℕ) → n < 2 ^ 32 → of_le_bytes (le_bytes 4 n) ≡ n
unfolding of_le_bytes le_bytes
of_le_bytes-le_bytes_32 n h = omega arith

abbrev pub size_t : Wire ℕ
size_t = record {
  Fits = λ n. n < 2 ^ 64;
  width = 8;
  encode = le_bytes 8;
  decode = of_le_bytes;
  length-encode = length-le_bytes 8;
  decode-encode = of_le_bytes-le_bytes_64;
}

-- An `int` by its bit pattern.
abbrev pub int32 : Wire ℕ
int32 = record {
  Fits = λ n. n < 2 ^ 32;
  width = 4;
  encode = le_bytes 4;
  decode = of_le_bytes;
  length-encode = length-le_bytes 4;
  decode-encode = of_le_bytes-le_bytes_32;
}

abbrev pub bool_byte : Bool → Bytes
bool_byte true = 1 ∷ []
bool_byte false = 0 ∷ []

pub length-bool_byte : (b : Bool) → length (bool_byte b) ≡ 1
length-bool_byte true = refl
length-bool_byte false = refl

pub of_bool_byte-bool_byte : (b : Bool) → not (get_or (bool_byte b) 0 0 == 0) ≡ b
of_bool_byte-bool_byte true = refl
of_bool_byte-bool_byte false = refl

abbrev pub bool : Wire Bool
bool = record {
  Fits = λ b. Unit;
  width = 1;
  encode = bool_byte;
  decode = λ bs. not (get_or bs 0 0 == 0);
  length-encode = length-bool_byte;
  decode-encode = λ b _. of_bool_byte-bool_byte b;
}

module _ {A : Type 0} (w : Wire A) where
  abbrev pub send_value : A → Proc (Unit {0})
  send_value a = send (w.encode a) (done tt)

  abbrev pub recv_value : Proc A
  recv_value = recv w.width (λ bs. done (w.decode bs))
