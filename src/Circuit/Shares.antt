-- ===== src/Circuit/Shares.antt =====
-- The shares of the two parties together: what PETAce-Duet promises, and the loops that fold a row.
use Prim.Native.Nat.{bit_xor}
use petace_set_ops.Base.{
  ℕ, zero, suc, ◌+◌, ◌%◌, ◌^◌, ◌<◌, ◌≡◌, refl, ap, ◌∙◌, List, [], ◌∷◌, map, Bool, true, false,
  arith, ◌==◌, if◌then◌else◌,
}
use petace_set_ops.Net.{done}
use petace_set_ops.Net.Meet.{Meets, Meets-bind}
use petace_set_ops.Std.Bits.{bit_xor-lt}
use petace_set_ops.Circuit.Tables.{Matrix, Duet, xor_loop, sum_loop}
use petace_set_ops.Circuit.{multiplex}

-- What the protocol relies on of the operations on shares. The two sides run together to their ends.
-- The two result bits of `equal` differ exactly where the shared numbers are equal, and the results of
-- `multiplexer` add up to the shared number where the two bits differ and to 0 elsewhere.
pub record DuetLaws (duet : Duet) : Type 0 where
  pub equal_s : ℕ → ℕ → Matrix → Matrix → Matrix → Matrix → Matrix
  pub equal_r : ℕ → ℕ → Matrix → Matrix → Matrix → Matrix → Matrix
  pub equal_Meets :
      (rows columns : ℕ) (xs ys xr yr : Matrix)
      → Meets
          (duet.equal true rows columns xs ys)
          (duet.equal false rows columns xr yr)
          (done (equal_s rows columns xs ys xr yr))
          (done (equal_r rows columns xs ys xr yr))
  pub bits_s :
      (rows columns : ℕ) (xs ys xr yr : Matrix) (i j : ℕ)
      → i < rows
      → j < columns
      → equal_s rows columns xs ys xr yr i j < 2
  pub bits_r :
      (rows columns : ℕ) (xs ys xr yr : Matrix) (i j : ℕ)
      → i < rows
      → j < columns
      → equal_r rows columns xs ys xr yr i j < 2
  pub equal_bits :
      (rows columns : ℕ) (xs ys xr yr : Matrix) (i j : ℕ)
      → i < rows
      → j < columns
      → bit_xor (equal_s rows columns xs ys xr yr i j) (equal_r rows columns xs ys xr yr i j)
        ≡ (if (xs i j + xr i j) % 2 ^ 64 == (ys i j + yr i j) % 2 ^ 64 then 1 else 0)
  pub mux_s : ℕ → ℕ → Matrix → Matrix → Matrix → Matrix → Matrix
  pub mux_r : ℕ → ℕ → Matrix → Matrix → Matrix → Matrix → Matrix
  pub mux_Meets :
      (rows columns : ℕ) (cs cr xs xr : Matrix)
      → Meets
          (duet.multiplexer true rows columns cs xs)
          (duet.multiplexer false rows columns cr xr)
          (done (mux_s rows columns cs cr xs xr))
          (done (mux_r rows columns cs cr xs xr))
  pub mux_sum :
      (rows columns : ℕ) (cs cr xs xr : Matrix) (i j : ℕ)
      → i < rows
      → j < columns
      → (mux_s rows columns cs cr xs xr i j + mux_r rows columns cs cr xs xr i j) % 2 ^ 64
        ≡ (if bit_xor (cs i j) (cr i j) == 1 then (xs i j + xr i j) % 2 ^ 64 else 0)

abbrev of_bit : Bool → ℕ
of_bit false = 0
of_bit true = 1

bit_cases : (x : ℕ) → x < 2 → (b : Bool) × (x ≡ of_bit b)
bit_cases zero h = (false, refl)
bit_cases (suc zero) h = (true, refl)
bit_cases (suc (suc x)) h = absurd (omega arith)

medial_bits :
    (a b x y : Bool)
    → bit_xor (bit_xor (of_bit a) (of_bit x)) (bit_xor (of_bit b) (of_bit y))
      ≡ bit_xor (bit_xor (of_bit a) (of_bit b)) (bit_xor (of_bit x) (of_bit y))
medial_bits false false false false = refl
medial_bits false false false true = refl
medial_bits false false true false = refl
medial_bits false false true true = refl
medial_bits false true false false = refl
medial_bits false true false true = refl
medial_bits false true true false = refl
medial_bits false true true true = refl
medial_bits true false false false = refl
medial_bits true false false true = refl
medial_bits true false true false = refl
medial_bits true false true true = refl
medial_bits true true false false = refl
medial_bits true true false true = refl
medial_bits true true true false = refl
medial_bits true true true true = refl

-- Bits may be combined in either grouping.
bit_xor_medial :
    (a b x y : ℕ)
    → a < 2
    → b < 2
    → x < 2
    → y < 2
    → bit_xor (bit_xor a x) (bit_xor b y) ≡ bit_xor (bit_xor a b) (bit_xor x y)
bit_xor_medial a b x y ha hb hx hy =
    let (a', ea) = bit_cases a ha in
    let (b', eb) = bit_cases b hb in
    let (x', ex) = bit_cases x hx in
    let (y', ey) = bit_cases y hy in rw (ea, eb, ex, ey) (medial_bits a' b' x' y')

pub xor_loop_parties :
    (f g h : ℕ → ℕ) (n j a b : ℕ)
    → a < 2
    → b < 2
    → ((k : ℕ) → k < j + n → f k < 2)
    → ((k : ℕ) → k < j + n → g k < 2)
    → ((k : ℕ) → k < j + n → bit_xor (f k) (g k) ≡ h k)
    → bit_xor (xor_loop f n j a) (xor_loop g n j b) ≡ xor_loop h n j (bit_xor a b)
unfolding xor_loop
xor_loop_parties f g h zero j a b ha hb hf hg e = refl
xor_loop_parties f g h (suc n) j a b ha hb hf hg e =
    let here : j < j + suc n = omega arith in
    let later : (k : ℕ) → k < j + 1 + n → k < j + suc n = λ k lt. omega arith in
    xor_loop_parties f g h n (j + 1) (bit_xor a (f j)) (bit_xor b (g j))
      (bit_xor-lt 1 a (f j) ha (hf j here)) (bit_xor-lt 1 b (g j) hb (hg j here))
      (λ k lt. hf k (later k lt)) (λ k lt. hg k (later k lt)) (λ k lt. e k (later k lt))
    ∙ ap (xor_loop h n (j + 1)) (
        bit_xor_medial a b (f j) (g j) ha hb (hf j here) (hg j here)
        ∙ ap (bit_xor (bit_xor a b)) (e j here))

pub sum_loop_parties :
    (f g h : ℕ → ℕ) (n j a b c : ℕ)
    → (a + b) % 2 ^ 64 ≡ c
    → ((k : ℕ) → k < j + n → (f k + g k) % 2 ^ 64 ≡ h k)
    → (sum_loop f n j a + sum_loop g n j b) % 2 ^ 64 ≡ sum_loop h n j c
unfolding sum_loop
sum_loop_parties f g h zero j a b c e eh = e
sum_loop_parties f g h (suc n) j a b c e eh =
    sum_loop_parties f g h n (j + 1) _ _ _ (omega (arith, e, eh j (omega arith)))
      (λ k lt. eh k (omega arith))

-- The multiplexers for a list of pairs of shares.
module _ (duet : Duet) (laws : DuetLaws duet) (bins columns : ℕ) (cs cr : Matrix) where
  pub multiplex-Meets :
      (shares : List (Matrix × Matrix))
      → Meets
          (multiplex duet true bins columns cs (map (λ p. p.0) shares))
          (multiplex duet false bins columns cr (map (λ p. p.1) shares))
          (done (map (λ p. laws.mux_s bins columns cs cr p.0 p.1) shares))
          (done (map (λ p. laws.mux_r bins columns cs cr p.0 p.1) shares))
  unfolding multiplex
  multiplex-Meets [] = (0, refl)
  multiplex-Meets ((xs, xr) ∷ shares) =
      Meets-bind _ _ _ _ _ _ _ _ (laws.mux_Meets bins columns cs cr xs xr) (
        Meets-bind (λ r. done (laws.mux_s bins columns cs cr xs xr ∷ r))
          (λ r. done (laws.mux_r bins columns cs cr xs xr ∷ r)) _ _ _ _ _ _ (multiplex-Meets shares)
          (0, refl))
