-- ===== src/Circuit/ToyDuet.antt =====
-- An instance of the operations on shares that circuit PSI uses, with the laws that it relies on.
use mathlib.Core.List.{flatten}
use Prim.Native.Nat.{bit_xor}
use petace_set_ops.Base.{
  ℕ, zero, suc, ◌+◌, ◌*◌, ◌%◌, ◌^◌, ◌<◌, ◌≡◌, refl, ap, ◌∙◌, List, [], Bool, true, false, arith,
  length, get_or, ◌==◌, if◌then◌else◌,
}
use petace_set_ops.Net.{Proc, done, send, recv}
use petace_set_ops.Net.Meet.{Meets, Meets-send_left}
use petace_set_ops.Psi.Unpack.{AllOfLength, length-flatten}
use petace_set_ops.Circuit.Tables.{Matrix, Duet, tabulate}
use petace_set_ops.Circuit.Words.{length-tabulate, get_or-tabulate}
use petace_set_ops.Circuit.Shares.{DuetLaws}
use petace_set_ops.Circuit.Toy.{get_or-flatten}

-- Operations for which the sender shows its shares, and the receiver computes on them alone.
abbrev cells : ℕ → ℕ → Matrix → List ℕ
cells rows columns x = flatten (tabulate rows 0 (λ i. tabulate columns 0 (x i)))

abbrev cell : ℕ → List ℕ → Matrix
cell columns words i j = get_or words (i * columns + j) 0

abbrev equal_bit : ℕ → ℕ → ℕ → ℕ → ℕ
equal_bit x y x' y' = if (x + x') % 2 ^ 64 == (y + y') % 2 ^ 64 then 1 else 0

abbrev chosen_sum : ℕ → ℕ → ℕ → ℕ → ℕ
chosen_sum c c' x x' = if bit_xor c c' == 1 then (x + x') % 2 ^ 64 else 0

abbrev show_both : Bool → ℕ → ℕ → Matrix → Matrix → (List ℕ → List ℕ → Matrix) → Proc Matrix
show_both true rows columns x y f =
    send (cells rows columns x) (send (cells rows columns y) (done (λ i j. 0)))
show_both false rows columns x y f =
    recv (rows * columns) (λ xs. recv (rows * columns) (λ ys. done (f xs ys)))

abbrev pub shown : Duet
shown = record {
  equal = λ party rows columns x y.
      show_both party rows columns x y
        (λ xs ys i j. equal_bit (cell columns xs i j) (cell columns ys i j) (x i j) (y i j));
  multiplexer = λ party rows columns c x.
      show_both party rows columns c x
        (λ cs xs i j. chosen_sum (cell columns cs i j) (c i j) (cell columns xs i j) (x i j));
}

cells-AllOfLength :
    (columns : ℕ) (x : Matrix) (n i : ℕ)
    → AllOfLength columns (tabulate n i (λ i. tabulate columns 0 (x i)))
cells-AllOfLength columns x zero i = tt
cells-AllOfLength columns x (suc n) i =
    (length-tabulate columns 0 (x i), cells-AllOfLength columns x n (i + 1))

length-cells : (rows columns : ℕ) (x : Matrix) → length (cells rows columns x) ≡ rows * columns
length-cells rows columns x =
    length-flatten _ columns (cells-AllOfLength columns x rows 0)
    ∙ ap (λ n. n * columns) (length-tabulate rows 0 (λ i. tabulate columns 0 (x i)))

cell-cells :
    (rows columns : ℕ) (x : Matrix) (i j : ℕ)
    → i < rows
    → j < columns
    → cell columns (cells rows columns x) i j ≡ x i j
cell-cells rows columns x i j hi hj =
    let row : ℕ → List ℕ = λ i. tabulate columns 0 (x i) in
    let plain_i : 0 + i ≡ i = omega arith in
    let plain_j : 0 + j ≡ j = omega arith in
    get_or-flatten columns (tabulate rows 0 row) i j (cells-AllOfLength columns x rows 0)
      (omega (arith, hi, length-tabulate rows 0 row)) hj
    ∙ ap (λ r. get_or r j 0) (get_or-tabulate rows 0 row i [] hi)
    ∙ get_or-tabulate columns 0 (x (0 + i)) j 0 hj
    ∙ (λ k. x (plain_i k) (plain_j k))

shown-Meets :
    (rows columns : ℕ) (x y x' y' : Matrix) (f g : List ℕ → List ℕ → Matrix)
    → Meets
        (show_both true rows columns x y f)
        (show_both false rows columns x' y' g)
        (done (λ i j. 0))
        (done (g (cells rows columns x) (cells rows columns y)))
shown-Meets rows columns x y x' y' f g =
    Meets-send_left _ _ _ _ _ _ (length-cells rows columns x)
      (Meets-send_left _ _ _ _ _ _ (length-cells rows columns y) (0, refl))

bit_lt : (b : Bool) → ◌<◌ (if b then 1 else 0) 2
bit_lt true = omega arith
bit_lt false = omega arith

zero-bit_xor_bit : (b : Bool) → ◌≡◌ {A = ℕ} (bit_xor 0 (if b then 1 else 0)) (if b then 1 else 0)
zero-bit_xor_bit true = refl
zero-bit_xor_bit false = refl

chosen_word :
    (b : Bool) (n : ℕ)
    → (0 + (if b then n % 2 ^ 64 else 0)) % 2 ^ 64 ≡ (if b then n % 2 ^ 64 else 0)
chosen_word true n = omega arith
chosen_word false n = refl

pub shown_laws : DuetLaws shown
shown_laws = record {
  equal_s = λ rows columns xs ys xr yr i j. 0;
  equal_r = λ rows columns xs ys xr yr i j.
      equal_bit (cell columns (cells rows columns xs) i j)
        (cell columns (cells rows columns ys) i j) (xr i j) (yr i j);
  equal_Meets = λ rows columns xs ys xr yr. shown-Meets rows columns xs ys xr yr (λ a b i j. 0) _;
  bits_s = λ rows columns xs ys xr yr i j hi hj. omega arith;
  bits_r = λ rows columns xs ys xr yr i j hi hj. bit_lt _;
  equal_bits = λ rows columns xs ys xr yr i j hi hj. zero-bit_xor_bit _ ∙ (λ k.
      equal_bit (cell-cells rows columns xs i j hi hj k) (cell-cells rows columns ys i j hi hj k)
        (xr i j) (yr i j));
  mux_s = λ rows columns cs cr xs xr i j. 0;
  mux_r = λ rows columns cs cr xs xr i j.
      chosen_sum (cell columns (cells rows columns cs) i j) (cr i j)
        (cell columns (cells rows columns xs) i j) (xr i j);
  mux_Meets = λ rows columns cs cr xs xr. shown-Meets rows columns cs xs cr xr (λ a b i j. 0) _;
  mux_sum = λ rows columns cs cr xs xr i j hi hj. chosen_word _ _ ∙ (λ k.
      chosen_sum (cell-cells rows columns cs i j hi hj k) (cr i j)
        (cell-cells rows columns xs i j hi hj k) (xr i j));
}
