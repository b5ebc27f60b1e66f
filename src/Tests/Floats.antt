-- ===== src/Tests/Floats.antt =====
-- An instance of the float interface: fixed-point numbers in eighths, none of them NaN.
use shadow_gre.Prelude.{ℕ, ◌+◌, ◌-◌, ◌*◌, ◌/◌, ◌^◌, ◌≤◌, ◌≡◌, false, arith, ltb}
use shadow_gre.Reliable.Rtt.{Float64}

pub lt-eighths : (a b : ℕ) → a ≤ 2 ^ 53 → b ≤ 2 ^ 53 → ltb (8 * a) (8 * b) ≡ ltb a b
lt-eighths a b _ _ = ground arith

pub double_eighths :
    (x n : ℕ) → n ≤ 2 ^ 53 → ltb x (8 * n) ≡ false → ltb (x * (8 * 2) / 8) (8 * n) ≡ false
double_eighths x n small h = ground arith

pub trunc_eighths :
    (x a b : ℕ)
    → a ≤ b
    → b ≤ 2 ^ 53
    → false ≡ false
    → ltb x (8 * a) ≡ false
    → ltb (8 * b) x ≡ false
    → (a ≤ x / 8) × (x / 8 ≤ b)
trunc_eighths x a b le small number low high = (ground arith, ground arith)

abbrev pub eighths : Float64
eighths = record {
  F = ℕ;
  of_ℕ = λ n. 8 * n;
  ratio = λ n d. 8 * n / d;
  add = λ a b. a + b;
  sub = λ a b. a - b;
  mul = λ a b. a * b / 8;
  div = λ a b. 8 * a / b;
  neg = λ a. a;
  lt = ltb;
  is_nan = λ a. false;
  trunc = λ a. a / 8;
  lt-of_ℕ = lt-eighths;
  double_ge = double_eighths;
  trunc_between = trunc_eighths;
}
