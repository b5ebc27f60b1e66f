-- ===== src/Command/Xor.antt =====
-- The exclusive or of two numbers, digit by digit.
use Prim.Native.Nat.{digits, differ, bit_xor, bit_xor-bitwise}
use shadow_gre.Prelude.{ℕ, zero, suc, ◌+◌, ◌*◌, ◌/◌, ◌%◌, ◌≤◌, ◌<◌, ◌≡◌, refl, sym, ap, ◌∙◌, arith}

abbrev run_digits : ℕ → ℕ → ℕ → ℕ
run_digits count a b = digits (λ b. b) differ count a b

-- Any count of digits from the first number on gives the same.
enough_digits :
    (count more a b : ℕ) → a ≤ count → count ≤ more → run_digits more a b ≡ run_digits count a b
enough_digits zero zero zero b fits le = refl
enough_digits zero (suc more) zero b fits le = refl
enough_digits zero more (suc a) b fits le = absurd (omega arith)
enough_digits (suc count) zero a b fits le = absurd (omega arith)
enough_digits (suc count) (suc more) zero b fits le = refl
enough_digits (suc count) (suc more) (suc a) b fits le =
    ap (λ t. t * 2 + differ (suc a % 2) (b % 2))
      (enough_digits count more (suc a / 2) (b / 2) (omega arith) (omega arith))

pub bit_xor_zero : (b : ℕ) → bit_xor 0 b ≡ b
bit_xor_zero b = bit_xor-bitwise 0 b

-- The lowest digit, and the others.
pub bit_xor_step : (a b : ℕ) → bit_xor a b ≡ bit_xor (a / 2) (b / 2) * 2 + differ (a % 2) (b % 2)
bit_xor_step zero b = omega (arith, bit_xor_zero b, bit_xor_zero (b / 2))
bit_xor_step (suc a) b =
    bit_xor-bitwise (suc a) b
    ∙ ap (λ t. t * 2 + differ (suc a % 2) (b % 2))
        (enough_digits (suc a / 2) a (suc a / 2) (b / 2) (omega arith) (omega arith)
          ∙ sym (bit_xor-bitwise (suc a / 2) (b / 2)))

-- Exclusive or on two digits.
differ_digits :
    (x y : ℕ)
    → x < 2
    → y < 2
    → (differ x y < 2) × (differ (differ x y) y ≡ x) × (differ (differ x y) x ≡ y)
differ_digits zero zero p q = (omega arith, refl, refl)
differ_digits zero (suc zero) p q = (omega arith, refl, refl)
differ_digits (suc zero) zero p q = (omega arith, refl, refl)
differ_digits (suc zero) (suc zero) p q = (omega arith, refl, refl)
differ_digits (suc (suc x)) y p q = absurd (omega arith)
differ_digits zero (suc (suc y)) p q = absurd (omega arith)
differ_digits (suc zero) (suc (suc y)) p q = absurd (omega arith)

abbrev pub power : ℕ → ℕ
power zero = 1
power (suc k) = power k * 2

pub bit_xor-lt : (k a b : ℕ) → a < power k → b < power k → bit_xor a b < power k
bit_xor-lt zero a b p q =
    let first : a ≡ 0 = omega arith in
    let second : b ≡ 0 = omega arith in rw (first, second) (omega arith)
bit_xor-lt (suc k) a b p q = omega (
  arith,
  bit_xor_step a b,
  bit_xor-lt k (a / 2) (b / 2) (omega arith) (omega arith),
  differ_digits (a % 2) (b % 2) (omega arith) (omega arith),
)

bit_xor_parts :
    (a b : ℕ)
    → (bit_xor a b / 2 ≡ bit_xor (a / 2) (b / 2)) × (bit_xor a b % 2 ≡ differ (a % 2) (b % 2))
bit_xor_parts a b =
    let small = (differ_digits (a % 2) (b % 2) (omega arith) (omega arith)).0 in
    (omega (arith, bit_xor_step a b, small), omega (arith, bit_xor_step a b, small))

-- Either number is found from the other and the result.
pub bit_xor_undo :
    (k a b : ℕ)
    → a < power k
    → b < power k
    → (bit_xor (bit_xor a b) b ≡ a) × (bit_xor (bit_xor a b) a ≡ b)
bit_xor_undo zero a b p q =
    let first : a ≡ 0 = omega arith in
    let second : b ≡ 0 = omega arith in rw (first, second) (refl, refl)
bit_xor_undo (suc k) a b p q =
    let (half, digit) = bit_xor_parts a b in
    let (left, right) = bit_xor_undo k (a / 2) (b / 2) (omega arith) (omega arith) in
    let (_, first, second) = differ_digits (a % 2) (b % 2) (omega arith) (omega arith) in
    (
      bit_xor_step (bit_xor a b) b ∙ rw (half, digit, left, first) (omega arith),
      bit_xor_step (bit_xor a b) a ∙ rw (half, digit, right, second) (omega arith),
    )
