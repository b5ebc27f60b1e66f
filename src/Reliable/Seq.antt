-- ===== src/Reliable/Seq.antt =====
-- The sequence numbers of pkg/tunnel/reliable.go: uint32 with wrap-around, compared by the sign of
-- their difference as an int32, which is the top bit of the uint32 difference.
use shadow_gre.Prelude.{
  ℕ, ◌+◌, ◌-◌, ◌%◌, ◌^◌, ◌<◌, ◌≡◌, Bool, not, ◌&&◌, ◌||◌, arith, ltb, leb, ◌==◌,
}

-- uint32 addition and subtraction.
abbrev pub add32 : ℕ → ℕ → ℕ
add32 a b = (a + b) % 2 ^ 32

abbrev pub sub32 : ℕ → ℕ → ℕ
sub32 a b = (a + 2 ^ 32 - b) % 2 ^ 32

-- `int32(w) < 0`
abbrev pub is_neg : ℕ → Bool
is_neg w = leb (2 ^ 31) w

unfoldable pub seq_less : ℕ → ℕ → Bool
seq_less a b = is_neg (sub32 a b)

unfoldable pub seq_less_or_equal : ℕ → ℕ → Bool
seq_less_or_equal a b = is_neg (sub32 a b) || sub32 a b == 0

unfoldable pub seq_greater : ℕ → ℕ → Bool
seq_greater a b = not (is_neg (sub32 a b)) && not (sub32 a b == 0)

-- For two positions of a stream that are less than 2^31 apart, the three tests on their 32-bit
-- sequence numbers answer as the positions themselves compare, across any wrap-around.
pub seq_order :
    (i j : ℕ)
    → i < j + 2 ^ 31
    → j < i + 2 ^ 31
    → (seq_less (i % 2 ^ 32) (j % 2 ^ 32) ≡ ltb i j)
      × (seq_less_or_equal (i % 2 ^ 32) (j % 2 ^ 32) ≡ leb i j)
      × (seq_greater (i % 2 ^ 32) (j % 2 ^ 32) ≡ ltb j i)
unfolding seq_less seq_less_or_equal seq_greater
seq_order i j h k = (ground arith, ground arith, ground arith)

-- Positions that are less than 2^32 apart and have one sequence number are the same.
pub seq_unique : (i j : ℕ) → i < j + 2 ^ 31 → j < i + 2 ^ 31 → i % 2 ^ 32 ≡ j % 2 ^ 32 → i ≡ j
seq_unique i j h k e = omega arith
