-- ===== src/Wire/Reads.antt =====
-- What a read finds: the word that was written, and a value wherever the slice is long enough.
use shadow_gre.Prelude.{
  ℕ, ◌+◌, ◌*◌, ◌^◌, ◌≤◌, ◌≡◌, refl, ap, List, [], ◌∷◌, ◌++◌, arith, length, drop, length-drop,
  drop-append, ltb, if◌then◌else◌, lt→ltb, ok,
}
use shadow_gre.Wire.{
  IsU16, IsU32, be16, be32, from_be16, from_be32, first, get_u8, get_u16, get_u32,
}

from_be16-be16 : (v : ℕ) (rest : List ℕ) → IsU16 v → from_be16 (be16 v ++ rest) ≡ ok v
from_be16-be16 v rest h = ap ok (omega arith)

from_be32-be32 : (v : ℕ) (rest : List ℕ) → IsU32 v → from_be32 (be32 v ++ rest) ≡ ok v
from_be32-be32 v rest h = ap ok (omega arith)

pub get_u8-append :
    (done rest : List ℕ) (b off : ℕ) → off ≡ length done → get_u8 (done ++ (b ∷ rest)) off ≡ ok b
unfolding get_u8
get_u8-append done rest b off h = rw (drop-append done (b ∷ rest) off 0 (omega arith))

pub get_u16-append :
    (done rest : List ℕ) (v off : ℕ)
    → off ≡ length done
    → IsU16 v
    → get_u16 (done ++ (be16 v ++ rest)) off ≡ ok v
unfolding get_u16
get_u16-append done rest v off h k =
    rw (drop-append done (be16 v ++ rest) off 0 (omega arith)) (from_be16-be16 v rest k)

pub get_u32-append :
    (done rest : List ℕ) (v off : ℕ)
    → off ≡ length done
    → IsU32 v
    → get_u32 (done ++ (be32 v ++ rest)) off ≡ ok v
unfolding get_u32
get_u32-append done rest v off h k =
    rw (drop-append done (be32 v ++ rest) off 0 (omega arith)) (from_be32-be32 v rest k)

from_be16_total : (bs : List ℕ) → 2 ≤ length bs → (v : ℕ) × (from_be16 bs ≡ ok v)
from_be16_total [] h = absurd (omega arith)
from_be16_total (a ∷ []) h = absurd (omega arith)
from_be16_total (a ∷ b ∷ bs) h = (a * 2 ^ 8 + b, refl)

from_be32_total : (bs : List ℕ) → 4 ≤ length bs → (v : ℕ) × (from_be32 bs ≡ ok v)
from_be32_total [] h = absurd (omega arith)
from_be32_total (a ∷ []) h = absurd (omega arith)
from_be32_total (a ∷ b ∷ []) h = absurd (omega arith)
from_be32_total (a ∷ b ∷ c ∷ []) h = absurd (omega arith)
from_be32_total (a ∷ b ∷ c ∷ d ∷ bs) h = (a * 2 ^ 24 + b * 2 ^ 16 + c * 2 ^ 8 + d, refl)

first_total : (bs : List ℕ) → 1 ≤ length bs → (v : ℕ) × (first bs ≡ ok v)
first_total [] h = absurd (omega arith)
first_total (a ∷ bs) h = (a, refl)

pub get_u8_total : (bs : List ℕ) (off : ℕ) → off + 1 ≤ length bs → (v : ℕ) × (get_u8 bs off ≡ ok v)
unfolding get_u8
get_u8_total bs off h = first_total (drop off bs) (omega (arith, length-drop off bs))

pub get_u16_total :
    (bs : List ℕ) (off : ℕ) → off + 2 ≤ length bs → (v : ℕ) × (get_u16 bs off ≡ ok v)
unfolding get_u16
get_u16_total bs off h = from_be16_total (drop off bs) (omega (arith, length-drop off bs))

pub get_u32_total :
    (bs : List ℕ) (off : ℕ) → off + 4 ≤ length bs → (v : ℕ) × (get_u32 bs off ≡ ok v)
unfolding get_u32
get_u32_total bs off h = from_be32_total (drop off bs) (omega (arith, length-drop off bs))

-- `if len(data) > n { p.Data = data[n:] }` leaves all that stands behind `n`.
pub rest_if : (n m : ℕ) (xs : List ℕ) → m ≡ n + length xs → (if ltb n m then xs else []) ≡ xs
rest_if n m [] h = ground arith
rest_if n m (x ∷ xs) h = rw (lt→ltb n m (omega arith))
