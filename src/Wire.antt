-- ===== src/Wire.antt =====
-- Byte slices, `encoding/binary`'s big-endian words, and reads and writes at an offset.
-- A byte slice is a list of numbers below 256. A read or a write that leaves the slice is a panic.
pub mod Writes
pub mod Reads
use shadow_gre.Prelude.{
  ℕ, zero, suc, ◌+◌, ◌-◌, ◌*◌, ◌/◌, ◌%◌, ◌^◌, ◌≤◌, ◌<◌, min, ◌≡◌, refl, ap, ◌∙◌, ◌≢◌, Bool, true,
  false, not, ◌==◌, bit_and, List, [], ◌∷◌, ◌++◌, append_assoc, append-nil, arith, length, take,
  drop, replicate, length-append, length-take, length-drop, length-replicate, take-append,
  drop-append, drop_all, take_all, leb, le→leb, if◌then◌else◌, Outcome, ok, err, panic, All,
}

abbrev pub IsByte : ℕ → Type 0
IsByte b = b < 256

abbrev pub IsU16 : ℕ → Type 0
IsU16 v = v < 2 ^ 16

abbrev pub IsU32 : ℕ → Type 0
IsU32 v = v < 2 ^ 32

-- `flags & mask != 0`
abbrev pub has : ℕ → ℕ → Bool
has flags mask = not (bit_and flags mask == 0)

-- What `PutUint16` and `PutUint32` write.
abbrev pub be16 : ℕ → List ℕ
be16 v = (v / 2 ^ 8 % 2 ^ 8) ∷ (v % 2 ^ 8) ∷ []

abbrev pub be32 : ℕ → List ℕ
be32 v = (v / 2 ^ 24 % 2 ^ 8) ∷ (v / 2 ^ 16 % 2 ^ 8) ∷ (v / 2 ^ 8 % 2 ^ 8) ∷ (v % 2 ^ 8) ∷ []

-- What `Uint16` and `Uint32` make of a slice; both panic on one that is too short.
abbrev pub from_be16 : List ℕ → Outcome ℕ
from_be16 (a ∷ b ∷ _) = ok (a * 2 ^ 8 + b)
from_be16 _ = panic

abbrev pub from_be32 : List ℕ → Outcome ℕ
from_be32 (a ∷ b ∷ c ∷ d ∷ _) = ok (a * 2 ^ 24 + b * 2 ^ 16 + c * 2 ^ 8 + d)
from_be32 _ = panic

abbrev pub first : List ℕ → Outcome ℕ
first (a ∷ _) = ok a
first [] = panic

-- `data[off]`, `Uint16(data[off:off+2])` and `Uint32(data[off:off+4])`
unfoldable pub get_u8 : List ℕ → ℕ → Outcome ℕ
get_u8 bs off = first (drop off bs)

unfoldable pub get_u16 : List ℕ → ℕ → Outcome ℕ
get_u16 bs off = from_be16 (drop off bs)

unfoldable pub get_u32 : List ℕ → ℕ → Outcome ℕ
get_u32 bs off = from_be32 (drop off bs)

-- `make([]byte, n)`
abbrev pub make : ℕ → List ℕ
make n = replicate n 0

-- The slice with the bytes from `off` on replaced; a panic where they do not all fit.
unfoldable pub put : List ℕ → ℕ → List ℕ → Outcome (List ℕ)
put buf off bs =
    if leb (off + length bs) (length buf)
    then ok (take off buf ++ (bs ++ drop (off + length bs) buf))
    else panic

-- `copy(buf[off:], src)`: what does not fit is left out. The number is the count of bytes copied.
unfoldable pub copy : List ℕ → ℕ → List ℕ → Outcome (List ℕ × ℕ)
copy buf off src =
    let n = min (length src) (length buf - off) in
    if leb off (length buf)
    then ok (take off buf ++ (take n src ++ drop (off + n) buf), n)
    else panic
