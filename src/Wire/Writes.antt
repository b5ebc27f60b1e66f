-- ===== src/Wire/Writes.antt =====
-- What a write leaves in a buffer whose front, up to the write, is already filled.
use shadow_gre.Prelude.{
  ℕ, zero, suc, ◌+◌, ◌-◌, ◌≤◌, ◌<◌, min, ◌≡◌, refl, sym, ap, List, [], ◌∷◌, ◌++◌, append_assoc,
  arith, length, drop, length-append, length-drop, length-replicate, take-append, drop-append,
  take_all, drop_all, le→leb, ok, panic,
}
use shadow_gre.Wire.{put, copy, make}

append_regroup : (a b c : List ℕ) → a ++ (b ++ c) ≡ (a ++ b) ++ c
append_regroup a b c = rw (append_assoc a b c)

drop-drop : (m n k : ℕ) (xs : List ℕ) → k ≡ m + n → drop n (drop m xs) ≡ drop k xs
drop-drop zero n k xs h = ap (λ j. drop j xs) (omega arith)
drop-drop (suc m) zero k [] h = sym (drop_all {A = ℕ} k [] (omega arith))
drop-drop (suc m) (suc n) k [] h = sym (drop_all {A = ℕ} k [] (omega arith))
drop-drop (suc m) n zero (x ∷ xs) h = absurd (omega arith)
drop-drop (suc m) n (suc k) (x ∷ xs) h = drop-drop m n k xs (omega arith)

-- The bytes written so far are `done`, and the rest of the buffer is as it was.
pub put-append :
    (buf done bs : List ℕ) (off : ℕ)
    → off ≡ length done
    → off + length bs ≤ length buf
    → put (done ++ drop off buf) off bs ≡ ok ((done ++ bs) ++ drop (off + length bs) buf)
unfolding put
put-append buf done bs off h k =
    rw
      (le→leb (off + length bs) (length (done ++ drop off buf))
        (omega (arith, length-append done (drop off buf), length-drop off buf)))
      (ap ok (
        rw
          (
            take-append done (drop off buf) off h,
            drop-append done (drop off buf) (off + length bs) (length bs) (omega arith),
            drop-drop off (length bs) (off + length bs) buf refl,
          )
          (append_regroup done bs (drop (off + length bs) buf))))

pub put_panics : (buf bs : List ℕ) (off : ℕ) → length buf < off + length bs → put buf off bs ≡ panic
unfolding put
put_panics buf bs off h = ground arith

-- A copy that fits writes all of its source.
pub copy-append :
    (buf done src : List ℕ) (off : ℕ)
    → off ≡ length done
    → off + length src ≤ length buf
    → copy (done ++ drop off buf) off src
      ≡ ok ((done ++ src) ++ drop (off + length src) buf, length src)
unfolding copy
copy-append buf done src off h k =
    rw (le→leb off (length (done ++ drop off buf)) room, fits)
      (ap (λ bs. ok (bs, length src))
        (rw
          (
            take_all (length src) src (omega arith),
            take-append done (drop off buf) off h,
            drop-append done (drop off buf) (off + length src) (length src) (omega arith),
            drop-drop off (length src) (off + length src) buf refl,
          )
          (append_regroup done src (drop (off + length src) buf))))
  where
    total : length (done ++ drop off buf) ≡ off + (length buf - off)
    total = omega (arith, length-append done (drop off buf), length-drop off buf)

    room : off ≤ length (done ++ drop off buf)
    room = omega (arith, total)

    fits : min (length src) (length (done ++ drop off buf) - off) ≡ length src
    fits = omega (arith, total)

pub length-make : (n : ℕ) → length (make n) ≡ n
length-make n = length-replicate n 0

-- What is left of a fresh buffer once it is full.
pub drop-make : (n m : ℕ) → n ≤ m → drop m (make n) ≡ []
drop-make n m h = drop_all m (make n) (omega (arith, length-make n))
