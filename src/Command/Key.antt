-- ===== src/Command/Key.antt =====
-- `passwordToKey` of cmd/shadow-gre/main.go: the 32-bit FNV-1a hash of hash/fnv.
use Prim.Native.Nat.{bit_xor}
use shadow_gre.Prelude.{
  ℕ, ◌*◌, ◌%◌, ◌^◌, ◌<◌, ◌≡◌, refl, sym, ap, ◌∙◌, List, [], ◌∷◌, ◌++◌, All, arith,
}
use shadow_gre.Wire.{IsU32}
use shadow_gre.Command.Xor.{bit_xor-lt, bit_xor_undo}

abbrev pub fnv_offset : ℕ
fnv_offset = 2166136261

abbrev pub fnv_prime : ℕ
fnv_prime = 16777619

-- A byte that is written to the hash.
unfoldable pub hash_byte : ℕ → ℕ → ℕ
hash_byte h b = bit_xor h b * fnv_prime % 2 ^ 32

unfoldable pub hash_bytes : ℕ → List ℕ → ℕ
hash_bytes h [] = h
hash_bytes h (b ∷ bs) = hash_bytes (hash_byte h b) bs

unfoldable pub password_to_key : List ℕ → ℕ
password_to_key password = hash_bytes fnv_offset password

-- The prime is odd, so multiplication by it can be undone.
unmultiplied : (x : ℕ) → x < 2 ^ 32 → (x * fnv_prime % 2 ^ 32) * 899433627 % 2 ^ 32 ≡ x
unmultiplied x small = omega arith

multiplied_inj :
    (x y : ℕ) → x < 2 ^ 32 → y < 2 ^ 32 → x * fnv_prime % 2 ^ 32 ≡ y * fnv_prime % 2 ^ 32 → x ≡ y
multiplied_inj x y p q e =
    sym (unmultiplied x p) ∙ ap (λ t. t * 899433627 % 2 ^ 32) e ∙ unmultiplied y q

hash_byte-IsU32 : (h b : ℕ) → IsU32 (hash_byte h b)
unfolding hash_byte
hash_byte-IsU32 h b = omega arith

-- A step can be undone, if the byte is known or if the hash before it is known.
module _ (h b h' b' : ℕ) (hh : IsU32 h) (hh' : IsU32 h') (hb : b < 256) (hb' : b' < 256) where
  same_xor : hash_byte h b ≡ hash_byte h' b' → bit_xor h b ≡ bit_xor h' b'
  unfolding hash_byte
  same_xor e =
      multiplied_inj (bit_xor h b) (bit_xor h' b') (bit_xor-lt 32 h b hh (omega arith))
        (bit_xor-lt 32 h' b' hh' (omega arith)) e

  same_hash : hash_byte h b ≡ hash_byte h' b' → b ≡ b' → h ≡ h'
  same_hash e same =
      sym (bit_xor_undo 32 h b hh (omega arith)).0
      ∙ ap (λ t. bit_xor t b) (same_xor e)
      ∙ ap (λ t. bit_xor (bit_xor h' b') t) same
      ∙ (bit_xor_undo 32 h' b' hh' (omega arith)).0

  same_byte : hash_byte h b ≡ hash_byte h' b' → h ≡ h' → b ≡ b'
  same_byte e same =
      sym (bit_xor_undo 32 h b hh (omega arith)).1
      ∙ ap (λ t. bit_xor t h) (same_xor e)
      ∙ ap (λ t. bit_xor (bit_xor h' b') t) same
      ∙ (bit_xor_undo 32 h' b' hh' (omega arith)).1

-- Different hashes stay different when the same bytes follow.
hash_bytes-inj :
    (h h' : ℕ) (bs : List ℕ)
    → IsU32 h
    → IsU32 h'
    → All (λ b. b < 256) bs
    → hash_bytes h bs ≡ hash_bytes h' bs
    → h ≡ h'
unfolding hash_bytes
hash_bytes-inj h h' [] hh hh' bytes e = e
hash_bytes-inj h h' (b ∷ bs) hh hh' (hb, bytes) e =
    same_hash h b h' b hh hh' hb hb
      (hash_bytes-inj (hash_byte h b) (hash_byte h' b) bs (hash_byte-IsU32 h b)
        (hash_byte-IsU32 h' b) bytes e)
      refl

hash_bytes-IsU32 : (h : ℕ) (bs : List ℕ) → IsU32 h → IsU32 (hash_bytes h bs)
unfolding hash_bytes
hash_bytes-IsU32 h [] hh = hh
hash_bytes-IsU32 h (b ∷ bs) hh = hash_bytes-IsU32 (hash_byte h b) bs (hash_byte-IsU32 h b)

hash_bytes-append :
    (h : ℕ) (bs cs : List ℕ) → hash_bytes h (bs ++ cs) ≡ hash_bytes (hash_bytes h bs) cs
unfolding hash_bytes
hash_bytes-append h [] cs = refl
hash_bytes-append h (b ∷ bs) cs = hash_bytes-append (hash_byte h b) bs cs

-- A key is a uint32, and two passwords that differ in exactly one byte have different keys.
pub one_byte_changes_key :
    (before after : List ℕ) (a b : ℕ)
    → a < 256
    → b < 256
    → All (λ c. c < 256) after
    → IsU32 (password_to_key (before ++ a ∷ after))
      × (password_to_key (before ++ a ∷ after) ≡ password_to_key (before ++ b ∷ after) → a ≡ b)
unfolding password_to_key hash_bytes
one_byte_changes_key before after a b ha hb bytes = (
  hash_bytes-IsU32 fnv_offset (before ++ a ∷ after) (omega arith),
  λ e.
      same_byte h a h b hh hh ha hb
        (hash_bytes-inj (hash_byte h a) (hash_byte h b) after (hash_byte-IsU32 h a)
          (hash_byte-IsU32 h b) bytes (split e))
        refl,
)
  where
    h : ℕ
    h = hash_bytes fnv_offset before

    hh : IsU32 h
    hh = hash_bytes-IsU32 fnv_offset before (omega arith)

    split :
        hash_bytes fnv_offset (before ++ a ∷ after) ≡ hash_bytes fnv_offset (before ++ b ∷ after)
        → hash_bytes (hash_byte h a) after ≡ hash_bytes (hash_byte h b) after
    split e =
        sym (hash_bytes-append fnv_offset before (a ∷ after))
        ∙ e
        ∙ hash_bytes-append fnv_offset before (b ∷ after)
