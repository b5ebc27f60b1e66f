-- ===== src/Reliable/Sack/Bounds.antt =====
-- The SACK blocks of `buildSackBlocks` (pkg/tunnel/reliable.go) against the format of a packet.
use shadow_gre.Prelude.{
  All-append_last, ℕ, ◌≤◌, ◌<◌, inl, inr, List, [], ◌∷◌, ◌++◌, map, arith, length, All,
  length-append, leb, ◌==◌, lt→ltb, Bool-cases,
}
use mathlib.Core.List.{reverse, reverse-cons}
use shadow_gre.Wire.{IsU32}
use shadow_gre.Reliable.Packet.{SackBlock, max_sack_blocks}
use shadow_gre.Reliable.Packet.RoundTrip.{BlockFits}
use shadow_gre.Reliable.Seq.{seq_less, add32}
use shadow_gre.Reliable.Sack.{
  insert_seq, sort_seqs, one_seq, blocks_loop, blocks_of, build_sack_blocks,
}

All-reverse {ℓ κ} : {A : Type ℓ} (P : A → Type κ) (xs : List A) → All P xs → All P (reverse xs)
All-reverse P [] a = tt
All-reverse P (x ∷ xs) (p, a) =
    rw (reverse-cons) (All-append_last P (reverse xs) (All-reverse P xs a) p)

insert_seq-All {κ} :
    (P : ℕ → Type κ) (x : ℕ) (ys : List ℕ) → P x → All P ys → All P (insert_seq x ys)
unfolding insert_seq
insert_seq-All P x [] p a = (p, tt)
insert_seq-All P x (y ∷ ys) p (q, a) = elim (Bool-cases (seq_less x y)) [
  | inl before ↦ rw before (q, insert_seq-All P x ys p a)
  | inr behind ↦ rw behind (p, (q, a))
]

sort_seqs-All {κ} :
    (P : ℕ → Type κ) (xs sorted : List ℕ) → All P xs → All P sorted → All P (sort_seqs xs sorted)
unfolding sort_seqs
sort_seqs-All P [] sorted a b = b
sort_seqs-All P (x ∷ xs) sorted (p, a) b =
    sort_seqs-All P xs (insert_seq x sorted) a (insert_seq-All P x sorted p b)

-- Few blocks, with their edges in range.
abbrev Fits : List SackBlock → Type 0
Fits blocks = (length blocks ≤ max_sack_blocks) × All BlockFits blocks

blocks_loop-Fits :
    (ss : List ℕ) (block : SackBlock) (blocks : List SackBlock)
    → All IsU32 ss
    → BlockFits block
    → length blocks < max_sack_blocks
    → All BlockFits blocks
    → Fits (blocks_loop ss block blocks)
unfolding blocks_loop
blocks_loop-Fits [] block blocks a fit few fits =
    rw (lt→ltb (length blocks) 4 few)
      (omega (arith, length-append blocks (block ∷ [])), All-append_last BlockFits blocks fits fit)
blocks_loop-Fits (s ∷ ss) block blocks (p, a) fit few fits =
    elim (Bool-cases (s == add32 block.right 1)) [
      | inl next ↦
          rw next (blocks_loop-Fits ss (record block { right = s }) blocks a (fit.0, p) few fits)
      | inr gap ↦ elim (Bool-cases (leb 4 (length (blocks ++ (block ∷ []))))) [
        | inl full ↦ rw (gap, full) (omega (arith, length-append blocks (block ∷ [])), more)
        | inr room ↦
            rw (gap, room)
              (blocks_loop-Fits ss (one_seq s) (blocks ++ (block ∷ [])) a (p, p) (ground arith)
                more)
      ]
    ]
  where
    more : All BlockFits (blocks ++ (block ∷ []))
    more = All-append_last BlockFits blocks fits fit

blocks_of-Fits : (ss : List ℕ) → All IsU32 ss → Fits (blocks_of ss)
unfolding blocks_of
blocks_of-Fits [] a = (omega arith, tt)
blocks_of-Fits (s ∷ ss) (p, a) = blocks_loop-Fits ss (one_seq s) [] a (p, p) (omega arith) tt

keys-All : (m : List (ℕ × List ℕ)) → All (λ e. IsU32 e.0) m → All IsU32 (map (λ e. e.0) m)
keys-All [] a = tt
keys-All (e ∷ m) (p, a) = (p, keys-All m a)

-- Whatever is buffered, there are at most `MaxSackBlocks` blocks, each with 32-bit edges.
pub build_sack_blocks-Fits :
    (m : List (ℕ × List ℕ))
    → All (λ e. IsU32 e.0) m
    → (length (build_sack_blocks m) ≤ max_sack_blocks) × All BlockFits (build_sack_blocks m)
unfolding build_sack_blocks
build_sack_blocks-Fits m a =
    blocks_of-Fits _
      (All-reverse IsU32 _ (sort_seqs-All IsU32 (map (λ e. e.0) m) [] (keys-All m a) tt))
