-- ===== src/Reliable/Sack.antt =====
-- `buildSackBlocks` of pkg/tunnel/reliable.go: the SACK blocks of the out-of-order buffer.
pub mod Bounds
use shadow_gre.Prelude.{ℕ, List, [], ◌∷◌, ◌++◌, map, length, ltb, leb, ◌==◌, if◌then◌else◌}
use shadow_gre.Reliable.Packet.{SackBlock, max_sack_blocks}
use shadow_gre.Reliable.Seq.{seq_less, add32}
use mathlib.Core.List.{reverse}

-- One round of the insertion sort. The sorted front of `seqs` is held last element first, so the
-- inner loop, which swaps towards the front, walks from its head.
unfoldable pub insert_seq : ℕ → List ℕ → List ℕ
insert_seq x [] = x ∷ []
insert_seq x (y ∷ ys) = let rest = insert_seq x ys in if seq_less x y then y ∷ rest else x ∷ y ∷ ys

unfoldable pub sort_seqs : List ℕ → List ℕ → List ℕ
sort_seqs [] sorted = sorted
sort_seqs (x ∷ xs) sorted = sort_seqs xs (insert_seq x sorted)

abbrev one_seq : ℕ → SackBlock
one_seq s = record { left = s; right = s }

-- The loop over the sorted sequence numbers, with the append that follows it. The loop's `break`
-- leaves `MaxSackBlocks` blocks, so nothing is appended after it.
unfoldable pub blocks_loop : List ℕ → SackBlock → List SackBlock → List SackBlock
blocks_loop [] block blocks =
    if ltb (length blocks) max_sack_blocks then blocks ++ (block ∷ []) else blocks
blocks_loop (s ∷ ss) block blocks =
    let joined = blocks_loop ss (record block { right = s }) blocks in
    let apart = blocks_loop ss (one_seq s) (blocks ++ (block ∷ [])) in
    if s == add32 block.right 1
    then joined
    else (if leb max_sack_blocks (length (blocks ++ (block ∷ [])))
        then blocks ++ (block ∷ [])
        else apart)

unfoldable pub blocks_of : List ℕ → List SackBlock
blocks_of [] = []
blocks_of (s ∷ ss) = blocks_loop ss (one_seq s) []

-- `outOfOrder` has a payload for each sequence number; `reverse` puts the least first again.
unfoldable pub build_sack_blocks : List (ℕ × List ℕ) → List SackBlock
build_sack_blocks out_of_order = blocks_of (reverse (sort_seqs (map (λ e. e.0) out_of_order) []))
