-- ===== src/Prelude/Maps.antt =====
-- Go's maps with integer keys, as association lists. The order of the entries stands for the order in
-- which `range` happens to visit them.
use Prim.Native.Nat.{ℕ, ◌+◌, ◌≤◌, ◌<◌}
use mathlib.Core.Path.{◌≡◌, refl, subst₂}
use mathlib.Core.Logic.{inl, inr}
use mathlib.Core.List.{List, [], ◌∷◌}
use mathlib.Core.Option.{Option, none, some}
use native.Mathlib.Omega.{arith}
use shadow_gre.Prelude.Tests.{◌==◌, if◌then◌else◌, Bool-cases, ==_iff, ne→==_false}
use shadow_gre.Prelude.Lists.{length, All}

module _ {ℓ} {V : Type ℓ} where
  unfoldable pub lookup : ℕ → List (ℕ × V) → Option V
  lookup k [] = none
  lookup k ((j, v) ∷ m) = if j == k then some v else lookup k m

  -- `delete(m, k)`
  unfoldable pub erase : ℕ → List (ℕ × V) → List (ℕ × V)
  erase k [] = []
  erase k ((j, v) ∷ m) = let rest = erase k m in if j == k then rest else (j, v) ∷ rest

  -- `m[k] = v`
  unfoldable pub insert : ℕ → V → List (ℕ × V) → List (ℕ × V)
  unfolding erase
  insert k v m = (k, v) ∷ erase k m

  pub lookup-erase :
      (j k : ℕ) (m : List (ℕ × V)) → lookup j (erase k m) ≡ (if j == k then none else lookup j m)
  unfolding lookup erase
  lookup-erase j k [] = ground arith
  lookup-erase j k ((i, v) ∷ m) = ground (arith, lookup-erase j k m)

  pub lookup-insert :
      (j k : ℕ) (v : V) (m : List (ℕ × V))
      → lookup j (insert k v m) ≡ (if k == j then some v else lookup j m)
  unfolding lookup insert
  lookup-insert j k v m = ground (arith, lookup-erase j k m)

  pub length-erase-le : (k : ℕ) (m : List (ℕ × V)) → length (erase k m) ≤ length m
  unfolding erase
  length-erase-le k [] = omega arith
  length-erase-le k ((j, v) ∷ m) = ground (arith, length-erase-le k m)

  pub length-erase-lt :
      (k : ℕ) (m : List (ℕ × V)) (v : V) → lookup k m ≡ some v → length (erase k m) < length m
  unfolding lookup erase
  length-erase-lt k [] v h = ground arith
  length-erase-lt k ((j, w) ∷ m) v h = ground (arith, length-erase-lt k m v, length-erase-le k m)

  pub All-lookup {κ} :
      (P : ℕ × V → Type κ) (k : ℕ) (m : List (ℕ × V)) {v : V}
      → All P m
      → lookup k m ≡ some v
      → P (k, v)
  unfolding lookup
  All-lookup P k [] a h = ground arith
  All-lookup P k ((j, w) ∷ m) {v} (p, a) h = elim (Bool-cases (j == k)) [
    | inl e ↦ subst₂ (λ i u. P (i, u)) ((==_iff j k).0 e) (ground arith) p
    | inr e ↦ All-lookup P k m a (rw e at h)
  ]

  -- What no entry satisfies under `k` is not found under `k`.
  pub lookup-none : (k : ℕ) (m : List (ℕ × V)) → All (λ e. ¬ (e.0 ≡ k)) m → lookup k m ≡ none
  unfolding lookup
  lookup-none k [] a = refl
  lookup-none k ((j, w) ∷ m) (p, a) = rw (ne→==_false j k p) (lookup-none k m a)

  pub none-lookup : (k : ℕ) (m : List (ℕ × V)) → lookup k m ≡ none → All (λ e. ¬ (e.0 ≡ k)) m
  unfolding lookup
  none-lookup k [] h = tt
  none-lookup k ((j, w) ∷ m) h = elim (Bool-cases (j == k)) [
    | inl e ↦ absurd (some≢none (rw e at h))
    | inr e ↦ ((λ q. cc (e, (==_iff j k).1 q)), none-lookup k m (rw e at h))
  ]
    where
      some≢none : some w ≡ none → ⊥
      some≢none q = cc

  pub All-erase {κ} : (P : ℕ × V → Type κ) (k : ℕ) (m : List (ℕ × V)) → All P m → All P (erase k m)
  unfolding erase
  All-erase P k [] a = a
  All-erase P k ((j, w) ∷ m) (p, a) = elim (Bool-cases (j == k)) [
    | inl e ↦ rw e (All-erase P k m a)
    | inr e ↦ rw e (p, All-erase P k m a)
  ]

  pub All-insert {κ} :
      (P : ℕ × V → Type κ) (k : ℕ) (v : V) (m : List (ℕ × V))
      → P (k, v)
      → All P m
      → All P (insert k v m)
  unfolding insert
  All-insert P k v m p a = (p, All-erase P k m a)

  pub length-insert-le : (k : ℕ) (v : V) (m : List (ℕ × V)) → length (insert k v m) ≤ length m + 1
  unfolding insert
  length-insert-le k v m = omega (arith, length-erase-le k m)

  pub erase-ne : (k : ℕ) (m : List (ℕ × V)) → All (λ e. ¬ (e.0 ≡ k)) (erase k m)
  unfolding erase
  erase-ne k [] = tt
  erase-ne k ((j, w) ∷ m) = elim (Bool-cases (j == k)) [
    | inl e ↦ rw e (erase-ne k m)
    | inr e ↦ rw e ((λ q. cc ((==_iff j k).1 q)), erase-ne k m)
  ]

  pub All-map {κ κ'} :
      (P : ℕ × V → Type κ) (Q : ℕ × V → Type κ') (m : List (ℕ × V))
      → ((e : ℕ × V) → P e → Q e)
      → All P m
      → All Q m
  All-map P Q [] f a = tt
  All-map P Q (e ∷ m) f (p, a) = (f e p, All-map P Q m f a)

  pub All-and {κ κ'} :
      (P : ℕ × V → Type κ) (Q : ℕ × V → Type κ') (m : List (ℕ × V))
      → All P m
      → All Q m
      → All (λ e. P e × Q e) m
  All-and P Q [] a b = tt
  All-and P Q (e ∷ m) (p, a) (q, b) = ((p, q), All-and P Q m a b)
