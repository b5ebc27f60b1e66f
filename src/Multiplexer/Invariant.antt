-- ===== src/Multiplexer/Invariant.antt =====
-- What holds of the manager's map and of the connections between any two operations.
use shadow_gre.Prelude.{
  All-append_last, ==_iff, if◌then◌else◌, ℕ, zero, suc, ◌<◌, ◌≡◌, refl, sym, ap, ◌∙◌, inl, inr,
  false, List, [], ◌∷◌, ◌++◌, arith, length, All, get_or, set, length-append, length-set,
  get_or-set_self, get_or-set_other, get_or-append, get_or-append_last, All-erase, All-insert,
  All-map, All-and, erase-ne, insert, erase, Bool-cases, ◌==◌,
}
use mathlib.Core.Path.{subst}
use shadow_gre.Multiplexer.Connection.{Connection, new_connection, shut}
use shadow_gre.Multiplexer.Manager.{ConnectionManager}

abbrev pub at : List Connection → ℕ → Connection
at cs p = get_or cs p (new_connection 0)

-- An entry of the map points to an open connection that has its identifier.
abbrev pub Entry : List Connection → ℕ × ℕ → Type 0
Entry cs e = (e.1 < length cs) × ((at cs e.1).id ≡ e.0) × ((at cs e.1).closed ≡ false)

-- `closeCh` is closed exactly on the connections that are closed.
abbrev pub Gate : Connection → Type 0
Gate c = c.close_ch ≡ c.closed

pub record Valid (cs : List Connection) (map : List (ℕ × ℕ)) : Type 0 where
  pub entries : All (Entry cs) map
  pub gates : All Gate cs

abbrev pub IsValid : ConnectionManager → Type 0
IsValid m = Valid m.objects m.connections

All-set {ℓ κ} :
    {A : Type ℓ} (P : A → Type κ) (xs : List A) (i : ℕ) (v : A)
    → All P xs
    → P v
    → All P (set xs i v)
All-set P [] i v h p = tt
All-set P (x ∷ xs) zero v h p = (p, h.1)
All-set P (x ∷ xs) (suc i) v h p = (h.0, All-set P xs i v h.1 p)

pub Valid-store :
    (cs : List Connection) (map : List (ℕ × ℕ)) (id : ℕ) (c : Connection)
    → Valid cs map
    → c.id ≡ id
    → c.closed ≡ false
    → c.close_ch ≡ false
    → Valid (cs ++ c ∷ []) (insert id (length cs) map)
Valid-store cs map id c v same open_yet gate = record {
  entries =
      All-insert (Entry (cs ++ c ∷ [])) id (length cs) map
        (
          omega (arith, length-append cs (c ∷ [])),
          ap (λ (d : Connection). d.id) (get_or-append_last cs c (new_connection 0)) ∙ same,
          ap (λ (d : Connection). d.closed) (get_or-append_last cs c (new_connection 0)) ∙ open_yet,
        )
        (All-map (Entry cs) (Entry (cs ++ c ∷ [])) map older v.entries);
  gates = All-append_last Gate cs v.gates (gate ∙ sym open_yet);
}
  where
    older : (e : ℕ × ℕ) → Entry cs e → Entry (cs ++ c ∷ []) e
    older e (lt, i, o) =
        let kept = get_or-append cs (c ∷ []) e.1 (new_connection 0) lt in
        (
          omega (arith, length-append cs (c ∷ [])),
          ap (λ (d : Connection). d.id) kept ∙ i,
          ap (λ (d : Connection). d.closed) kept ∙ o,
        )

pub Valid-erase :
    (cs : List Connection) (map : List (ℕ × ℕ)) (id : ℕ) → Valid cs map → Valid cs (erase id map)
Valid-erase cs map id v = record {
  entries = All-erase (Entry cs) id map v.entries;
  gates = v.gates;
}

at-set :
    (cs : List Connection) (p q : ℕ) (c : Connection)
    → q < length cs
    → (at (set cs p c) q ≡ (if p == q then c else at cs q))
at-set cs p q c h = elim (Bool-cases (p == q)) [
  | inl e ↦ rw e (
      subst (λ i. at (set cs p c) i ≡ c) ((==_iff p q).0 e)
        (get_or-set_self cs p c (new_connection 0) (omega (arith, (==_iff p q).0 e))))
  | inr e ↦ rw e (get_or-set_other cs p q c (new_connection 0) (λ s. cc (e, (==_iff p q).1 s)))
]

-- A change that keeps the identifier and whether it is closed.
pub Valid-set :
    (cs : List Connection) (map : List (ℕ × ℕ)) (p : ℕ) (c : Connection)
    → Valid cs map
    → c.id ≡ (at cs p).id
    → c.closed ≡ (at cs p).closed
    → Gate c
    → Valid (set cs p c) map
Valid-set cs map p c v same state gate = record {
  entries = All-map (Entry cs) (Entry (set cs p c)) map kept v.entries;
  gates = All-set Gate cs p c v.gates gate;
}
  where
    kept : (e : ℕ × ℕ) → Entry cs e → Entry (set cs p c) e
    kept (k, q) (lt, i, o) = elim (Bool-cases (p == q)) [
      | inl e ↦
          let here : at (set cs p c) q ≡ c =
            at-set cs p q c lt ∙ ap (λ b. if b then c else at cs q) e in
          let pq = (==_iff p q).0 e in
          (
            omega (arith, length-set cs p c),
            ap (λ (d : Connection). d.id) here ∙ same ∙ ap (λ j. (at cs j).id) pq ∙ i,
            ap (λ (d : Connection). d.closed) here ∙ state ∙ ap (λ j. (at cs j).closed) pq ∙ o,
          )
      | inr e ↦
          let there : at (set cs p c) q ≡ at cs q =
            at-set cs p q c lt ∙ ap (λ b. if b then c else at cs q) e in
          (
            omega (arith, length-set cs p c),
            ap (λ (d : Connection). d.id) there ∙ i,
            ap (λ (d : Connection). d.closed) there ∙ o,
          )
    ]

-- A connection is closed, and its identifier leaves the map.
pub Valid-shut :
    (cs : List Connection) (map : List (ℕ × ℕ)) (p : ℕ)
    → Valid cs map
    → Valid (set cs p (shut (at cs p))) (erase (at cs p).id map)
unfolding shut
Valid-shut cs map p v = record {
  entries =
      All-map (λ e. Entry cs e × ¬ (e.0 ≡ (at cs p).id)) (Entry (set cs p (shut (at cs p))))
        (erase (at cs p).id map) kept
        (All-and (Entry cs) (λ e. ¬ (e.0 ≡ (at cs p).id)) (erase (at cs p).id map)
          (All-erase (Entry cs) (at cs p).id map v.entries) (erase-ne (at cs p).id map));
  gates = All-set Gate cs p (shut (at cs p)) v.gates refl;
}
  where
    kept : (e : ℕ × ℕ) → Entry cs e × ¬ (e.0 ≡ (at cs p).id) → Entry (set cs p (shut (at cs p))) e
    kept (k, q) ((lt, i, o), other) = elim (Bool-cases (p == q)) [
      | inl e ↦ absurd (other (sym i ∙ ap (λ j. (at cs j).id) (sym ((==_iff p q).0 e))))
      | inr e ↦
          let there : at (set cs p (shut (at cs p))) q ≡ at cs q =
            at-set cs p q (shut (at cs p)) lt ∙ ap (λ b. if b then shut (at cs p) else at cs q) e in
          (
            omega (arith, length-set cs p (shut (at cs p))),
            ap (λ (d : Connection). d.id) there ∙ i,
            ap (λ (d : Connection). d.closed) there ∙ o,
          )
    ]

All-get_or {ℓ κ} :
    {A : Type ℓ} (P : A → Type κ) (xs : List A) (i : ℕ) (d : A) → All P xs → P d → P (get_or xs i d)
All-get_or P [] i d h p = p
All-get_or P (x ∷ xs) zero d h p = h.0
All-get_or P (x ∷ xs) (suc i) d h p = All-get_or P xs i d h.1 p

pub Gate-at : (cs : List Connection) (p : ℕ) → All Gate cs → Gate (at cs p)
unfolding new_connection
Gate-at cs p h = All-get_or Gate cs p (new_connection 0) h refl
