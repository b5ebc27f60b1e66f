-- ===== src/Reliable/Sender/Timeout.antt =====
-- What `checkRetransmit` does to each entry of the retransmission map.
use shadow_gre.Prelude.{
  ℕ, ◌+◌, ◌*◌, ◌≡◌, refl, sym, ap, ◌∙◌, inl, inr, Bool, false, not, ◌||◌, ◌&&◌, ◌++◌, append-nil,
  append_assoc, Option, none, some, List, [], ◌∷◌, map, arith, ltb, leb, ◌==◌, if◌then◌else◌,
  if_both, Bool-cases, All, All-weaken, ne→==_false, Option-cases,
}
use shadow_gre.Prelude.{lookup, lookup-erase, lookup-insert}
use shadow_gre.Reliable.Packet.{ReliablePacket}
use shadow_gre.Reliable.Rtt.{Float64, get_rto}
use shadow_gre.Reliable.Sender.{
  Unacked, Sender, retransmit, check_entry, check_entries, check_retransmit, max_retries,
  millisecond,
}

-- An entry after the timeout check: kept if SACKed or not older than the RTO; else given up after
-- `MaxRetries` retransmissions, and sent again before that.
pub checked : ℕ → ℕ → Option Unacked → Option Unacked
checked now rto none = none
checked now rto (some up) =
    if up.sacked || leb now (up.sent_time + rto)
    then some up
    else (if leb max_retries up.retries
        then none
        else some (record up { retries = up.retries + 1; sent_time = now }))

-- What has just been sent is not due again.
checked-checked :
    (now rto : ℕ) (o : Option Unacked) → checked now rto (checked now rto o) ≡ checked now rto o
unfolding checked
checked-checked now rto none = refl
checked-checked now rto (some up) = ground arith

abbrev elem : ℕ → List ℕ → Bool
elem j [] = false
elem j (k ∷ ks) = j == k || elem j ks

lookup-keys :
    (j : ℕ) (m : List (ℕ × Unacked)) → elem j (map (λ e. e.0) m) ≡ false → lookup j m ≡ none
unfolding lookup
lookup-keys j [] h = refl
lookup-keys j ((k, up) ∷ m) h = ground (arith, lookup-keys j m)

-- What is sent of an entry: its packet, if it is not SACKed, older than the RTO, and not given up.
pub sent_again : ℕ → ℕ → Option Unacked → List ReliablePacket
sent_again now rto none = []
sent_again now rto (some up) =
    if not up.sacked && ltb (up.sent_time + rto) now
    then (if leb max_retries up.retries then [] else up.pkt ∷ [])
    else []

-- And of the entries under these numbers, in this order.
pub all_sent_again : ℕ → ℕ → List ℕ → List (ℕ × Unacked) → List ReliablePacket
all_sent_again now rto [] m = []
all_sent_again now rto (seq ∷ seqs) m =
    sent_again now rto (lookup seq m) ++ all_sent_again now rto seqs m

-- No number twice, as in the keys of a Go map.
abbrev pub Distinct : List ℕ → Type 0
Distinct [] = Unit
Distinct (k ∷ ks) = All (λ j. ¬ (j ≡ k)) ks × Distinct ks

all_sent_again_same :
    (now rto : ℕ) (seqs : List ℕ) (m m' : List (ℕ × Unacked))
    → All (λ j. lookup j m ≡ lookup j m') seqs
    → all_sent_again now rto seqs m ≡ all_sent_again now rto seqs m'
unfolding all_sent_again
all_sent_again_same now rto [] m m' same = refl
all_sent_again_same now rto (seq ∷ seqs) m m' (here, same) =
    ap (λ o. sent_again now rto o ++ all_sent_again now rto seqs m) here
    ∙ ap (λ l. sent_again now rto (lookup seq m') ++ l) (all_sent_again_same now rto seqs m m' same)

module _ (fl : Float64) where
  lookup-check_entry :
      (now rto seq j : ℕ) (s : Sender fl)
      → lookup j (check_entry fl now rto seq s).unacked
        ≡ (if j == seq then checked now rto (lookup j s.unacked) else lookup j s.unacked)
  unfolding check_entry retransmit checked
  lookup-check_entry now rto seq j s = elim (Option-cases (lookup seq s.unacked)) [
    | inl e ↦ ground (arith, ap (λ k. lookup k s.unacked))
    | inr (up, e) ↦ ground (
      arith,
      lookup-erase j seq s.unacked,
      lookup-insert j seq (record up { retries = up.retries + 1; sent_time = now }) s.unacked,
    )
  ]

  lookup-check_entries :
      (now rto : ℕ) (seqs : List ℕ) (j : ℕ) (s : Sender fl)
      → lookup j (check_entries fl now rto seqs s).unacked
        ≡ (if elem j seqs then checked now rto (lookup j s.unacked) else lookup j s.unacked)
  unfolding check_entries
  lookup-check_entries now rto [] j s = refl
  lookup-check_entries now rto (seq ∷ seqs) j s = ground (
    arith,
    lookup-check_entries now rto seqs j (check_entry fl now rto seq s),
    lookup-check_entry now rto seq j s,
    checked-checked now rto (lookup j s.unacked),
  )

  sent-check_entry :
      (now rto seq : ℕ) (s : Sender fl)
      → (check_entry fl now rto seq s).sent ≡ s.sent ++ sent_again now rto (lookup seq s.unacked)
  unfolding check_entry sent_again retransmit
  sent-check_entry now rto seq s = elim (Option-cases (lookup seq s.unacked)) [
    | inl e ↦ rw (check_entry, e, sent_again) (sym (append-nil s.sent))
    | inr (up, e) ↦ elim (Bool-cases (not up.sacked && ltb (up.sent_time + rto) now)) [
      | inr early ↦ rw (check_entry, e, sent_again, early) (sym (append-nil s.sent))
      | inl due ↦ elim (Bool-cases (leb max_retries up.retries)) [
        | inl given_up ↦ rw (check_entry, e, sent_again, due, given_up) (sym (append-nil s.sent))
        | inr again ↦ rw (check_entry, e, sent_again, due, again) (rw (retransmit, e) refl)
      ]
    ]
  ]

  sent-check_entries :
      (now rto : ℕ) (seqs : List ℕ) (s : Sender fl)
      → Distinct seqs
      → (check_entries fl now rto seqs s).sent ≡ s.sent ++ all_sent_again now rto seqs s.unacked
  unfolding check_entries all_sent_again
  sent-check_entries now rto [] s d = sym (append-nil s.sent)
  sent-check_entries now rto (seq ∷ seqs) s (others, d) =
      let s' = check_entry fl now rto seq s in
      sent-check_entries now rto seqs s' d
      ∙ ap (λ l. l ++ all_sent_again now rto seqs s'.unacked) (sent-check_entry now rto seq s)
      ∙ ap (λ l. (s.sent ++ sent_again now rto (lookup seq s.unacked)) ++ l)
          (all_sent_again_same now rto seqs s'.unacked s.unacked (
            All-weaken (λ j. ¬ (j ≡ seq)) (λ j. lookup j s'.unacked ≡ lookup j s.unacked) seqs
              (λ j ne. lookup-check_entry now rto seq j s ∙ rw (ne→==_false j seq ne) refl) others))
      ∙ append_assoc s.sent (sent_again now rto (lookup seq s.unacked))
          (all_sent_again now rto seqs s.unacked)

  lookup-check_retransmit :
      (s : Sender fl) (now seq : ℕ)
      → lookup seq (check_retransmit fl s now).unacked
        ≡ checked now (get_rto fl s.rtt_estimator * millisecond) (lookup seq s.unacked)
  unfolding check_retransmit checked
  lookup-check_retransmit s now seq =
      let rto = get_rto fl s.rtt_estimator * millisecond in
      let keys = map (λ e. e.0) s.unacked in
      let s' = check_entries fl now rto keys s in
      let each : lookup seq s'.unacked ≡ checked now rto (lookup seq s.unacked) =
        lookup-check_entries now rto keys seq s ∙ known seq rto in
      elim (Bool-cases (ltb s.retransmits s'.retransmits)) [
        | inl resent ↦ rw resent each
        | inr quiet ↦ rw quiet each
      ]
    where
      known :
          (seq rto : ℕ)
          → (if elem seq (map (λ e. e.0) s.unacked)
              then checked now rto (lookup seq s.unacked)
              else lookup seq s.unacked)
            ≡ checked now rto (lookup seq s.unacked)
      known seq rto = elim (Bool-cases (elem seq (map (λ e. e.0) s.unacked))) [
        | inl there ↦ rw there
        | inr absent ↦ rw (absent, lookup-keys seq s.unacked absent, checked)
      ]

  -- `checkRetransmit` treats each packet in a map of distinct sequence numbers as `checked` says, with
  -- the RTO in force, and brings in no other, whatever the order in which it visits the map. What it
  -- sends is, in this order, the packet of each entry that is not SACKed, is older than the RTO and has
  -- been sent again fewer than `MaxRetries` times, once each, and nothing else.
  pub check_retransmit_lem :
      (s : Sender fl) (now : ℕ)
      → Distinct (map (λ e. e.0) s.unacked)
      → let rto = get_rto fl s.rtt_estimator * millisecond in
        ((seq : ℕ)
          → lookup seq (check_retransmit fl s now).unacked ≡ checked now rto (lookup seq s.unacked))
        × ((check_retransmit fl s now).sent
            ≡ s.sent ++ all_sent_again now rto (map (λ e. e.0) s.unacked) s.unacked)
  unfolding check_retransmit
  check_retransmit_lem s now distinct = (lookup-check_retransmit s now, all)
    where
      rto : ℕ
      rto = get_rto fl s.rtt_estimator * millisecond

      keys : List ℕ
      keys = map (λ (e : ℕ × Unacked). e.0) s.unacked

      all : (check_retransmit fl s now).sent ≡ s.sent ++ all_sent_again now rto keys s.unacked
      all =
          if_both (λ (t : Sender fl). t.sent ≡ s.sent ++ all_sent_again now rto keys s.unacked)
            (ltb s.retransmits (check_entries fl now rto keys s).retransmits)
            (sent-check_entries now rto keys s distinct)
            (sent-check_entries now rto keys s distinct)
