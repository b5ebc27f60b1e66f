-- ===== src/Reliable/Link/Sound.antt =====
-- What each of two peers can rely on, and what an arriving packet does to it.
use shadow_gre.Prelude.{
  ap, ok, ◌>>=◌, Outcome, from_ok, ℕ, ◌+◌, ◌%◌, ◌^◌, ◌≤◌, ◌<◌, ◌≡◌, refl, sym, ◌∙◌, inl, inr, Bool,
  true, false, ◌&&◌, List, [], ◌∷◌, All, arith, length, ltb, if_both, if_with, if◌then◌else◌,
}
use mathlib.Core.Path.{subst, subst₂}
use mathlib.Core.List.{Memᴰ}
use mathlib.Core.List.Memᴰ
use shadow_gre.Wire.{has}
use shadow_gre.Reliable.Packet.RoundTrip.{unmarshal_reliable-marshal}
use shadow_gre.Reliable.Packet.{
  ReliablePacket, marshal, unmarshal_reliable, flag_data, flag_ack, flag_close,
}
use shadow_gre.Reliable.Rtt.{Float64}
use shadow_gre.Reliable.Sender.{process_ack}
use shadow_gre.Reliable.Receiver.{process_data}
use shadow_gre.Reliable.Stream.{ReliableStream, receive}
use shadow_gre.Reliable.Link.{End, HasSent}
use shadow_gre.Reliable.Link.Resend.{Keeps, process_ack-Keeps}
use shadow_gre.Reliable.Link.Honest.{Truthful, Receiving, data-Receiving, close-Receiving}

pub Truthful-weaken :
    (s : ℕ → List ℕ) (t t' top top' : ℕ)
    → t ≤ t'
    → top ≤ top'
    → (pkt : ReliablePacket) → Truthful s t top pkt
    → Truthful s t' top' pkt
Truthful-weaken s t t' top top' le le' pkt (ack, fits, carried) = (
  omega arith,
  fits,
  λ e. let (i, lt, seq, payload) = carried e in (i, omega arith, seq, payload),
)

left_true : (a b : Bool) → (a && b) ≡ true → a ≡ true
left_true true b e = refl
left_true false b e = cc

all_of {ℓ κ} : {A : Type ℓ} (P : A → Type κ) {x : A} (xs : List A) → All P xs → Memᴰ x xs → P x
all_of P [] a m = absurd (Memᴰ.not-nil m)
all_of P (y ∷ ys) (p, a) (Memᴰ.head e) = subst P (sym e) p
all_of P (y ∷ ys) (p, a) (Memᴰ.tail m) = all_of P ys a m

module _ (fl : Float64) where
  -- What the peer `e` of `p` is sure to have.
  pub record Sound (p e : End fl) : Type 0 where
    pub keeps :
        Keeps
          (Truthful e.payloads e.taken e.stream.receiver.recv_next)
          p.stream.receiver.recv_next
          (e.taken % 2 ^ 32)
          e.stream.sender
    pub receiving : Receiving p.payloads p.taken e.stream.receiver

  sent-Truthful :
      (p e : End fl) (pkt : ReliablePacket)
      → Sound e p
      → HasSent fl p pkt
      → Truthful p.payloads p.taken p.stream.receiver.recv_next pkt
  sent-Truthful p e pkt w (inl m) = all_of _ p.stream.sender.sent w.keeps.all_sent m
  sent-Truthful p e pkt w (inr m) =
      let (ack, no_data, fits) = all_of _ p.stream.receiver.sent w.receiving.0.acks m in
      (ack, fits, λ e. absurd (differ (sym e ∙ no_data)))
    where
      differ : true ≡ false → ⊥
      differ q = cc

  -- The parser gives back the packet that was sent.
  pub parsed-Truthful :
      (p e : End fl) (pkt parsed : ReliablePacket) (bs : List ℕ)
      → Sound e p
      → HasSent fl p pkt
      → marshal pkt ≡ ok bs
      → unmarshal_reliable bs ≡ ok parsed
      → Truthful p.payloads p.taken p.stream.receiver.recv_next parsed
  parsed-Truthful p e pkt parsed bs w m wire parse =
      subst (Truthful p.payloads p.taken p.stream.receiver.recv_next) (from_ok same) truth
    where
      truth : Truthful p.payloads p.taken p.stream.receiver.recv_next pkt
      truth = sent-Truthful p e pkt w m

      same : ok pkt ≡ ok parsed
      same =
          sym (unmarshal_reliable-marshal pkt truth.1)
          ∙ ap (λ (o : Outcome (List ℕ)). o >>= unmarshal_reliable) wire
          ∙ parse

  -- What a packet of the peer leaves as it was, and what it adds to.
  pub receive-Sound :
      (s s' : ℕ → List ℕ) (t t' top' next : ℕ) (st : ReliableStream fl) (pkt : ReliablePacket)
      (now : ℕ)
      → t' < 2 ^ 31
      → Truthful s' t' top' pkt
      → Keeps (Truthful s t st.receiver.recv_next) top' next st.sender
      → Receiving s' t' st.receiver
      → let st' = (receive fl st pkt now).0 in
        Keeps (Truthful s t st.receiver.recv_next) top' next st'.sender
        × Receiving s' t' st'.receiver
  unfolding receive
  receive-Sound s s' t t' top' next st pkt now small (ack_le, fits, carried) k r =
      let st₁ = record st { packets_in = st.packets_in + 1 } in
      let st₂ =
        if has pkt.flags flag_ack
        then record st₁ { sender = process_ack fl st₁.sender pkt.ack pkt.sack_blocks now }
        else st₁ in
      let st₃ =
        if has pkt.flags flag_data && ltb 0 (length pkt.payload)
        then record st₂ { receiver = process_data st₂.receiver pkt.seq pkt.payload }
        else st₂ in
      let g₂ : Good st₂ =
        if_both Good (has pkt.flags flag_ack)
          (process_ack-Keeps P fl top' next st.sender pkt.ack pkt.sack_blocks now ack_le k, r)
          (k, r) in
      let g₃ : Good st₃ =
        if_with Good (has pkt.flags flag_data && ltb 0 (length pkt.payload))
          (λ e.
            let (i, lt, seq, payload) = carried (left_true (has pkt.flags flag_data) _ e) in
            (
              g₂.0,
              subst₂ (λ q x. Receiving s' t' (process_data st₂.receiver q x)) (sym seq)
                  (sym payload) (data-Receiving s' t' i st₂.receiver small lt g₂.1),
            ))
          (λ _. g₂) in
      if_both (λ (x : ReliableStream fl × Bool). Good x.0) (has pkt.flags flag_close)
        (g₃.0, close-Receiving s' t' st₃.receiver g₃.1) g₃
    where
      P : ReliablePacket → Type 0
      P = Truthful s t st.receiver.recv_next

      Good : ReliableStream fl → Type 0
      Good x = Keeps P top' next x.sender × Receiving s' t' x.receiver
