-- ===== src/Multiplexer/Write.antt =====
-- The frames that `Write` sends.
use shadow_gre.Prelude.{
  get_or-set_self, length-set, ℕ, zero, suc, ◌+◌, ◌<◌, ◌≤◌, ◌≡◌, refl, sym, ap, ◌∙◌, ◌⊎◌, inl, inr,
  false, none, some, List, [], ◌∷◌, ◌++◌, append_assoc, append-nil, arith, length, take, drop,
  concat, All, Option, Error, Option-cases, Bool-cases, leb, leb→le, take-append-drop, length-take,
  length-drop, length-append,
}
use shadow_gre.Frame.{Frame, new_data_frame}
use shadow_gre.Reliable.Seq.{add32}
use shadow_gre.Multiplexer.Connection.{new_connection, Connection}
use shadow_gre.Multiplexer.Manager.{
  ConnectionManager, object, set_object, send_frame, send_data, write_loop, write, max_payload_size,
}

-- The data frames of a connection that carry these pieces, numbered from the one behind `seq` on.
abbrev pub frames : ℕ → ℕ → List (List ℕ) → List Frame
frames id seq [] = []
frames id seq (x ∷ xs) = new_data_frame id (add32 seq 1) x ∷ frames id (add32 seq 1) xs

-- How a write of `rest` ended, of which `n - written` bytes were counted: either all of it is in the
-- pieces, or the last piece is the one that could not be sent and those before it were counted.
abbrev pub Ended : List ℕ → ℕ → List (List ℕ) → ℕ × Option Error → Type 0
Ended rest written pieces r =
    ((r.1 ≡ none) × (concat pieces ≡ rest) × (r.0 ≡ written + length rest))
    ⊎ ((x : Error) × (done : List (List ℕ)) × (last tail : List ℕ) × (r.1 ≡ some x)
        × (pieces ≡ done ++ last ∷ [])
        × (rest ≡ concat done ++ tail)
        × (r.0 ≡ written + length (concat done)))

module _ (m : ConnectionManager) (p : ℕ) (chunk : List ℕ) where
  sent-send_data :
      let c = object m p in
      (send_data m p chunk).0.sent ≡ m.sent ++ new_data_frame c.id (add32 c.seq 1) chunk ∷ []
  unfolding send_data send_frame set_object
  sent-send_data = refl

  object-send_data :
      p < length m.objects
      → object (send_data m p chunk).0 p ≡ record (object m p) { seq = add32 (object m p).seq 1 }
  unfolding send_data send_frame set_object object new_data_frame
  object-send_data h =
      get_or-set_self m.objects p (record (object m p) { seq = add32 (object m p).seq 1 })
        (new_connection 0) h

  length-send_data : length (send_data m p chunk).0.objects ≡ length m.objects
  unfolding send_data send_frame set_object
  length-send_data = length-set m.objects p (record (object m p) { seq = add32 (object m p).seq 1 })

-- What a write has done.
abbrev pub Written :
    ConnectionManager → ℕ → List ℕ → ℕ → ConnectionManager × ℕ × Option Error → Type 0
Written m p rest written r =
    (pieces : List (List ℕ)) × (r.0.sent ≡ m.sent ++ frames (object m p).id (object m p).seq pieces)
    × All (λ x. length x ≤ max_payload_size) pieces
    × Ended rest written pieces (r.1, r.2)

-- One piece that was sent, and what the later rounds made of the rest.
Written-later :
    (m : ConnectionManager) (p : ℕ) (rest : List ℕ) (written : ℕ)
    (r : ConnectionManager × ℕ × Option Error)
    → p < length m.objects
    → let chunk = take max_payload_size rest in
      Written (send_data m p chunk).0 p (drop max_payload_size rest) (written + length chunk) r
      → Written m p rest written r
Written-later m p rest written r alive (pieces, sent, small, end) =
    (chunk ∷ pieces, all_sent, (bound, small), ends end)
  where
    chunk : List ℕ
    chunk = take max_payload_size rest

    c : Connection
    c = object m p

    m' : ConnectionManager
    m' = (send_data m p chunk).0

    bound : length chunk ≤ max_payload_size
    bound = omega (arith, length-take max_payload_size rest)

    all_sent : r.0.sent ≡ m.sent ++ frames c.id c.seq (chunk ∷ pieces)
    all_sent =
        sent
        ∙ ap (λ l. l ++ frames (object m' p).id (object m' p).seq pieces) (sent-send_data m p chunk)
        ∙ append_assoc m.sent (new_data_frame c.id (add32 c.seq 1) chunk ∷ []) _
        ∙ ap
            (λ (d : Connection).
              m.sent ++ new_data_frame c.id (add32 c.seq 1) chunk ∷ frames d.id d.seq pieces)
            (object-send_data m p chunk alive)

    ends :
        Ended (drop max_payload_size rest) (written + length chunk) pieces (r.1, r.2)
        → Ended rest written (chunk ∷ pieces) (r.1, r.2)
    ends (inl (e, whole, n)) = inl (
      e,
      ap (λ l. chunk ++ l) whole ∙ take-append-drop max_payload_size rest,
      omega (arith, length-take max_payload_size rest, length-drop max_payload_size rest),
    )
    ends (inr (x, done, last, tail, e, split, front, n)) = inr (
      x,
      chunk ∷ done,
      last,
      tail,
      e,
      ap (λ l. chunk ∷ l) split,
      sym (take-append-drop max_payload_size rest)
          ∙ ap (λ l. chunk ++ l) front
          ∙ sym (append_assoc chunk (concat done) tail),
      omega (arith, length-append chunk (concat done)),
    )

write_loop-Written :
    (fuel : ℕ) (m : ConnectionManager) (p : ℕ) (rest : List ℕ) (written : ℕ)
    → length rest ≤ fuel
    → p < length m.objects
    → Written m p rest written (write_loop fuel m p rest written)
unfolding write_loop
write_loop-Written zero m p [] written enough alive =
    ([], sym (append-nil m.sent), tt, inl (refl, refl, omega arith))
write_loop-Written zero m p (b ∷ bs) written enough alive = absurd (omega arith)
write_loop-Written (suc fuel) m p [] written enough alive =
    ([], sym (append-nil m.sent), tt, inl (refl, refl, omega arith))
write_loop-Written (suc fuel) m p (b ∷ bs) written enough alive =
    elim (Option-cases (send_data m p chunk).1) [
      | inl sent ↦
          rw (sent, write_loop)
            (Written-later m p rest written
              (write_loop fuel (send_data m p chunk).0 p (drop max_payload_size rest)
                (written + length chunk))
              alive
              (write_loop-Written fuel (send_data m p chunk).0 p (drop max_payload_size rest)
                (written + length chunk) (omega (arith, length-drop max_payload_size rest))
                (omega (arith, length-send_data m p chunk))))
      | inr (x, failed) ↦
          rw (failed, write_loop)
            (
              chunk ∷ [],
              sent-send_data m p chunk,
              (omega (arith, length-take max_payload_size rest), tt),
              inr (x, [], chunk, rest, refl, refl, refl, omega arith),
            )
    ]
  where
    rest : List ℕ
    rest = b ∷ bs

    chunk : List ℕ
    chunk = take max_payload_size (b ∷ bs)

-- The frames of a `Write` on an open connection carry its bytes, in pieces that fit into a packet,
-- numbered in order. If it returns no error, they carry all of them and it returns their number; else
-- the last one is the frame that could not be sent, and it returns the number of bytes before it.
-- (A payload that fits into one packet is one piece, also the empty one.)
pub write-Written :
    (m : ConnectionManager) (p : ℕ) (payload : List ℕ)
    → p < length m.objects
    → (object m p).closed ≡ false
    → Written m p payload 0 (write m p payload)
unfolding write
write-Written m p payload alive open_yet =
    elim (Bool-cases (leb (length payload) max_payload_size)) [
      | inl fits ↦ elim (Option-cases (send_data m p payload).1) [
        | inl sent ↦
            rw (write, open_yet, fits, sent)
              (
                payload ∷ [],
                sent-send_data m p payload,
                (leb→le _ _ fits, tt),
                inl (refl, append-nil payload, omega arith),
              )
        | inr (x, failed) ↦
            rw (write, open_yet, fits, failed)
              (
                payload ∷ [],
                sent-send_data m p payload,
                (leb→le _ _ fits, tt),
                inr (x, [], payload, payload, refl, refl, refl, refl),
              )
      ]
      | inr large ↦
          rw (write, open_yet, large)
            (write_loop-Written (length payload) m p payload 0 (omega arith) alive)
    ]
