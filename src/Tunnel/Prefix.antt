-- ===== src/Tunnel/Prefix.antt =====
-- What a stream of the server makes of the data that arrives: its bytes, up to some point.
use shadow_gre.Prelude.{
  ℕ, ◌≡◌, refl, sym, ap, ◌∙◌, ◌⊎◌, inl, inr, true, Option, Error, List, [], ◌∷◌, ◌++◌, append_assoc,
  append-nil, length, ltb, ◌==◌, concat, concat-append, concat_last, if_both, if_with, arith,
}
use mathlib.Core.Path.{subst}
use shadow_gre.Tunnel.Stream.{
  ServerStream, Phase, dialing, flushing, writing, stopped, stream_state_connected, create_stream,
  close_stream, close_open_stream, close_write, enqueue, pend, take_data, write_channel_size,
}
use shadow_gre.Tunnel.Steps.{
  Step, data_arrives, client_closes, server_closes, dial_fails, dial_succeeds, flushes, writes_next,
  sees_close_write, sees_close, backend_sends, backend_ends, cleans_up, Reach, here, next,
}
use shadow_gre.Tunnel.Account.{state_with}
use shadow_gre.Tunnel.Account.{written, waiting, Valid, InPhase, create_stream-Valid}
use shadow_gre.Tunnel.Order.{backend_order, Reach-Valid}
use shadow_gre.Tunnel.Quiet.{
  Dead, Gate, Quiet, close_stream-Quiet, flush_next-Quiet, write_next-Quiet,
  stop_on_close_write-Quiet, stop_on_close-Quiet, finish_reading-Quiet, read_backend-Quiet,
  dial_failed-Quiet, dial_succeeded-Quiet, take_close-Quiet, clean_up-Quiet,
}

-- The data that the steps of a run hand to the stream.
abbrev pub arrived : {s t : ServerStream} → Step s t → List (List ℕ)
arrived (data_arrives payload) = payload ∷ []
arrived client_closes = []
arrived server_closes = []
arrived (dial_fails p) = []
arrived (dial_succeeds p) = []
arrived (flushes p) = []
arrived (writes_next payload rest p e) = []
arrived (sees_close_write p e) = []
arrived (sees_close p e) = []
arrived (backend_sends payload result r) = []
arrived (backend_ends r) = []
arrived (cleans_up p r) = []

unfoldable pub offered : {s t : ServerStream} → Reach s t → List (List ℕ)
offered here = []
offered (next r step) = offered r ++ arrived step

-- What a stream has accepted of the data that was offered: all of it, or, when it takes no more, the
-- beginning. (Empty data is not accepted, and adds no byte.)
abbrev Follows : List (List ℕ) → ServerStream → Type 0
Follows ds s =
    (concat ds ≡ concat s.accepted)
    ⊎ (Dead s × ((rest : List ℕ) × (concat ds ≡ concat s.accepted ++ rest)))

Quiet-Follows :
    (ds : List (List ℕ)) (s t : ServerStream) → Quiet s t → Follows ds s → Follows (ds ++ []) t
Quiet-Follows ds s t q (inl e) = inl (ap concat (append-nil ds) ∙ e ∙ ap concat (sym q.same))
Quiet-Follows ds s t q (inr (d, (rest, e))) =
    inr (q.stays d, (rest, ap concat (append-nil ds) ∙ e ∙ ap (λ l. concat l ++ rest) (sym q.same)))

-- A stream that takes no more ignores data.
enqueue-Dead :
    (s : ServerStream) (payload : List ℕ)
    → s.state ≡ stream_state_connected
    → Dead s
    → enqueue s payload ≡ s
unfolding enqueue
enqueue-Dead s payload e d =
    if_with (λ t. t ≡ s) s.write_close (λ _. refl)
      (λ open_yet. elim d.shut [ inl w ↦ cc | inr (_, c) ↦ cc ])

take_data-Dead : (s : ServerStream) (payload : List ℕ) → Dead s → take_data s payload ≡ s
unfolding take_data
take_data-Dead s payload d =
    state_with (λ t. t ≡ s) s.state (λ e. elim (d.begun e) [ ])
      (λ e. if_both (λ t. t ≡ s) (length payload == 0) refl (enqueue-Dead s payload e d))
      (λ _. refl)

-- Data that arrives, in each case: it is empty, it is accepted, it is left, or it comes too late.
module _ (ds : List (List ℕ)) (s : ServerStream) (payload : List ℕ) where
  follows_empty :
      concat ds ≡ concat s.accepted → payload ≡ [] → concat (ds ++ payload ∷ []) ≡ concat s.accepted
  follows_empty e none = concat_last ds payload ∙ rw none (append-nil (concat ds) ∙ e)

  follows_accepted :
      concat ds ≡ concat s.accepted
      → concat (ds ++ payload ∷ []) ≡ concat (s.accepted ++ payload ∷ [])
  follows_accepted e =
      concat_last ds payload ∙ ap (λ l. l ++ payload) e ∙ sym (concat_last s.accepted payload)

  Follows-left :
      (t : ServerStream)
      → t.accepted ≡ s.accepted
      → concat ds ≡ concat s.accepted
      → Dead t
      → Follows (ds ++ payload ∷ []) t
  Follows-left t same e d =
      inr (d, (payload, concat_last ds payload ∙ ap (λ l. l ++ payload) (e ∙ ap concat (sym same))))

  Follows-late :
      (rest : List ℕ)
      → concat ds ≡ concat s.accepted ++ rest
      → Dead s
      → Follows (ds ++ payload ∷ []) s
  Follows-late rest e d = inr (
    d,
    (
      rest ++ payload,
      concat_last ds payload
          ∙ ap (λ l. l ++ payload) e
          ∙ append_assoc (concat s.accepted) rest payload,
    ),
  )

abbrev Kept : List (List ℕ) → ServerStream → Type 0
Kept ds s = Follows ds s × Gate s

empty_of_length : (l : List ℕ) → (length l == 0) ≡ true → l ≡ []
empty_of_length [] e = refl
empty_of_length (x ∷ l) e = absurd (ground arith)

close_stream-Dead : (s : ServerStream) → s.state ≡ stream_state_connected → Dead (close_stream s)
unfolding close_stream close_open_stream close_write
close_stream-Dead s late =
    state_with Dead s.state (λ e. cc) (λ _. record { begun = λ e. cc; shut = inl refl }) (λ e. cc)

enqueue-Kept :
    (ds : List (List ℕ)) (s : ServerStream) (payload : List ℕ)
    → s.state ≡ stream_state_connected
    → concat ds ≡ concat s.accepted
    → Gate s
    → Kept (ds ++ payload ∷ []) (enqueue s payload)
unfolding enqueue
enqueue-Kept ds s payload late e g =
    if_with (Kept (ds ++ payload ∷ [])) s.write_close
      (λ w. (Follows-left ds s payload s refl e (record { begun = λ c. cc; shut = inl w }), g))
      (λ _.
        if_both (Kept (ds ++ payload ∷ [])) (ltb (length s.write_ch) write_channel_size)
          (inl (follows_accepted ds s payload e), g)
          (
            Follows-left ds s payload (close_stream s) (close_stream-Quiet s).same e
                (close_stream-Dead s late),
            (close_stream-Quiet s).gate g,
          ))

take_data-Kept :
    (ds : List (List ℕ)) (s : ServerStream) (payload : List ℕ)
    → Kept ds s
    → Kept (ds ++ payload ∷ []) (take_data s payload)
unfolding take_data pend
take_data-Kept ds s payload (inl e, g) =
    state_with (Kept (ds ++ payload ∷ [])) s.state
      (λ _.
        if_with (Kept (ds ++ payload ∷ [])) (length payload == 0)
          (λ z. (inl (follows_empty ds s payload e (empty_of_length payload z)), g))
          (λ _. (inl (follows_accepted ds s payload e), g)))
      (λ late.
        if_with (Kept (ds ++ payload ∷ [])) (length payload == 0)
          (λ z. (inl (follows_empty ds s payload e (empty_of_length payload z)), g))
          (λ _. enqueue-Kept ds s payload late e g))
      (λ c. (
        Follows-left ds s payload s refl e
            (record { begun = λ b. cc; shut = elim (g c) [ inl w ↦ inl w | inr q ↦ inr (q, c) ] }),
        g,
      ))
take_data-Kept ds s payload (inr (d, (rest, e)), g) =
    subst (Kept (ds ++ payload ∷ [])) (sym (take_data-Dead s payload d))
      (Follows-late ds s payload rest e d, g)

Quiet-Kept : (ds : List (List ℕ)) {s t : ServerStream} → Quiet s t → Kept ds s → Kept (ds ++ []) t
Quiet-Kept ds {s} {t} q (f, g) = (Quiet-Follows ds s t q f, q.gate g)

Step-Kept :
    (ds : List (List ℕ)) {s t : ServerStream} (step : Step s t)
    → Kept ds s
    → Kept (ds ++ arrived step) t
Step-Kept ds (data_arrives payload) k = take_data-Kept ds _ payload k
Step-Kept ds client_closes k = Quiet-Kept ds (take_close-Quiet _) k
Step-Kept ds server_closes k = Quiet-Kept ds (close_stream-Quiet _) k
Step-Kept ds (dial_fails p) k = Quiet-Kept ds (dial_failed-Quiet _) k
Step-Kept ds (dial_succeeds p) k = Quiet-Kept ds (dial_succeeded-Quiet _ p) k
Step-Kept ds (flushes p) k = Quiet-Kept ds (flush_next-Quiet _ _ p) k
Step-Kept ds (writes_next payload rest p e) k = Quiet-Kept ds (write_next-Quiet _ payload rest) k
Step-Kept ds (sees_close_write p e) k = Quiet-Kept ds (stop_on_close_write-Quiet _) k
Step-Kept ds (sees_close p e) k = Quiet-Kept ds (stop_on_close-Quiet _) k
Step-Kept ds (backend_sends payload result r) k =
    Quiet-Kept ds (read_backend-Quiet _ payload result) k
Step-Kept ds (backend_ends r) k = Quiet-Kept ds (finish_reading-Quiet _) k
Step-Kept ds (cleans_up p r) k = Quiet-Kept ds (clean_up-Quiet _) k

Reach-Kept : {s t : ServerStream} (r : Reach s t) → Kept [] s → Kept (offered r) t
unfolding offered
Reach-Kept here k = k
Reach-Kept (next r step) k = Step-Kept (offered r) step (Reach-Kept r k)

create_stream-Kept :
    (backend : List (List ℕ × Option Error) → List ℕ → Option Error)
    → Kept [] (create_stream backend)
unfolding create_stream
create_stream-Kept backend = (inl refl, λ c. cc)

-- A stream that takes data has lost none.
alive_lossless : (p : Phase) (s : ServerStream) → s.phase ≡ p → Valid s → ¬ Dead s → s.lost ≡ []
alive_lossless dialing s e v alive = v.kept (λ q. cc (e, q))
alive_lossless flushing s e v alive = v.kept (λ q. cc (e, q))
alive_lossless writing s e v alive = v.kept (λ q. cc (e, q))
alive_lossless stopped s e v alive =
    let (begun, shut, _) = subst (λ p. InPhase p s) e v.here_now in
    elim (alive (record {
      begun = begun;
      shut = elim shut [ inl gone ↦ inr (e, gone) | inr gate ↦ inl gate ];
    })) [ ]

-- The bytes of the calls of `Write` are the beginning of those offered, and while the stream takes
-- data, the rest waits.
pub offered_prefix :
    (backend : List (List ℕ × Option Error) → List ℕ → Option Error) {s : ServerStream}
    (r : Reach (create_stream backend) s)
    → (rest : List ℕ) × (concat (offered r) ≡ concat (written s) ++ rest)
      × (¬ Dead s → rest ≡ concat (waiting s))
offered_prefix backend {s} r = ends (Reach-Kept r (create_stream-Kept backend)).0
  where
    accepted : concat s.accepted ≡ concat (written s) ++ concat (s.lost ++ waiting s)
    accepted =
        ap concat (backend_order backend r).0 ∙ concat-append (written s) (s.lost ++ waiting s)

    none_lost : ¬ Dead s → s.lost ≡ []
    none_lost = alive_lossless s.phase s refl (Reach-Valid (create_stream-Valid backend) r)

    ends :
        Follows (offered r) s
        → (rest : List ℕ) × (concat (offered r) ≡ concat (written s) ++ rest)
          × (¬ Dead s → rest ≡ concat (waiting s))
    ends (inl e) = (
      concat (s.lost ++ waiting s),
      e ∙ accepted,
      λ alive. ap (λ l. concat (l ++ waiting s)) (none_lost alive),
    )
    ends (inr (d, (more, e))) = (
      concat (s.lost ++ waiting s) ++ more,
      e
          ∙ ap (λ l. l ++ more) accepted
          ∙ append_assoc (concat (written s)) (concat (s.lost ++ waiting s)) more,
      λ alive. elim (alive d) [ ],
    )
