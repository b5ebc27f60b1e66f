-- ===== src/Multiplexer/Delivery.antt =====
-- A write at one end of a connection, and what arrives at the other if the tunnel keeps the order and
-- loses nothing.
use shadow_gre.Prelude.{
  ℕ, suc, ◌+◌, ◌<◌, ◌≤◌, ◌^◌, ◌≡◌, refl, sym, ap, ◌∙◌, inl, inr, true, false, none, some, List, [],
  ◌∷◌, ◌++◌, append_assoc, append-nil, arith, length, concat, All, append_cancel_left, ok, err,
  panic, lookup, length-append, lt→ltb, ltb, ◌>>=◌,
}
use shadow_gre.Wire.{IsU32}
use shadow_gre.Frame.{Frame, new_data_frame, marshal, unmarshal_frame}
use shadow_gre.Frame.RoundTrip.{encode, marshal-encode, unmarshal_frame-marshal}
use shadow_gre.Reliable.Seq.{add32}
use shadow_gre.Multiplexer.Connection.{Connection, deliver, read_channel_size}
use shadow_gre.Multiplexer.Manager.{ConnectionManager, object, write, max_payload_size}
use shadow_gre.Multiplexer.Handle.{count_frame, dispatch, handle_data, handle_frame}
use shadow_gre.Multiplexer.Objects.{length-set_object}
use shadow_gre.Multiplexer.Dispatch.{dispatch-data, handle_data_stores, object-handle_data}
use shadow_gre.Multiplexer.Bytes.{unread, kept, unread-deliver}
use shadow_gre.Multiplexer.Write.{frames, Ended, write-Written}

-- The peer gets the bytes of a frame.
unfoldable pub hand_over : ConnectionManager → Frame → ConnectionManager
hand_over m frame = elim (marshal frame) [ ok bs ↦ (handle_frame m bs).0 | err _ ↦ m | panic ↦ m ]

unfoldable pub hand_over_all : ConnectionManager → List Frame → ConnectionManager
hand_over_all m [] = m
hand_over_all m (f ∷ fs) = hand_over_all (hand_over m f) fs

pub unmarshal_frame-encode :
    (f : Frame)
    → IsU32 f.conn_id
    → IsU32 f.sequence
    → length f.payload < 2 ^ 16
    → unmarshal_frame (encode f) ≡ ok f
unmarshal_frame-encode f hc hs small =
    let (back, whole) = unmarshal_frame-marshal f [] hc hs in
    ap unmarshal_frame (sym (append-nil (encode f)))
    ∙ ap (λ r. r >>= λ bs. unmarshal_frame (bs ++ [])) (sym (marshal-encode f))
    ∙ back
    ∙ ap ok (whole small)

pub hand_over-dispatch :
    (m : ConnectionManager) (f : Frame)
    → IsU32 f.conn_id
    → IsU32 f.sequence
    → length f.payload < 2 ^ 16
    → hand_over m f ≡ (dispatch (count_frame m f) f).0
unfolding hand_over handle_frame
hand_over-dispatch m f hc hs small =
    rw (hand_over, marshal-encode f) (rw (handle_frame, unmarshal_frame-encode f hc hs small) refl)

-- The connection `q` takes in `room` more slices.
record Ready (m : ConnectionManager) (id q room : ℕ) : Type 0 where
  found : lookup id m.connections ≡ some q
  alive : q < length m.objects
  open_yet : (object m q).closed ≡ false
  roomy : length (object m q).read_ch + room ≤ read_channel_size

deliver_open :
    (c : Connection) (x : List ℕ) (room : ℕ)
    → c.closed ≡ false
    → length c.read_ch + suc room ≤ read_channel_size
    → (deliver c x ≡ record c { read_ch = c.read_ch ++ x ∷ [] }) × (kept c x ≡ x)
unfolding deliver
deliver_open c x room open_yet roomy =
    let e : ltb (length c.read_ch) read_channel_size ≡ true = lt→ltb _ _ (omega arith) in
    (simp (open_yet, e), simp (open_yet, e))

module _ (m : ConnectionManager) (id seq q room : ℕ) (x : List ℕ) (hid : IsU32 id)
    (hseq : IsU32 seq) (small : length x ≤ max_payload_size) (r : Ready m id q (suc room)) where
  frame : Frame
  frame = new_data_frame id seq x

  counted : ConnectionManager
  counted = count_frame m frame

  handled : hand_over m frame ≡ handle_data counted id x
  unfolding frame new_data_frame counted
  handled =
      hand_over-dispatch m frame hid hseq (omega arith)
      ∙ ap (λ t. t.0) (dispatch-data counted frame refl)

  received : object (handle_data counted id x) q ≡ deliver (object m q) x
  unfolding counted count_frame object
  received = object-handle_data counted id q r.found x r.alive

  stored :
      (length (hand_over m frame).objects ≡ length m.objects)
      × (lookup id (hand_over m frame).connections ≡ lookup id m.connections)
  unfolding counted count_frame
  stored =
      let (objects, connections) = handle_data_stores counted id q r.found x in
      (
        ap (λ t. length t.objects) handled
            ∙ ap length objects
            ∙ length-set_object counted q (deliver (object counted q) x),
        ap (λ t. lookup id t.connections) handled ∙ ap (λ t. lookup id t) connections,
      )

  hand_over-Ready :
      Ready (hand_over m frame) id q room
      × (unread (object (hand_over m frame) q) ≡ unread (object m q) ++ x)
  hand_over-Ready =
      let (delivered, all) = deliver_open (object m q) x room r.open_yet r.roomy in
      let now : object (hand_over m frame) q
          ≡ record (object m q) { read_ch = (object m q).read_ch ++ x ∷ [] } =
        ap (λ t. object t q) handled ∙ received ∙ delivered in
      (
        record {
          found = stored.1 ∙ r.found;
          alive = omega (arith, stored.0, r.alive);
          open_yet = rw now r.open_yet;
          roomy = rw now (omega (arith, r.roomy, length-append (object m q).read_ch (x ∷ [])));
        },
        ap (λ t. unread (object t q)) handled
            ∙ ap unread received
            ∙ unread-deliver (object m q) x
            ∙ ap (λ t. unread (object m q) ++ t) all,
      )

length-frames :
    (id seq : ℕ) (pieces : List (List ℕ)) → length (frames id seq pieces) ≡ length pieces
length-frames id seq [] = refl
length-frames id seq (x ∷ xs) = ap suc (length-frames id (add32 seq 1) xs)

hand_over_all-frames :
    (m : ConnectionManager) (id seq q : ℕ) (pieces : List (List ℕ))
    → IsU32 id
    → All (λ x. length x ≤ max_payload_size) pieces
    → Ready m id q (length pieces)
    → unread (object (hand_over_all m (frames id seq pieces)) q)
      ≡ unread (object m q) ++ concat pieces
unfolding hand_over_all new_data_frame frame
hand_over_all-frames m id seq q [] hid small r = sym (append-nil (unread (object m q)))
hand_over_all-frames m id seq q (x ∷ xs) hid (fits, small) r =
    let (ready, one) =
      hand_over-Ready m id (add32 seq 1) q (length xs) x hid (omega arith) fits r in
    hand_over_all-frames (hand_over m (new_data_frame id (add32 seq 1) x)) id (add32 seq 1) q xs hid
      small ready
    ∙ ap (λ t. t ++ concat xs) one
    ∙ append_assoc (unread (object m q)) x (concat xs)

-- A write arrives. If `Write` returns no error, and the peer gets the frames that it sent, in order,
-- for a connection that is open and has room for them in its channel, then what the peer has to read
-- has grown by exactly the bytes written: through `Marshal`, `UnmarshalFrame` and `HandleFrame`.
pub write_arrives :
    (m peer : ConnectionManager) (p q : ℕ) (payload : List ℕ) (fs : List Frame)
    → p < length m.objects
    → (object m p).closed ≡ false
    → IsU32 (object m p).id
    → (write m p payload).2 ≡ none
    → (write m p payload).0.sent ≡ m.sent ++ fs
    → lookup (object m p).id peer.connections ≡ some q
    → q < length peer.objects
    → (object peer q).closed ≡ false
    → length (object peer q).read_ch + length fs ≤ read_channel_size
    → unread (object (hand_over_all peer fs) q) ≡ unread (object peer q) ++ payload
write_arrives m peer p q payload fs alive open_yet hid fine new found there peer_open room =
    let (pieces, sent, small, end) = write-Written m p payload alive open_yet in
    arrives pieces small (append_cancel_left m.sent (sym new ∙ sent)) (whole pieces end)
  where
    c : Connection
    c = object m p

    whole :
        (pieces : List (List ℕ))
        → Ended payload 0 pieces ((write m p payload).1, (write m p payload).2)
        → concat pieces ≡ payload
    whole pieces (inl (e, all, n)) = all
    whole pieces (inr (x, done, last, tail, e, split, front, n)) = cc (e, fine)

    arrives :
        (pieces : List (List ℕ))
        → All (λ x. length x ≤ max_payload_size) pieces
        → fs ≡ frames c.id c.seq pieces
        → concat pieces ≡ payload
        → unread (object (hand_over_all peer fs) q) ≡ unread (object peer q) ++ payload
    arrives pieces small same all =
        ap (λ t. unread (object (hand_over_all peer t) q)) same
        ∙ hand_over_all-frames peer c.id c.seq q pieces hid small (record {
          found = found;
          alive = there;
          open_yet = peer_open;
          roomy = omega (arith, ap length same, length-frames c.id c.seq pieces);
        })
        ∙ ap (λ t. unread (object peer q) ++ t) all
