-- ===== src/Multiplexer/Bytes.antt =====
-- A connection as a queue of bytes: `deliver` puts them in, `Read` takes them out.
use shadow_gre.Prelude.{
  ℕ, ◌≤◌, ◌≡◌, refl, sym, ap, ◌∙◌, inl, inr, Bool, not, ◌&&◌, Option, some, List, [], ◌∷◌, ◌++◌,
  append_assoc, append-nil, arith, length, take, drop, concat, concat-append, take-append-drop,
  length-take, ltb, leb, ◌==◌, if◌then◌else◌, Bool-cases, Outcome, ok,
}
use shadow_gre.Multiplexer.Connection.{
  Connection, shut, buffer_read, drain_loop, await_data, read, deliver, read_channel_size,
}

-- The bytes that have been delivered and not been read.
abbrev pub unread : Connection → List ℕ
unread c = c.read_buf ++ concat c.read_ch

-- The bytes that a `Read` returns.
abbrev pub got : Option (Outcome (List ℕ)) → List ℕ
got (some (ok bs)) = bs
got _ = []

drain_loop_keeps :
    (size : ℕ) (buf : List ℕ) (xs : List (List ℕ))
    → let (buf', rest) = drain_loop size buf xs in buf ++ concat xs ≡ buf' ++ concat rest
unfolding drain_loop
drain_loop_keeps size buf [] = refl
drain_loop_keeps size buf (x ∷ xs) = elim (Bool-cases (leb size (length (buf ++ x)))) [
  | inl e ↦ rw e (simp append_assoc)
  | inr e ↦ rw e (rw (← append_assoc buf x (concat xs)) (drain_loop_keeps size (buf ++ x) xs))
]

-- `Read` takes a piece off the front of the queue, no longer than its slice.
abbrev TakesFront : Connection → ℕ → Connection × Option (Outcome (List ℕ)) → Type 0
TakesFront c size r = (unread c ≡ got r.1 ++ unread r.0) × (length (got r.1) ≤ size)

buffer_read-TakesFront :
    (c : Connection) (size : ℕ)
    → TakesFront c size ((buffer_read c size).0, some (buffer_read c size).1)
unfolding buffer_read
buffer_read-TakesFront c size = elim (Bool-cases (length c.read_buf == 0)) [
  | inl e ↦ elim (Bool-cases (size == 0)) [
    | inl z ↦ rw (e, z) (refl, omega arith)
    | inr z ↦ rw (e, z) (refl, omega arith)
  ]
  | inr e ↦ rw e (
    rw (
      ← append_assoc (take size c.read_buf) (drop size c.read_buf) (concat c.read_ch),
      take-append-drop size c.read_buf,
    ),
    omega (arith, length-take size c.read_buf),
  )
]

await_data-TakesFront :
    (c : Connection) (ch : List (List ℕ)) (size : ℕ) (close_first : Bool)
    → c.read_ch ≡ ch
    → TakesFront c size (await_data c ch size close_first)
unfolding await_data
await_data-TakesFront c [] size close_first same = elim (Bool-cases c.close_ch) [
  | inl e ↦ rw e (refl, omega arith)
  | inr e ↦ rw e (refl, omega arith)
]
await_data-TakesFront c (x ∷ xs) size close_first same =
    elim (Bool-cases (c.close_ch && close_first)) [
      | inl e ↦ simp e (refl, omega arith)
      | inr e ↦ simp e (whole ∙ taken.0, taken.1)
    ]
  where
    drained : Connection
    drained = record c {
      read_buf = (drain_loop size (c.read_buf ++ x) xs).0;
      read_ch = (drain_loop size (c.read_buf ++ x) xs).1;
    }

    taken :
        TakesFront drained size ((buffer_read drained size).0, some (buffer_read drained size).1)
    taken = buffer_read-TakesFront drained size

    whole : unread c ≡ unread drained
    whole =
        rw (same, ← append_assoc c.read_buf x (concat xs))
          (drain_loop_keeps size (c.read_buf ++ x) xs)

read-TakesFront :
    (c : Connection) (size : ℕ) (close_first : Bool) → TakesFront c size (read c size close_first)
unfolding read
read-TakesFront c size close_first = elim (Bool-cases (ltb 0 (length c.read_buf))) [
  | inl e ↦ simp e (buffer_read-TakesFront c size)
  | inr e ↦ elim (Bool-cases c.closed) [
    | inl gone ↦ simp (e, gone) (refl, omega arith)
    | inr open_yet ↦ simp (e, open_yet) (await_data-TakesFront c c.read_ch size close_first refl)
  ]
]

-- What happens to a connection: a slice arrives, it is read, or it is closed.
pub data Event : Type 0 where
  arrives : List ℕ → Event
  reads : ℕ → Bool → Event
  shuts : Event

-- The part of a slice that `deliver` does not drop: all of it, or nothing.
abbrev pub kept : Connection → List ℕ → List ℕ
kept c payload = if not c.closed && ltb (length c.read_ch) read_channel_size then payload else []

pub unread-deliver :
    (c : Connection) (payload : List ℕ) → unread (deliver c payload) ≡ unread c ++ kept c payload
unfolding deliver
unread-deliver c payload = elim (Bool-cases c.closed) [
  | inl e ↦ simp (e, append-nil)
  | inr e ↦ elim (Bool-cases (ltb (length c.read_ch) read_channel_size)) [
    | inl room ↦ simp (e, room, concat-append c.read_ch (payload ∷ []), append_assoc, append-nil)
    | inr full ↦ elim (Bool-cases c.close_ch) [
      | inl g ↦ simp (e, full, g, append-nil)
      | inr g ↦ simp (e, full, g, append-nil)
    ]
  ]
]

unread-shut : (c : Connection) → unread (shut c) ≡ unread c
unfolding shut
unread-shut c = refl

-- The connection after the events, the bytes that its readers got, and those that it took in.
unfoldable pub session : Connection → List Event → Connection × List ℕ × List ℕ
session c [] = (c, [], [])
session c (arrives payload ∷ es) =
    let (c', out, taken) = session (deliver c payload) es in (c', out, kept c payload ++ taken)
session c (reads size close_first ∷ es) =
    let (c₁, answer) = read c size close_first in
    let (c', out, taken) = session c₁ es in (c', got answer ++ out, taken)
session c (shuts ∷ es) = session (shut c) es

-- A connection refines a queue of bytes. Over any sequence of arriving slices, reads of any sizes and
-- closes, what its readers got, followed by what is still unread, is what was unread at first,
-- followed by the slices that arrived while it was open and its channel had room: no byte is lost,
-- repeated or moved between these two ends.
pub session_refines :
    (c : Connection) (es : List Event)
    → let (c', out, taken) = session c es in out ++ unread c' ≡ unread c ++ taken
unfolding session
session_refines c [] = rw append-nil
session_refines c (arrives payload ∷ es) =
    session_refines (deliver c payload) es
    ∙ rw (unread-deliver c payload, append_assoc (unread c) (kept c payload))
session_refines c (reads size close_first ∷ es) =
    let (c₁, answer) = read c size close_first in
    let (c', out, taken) = session c₁ es in
    append_assoc (got answer) out (unread c')
    ∙ ap (λ t. got answer ++ t) (session_refines c₁ es)
    ∙ sym (append_assoc (got answer) (unread c₁) taken)
    ∙ ap (λ t. t ++ taken) (sym (read-TakesFront c size close_first).0)
session_refines c (shuts ∷ es) =
    session_refines (shut c) es ∙ ap (λ t. t ++ (session (shut c) es).2) (unread-shut c)
