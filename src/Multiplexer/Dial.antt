-- ===== src/Multiplexer/Dial.antt =====
-- `Dial` and `Accept` of pkg/tunnel/manager.go.
use shadow_gre.Prelude.{
  List, ℕ, Option, none, some, [], ◌∷◌, length, if◌then◌else◌, Outcome, ok, err, panic, eof,
}
use shadow_gre.Frame.{new_syn_frame}
use shadow_gre.Reliable.Seq.{add32}
use shadow_gre.Multiplexer.Connection.{new_connection, Wakeup, wait_established}
use shadow_gre.Multiplexer.Manager.{
  ConnectionManager, object, store_new, remove_connection, send_frame,
}

-- `Dial` up to its wait: the manager, and the pointer to the new connection.
unfoldable pub dial_begin : ConnectionManager → ConnectionManager × Outcome ℕ
dial_begin m =
    let id = add32 m.conn_id_seq 1 in
    let p = length m.objects in
    let (m', e) =
      send_frame (store_new (record m { conn_id_seq = id }) id (new_connection id))
        (new_syn_frame id) in
    elim e [ some e ↦ (remove_connection m' id, err e) | none ↦ (m', ok p) ]

-- What `Dial` makes of the answer of `waitEstablished`.
unfoldable pub dial_answer :
    ConnectionManager → ℕ → Option (Outcome (Unit {0})) → ConnectionManager × Option (Outcome ℕ)
dial_answer m p none = (m, none)
dial_answer m p (some (ok _)) = (m, some (ok p))
dial_answer m p (some (err e)) = (remove_connection m (object m p).id, some (err e))
dial_answer m p (some panic) = (m, some panic)

-- `Dial` from its wait on; `none` if it is not woken that way.
unfoldable pub dial_end : ConnectionManager → ℕ → Wakeup → ConnectionManager × Option (Outcome ℕ)
dial_end m p wakeup = dial_answer m p (wait_established (object m p) wakeup)

-- `meanwhile` is what other goroutines do to the manager while `Dial` waits.
unfoldable pub dial :
    ConnectionManager
    → (ConnectionManager → ConnectionManager)
    → Wakeup
    → ConnectionManager × Option (Outcome ℕ)
dial m meanwhile wakeup =
    let (m', begun) = dial_begin m in
    elim begun [
      | ok p ↦ dial_end (meanwhile m') p wakeup
      | err e ↦ (m', some (err e))
      | panic ↦ (m', some panic)
    ]

-- What `Accept` makes of the channel.
unfoldable pub accept_from : ConnectionManager → List ℕ → ConnectionManager × Option (Outcome ℕ)
accept_from m [] = (m, if m.accept_closed then some (err eof) else none)
accept_from m (p ∷ ps) = (record m { accept_ch = ps }, some (ok p))

-- `Accept`; `none` while it waits.
unfoldable pub accept : ConnectionManager → ConnectionManager × Option (Outcome ℕ)
accept m = accept_from m m.accept_ch
