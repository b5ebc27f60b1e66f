-- ===== src/Multiplexer/Runs.antt =====
-- A manager from its creation on, over any sequence of operations.
use shadow_gre.Prelude.{
  chain_ends, from_ok, ◌>>=◌, ℕ, ◌≡◌, Bool, List, [], ◌∷◌, Option, Error, Outcome, ok, err, panic,
}
use mathlib.Core.Path.{subst}
use shadow_gre.Frame.{Frame}
use shadow_gre.Multiplexer.Connection.{Wakeup, read}
use shadow_gre.Multiplexer.Manager.{
  ConnectionManager, new_manager, object, set_object, write, close_connection,
}
use shadow_gre.Multiplexer.Dial.{dial_begin, dial_end, accept}
use shadow_gre.Multiplexer.Handle.{handle_frame, close_manager}
use shadow_gre.Multiplexer.Invariant.{IsValid}
use shadow_gre.Multiplexer.Steps.{
  accept-IsValid, close_connection-IsValid, close_manager-IsValid, dial_begin-IsValid,
  dial_end-IsValid, handle_frame-IsValid, read-Keeps, set_object-IsValid, write-IsValid,
}

-- What the program or the tunnel does to a manager: each operation, with its arguments.
pub data Operation : Type 0 where
  frame_arrives : List ℕ → Operation
  dials : Operation
  dial_ends : ℕ → Wakeup → Operation
  accepts : Operation
  writes : ℕ → List ℕ → Operation
  reads : ℕ → ℕ → Bool → Operation
  closes : ℕ → Operation
  manager_closes : Operation

-- A panic ends the program: there is no state behind it.
abbrev unless_panic : ConnectionManager → Outcome (Unit {0}) → Outcome ConnectionManager
unless_panic m panic = panic
unless_panic m (ok _) = ok m
unless_panic m (err _) = ok m

unfoldable pub perform : ConnectionManager → Operation → Outcome ConnectionManager
perform m (frame_arrives bs) = unless_panic (handle_frame m bs).0 (handle_frame m bs).1
perform m dials = ok (dial_begin m).0
perform m (dial_ends p w) = ok (dial_end m p w).0
perform m accepts = ok (accept m).0
perform m (writes p payload) = ok (write m p payload).0
perform m (reads p size b) = ok (set_object m p (read (object m p) size b).0)
perform m (closes p) = ok (close_connection m p)
perform m manager_closes = close_manager m

unfoldable pub perform_all : ConnectionManager → List Operation → Outcome ConnectionManager
perform_all m [] = ok m
perform_all m (o ∷ os) = perform m o >>= λ m'. perform_all m' os

unless_panic-IsValid :
    (m : ConnectionManager) (r : Outcome (Unit {0})) {m' : ConnectionManager}
    → unless_panic m r ≡ ok m'
    → IsValid m
    → IsValid m'
unless_panic-IsValid m panic e v = cc
unless_panic-IsValid m (ok _) e v = subst IsValid (from_ok e) v
unless_panic-IsValid m (err _) e v = subst IsValid (from_ok e) v

perform-IsValid :
    (m : ConnectionManager) (o : Operation) {m' : ConnectionManager}
    → perform m o ≡ ok m'
    → IsValid m
    → IsValid m'
unfolding perform
perform-IsValid m (frame_arrives bs) e v =
    unless_panic-IsValid (handle_frame m bs).0 (handle_frame m bs).1 e (handle_frame-IsValid m bs v)
perform-IsValid m dials e v = subst IsValid (from_ok e) (dial_begin-IsValid m v)
perform-IsValid m (dial_ends p w) e v = subst IsValid (from_ok e) (dial_end-IsValid m v p w)
perform-IsValid m accepts e v = subst IsValid (from_ok e) (accept-IsValid m v)
perform-IsValid m (writes p payload) e v = subst IsValid (from_ok e) (write-IsValid m p payload v)
perform-IsValid m (reads p size b) e v =
    subst IsValid (from_ok e)
      (set_object-IsValid m v p (read (object m p) size b).0 (read-Keeps (object m p) size b))
perform-IsValid m (closes p) e v = subst IsValid (from_ok e) (close_connection-IsValid m v p)
perform-IsValid m manager_closes e v = close_manager-IsValid m e v

perform_all-IsValid :
    (m : ConnectionManager) (os : List Operation) {m' : ConnectionManager}
    → perform_all m os ≡ ok m'
    → IsValid m
    → IsValid m'
unfolding perform_all
perform_all-IsValid m [] e v = subst IsValid (from_ok e) v
perform_all-IsValid m (o ∷ os) e v =
    let (m₁, first, later) = chain_ends (perform m o) (λ t. perform_all t os) e in
    perform_all-IsValid m₁ os later (perform-IsValid m o first v)

-- After any operations on a new manager, in any order and with any frames from the peer, every
-- identifier in the map belongs to an open connection that has that identifier, and `closeCh` is
-- closed exactly on the connections that are closed: no closed connection is found by a frame.
pub reached-IsValid :
    (send_func : List Frame → Frame → Option Error) (os : List Operation) {m : ConnectionManager}
    → perform_all (new_manager send_func) os ≡ ok m
    → IsValid m
unfolding new_manager
reached-IsValid send_func os e =
    perform_all-IsValid (new_manager send_func) os e (record { entries = tt; gates = tt })
