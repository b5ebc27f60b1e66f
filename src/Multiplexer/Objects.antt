-- ===== src/Multiplexer/Objects.antt =====
-- Reading and writing the connections that pointers of the manager point to.
use shadow_gre.Prelude.{
  ℕ, ◌<◌, ◌≡◌, get_or-set_self, get_or-set_other, get_or-append, get_or-append_last, length-set,
  length, ◌∷◌, [], lookup, lookup-insert, ==_self, some, lookup-erase, none,
}
use shadow_gre.Multiplexer.Connection.{Connection, new_connection}
use shadow_gre.Multiplexer.Manager.{
  ConnectionManager, object, set_object, store_new, remove_connection,
}

pub object-set_object_self :
    (m : ConnectionManager) (p : ℕ) (c : Connection)
    → p < length m.objects
    → object (set_object m p c) p ≡ c
unfolding object set_object
object-set_object_self m p c h = get_or-set_self m.objects p c (new_connection 0) h

pub object-set_object_other :
    (m : ConnectionManager) (p q : ℕ) (c : Connection)
    → ¬ (p ≡ q)
    → object (set_object m p c) q ≡ object m q
unfolding object set_object
object-set_object_other m p q c h = get_or-set_other m.objects p q c (new_connection 0) h

pub object-store_new_old :
    (m : ConnectionManager) (id p : ℕ) (c : Connection)
    → p < length m.objects
    → object (store_new m id c) p ≡ object m p
unfolding object store_new
object-store_new_old m id p c h = get_or-append m.objects (c ∷ []) p (new_connection 0) h

pub object-store_new_last :
    (m : ConnectionManager) (id : ℕ) (c : Connection)
    → object (store_new m id c) (length m.objects) ≡ c
unfolding object store_new
object-store_new_last m id c = get_or-append_last m.objects c (new_connection 0)

pub lookup-store_new :
    (m : ConnectionManager) (id : ℕ) (c : Connection)
    → lookup id (store_new m id c).connections ≡ some (length m.objects)
unfolding store_new
lookup-store_new m id c = rw (lookup-insert id id (length m.objects) m.connections, ==_self id)

pub lookup-remove_connection :
    (m : ConnectionManager) (id : ℕ) → lookup id (remove_connection m id).connections ≡ none
unfolding remove_connection
lookup-remove_connection m id = rw (lookup-erase id id m.connections, ==_self id)

pub length-set_object :
    (m : ConnectionManager) (p : ℕ) (c : Connection)
    → length (set_object m p c).objects ≡ length m.objects
unfolding set_object
length-set_object m p c = length-set m.objects p c
