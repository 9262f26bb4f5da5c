-- ===== src/Snmp/Listeners/Sockets.antt =====
-- The receiver's sockets: `performRefresh`, `bind` and `closeReceivers` of traps.ts.
pub mod Laws
use Prim.Native.Nat.{Ordering}
use management_app.Base.{
  ℕ, ◌+◌, ◌-◌, ◌*◌, Bool, true, false, not, ◌&&◌, Option, none, some, List, [], ◌∷◌, ◌++◌, map,
  filter, any, all, is_empty, ltb, if◌then◌else◌,
}
use management_app.Text.{Text}
use management_app.Text.Sets.{same}
use management_app.Snmp.Listeners.{
  Interface, OsAddress, Selection, runtime_ipv4_interfaces, any_address,
  configured_listener_addresses,
}

-- `sockets` are the addresses on which `receivers` listen.
pub record Receiver : Type 0 where
  pub sockets : List Text
  pub bound_addresses : List Text
  pub inventory_cleaned : Bool
  pub ready : Bool

-- A row of `SnmpListenerInterface`.
pub record InterfaceRow : Type 0 where
  pub interface : Interface
  pub last_seen_at : ℕ

-- A row of `SnmpListenerConfig`.
pub record ListenerConfig : Type 0 where
  pub listen_all : Bool
  pub selected_interfaces : Selection

-- What a refresh finds: the environment, the host's interfaces, the stored configuration, the time,
-- and on which addresses a socket can be opened.
pub record World : Type 0 where
  pub container_ingress : Bool
  pub trap_address : Option Text
  pub instance_id : Text
  pub locale : Text → Text → Ordering
  pub interfaces : List (Text × List OsAddress)
  pub config : Option ListenerConfig
  pub now : ℕ
  pub opens : Text → Bool

-- `list.join('\0')`
unfoldable pub joined : List Text → Text
joined [] = []
joined (t ∷ []) = t
joined (t ∷ u ∷ ts) = t ++ 0 ∷ joined (u ∷ ts)

abbrev pub close_receivers : Receiver → Receiver
close_receivers r = record r { sockets = []; bound_addresses = [] }

-- `true` in the first place where the call returns, `false` where it throws. A socket that cannot
-- be opened closes all those before it.
unfoldable pub bind : (Text → Bool) → List Text → Receiver → Bool × Receiver
bind opens addresses r =
    let closed = close_receivers (record r { ready = false }) in
    if all opens addresses
    then (true, record closed { sockets = addresses; bound_addresses = addresses })
    else (false, closed)

abbrev pub is_row : Interface → InterfaceRow → Bool
is_row i row =
    same row.interface.instance_id i.instance_id
    && same row.interface.name i.name
    && same row.interface.address i.address

-- `upsert` of one interface.
unfoldable pub seen : ℕ → List InterfaceRow → Interface → List InterfaceRow
seen now [] i = record { interface = i; last_seen_at = now } ∷ []
seen now (row ∷ rows) i =
    if is_row i row
    then record { interface = record row.interface { internal = i.internal }; last_seen_at = now }
      ∷ rows
    else row ∷ seen now rows i

unfoldable pub all_seen : ℕ → List InterfaceRow → List Interface → List InterfaceRow
unfolding seen
all_seen now rows [] = rows
all_seen now rows (i ∷ is) = all_seen now (seen now rows i) is

-- `lastSeenAt: { lt: new Date(Date.now() - 24 * 60 * 60 * 1000) }` is deleted.
abbrev pub is_recent : ℕ → InterfaceRow → Bool
is_recent now row = not (ltb (row.last_seen_at + 86400000) now)

unfoldable pub recorded : World → List Interface → List InterfaceRow → List InterfaceRow
unfolding all_seen
recorded w found rows = filter (is_recent w.now) (all_seen w.now rows found)

-- The inventory that a container left behind is deleted once.
abbrev pub cleaned : World → Receiver → List InterfaceRow → List InterfaceRow
cleaned w r rows =
    if r.inventory_cleaned
    then rows
    else filter (λ (row : InterfaceRow). not (same row.interface.instance_id w.instance_id)) rows

abbrev pub found_interfaces : World → List Interface
found_interfaces w = runtime_ipv4_interfaces w.locale w.instance_id w.interfaces

abbrev pub configured : World → List Text
configured w = elim w.config [
  | none ↦ configured_listener_addresses w.trap_address true none (found_interfaces w)
  | some c ↦
      configured_listener_addresses w.trap_address c.listen_all c.selected_interfaces
        (found_interfaces w)
]

-- The addresses on which the receiver has to listen.
unfoldable pub addresses_of : World → List Text
addresses_of w = if w.container_ingress then any_address w.trap_address ∷ [] else configured w

unfoldable pub inventory : World → Receiver → List InterfaceRow → List InterfaceRow
inventory w r rows =
    if w.container_ingress then cleaned w r rows else recorded w (found_interfaces w) rows

-- The second half of `performRefresh`: the sockets are opened again where the addresses changed.
unfoldable pub listen : World → List Text → Receiver → Bool × Receiver
listen w addresses r =
    if is_empty addresses
    then (true, close_receivers (record r { ready = false }))
    else if same (joined addresses) (joined r.bound_addresses)
    then (true, record r { ready = true })
    else let (returns, next) = bind w.opens addresses r in
      (returns, if returns then record next { ready = true } else next)

-- `reloadCredentials` between the two is `Snmp.Credentials`.
unfoldable pub perform_refresh :
    World → Receiver → List InterfaceRow → (Bool × Receiver) × List InterfaceRow
perform_refresh w r rows =
    let marked = if w.container_ingress then record r { inventory_cleaned = true } else r in
    (listen w (addresses_of w) marked, inventory w r rows)
