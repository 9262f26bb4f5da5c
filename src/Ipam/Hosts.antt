-- ===== src/Ipam/Hosts.antt =====
-- `assertHost` of ipam-access.service.ts: a host is in the sites of all its addresses.
pub mod Laws
use management_app.Base.{
  Bool, true, false, not, ◌&&◌, List, [], ◌∷◌, map, is_empty, if◌then◌else◌, Result, ok, err, ◌>>=◌,
  ◌>>◌, or_throw, String,
}
use management_app.Base.HttpError.{HttpError, not_found, forbidden, is_not_found}
use management_app.Access.{User, IpamAction, scoped, read}
use management_app.Ipam.Access.{
  Context, Queries, Host, IpAddress, is_read, assert_context, no_context, subnet_context,
}

abbrev pub contexts : Host → List Context
contexts h = map (λ (ip : IpAddress). subnet_context ip.subnet) h.ip_addresses

-- The first loop of `assertHost`: is some address readable?
unfoldable pub any_visible : Queries → User → List Context → Bool → Result HttpError Bool
any_visible db user [] visible = ok visible
any_visible db user (c ∷ cs) visible = elim (assert_context db user (scoped read) c) [
  | ok _ ↦ any_visible db user cs true
  | err e ↦ elim (is_not_found e) [ true ↦ any_visible db user cs visible | false ↦ err e ]
]

-- The second loop: every address must pass.
unfoldable pub all_pass :
    Queries → User → IpamAction → Bool → List Context → Result HttpError (Unit {0})
all_pass db user action visible [] = ok tt
all_pass db user action visible (c ∷ cs) = elim (assert_context db user action c) [
  | ok _ ↦ all_pass db user action visible cs
  | err e ↦
      if not (is_read action) && visible && is_not_found e
      then err (forbidden "IPAM_SCOPE_FORBIDDEN")
      else err e
]

unfoldable pub assert_host : Queries → User → IpamAction → String → Result HttpError Host
assert_host db user action id = do
  host ← or_throw (db.host id) (not_found "HOST_NOT_FOUND")
  (if is_empty host.ip_addresses then assert_context db user action no_context else ok tt)
  visible ← any_visible db user (contexts host) false
  all_pass db user action visible (contexts host)
  ok host
