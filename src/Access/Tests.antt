-- ===== src/Access/Tests.antt =====
-- An operator of the network, an auditor and a stranger.
use management_app.Base.{◌≡◌, refl, ◌≢◌, true, false, some, [], ◌∷◌, arith}
use management_app.Access.{
  User, network_operator, auditor, update, discover, can_use_ipam, has_role, has_some_role,
  is_admin, has_application_role,
}
use management_app.Access.Laws.{on_ipam, on_device, allowed, reading}

abbrev operator : User
operator = record { id = "u1"; roles = auditor ∷ network_operator ∷ [] }

abbrev stranger : User
stranger = record { id = "u2"; roles = [] }

may_discover : allowed operator (on_ipam discover) ≡ true
unfolding can_use_ipam has_role is_admin
may_discover = refl

has_no_role : has_application_role stranger ≡ false
unfolding has_application_role has_some_role
has_no_role = refl

updates : on_device update (some "SWITCH") ≢ reading (on_device update (some "SWITCH"))
updates = ground arith
