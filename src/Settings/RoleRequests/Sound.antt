-- ===== src/Settings/RoleRequests/Sound.antt =====
-- What every sequence of requests and decisions keeps true.
use management_app.Base.{◌≡◌, All, All-Elem}
use mathlib.Core.Path.{subst}
use management_app.Settings.RoleRequests.{Request, approved}
use management_app.Settings.RoleRequests.Steps.{
  Grant, State, Step, submits, claims, grants, fails, finishes, Steps, none_yet, then_step, empty,
}
use management_app.Settings.RoleRequests.Rows.{
  AsksAllowed, Claimed, IsGranted, AllAlone, IsSound, All-weaken,
}
use management_app.Settings.RoleRequests.Calls.{submits-IsSound, claims-IsSound}
use management_app.Settings.RoleRequests.Ends.{grants-IsSound, fails-IsSound, finishes-IsSound}

Step-IsSound : {s t : State} → Step s t → IsSound s → IsSound t
Step-IsSound (submits s effective user id input next h) sound =
    submits-IsSound s sound effective user id input next h
Step-IsSound (claims s d id reviewer now next r h) sound =
    claims-IsSound s sound d id reviewer now next r h
Step-IsSound (grants s before after reviewer r e) sound =
    grants-IsSound s sound before after reviewer r e
Step-IsSound (fails s before after t e) sound = fails-IsSound s sound before after t e
Step-IsSound (finishes s before after reviewer id status now next e h) sound =
    finishes-IsSound s sound before after reviewer id status now next e h

Steps-IsSound : {s t : State} → Steps s t → IsSound s → IsSound t
Steps-IsSound none_yet sound = sound
Steps-IsSound (then_step r st) sound = Step-IsSound st (Steps-IsSound r sound)

-- From empty tables on, however the calls overlap: Keycloak is asked to grant only roles that a user
-- has asked for, of the three that may be asked for, and only after somebody has claimed his request;
-- an approved request has been granted, and no user has two open requests.
pub reachable-IsSound :
    {t : State}
    → Steps empty t
    → All (λ (g : Grant). AsksAllowed g.roles × Claimed t.requests g) t.granted
      × All (λ (r : Request). r.status ≡ approved → IsGranted t.granted r.id) t.requests
      × AllAlone t.requests
reachable-IsSound {t} steps =
    let sound =
      Steps-IsSound steps
        (record { asked = tt; single = tt; entitled = tt; fulfilled = tt; tasks = tt }) in
    (
      All-weaken (Claimed t.requests) (λ (g : Grant). AsksAllowed g.roles × Claimed t.requests g)
          t.granted
          (λ g c.
            let (r, m, e, _) = c in
            (
              subst (λ (g : Grant). AsksAllowed g.roles) e
                  (All-Elem (λ (r : Request). AsksAllowed r.roles) t.requests sound.asked m),
              c,
            ))
          sound.entitled,
      sound.fulfilled,
      sound.single,
    )
