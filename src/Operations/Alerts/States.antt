-- ===== src/Operations/Alerts/States.antt =====
-- The alert table as a state machine: every write is a step, and what holds of each table that
-- steps lead to.
use management_app.Base.{
  ℕ, ◌≡◌, inl, inr, String, Bool, true, false, not, Option, none, some, List, [], ◌∷◌, any, find,
  All, All-append, Result, ok, bind-eq-ok, guard_bind, Bool-cases, if◌then◌else◌, leb,
}
use mathlib.Core.Path.{subst}
use management_app.Base.HttpError.{HttpError}
use management_app.Access.{User}
use management_app.Operations.Alerts.{
  Input, Alert, Status, snoozed, resolved, is_resolved, update_where, recurred, has_key, upsert,
  refreshed, reconcile_one, reconcile_all, auto_resolved, reconcile_source, reopen_expired_snoozes,
  AlertAccess, mutable, has_id, acknowledge, snooze, resolve,
}

-- A snoozed alert has an end of the snooze, and a resolved one a time of resolution.
abbrev pub StatusFits : Status → Option ℕ → Option ℕ → Type 0
StatusFits snoozed none at = ⊥
StatusFits resolved until none = ⊥
StatusFits _ until at = Unit

abbrev pub IsConsistent : Alert → Type 0
IsConsistent a = StatusFits a.status a.snoozed_until a.resolved_at

-- One write to the table.
pub data Step (access : AlertAccess) : List Alert → List Alert → Type 0 where
  upserts :
      (id : String) (now : ℕ) (input : Input) (t : List Alert)
      → Step access t (upsert id now input t)
  reconciles :
      (source : String) (now : ℕ) (cs : List (String × Input)) (scope : Option String)
      (missing : Bool) (t : List Alert)
      → Step access t (reconcile_source source now cs scope missing t)
  reopens : (now : ℕ) (t : List Alert) → Step access t (reopen_expired_snoozes now t)
  acknowledges :
      (u : User) (id : String) (now : ℕ) (t next : List Alert)
      → acknowledge access u id now t ≡ ok next
      → Step access t next
  snoozes :
      (u : User) (id : String) (until : ℕ) (reason : Option String) (now : ℕ) (t next : List Alert)
      → snooze access u id until reason now t ≡ ok next
      → Step access t next
  resolves :
      (u : User) (id : String) (reason : Option String) (now : ℕ) (t next : List Alert)
      → resolve access u id reason now t ≡ ok next
      → Step access t next

-- The tables that writes lead to from an empty one.
pub data Reachable (access : AlertAccess) : List Alert → Type 0 where
  start : Reachable access []
  later : {t next : List Alert} → Reachable access t → Step access t next → Reachable access next

pub ok-eq :
    {t next : List Alert} → ◌≡◌ {A = Result HttpError (List Alert)} (ok t) (ok next) → t ≡ next
ok-eq e = cc

module _ (P : Alert → Type 0) where
  All-update_where :
      (test : Alert → Bool) (change : Alert → Alert)
      → ((a : Alert) → P a → P (change a))
      → (t : List Alert) → All P t
      → All P (update_where test change t)
  unfolding update_where
  All-update_where test change keeps [] h = tt
  All-update_where test change keeps (a ∷ t) (h, hs) = elim (Bool-cases (test a)) [
    | inl hit ↦ rw hit (keeps a h, All-update_where test change keeps t hs)
    | inr miss ↦ rw miss (h, All-update_where test change keeps t hs)
  ]

recurred-IsConsistent :
    (now : ℕ) (input : Input) (a : Alert) → IsConsistent a → IsConsistent (recurred now input a)
recurred-IsConsistent now input a h = elim (Bool-cases (is_resolved a.status)) [
  | inl was ↦ rw was tt
  | inr active ↦ rw active h
]

upsert-IsConsistent :
    (id : String) (now : ℕ) (input : Input) (t : List Alert)
    → All IsConsistent t
    → All IsConsistent (upsert id now input t)
unfolding upsert
upsert-IsConsistent id now input t h = elim (Bool-cases (any (has_key input.dedup_key) t)) [
  | inl known ↦ rw known (All-update_where IsConsistent _ _ (recurred-IsConsistent now input) t h)
  | inr new ↦ rw new (All-append IsConsistent t _ h (tt, tt))
]

reconcile_one-IsConsistent :
    (now : ℕ) (id : String) (c : Input) (t : List Alert)
    → All IsConsistent t
    → All IsConsistent (reconcile_one now id c t)
unfolding reconcile_one
reconcile_one-IsConsistent now id c t h =
    elim (find (has_key c.dedup_key) t)
      as (λ o. All IsConsistent (elim o [
        | none ↦ upsert id now c t
        | some existing ↦
            if is_resolved existing.status
            then upsert id now c t
            else update_where (has_id existing.id) (refreshed now c) t
      ])) [
        | none ↦ upsert-IsConsistent id now c t h
        | some existing ↦ elim (Bool-cases (is_resolved existing.status)) [
          | inl was ↦ rw was (upsert-IsConsistent id now c t h)
          | inr active ↦ rw active (All-update_where IsConsistent _ _ (λ a k. k) t h)
        ]
      ]

reconcile_all-IsConsistent :
    (now : ℕ) (cs : List (String × Input)) (t : List Alert)
    → All IsConsistent t
    → All IsConsistent (reconcile_all now cs t)
unfolding reconcile_all
reconcile_all-IsConsistent now [] t h = h
reconcile_all-IsConsistent now ((id, c) ∷ cs) t h =
    reconcile_all-IsConsistent now cs (reconcile_one now id c t)
      (reconcile_one-IsConsistent now id c t h)

Step-IsConsistent :
    {access : AlertAccess} {t next : List Alert}
    → Step access t next
    → All IsConsistent t
    → All IsConsistent next
unfolding reconcile_source reopen_expired_snoozes acknowledge snooze resolve
Step-IsConsistent (upserts id now input t) h = upsert-IsConsistent id now input t h
Step-IsConsistent (reconciles source now cs scope true t) h =
    All-update_where IsConsistent _ (auto_resolved now) (λ a k. tt) _
      (reconcile_all-IsConsistent now cs t h)
Step-IsConsistent (reconciles source now cs scope false t) h = reconcile_all-IsConsistent now cs t h
Step-IsConsistent (reopens now t) h = All-update_where IsConsistent _ _ (λ a k. tt) t h
Step-IsConsistent (acknowledges u id now t next e) h =
    let (_, _, written) = bind-eq-ok (mutable _ u id t) _ e in
    let same : update_where (has_id id) _ t ≡ next = ok-eq written in
    subst (All IsConsistent) same (All-update_where IsConsistent (has_id id) _ (λ a k. tt) t h)
Step-IsConsistent (snoozes u id until reason now t next e) h =
    let (_, _, e1) = bind-eq-ok (mutable _ u id t) _ e in
    let (_, written) = guard_bind (not (leb until now)) _ _ e1 in
    let same : update_where (has_id id) _ t ≡ next = ok-eq written in
    subst (All IsConsistent) same (All-update_where IsConsistent (has_id id) _ (λ a k. tt) t h)
Step-IsConsistent (resolves u id reason now t next e) h =
    let (_, _, written) = bind-eq-ok (mutable _ u id t) _ e in
    let same : update_where (has_id id) _ t ≡ next = ok-eq written in
    subst (All IsConsistent) same (All-update_where IsConsistent (has_id id) _ (λ a k. tt) t h)

-- In every table that the service's writes lead to, a snoozed alert has an end of its snooze and a
-- resolved alert the time of its resolution.
pub Reachable-IsConsistent :
    (access : AlertAccess) (t : List Alert) → Reachable access t → All IsConsistent t
Reachable-IsConsistent access _ start = tt
Reachable-IsConsistent access _ (later {t = t} before step) =
    Step-IsConsistent step (Reachable-IsConsistent access t before)
