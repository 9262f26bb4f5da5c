-- ===== src/Operations/Alerts/Keys.antt =====
-- The dedup keys of the table.
use management_app.Base.{
  ℕ, ◌≡◌, refl, sym, ap, inl, inr, arith, String, Bool, true, false, not, none, some, List, [], ◌∷◌,
  ◌++◌, map, eq_iff, any, find, Elem, Elem-append, bind-eq-ok, guard_bind, Bool-cases,
  if◌then◌else◌, leb,
}
use mathlib.Core.Path.{subst}
use management_app.Operations.Alerts.{
  Input, Alert, is_resolved, update_where, created, recurred, has_key, has_id, upsert, refreshed,
  reconcile_one, reconcile_all, auto_resolved, reconcile_source, reopen_expired_snoozes,
  AlertAccess, mutable, acknowledge, snooze, resolve,
}
use management_app.Operations.Alerts.States.{
  Step, upserts, reconciles, reopens, acknowledges, snoozes, resolves, Reachable, start, later,
  ok-eq,
}

abbrev pub keys : List Alert → List String
keys = map (λ (a : Alert). a.dedup_key)

abbrev pub IsUnrepeated : List String → Type 0
IsUnrepeated [] = Unit
IsUnrepeated (k ∷ ks) = (¬ Elem k ks) × IsUnrepeated ks

keys-update_where :
    (test : Alert → Bool) (change : Alert → Alert)
    → ((a : Alert) → (change a).dedup_key ≡ a.dedup_key)
    → (t : List Alert) → keys (update_where test change t) ≡ keys t
unfolding update_where
keys-update_where test change keeps [] = refl
keys-update_where test change keeps (a ∷ t) = elim (Bool-cases (test a)) [
  | inl hit ↦ rw (hit, keeps a, keys-update_where test change keeps t) refl
  | inr miss ↦ rw (miss, keys-update_where test change keeps t) refl
]

snoc-IsUnrepeated :
    (k : String) (ks : List String) → IsUnrepeated ks → ¬ Elem k ks → IsUnrepeated (ks ++ k ∷ [])
snoc-IsUnrepeated k [] h out = ((λ m. absurd m), tt)
snoc-IsUnrepeated k (x ∷ ks) (hx, hs) out = (
  (λ m. elim (Elem-append x ks (k ∷ []) m) [
    | inl old ↦ hx old
    | inr (inl e) ↦ out (inl (sym e))
    | inr (inr nothing) ↦ absurd nothing
  ]),
  snoc-IsUnrepeated k ks hs (λ m. out (inr m)),
)

keys-snoc : (t : List Alert) (a : Alert) → keys (t ++ a ∷ []) ≡ keys t ++ a.dedup_key ∷ []
keys-snoc [] a = refl
keys-snoc (x ∷ t) a = ap (λ ks. x.dedup_key ∷ ks) (keys-snoc t a)

absent : (k : String) (t : List Alert) → any (has_key k) t ≡ false → ¬ Elem k (keys t)
absent k [] h m = absurd m
absent k (a ∷ t) h (inl e) = absurd (ground (arith, eq_iff a.dedup_key k))
absent k (a ∷ t) h (inr m) = absent k t (ground arith) m

recurred_key :
    (now : ℕ) (input : Input) (a : Alert) → (recurred now input a).dedup_key ≡ a.dedup_key
recurred_key now input a = elim (Bool-cases (is_resolved a.status)) [
  | inl was ↦ rw was refl
  | inr active ↦ rw active refl
]

upsert-IsUnrepeated :
    (id : String) (now : ℕ) (input : Input) (t : List Alert)
    → IsUnrepeated (keys t)
    → IsUnrepeated (keys (upsert id now input t))
unfolding upsert
upsert-IsUnrepeated id now input t h = elim (Bool-cases (any (has_key input.dedup_key) t)) [
  | inl known ↦ rw known (
      rw
        (keys-update_where (has_key input.dedup_key) (recurred now input) (recurred_key now input)
          t)
        h)
  | inr new ↦ rw new (
      rw (keys-snoc t (created id now input))
        (snoc-IsUnrepeated input.dedup_key (keys t) h (absent input.dedup_key t new)))
]

-- A change that leaves the keys leaves them unrepeated.
changed :
    (test : Alert → Bool) (change : Alert → Alert)
    → ((a : Alert) → (change a).dedup_key ≡ a.dedup_key)
    → (t : List Alert) → IsUnrepeated (keys t)
    → IsUnrepeated (keys (update_where test change t))
changed test change keeps t h = rw (keys-update_where test change keeps t) h

reconcile_one-IsUnrepeated :
    (now : ℕ) (id : String) (c : Input) (t : List Alert)
    → IsUnrepeated (keys t)
    → IsUnrepeated (keys (reconcile_one now id c t))
unfolding reconcile_one
reconcile_one-IsUnrepeated now id c t h =
    elim (find (has_key c.dedup_key) t)
      as (λ o. IsUnrepeated (
        keys (elim o [
          | none ↦ upsert id now c t
          | some existing ↦
              if is_resolved existing.status
              then upsert id now c t
              else update_where (has_id existing.id) (refreshed now c) t
        ]))) [
          | none ↦ upsert-IsUnrepeated id now c t h
          | some existing ↦ elim (Bool-cases (is_resolved existing.status)) [
            | inl was ↦ rw was (upsert-IsUnrepeated id now c t h)
            | inr active ↦ rw active (changed _ (refreshed now c) (λ a. refl) t h)
          ]
        ]

reconcile_all-IsUnrepeated :
    (now : ℕ) (cs : List (String × Input)) (t : List Alert)
    → IsUnrepeated (keys t)
    → IsUnrepeated (keys (reconcile_all now cs t))
unfolding reconcile_all
reconcile_all-IsUnrepeated now [] t h = h
reconcile_all-IsUnrepeated now ((id, c) ∷ cs) t h =
    reconcile_all-IsUnrepeated now cs (reconcile_one now id c t)
      (reconcile_one-IsUnrepeated now id c t h)

Step-IsUnrepeated :
    {access : AlertAccess} {t next : List Alert}
    → Step access t next
    → IsUnrepeated (keys t)
    → IsUnrepeated (keys next)
unfolding reconcile_source reopen_expired_snoozes acknowledge snooze resolve
Step-IsUnrepeated (upserts id now input t) h = upsert-IsUnrepeated id now input t h
Step-IsUnrepeated (reconciles source now cs scope true t) h =
    changed _ (auto_resolved now) (λ a. refl) _ (reconcile_all-IsUnrepeated now cs t h)
Step-IsUnrepeated (reconciles source now cs scope false t) h = reconcile_all-IsUnrepeated now cs t h
Step-IsUnrepeated (reopens now t) h = changed _ _ (λ a. refl) t h
Step-IsUnrepeated (acknowledges u id now t next e) h =
    let (_, _, written) = bind-eq-ok (mutable _ u id t) _ e in
    let same : update_where (has_id id) _ t ≡ next = ok-eq written in
    subst (λ t. IsUnrepeated (keys t)) same (changed (has_id id) _ (λ a. refl) t h)
Step-IsUnrepeated (snoozes u id until reason now t next e) h =
    let (_, _, e1) = bind-eq-ok (mutable _ u id t) _ e in
    let (_, written) = guard_bind (not (leb until now)) _ _ e1 in
    let same : update_where (has_id id) _ t ≡ next = ok-eq written in
    subst (λ t. IsUnrepeated (keys t)) same (changed (has_id id) _ (λ a. refl) t h)
Step-IsUnrepeated (resolves u id reason now t next e) h =
    let (_, _, written) = bind-eq-ok (mutable _ u id t) _ e in
    let same : update_where (has_id id) _ t ≡ next = ok-eq written in
    subst (λ t. IsUnrepeated (keys t)) same (changed (has_id id) _ (λ a. refl) t h)

-- In every table that the service's writes lead to, no two alerts have the same dedup key: a
-- problem that is reported again, by `upsert` or by `reconcileSource`, makes no second alert.
pub Reachable-IsUnrepeated :
    (access : AlertAccess) (t : List Alert) → Reachable access t → IsUnrepeated (keys t)
Reachable-IsUnrepeated access _ start = tt
Reachable-IsUnrepeated access _ (later {t = t} before step) =
    Step-IsUnrepeated step (Reachable-IsUnrepeated access t before)
