-- ===== src/Infrastructure/Bulk/Outcomes.antt =====
-- What a bulk update reports of each device.
use management_app.Base.{
  ◌+◌, ◌≡◌, refl, sym, ◌⊎◌, inl, inr, ◌↔◌, arith, String, List, [], ◌∷◌, length, Elem, Result, ok,
  err,
}
use mathlib.Core.Path.{subst}
use management_app.Infrastructure.Bulk.{
  Fault, persisted, error, other, Failure, Outcome, audit_message, counted,
  update_devices_individually,
}

-- The devices in their order, each with what its update has given or thrown on the state that the updates
-- before it have left.
pub data Runs {S D : Type 0} (id_of : D → String) (update : D → S → S × Result Fault (Unit {0}))
    : List D → S → List (String × Result Fault (Unit {0})) → S → Type 0 where
  ends : (s : S) → Runs id_of update [] s [] s
  turn :
      (d : D) (ds : List D) (s t : S) (rs : List (String × Result Fault (Unit {0})))
      → Runs id_of update ds (update d s).0 rs t
      → Runs id_of update (d ∷ ds) s ((id_of d, (update d s).1) ∷ rs) t

abbrev pub Turn : Type 0
Turn = String × Result Fault (Unit {0})

-- A device is updated if its update has ended, or has thrown that only the audit record is missing.
abbrev pub IsUpdated : String → Turn → Type 0
IsUpdated id (i, r) = ((i ≡ id) × (r ≡ ok tt)) ⊎ (r ≡ err (persisted id))

-- It has failed if its update has thrown anything else; the message is that of the error.
abbrev pub IsFailed : Failure → Turn → Type 0
IsFailed f (i, r) =
    (i ≡ f.id)
    × ((r ≡ err (error f.message))
        ⊎ ((r ≡ err other) × (f.message ≡ "Falha ao atualizar o equipamento.")))

abbrev pub IsUnaudited : Failure → Turn → Type 0
IsUnaudited f (i, r) = (r ≡ err (persisted f.id)) × (f.message ≡ audit_message)

abbrev pub Some : (Turn → Type 0) → List Turn → Type 0
Some P rs = (t : Turn) × Elem t rs × P t

pub record IsAccount (rs : List Turn) (o : Outcome) : Type 0 where
  pub updated : (id : String) → Elem id o.updated_ids ↔ Some (IsUpdated id) rs
  pub failed : (f : Failure) → Elem f o.failed ↔ Some (IsFailed f) rs
  pub unaudited : (f : Failure) → Elem f o.audit_failed ↔ Some (IsUnaudited f) rs
  pub all : length o.updated_ids + length o.failed ≡ length rs

-- One more turn, which gives an entry or none.
module _ {X : Type 0} (P : X → Turn → Type 0) (t : Turn) (rs : List Turn) (xs : List X)
    (each : (x : X) → Elem x xs ↔ Some (P x) rs) where
  gives :
      (a : X) → P a t → ((x : X) → P x t → x ≡ a) → (x : X) → Elem x (a ∷ xs) ↔ Some (P x) (t ∷ rs)
  gives a p one x = (
    (λ m. elim m [
      | inl e ↦ (t, inl refl, subst (λ y. P y t) (sym e) p)
      | inr n ↦ let (u, k, q) = (each x).0 n in (u, inr k, q)
    ]),
    (λ (u, m, q). elim m [
      | inl e ↦ inl (one x (subst (P x) e q))
      | inr k ↦ inr ((each x).1 (u, k, q))
    ]),
  )

  gives_none : ((x : X) → ¬ P x t) → (x : X) → Elem x xs ↔ Some (P x) (t ∷ rs)
  gives_none never x = (
    (λ m. let (u, k, q) = (each x).0 m in (u, inr k, q)),
    (λ (u, m, q). elim m [
      | inl e ↦ absurd (never x (subst (P x) e q))
      | inr k ↦ (each x).1 (u, k, q)
    ]),
  )

same_failure : (f g : Failure) → f.id ≡ g.id → f.message ≡ g.message → f ≡ g
same_failure f g p q = λ i. record { id = p i; message = q i }

counted-IsAccount :
    (id : String) (rs : List Turn) (o : Outcome) (r : Result Fault (Unit {0}))
    → IsAccount rs o
    → IsAccount ((id, r) ∷ rs) (counted id r o)
counted-IsAccount id rs o (ok tt) u = record {
  updated =
      gives IsUpdated (id, ok tt) rs o.updated_ids u.updated id (inl (refl, refl))
        (λ x p. elim p [ inl (e, _) ↦ sym e | inr e ↦ absurd (cc) ]);
  failed =
      gives_none IsFailed (id, ok tt) rs o.failed u.failed
        (λ x (e, p). elim p [ inl q ↦ cc | inr (q, _) ↦ cc ]);
  unaudited = gives_none IsUnaudited (id, ok tt) rs o.audit_failed u.unaudited (λ x (e, p). cc);
  all = let n = u.all in omega arith;
}
counted-IsAccount id rs o (err (persisted device)) u = record {
  updated =
      gives IsUpdated (id, err (persisted device)) rs o.updated_ids u.updated device (inr refl)
        (λ x p. elim p [ inl (_, e) ↦ absurd (cc) | inr e ↦ cc ]);
  failed =
      gives_none IsFailed (id, err (persisted device)) rs o.failed u.failed
        (λ x (e, p). elim p [ inl q ↦ cc | inr (q, _) ↦ cc ]);
  unaudited =
      gives IsUnaudited (id, err (persisted device)) rs o.audit_failed u.unaudited
        (record { id = device; message = audit_message }) (refl, refl)
        (λ x (e, p). same_failure x (record { id = device; message = audit_message }) (cc) p);
  all = let n = u.all in omega arith;
}
counted-IsAccount id rs o (err (error message)) u = record {
  updated =
      gives_none IsUpdated (id, err (error message)) rs o.updated_ids u.updated
        (λ x p. elim p [ inl (_, e) ↦ cc | inr e ↦ cc ]);
  failed =
      gives IsFailed (id, err (error message)) rs o.failed u.failed
        (record { id = id; message = message }) (refl, inl refl)
        (λ x (e, p).
          same_failure x (record { id = id; message = message }) (sym e)
            (elim p [ inl q ↦ cc | inr (q, _) ↦ absurd (cc) ]));
  unaudited =
      gives_none IsUnaudited (id, err (error message)) rs o.audit_failed u.unaudited
        (λ x (e, p). cc);
  all = let n = u.all in omega arith;
}
counted-IsAccount id rs o (err other) u = record {
  updated =
      gives_none IsUpdated (id, err other) rs o.updated_ids u.updated
        (λ x p. elim p [ inl (_, e) ↦ cc | inr e ↦ cc ]);
  failed =
      gives IsFailed (id, err other) rs o.failed u.failed
        (record { id = id; message = "Falha ao atualizar o equipamento." }) (refl, inr (refl, refl))
        (λ x (e, p).
          same_failure x (record { id = id; message = "Falha ao atualizar o equipamento." }) (sym e)
            (elim p [ inl q ↦ absurd (cc) | inr (_, q) ↦ q ]));
  unaudited = gives_none IsUnaudited (id, err other) rs o.audit_failed u.unaudited (λ x (e, p). cc);
  all = let n = u.all in omega arith;
}

-- Every device of a bulk update is updated once, on the state that the updates before it have left, whatever
-- they have thrown. Exactly those are reported as updated whose update has ended or has thrown that its
-- audit record is missing, exactly the latter as not audited, and exactly the others as failed, with the
-- message of their error. As many are updated or have failed as there are devices.
pub update_devices-IsAccount :
    {S D : Type 0} (id_of : D → String) (update : D → S → S × Result Fault (Unit {0})) (ds : List D)
    (s : S)
    → (rs : List Turn) × Runs id_of update ds s rs (update_devices_individually id_of update ds s).0
      × IsAccount rs (update_devices_individually id_of update ds s).1
unfolding update_devices_individually
update_devices-IsAccount id_of update [] s = (
  [],
  ends s,
  record {
    updated = λ id. ((λ m. absurd m), (λ (t, m, p). absurd m));
    failed = λ f. ((λ m. absurd m), (λ (t, m, p). absurd m));
    unaudited = λ f. ((λ m. absurd m), (λ (t, m, p). absurd m));
    all = refl;
  },
)
update_devices-IsAccount id_of update (d ∷ ds) s =
    let (rs, runs, account) = update_devices-IsAccount id_of update ds (update d s).0 in
    (
      (id_of d, (update d s).1) ∷ rs,
      turn d ds s _ rs runs,
      counted-IsAccount (id_of d) rs _ (update d s).1 account,
    )
