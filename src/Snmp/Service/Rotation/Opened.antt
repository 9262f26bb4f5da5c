-- ===== src/Snmp/Service/Rotation/Opened.antt =====
-- After a rotation every row opens to what it opened to, and if it succeeds, by the active key alone.
use management_app.Base.{
  ℕ, ◌≡◌, refl, sym, ◌∙◌, ap, ◌⊎◌, inl, inr, List, [], ◌∷◌, map, Elem, Bool-cases, Result,
  Result-cases, ok, err,
}
use mathlib.Core.Path.{subst}
use management_app.Text.{Text}
use management_app.Text.Sets.{same, same_iff}
use management_app.Snmp.Keyring.{Bytes, Cipher, Json, Keyring, Envelope, Failure, rewrap_credential}
use management_app.Snmp.Service.Rotation.{Kind, updated, one_more, rotate_rows}
use management_app.Snmp.Service.Rotation.Same.{IsKind, Alike-refl, Fits}
use management_app.Snmp.Service.Rotation.Loop.{
  one_more-ok, IsOne, IsResealed, IsResealed-refl, IsResealed-trans, round-IsResealed, round-Fits,
  round-key,
}

module _ (aes : Cipher) (json : Json) (ring : Keyring) {A : Type 0} (kind : Kind A)
    (laws : IsKind kind) (ivs : Text → Bytes) where
  abbrev rotated : List A → List A → List A × Result Failure ℕ
  rotated = rotate_rows kind aes ivs ring

  rotate_cases :
      (a : A) (rows table : List A)
      → (((kind.envelope a).key_id ≡ ring.active_key_id)
          × (rotated (a ∷ rows) table ≡ rotated rows table))
        ⊎ ((((e : Failure) × (rotated (a ∷ rows) table ≡ (table, err e))))
            ⊎ ((f : Envelope) × (rewrap_credential aes (ivs (kind.id a)) (kind.envelope a) ring
                  ≡ ok f)
                × (rotated (a ∷ rows) table ≡ (
                  (rotated rows (map (updated kind (kind.id a) f) table)).0,
                  one_more (rotated rows (map (updated kind (kind.id a) f) table)).1,
                ))))
  unfolding rotate_rows
  rotate_cases a rows table = elim (Bool-cases (same (kind.envelope a).key_id ring.active_key_id)) [
    | inl k ↦
        inl ((same_iff (kind.envelope a).key_id ring.active_key_id).0 k, rw (k, rotate_rows) refl)
    | inr k ↦ elim (Result-cases (rewrap_credential aes (ivs (kind.id a)) (kind.envelope a) ring)) [
      | inl (f, e) ↦ inr (inr (f, e, rw (k, e, rotate_rows) refl))
      | inr (f, e) ↦ inr (inl (f, rw (k, e, rotate_rows) refl))
    ]
  ]

  rotate-IsResealed :
      (rows table : List A)
      → Fits aes json ring kind laws ivs rows table
      → IsResealed aes json ring kind laws ivs table (rotated rows table).0
  unfolding rotate_rows
  rotate-IsResealed [] table fits = IsResealed-refl aes json ring kind laws ivs table
  rotate-IsResealed (a ∷ rows) table fits = elim (rotate_cases a rows table) [
    | inl (_, e) ↦ rw e (rotate-IsResealed rows table (λ b t m n. fits b t (inr m) n))
    | inr (inl (f, e)) ↦ rw e (IsResealed-refl aes json ring kind laws ivs table)
    | inr (inr (f, made, e)) ↦
        let here = λ (t : A) (m : Elem t table). fits a t (inl refl) m in
        rw e (
          IsResealed-trans aes json ring kind laws ivs table
            (map (updated kind (kind.id a) f) table)
            (rotated rows (map (updated kind (kind.id a) f) table)).0
            (round-IsResealed aes json ring kind laws ivs a f table made here)
            (rotate-IsResealed rows (map (updated kind (kind.id a) f) table) (
              round-Fits aes json ring kind laws ivs a f table made here rows
                (λ b t m n. fits b t (inr m) n))))
  ]

  rotate-keys :
      (rows table : List A) (n : ℕ)
      → Fits aes json ring kind laws ivs rows table
      → ((t : A)
          → Elem t table
          → ((kind.envelope t).key_id ≡ ring.active_key_id)
            ⊎ ((b : A) × Elem b rows
                × (kind.id t ≡ kind.id b)
                × (kind.envelope t ≡ kind.envelope b)))
      → (rotated rows table).1 ≡ ok n
      → (u : A) → Elem u (rotated rows table).0
      → (kind.envelope u).key_id ≡ ring.active_key_id
  unfolding rotate_rows
  rotate-keys [] table n fits ready h u m = elim (ready u m) [
    | inl k ↦ k
    | inr (b, nothing, _, _) ↦ absurd nothing
  ]
  rotate-keys (a ∷ rows) table n fits ready h u m = elim (rotate_cases a rows table) [
    | inl (k, e) ↦
        rotate-keys rows table n (λ b t m2 n2. fits b t (inr m2) n2)
          (λ t m2. elim (ready t m2) [
            | inl j ↦ inl j
            | inr (b, inl p, i, q) ↦
                inl (ap (λ (x : Envelope). x.key_id) (q ∙ ap kind.envelope p) ∙ k)
            | inr (b, inr p, i, q) ↦ inr (b, p, i, q)
          ])
          (ap (λ (x : List A × Result Failure ℕ). x.1) (sym e) ∙ h) u
          (subst (λ (x : List A × Result Failure ℕ). Elem u x.0) e m)
    | inr (inl (f, e)) ↦
        let failed : ◌≡◌ {A = Result Failure ℕ} (err f) (ok n) =
          ap (λ (x : List A × Result Failure ℕ). x.1) (sym e) ∙ h in
        absurd (cc)
    | inr (inr (f, made, e)) ↦
        let here = λ (t : A) (m : Elem t table). fits a t (inl refl) m in
        let next = map (updated kind (kind.id a) f) table in
        let (k, done) =
          one_more-ok (rotated rows next).1 n
            (ap (λ (x : List A × Result Failure ℕ). x.1) (sym e) ∙ h) in
        rotate-keys rows next k
          (round-Fits aes json ring kind laws ivs a f table made here rows
            (λ b t m2 n2. fits b t (inr m2) n2))
          (λ t m2. round-key aes json ring kind laws ivs a f table made here rows t m2 ready) done u
          (subst (λ (x : List A × Result Failure ℕ). Elem u x.0) e m)
  ]

  -- The whole table is read, and each row is its own.
  pub whole-IsResealed :
      (table : List A)
      → IsOne kind table
      → IsResealed aes json ring kind laws ivs table (rotated table table).0
  whole-IsResealed table one = rotate-IsResealed table table (λ a t m n e.
      Alike-refl aes json ring (kind.envelope t) (kind.envelope a)
        (ap kind.envelope (one t a n m e)))

  pub whole-keys :
      (table : List A) (n : ℕ)
      → IsOne kind table
      → (rotated table table).1 ≡ ok n
      → (u : A) → Elem u (rotated table table).0
      → (kind.envelope u).key_id ≡ ring.active_key_id
  whole-keys table n one =
      rotate-keys table table n
        (λ a t m k e.
          Alike-refl aes json ring (kind.envelope t) (kind.envelope a)
            (ap kind.envelope (one t a k m e)))
        (λ t m. inr (t, m, refl, refl))
