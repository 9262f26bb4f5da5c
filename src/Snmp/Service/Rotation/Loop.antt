-- ===== src/Snmp/Service/Rotation/Loop.antt =====
-- The loop of a rotation, over one table.
use management_app.Base.{
  ℕ, ◌≡◌, ◌≢◌, refl, sym, ◌∙◌, ap, ◌⊎◌, inl, inr, List, ◌∷◌, map, Elem, Elem-of_map, Elem-map,
  Result, ok, err,
}
use mathlib.Core.Path.{subst}
use management_app.Text.{Text}
use management_app.Snmp.Keyring.{Bytes, Cipher, Json, Keyring, Envelope, Failure, rewrap_credential}
use management_app.Snmp.Service.Rotation.{Kind, updated, one_more}
use management_app.Snmp.Service.Rotation.Same.{
  IsKind, Alike, Alike-trans, Resealed, Resealed-refl, Resealed-trans, Fits, updated_cases,
}

pub one_more-ok : (r : Result Failure ℕ) (n : ℕ) → one_more r ≡ ok n → (m : ℕ) × (r ≡ ok m)
one_more-ok (ok m) n h = (m, refl)
one_more-ok (err e) n h = absurd (cc)

-- An id stands for one row.
abbrev pub IsOne : {A : Type 0} → Kind A → List A → Type 0
IsOne {A} kind table = (c d : A) → Elem c table → Elem d table → kind.id c ≡ kind.id d → c ≡ d

module _ (aes : Cipher) (json : Json) (ring : Keyring) {A : Type 0} (kind : Kind A)
    (laws : IsKind kind) (ivs : Text → Bytes) where
  -- A table whose rows are those of another, with envelopes of the same secrets.
  pub record IsResealed (table after : List A) : Type 0 where
    pub from :
        (u : A) → Elem u after → (t : A) × Elem t table × Resealed aes json ring kind laws ivs u t
    pub into :
        (t : A) → Elem t table → (u : A) × Elem u after × Resealed aes json ring kind laws ivs u t
    pub one : IsOne kind table → IsOne kind after

  pub IsResealed-refl : (table : List A) → IsResealed table table
  IsResealed-refl table = record {
    from = λ u m. (u, m, Resealed-refl aes json ring kind laws ivs u);
    into = λ u m. (u, m, Resealed-refl aes json ring kind laws ivs u);
    one = λ h. h;
  }

  pub IsResealed-trans : (a b c : List A) → IsResealed a b → IsResealed b c → IsResealed a c
  IsResealed-trans a b c p q = record {
    from = λ u m.
        let (t, n, k) = q.from u m in
        let (s, o, j) = p.from t n in (s, o, Resealed-trans aes json ring kind laws ivs u t s k j);
    into = λ s m.
        let (t, n, k) = p.into s m in
        let (u, o, j) = q.into t n in (u, o, Resealed-trans aes json ring kind laws ivs u t s j k);
    one = λ h. q.one (p.one h);
  }

  -- One round.
  module _ (a : A) (f : Envelope) (table : List A)
      (made : rewrap_credential aes (ivs (kind.id a)) (kind.envelope a) ring ≡ ok f)
      (fits : (t : A)
        → Elem t table
        → kind.id t ≡ kind.id a
        → Alike aes json ring (kind.envelope t) (kind.envelope a)) where
    abbrev pub round : A → A
    round = updated kind (kind.id a) f

    round_cases :
        (t : A)
        → Elem t table
        → Resealed aes json ring kind laws ivs (round t) t
          × (((kind.id t ≡ kind.id a) × ((kind.envelope (round t)).key_id ≡ ring.active_key_id))
              ⊎ ((kind.id t ≢ kind.id a) × (round t ≡ t)))
    round_cases t m = updated_cases aes json ring kind laws ivs a f made t (fits t m)

    pub round-IsResealed : IsResealed table (map round table)
    round-IsResealed = record {
      from = λ u m.
          let (t, n, e) = Elem-of_map round u table m in
          (t, n, subst (λ x. Resealed aes json ring kind laws ivs x t) (sym e) (round_cases t n).0);
      into = λ t m. (round t, Elem-map round t table m, (round_cases t m).0);
      one = λ h c d m n e.
          let (b, mb, eb) = Elem-of_map round c table m in
          let (q, mq, eq) = Elem-of_map round d table n in
          let ids =
            sym (round_cases b mb).0.id
            ∙ ap kind.id (sym eb)
            ∙ e
            ∙ ap kind.id eq
            ∙ (round_cases q mq).0.id in
          eb ∙ ap round (h b q mb mq ids) ∙ sym eq;
    }

    pub round-Fits :
        (rows : List A)
        → Fits aes json ring kind laws ivs rows table
        → Fits aes json ring kind laws ivs rows (map round table)
    round-Fits rows h b u m n e =
        let (t, k, w) = Elem-of_map round u table n in
        let r = subst (λ x. Resealed aes json ring kind laws ivs x t) (sym w) (round_cases t k).0 in
        Alike-trans aes json ring (kind.envelope u) (kind.envelope t) (kind.envelope b) r.secret
          (h b t m k (sym r.id ∙ e))

    -- A row that has the active key, or is still to come.
    pub round-key :
        (rows : List A) (u : A)
        → Elem u (map round table)
        → ((t : A)
            → Elem t table
            → ((kind.envelope t).key_id ≡ ring.active_key_id)
              ⊎ ((b : A) × Elem b (a ∷ rows)
                  × (kind.id t ≡ kind.id b)
                  × (kind.envelope t ≡ kind.envelope b)))
        → ((kind.envelope u).key_id ≡ ring.active_key_id)
          ⊎ ((b : A) × Elem b rows × (kind.id u ≡ kind.id b) × (kind.envelope u ≡ kind.envelope b))
    round-key rows u m h =
        let (t, n, w) = Elem-of_map round u table m in
        elim (round_cases t n).1 [
          | inl (i, k) ↦ inl (ap (λ (x : A). (kind.envelope x).key_id) w ∙ k)
          | inr (i, k) ↦ elim (h t n) [
            | inl active ↦ inl (ap (λ (x : A). (kind.envelope x).key_id) (w ∙ k) ∙ active)
            | inr (b, inl p, q, v) ↦ absurd (i (q ∙ ap kind.id p))
            | inr (b, inr p, q, v) ↦
                inr (b, p, ap kind.id (w ∙ k) ∙ q, ap kind.envelope (w ∙ k) ∙ v)
          ]
        ]
