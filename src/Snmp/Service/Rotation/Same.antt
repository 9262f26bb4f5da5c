-- ===== src/Snmp/Service/Rotation/Same.antt =====
-- Rows whose envelopes are sealed again open to what they opened to before.
use management_app.Base.{
  ◌≡◌, ◌≢◌, refl, sym, ◌∙◌, ap, ◌⊎◌, inl, inr, arith, List, Elem, Bool-cases, ok, or_throw_bind,
  bind-eq-ok,
}
use mathlib.Core.Path.{subst}
use management_app.Text.{Text}
use management_app.Text.Sets.{same, same_iff}
use management_app.Snmp.Keyring.{
  Bytes, Cipher, Json, Keyring, Envelope, key_of, decrypt_credential, decrypt_with_key, rewrapped,
  rewrap_credential,
}
use management_app.Snmp.Keyring.Rewrap.{decrypt-rewrap}
use management_app.Snmp.Service.Rotation.{Kind, wrapped_by, updated}

-- What an update of an envelope leaves alone.
pub record IsKind {A : Type 0} (kind : Kind A) : Type 0 where
  pub id-put : (e : Envelope) (a : A) → kind.id (kind.put e a) ≡ kind.id a
  pub envelope-put : (e : Envelope) (a : A) → kind.envelope (kind.put e a) ≡ e
  pub put-put : (e f : Envelope) (a : A) → kind.put e (kind.put f a) ≡ kind.put e a

-- Two envelopes of one secret.
pub record Alike (aes : Cipher) (json : Json) (ring : Keyring) (e f : Envelope) : Type 0 where
  pub ciphertext : e.ciphertext ≡ f.ciphertext
  pub iv : e.iv ≡ f.iv
  pub auth_tag : e.auth_tag ≡ f.auth_tag
  pub opens : decrypt_credential aes json e ring ≡ decrypt_credential aes json f ring

module _ (aes : Cipher) (json : Json) (ring : Keyring) where
  pub Alike-trans :
      (e f g : Envelope)
      → Alike aes json ring e f
      → Alike aes json ring f g
      → Alike aes json ring e g
  Alike-trans e f g a b = record {
    ciphertext = a.ciphertext ∙ b.ciphertext;
    iv = a.iv ∙ b.iv;
    auth_tag = a.auth_tag ∙ b.auth_tag;
    opens = a.opens ∙ b.opens;
  }

  Alike-sym : (e f : Envelope) → Alike aes json ring e f → Alike aes json ring f e
  Alike-sym e f a = record {
    ciphertext = sym a.ciphertext;
    iv = sym a.iv;
    auth_tag = sym a.auth_tag;
    opens = sym a.opens;
  }

  pub Alike-refl : (e f : Envelope) → e ≡ f → Alike aes json ring e f
  Alike-refl e f p =
      subst (Alike aes json ring e) p
        (record { ciphertext = refl; iv = refl; auth_tag = refl; opens = refl })

  rewrapped-payload :
      (iv : Bytes) (e f : Envelope)
      → rewrapped aes iv e ring ≡ ok f
      → (e.ciphertext ≡ f.ciphertext) × (e.iv ≡ f.iv) × (e.auth_tag ≡ f.auth_tag)
  unfolding rewrapped
  rewrapped-payload iv e f h =
      let (old, known, h1) = or_throw_bind (key_of e.key_id ring.keys) _ _ h in
      let (dek, opened, h2) =
        bind-eq-ok (decrypt_with_key aes e.wrapped_dek e.wrap_iv e.wrap_auth_tag old) _ h1 in
      let (key, active, h3) = or_throw_bind (key_of ring.active_key_id ring.keys) _ _ h2 in
      (ground arith, ground arith, ground arith)

  rewrap-Alike :
      (iv : Bytes) (e f : Envelope)
      → rewrap_credential aes iv e ring ≡ ok f
      → Alike aes json ring f e × (f.key_id ≡ ring.active_key_id)
  unfolding rewrap_credential
  rewrap-Alike iv e f h =
      let (opens, active) = decrypt-rewrap aes json iv e f ring h in
      elim (Bool-cases (same e.key_id ring.active_key_id)) [
        | inl k ↦ let p : f ≡ e = ground arith in (Alike-refl f e p, active)
        | inr k ↦
            let (c, i, t) = rewrapped-payload iv e f (rw k at h) in
            (record { ciphertext = sym c; iv = sym i; auth_tag = sym t; opens = opens }, active)
      ]

  -- The fields that an update takes, over those of a row with the same secret.
  wrapped_by-same :
      (t a f : Envelope) → Alike aes json ring t a → Alike aes json ring f a → wrapped_by f t ≡ f
  wrapped_by-same t a f p q = λ i. record {
    ciphertext = (p.ciphertext ∙ sym q.ciphertext) i;
    iv = (p.iv ∙ sym q.iv) i;
    auth_tag = (p.auth_tag ∙ sym q.auth_tag) i;
    wrapped_dek = f.wrapped_dek;
    wrap_iv = f.wrap_iv;
    wrap_auth_tag = f.wrap_auth_tag;
    key_id = f.key_id;
  }

  module _ {A : Type 0} (kind : Kind A) (laws : IsKind kind) (ivs : Text → Bytes) where
    -- The same row, with an envelope of the same secret.
    pub record Resealed (u t : A) : Type 0 where
      pub id : kind.id u ≡ kind.id t
      pub secret : Alike aes json ring (kind.envelope u) (kind.envelope t)
      pub rest : (u ≡ t) ⊎ ((e : Envelope) × (u ≡ kind.put e t))

    pub Resealed-refl : (t : A) → Resealed t t
    Resealed-refl t = record {
      id = refl;
      secret = Alike-refl (kind.envelope t) (kind.envelope t) refl;
      rest = inl refl;
    }

    pub Resealed-trans : (u t s : A) → Resealed u t → Resealed t s → Resealed u s
    Resealed-trans u t s p q = record {
      id = p.id ∙ q.id;
      secret = Alike-trans (kind.envelope u) (kind.envelope t) (kind.envelope s) p.secret q.secret;
      rest = elim p.rest [
        | inl e ↦ elim q.rest [ inl f ↦ inl (e ∙ f) | inr (x, f) ↦ inr (x, e ∙ f) ]
        | inr (x, e) ↦ elim q.rest [
          | inl f ↦ inr (x, e ∙ ap (kind.put x) f)
          | inr (y, f) ↦ inr (x, e ∙ ap (kind.put x) f ∙ laws.put-put x y s)
        ]
      ];
    }

    -- Rows that have the id of a row that was read hold its secret.
    abbrev pub Fits : List A → List A → Type 0
    Fits rows table =
        (a t : A)
        → Elem a rows
        → Elem t table
        → kind.id t ≡ kind.id a
        → Alike aes json ring (kind.envelope t) (kind.envelope a)

    module _ (a : A) (f : Envelope)
        (made : rewrap_credential aes (ivs (kind.id a)) (kind.envelope a) ring ≡ ok f) where
      abbrev pub update : A → A
      update = updated kind (kind.id a) f

      pub updated_cases :
          (t : A)
          → (kind.id t ≡ kind.id a → Alike aes json ring (kind.envelope t) (kind.envelope a))
          → Resealed (update t) t
            × (((kind.id t ≡ kind.id a) × ((kind.envelope (update t)).key_id ≡ ring.active_key_id))
                ⊎ ((kind.id t ≢ kind.id a) × (update t ≡ t)))
      updated_cases t fits = elim (Bool-cases (same (kind.id t) (kind.id a))) [
        | inl k ↦
            let i = (same_iff (kind.id t) (kind.id a)).0 k in
            let (like, active) = rewrap-Alike (ivs (kind.id a)) (kind.envelope a) f made in
            let e = wrapped_by f (kind.envelope t) in
            let w : update t ≡ kind.put e t = rw k refl in
            let env : kind.envelope (update t) ≡ f =
              ap kind.envelope w
              ∙ laws.envelope-put e t
              ∙ wrapped_by-same (kind.envelope t) (kind.envelope a) f (fits i) like in
            (
              record {
                id = ap kind.id w ∙ laws.id-put e t;
                secret =
                    subst (λ x. Alike aes json ring x (kind.envelope t)) (sym env)
                      (Alike-trans f (kind.envelope a) (kind.envelope t) like
                        (Alike-sym (kind.envelope t) (kind.envelope a) (fits i)));
                rest = inr (e, w);
              },
              inl (i, ap (λ (x : Envelope). x.key_id) env ∙ active),
            )
        | inr k ↦
            let w : update t ≡ t = rw k refl in
            (
              subst (λ x. Resealed x t) (sym w) (Resealed-refl t),
              inr ((λ i. let s = (same_iff (kind.id t) (kind.id a)).1 i in cc), w),
            )
      ]
