-- ===== src/Snmp/Service/Exclusive/Enrolled.antt =====
-- Every operation on enrollments keeps the policy.
use management_app.Base.{
  ℕ, ◌+◌, any, ◌≡◌, ◌≢◌, refl, sym, ◌∙◌, ap, inl, inr, Bool, not, List, [], ◌∷◌, ◌++◌, map, filter,
  Elem, Elem-of_filter, Elem-of_map, Bool-cases, if◌then◌else◌, Result, ok, bind-eq-ok, seq-eq-ok,
  guard_bind,
}
use mathlib.Core.Path.{subst}
use management_app.Text.{Text}
use management_app.Snmp.Keyring.{Bytes, Cipher, Json, Secret, Envelope, Random, encrypt_credential}
use management_app.Snmp.Traps.Store.{Enrollment}
use management_app.Snmp.Service.{assert_secret_available}
use management_app.Snmp.Service.Secrets.{
  Fault, thrown, given, SecretDto, Vault, credential_secret, stored_of,
}
use management_app.Snmp.Service.Enrollments
use management_app.Snmp.Service.Exclusive.{
  of_credential, of_enrollment, crypto_of, Apart, IsUnshared, new-Apart_credential,
  new-Apart_enrollment,
}
use management_app.Snmp.Service.Exclusive.Rows.{
  IsUnshared-fewer, IsUnshared-add_enrollment, IsUnshared-Under, Under-refl,
}
use management_app.Snmp.Service.Exclusive.Holders.{thrown-ok, requested_name-given, stored-holder}

module _ (aes : Cipher) (json : Json) (keys : List (Text × Bytes)) where
  enrollment-holder :
      (n : Enrollment) (dto : SecretDto) (sha1 : Bool) (s : Secret) (e : Envelope)
      → credential_secret dto sha1 ≡ ok s
      → n.stored ≡ stored_of dto e
      → record { envelope = e; name = given (Enrollments.options_for dto).v3_trap_username }
        ≡ of_enrollment n
  enrollment-holder n dto sha1 s e h st = rw st (λ i. record {
    envelope = sym (stored-holder dto e).0 i;
    name = (requested_name-given dto sha1 s h ∙ sym (stored-holder dto e).1) i;
  })

  pub create_enrollment-kept :
      (key id site address : Text) (r : Random) (permitted : Result Fault (Unit {0}))
      (is_ipv4 has_device sha1 : Bool) (now : ℕ) (dto : SecretDto) (v w : Vault)
      → IsUnshared aes json keys v
      → ((e : Enrollment) → Elem e v.enrollments → e.id ≢ id)
      → Enrollments.create_enrollment
          (crypto_of aes json keys key r)
          permitted
          is_ipv4
          has_device
          sha1
          id
          site
          address
          now
          dto
          v
        ≡ ok w
      → IsUnshared aes json keys w
  unfolding Enrollments.create_enrollment
  create_enrollment-kept key id site address r permitted is_ipv4 has_device sha1 now dto v w u fresh
        h =
      let (allowed, h1) = seq-eq-ok permitted _ h in
      let (v4, h2) = guard_bind is_ipv4 _ _ h1 in
      let (secret, good, h3) = bind-eq-ok (credential_secret dto sha1) _ h2 in
      let (vacant, h4) = guard_bind (not has_device) _ _ h3 in
      let (single, h5) =
        guard_bind (not (any (Enrollments.is_at site address) v.enrollments)) _ _ h4 in
      let o = Enrollments.options_for dto in
      let (ring, checked, h6) =
        bind-eq-ok (assert_secret_available (crypto_of aes json keys key r) secret o v) _ h5 in
      let (e, sealed, h7) = bind-eq-ok (thrown (encrypt_credential aes json r secret ring)) _ h6 in
      let done : record v {
        enrollments = v.enrollments ++ Enrollments.enrolled id site address now dto e ∷ [];
      }
          ≡ w =
        cc in
      let made = thrown-ok (encrypt_credential aes json r secret ring) e sealed in
      let new = Enrollments.enrolled id site address now dto e in
      let holds = enrollment-holder new dto sha1 secret e good refl in
      subst (IsUnshared aes json keys) done (
        IsUnshared-add_enrollment aes json keys v new fresh
          (λ c m.
            subst (λ x. Apart aes json keys x (of_credential c)) holds
              (new-Apart_credential aes json keys key r secret o v ring e checked made c m refl))
          (λ c m.
            subst (λ x. Apart aes json keys x (of_enrollment c)) holds
              (new-Apart_enrollment aes json keys key r secret o v ring e checked made c m refl))
          u)

  pub renew_enrollment-kept :
      (permitted : Result Fault (Unit {0})) (id : Text) (now : ℕ) (v w : Vault)
      → IsUnshared aes json keys v
      → Enrollments.renew_enrollment permitted id now v ≡ ok w
      → IsUnshared aes json keys w
  unfolding Enrollments.renew_enrollment
  renew_enrollment-kept permitted id now v w u h =
      let (known, h1) = guard_bind (any (Enrollments.has_id id) v.enrollments) _ _ h in
      let (allowed, h2) = seq-eq-ok permitted _ h1 in
      let done : record v { enrollments = map renewed v.enrollments } ≡ w = cc in
      subst (IsUnshared aes json keys) done (
        IsUnshared-Under aes json keys v (record v { enrollments = map renewed v.enrollments })
          u.one
          (λ e f m n k.
            let (b, mb, eb) = Elem-of_map renewed e v.enrollments m in
            let (q, mq, eq) = Elem-of_map renewed f v.enrollments n in
            eb
            ∙ ap renewed (
                u.single b q mb mq (
                  sym (same_row b).0
                  ∙ ap (λ (x : Enrollment). x.id) (sym eb)
                  ∙ k
                  ∙ ap (λ (x : Enrollment). x.id) eq
                  ∙ (same_row q).0))
            ∙ sym eq)
          (λ c m. (c, m, refl, Under-refl aes json keys (of_credential c) (of_credential c) refl))
          (λ e m.
            let (b, n, k) = Elem-of_map renewed e v.enrollments m in
            (
              b,
              n,
              ap (λ (x : Enrollment). x.id) k ∙ (same_row b).0,
              Under-refl aes json keys (of_enrollment e) (of_enrollment b)
                  (ap of_enrollment k ∙ (same_row b).1),
            ))
          u)
    where
      renewed : Enrollment → Enrollment
      renewed e =
          if Enrollments.has_id id e
          then record e { expires_at = now + Enrollments.lifetime }
          else e

      same_row :
          (e : Enrollment) → ((renewed e).id ≡ e.id) × (of_enrollment (renewed e) ≡ of_enrollment e)
      same_row e = elim (Bool-cases (Enrollments.has_id id e)) [
        | inl k ↦ rw k (refl, refl)
        | inr k ↦ rw k (refl, refl)
      ]

  pub delete_enrollment-kept :
      (permitted : Result Fault (Unit {0})) (id : Text) (v w : Vault)
      → IsUnshared aes json keys v
      → Enrollments.delete_enrollment permitted id v ≡ ok w
      → IsUnshared aes json keys w
  unfolding Enrollments.delete_enrollment
  delete_enrollment-kept permitted id v w u h =
      let (known, h1) = guard_bind (any (Enrollments.has_id id) v.enrollments) _ _ h in
      let (allowed, h2) = seq-eq-ok permitted _ h1 in
      let left = filter (λ e. not (Enrollments.has_id id e)) v.enrollments in
      let done : record v { enrollments = left } ≡ w = cc in
      subst (IsUnshared aes json keys) done (
        IsUnshared-fewer aes json keys v (record v { enrollments = left }) (λ c m. m)
          (λ e m. (Elem-of_filter (λ e. not (Enrollments.has_id id e)) e v.enrollments m).0) u)
