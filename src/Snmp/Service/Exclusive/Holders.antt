-- ===== src/Snmp/Service/Exclusive/Holders.antt =====
-- What a row that is made of a request holds.
use management_app.Base.{
  ◌≡◌, refl, sym, ◌∙◌, arith, Bool, true, Option, none, some, Result, ok, err, or_throw_bind,
}
use management_app.Text.{Text}
use management_app.Snmp.Keyring.{Secret, Envelope, Failure}
use management_app.Snmp.Credentials.{Version, v2c, v3}
use management_app.Snmp.Service.{user_of, is_of, options_for}
use management_app.Snmp.Service.Secrets.{
  thrown, given, SecretDto, Purpose, read, write, trap, Credential, credential_secret, user_secret,
  stored_of, same_purpose,
}
use management_app.Snmp.Service.Exclusive.{of_credential, given-some}

pub thrown-ok : {A : Type 0} (m : Result Failure A) (a : A) → thrown m ≡ ok a → m ≡ ok a
thrown-ok (ok b) a h = cc
thrown-ok (err e) a h = absurd (cc)

-- The user name of a request of version 3.
abbrev requested_name : SecretDto → Option Text
requested_name dto = elim dto.version [ v3 ↦ dto.username | v2c ↦ none ]

given_whole : (o : Option Text) (t : Text) → given o ≡ some t → given o ≡ o
given_whole o t h = h ∙ sym (given-some o t h)

user_secret-given :
    (dto : SecretDto) (sha1 : Bool) (s : Secret)
    → user_secret dto sha1 ≡ ok s
    → given dto.username ≡ dto.username
unfolding user_secret
user_secret-given dto sha1 s h =
    let (t, e, rest) = or_throw_bind (given dto.username) _ _ h in given_whole dto.username t e

-- A secret that is accepted has a user name that is not empty, where it has one.
pub requested_name-given :
    (dto : SecretDto) (sha1 : Bool) (s : Secret)
    → credential_secret dto sha1 ≡ ok s
    → given (requested_name dto) ≡ requested_name dto
unfolding credential_secret
requested_name-given dto sha1 s h = by_version dto.version refl
  where
    by_version : (v : Version) → dto.version ≡ v → given (requested_name dto) ≡ requested_name dto
    by_version v2c e = rw e refl
    by_version v3 e = rw e (user_secret-given dto sha1 s (rw e at h))

pub stored-holder :
    (dto : SecretDto) (e : Envelope)
    → ((stored_of dto e).envelope ≡ e) × (user_of (stored_of dto e) ≡ requested_name dto)
stored-holder dto e = by_version dto.version refl
  where
    by_version :
        (v : Version)
        → dto.version ≡ v
        → ((stored_of dto e).envelope ≡ e) × (user_of (stored_of dto e) ≡ requested_name dto)
    by_version v2c h = rw h (refl, refl)
    by_version v3 h = rw h (refl, refl)

-- The holder of a new credential, as the check names it.
pub credential-holder :
    (c : Credential) (p : Purpose) (dto : SecretDto) (sha1 : Bool) (s : Secret) (e : Envelope)
    (previous : Option Credential)
    → credential_secret dto sha1 ≡ ok s
    → c.purpose ≡ p
    → c.stored ≡ stored_of dto e
    → record { envelope = e; name = given (options_for previous p dto).v3_trap_username }
      ≡ of_credential c
credential-holder c read dto sha1 s e previous h k st =
    rw (k, st) (λ i. record { envelope = sym (stored-holder dto e).0 i; name = none })
credential-holder c write dto sha1 s e previous h k st =
    rw (k, st) (λ i. record { envelope = sym (stored-holder dto e).0 i; name = none })
credential-holder c trap dto sha1 s e previous h k st =
    rw (k, st)
      (λ i. record {
        envelope = sym (stored-holder dto e).0 i;
        name = (requested_name-given dto sha1 s h ∙ sym (stored-holder dto e).1) i;
      })

pub is_of-purpose :
    (device : Text) (p : Purpose) (c : Credential) → is_of device p c ≡ true → c.purpose ≡ p
is_of-purpose device p c h = by_purpose c.purpose p (ground arith)
  where
    by_purpose : (q p : Purpose) → same_purpose q p ≡ true → q ≡ p
    by_purpose read read e = refl
    by_purpose write write e = refl
    by_purpose trap trap e = refl
    by_purpose read write e = absurd (cc)
    by_purpose read trap e = absurd (cc)
    by_purpose write read e = absurd (cc)
    by_purpose write trap e = absurd (cc)
    by_purpose trap read e = absurd (cc)
    by_purpose trap write e = absurd (cc)
