-- ===== src/Snmp/Keyring/Rewrap.antt =====
-- Sealed secrets come back, also after the keyring has turned to another key.
use management_app.Base.{◌≡◌, refl, inl, inr, arith, Bool-cases, ok, bind-eq-ok, or_throw_bind}
use mathlib.Core.Path.{subst}
use management_app.Text.Sets.{same, same_iff}
use management_app.Snmp.Keyring.{
  Cipher, Json, Secret, Keyring, Envelope, Random, Bytes, key_of, encrypt_credential,
  decrypt_credential, rewrapped, rewrap_credential, decrypt_with_key,
}

module _ (aes : Cipher) (json : Json) where
  -- What is sealed under a keyring comes back under every keyring in which the id of the active key
  -- stands for the same key.
  pub decrypt-encrypt :
      (random : Random) (s : Secret) (ring later : Keyring) (e : Envelope)
      → encrypt_credential aes json random s ring ≡ ok e
      → key_of ring.active_key_id later.keys ≡ key_of ring.active_key_id ring.keys
      → decrypt_credential aes json e later ≡ ok s
  unfolding encrypt_credential decrypt_credential
  decrypt-encrypt random s ring later e h same_key =
      let (key, found, h1) = or_throw_bind (key_of ring.active_key_id ring.keys) _ _ h in
      ground (
        arith,
        aes.unseal-seal key random.wrap_iv random.dek,
        aes.unseal-seal random.dek random.iv (json.stringify s),
        json.parse-stringify s,
      )

  rewrapped-decrypt :
      (iv : Bytes) (e f : Envelope) (ring : Keyring)
      → rewrapped aes iv e ring ≡ ok f
      → (decrypt_credential aes json f ring ≡ decrypt_credential aes json e ring)
        × (f.key_id ≡ ring.active_key_id)
  unfolding rewrapped decrypt_credential
  rewrapped-decrypt iv e f ring h =
      let (old, known, h1) = or_throw_bind (key_of e.key_id ring.keys) _ _ h in
      let (dek, opened, h2) =
        bind-eq-ok (decrypt_with_key aes e.wrapped_dek e.wrap_iv e.wrap_auth_tag old) _ h1 in
      let (key, active, h3) = or_throw_bind (key_of ring.active_key_id ring.keys) _ _ h2 in
      let opens = aes.unseal-seal key iv dek in ground arith

  -- A credential that is sealed again under the active key names the active key and gives the same
  -- answer as before, secret or error, to whoever has the keyring.
  pub decrypt-rewrap :
      (iv : Bytes) (e f : Envelope) (ring : Keyring)
      → rewrap_credential aes iv e ring ≡ ok f
      → (decrypt_credential aes json f ring ≡ decrypt_credential aes json e ring)
        × (f.key_id ≡ ring.active_key_id)
  unfolding rewrap_credential
  decrypt-rewrap iv e f ring h = elim (Bool-cases (same e.key_id ring.active_key_id)) [
    | inl active ↦
        let unchanged : e ≡ f = ground arith in
        subst
          (λ (f : Envelope).
            (decrypt_credential aes json f ring ≡ decrypt_credential aes json e ring)
            × (f.key_id ≡ ring.active_key_id))
          unchanged (refl, (same_iff e.key_id ring.active_key_id).0 active)
    | inr old ↦ rewrapped-decrypt iv e f ring (ground arith)
  ]
