-- ===== src/Snmp/Tests.antt =====
-- A receiver with one device, whose trap credential holds the user name "ops", and an inform that is
-- sent twice.
use management_app.Base.{ℕ, ◌≡◌, refl, ◌≤◌, arith, List, [], ◌∷◌, ok}
use management_app.Text.{Text, codes}
use management_app.Snmp.Keyring.{Envelope, encrypt_credential, rewrap_credential, key_of}
use management_app.Snmp.Limits.{Settings, current, put, swept, allowed, admit_new}
use management_app.Snmp.Limits.Rate.{Call, accepted, rate_bound}
use management_app.Snmp.Toy.{aes, json, secret, ring, next_ring, random, sealed}

abbrev resealed : Envelope
resealed = record sealed { wrap_iv = 4 ∷ []; wrap_auth_tag = 8 ∷ []; key_id = codes "k2" }

sealing : encrypt_credential aes json random secret ring ≡ ok sealed
unfolding encrypt_credential key_of
sealing = refl

resealing : rewrap_credential aes (4 ∷ []) sealed next_ring ≡ ok resealed
unfolding rewrap_credential key_of
resealing = refl

same_key : key_of (codes "k1") next_ring.keys ≡ key_of (codes "k1") ring.keys
unfolding key_of
same_key = refl

abbrev pub settings : Settings
settings = record { source_limit = 2; rate_limit = 1 }

abbrev call : Text → ℕ → Call
call a t = record { source = a; time = t }

abbrev calls : List Call
calls = call (codes "a") 5 ∷ call (codes "b") 6 ∷ call (codes "a") 7 ∷ []

counted : accepted settings (codes "a") calls [] ≡ 1
unfolding accepted allowed admit_new current put swept
counted = refl

rate_bound_example : accepted settings (codes "a") calls [] ≤ 1
rate_bound_example = rate_bound settings (codes "a") 5 calls [] (omega arith) tt (omega arith)
