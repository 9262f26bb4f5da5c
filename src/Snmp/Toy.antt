-- ===== src/Snmp/Toy.antt =====
-- A cipher and a notation for secrets that meet the assumptions, with a sealed secret, for the tests.
use management_app.Base.{zero, suc, ◌≡◌, refl, Option, none, some, List, [], ◌∷◌, if◌then◌else◌}
use management_app.Text.{Text, codes}
use management_app.Text.Sets.{same, same_iff}
use management_app.Snmp.Keyring.{Cipher, Json, Secret, Keyring, Envelope, Random, Bytes}

-- A toy cipher: the tag is the key.
abbrev pub unseal : Bytes → Bytes → Bytes → Bytes → Option Bytes
unseal key iv text tag = if same tag key then some text else none

pub unseal_lem : (key iv plain : Bytes) → unseal key iv plain key ≡ some plain
unseal_lem key iv plain = rw ((same_iff key key).1 refl) refl

abbrev pub aes : Cipher
aes = record { seal = λ key iv plain. (plain, key); unseal = unseal; unseal-seal = unseal_lem }

-- A toy notation for secrets: every text ends in a zero.
unfoldable pub pieces : Bytes → List Text
pieces [] = []
pieces (zero ∷ t) = [] ∷ pieces t
pieces (suc c ∷ t) = let rest = pieces t in elim rest [ [] ↦ (c ∷ []) ∷ [] | x ∷ xs ↦ (c ∷ x) ∷ xs ]

unfoldable pub ended : Text → Bytes → Bytes
ended [] r = 0 ∷ r
ended (c ∷ t) r = suc c ∷ ended t r

pieces-ended : (t r : Bytes) → pieces (ended t r) ≡ t ∷ pieces r
unfolding pieces ended
pieces-ended [] r = refl
pieces-ended (c ∷ t) r = rw (pieces-ended t r) refl

unfoldable pub stringify : Secret → Bytes
unfolding ended
stringify [] = []
stringify ((k, x) ∷ s) = ended k (ended x (stringify s))

unfoldable pub paired : List Text → Secret
paired [] = []
paired (k ∷ []) = []
paired (k ∷ x ∷ r) = (k, x) ∷ paired r

unfoldable pub parse : Bytes → Option Secret
unfolding pieces paired
parse b = some (paired (pieces b))

paired-pieces : (s : Secret) → paired (pieces (stringify s)) ≡ s
unfolding pieces paired stringify
paired-pieces [] = refl
paired-pieces ((k, x) ∷ s) =
    rw (pieces-ended k (ended x (stringify s)), pieces-ended x (stringify s), paired-pieces s) refl

pub parse-stringify : (s : Secret) → parse (stringify s) ≡ some s
unfolding parse
parse-stringify s = rw (paired-pieces s) refl

abbrev pub json : Json
json = record { stringify = stringify; parse = parse; parse-stringify = parse-stringify }

abbrev pub secret : Secret
secret = (codes "username", codes "ops") ∷ []

abbrev pub ring : Keyring
ring = record { active_key_id = codes "k1"; keys = (codes "k1", 7 ∷ []) ∷ [] }

abbrev pub next_ring : Keyring
next_ring = record {
  active_key_id = codes "k2";
  keys = (codes "k1", 7 ∷ []) ∷ (codes "k2", 8 ∷ []) ∷ [];
}

abbrev pub random : Random
random = record { dek = 1 ∷ []; iv = 2 ∷ []; wrap_iv = 3 ∷ [] }

abbrev pub sealed : Envelope
sealed = record {
  ciphertext = stringify secret;
  iv = 2 ∷ [];
  auth_tag = 1 ∷ [];
  wrapped_dek = 1 ∷ [];
  wrap_iv = 3 ∷ [];
  wrap_auth_tag = 7 ∷ [];
  key_id = codes "k1";
}
