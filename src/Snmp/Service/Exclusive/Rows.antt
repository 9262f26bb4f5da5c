-- ===== src/Snmp/Service/Exclusive/Rows.antt =====
-- Rows that come to the vault, go or change: what each asks for the vault to stay unshared.
use management_app.Base.{
  ◌≡◌, ◌≢◌, refl, sym, ◌∙◌, ◌⊎◌, inl, inr, arith, List, [], ◌∷◌, ◌++◌, map, Elem, Elem-append,
  Elem-of_map, Bool-cases, if◌then◌else◌,
}
use mathlib.Core.Path.{subst, ap}
use management_app.Text.{Text}
use management_app.Text.Sets.{same, same_iff}
use management_app.Snmp.Keyring.{Bytes, Cipher, Json, Secret}
use management_app.Snmp.Traps.Store.{Enrollment}
use management_app.Snmp.Service.Secrets.{Credential, Vault}
use management_app.Snmp.Service.Exclusive.{
  Held, of_credential, of_enrollment, Opens, Apart, Apart-sym, IsUnshared,
}

pub Elem-snoc : {A : Type 0} (x a : A) (xs : List A) → Elem x (xs ++ a ∷ []) → (x ≡ a) ⊎ Elem x xs
Elem-snoc x a xs m = elim (Elem-append x xs (a ∷ []) m) [
  | inl old ↦ inr old
  | inr (inl e) ↦ inl e
  | inr (inr nothing) ↦ absurd nothing
]

-- What holds between any two rows, after one has come.
pub pairs-snoc :
    {A : Type 0} (R : A → A → Type 0) (a : A) (xs : List A)
    → R a a
    → ((d : A) → Elem d xs → R a d)
    → ((d : A) → Elem d xs → R d a)
    → ((c d : A) → Elem c xs → Elem d xs → R c d)
    → (c d : A) → Elem c (xs ++ a ∷ [])
    → Elem d (xs ++ a ∷ [])
    → R c d
pairs-snoc R a xs new left right old c d m n = elim (Elem-snoc c a xs m) [
  | inl p ↦ elim (Elem-snoc d a xs n) [
    | inl q ↦ subst (λ x. R x d) (sym p) (subst (R a) (sym q) new)
    | inr q ↦ subst (λ x. R x d) (sym p) (left d q)
  ]
  | inr p ↦ elim (Elem-snoc d a xs n) [
    | inl q ↦ subst (R c) (sym q) (right c p)
    | inr q ↦ old c d p q
  ]
]

module _ (aes : Cipher) (json : Json) (keys : List (Text × Bytes)) where
  -- A row holds no more than another: what opens from it opens from the other, and the name is the same.
  pub record Under (h g : Held) : Type 0 where
    pub secrets : (s : Secret) → Opens aes json keys h.envelope s → Opens aes json keys g.envelope s
    pub name : h.name ≡ g.name

  pub Under-refl : (h g : Held) → h ≡ g → Under h g
  Under-refl h g e = record {
    secrets = λ s o. subst (λ x. Opens aes json keys x.envelope s) e o;
    name = ap (λ (x : Held). x.name) e;
  }

  pub Apart-Under :
      (h g x y : Held) → Under x h → Under y g → Apart aes json keys h g → Apart aes json keys x y
  Apart-Under h g x y u w a = record {
    secrets = λ s p q. a.secrets s (u.secrets s p) (w.secrets s q);
    names = λ n p q. a.names n (sym u.name ∙ p) (sym w.name ∙ q);
  }

  -- Every row comes from a row with its id that held at least as much.
  pub IsUnshared-Under :
      (v w : Vault)
      → ((c d : Credential) → Elem c w.credentials → Elem d w.credentials → c.id ≡ d.id → c ≡ d)
      → ((e f : Enrollment) → Elem e w.enrollments → Elem f w.enrollments → e.id ≡ f.id → e ≡ f)
      → ((c : Credential)
          → Elem c w.credentials
          → (b : Credential) × Elem b v.credentials
            × (c.id ≡ b.id)
            × Under (of_credential c) (of_credential b))
      → ((e : Enrollment)
          → Elem e w.enrollments
          → (b : Enrollment) × Elem b v.enrollments
            × (e.id ≡ b.id)
            × Under (of_enrollment e) (of_enrollment b))
      → IsUnshared aes json keys v
      → IsUnshared aes json keys w
  IsUnshared-Under v w one single from_c from_e u = record {
    one = one;
    single = single;
    credentials = λ c d m n apart.
        let (b, mb, eb, ub) = from_c c m in
        let (a, ma, ea, ua) = from_c d n in
        Apart-Under (of_credential b) (of_credential a) (of_credential c) (of_credential d) ub ua
          (u.credentials b a mb ma (λ e. apart (eb ∙ e ∙ sym ea)));
    across = λ c e m n.
        let (b, mb, eb, ub) = from_c c m in
        let (a, ma, ea, ua) = from_e e n in
        Apart-Under (of_credential b) (of_enrollment a) (of_credential c) (of_enrollment e) ub ua
          (u.across b a mb ma);
    enrollments = λ c d m n apart.
        let (b, mb, eb, ub) = from_e c m in
        let (a, ma, ea, ua) = from_e d n in
        Apart-Under (of_enrollment b) (of_enrollment a) (of_enrollment c) (of_enrollment d) ub ua
          (u.enrollments b a mb ma (λ e. apart (eb ∙ e ∙ sym ea)));
  }

  pub IsUnshared-fewer :
      (v w : Vault)
      → ((c : Credential) → Elem c w.credentials → Elem c v.credentials)
      → ((e : Enrollment) → Elem e w.enrollments → Elem e v.enrollments)
      → IsUnshared aes json keys v
      → IsUnshared aes json keys w
  IsUnshared-fewer v w old_c old_e u =
      IsUnshared-Under v w (λ c d m n. u.one c d (old_c c m) (old_c d n))
        (λ e f m n. u.single e f (old_e e m) (old_e f n))
        (λ c m. (c, old_c c m, refl, Under-refl (of_credential c) (of_credential c) refl))
        (λ e m. (e, old_e e m, refl, Under-refl (of_enrollment e) (of_enrollment e) refl)) u

  pub IsUnshared-add_credential :
      (v : Vault) (a : Credential)
      → ((c : Credential) → Elem c v.credentials → c.id ≢ a.id)
      → ((c : Credential)
          → Elem c v.credentials
          → Apart aes json keys (of_credential a) (of_credential c))
      → ((e : Enrollment)
          → Elem e v.enrollments
          → Apart aes json keys (of_credential a) (of_enrollment e))
      → IsUnshared aes json keys v
      → IsUnshared aes json keys (record v { credentials = v.credentials ++ a ∷ [] })
  IsUnshared-add_credential v a fresh with_c with_e u = record {
    one =
        pairs-snoc (λ c d. c.id ≡ d.id → c ≡ d) a v.credentials (λ e. refl)
          (λ d m e. absurd (fresh d m (sym e))) (λ d m e. absurd (fresh d m e)) u.one;
    single = u.single;
    credentials =
        pairs-snoc (λ c d. c.id ≢ d.id → Apart aes json keys (of_credential c) (of_credential d)) a
          v.credentials (λ apart. absurd (apart refl)) (λ d m apart. with_c d m)
          (λ d m apart. Apart-sym aes json keys (of_credential a) (of_credential d) (with_c d m))
          u.credentials;
    across = λ c e m n. elim (Elem-snoc c a v.credentials m) [
      | inl p ↦ rw p (with_e e n)
      | inr p ↦ u.across c e p n
    ];
    enrollments = u.enrollments;
  }

  pub IsUnshared-add_enrollment :
      (v : Vault) (a : Enrollment)
      → ((e : Enrollment) → Elem e v.enrollments → e.id ≢ a.id)
      → ((c : Credential)
          → Elem c v.credentials
          → Apart aes json keys (of_enrollment a) (of_credential c))
      → ((e : Enrollment)
          → Elem e v.enrollments
          → Apart aes json keys (of_enrollment a) (of_enrollment e))
      → IsUnshared aes json keys v
      → IsUnshared aes json keys (record v { enrollments = v.enrollments ++ a ∷ [] })
  IsUnshared-add_enrollment v a fresh with_c with_e u = record {
    one = u.one;
    single =
        pairs-snoc (λ e f. e.id ≡ f.id → e ≡ f) a v.enrollments (λ e. refl)
          (λ d m e. absurd (fresh d m (sym e))) (λ d m e. absurd (fresh d m e)) u.single;
    credentials = u.credentials;
    across = λ c e m n. elim (Elem-snoc e a v.enrollments n) [
      | inl p ↦ rw p (Apart-sym aes json keys (of_enrollment a) (of_credential c) (with_c c m))
      | inr p ↦ u.across c e m p
    ];
    enrollments =
        pairs-snoc (λ e f. e.id ≢ f.id → Apart aes json keys (of_enrollment e) (of_enrollment f)) a
          v.enrollments (λ apart. absurd (apart refl)) (λ d m apart. with_e d m)
          (λ d m apart. Apart-sym aes json keys (of_enrollment a) (of_enrollment d) (with_e d m))
          u.enrollments;
  }

  module _ (f : Credential → Credential) (id : Text) where
    abbrev pub changed : Credential → Credential
    changed c = if same c.id id then f c else c

    changed_cases :
        (c : Credential) → ((c.id ≡ id) × (changed c ≡ f c)) ⊎ ((c.id ≢ id) × (changed c ≡ c))
    changed_cases c = elim (Bool-cases (same c.id id)) [
      | inl h ↦ inl ((same_iff c.id id).0 h, ground arith)
      | inr h ↦ inr ((λ e. let t = (same_iff c.id id).1 e in cc), ground arith)
    ]

    came :
        (c : Credential) (cs : List Credential)
        → ((b : Credential) → b.id ≡ id → (f b).id ≡ id)
        → Elem c (map changed cs)
        → (b : Credential) × Elem b cs
          × (b.id ≡ c.id)
          × (c ≡ changed b)
          × (((b.id ≡ id) × (c ≡ f b)) ⊎ ((b.id ≢ id) × (c ≡ b)))
    came c cs keeps m =
        let (b, mb, e) = Elem-of_map changed c cs m in
        elim (changed_cases b) [
          | inl (i, p) ↦ (
            b,
            mb,
            i ∙ sym (keeps b i) ∙ ap (λ (x : Credential). x.id) (sym (e ∙ p)),
            e,
            inl (i, e ∙ p),
          )
          | inr (i, p) ↦ (b, mb, ap (λ (x : Credential). x.id) (sym (e ∙ p)), e, inr (i, e ∙ p))
        ]

    -- The rows with one id are changed, and keep it: a row that is changed asks as much as one that comes.
    pub IsUnshared-change :
        (v : Vault)
        → ((b : Credential) → b.id ≡ id → (f b).id ≡ id)
        → ((b c : Credential)
            → Elem b v.credentials
            → b.id ≡ id
            → Elem c v.credentials
            → c.id ≢ id
            → Apart aes json keys (of_credential (f b)) (of_credential c))
        → ((b : Credential) (e : Enrollment)
            → Elem b v.credentials
            → b.id ≡ id
            → Elem e v.enrollments
            → Apart aes json keys (of_credential (f b)) (of_enrollment e))
        → IsUnshared aes json keys v
        → IsUnshared aes json keys (record v { credentials = map changed v.credentials })
    IsUnshared-change v keeps with_c with_e u = record {
      one = λ c d m n e.
          let (b, mb, ib, eb, _) = came c v.credentials keeps m in
          let (a, ma, ia, ea, _) = came d v.credentials keeps n in
          eb ∙ ap changed (u.one b a mb ma (ib ∙ e ∙ sym ia)) ∙ sym ea;
      credentials = λ c d m n apart.
          let (b, mb, ib, _, kb) = came c v.credentials keeps m in
          let (a, ma, ia, _, ka) = came d v.credentials keeps n in
          elim kb [
            | inl (i, p) ↦ elim ka [
              | inl (j, q) ↦ absurd (apart (sym ib ∙ i ∙ sym j ∙ ia))
              | inr (j, q) ↦ rw (p, q) (with_c b a mb i ma j)
            ]
            | inr (i, p) ↦ elim ka [
              | inl (j, q) ↦
                  rw (p, q)
                    (Apart-sym aes json keys (of_credential (f a)) (of_credential b)
                      (with_c a b ma j mb i))
              | inr (j, q) ↦ rw (p, q) (u.credentials b a mb ma (λ e. apart (sym ib ∙ e ∙ ia)))
            ]
          ];
      across = λ c e m n.
          let (b, mb, ib, _, kb) = came c v.credentials keeps m in
          elim kb [ inl (i, p) ↦ rw p (with_e b e mb i n) | inr (i, p) ↦ rw p (u.across b e mb n) ];
      single = u.single;
      enrollments = u.enrollments;
    }
