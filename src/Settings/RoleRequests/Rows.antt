-- ===== src/Settings/RoleRequests/Rows.antt =====
-- What holds of the tables of requests and grants, and how a row or a change of rows keeps it.
use management_app.Base.{
  ℕ, ◌≡◌, ◌≢◌, sym, ap, ◌∙◌, inl, inr, arith, String, true, false, not, List, [], ◌∷◌, ◌++◌, map,
  any, ◌==◌, eq_iff, All, Elem, All-append, All-of_Elem, Elem-map, any-false, Bool-cases,
  if◌then◌else◌,
}
use management_app.Collections.Texts.{includes, includes_iff}
use mathlib.Core.Path.{subst}
use management_app.Settings.RoleRequests.{
  Request, Status, pending, processing, approved, rejected, is_active, self_request_roles,
  is_invalid, is_open_of, is_claimable, claimed, is_closable, closed,
}
use management_app.Settings.RoleRequests.Steps.{Grant, Task, granting, finishing, State, grant_of}

-- Every role is one of the three that can be asked for.
abbrev pub AsksAllowed : List String → Type 0
AsksAllowed = All (λ role. Elem role self_request_roles)

-- A request that somebody has decided to look at.
abbrev pub Claimed : List Request → Grant → Type 0
Claimed table g = (r : Request) × Elem r table × (grant_of r ≡ g) × (r.status ≢ pending)

abbrev pub IsGranted : List Grant → String → Type 0
IsGranted granted id = (g : Grant) × Elem g granted × (g.request_id ≡ id)

abbrev pub TaskFits : State → Task → Type 0
TaskFits s (granting reviewer r) = Claimed s.requests (grant_of r)
TaskFits s (finishing reviewer approved id) = IsGranted s.granted id
TaskFits s (finishing reviewer rejected id) = Unit
TaskFits s (finishing reviewer _ id) = ⊥

-- Not both requests are open, if they are of one user.
abbrev pub Alone : Request → Request → Type 0
Alone r q = r.user_id ≡ q.user_id → is_active r.status ≡ true → is_active q.status ≡ false

abbrev pub AllAlone : List Request → Type 0
AllAlone [] = Unit
AllAlone (r ∷ rs) = All (Alone r) rs × AllAlone rs

pub record IsSound (s : State) : Type 0 where
  pub asked : All (λ (r : Request). AsksAllowed r.roles) s.requests
  pub single : AllAlone s.requests
  pub entitled : All (Claimed s.requests) s.granted
  pub fulfilled : All (λ (r : Request). r.status ≡ approved → IsGranted s.granted r.id) s.requests
  pub tasks : All (TaskFits s) s.running

-- A change of rows that leaves the id, the user and the roles, makes no row pending again and opens
-- no closed one.
pub record IsProgress (change : Request → Request) : Type 0 where
  pub same : (r : Request) → grant_of (change r) ≡ grant_of r
  pub onward : (r : Request) → r.status ≢ pending → (change r).status ≢ pending
  pub stays_closed :
      (r : Request) → is_active r.status ≡ false → is_active (change r).status ≡ false

module _ (change : Request → Request) (p : IsProgress change) where
  pub Claimed-map :
      (table : List Request) (g : Grant) → Claimed table g → Claimed (map change table) g
  Claimed-map table g (r, m, e, c) =
      (change r, Elem-map change r table m, p.same r ∙ e, p.onward r c)

  pub asked-map :
      (table : List Request)
      → All (λ (r : Request). AsksAllowed r.roles) table
      → All (λ (r : Request). AsksAllowed r.roles) (map change table)
  asked-map [] h = tt
  asked-map (r ∷ table) (h, hs) =
      (subst AsksAllowed (sym (ap (λ (g : Grant). g.roles) (p.same r))) h, asked-map table hs)

  pub reopens_none : (r : Request) → is_active (change r).status ≡ true → is_active r.status ≡ true
  reopens_none r h = elim (Bool-cases (is_active r.status)) [
    | inl e ↦ e
    | inr e ↦ let closed = p.stays_closed r e in absurd (cc)
  ]

  pub Alone-change : (r q : Request) → Alone r q → Alone (change r) (change q)
  Alone-change r q h users open_r = p.stays_closed q (
      h
        (sym (ap (λ (g : Grant). g.user_id) (p.same r))
          ∙ users
          ∙ ap (λ (g : Grant). g.user_id) (p.same q))
        (reopens_none r open_r))

  pub All-Alone-map :
      (r : Request) (table : List Request)
      → All (Alone r) table
      → All (Alone (change r)) (map change table)
  All-Alone-map r [] h = tt
  All-Alone-map r (q ∷ table) (h, hs) = (Alone-change r q h, All-Alone-map r table hs)

  pub AllAlone-map : (table : List Request) → AllAlone table → AllAlone (map change table)
  AllAlone-map [] h = tt
  AllAlone-map (r ∷ table) (h, hs) = (All-Alone-map r table h, AllAlone-map table hs)

pub All-weaken :
    {A : Type 0} (P Q : A → Type 0) (xs : List A) → ((a : A) → P a → Q a) → All P xs → All Q xs
All-weaken P Q [] f h = tt
All-weaken P Q (x ∷ xs) f (h, hs) = (f x h, All-weaken P Q xs f hs)

pub TaskFits-weaken :
    (s t : State)
    → ((g : Grant) → Claimed s.requests g → Claimed t.requests g)
    → ((id : String) → IsGranted s.granted id → IsGranted t.granted id)
    → (k : Task) → TaskFits s k
    → TaskFits t k
TaskFits-weaken s t f g (granting reviewer r) h = f (grant_of r) h
TaskFits-weaken s t f g (finishing reviewer approved id) h = g id h
TaskFits-weaken s t f g (finishing reviewer pending id) h = h
TaskFits-weaken s t f g (finishing reviewer processing id) h = h
TaskFits-weaken s t f g (finishing reviewer rejected id) h = tt

pub claimed-IsProgress :
    (id reviewer : String) (now : ℕ)
    → IsProgress (λ r. if is_claimable id r then claimed reviewer now r else r)
claimed-IsProgress id reviewer now = record {
  same = λ r. ground arith;
  onward = λ r h. ground arith;
  stays_closed = λ r h. ground arith;
}

-- Of the requests of the id none is pending any more.
pub claimed_status :
    (id reviewer : String) (now : ℕ) (q : Request)
    → (if is_claimable id q then claimed reviewer now q else q).id == id ≡ true
    → (if is_claimable id q then claimed reviewer now q else q).status ≢ pending
claimed_status id reviewer now q named h = ground arith

pub closed-IsProgress :
    (status : Status) (id reviewer : String) (now : ℕ)
    → is_active status ≡ false
    → IsProgress (λ r. if is_closable id r then closed status reviewer now r else r)
closed-IsProgress status id reviewer now h = record {
  same = λ r. ground arith;
  onward = λ r k. ground arith;
  stays_closed = λ r k. ground arith;
}

pub snoc-AllAlone :
    (n : Request) (table : List Request)
    → AllAlone table
    → All (λ r. Alone r n) table
    → AllAlone (table ++ n ∷ [])
snoc-AllAlone n [] h new = (tt, tt)
snoc-AllAlone n (r ∷ table) (h, hs) (new, news) =
    (All-append (Alone r) table (n ∷ []) h (new, tt), snoc-AllAlone n table hs news)

pub Alone-new :
    (n : Request) (table : List Request)
    → any (is_open_of n.user_id) table ≡ false
    → All (λ r. Alone r n) table
Alone-new n table h =
    All-of_Elem (λ r. Alone r n) table
      (λ r m users opened.
        let closed = any-false (is_open_of n.user_id) r table h m in
        let of_user = (eq_iff r.user_id n.user_id).1 users in ground arith)

pub AsksAllowed-valid : (roles : List String) → is_invalid roles ≡ false → AsksAllowed roles
AsksAllowed-valid roles h =
    All-of_Elem (λ role. Elem role self_request_roles) roles
      (λ role m.
        let none_bad : any (λ r. not (includes r self_request_roles)) roles ≡ false =
          ground arith in
        let good = any-false (λ r. not (includes r self_request_roles)) role roles none_bad m in
        (includes_iff role self_request_roles).0 (ground arith))

pub split-All :
    {A : Type 0} (P : A → Type 0) (xs : List A) (y : A) (zs : List A)
    → All P (xs ++ y ∷ zs)
    → All P xs × P y × All P zs
split-All P [] y zs (h, hs) = (tt, h, hs)
split-All P (x ∷ xs) y zs (h, hs) = let (a, b, c) = split-All P xs y zs hs in ((h, a), b, c)
