-- ===== src/Discovery/Comparison/Maps.antt =====
-- The maps by address.
use management_app.Base.{
  ◌≡◌, refl, inl, inr, arith, Option, none, some, List, [], ◌∷◌, Elem, if◌then◌else◌,
}
use management_app.Text.{Text}
use management_app.Text.Sets.{same, same_iff}
use management_app.Discovery.Comparison.{Result, put, by_address, get}

-- The last result of an address in a run.
abbrev pub last : Text → List Result → Option Result
last a [] = none
last a (r ∷ rs) = elim (last a rs) [
  | some x ↦ some x
  | none ↦ if same r.address a then some r else none
]

abbrev or_else : Option Result → Option Result → Option Result
or_else none b = b
or_else (some a) b = some a

get-put :
    (a : Text) (r : Result) (table : List Result)
    → get a (put r table) ≡ (if same r.address a then some r else get a table)
unfolding get put
get-put a r [] = refl
get-put a r (x ∷ table) = ground (
  arith,
  same_iff x.address r.address,
  same_iff x.address a,
  same_iff r.address a,
  get-put a r table,
)

get-by_address_from :
    (a : Text) (table rs : List Result)
    → get a (by_address table rs) ≡ or_else (last a rs) (get a table)
unfolding by_address
get-by_address_from a table [] = refl
get-by_address_from a table (r ∷ rs) =
    ground (arith, get-by_address_from a (put r table) rs, get-put a r table)

-- A map gives the last result of an address.
pub get-by_address : (a : Text) (rs : List Result) → get a (by_address [] rs) ≡ last a rs
unfolding get
get-by_address a rs = ground (arith, get-by_address_from a [] rs)

-- No address twice.
abbrev pub IsMap : List Result → Type 0
IsMap [] = Unit
IsMap (r ∷ rs) = (get r.address rs ≡ none) × IsMap rs

put-IsMap : (r : Result) (table : List Result) → IsMap table → IsMap (put r table)
unfolding put get
put-IsMap r [] h = (refl, tt)
put-IsMap r (x ∷ table) (h, hs) = ground (
  arith,
  same_iff x.address r.address,
  same_iff r.address x.address,
  get-put x.address r table,
  put-IsMap r table hs,
)

pub by_address-IsMap : (table rs : List Result) → IsMap table → IsMap (by_address table rs)
unfolding by_address
by_address-IsMap table [] h = h
by_address-IsMap table (r ∷ rs) h = by_address-IsMap (put r table) rs (put-IsMap r table h)

pub get-Elem :
    (r : Result) (table : List Result) → IsMap table → Elem r table → get r.address table ≡ some r
unfolding get
get-Elem r [] h m = absurd m
get-Elem r (x ∷ table) (h, hs) (inl e) = ground (arith, (same_iff x.address x.address).1 refl)
get-Elem r (x ∷ table) (h, hs) (inr m) =
    ground (arith, same_iff x.address r.address, get-Elem r table hs m)

pub Elem-get :
    (a : Text) (r : Result) (table : List Result)
    → get a table ≡ some r
    → Elem r table × (r.address ≡ a)
unfolding get
Elem-get a r [] h = absurd (cc)
Elem-get a r (x ∷ table) h = ground (arith, same_iff x.address a, Elem-get a r table)
