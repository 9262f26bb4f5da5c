-- ===== src/Snmp/Limits.antt =====
-- `allowed` of traps.ts: how many notifications a source may send in a minute. The `Map` of the
-- receiver is an association list in the order of insertion; times are milliseconds.
pub mod Rate
pub mod Size
use management_app.Base.{
  ℕ, ◌+◌, ◌-◌, ◌≡◌, Bool, true, false, not, ◌&&◌, Option, none, some, List, [], ◌∷◌, filter, length,
  leb, ltb, if◌then◌else◌,
}
use management_app.Text.{Text}
use management_app.Text.Sets.{same}

pub record Entry : Type 0 where
  pub source : Text
  pub window : ℕ
  pub count : ℕ

abbrev pub Limits : Type 0
Limits = List Entry

-- `SNMP_TRAP_SOURCE_LIMIT` and `SNMP_TRAP_RATE_LIMIT`.
pub record Settings : Type 0 where
  pub source_limit : ℕ
  pub rate_limit : ℕ

abbrev pub is_over : ℕ → Entry → Bool
is_over now e = ltb 60000 (now - e.window)

-- `limits.get(address)`
unfoldable pub current : Text → Limits → Option Entry
current a [] = none
current a (e ∷ es) = if same e.source a then some e else current a es

-- `limits.set(address, …)`: in place, or behind the others.
unfoldable pub put : Entry → Limits → Limits
put n [] = n ∷ []
put n (e ∷ es) = if same e.source n.source then n ∷ es else e ∷ put n es

-- The loop that deletes what is over.
unfoldable pub swept : ℕ → Limits → Limits
swept now = filter (λ e. not (is_over now e))

abbrev pub opened : Text → ℕ → Entry
opened a now = record { source = a; window = now; count = 1 }

abbrev pub open_window : Text → ℕ → Limits → Bool × Limits
open_window a now limits = (true, put (opened a now) limits)

-- A source that is not in the table.
unfoldable pub admit_new : Settings → Text → ℕ → Limits → Bool × Limits
admit_new s a now limits =
    if leb s.source_limit (length limits)
    then if leb s.source_limit (length (swept now limits))
      then (false, swept now limits)
      else open_window a now (swept now limits)
    else open_window a now limits

abbrev pub counted : Entry → Entry
counted e = record e { count = e.count + 1 }

unfoldable pub allowed : Settings → Text → ℕ → Limits → Bool × Limits
allowed s a now limits = elim (current a limits) [
  | none ↦ admit_new s a now limits
  | some e ↦
      if is_over now e
      then open_window a now limits
      else (leb (e.count + 1) s.rate_limit, put (counted e) limits)
]
