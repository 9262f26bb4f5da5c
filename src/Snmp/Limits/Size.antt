-- ===== src/Snmp/Limits/Size.antt =====
-- The table of sources keeps within its limit.
use management_app.Base.{
  ℕ, ◌+◌, ◌≤◌, ◌≡◌, inl, inr, arith, not, some, List, [], ◌∷◌, length, length-filter-le,
  Option-cases,
}
use management_app.Text.{Text}
use management_app.Snmp.Limits.Rate.{Call, current_source}
use management_app.Snmp.Limits.{
  Entry, Limits, Settings, is_over, current, put, swept, opened, counted, admit_new, allowed,
}

length-put_new : (n : Entry) (es : Limits) → length (put n es) ≤ length es + 1
unfolding put
length-put_new n [] = omega arith
length-put_new n (e ∷ es) = ground (arith, length-put_new n es)

length-put_known :
    (n e : Entry) (es : Limits) → current n.source es ≡ some e → length (put n es) ≡ length es
unfolding put current
length-put_known n e [] h = absurd (cc)
length-put_known n e (x ∷ es) h = ground (arith, length-put_known n e es)

swept-le : (now : ℕ) (es : Limits) → length (swept now es) ≤ length es
unfolding swept
swept-le now es = length-filter-le (λ (e : Entry). not (is_over now e)) es

allowed-le :
    (s : Settings) (a : Text) (now : ℕ) (es : Limits)
    → length es ≤ s.source_limit
    → length (allowed s a now es).1 ≤ s.source_limit
unfolding allowed admit_new
allowed-le s a now es h = elim (Option-cases (current a es)) [
  | inl unknown ↦ ground (
    arith,
    swept-le now es,
    length-put_new (opened a now) es,
    length-put_new (opened a now) (swept now es),
  )
  | inr (e, known) ↦ ground (
    arith,
    current_source a e es known,
    length-put_known (opened a now) e es,
    length-put_known (counted e) e es,
  )
]

-- The table after a sequence of calls.
unfoldable pub after : Settings → List Call → Limits → Limits
after s [] es = es
after s (c ∷ cs) es = after s cs (allowed s c.source c.time es).1

-- The table of sources, empty at the start, never holds more than `SNMP_TRAP_SOURCE_LIMIT` of them,
-- however many sources send notifications.
pub size_bound : (s : Settings) (cs : List Call) → length (after s cs []) ≤ s.source_limit
unfolding after
size_bound s cs = from_within cs [] (omega arith)
  where
    from_within :
        (cs : List Call) (es : Limits)
        → length es ≤ s.source_limit
        → length (after s cs es) ≤ s.source_limit
    from_within [] es h = h
    from_within (c ∷ cs) es h =
        from_within cs (allowed s c.source c.time es).1 (allowed-le s c.source c.time es h)
