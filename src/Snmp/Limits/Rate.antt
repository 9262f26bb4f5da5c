-- ===== src/Snmp/Limits/Rate.antt =====
-- How many notifications of one source get through within a minute.
use management_app.Base.{
  ℕ, ◌+◌, ◌-◌, ◌≤◌, ◌≡◌, refl, ◌⊎◌, inl, inr, arith, Bool, true, false, ◌&&◌, none, some, List, [],
  ◌∷◌, All, leb, if◌then◌else◌, Bool-cases, Option-cases,
}
use management_app.Text.{Text}
use management_app.Text.Sets.{same, same_iff}
use management_app.Snmp.Limits.{
  Entry, Limits, Settings, is_over, current, put, swept, opened, counted, admit_new, open_window,
  allowed,
}

pub record Call : Type 0 where
  pub source : Text
  pub time : ℕ

-- How many calls of a source are let in.
unfoldable pub accepted : Settings → Text → List Call → Limits → ℕ
accepted s a [] limits = 0
accepted s a (c ∷ cs) limits =
    let (through, next) = allowed s c.source c.time limits in
    (if through && same c.source a then 1 else 0) + accepted s a cs next

current-put_self : (n : Entry) (es : Limits) → current n.source (put n es) ≡ some n
unfolding current put
current-put_self n [] = rw ((same_iff n.source n.source).1 refl) refl
current-put_self n (e ∷ es) =
    ground (arith, (same_iff n.source n.source).1 refl, current-put_self n es)

current-put_ne :
    (a : Text) (n : Entry) (es : Limits)
    → same n.source a ≡ false
    → current a (put n es) ≡ current a es
unfolding current put
current-put_ne a n [] h = rw h refl
current-put_ne a n (e ∷ es) h = ground (
  arith,
  same_iff n.source a,
  same_iff e.source a,
  same_iff e.source n.source,
  current-put_ne a n es h,
)

current-swept :
    (a : Text) (now : ℕ) (e : Entry) (es : Limits)
    → current a es ≡ some e
    → is_over now e ≡ false
    → current a (swept now es) ≡ some e
unfolding current swept
current-swept a now e [] h k = absurd (cc)
current-swept a now e (x ∷ es) h k = ground (arith, current-swept a now e es)

pub current_source : (a : Text) (e : Entry) (es : Limits) → current a es ≡ some e → e.source ≡ a
unfolding current
current_source a e [] h = absurd (cc)
current_source a e (x ∷ es) h = ground (arith, same_iff x.source a, current_source a e es)

module _ (s : Settings) (b : Text) (now : ℕ) where
  allowed_absent : (es : Limits) → current b es ≡ none → allowed s b now es ≡ admit_new s b now es
  unfolding allowed
  allowed_absent es h = ground arith

  allowed_over :
      (e : Entry) (es : Limits)
      → current b es ≡ some e
      → is_over now e ≡ true
      → allowed s b now es ≡ open_window b now es
  unfolding allowed
  allowed_over e es h k = ground arith

  allowed_within :
      (e : Entry) (es : Limits)
      → current b es ≡ some e
      → is_over now e ≡ false
      → allowed s b now es ≡ (leb (e.count + 1) s.rate_limit, put (counted e) es)
  unfolding allowed
  allowed_within e es h k = ground arith

module _ (s : Settings) (a : Text) where
  put_other :
      (b : Text) (n : Entry) (es : Limits)
      → n.source ≡ b
      → same b a ≡ false
      → current a (put n es) ≡ current a es
  put_other b n es e h = current-put_ne a n es (rw e h)

  -- A call of another source leaves an open window as it is.
  allowed_other :
      (b : Text) (now : ℕ) (e : Entry) (es : Limits)
      → same b a ≡ false
      → current a es ≡ some e
      → is_over now e ≡ false
      → current a (allowed s b now es).1 ≡ some e
  unfolding allowed admit_new
  allowed_other b now e es ne h k = elim (Option-cases (current b es)) [
    | inl unknown ↦ ground (
      arith,
      put_other b (opened b now) es,
      put_other b (opened b now) (swept now es),
      current-swept a now e es,
    )
    | inr (f, known) ↦
        ground
          (arith, current_source b f es, put_other b (opened b now) es, put_other b (counted f) es)
  ]

  current-put-counted :
      (e : Entry) (es : Limits)
      → current a es ≡ some e
      → current a (put (counted e) es) ≡ some (counted e)
  current-put-counted e es h = rw (← current_source a e es h) (current-put_self (counted e) es)

  -- In an open window a source gets at most the rest of its rate through.
  within_window :
      (cs : List Call) (e : Entry) (es : Limits)
      → current a es ≡ some e
      → All (λ (c : Call). c.time ≤ e.window + 60000) cs
      → accepted s a cs es ≤ s.rate_limit - e.count
  unfolding accepted
  within_window [] e es h times = omega arith
  within_window (c ∷ cs) e es h (t, times) = elim (Bool-cases (same c.source a)) [
    | inl mine ↦ ground (
      arith,
      same_iff c.source a,
      allowed_within s a c.time e es h,
      current-put-counted e es h,
      within_window cs (counted e) (put (counted e) es),
    )
    | inr other ↦ ground (
      arith,
      allowed_other c.source c.time e es other h,
      within_window cs e (allowed s c.source c.time es).1,
    )
  ]

  -- The windows of the source, if any, are over.
  abbrev pub IsIdle : ℕ → Limits → Type 0
  IsIdle t = All (λ (e : Entry). same e.source a ≡ true → is_over t e ≡ true)

  IsIdle-swept : (t now : ℕ) (es : Limits) → IsIdle t es → IsIdle t (swept now es)
  unfolding swept
  IsIdle-swept t now [] h = tt
  IsIdle-swept t now (e ∷ es) (h, hs) = elim (Bool-cases (is_over now e)) [
    | inl over ↦ rw over (IsIdle-swept t now es hs)
    | inr kept ↦ rw kept (h, IsIdle-swept t now es hs)
  ]

  IsIdle-put :
      (t : ℕ) (n : Entry) (es : Limits)
      → same n.source a ≡ false
      → IsIdle t es
      → IsIdle t (put n es)
  unfolding put
  IsIdle-put t n [] ne h = ((λ k. absurd (cc)), tt)
  IsIdle-put t n (e ∷ es) ne (h, hs) = elim (Bool-cases (same e.source n.source)) [
    | inl hit ↦ rw hit ((λ k. absurd (cc)), hs)
    | inr miss ↦ rw miss (h, IsIdle-put t n es ne hs)
  ]

  current-IsIdle :
      (t : ℕ) (e : Entry) (es : Limits) → IsIdle t es → current a es ≡ some e → is_over t e ≡ true
  unfolding current
  current-IsIdle t e [] h k = absurd (cc)
  current-IsIdle t e (x ∷ es) (h, hs) k = ground (arith, h, current-IsIdle t e es hs)

  IsIdle-allowed_other :
      (b : Text) (t now : ℕ) (es : Limits)
      → same b a ≡ false
      → IsIdle t es
      → IsIdle t (allowed s b now es).1
  unfolding admit_new
  IsIdle-allowed_other b t now es ne h = elim (Option-cases (current b es)) [
    | inl unknown ↦ rw (allowed_absent s b now es unknown) (room _ _)
    | inr (f, known) ↦ elim (Bool-cases (is_over now f)) [
      | inl over ↦ rw (allowed_over s b now f es known over) (IsIdle-put t (opened b now) es ne h)
      | inr within ↦
          rw (allowed_within s b now f es known within)
            (IsIdle-put t (counted f) es (rw (current_source b f es known) ne) h)
    ]
  ]
    where
      after : IsIdle t (swept now es)
      after = IsIdle-swept t now es h

      room :
          (x y : Bool)
          → IsIdle t
              (if x
                then if y then (false, swept now es) else open_window b now (swept now es)
                else open_window b now es).1
      room true true = after
      room true false = IsIdle-put t (opened b now) (swept now es) ne after
      room false y = IsIdle-put t (opened b now) es ne h

  -- A call of an idle source is refused for want of room, or opens a window.
  allowed_idle :
      (t now : ℕ) (es : Limits)
      → t ≤ now
      → IsIdle t es
      → (allowed s a now es ≡ (false, swept now es))
        ⊎ (((allowed s a now es).0 ≡ true)
            × (current a (allowed s a now es).1 ≡ some (opened a now)))
  unfolding admit_new
  allowed_idle t now es le h = elim (Option-cases (current a es)) [
    | inl unknown ↦ rw (allowed_absent s a now es unknown) (room _ _)
    | inr (f, known) ↦
        let over : is_over now f ≡ true = ground (arith, current-IsIdle t f es h known) in
        rw (allowed_over s a now f es known over) (inr (refl, current-put_self (opened a now) es))
  ]
    where
      room :
          (x y : Bool)
          → let next : Bool × Limits =
              if x
              then if y then (false, swept now es) else open_window a now (swept now es)
              else open_window a now es in
            (next ≡ (false, swept now es))
            ⊎ ((next.0 ≡ true) × (current a next.1 ≡ some (opened a now)))
      room true true = inl refl
      room true false = inr (refl, current-put_self (opened a now) (swept now es))
      room false y = inr (refl, current-put_self (opened a now) es)

  abbrev Within : ℕ → Call → Type 0
  Within t c = (t ≤ c.time) × (c.time ≤ t + 60000)

  later :
      (t now : ℕ) (cs : List Call)
      → t ≤ now
      → All (Within t) cs
      → All (λ (c : Call). c.time ≤ now + 60000) cs
  later t now [] le h = tt
  later t now (c ∷ cs) le (h, hs) = (omega arith, later t now cs le hs)

  -- With a rate of at least 1, of a source whose windows are over at a time, at most as many
  -- notifications get through in the 60 seconds from that time on as the rate allows, whatever the
  -- other sources send between.
  pub rate_bound :
      (t : ℕ) (cs : List Call) (es : Limits)
      → 1 ≤ s.rate_limit
      → IsIdle t es
      → All (λ (c : Call). (t ≤ c.time) × (c.time ≤ t + 60000)) cs
      → accepted s a cs es ≤ s.rate_limit
  unfolding accepted
  rate_bound t [] es r h times = omega arith
  rate_bound t (c ∷ cs) es r h (w, times) = elim (Bool-cases (same c.source a)) [
    | inl mine ↦ elim (allowed_idle t c.time es w.0 h) [
      | inl refused ↦ ground (
        arith,
        same_iff c.source a,
        rate_bound t cs (swept c.time es) r (IsIdle-swept t c.time es h) times,
      )
      | inr (through, now_open) ↦ ground (
        arith,
        same_iff c.source a,
        within_window cs (opened a c.time) (allowed s a c.time es).1 now_open,
        later t c.time cs w.0 times,
      )
    ]
    | inr other ↦ ground (
      arith,
      rate_bound t cs (allowed s c.source c.time es).1 r,
      IsIdle-allowed_other c.source t c.time es other h,
    )
  ]
