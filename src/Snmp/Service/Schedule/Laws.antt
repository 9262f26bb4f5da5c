-- ===== src/Snmp/Service/Schedule/Laws.antt =====
-- A device is polled by one scheduler, as its configuration says.
use management_app.Base.{
  ℕ, ◌+◌, ◌*◌, ◌≤◌, ◌<◌, ◌≡◌, ◌≢◌, refl, sym, ap, ◌⊎◌, ◌↔◌, inl, inr, arith, Bool, true, false, not,
  Option, none, some, List, [], ◌∷◌, ◌++◌, find, Elem, Elem-of_filter, Elem-filter, Elem-of_find,
  Elem-append_left, Elem-append_right, Bool-cases, Option-cases, ok,
}
use management_app.Base.HttpError.{bad_request}
use mathlib.Core.Path.{subst}
use native.Mathlib.Nat.{mod-lt}
use management_app.Text.{Text}
use management_app.Text.Sets.{same_iff}
use management_app.Discovery.Networks.{Platform}
use management_app.Snmp.Service.Secrets.{http}
use management_app.Snmp.Service.Exclusive.Rows.{Elem-snoc}
use management_app.Snmp.Service.Schedule.{
  Config, Scheduler, Tables, ConfigDto, or_number, hash, at_least_one, deterministic_jitter,
  most_jitter, is_of, is_on, others, scheduler_of, schedule_config, put_config, row_of, Ending,
  answered, queue_failed, refused, scheduled_or, is_address, saved_and_scheduled, upsert_config,
}

jitter_bound : (device : Text) (most : ℕ) → deterministic_jitter device most < at_least_one most
unfolding deterministic_jitter
jitter_bound device most = mod-lt (hash 0 device) (ground arith)

-- The polls of a device, as they stand in the queue: none where they are disabled; else one scheduler, at
-- the interval of the configuration, that starts within a minute and within a quarter of the interval.
abbrev pub IsPolled : Bool → ℕ → ℕ → Text → Tables → Type 0
IsPolled false minutes now device t = (x : Scheduler) → Elem x t.schedulers → x.device_id ≢ device
IsPolled true minutes now device t =
    (x : Scheduler) × Elem x t.schedulers
    × (x.device_id ≡ device)
    × (x.every ≡ minutes * 60 * 1000)
    × (now ≤ x.start_date)
    × (x.start_date < now + at_least_one (most_jitter minutes))
    × ((y : Scheduler) → Elem y t.schedulers → y.device_id ≡ device → y ≡ x)

not_of :
    (device : Text) (x : Scheduler) (xs : List Scheduler)
    → Elem x (others device xs)
    → Elem x xs × (x.device_id ≢ device)
not_of device x xs m =
    let (n, k) = Elem-of_filter (λ (y : Scheduler). not (is_of device y)) x xs m in
    (n, λ e. let t = (same_iff x.device_id device).1 e in cc)

schedule_config-IsPolled :
    (now : ℕ) (c : Config) (s t : Tables) (answers : Bool)
    → schedule_config answers now c s ≡ some t
    → IsPolled c.enabled c.interval_minutes now c.device_id t
      × ((x : Scheduler) → x.device_id ≢ c.device_id → Elem x t.schedulers ↔ Elem x s.schedulers)
unfolding schedule_config
schedule_config-IsPolled now c s t false h = absurd (cc)
schedule_config-IsPolled now c s t true h = by_enabled c.enabled refl
  where
    x : Scheduler
    x = scheduler_of now c

    back :
        (y : Scheduler)
        → y.device_id ≢ c.device_id
        → Elem y s.schedulers
        → Elem y (others c.device_id s.schedulers)
    back y n m = elim (Bool-cases (is_of c.device_id y)) [
      | inl k ↦ absurd (n ((same_iff y.device_id c.device_id).0 k))
      | inr k ↦
          Elem-filter (λ (z : Scheduler). not (is_of c.device_id z)) y s.schedulers m (rw k refl)
    ]

    only :
        (y : Scheduler)
        → y.device_id ≡ c.device_id
        → (y ≡ x) ⊎ Elem y (others c.device_id s.schedulers)
        → y ≡ x
    only y k (inl e) = e
    only y k (inr m) = absurd ((not_of c.device_id y s.schedulers m).1 k)

    other :
        (y : Scheduler)
        → y.device_id ≢ c.device_id
        → (y ≡ x) ⊎ Elem y (others c.device_id s.schedulers)
        → Elem y s.schedulers
    other y n (inl e) = absurd (n (ap (λ (z : Scheduler). z.device_id) e))
    other y n (inr m) = (not_of c.device_id y s.schedulers m).0

    by_enabled :
        (b : Bool)
        → c.enabled ≡ b
        → IsPolled b c.interval_minutes now c.device_id t
          × ((y : Scheduler)
              → y.device_id ≢ c.device_id
              → Elem y t.schedulers ↔ Elem y s.schedulers)
    by_enabled false e =
        let q : others c.device_id s.schedulers ≡ t.schedulers = ground arith in
        subst
          (λ ys.
            ((y : Scheduler) → Elem y ys → y.device_id ≢ c.device_id)
            × ((y : Scheduler) → y.device_id ≢ c.device_id → Elem y ys ↔ Elem y s.schedulers))
          q
          (
            (λ y m. (not_of c.device_id y s.schedulers m).1),
            (λ y n. ((λ m. (not_of c.device_id y s.schedulers m).0), back y n)),
          )
    by_enabled true e =
        let q : others c.device_id s.schedulers ++ x ∷ [] ≡ t.schedulers = ground arith in
        let bound = jitter_bound c.device_id (most_jitter c.interval_minutes) in
        (
          (
            x,
            subst (Elem x) q
                (Elem-append_right x (others c.device_id s.schedulers) (x ∷ []) (inl refl)),
            refl,
            refl,
            omega arith,
            omega (arith, bound),
            λ y m k.
                only y k
                  (Elem-snoc y x (others c.device_id s.schedulers) (subst (Elem y) (sym q) m)),
          ),
          λ y n. (
            (λ m.
                other y n
                  (Elem-snoc y x (others c.device_id s.schedulers) (subst (Elem y) (sym q) m))),
            (λ m.
                subst (Elem y) q
                  (Elem-append_left y (others c.device_id s.schedulers) (x ∷ []) (back y n m))),
          ),
        )

row-on :
    (id device : Text) (dto : ConfigDto) (cs : List Config)
    → (row_of id device dto (find (is_on device) cs)).device_id ≡ device
row-on id device dto cs = elim (Option-cases (find (is_on device) cs)) [
  | inl e ↦ rw e refl
  | inr (old, e) ↦ rw e ((same_iff old.device_id device).0 (Elem-of_find (is_on device) old cs e).1)
]

row-written :
    (id device : Text) (dto : ConfigDto) (old : Option Config)
    → ((row_of id device dto old).enabled ≡ dto.enabled)
      × ((row_of id device dto old).interval_minutes ≡ or_number dto.interval_minutes 15)
row-written id device dto none = (refl, refl)
row-written id device dto (some old) = (refl, refl)

scheduled-answered :
    (s t : Tables) (o : Option Tables) → scheduled_or s o ≡ (t, answered) → o ≡ some t
scheduled-answered s t none h =
    absurd (let e : queue_failed ≡ answered = ap (λ (x : Tables × Ending). x.1) h in cc)
scheduled-answered s t (some u) h = ap (λ (x : Tables × Ending). some x.0) h

-- A configuration that is accepted decides the polls of its device: none where it is disabled, and else
-- one scheduler at its interval (15 minutes where none is given), that starts within a minute and within
-- a quarter of the interval; the schedulers of other devices stay.
pub upsert_config-IsPolled :
    (js : Platform) (address : Option Text) (answers : Bool) (now : ℕ) (id device : Text)
    (dto : ConfigDto) (s t : Tables)
    → upsert_config js (ok address) answers now id device dto s ≡ (t, answered)
    → IsPolled dto.enabled (or_number dto.interval_minutes 15) now device t
      × ((x : Scheduler) → x.device_id ≢ device → Elem x t.schedulers ↔ Elem x s.schedulers)
unfolding upsert_config saved_and_scheduled
upsert_config-IsPolled js address answers now id device dto s t h =
    elim (Bool-cases (is_address js address)) [
      | inr k ↦
          let no_answer : refused (http (bad_request "SNMP_MANAGEMENT_IP_REQUIRED")) ≡ answered =
            ap (λ (x : Tables × Ending). x.1) (rw k at h) in
          absurd (cc)
      | inl k ↦
          let old = find (is_on device) s.configs in
          let row = row_of id device dto old in
          let saved : Tables = record s { configs = put_config row old s.configs } in
          let done =
            scheduled-answered saved t (schedule_config answers now row saved) (rw k at h) in
          let (enabled, minutes) = row-written id device dto old in
          subst (λ b. Polls b (or_number dto.interval_minutes 15) device) enabled
            (subst (λ m. Polls row.enabled m device) minutes
              (subst (Polls row.enabled row.interval_minutes) (row-on id device dto s.configs)
                (schedule_config-IsPolled now row saved t answers done)))
    ]
  where
    Polls : Bool → ℕ → Text → Type 0
    Polls b m d =
        IsPolled b m now d t
        × ((x : Scheduler) → x.device_id ≢ d → Elem x t.schedulers ↔ Elem x s.schedulers)
