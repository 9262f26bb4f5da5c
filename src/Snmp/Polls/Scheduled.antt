-- ===== src/Snmp/Polls/Scheduled.antt =====
-- What becomes of a scheduled job of poll.ts, where reads, writes and Redis may fail.
use management_app.Base.{
  ◌≡◌, refl, sym, ◌⊎◌, inl, inr, arith, Bool, true, false, Option, none, some, Bool-cases,
  Option-cases, Result, ok, err,
}
use mathlib.Core.Path.{subst}
use management_app.Text.{codes}
use management_app.Snmp.Contracts.{Failure, public_error_code, is_public_code}
use management_app.Snmp.Polls.Outcomes.{
  Tried, all_done, stopped, before_drifts, before_end, tried-Tried,
}
use management_app.Snmp.Polls.{
  pending, running, completed, failed, blocked, Status, JobRow, Config, Db, Job, World, write,
  and_then, gave_up, give_up, tried, attempt, locked_run, read_run, run, is_busy, busy, caught,
  is_enabled, ended, scheduled,
}

-- The status of a scheduled job. It ends, or it is left running where its failure cannot be written, or
-- waiting where a read, Redis, the update to RUNNING or the update to BLOCKED fails.
pub data Fate (w : World) (s : Status) : Type 0 where
  closed : (s ≡ completed) ⊎ ((s ≡ failed) ⊎ (s ≡ blocked)) → Fate w s
  stays_running : (e : Failure) → w.faults.failure ≡ some e → s ≡ running → Fate w s
  not_read : (e : Failure) → w.faults.read ≡ some e → s ≡ pending → Fate w s
  no_lock : (e : Failure) → w.lock ≡ err e → s ≡ pending → Fate w s
  not_started : (e : Failure) → w.faults.start ≡ some e → s ≡ pending → Fate w s
  not_blocked : (e : Failure) → w.faults.block ≡ some e → s ≡ pending → Fate w s

abbrev HasFate : World → Db → Type 0
HasFate w db = (r : JobRow) × (db.job ≡ some r) × Fate w r.status

-- A run leaves its job with a fate, or waiting for a device that is busy.
abbrev Runs : World → Db × Option Failure → Type 0
Runs w r =
    HasFate w r.0
    ⊎ ((r.1 ≡ some busy) × (r.0.job ≡ some (record { status = pending; error_code = none })))

busy-is_busy : is_busy busy ≡ true
unfolding public_error_code is_public_code
busy-is_busy = refl

caught-Fate :
    (w : World) (db : Db) (e : Option Failure) → Runs w (db, e) → HasFate w (caught w (db, e)).0
caught-Fate w db none (inl f) = f
caught-Fate w db none (inr (k, _)) = absurd (cc)
caught-Fate w db (some e) h = elim (Bool-cases (is_busy e)) [
  | inr other ↦ rw other (elim h [
    | inl f ↦ f
    | inr (k, _) ↦ let one : e ≡ busy = cc in absurd (cc (other, busy-is_busy))
  ])
  | inl t ↦ rw t (by_block w.faults.block refl h)
]
  where
    by_block :
        (b : Option Failure)
        → w.faults.block ≡ b
        → Runs w (db, some e)
        → HasFate w (write b (ended blocked (some (codes "SNMP_DEVICE_BUSY"))) db).0
    by_block none k r = (_, refl, closed (inr (inr refl)))
    by_block (some x) k (inl f) = f
    by_block (some x) k (inr (_, job)) = (_, job, not_blocked x k refl)

give_up-Fate :
    (w : World) (db : Db) (e : Failure)
    → db.job ≡ some (record { status = running; error_code = none })
    → HasFate w (give_up w (db, some e)).0
unfolding give_up
give_up-Fate w db e job = by_failure w.faults.failure refl
  where
    by_failure :
        (f : Option Failure)
        → w.faults.failure ≡ f
        → HasFate w (and_then (write f (gave_up w e) db) (λ d. (d, some e))).0
    by_failure none k = (_, refl, closed (inr (inl refl)))
    by_failure (some x) k = (_, job, stays_running x k refl)

Tried-Fate :
    (j : Job) (w : World) (c : Config) (db : Db) (r : Db × Option Failure)
    → Tried j w c (ended running none db) r
    → HasFate w (give_up w r).0
unfolding give_up
Tried-Fate j w c db _ (all_done poll _ _ _ _ _ _) = (_, refl, closed (inl refl))
Tried-Fate j w c db _ (stopped e) = give_up-Fate w _ e refl
Tried-Fate j w c db _ (before_drifts poll e _ _) = give_up-Fate w _ e refl
Tried-Fate j w c db _ (before_end poll e _ _) = give_up-Fate w _ e refl

attempt-Fate :
    (j : Job) (w : World) (c : Config) (db : Db)
    → db.job ≡ some (record { status = pending; error_code = none })
    → HasFate w (attempt j w c db).0
unfolding attempt
attempt-Fate j w c db job = by_start w.faults.start refl
  where
    by_start :
        (s : Option Failure)
        → w.faults.start ≡ s
        → HasFate w (and_then (write s (ended running none) db) (λ d. give_up w (tried j w c d))).0
    by_start (some e) k = (_, job, not_started e k refl)
    by_start none k = Tried-Fate j w c db _ (tried-Tried j w c (ended running none db))

locked_run-Runs :
    (j : Job) (w : World) (c : Config) (db : Db)
    → c.enabled ≡ true
    → db.job ≡ some (record { status = pending; error_code = none })
    → Runs w (locked_run j w c db)
unfolding locked_run
locked_run-Runs j w c db on job =
    let e : locked_run j w c db ≡ (elim w.lock [
      | err e ↦ (db, some e)
      | ok false ↦ (db, some busy)
      | ok true ↦ attempt j w c db
    ]) =
      ground arith in
    subst (Runs w) (sym e) (by_lock w.lock refl)
  where
    by_lock :
        (l : Result Failure Bool)
        → w.lock ≡ l
        → Runs w (elim l [
          | err e ↦ (db, some e)
          | ok false ↦ (db, some busy)
          | ok true ↦ attempt j w c db
        ])
    by_lock (err e) k = inl (_, job, no_lock e k refl)
    by_lock (ok false) k = inr (refl, job)
    by_lock (ok true) k = inl (attempt-Fate j w c db job)

read-Runs :
    (j : Job) (w : World) (c : Config) (db : Db)
    → j.is_valid ≡ true
    → c.enabled ≡ true
    → db.config ≡ some c
    → db.job ≡ some (record { status = pending; error_code = none })
    → Runs w (run j w db)
unfolding run read_run
read-Runs j w c db valid on k job = by_read w.faults.read refl
  where
    by_read :
        (f : Option Failure)
        → w.faults.read ≡ f
        → Runs w (and_then (write f (λ d. d) db) (λ d. read_run j w d))
    by_read (some e) h = inl (_, job, not_read e h refl)
    by_read none h =
        let r : read_run j w db ≡ locked_run j w c db = ground arith in
        subst (Runs w) (sym r) (locked_run-Runs j w c db on job)

-- A scheduled job of a device that is enabled and has what it needs ends completed, failed or blocked, the
-- last also where another job holds the lock of the device, wherever the `try` block fails. It stays
-- running only where the failure cannot be written, and waiting only where a read before it starts
-- fails, or Redis, or the update to RUNNING or to BLOCKED.
pub scheduled_ends :
    (j : Job) (w : World) (db : Db)
    → is_enabled db.config ≡ true
    → j.is_valid ≡ true
    → (r : JobRow) × ((scheduled true j w db).0.job ≡ some r) × Fate w r.status
unfolding scheduled
scheduled_ends j w db on valid = elim (Option-cases db.config) [
  | inl k ↦ absurd (ground arith)
  | inr (c, k) ↦
      let start = ended pending none db in
      let is_on : c.enabled ≡ true = ground arith in
      let e : scheduled true j w db ≡ caught w (run j w start) = ground arith in
      subst (λ (x : Db × Option Failure). HasFate w x.0) (sym e)
        (caught-Fate w (run j w start).0 (run j w start).1
          (read-Runs j w c start valid is_on k refl))
]
