-- ===== src/Snmp/Polls/Outcomes.antt =====
-- What a run of poll.ts leaves behind, where the database and Redis may fail at any write.
use management_app.Base.{
  ◌+◌, ◌*◌, ◌≡◌, ◌≢◌, refl, sym, ◌⊎◌, inl, inr, arith, Bool, true, false, Option, none, some, [],
  ◌∷◌, ◌++◌, Bool-cases, Result, ok, err,
}
use mathlib.Core.Path.{subst}
use management_app.Text.{Text, codes}
use management_app.Snmp.Contracts.{Failure, plain}
use management_app.Snmp.Polls.Drifts.{Poll, by_name, replace_drifts}
use management_app.Snmp.Polls.{
  running, completed, failed, blocked, JobRow, Config, Db, Job, World, snapshot_of, write, and_then,
  with_snapshot, with_drifts, finished, store, gave_up, give_up, tried, attempt, not_enabled,
  locked_run, read_run, run, busy, ended,
}

-- All that a poll needs is there, and no write fails.
pub record Answers (j : Job) (w : World) (db : Db) (c : Config) (poll : Poll) : Type 0 where
  pub valid : j.is_valid ≡ true
  pub configured : db.config ≡ some c
  pub enabled : c.enabled ≡ true
  pub lock : w.lock ≡ ok true
  pub session : w.session ≡ ok tt
  pub polled : w.polled ≡ ok poll
  pub start : w.faults.start ≡ none
  pub interfaces : w.faults.interfaces ≡ none
  pub snapshot : w.faults.snapshot ≡ none
  pub drifts : w.faults.drifts ≡ none
  pub finish : w.faults.finish ≡ none

-- A job that is completed, with what it has found.
abbrev pub Stores : Job → World → Db → Config → Poll → Db → Type 0
Stores j w db c poll next =
    (next.job ≡ some (record { status = completed; error_code = none }))
    × (next.snapshots ≡ db.snapshots ++ snapshot_of j w poll db ∷ [])
    × (next.drifts
        ≡ replace_drifts j.device w.snapshot_id j.hostname w.lower (by_name w.lower db.documented)
            poll db.drifts)
    × (next.config
        ≡ some (record c {
          last_poll_at = some w.now;
          next_poll_at = some (w.now + c.interval_minutes * 60 * 1000);
          last_status = some completed;
          last_error_code = none;
        }))

-- Nothing is found; or the device has answered, and the snapshot stays, since the drifts could not be
-- written, or it stays with the drifts, since the end could not.
pub data Finds (j : Job) (w : World) (db next : Db) : Type 0 where
  nothing : next.snapshots ≡ db.snapshots → next.drifts ≡ db.drifts → Finds j w db next
  snapshot_only :
      (poll : Poll) (e : Failure)
      → w.polled ≡ ok poll
      → w.faults.drifts ≡ some e
      → next.snapshots ≡ db.snapshots ++ snapshot_of j w poll db ∷ []
      → next.drifts ≡ db.drifts
      → Finds j w db next
  unfinished :
      (poll : Poll) (e : Failure)
      → w.polled ≡ ok poll
      → w.faults.finish ≡ some e
      → next.snapshots ≡ db.snapshots ++ snapshot_of j w poll db ∷ []
      → next.drifts
        ≡ replace_drifts j.device w.snapshot_id j.hostname w.lower
            (by_name w.lower db.documented)
            poll
            db.drifts
      → Finds j w db next

-- The job is as it was, or failed or blocked with an error code; or it is left running, where not even the
-- failure could be written.
pub data Leaves (w : World) (db next : Db) : Type 0 where
  as_it_was : next.job ≡ db.job → Leaves w db next
  with_code :
      (r : JobRow)
      → next.job ≡ some r
      → (r.status ≡ failed) ⊎ (r.status ≡ blocked)
      → r.error_code ≢ none
      → Leaves w db next
  left_running :
      (e : Failure)
      → w.faults.failure ≡ some e
      → next.job ≡ some (record { status = running; error_code = none })
      → Leaves w db next

-- How the `try` block can end.
pub data Tried (j : Job) (w : World) (c : Config) (db : Db) : Db × Option Failure → Type 0 where
  all_done :
      (poll : Poll)
      → w.session ≡ ok tt
      → w.polled ≡ ok poll
      → w.faults.interfaces ≡ none
      → w.faults.snapshot ≡ none
      → w.faults.drifts ≡ none
      → w.faults.finish ≡ none
      → Tried j w c db (finished w c (with_drifts j w poll (with_snapshot j w poll db)), none)
  stopped : (e : Failure) → Tried j w c db (db, some e)
  before_drifts :
      (poll : Poll) (e : Failure)
      → w.polled ≡ ok poll
      → w.faults.drifts ≡ some e
      → Tried j w c db (with_snapshot j w poll db, some e)
  before_end :
      (poll : Poll) (e : Failure)
      → w.polled ≡ ok poll
      → w.faults.finish ≡ some e
      → Tried j w c db (with_drifts j w poll (with_snapshot j w poll db), some e)

store-Tried :
    (j : Job) (w : World) (c : Config) (db : Db) (poll : Poll)
    → w.session ≡ ok tt
    → w.polled ≡ ok poll
    → Tried j w c db (store j w c poll db)
unfolding store
store-Tried j w c db poll session polled =
    by_faults w.faults.interfaces w.faults.snapshot w.faults.drifts w.faults.finish refl refl refl
      refl
  where
    by_faults :
        (i s d f : Option Failure)
        → w.faults.interfaces ≡ i
        → w.faults.snapshot ≡ s
        → w.faults.drifts ≡ d
        → w.faults.finish ≡ f
        → Tried j w c db (
            and_then (write i (λ x. x) db) (λ x.
              and_then
                (write s (with_snapshot j w poll) x)
                (λ y. and_then (write d (with_drifts j w poll) y) (λ z. write f (finished w c) z))))
    by_faults (some e) s d f _ _ _ _ = stopped e
    by_faults none (some e) d f _ _ _ _ = stopped e
    by_faults none none (some e) f _ _ p _ = before_drifts poll e polled p
    by_faults none none none (some e) _ _ _ p = before_end poll e polled p
    by_faults none none none none p q r s = all_done poll session polled p q r s

pub tried-Tried : (j : Job) (w : World) (c : Config) (db : Db) → Tried j w c db (tried j w c db)
unfolding tried
tried-Tried j w c db = by_session w.session refl
  where
    by_polled :
        (p : Result Failure Poll)
        → w.session ≡ ok tt
        → w.polled ≡ p
        → Tried j w c db (elim p [ err e ↦ (db, some e) | ok poll ↦ store j w c poll db ])
    by_polled (err e) _ _ = stopped e
    by_polled (ok poll) s k = store-Tried j w c db poll s k

    by_session :
        (s : Result Failure (Unit {0}))
        → w.session ≡ s
        → Tried j w c db (elim s [
          | err e ↦ (db, some e)
          | ok open_session ↦ elim w.polled [ err e ↦ (db, some e) | ok poll ↦ store j w c poll db ]
        ])
    by_session (err e) _ = stopped e
    by_session (ok tt) k = by_polled w.polled k refl

-- How a run can end.
pub data Ends (j : Job) (w : World) (db : Db) : Db × Option Failure → Type 0 where
  completes :
      (c : Config) (poll : Poll) (next : Db)
      → Answers j w db c poll
      → Stores j w db c poll next
      → Ends j w db (next, none)
  stops :
      (next : Db) (e : Option Failure)
      → Finds j w db next
      → Leaves w db next
      → Ends j w db (next, e)

-- The tables after the `try` block, where an error was thrown in it.
given-up :
    (j : Job) (w : World) (db next : Db) (e : Failure) (f : Option Failure)
    → w.faults.failure ≡ f
    → next.job ≡ some (record { status = running; error_code = none })
    → Finds j w db next
    → Finds j w db (gave_up w e next)
    → Ends j w db (and_then (write f (gave_up w e) next) (λ d. (d, some e)))
given-up j w db next e (some x) k run_row old new =
    stops next (some x) old (left_running x k run_row)
given-up j w db next e none k run_row old new =
    stops (gave_up w e next) (some e) new (with_code _ refl (inl refl) (λ q. absurd (cc)))

module _ (j : Job) (w : World) (db : Db) (c : Config) (valid : j.is_valid ≡ true)
    (configured : db.config ≡ some c) (on : c.enabled ≡ true) (free : w.lock ≡ ok true) where
  give_up-Ends :
      (r : Db × Option Failure)
      → w.faults.start ≡ none
      → Tried j w c (ended running none db) r
      → Ends j w db (give_up w r)
  unfolding give_up
  give_up-Ends _ s (all_done poll session polled p q r f) =
      completes c poll _
        (record {
          valid = valid;
          configured = configured;
          enabled = on;
          lock = free;
          session = session;
          polled = polled;
          start = s;
          interfaces = p;
          snapshot = q;
          drifts = r;
          finish = f;
        })
        (refl, refl, refl, rw configured refl)
  give_up-Ends _ s (stopped e) =
      given-up j w db _ e w.faults.failure refl refl (nothing refl refl) (nothing refl refl)
  give_up-Ends _ s (before_drifts poll e p d) =
      given-up j w db _ e w.faults.failure refl refl (snapshot_only poll e p d refl refl)
        (snapshot_only poll e p d refl refl)
  give_up-Ends _ s (before_end poll e p f) =
      given-up j w db _ e w.faults.failure refl refl (unfinished poll e p f refl refl)
        (unfinished poll e p f refl refl)

  attempt-Ends : Ends j w db (attempt j w c db)
  unfolding attempt
  attempt-Ends = by_start w.faults.start refl
    where
      by_start :
          (s : Option Failure)
          → w.faults.start ≡ s
          → Ends j w db
              (and_then (write s (ended running none) db) (λ d. give_up w (tried j w c d)))
      by_start (some e) k = stops db (some e) (nothing refl refl) (as_it_was refl)
      by_start none k = give_up-Ends _ k (tried-Tried j w c (ended running none db))

blocked-Ends :
    (j : Job) (w : World) (db : Db) (code : Text) (b : Option Failure)
    → Ends j w db (write b (ended blocked (some code)) db)
blocked-Ends j w db code (some e) = stops db (some e) (nothing refl refl) (as_it_was refl)
blocked-Ends j w db code none =
    stops _ none (nothing refl refl) (with_code _ refl (inr refl) (λ q. absurd (cc)))

read_run_cases : (j : Job) (w : World) (db : Db) → Ends j w db (read_run j w db)
unfolding read_run locked_run
read_run_cases j w db = by_valid j.is_valid refl
  where
    by_lock :
        (c : Config) (l : Result Failure Bool)
        → j.is_valid ≡ true
        → db.config ≡ some c
        → c.enabled ≡ true
        → w.lock ≡ l
        → Ends j w db (elim l [
          | err e ↦ (db, some e)
          | ok false ↦ (db, some busy)
          | ok true ↦ attempt j w c db
        ])
    by_lock c (err e) v k o l = stops db (some e) (nothing refl refl) (as_it_was refl)
    by_lock c (ok false) v k o l = stops db (some busy) (nothing refl refl) (as_it_was refl)
    by_lock c (ok true) v k o l = attempt-Ends j w db c v k o l

    by_config :
        (o : Option Config)
        → j.is_valid ≡ true
        → db.config ≡ o
        → Ends j w db (elim o [ none ↦ not_enabled w db | some c ↦ locked_run j w c db ])
    by_config none v k = blocked-Ends j w db _ w.faults.block
    by_config (some c) v k = elim (Bool-cases c.enabled) [
      | inr off ↦ rw (off, locked_run) (blocked-Ends j w db _ w.faults.block)
      | inl on ↦ rw (on, locked_run) (by_lock c w.lock v k on refl)
    ]

    by_valid : (v : Bool) → j.is_valid ≡ v → Ends j w db (read_run j w db)
    by_valid true k =
        let e : read_run j w db
            ≡ (elim db.config [ none ↦ not_enabled w db | some c ↦ locked_run j w c db ]) =
          ground arith in
        subst (Ends j w db) (sym e) (by_config db.config k refl)
    by_valid false k =
        let e : read_run j w db ≡ (db, some (plain (codes "SNMP_JOB_INVALID"))) = ground arith in
        subst (Ends j w db) (sym e) (stops db _ (nothing refl refl) (as_it_was refl))

pub run_cases : (j : Job) (w : World) (db : Db) → Ends j w db (run j w db)
unfolding run
run_cases j w db = by_read w.faults.read
  where
    by_read :
        (f : Option Failure) → Ends j w db (and_then (write f (λ d. d) db) (λ d. read_run j w d))
    by_read none = read_run_cases j w db
    by_read (some e) = stops db (some e) (nothing refl refl) (as_it_was refl)
