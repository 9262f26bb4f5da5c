-- ===== src/Snmp/Locks.antt =====
-- `DeviceLocks` of locks.ts: one job at a time on a device, by a key of Redis that expires. Redis is a
-- parameter; times are milliseconds.
pub mod Exclusive
mod Tests
use management_app.Base.{
  ℕ, ◌+◌, ◌≤◌, ◌≡◌, ◌≢◌, Bool, true, false, Option, none, some, List, [], ◌∷◌, ◌++◌, Elem, ltb,
  if◌then◌else◌, Result, ok, err, or_throw,
}
use management_app.Text.{Text, codes}
use management_app.Text.Sets.{same}
use management_app.Snmp.Contracts.{Failure, coded}

-- The commands that are used: `GET` at a time, `SET key value PX ttl NX`, which answers `none` where it
-- does not set, and `DEL`.
pub record Redis : Type 1 where
  pub Db : Type 0
  pub get : ℕ → Text → Db → Option Text
  pub set_nx : ℕ → Text → Text → ℕ → Db → Option Db
  pub del : Text → Db → Db

-- What Redis documents of them.
pub record IsRedis (redis : Redis) : Type 0 where
  pub free_before_set :
      (now ttl : ℕ) (k v : Text) (db next : redis.Db)
      → redis.set_nx now k v ttl db ≡ some next
      → redis.get now k db ≡ none
  pub get_after_set :
      (now t ttl : ℕ) (j k v : Text) (db next : redis.Db)
      → redis.set_nx now k v ttl db ≡ some next
      → now ≤ t
      → redis.get t j next
        ≡ (if same j k then (if ltb t (now + ttl) then some v else none) else redis.get t j db)
  pub get_after_del :
      (t : ℕ) (j k : Text) (db : redis.Db)
      → redis.get t j (redis.del k db) ≡ (if same j k then none else redis.get t j db)

unfoldable pub lock_key : Text → Text
lock_key device = codes "snmp:device-lock:" ++ device

-- `withLock` before its action.
unfoldable pub acquire : (redis : Redis) → ℕ → Text → Text → ℕ → redis.Db → Result Failure redis.Db
acquire redis now device token ttl db =
    or_throw (redis.set_nx now (lock_key device) token ttl db) (coded (codes "SNMP_DEVICE_BUSY"))

-- The script that `withLock` runs after its action.
unfoldable pub release : (redis : Redis) → ℕ → Text → Text → redis.Db → redis.Db
release redis now device token db = elim (redis.get now (lock_key device) db) [
  | none ↦ db
  | some holder ↦ if same holder token then redis.del (lock_key device) db else db
]

-- An action that runs, and when its lock expires.
pub record Holder : Type 0 where
  pub device : Text
  pub token : Text
  pub until : ℕ

pub record State (redis : Redis) : Type 0 where
  pub db : redis.Db
  pub holders : List Holder
  pub now : ℕ

pub data Step (redis : Redis) : State redis → State redis → Type 0 where
  -- `randomUUID` gives a token that no running action has.
  acquires :
      (s : State redis) (device token : Text) (ttl : ℕ) (db : redis.Db)
      → acquire redis s.now device token ttl s.db ≡ ok db
      → ((h : Holder) → Elem h s.holders → h.token ≢ token)
      → Step redis s (record s {
        db = db;
        holders = record { device = device; token = token; until = s.now + ttl } ∷ s.holders;
      })
  releases :
      (s : State redis) (before after : List Holder) (h : Holder)
      → s.holders ≡ before ++ h ∷ after
      → Step redis s
          (record s { db = release redis s.now h.device h.token s.db; holders = before ++ after })
  -- The script fails, which is ignored, or the worker stops.
  leaves :
      (s : State redis) (before after : List Holder) (h : Holder)
      → s.holders ≡ before ++ h ∷ after
      → Step redis s (record s { holders = before ++ after })
  waits : (s : State redis) (t : ℕ) → s.now ≤ t → Step redis s (record s { now = t })

pub data Reachable (redis : Redis) (db : redis.Db) : State redis → Type 0 where
  at_start : (now : ℕ) → Reachable redis db (record { db = db; holders = []; now = now })
  then_step : {s t : State redis} → Reachable redis db s → Step redis s t → Reachable redis db t
