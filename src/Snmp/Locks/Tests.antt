-- ===== src/Snmp/Locks/Tests.antt =====
-- A small Redis, and two workers on it.
use management_app.Base.{
  ℕ, ◌+◌, ◌≡◌, refl, inl, inr, arith, Option, none, some, List, [], ◌∷◌, Option-cases, ltb,
  if◌then◌else◌, ok, err,
}
use management_app.Text.{Text, codes}
use management_app.Text.Sets.{same, same_iff}
use management_app.Snmp.Contracts.{coded}
use management_app.Snmp.Locks.{
  Redis, IsRedis, acquire, lock_key, release, Holder, acquires, waits, Reachable, at_start,
  then_step,
}
use management_app.Snmp.Locks.Exclusive.{Reachable-IsExclusive}

abbrev Rows : Type 0
Rows = List (Text × Text × ℕ)

abbrev value_at : ℕ → Text → Rows → Option Text
value_at t j [] = none
value_at t j ((k, v, until) ∷ rows) =
    if same j k then (if ltb t until then some v else none) else value_at t j rows

abbrev set_free : ℕ → Text → Text → ℕ → Rows → Option Rows
set_free now k v ttl rows = elim (value_at now k rows) [
  | none ↦ some ((k, v, now + ttl) ∷ rows)
  | some other ↦ none
]

abbrev without : Text → Rows → Rows
without j [] = []
without j ((k, v, until) ∷ rows) =
    let rest = without j rows in if same k j then rest else (k, v, until) ∷ rest

abbrev small : Redis
small = record { Db = Rows; get = value_at; set_nx = set_free; del = without }

after_set :
    (now t ttl : ℕ) (j k v : Text) (rows next : Rows)
    → set_free now k v ttl rows ≡ some next
    → value_at t j next
      ≡ (if same j k then (if ltb t (now + ttl) then some v else none) else value_at t j rows)
after_set now t ttl j k v rows next h = elim (Option-cases (value_at now k rows)) [
  | inl nothing ↦ ground arith
  | inr (other, e) ↦ absurd (ground arith)
]

after_del :
    (t : ℕ) (j k : Text) (rows : Rows)
    → value_at t j (without k rows) ≡ (if same j k then none else value_at t j rows)
after_del t j k [] = ground arith
after_del t j k ((i, v, until) ∷ rows) =
    ground (arith, after_del t j k rows, same_iff i k, same_iff j i, same_iff j k)

small-IsRedis : IsRedis small
small-IsRedis = record {
  free_before_set = λ now ttl k v db next h. ground arith;
  get_after_set = λ now t ttl j k v db next h le. after_set now t ttl j k v db next h;
  get_after_del = after_del;
}

abbrev device : Text
device = codes "d1"

abbrev busy : Rows
busy = (codes "snmp:device-lock:d1", codes "t1", 100) ∷ []

abbrev first_one : Holder
first_one = record { device = device; token = codes "t1"; until = 100 }

second_is_refused :
    acquire small 40 device (codes "t2") 100 busy ≡ err (coded (codes "SNMP_DEVICE_BUSY"))
unfolding acquire lock_key
second_is_refused = refl

after_expiry :
    acquire small 100 device (codes "t2") 100 busy
    ≡ ok ((codes "snmp:device-lock:d1", codes "t2", 200) ∷ busy)
unfolding acquire lock_key
after_expiry = refl

others_lock_stays :
    release small 140 device (codes "t1") ((codes "snmp:device-lock:d1", codes "t2", 200) ∷ busy)
    ≡ (codes "snmp:device-lock:d1", codes "t2", 200) ∷ busy
unfolding release lock_key
others_lock_stays = refl

one_holder : Reachable small [] (record { db = busy; holders = first_one ∷ []; now = 40 })
unfolding acquire lock_key
one_holder =
    then_step
      (then_step (at_start 0) (acquires _ device (codes "t1") 100 busy refl (λ h m. absurd m)))
      (waits _ 40 (omega arith))

Reachable-IsExclusive_example : first_one ≡ first_one
Reachable-IsExclusive_example =
    Reachable-IsExclusive small small-IsRedis []
      (record { db = busy; holders = first_one ∷ []; now = 40 }) one_holder first_one first_one
      (inl refl) (inl refl) refl (omega arith) (omega arith)
