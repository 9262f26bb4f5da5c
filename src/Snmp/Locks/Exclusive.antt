-- ===== src/Snmp/Locks/Exclusive.antt =====
-- No two actions on a device while the locks of both last.
use management_app.Base.{
  ℕ, ◌+◌, ◌≤◌, ◌<◌, ◌≡◌, ◌≢◌, refl, sym, ◌∙◌, inl, inr, arith, some, List, [], ◌∷◌, ◌++◌, Elem,
  Elem-append_right, Bool-cases, Option-cases, ok,
}
use mathlib.Core.Path.{subst, ap}
use management_app.Text.{Text}
use management_app.Text.Sets.{same, same_iff}
use management_app.Snmp.Locks.{
  Redis, IsRedis, lock_key, acquire, release, Holder, State, Step, acquires, releases, leaves,
  waits, Reachable, at_start, then_step,
}

-- Each action has a token of its own.
abbrev pub IsDistinct : List Holder → Type 0
IsDistinct [] = Unit
IsDistinct (h ∷ hs) = ((g : Holder) → Elem g hs → g.token ≢ h.token) × IsDistinct hs

without-Elem :
    (g h : Holder) (before after : List Holder)
    → Elem g (before ++ after)
    → Elem g (before ++ h ∷ after)
without-Elem g h [] after m = inr m
without-Elem g h (x ∷ before) after (inl e) = inl e
without-Elem g h (x ∷ before) after (inr m) = inr (without-Elem g h before after m)

without-IsDistinct :
    (h : Holder) (before after : List Holder)
    → IsDistinct (before ++ h ∷ after)
    → IsDistinct (before ++ after) × ((g : Holder) → Elem g (before ++ after) → g.token ≢ h.token)
without-IsDistinct h [] after (apart, rest) = (rest, apart)
without-IsDistinct h (x ∷ before) after (apart, rest) =
    let (distinct, others) = without-IsDistinct h before after rest in
    (
      ((λ g m. apart g (without-Elem g h before after m)), distinct),
      (λ g m. elim m [
        | inl e ↦ λ same_token.
            apart h (Elem-append_right h before (h ∷ after) (inl refl))
              (sym same_token ∙ ap (λ o. o.token) e)
        | inr n ↦ others g n
      ]),
    )

module _ (redis : Redis) (laws : IsRedis redis) where
  -- As long as its lock lasts, the key of an action holds its token.
  abbrev pub Keeps : ℕ → redis.Db → Holder → Type 0
  Keeps now db h =
      (t : ℕ) → now ≤ t → t < h.until → redis.get t (lock_key h.device) db ≡ some h.token

  abbrev pub IsSound : State redis → Type 0
  IsSound s = ((h : Holder) → Elem h s.holders → Keeps s.now s.db h) × IsDistinct s.holders

  acquire-set :
      (now ttl : ℕ) (device token : Text) (db next : redis.Db)
      → acquire redis now device token ttl db ≡ ok next
      → redis.set_nx now (lock_key device) token ttl db ≡ some next
  unfolding acquire
  acquire-set now ttl device token db next e =
      elim (Option-cases (redis.set_nx now (lock_key device) token ttl db)) [
        | inl nothing ↦ absurd (ground arith)
        | inr (made, set) ↦ ground arith
      ]

  acquire-Keeps :
      (now ttl : ℕ) (device token : Text) (db next : redis.Db) (h : Holder)
      → acquire redis now device token ttl db ≡ ok next
      → Keeps now db h
      → Keeps now next h
  acquire-Keeps now ttl device token db next h e keeps t le lt =
      let set = acquire-set now ttl device token db next e in
      let k = lock_key h.device in
      let after = laws.get_after_set now t ttl k (lock_key device) token db next set le in
      let free = laws.free_before_set now ttl (lock_key device) token db next set in
      let held : redis.get now k db ≡ some h.token = keeps now (omega arith) (omega arith) in
      elim (Bool-cases (same k (lock_key device))) [
        | inl one ↦
            let one_key : k ≡ lock_key device = (same_iff k (lock_key device)).0 one in absurd (cc)
        | inr two ↦ after ∙ rw two (keeps t le lt)
      ]

  acquire-Keeps_own :
      (now ttl : ℕ) (device token : Text) (db next : redis.Db)
      → acquire redis now device token ttl db ≡ ok next
      → Keeps now next (record { device = device; token = token; until = now + ttl })
  acquire-Keeps_own now ttl device token db next e t le lt =
      let k = lock_key device in
      let after =
        laws.get_after_set now t ttl k k token db next (acquire-set now ttl device token db next e)
          le in
      ground (arith, (same_iff k k).1 refl)

  -- A release leaves every key alone that holds another token.
  release-Keeps :
      (now : ℕ) (device token : Text) (db : redis.Db) (h : Holder)
      → h.token ≢ token
      → Keeps now db h
      → Keeps now (release redis now device token db) h
  unfolding release
  release-Keeps now device token db h apart keeps t le lt =
      let k = lock_key h.device in
      let held : redis.get now k db ≡ some h.token = keeps now (omega arith) (omega arith) in
      let after = laws.get_after_del t k (lock_key device) db in
      let kept = keeps t le lt in
      elim (Option-cases (redis.get now (lock_key device) db)) [
        | inl nothing ↦ ground arith
        | inr (holder, found) ↦ ground (arith, same_iff k (lock_key device), same_iff holder token)
      ]

  without-IsSound :
      (s : State redis) (before after : List Holder) (h : Holder)
      → s.holders ≡ before ++ h ∷ after
      → IsSound s
      → IsSound (record s { holders = before ++ after })
        × ((g : Holder) → Elem g (before ++ after) → g.token ≢ h.token)
  without-IsSound s before after h e (keeps, distinct) =
      let (rest, apart) = without-IsDistinct h before after (subst IsDistinct e distinct) in
      (((λ g m. keeps g (subst (Elem g) (sym e) (without-Elem g h before after m))), rest), apart)

  Step-IsSound : (s t : State redis) → Step redis s t → IsSound s → IsSound t
  Step-IsSound s t (acquires _ device token ttl db e fresh) (keeps, distinct) = (
    (λ h m. elim m [
      | inl own ↦
          subst (Keeps s.now db) (sym own) (acquire-Keeps_own s.now ttl device token s.db db e)
      | inr old ↦ acquire-Keeps s.now ttl device token s.db db h e (keeps h old)
    ]),
    (fresh, distinct),
  )
  Step-IsSound s t (releases _ before after h e) sound =
      let ((keeps, distinct), apart) = without-IsSound s before after h e sound in
      ((λ g m. release-Keeps s.now h.device h.token s.db g (apart g m) (keeps g m)), distinct)
  Step-IsSound s t (leaves _ before after h e) sound = (without-IsSound s before after h e sound).0
  Step-IsSound s t (waits _ later le) (keeps, distinct) =
      ((λ h m u earlier last. keeps h m u (omega arith) last), distinct)

  Reachable-IsSound : (db : redis.Db) (s : State redis) → Reachable redis db s → IsSound s
  Reachable-IsSound db s (at_start now) = ((λ h m. absurd m), tt)
  Reachable-IsSound db s (then_step {s = r} path step) =
      Step-IsSound r s step (Reachable-IsSound db r path)

  same_token_lem :
      (g h : Holder) (hs : List Holder)
      → IsDistinct hs
      → Elem g hs
      → Elem h hs
      → g.token ≡ h.token
      → g ≡ h
  same_token_lem g h [] distinct m n e = absurd m
  same_token_lem g h (x ∷ xs) (apart, distinct) (inl a) (inl b) e = a ∙ sym b
  same_token_lem g h (x ∷ xs) (apart, distinct) (inl a) (inr n) e =
      absurd (apart h n (sym e ∙ ap (λ o. o.token) a))
  same_token_lem g h (x ∷ xs) (apart, distinct) (inr m) (inl b) e =
      absurd (apart g m (e ∙ ap (λ o. o.token) b))
  same_token_lem g h (x ∷ xs) (apart, distinct) (inr m) (inr n) e =
      same_token_lem g h xs distinct m n e

  -- Whatever locks are taken, released, left behind and expire: two actions on one device whose locks
  -- have not expired are the same action.
  pub Reachable-IsExclusive :
      (db : redis.Db) (s : State redis)
      → Reachable redis db s
      → (g h : Holder) → Elem g s.holders
      → Elem h s.holders
      → g.device ≡ h.device
      → s.now < g.until
      → s.now < h.until
      → g ≡ h
  Reachable-IsExclusive db s path g h m n one_device g_lasts h_lasts =
      let (keeps, distinct) = Reachable-IsSound db s path in
      let held_by_g = keeps g m s.now (omega arith) g_lasts in
      let held_by_h = keeps h n s.now (omega arith) h_lasts in
      same_token_lem g h s.holders distinct m n (cc)
