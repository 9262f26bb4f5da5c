-- ===== src/Snmp/Traps/Steps/Kept.antt =====
-- How a new event and changes of old ones leave the stored events sound.
use management_app.Base.{
  ℕ, ◌≡◌, ◌≢◌, refl, sym, ◌∙◌, inl, inr, arith, Bool, true, false, some, List, [], ◌∷◌, ◌++◌, map,
  any, any-false, All, Elem, Bool-cases, All-append, All-of_Elem, leb, filter,
}
use management_app.Text.{Text}
use management_app.Text.Sets.{same_iff}
use management_app.Snmp.Listeners.{is_text}
use management_app.Snmp.Traps.Store.{Event, State, Varbind}
use management_app.Snmp.Traps.Notifications.{Host, Notification}
use management_app.Snmp.Traps.Association.{Owner, device, enrolled, nobody}
use management_app.Snmp.Traps.Events.{
  event_of, is_repeated, follow_up, insert_event, store_varbinds, has_id,
}
use management_app.Snmp.Traps.Steps.{IsFitting, Apart, AllApart, IsSound}

Apart-sym : (e f : Event) → Apart e f → Apart f e
Apart-sym e f (ids, keys) = ((λ k. ids (sym k)), (λ key a b. keys key b a))

-- Changing fields other than the id and the key.
module _ (change : Event → Event) (ids : (e : Event) → (change e).id ≡ e.id)
    (keys : (e : Event) → (change e).dedup_key ≡ e.dedup_key) where
  Apart-change : (e f : Event) → Apart e f → Apart (change e) (change f)
  Apart-change e f (a, b) =
      ((λ k. a (sym (ids e) ∙ k ∙ ids f)), (λ key p q. b key (sym (keys e) ∙ p) (sym (keys f) ∙ q)))

  All-Apart-map :
      (e : Event) (es : List Event) → All (Apart e) es → All (Apart (change e)) (map change es)
  All-Apart-map e [] h = tt
  All-Apart-map e (f ∷ es) (h, hs) = (Apart-change e f h, All-Apart-map e es hs)

  pub AllApart-map : (es : List Event) → AllApart es → AllApart (map change es)
  AllApart-map [] h = tt
  AllApart-map (e ∷ es) (h, hs) = (All-Apart-map e es h, AllApart-map es hs)

pub All-map :
    (P Q : Event → Type 0) (change : Event → Event)
    → (es : List Event) → ((e : Event) → Elem e es → P e → Q (change e))
    → All P es
    → All Q (map change es)
All-map P Q change [] keep h = tt
All-map P Q change (e ∷ es) keep (h, hs) =
    (keep e (inl refl) h, All-map P Q change es (λ f m. keep f (inr m)) hs)

-- Taking events out.
module _ (keep : Event → Bool) where
  pub All-filter : (P : Event → Type 0) (es : List Event) → All P es → All P (filter keep es)
  All-filter P [] h = tt
  All-filter P (e ∷ es) (h, hs) = elim (Bool-cases (keep e)) [
    | inl k ↦ rw k (h, All-filter P es hs)
    | inr k ↦ rw k (All-filter P es hs)
  ]

  pub AllApart-filter : (es : List Event) → AllApart es → AllApart (filter keep es)
  AllApart-filter [] h = tt
  AllApart-filter (e ∷ es) (h, hs) = elim (Bool-cases (keep e)) [
    | inl k ↦ rw k (All-filter (Apart e) es h, AllApart-filter es hs)
    | inr k ↦ rw k (AllApart-filter es hs)
  ]

-- A new event that repeats none goes behind the others.
All-Apart-new :
    (n : Event) (es : List Event)
    → any (has_id n.id) es ≡ false
    → is_repeated n es ≡ false
    → All (λ e. Apart e n) es
All-Apart-new n es h k = All-of_Elem (λ e. Apart e n) es (λ e m. (ids e m, keys e m))
  where
    ids : (e : Event) → Elem e es → e.id ≢ n.id
    ids e m q =
        let other = any-false (has_id n.id) e es h m in let hit = (same_iff e.id n.id).1 q in cc

    keys : (e : Event) → Elem e es → (key : Text) → e.dedup_key ≡ some key → n.dedup_key ≢ some key
    keys e m key p q =
        let none_has : any (λ (f : Event). is_text key f.dedup_key) es ≡ false = ground arith in
        let miss = any-false (λ (f : Event). is_text key f.dedup_key) e es none_has m in
        let hit = (same_iff key key).1 refl in ground arith

AllApart-snoc :
    (n : Event) (es : List Event) → All (λ e. Apart e n) es → AllApart es → AllApart (es ++ n ∷ [])
AllApart-snoc n [] new h = (tt, tt)
AllApart-snoc n (e ∷ es) (new, news) (h, hs) =
    (All-append (Apart e) es (n ∷ []) h (new, tt), AllApart-snoc n es news hs)

StatusFits-event_of :
    (h : Host) (now : ℕ) (id : Text) (n : Notification) (vs : List Varbind) (owner : Owner)
    → IsFitting (event_of h now id n vs owner)
StatusFits-event_of h now id n vs (device d c) = (refl, refl)
StatusFits-event_of h now id n vs (enrolled mapped e) = (refl, refl, refl)
StatusFits-event_of h now id n vs nobody = (refl, refl, refl, refl)

follow_up-events :
    (taken : Bool) (now : ℕ) (e : Event) (owner : Owner) (s : State)
    → (follow_up taken now e owner s).events ≡ s.events
unfolding follow_up
follow_up-events true now e (device d c) s = refl
follow_up-events false now e (device d c) s = refl
follow_up-events taken now e (enrolled mapped n) s = refl
follow_up-events taken now e nobody s = refl

insert_event-IsSound :
    (taken : Bool) (now : ℕ) (e : Event) (owner : Owner) (s : State)
    → IsFitting e
    → any (has_id e.id) s.events ≡ false
    → IsSound s.events
    → IsSound (insert_event taken now e owner s).events
unfolding insert_event
insert_event-IsSound taken now e owner s fits fresh sound =
    elim (Bool-cases (is_repeated e s.events)) [
      | inl repeated ↦ rw repeated sound
      | inr new ↦ rw new (
          rw (follow_up-events taken now e owner (record s { events = s.events ++ e ∷ [] }))
            (record {
              fitting = All-append IsFitting s.events (e ∷ []) sound.fitting (fits, tt);
              apart = AllApart-snoc e s.events (All-Apart-new e s.events fresh new) sound.apart;
            }))
    ]

pub store_varbinds-IsSound :
    (h : Host) (taken : Bool) (now : ℕ) (id : Text) (n : Notification) (vs : List Varbind)
    (s : State)
    → any (has_id id) s.events ≡ false
    → IsSound s.events
    → IsSound (store_varbinds h taken now id n vs s).events
unfolding store_varbinds
store_varbinds-IsSound h taken now id n vs s fresh sound =
    elim (Bool-cases (leb (h.json_size vs) 32768)) [
      | inl small ↦ rw small (
          insert_event-IsSound taken now (event_of h now id n vs _) _ s
            (StatusFits-event_of h now id n vs _) fresh sound)
      | inr large ↦ rw large sound
    ]
