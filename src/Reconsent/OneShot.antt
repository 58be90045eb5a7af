-- ===== src/Reconsent/OneShot.antt =====
-- The two flags of a subject, and the bound on the entries.
use mcp4openapi.Prelude.{
  ◌+◌, ◌≡◌, ◌≤◌, ◌<◌, refl, ◌∙◌, ap, inl, inr, String, Bool, true, false, ◌||◌, Option, none, some,
  [], ◌∷◌, Map, get, set, delete, Distinct, length, leb, arith, Option-cases, Bool-cases,
  get-set_self, get-delete_self, set-Distinct, delete-Distinct, length-set_new, length-set_old,
  length-delete-le, length-delete, eq_iff,
}
use mcp4openapi.Reconsent.{
  Entry, Tracker, is_invalidated, drop_first, make_space, put, mark_invalidated, clear_invalidation,
  consumed, consume_pending_envelope_rejection,
}

module _ (key : String) where
  marked :
      (s : Tracker)
      → get key (mark_invalidated key true s).entries
        ≡ some (record { invalidated = true; pending_envelope_reject = true })
  unfolding mark_invalidated
  marked s = elim (Option-cases (get key s.entries)) [
    | inl new ↦ rw (new, mark_invalidated) (get-set_self key _ (make_space s).entries)
    | inr (entry, old) ↦
        rw (old, mark_invalidated)
          (get-set_self key _ s.entries ∙ ap some (armed entry.pending_envelope_reject))
  ]
    where
      armed :
          (b : Bool)
          → ◌≡◌ {A = Entry}
              (record { invalidated = true; pending_envelope_reject = b || true })
              (record { invalidated = true; pending_envelope_reject = true })
      armed true = refl
      armed false = refl

  -- What is left of an entry that was armed.
  abbrev left : Bool → Option Entry
  left true = some (record { invalidated = true; pending_envelope_reject = false })
  left false = none

  consumed_lem :
      (i : Bool) (t : Tracker)
      → get key
          (consumed key (record { invalidated = i; pending_envelope_reject = true }) t).entries
        ≡ left i
  unfolding consumed
  consumed_lem true t = get-set_self key _ t.entries
  consumed_lem false t = get-delete_self key t.entries

  consume_left :
      (i : Bool) (t : Tracker)
      → get key t.entries ≡ left i
      → ((consume_pending_envelope_rejection key t).1 ≡ false) × (is_invalidated key t ≡ i)
  unfolding consume_pending_envelope_rejection is_invalidated
  consume_left true t h =
      (rw (h, consume_pending_envelope_rejection) refl, rw (h, is_invalidated) refl)
  consume_left false t h =
      (rw (h, consume_pending_envelope_rejection) refl, rw (h, is_invalidated) refl)

  armed_lem :
      (i : Bool) (t : Tracker)
      → get key t.entries ≡ some (record { invalidated = i; pending_envelope_reject = true })
      → ((consume_pending_envelope_rejection key t).1 ≡ true)
        × ((consume_pending_envelope_rejection key (consume_pending_envelope_rejection key t).0).1
            ≡ false)
        × (is_invalidated key (consume_pending_envelope_rejection key t).0 ≡ i)
  unfolding consume_pending_envelope_rejection
  armed_lem i t h =
      let spent : (consume_pending_envelope_rejection key t).0 ≡ consumed key _ t =
        rw (h, consume_pending_envelope_rejection) refl in
      let rest =
        consume_left i _ (ap (λ (u : Tracker). get key u.entries) spent ∙ consumed_lem i t) in
      (rw (h, consume_pending_envelope_rejection) refl, rest.0, rest.1)

  cleared_lem :
      (t : Tracker)
      → get key t.entries ≡ some (record { invalidated = true; pending_envelope_reject = true })
      → get key (clear_invalidation key t).entries
        ≡ some (record { invalidated = false; pending_envelope_reject = true })
  unfolding clear_invalidation
  cleared_lem t h = rw (h, clear_invalidation) (get-set_self key _ t.entries)

  -- Once a subject is marked with a rejection armed, the rejection is given exactly once, and it
  -- leaves the subject invalidated; a satisfied consent check in between resets the invalidation
  -- and keeps the rejection, again for exactly one use.
  pub rejected_once :
      (s : Tracker)
      → let t = mark_invalidated key true s in
        let u = clear_invalidation key t in
        ((consume_pending_envelope_rejection key t).1 ≡ true)
        × ((consume_pending_envelope_rejection key (consume_pending_envelope_rejection key t).0).1
            ≡ false)
        × (is_invalidated key (consume_pending_envelope_rejection key t).0 ≡ true)
        × ((consume_pending_envelope_rejection key u).1 ≡ true)
        × ((consume_pending_envelope_rejection key (consume_pending_envelope_rejection key u).0).1
            ≡ false)
        × (is_invalidated key (consume_pending_envelope_rejection key u).0 ≡ false)
  rejected_once s =
      let (a, b, c) = armed_lem true (mark_invalidated key true s) (marked s) in
      let (d, e, f) =
        armed_lem false (clear_invalidation key (mark_invalidated key true s))
          (cleared_lem (mark_invalidated key true s) (marked s)) in
      (a, b, c, d, e, f)

-- The keys differ and the entries are within the limit.
pub record IsBounded (s : Tracker) : Type 0 where
  pub keys : Distinct s.entries
  pub bound : length s.entries ≤ s.max_entries

drop_first-Distinct : (m : Map Entry) → Distinct m → Distinct (drop_first m)
drop_first-Distinct [] d = d
drop_first-Distinct ((k, e) ∷ m) d = delete-Distinct k ((k, e) ∷ m) d

length-drop_first :
    (m : Map Entry) → Distinct m → 0 < length m → length (drop_first m) + 1 ≡ length m
unfolding get
length-drop_first [] d h = absurd (omega arith)
length-drop_first ((k, e) ∷ m) d h = length-delete k e ((k, e) ∷ m) d (ground (arith, eq_iff k k))

length-set-le : (k : String) (e : Entry) (m : Map Entry) → length (set k e m) ≤ length m + 1
length-set-le k e m = elim (Option-cases (get k m)) [
  | inl new ↦ omega (arith, length-set_new k e m new)
  | inr (f, old) ↦ omega (arith, length-set_old k e f m old)
]

make_space-Distinct : (s : Tracker) → Distinct s.entries → Distinct (make_space s).entries
unfolding make_space
make_space-Distinct s d = elim (Bool-cases (leb s.max_entries (length s.entries))) [
  | inl full ↦ rw (full, make_space) (drop_first-Distinct s.entries d)
  | inr free ↦ rw (free, make_space) d
]

length-make_space :
    (s : Tracker)
    → Distinct s.entries
    → length s.entries ≤ s.max_entries
    → 0 < s.max_entries
    → length (make_space s).entries + 1 ≤ s.max_entries
unfolding make_space
length-make_space s d h room = elim (Bool-cases (leb s.max_entries (length s.entries))) [
  | inl full ↦
      let nonempty : 0 < length s.entries = ground arith in
      rw (full, make_space) (omega (arith, length-drop_first s.entries d nonempty, h))
  | inr free ↦ rw (free, make_space) (ground arith)
]

make_space_max : (s : Tracker) → (make_space s).max_entries ≡ s.max_entries
unfolding make_space
make_space_max s = elim (Bool-cases (leb s.max_entries (length s.entries))) [
  | inl full ↦ rw (full, make_space) refl
  | inr free ↦ rw (free, make_space) refl
]

put-IsBounded :
    (key : String) (e f : Entry) (s : Tracker)
    → get key s.entries ≡ some f
    → IsBounded s
    → IsBounded (put key e s)
put-IsBounded key e f s h v = record {
  keys = set-Distinct key e s.entries v.keys;
  bound = omega (arith, length-set_old key e f s.entries h, v.bound);
}

delete-IsBounded :
    (key : String) (s : Tracker)
    → IsBounded s
    → IsBounded (record s { entries = delete key s.entries })
delete-IsBounded key s v = record {
  keys = delete-Distinct key s.entries v.keys;
  bound = omega (arith, length-delete-le key s.entries, v.bound);
}

mark_invalidated-IsBounded :
    (key : String) (reject : Bool) (s : Tracker)
    → 0 < s.max_entries
    → IsBounded s
    → IsBounded (mark_invalidated key reject s)
unfolding mark_invalidated
mark_invalidated-IsBounded key reject s room v = elim (Option-cases (get key s.entries)) [
  | inr (e, old) ↦ rw (old, mark_invalidated) (put-IsBounded key _ e s old v)
  | inl new ↦
      rw (new, mark_invalidated)
        (record {
          keys = set-Distinct key _ (make_space s).entries (make_space-Distinct s v.keys);
          bound = omega (
            arith,
            length-set-le key _ (make_space s).entries,
            length-make_space s v.keys v.bound room,
            make_space_max s,
          );
        })
]

clear_invalidation-IsBounded :
    (key : String) (s : Tracker) → IsBounded s → IsBounded (clear_invalidation key s)
unfolding clear_invalidation
clear_invalidation-IsBounded key s v = elim (Option-cases (get key s.entries)) [
  | inl new ↦ rw (new, clear_invalidation) v
  | inr (e, old) ↦ elim (Bool-cases e.pending_envelope_reject) [
    | inl armed ↦ rw (old, clear_invalidation) (rw armed (put-IsBounded key _ e s old v))
    | inr bare ↦ rw (old, clear_invalidation) (rw bare (delete-IsBounded key s v))
  ]
]

consume-IsBounded :
    (key : String) (s : Tracker)
    → IsBounded s
    → IsBounded (consume_pending_envelope_rejection key s).0
unfolding consume_pending_envelope_rejection consumed
consume-IsBounded key s v = elim (Option-cases (get key s.entries)) [
  | inl new ↦ rw (new, consume_pending_envelope_rejection) v
  | inr (e, old) ↦ elim (Bool-cases e.pending_envelope_reject) [
    | inr bare ↦ rw (old, consume_pending_envelope_rejection) (rw bare v)
    | inl armed ↦ elim (Bool-cases e.invalidated) [
      | inl on ↦
          rw (old, consume_pending_envelope_rejection)
            (rw (armed, on) (put-IsBounded key _ e s old v))
      | inr off ↦
          rw (old, consume_pending_envelope_rejection) (rw (armed, off) (delete-IsBounded key s v))
    ]
  ]
]

-- Each operation keeps the keys distinct and the entries within a positive limit.
pub operations-IsBounded :
    (key : String) (reject : Bool) (s : Tracker)
    → 0 < s.max_entries
    → IsBounded s
    → IsBounded (mark_invalidated key reject s)
      × IsBounded (clear_invalidation key s)
      × IsBounded (consume_pending_envelope_rejection key s).0
operations-IsBounded key reject s room v = (
  mark_invalidated-IsBounded key reject s room v,
  clear_invalidation-IsBounded key s v,
  consume-IsBounded key s v,
)
