-- ===== src/Reconsent.antt =====
-- `ReconsentTracker` of src/transport/reconsent-tracker.ts. An entry is reached through the map
-- alone, so an assignment to a field is an update of the map.
pub mod OneShot
mod Tests
use mcp4openapi.Prelude.{
  ℕ, String, Bool, true, false, ◌||◌, none, some, List, [], ◌∷◌, Map, get, set, delete, length, leb,
  map, if◌then◌else◌,
}

pub record Entry : Type 0 where
  pub invalidated : Bool
  pub pending_envelope_reject : Bool

pub record Tracker : Type 0 where
  pub entries : Map Entry
  pub max_entries : ℕ

unfoldable pub is_invalidated : String → Tracker → Bool
is_invalidated key s = elim (get key s.entries) [ none ↦ false | some entry ↦ entry.invalidated ]

abbrev pub drop_first : Map Entry → Map Entry
drop_first [] = []
drop_first ((oldest, entry) ∷ rest) = delete oldest ((oldest, entry) ∷ rest)

-- At capacity the oldest entry goes.
unfoldable pub make_space : Tracker → Tracker
make_space s =
    if leb s.max_entries (length s.entries) then record s { entries = drop_first s.entries } else s

abbrev pub put : String → Entry → Tracker → Tracker
put key entry s = record s { entries = set key entry s.entries }

unfoldable pub mark_invalidated : String → Bool → Tracker → Tracker
mark_invalidated key reject s = elim (get key s.entries) [
  | some existing ↦
      put key
        (record {
          invalidated = true;
          pending_envelope_reject = existing.pending_envelope_reject || reject;
        })
        s
  | none ↦ put key (record { invalidated = true; pending_envelope_reject = reject }) (make_space s)
]

unfoldable pub clear_invalidation : String → Tracker → Tracker
clear_invalidation key s = elim (get key s.entries) [
  | none ↦ s
  | some entry ↦
      if entry.pending_envelope_reject
      then put key (record entry { invalidated = false }) s
      else record s { entries = delete key s.entries }
]

-- The entry behind the flag that is consumed.
unfoldable pub consumed : String → Entry → Tracker → Tracker
consumed key entry s =
    if entry.invalidated
    then put key (record entry { pending_envelope_reject = false }) s
    else record s { entries = delete key s.entries }

unfoldable pub consume_pending_envelope_rejection : String → Tracker → Tracker × Bool
consume_pending_envelope_rejection key s = elim (get key s.entries) [
  | none ↦ (s, false)
  | some entry ↦ if entry.pending_envelope_reject then (consumed key entry s, true) else (s, false)
]

unfoldable pub size : Tracker → ℕ
size s = length s.entries

-- In the order of insertion.
unfoldable pub keys : Tracker → List String
keys s = map (λ entry. entry.0) s.entries
