-- ===== src/Reconsent/Tests.antt =====
-- A tracker for two subjects.
use mcp4openapi.Prelude.{◌≡◌, refl, true, false, arith, [], ◌∷◌}
use mcp4openapi.Reconsent.{
  Tracker, is_invalidated, mark_invalidated, clear_invalidation, consume_pending_envelope_rejection,
}
use mcp4openapi.Reconsent.OneShot.{IsBounded, rejected_once}

abbrev full : Tracker
full = record {
  entries =
      ("a", record { invalidated = true; pending_envelope_reject = false })
      ∷ ("b", record { invalidated = true; pending_envelope_reject = true })
      ∷ [];
  max_entries = 2;
}

rejected_once_example :
    ((consume_pending_envelope_rejection "c" (mark_invalidated "c" true full)).1 ≡ true)
    × ((consume_pending_envelope_rejection "c"
          (consume_pending_envelope_rejection "c" (mark_invalidated "c" true full)).0).1
        ≡ false)
    × (is_invalidated "c"
          (consume_pending_envelope_rejection "c" (mark_invalidated "c" true full)).0
        ≡ true)
    × ((consume_pending_envelope_rejection "c"
          (clear_invalidation "c" (mark_invalidated "c" true full))).1
        ≡ true)
    × ((consume_pending_envelope_rejection "c"
          (consume_pending_envelope_rejection "c"
            (clear_invalidation "c" (mark_invalidated "c" true full))).0).1
        ≡ false)
    × (is_invalidated "c"
          (consume_pending_envelope_rejection "c"
            (clear_invalidation "c" (mark_invalidated "c" true full))).0
        ≡ false)
rejected_once_example = rejected_once "c" full

full-IsBounded : IsBounded full
unfolding mcp4openapi.Prelude.get
full-IsBounded = record { keys = (refl, (refl, tt)); bound = omega arith }
