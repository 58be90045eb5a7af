-- ===== src/Upstream/Queue.antt =====
-- src/upstream/upstream-notification-queue.ts: the bounded queue of notifications that wait for a
-- client to come back. The parameters of a notification are left out.
use mcp4openapi.Prelude.{
  ℕ, ◌-◌, String, Bool, List, [], ◌∷◌, ◌++◌, length, keep, ltb, leb, if◌then◌else◌,
}

pub record Entry : Type 0 where
  pub method : String
  pub timestamp : ℕ

pub record NotificationQueue : Type 0 where
  pub entries : List Entry
  pub max_size : ℕ
  pub ttl_ms : ℕ

-- The queue with the default bounds.
abbrev pub new_queue : NotificationQueue
new_queue = record { entries = []; max_size = 50; ttl_ms = 300000 }

abbrev pub is_fresh : ℕ → ℕ → Entry → Bool
is_fresh now ttl_ms e = ltb (now - e.timestamp) ttl_ms

abbrev pub shift : List Entry → List Entry
shift [] = []
shift (e ∷ es) = es

unfoldable pub push : String → ℕ → NotificationQueue → NotificationQueue
push method now q =
    let kept = keep (is_fresh now q.ttl_ms) q.entries in
    let room = if leb q.max_size (length kept) then shift kept else kept in
    record q { entries = room ++ record { method = method; timestamp = now } ∷ [] }

unfoldable pub drain : ℕ → NotificationQueue → NotificationQueue × List Entry
drain now q = (record q { entries = [] }, keep (is_fresh now q.ttl_ms) q.entries)
