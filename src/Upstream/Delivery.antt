-- ===== src/Upstream/Delivery.antt =====
-- What a client gets that comes back: the notifications that came for its session since then.
use mcp4openapi.Prelude.{
  ℕ, ◌+◌, ◌-◌, ◌≤◌, ◌<◌, ◌≡◌, refl, ap, sym, ◌∙◌, subst, String, Bool, true, false, List, [], ◌∷◌,
  ◌++◌, map, length, length-append, keep, All, lt→ltb, lt→not_leb, leb, if◌then◌else◌, arith,
  Bool-cases, inl, inr, get, get-set_self, some,
}
use mcp4openapi.Upstream.{Manager, handle_upstream_notification, drain_notifications, queue_of}
use mcp4openapi.Upstream.Queue.{Entry, NotificationQueue, push, drain, is_fresh, shift}
use mcp4openapi.Upstream.Notifications.{
  InOrder, IsValid, push-IsValid, length-keep-le, keep-InOrder, keep-Recent, handled_queue,
  drained_queue,
}

pub record Notification : Type 0 where
  pub provider : String
  pub method : String
  pub at : ℕ

abbrev pub entry_of : Notification → Entry
entry_of n = record { method = n.method; timestamp = n.at }

-- The notifications come one after the other, the last not after `until`.
abbrev pub Rising : ℕ → List Notification → ℕ → Type 0
Rising now [] until = now ≤ until
Rising now (n ∷ ns) until = (now ≤ n.at) × Rising n.at ns until

-- They arrive for a session without a stream.
abbrev pub notify_all : String → List Notification → Manager → Manager
notify_all session [] m = m
notify_all session (n ∷ ns) m =
    notify_all session ns (handle_upstream_notification session n.provider n.method false n.at m)

abbrev push_all : List Notification → NotificationQueue → NotificationQueue
push_all [] q = q
push_all (n ∷ ns) q = push_all ns (push n.method n.at q)

keep-append : (p : Entry → Bool) (xs ys : List Entry) → keep p (xs ++ ys) ≡ keep p xs ++ keep p ys
keep-append p [] ys = refl
keep-append p (x ∷ xs) ys = ground (arith, keep-append p xs ys)

keep_all : (p : Entry → Bool) (xs : List Entry) → All (λ e. p e ≡ true) xs → keep p xs ≡ xs
keep_all p [] h = refl
keep_all p (x ∷ xs) (first, h) = rw (first, keep_all p xs h) refl

append_nil : (xs : List Entry) → xs ++ [] ≡ xs
append_nil [] = refl
append_nil (x ∷ xs) = ap (λ (l : List Entry). x ∷ l) (append_nil xs)

append_assoc : (xs ys zs : List Entry) → (xs ++ ys) ++ zs ≡ xs ++ (ys ++ zs)
append_assoc [] ys zs = refl
append_assoc (x ∷ xs) ys zs = ap (λ (l : List Entry). x ∷ l) (append_assoc xs ys zs)

All-append :
    (P : Entry → Type 0) (xs : List Entry) (y : Entry) → All P xs → P y → All P (xs ++ y ∷ [])
All-append P [] y h k = (k, tt)
All-append P (x ∷ xs) y (first, h) k = (first, All-append P xs y h k)

-- The queue ends with these entries.
abbrev Ends : List Entry → NotificationQueue → Type 0
Ends es q = (older : List Entry) × (q.entries ≡ older ++ es)

fresh_lem :
    (now until ttl : ℕ) (es : List Entry)
    → until - now < ttl
    → All (λ e. now ≤ e.timestamp) es
    → (at : ℕ) → at ≤ until
    → All (λ e. is_fresh at ttl e ≡ true) es
fresh_lem now until ttl [] soon h at early = tt
fresh_lem now until ttl (e ∷ es) soon (first, h) at early =
    (lt→ltb (at - e.timestamp) ttl (omega arith), fresh_lem now until ttl es soon h at early)

-- A push behind fresh entries leaves them, as long as there is room for them and the new one.
push-Ends :
    (es : List Entry) (method : String) (at : ℕ) (q : NotificationQueue)
    → length es < q.max_size
    → All (λ e. is_fresh at q.ttl_ms e ≡ true) es
    → Ends es q
    → Ends (es ++ record { method = method; timestamp = at } ∷ []) (push method at q)
unfolding push
push-Ends es method at q room fresh (older, e) =
    let kept : keep (is_fresh at q.ttl_ms) q.entries ≡ keep (is_fresh at q.ttl_ms) older ++ es =
      ap (keep (is_fresh at q.ttl_ms)) e
      ∙ keep-append (is_fresh at q.ttl_ms) older es
      ∙ ap (λ l. keep (is_fresh at q.ttl_ms) older ++ l)
          (keep_all (is_fresh at q.ttl_ms) es fresh) in
    rw kept (behind_es (keep (is_fresh at q.ttl_ms) older))
  where
    behind_es :
        (old : List Entry)
        → (left : List Entry) × ((if leb q.max_size (length (old ++ es))
                then shift (old ++ es)
                else old ++ es)
              ++ record { method = method; timestamp = at } ∷ []
            ≡ left ++ (es ++ record { method = method; timestamp = at } ∷ []))
    behind_es [] = ([], rw (lt→not_leb q.max_size (length es) room) refl)
    behind_es (x ∷ old) = elim (Bool-cases (leb q.max_size (length ((x ∷ old) ++ es)))) [
      | inl full ↦ (old, rw full (append_assoc old es _))
      | inr free ↦ (x ∷ old, rw free (append_assoc (x ∷ old) es _))
    ]

Rising-le : (now until : ℕ) (ns : List Notification) → Rising now ns until → now ≤ until
Rising-le now until [] h = h
Rising-le now until (n ∷ ns) (first, h) = omega (arith, Rising-le n.at until ns h)

Rising-young :
    (first now until : ℕ) (ns : List Notification)
    → first ≤ now
    → Rising now ns until
    → All (λ d. first ≤ d.timestamp) (map entry_of ns)
Rising-young first now until [] h r = tt
Rising-young first now until (n ∷ ns) h (after, r) =
    (omega arith, Rising-young first n.at until ns (omega arith) r)

push_all-Ends :
    (es : List Entry) (ns : List Notification) (first now until : ℕ) (q : NotificationQueue)
    → until - first < q.ttl_ms
    → first ≤ now
    → Rising now ns until
    → All (λ e. first ≤ e.timestamp) es
    → length es + length ns ≤ q.max_size
    → Ends es q
    → Ends (es ++ map entry_of ns) (push_all ns q)
unfolding push
push_all-Ends es [] first now until q soon start rising young room (older, e) =
    (older, e ∙ ap (λ l. older ++ l) (sym (append_nil es)))
push_all-Ends es (n ∷ ns) first now until q soon start (after, rising) young room ends =
    let early = Rising-le n.at until ns rising in
    let fresh = fresh_lem first until q.ttl_ms es soon young n.at early in
    let next = push-Ends es n.method n.at q (omega arith) fresh ends in
    let (older, e) =
      push_all-Ends (es ++ entry_of n ∷ []) ns first n.at until (push n.method n.at q) soon
        (omega arith) rising
        (All-append (λ e. first ≤ e.timestamp) es (entry_of n) young (omega arith))
        (omega (arith, length-append es (entry_of n ∷ []))) next in
    (older, e ∙ ap (λ l. older ++ l) (append_assoc es (entry_of n ∷ []) (map entry_of ns)))

InOrder-later : (now until : ℕ) (es : List Entry) → now ≤ until → InOrder now es → InOrder until es
InOrder-later now until [] h o = tt
InOrder-later now until (e ∷ es) h (young, first, o) =
    (omega arith, first, InOrder-later now until es h o)

push_all-IsValid :
    (ns : List Notification) (now until : ℕ) (q : NotificationQueue)
    → Rising now ns until
    → IsValid now q
    → IsValid until (push_all ns q)
push_all-IsValid [] now until q h v = record {
  room = v.room;
  bounded = v.bounded;
  ordered = InOrder-later now until q.entries h v.ordered;
}
push_all-IsValid (n ∷ ns) now until q (first, h) v =
    push_all-IsValid ns n.at until (push n.method n.at q) h
      (push-IsValid n.method now n.at q first v)

push_all-bounds :
    (ns : List Notification) (q : NotificationQueue)
    → ((push_all ns q).max_size ≡ q.max_size) × ((push_all ns q).ttl_ms ≡ q.ttl_ms)
unfolding push
push_all-bounds [] q = (refl, refl)
push_all-bounds (n ∷ ns) q = push_all-bounds ns (push n.method n.at q)

-- What a client gets that comes back.
pub record IsReplay (ns : List Notification) (at : ℕ) (q : NotificationQueue) (out : List Entry)
    : Type 0 where
  pub older : List Entry
  pub whole : out ≡ older ++ map entry_of ns
  pub bounded : length out ≤ q.max_size
  pub recent : All (λ e. at - e.timestamp < q.ttl_ms) out
  pub ordered : InOrder at out

drain-IsReplay :
    (n : Notification) (ns : List Notification) (before at : ℕ) (q : NotificationQueue)
    → before ≤ n.at
    → Rising n.at ns at
    → at - n.at < q.ttl_ms
    → length (n ∷ ns) ≤ q.max_size
    → IsValid before q
    → IsReplay (n ∷ ns) at q (drain at (push_all (n ∷ ns) q)).1
unfolding drain
drain-IsReplay n ns before at q start rising soon room v =
    let q' = push_all (n ∷ ns) q in
    let (size, ttl) = push_all-bounds (n ∷ ns) q in
    let valid = push_all-IsValid (n ∷ ns) before at q (start, rising) v in
    let (older, e) =
      push_all-Ends [] (n ∷ ns) n.at n.at at q soon (omega arith) (omega arith, rising) tt
        (omega arith) (q.entries, sym (append_nil q.entries)) in
    let young : All (λ d. n.at ≤ d.timestamp) (map entry_of (n ∷ ns)) =
      Rising-young n.at n.at at (n ∷ ns) (omega arith) (omega arith, rising) in
    let fresh : (o : ℕ) → o ≡ q.ttl_ms → All (λ d. is_fresh at o d ≡ true) (map entry_of (n ∷ ns)) =
      λ o same. fresh_lem n.at at o (map entry_of (n ∷ ns)) (rw same soon) young at (omega arith) in
    record {
      older = keep (is_fresh at q'.ttl_ms) older;
      whole =
          ap (keep (is_fresh at q'.ttl_ms)) e
          ∙ keep-append (is_fresh at q'.ttl_ms) older (map entry_of (n ∷ ns))
          ∙ ap (λ l. keep (is_fresh at q'.ttl_ms) older ++ l)
              (keep_all (is_fresh at q'.ttl_ms) (map entry_of (n ∷ ns)) (fresh q'.ttl_ms ttl));
      bounded =
          omega (arith, length-keep-le (is_fresh at q'.ttl_ms) q'.entries, valid.bounded, size);
      recent =
          subst (λ o. All (λ d. at - d.timestamp < o) (keep (is_fresh at q'.ttl_ms) q'.entries)) ttl
            (keep-Recent at q'.ttl_ms q'.entries);
      ordered = keep-InOrder (is_fresh at q'.ttl_ms) at q'.entries valid.ordered;
    }

notify_all-queue :
    (session : String) (n : Notification) (ns : List Notification) (m : Manager)
    → (get session (notify_all session (n ∷ ns) m).queues
        ≡ some (push_all (n ∷ ns) (queue_of session m)))
      × ((notify_all session (n ∷ ns) m).sent ≡ m.sent)
notify_all-queue session n [] m = handled_queue session n.provider n.method n.at m
notify_all-queue session n (n' ∷ ns) m =
    let m' = handle_upstream_notification session n.provider n.method false n.at m in
    let (here, quiet) = handled_queue session n.provider n.method n.at m in
    let (queue, silent) = notify_all-queue session n' ns m' in
    let same : queue_of session m' ≡ push n.method n.at (queue_of session m) =
      rw (queue_of, here) refl in
    (queue ∙ ap (λ q. some (push_all (n' ∷ ns) q)) same, silent ∙ quiet)

-- Notifications for a session without a stream, as many as the queue has room for, are all delivered
-- when the client comes back within the time to live of the first, in their order and behind what is
-- left of the ones before; at most as many are delivered as the queue has room for, none too old,
-- and each only once; nothing is sent in the meantime. The times do not go back.
pub queued_delivered :
    (session : String) (n : Notification) (ns : List Notification) (before at later : ℕ)
    (m : Manager)
    → before ≤ n.at
    → Rising n.at ns at
    → at - n.at < (queue_of session m).ttl_ms
    → length (n ∷ ns) ≤ (queue_of session m).max_size
    → IsValid before (queue_of session m)
    → (let m' = notify_all session (n ∷ ns) m in
        let (m'', out) = drain_notifications session at m' in
        IsReplay (n ∷ ns) at (queue_of session m) out
        × (m'.sent ≡ m.sent)
        × ((drain_notifications session later m'').1 ≡ []))
unfolding drain
queued_delivered session n ns before at later m start rising soon room v =
    let q = push_all (n ∷ ns) (queue_of session m) in
    let m' = notify_all session (n ∷ ns) m in
    let (waiting, quiet) = notify_all-queue session n ns m in
    let first = drained_queue session at m' q waiting in
    let left : get session (drain_notifications session at m').0.queues ≡ some (drain at q).0 =
      ap (λ r. get session r.0.queues) first ∙ get-set_self session (drain at q).0 m'.queues in
    (
      subst (IsReplay (n ∷ ns) at (queue_of session m)) (sym (ap (λ r. r.1) first))
          (drain-IsReplay n ns before at (queue_of session m) start rising soon room v),
      quiet,
      ap (λ r. r.1) (drained_queue session later _ (drain at q).0 left),
    )
