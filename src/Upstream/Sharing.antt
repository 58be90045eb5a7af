-- ===== src/Upstream/Sharing.antt =====
-- The calls of a session for one provider share one attempt and one connection.
use mcp4openapi.Prelude.{
  ℕ, ◌+◌, ◌≡◌, refl, ap, ◌∙◌, [], String, true, false, Option, none, some, get, set, get-set_self,
  arith, eq_refl, Bool-cases, Option-cases, subst, sym, inl, inr,
}
use mcp4openapi.Upstream.{
  Manager, Connection, Provider, Pending, connected, Answer, reuse, join, lead, get_or_connect,
  get_existing, join_or_lead, begin_connect, settle, store_connection, finish, get_connection,
  put_connection, has, providers_of, dedup_key, token_eq, connection_of,
}

token_eq_refl : (t : Option String) → token_eq t t ≡ true
token_eq_refl none = refl
token_eq_refl (some a) = eq_refl a

get-put :
    (s p : String) (c : Connection) (m : Manager)
    → get_connection s p (put_connection s p c m) ≡ some c
unfolding get_connection put_connection
get-put s p c m =
    ap (λ o. get p (elim o [ none ↦ [] | some cs ↦ cs ]))
      (get-set_self s (set p c (providers_of s m)) m.connections)
    ∙ get-set_self p c (providers_of s m)

finish_kept :
    (s p : String) (m : Manager) → get_connection s p (finish s p m) ≡ get_connection s p m
unfolding finish get_connection
finish_kept s p m = elim (Option-cases (get (dedup_key s p) m.pending)) [
  | inl absent ↦ rw (absent, finish) refl
  | inr (e, there) ↦ elim (Bool-cases e.settled) [
    | inl over ↦ rw (there, finish, over) refl
    | inr open_ ↦ rw (there, finish, open_) refl
  ]
]

module _ (s : String) (p : Provider) (t : Option String) (m : Manager) where
  abbrev attempt : Pending
  attempt = record { promise = m.next_id; token = t; settled = false }

  -- With nothing there a call leads.
  leads :
      (now : ℕ)
      → get_connection s p.name m ≡ none
      → get (dedup_key s p.name) m.pending ≡ none
      → get_or_connect s p t now m ≡ (
        record m { pending = set (dedup_key s p.name) attempt m.pending; next_id = m.next_id + 1 },
        lead m.next_id,
      )
  unfolding get_or_connect join_or_lead begin_connect
  leads now absent free = rw (absent, get_or_connect, free, join_or_lead) refl

  -- With an attempt in flight for the token it is joined.
  joins :
      (now : ℕ) (e : Pending)
      → get_connection s p.name m ≡ none
      → get (dedup_key s p.name) m.pending ≡ some e
      → token_eq e.token t ≡ true
      → get_or_connect s p t now m ≡ (m, join e.promise)
  unfolding get_or_connect join_or_lead
  joins now e absent there same =
      rw (absent, get_or_connect, there, join_or_lead, same) (ground arith)

  -- With a live connection for the token it is used.
  reuses :
      (now : ℕ) (c : Connection)
      → get_connection s p.name m ≡ some c
      → c.state ≡ connected
      → token_eq c.token t ≡ true
      → (get_or_connect s p t now m).1 ≡ reuse c.id
  unfolding get_or_connect get_existing
  reuses now c there live same = rw (there, get_or_connect, get_existing, live, same) (ground arith)

  abbrev started : Manager
  started = record m {
    pending = set (dedup_key s p.name) attempt m.pending;
    next_id = m.next_id + 1;
  }

module _ (s : String) (p : Provider) (t : Option String) (m : Manager) where
  started_absent :
      get_connection s p.name m ≡ none → get_connection s p.name (started s p t m) ≡ none
  unfolding get_connection
  started_absent h = h

  settle-stores :
      (now : ℕ)
      → has s m.destroyed ≡ false
      → get_connection s p.name (settle s p.name true now (started s p t m))
        ≡ some (connection_of p.name now (attempt s p t m))
  unfolding settle store_connection get_connection
  settle-stores now open_ =
      rw
        (
          get-set_self (dedup_key s p.name) (attempt s p t m) m.pending,
          settle,
          store_connection,
          open_,
        )
        (get-put s p.name (connection_of p.name now (attempt s p t m)) (started s p t m))

  -- While an attempt is in flight every call with its token joins it, and when it has connected
  -- every such call is handed its client, where the session is not closed.
  pub one_connection :
      (now : ℕ)
      → get_connection s p.name m ≡ none
      → get (dedup_key s p.name) m.pending ≡ none
      → has s m.destroyed ≡ false
      → (let (m₁, first) = get_or_connect s p t now m in
          let m₂ = settle s p.name true now m₁ in
          (first ≡ lead m.next_id)
          × ((at : ℕ) → get_or_connect s p t at m₁ ≡ (m₁, join m.next_id))
          × ((at : ℕ) → (get_or_connect s p t at m₂).1 ≡ reuse m.next_id)
          × ((at : ℕ) → (get_or_connect s p t at (finish s p.name m₂)).1 ≡ reuse m.next_id))
  one_connection now absent free open_ =
      let m₁ = started s p t m in
      let m₂ = settle s p.name true now m₁ in
      let there = get-set_self (dedup_key s p.name) (attempt s p t m) m.pending in
      let stored = settle-stores now open_ in
      let c = connection_of p.name now (attempt s p t m) in
      subst
        (λ (r : Manager × Answer).
          (r.1 ≡ lead m.next_id)
          × ((at : ℕ) → get_or_connect s p t at r.0 ≡ (r.0, join m.next_id))
          × ((at : ℕ)
              → (get_or_connect s p t at (settle s p.name true now r.0)).1 ≡ reuse m.next_id)
          × ((at : ℕ)
              → (get_or_connect s p t at (finish s p.name (settle s p.name true now r.0))).1
                ≡ reuse m.next_id))
        (sym (leads s p t m now absent free))
        (
          refl,
          λ at. joins s p t m₁ at (attempt s p t m) (started_absent absent) there (token_eq_refl t),
          λ at. reuses s p t m₂ at c stored refl (token_eq_refl t),
          λ at.
              reuses s p t (finish s p.name m₂) at c (finish_kept s p.name m₂ ∙ stored) refl
                (token_eq_refl t),
        )
