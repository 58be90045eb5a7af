-- ===== src/Clients/Admission.antt =====
-- The outcomes of `registerClient`.
use mcp4openapi.Prelude.{
  ℕ, ◌≤◌, ◌<◌, ◌≡◌, refl, sym, ap, subst, ◌∙◌, ◌≢◌, ◌⊎◌, inl, inr, String, true, false, none, some,
  List, [], ◌∷◌, arith, get, set, delete, length, Bool-cases, Option-cases, String-cases,
  get-set_self, get-set_ne, get-delete_ne, get-delete_self, length-delete,
}
use mcp4openapi.Clients.Types.{
  ClientStoreLimits, Client, EvictionDecision, EvictionTierId, tier_c_any_idle, evict, no_candidate,
  Stats,
}
use mcp4openapi.Clients.Policy.{choose_eviction_decision, eviction_tiers}
use mcp4openapi.Clients.Eviction.{IsChosen, IsEmptyTier, choose_eviction_decision-IsChosen}
use mcp4openapi.Clients.{
  Store, Platform, ok, throw, at_capacity, build_eviction_candidates, remove_client, put_client,
  is_full_for, make_room, admit, register_client, validate_client_metadata, validate_schemes,
  uri_texts,
}
use mcp4openapi.Clients.Registration.{
  IsValid, IsEvictable, remove_client-IsValid, put_client-IsValid, chosen-IsEvictable,
}

module _ (p : Platform) where
  -- The decision that `registerClient` acts on.
  abbrev decision : ℕ → Store → EvictionDecision
  decision now s =
      choose_eviction_decision p.locale_compare (build_eviction_candidates now s)
        s.limits.idle_grace_ms

  -- How room is made: there was room, or an evictable client goes.
  abbrev Room : String → ℕ → Store → Store → Type 0
  Room id now s t =
      ((is_full_for id s ≡ false) × (t ≡ s))
      ⊎ ((is_full_for id s ≡ true)
          × ((victim : String) × IsEvictable victim now s × (t ≡ remove_client victim s)))

  EvictionDecision-cases :
      (d : EvictionDecision)
      → (d ≡ no_candidate) ⊎ ((victim : String) × (tier : EvictionTierId) × (d ≡ evict victim tier))
  EvictionDecision-cases no_candidate = inl refl
  EvictionDecision-cases (evict victim tier) = inr (victim, tier, refl)

  make_room-Room :
      (id : String) (now : ℕ) (s : Store) {t : Store}
      → IsValid s
      → make_room p id now s ≡ ok t
      → Room id now s t
  unfolding make_room
  make_room-Room id now s {t} v h = elim (Bool-cases (is_full_for id s)) [
    | inr free ↦ inl (free, ground arith)
    | inl full ↦ elim (EvictionDecision-cases (decision now s)) [
      | inl stuck ↦ absurd (ground arith)
      | inr (victim, tier, e) ↦
          inr (full, (victim, chosen-IsEvictable p victim tier now s v e, ground arith))
    ]
  ]

  removed_room :
      (victim : String) (s : Store)
      → IsValid s
      → get victim s.clients ≢ none
      → length (delete victim s.clients) < s.limits.max_clients
  removed_room victim s v present = elim (Option-cases (get victim s.clients)) [
    | inl absent ↦ absurd (present absent)
    | inr (c, there) ↦ omega (arith, length-delete victim c s.clients v.clients there, v.bounded)
  ]

  -- After room was made there is room.
  Room-IsValid :
      (id : String) (now : ℕ) (s t : Store)
      → IsValid s
      → Room id now s t
      → IsValid t × (get id t.clients ≡ none → length t.clients < t.limits.max_clients)
  unfolding remove_client
  Room-IsValid id now s t v (inl (free, same)) = rw same (v, λ new. ground (arith, new))
  Room-IsValid id now s t v (inr (full, (victim, e, same))) =
      rw same (remove_client-IsValid victim s v, λ _. removed_room victim s v e.present)

  -- A registration that succeeds, taken apart.
  register_client-eq-ok :
      (client : Client) (now : ℕ) (s : Store) {t : Store} {c : Client}
      → register_client p client now s ≡ ok (t, c)
      → (u : Store) × (make_room p client.client_id now s ≡ ok u)
        × (t ≡ put_client client now u)
        × (c ≡ client)
  unfolding register_client admit
  register_client-eq-ok client now s h = ground arith

  removed_client :
      (victim : String) (s : Store) → get victim (remove_client victim s).clients ≡ none
  unfolding remove_client
  removed_client victim s = get-delete_self victim s.clients

  removed_other :
      (victim q : String) (s : Store)
      → victim ≢ q
      → get q (remove_client victim s).clients ≡ get q s.clients
  unfolding remove_client
  removed_other victim q s h = get-delete_ne victim q s.clients h

  put_clients :
      (client : Client) (now : ℕ) (u : Store)
      → (put_client client now u).clients ≡ set client.client_id client u.clients
  unfolding put_client
  put_clients client now u = refl

  module _ (client : Client) (now : ℕ) (s : Store) {t : Store} {c : Client} where
    -- A registration that succeeds keeps the invariant, the limit on the clients included.
    pub register_client-IsValid : IsValid s → register_client p client now s ≡ ok (t, c) → IsValid t
    register_client-IsValid v h =
        let (u, room, same, _) = register_client-eq-ok client now s h in
        let (valid, space) =
          Room-IsValid client.client_id now s u v (make_room-Room client.client_id now s v room) in
        rw same (put_client-IsValid client now u valid space)

    -- A client that was there and is another one is still there after a registration, unless it was
    -- without session, open state and open code, and its grace was over; the new client is there.
    pub register_client_evicts_idle :
        (other : String)
        → IsValid s
        → other ≢ client.client_id
        → register_client p client now s ≡ ok (t, c)
        → (get client.client_id t.clients ≡ some client)
          × ((get other t.clients ≡ get other s.clients)
              ⊎ (IsEvictable other now s × (get other t.clients ≡ none)))
    register_client_evicts_idle other v ne h =
        let (u, room, same, _) = register_client-eq-ok client now s h in
        let entries = ap (λ (x : Store). x.clients) same ∙ put_clients client now u in
        (
          ap (get client.client_id) entries ∙ get-set_self client.client_id client u.clients,
          kept (make_room-Room client.client_id now s v room) (
              ap (get other) entries
              ∙ get-set_ne client.client_id other client u.clients (λ e. ne (sym e))),
        )
      where
        kept :
            {u : Store}
            → Room client.client_id now s u
            → get other t.clients ≡ get other u.clients
            → (get other t.clients ≡ get other s.clients)
              ⊎ (IsEvictable other now s × (get other t.clients ≡ none))
        kept (inl (_, e)) k = inl (k ∙ ap (λ (x : Store). get other x.clients) e)
        kept (inr (_, (victim, evictable, e))) k = elim (String-cases victim other) [
          | inl (same, _) ↦ inr (
            subst (λ q. IsEvictable q now s) same evictable,
            k
                ∙ ap (λ (x : Store). get other x.clients) e
                ∙ ap (λ q. get q (remove_client victim s).clients) (sym same)
                ∙ removed_client victim s,
          )
          | inr (ne, _) ↦
              inl (k ∙ ap (λ (x : Store). get other x.clients) e ∙ removed_other victim other s ne)
        ]

  validate_schemes-ne :
      (uris : List String) (limit : ℕ) (stats : Stats)
      → validate_schemes p uris ≢ throw (at_capacity limit stats)
  unfolding validate_schemes
  validate_schemes-ne [] limit stats = cc
  validate_schemes-ne (uri ∷ uris) limit stats =
      ground (arith, validate_schemes-ne uris limit stats)

  validate_client_metadata-ne :
      (limits : ClientStoreLimits) (client : Client) (limit : ℕ) (stats : Stats)
      → validate_client_metadata p limits client ≢ throw (at_capacity limit stats)
  unfolding validate_client_metadata
  validate_client_metadata-ne limits client limit stats h =
      elim (Option-cases client.redirect_uris) [
        | inl missing ↦ ground arith
        | inr (uris, there) ↦ ground (arith, validate_schemes-ne (uri_texts uris) limit stats)
      ]

  register_client-refused :
      (client : Client) (now : ℕ) (s : Store) {limit : ℕ} {stats : Stats}
      → register_client p client now s ≡ throw (at_capacity limit stats)
      → make_room p client.client_id now s ≡ throw (at_capacity limit stats)
  unfolding register_client admit
  register_client-refused client now s {limit} {stats} h =
      ground (arith, validate_client_metadata-ne s.limits client limit stats)

  make_room-refused :
      (id : String) (now : ℕ) (s : Store) {limit : ℕ} {stats : Stats}
      → make_room p id now s ≡ throw (at_capacity limit stats)
      → (is_full_for id s ≡ true) × (decision now s ≡ no_candidate)
  unfolding make_room
  make_room-refused id now s h = ground arith

  last_tier :
      (now : ℕ) (s : Store)
      → IsChosen p.locale_compare
          (build_eviction_candidates now s)
          s.limits.idle_grace_ms
          eviction_tiers
          no_candidate
      → IsEmptyTier p.locale_compare
          (build_eviction_candidates now s)
          s.limits.idle_grace_ms
          tier_c_any_idle
  last_tier now s (inl (id, e, b)) = absurd (cc)
  last_tier now s (inr (_, inl (id, e, b))) = absurd (cc)
  last_tier now s (inr (_, inr (_, inl (id, e, b)))) = absurd (cc)
  last_tier now s (inr (_, inr (_, inr (empty, _)))) = empty

  -- A registration is refused for want of room only if the client is new, the store is full, and no
  -- client is idle with its grace behind it.
  pub register_client-at_capacity :
      (client : Client) (now : ℕ) (s : Store) {limit : ℕ} {stats : Stats}
      → register_client p client now s ≡ throw (at_capacity limit stats)
      → (get client.client_id s.clients ≡ none)
        × (s.limits.max_clients ≤ length s.clients)
        × IsEmptyTier p.locale_compare
            (build_eviction_candidates now s)
            s.limits.idle_grace_ms
            tier_c_any_idle
  register_client-at_capacity client now s h =
      let refused = register_client-refused client now s h in
      let (full, stuck) = make_room-refused client.client_id now s refused in
      (
        ground arith,
        ground arith,
        last_tier now s (
            rw stuck at (
              choose_eviction_decision-IsChosen p.locale_compare (build_eviction_candidates now s)
                s.limits.idle_grace_ms)),
      )
