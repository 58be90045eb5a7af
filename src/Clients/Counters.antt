-- ===== src/Clients/Counters.antt =====
-- The counters of a client: sessions, states and codes that are open.
use mcp4openapi.Prelude.{
  ℕ, ◌≡◌, ◌<◌, ◌⊎◌, refl, subst, ap, ◌∙◌, ◌≢◌, inl, inr, String, some, arith, get, get-set_self,
  get-set_ne, Option-cases, set-Distinct,
}
use mcp4openapi.Clients.Types.{RuntimeMeta, Client}
use mcp4openapi.Clients.{
  Store, Platform, ok, register_client, modify, mark_session_attached, mark_session_detached,
  mark_auth_state_opened, mark_auth_state_closed, mark_auth_code_opened, mark_auth_code_closed,
}
use mcp4openapi.Clients.Registration.{IsValid, IsEvictable, set-IsNamed, get-IsNamed}
use mcp4openapi.Clients.Admission.{register_client_evicts_idle}

-- An update reaches the metadata of its client and no other.
get-modify :
    (id : String) (f : RuntimeMeta → RuntimeMeta) (s : Store) (m : RuntimeMeta)
    → get id s.metadata ≡ some m
    → get id (modify id f s).metadata ≡ some (f m)
unfolding modify
get-modify id f s m h = rw (h, modify) (get-set_self id (f m) s.metadata)

get-modify_ne :
    (id q : String) (f : RuntimeMeta → RuntimeMeta) (s : Store)
    → id ≢ q
    → get q (modify id f s).metadata ≡ get q s.metadata
unfolding modify
get-modify_ne id q f s h = elim (Option-cases (get id s.metadata)) [
  | inl missing ↦ rw (missing, modify)
  | inr (m, there) ↦ rw (there, modify) (get-set_ne id q (f m) s.metadata h)
]

modify-IsValid :
    (id : String) (f : RuntimeMeta → RuntimeMeta) (s : Store)
    → ((m : RuntimeMeta) → (f m).client_id ≡ m.client_id)
    → IsValid s
    → IsValid (modify id f s)
unfolding modify
modify-IsValid id f s named v = elim (Option-cases (get id s.metadata)) [
  | inl missing ↦ rw (missing, modify) v
  | inr (m, there) ↦
      rw (there, modify)
        (record {
          clients = v.clients;
          metadata = set-Distinct id (f m) s.metadata v.metadata;
          named =
              set-IsNamed id (f m) s.metadata (named m ∙ get-IsNamed id m s.metadata v.named there)
                v.named;
          bounded = v.bounded;
        })
]

modify_clients :
    (id : String) (f : RuntimeMeta → RuntimeMeta) (s : Store) → (modify id f s).clients ≡ s.clients
unfolding modify
modify_clients id f s = elim (Option-cases (get id s.metadata)) [
  | inl missing ↦ rw (missing, modify) refl
  | inr (m, there) ↦ rw (there, modify) refl
]

-- Some counter is positive.
abbrev IsBusy : RuntimeMeta → Type 0
IsBusy m =
    (0 < m.active_session_count) ⊎ ((0 < m.pending_state_count) ⊎ (0 < m.pending_auth_code_count))

not-IsEvictable :
    (id : String) (f : RuntimeMeta → RuntimeMeta) (now : ℕ) (s : Store) (m : RuntimeMeta)
    → get id s.metadata ≡ some m
    → IsBusy (f m)
    → ¬ IsEvictable id now (modify id f s)
not-IsEvictable id f now s m h busy e =
    counters e.metadata (subst IsBusy same busy) e.no_session e.no_state e.no_code
  where
    same : f m ≡ e.metadata
    same = cc (get-modify id f s m h, e.found)

    counters :
        (n : RuntimeMeta)
        → IsBusy n
        → (n.active_session_count ≡ 0)
        → (n.pending_state_count ≡ 0)
        → (n.pending_auth_code_count ≡ 0)
        → ⊥
    counters n (inl a) x y z = omega arith
    counters n (inr (inl a)) x y z = omega arith
    counters n (inr (inr a)) x y z = omega arith

module _ (p : Platform) (client : Client) (id : String) (opened now : ℕ) (s : Store)
    (m : RuntimeMeta) (v : IsValid s) (other : id ≢ client.client_id)
    (there : get id s.metadata ≡ some m) where
  kept :
      (f : RuntimeMeta → RuntimeMeta) {t : Store} {c : Client}
      → ((n : RuntimeMeta) → (f n).client_id ≡ n.client_id)
      → IsBusy (f m)
      → register_client p client now (modify id f s) ≡ ok (t, c)
      → get id t.clients ≡ get id s.clients
  kept f named busy h =
      let (_, others) =
        register_client_evicts_idle p client now (modify id f s) id (modify-IsValid id f s named v)
          other h in
      elim others [
        | inl same ↦ same ∙ ap (get id) (modify_clients id f s)
        | inr (evictable, _) ↦ absurd (not-IsEvictable id f now s m there busy evictable)
      ]

  -- The client after a session, a state or a code has been opened for it.
  abbrev pub Opened : Store → Type 0
  Opened u =
      (u ≡ mark_session_attached id opened s)
      ⊎ ((u ≡ mark_auth_state_opened id opened s) ⊎ (u ≡ mark_auth_code_opened id opened s))

  -- A client with metadata that has just been given a session, an open state or an open code is
  -- still stored after a registration of another client that succeeds, however full the store is.
  pub busy_kept :
      {u t : Store} {c : Client}
      → Opened u
      → register_client p client now u ≡ ok (t, c)
      → get id t.clients ≡ get id s.clients
  busy_kept (inl e) h = kept _ (λ n. refl) (inl (omega arith)) (rw e at h)
  busy_kept (inr (inl e)) h = kept _ (λ n. refl) (inr (inl (omega arith))) (rw e at h)
  busy_kept (inr (inr e)) h = kept _ (λ n. refl) (inr (inr (omega arith))) (rw e at h)

-- Closing what was opened gives back the counters, and the use is noted at the later time.
pub opened_closed :
    (id : String) (opened closed : ℕ) (s : Store) (m : RuntimeMeta)
    → get id s.metadata ≡ some m
    → (get id (mark_session_detached id closed (mark_session_attached id opened s)).metadata
        ≡ some (record m { last_used_at = some closed }))
      × (get id (mark_auth_state_closed id closed (mark_auth_state_opened id opened s)).metadata
          ≡ some (record m { last_used_at = some closed }))
      × (get id (mark_auth_code_closed id closed (mark_auth_code_opened id opened s)).metadata
          ≡ some (record m { last_used_at = some closed }))
opened_closed id opened closed s m h = (
  get-modify id _ _ _ (get-modify id _ s m h) ∙ ground arith,
  get-modify id _ _ _ (get-modify id _ s m h) ∙ ground arith,
  get-modify id _ _ _ (get-modify id _ s m h) ∙ ground arith,
)
