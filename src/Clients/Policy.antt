-- ===== src/Clients/Policy.antt =====
-- src/auth/client-store/policy.ts: which client makes room for a new one. `localeCompare` is a
-- parameter. `sort` is the stable sort by insertion.
use Prim.Native.Nat.{compare, Ordering}
use mcp4openapi.Prelude.{
  ℕ, String, Bool, true, false, ◌&&◌, none, some, List, [], ◌∷◌, keep, leb_ℤ, ◌==◌, if◌then◌else◌,
}
use mcp4openapi.Clients.Types.{
  Kind, dynamic, static, EvictionCandidate, EvictionTierId, tier_a_dynamic_idle_never_used,
  tier_b_dynamic_idle, tier_c_any_idle, EvictionDecision, evict, no_candidate,
}

abbrev pub is_dynamic : Kind → Bool
is_dynamic dynamic = true
is_dynamic static = false

abbrev pub aged : ℕ → EvictionCandidate → Bool
aged grace c = leb_ℤ grace c.age_ms

-- The predicates of `EVICTION_TIERS`.
unfoldable pub in_tier : EvictionTierId → ℕ → EvictionCandidate → Bool
in_tier tier_a_dynamic_idle_never_used grace c =
    is_dynamic c.kind && c.is_idle && c.is_never_used && aged grace c
in_tier tier_b_dynamic_idle grace c = is_dynamic c.kind && c.is_idle && aged grace c
in_tier tier_c_any_idle grace c = c.is_idle && aged grace c

abbrev pub eviction_tiers : List EvictionTierId
eviction_tiers = tier_a_dynamic_idle_never_used ∷ tier_b_dynamic_idle ∷ tier_c_any_idle ∷ []

-- `lastUsedAt ?? createdAt`
abbrev pub last_use : EvictionCandidate → ℕ
last_use c = elim c.last_used_at [ none ↦ c.created_at | some t ↦ t ]

module _ (locale_compare : String → String → Ordering) where
  -- The sign of the number that `compareCandidates` returns.
  unfoldable pub compare_candidates : EvictionCandidate → EvictionCandidate → Ordering
  compare_candidates l r =
      if last_use l == last_use r
      then if l.created_at == r.created_at
        then locale_compare l.client_id r.client_id
        else compare l.created_at r.created_at
      else compare (last_use l) (last_use r)

  unfoldable pub insert_sorted : EvictionCandidate → List EvictionCandidate → List EvictionCandidate
  insert_sorted c [] = c ∷ []
  insert_sorted c (d ∷ ds) = elim (compare_candidates c d) [
    | Ordering.gt ↦ d ∷ insert_sorted c ds
    | _ ↦ c ∷ d ∷ ds
  ]

  unfoldable pub sort : List EvictionCandidate → List EvictionCandidate
  sort [] = []
  sort (c ∷ cs) = insert_sorted c (sort cs)

  -- The loop of `chooseEvictionDecision` over the tiers.
  unfoldable pub choose_from : List EvictionTierId → List EvictionCandidate → ℕ → EvictionDecision
  choose_from [] candidates grace = no_candidate
  choose_from (tier ∷ tiers) candidates grace = elim (sort (keep (in_tier tier grace) candidates)) [
    | [] ↦ choose_from tiers candidates grace
    | c ∷ _ ↦ evict c.client_id tier
  ]

  unfoldable pub choose_eviction_decision : List EvictionCandidate → ℕ → EvictionDecision
  choose_eviction_decision candidates grace = choose_from eviction_tiers candidates grace
