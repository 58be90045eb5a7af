-- ===== src/Clients/Eviction.antt =====
-- Which client `chooseEvictionDecision` picks.
use Prim.Native.Nat.{Ordering}
use mcp4openapi.Prelude.{
  ℕ, ◌≤◌, ◌≡◌, refl, ◌⊎◌, inl, inr, String, true, false, List, [], ◌∷◌, arith, keep, All, Among,
  All-map, keep-Among, keep-All, keep_nil,
}
use native.Mathlib.Nat.{le_trans}
use mcp4openapi.Clients.Types.{
  EvictionCandidate, EvictionTierId, EvictionDecision, evict, no_candidate,
}
use mcp4openapi.Clients.Policy.{
  in_tier, last_use, compare_candidates, insert_sorted, sort, choose_from, choose_eviction_decision,
  eviction_tiers,
}

-- A candidate of the list that no other was used before.
pub record IsOldest (c : EvictionCandidate) (cs : List EvictionCandidate) : Type 0 where
  pub among : Among c cs
  pub oldest : All (λ d. last_use c ≤ last_use d) cs

module _ (locale_compare : String → String → Ordering) where
  gt-le :
      (c d : EvictionCandidate)
      → compare_candidates locale_compare c d ≡ Ordering.gt
      → last_use d ≤ last_use c
  unfolding compare_candidates
  gt-le c d h = ground arith

  lt-le :
      (c d : EvictionCandidate)
      → compare_candidates locale_compare c d ≡ Ordering.lt
      → last_use c ≤ last_use d
  unfolding compare_candidates
  lt-le c d h = ground arith

  eq-le :
      (c d : EvictionCandidate)
      → compare_candidates locale_compare c d ≡ Ordering.eq
      → last_use c ≤ last_use d
  unfolding compare_candidates
  eq-le c d h = ground arith

  -- The head of a sorted list, with what stands behind it.
  abbrev Sorts : List EvictionCandidate → List EvictionCandidate → Type 0
  Sorts xs [] = xs ≡ []
  Sorts xs (c ∷ rest) = IsOldest c xs

  Ordering-cases : (o : Ordering) → (o ≡ Ordering.lt) ⊎ ((o ≡ Ordering.eq) ⊎ (o ≡ Ordering.gt))
  Ordering-cases Ordering.lt = inl refl
  Ordering-cases Ordering.eq = inr (inl refl)
  Ordering-cases Ordering.gt = inr (inr refl)

  first-IsOldest :
      (x c : EvictionCandidate) (xs : List EvictionCandidate)
      → last_use x ≤ last_use c
      → IsOldest c xs
      → IsOldest x (x ∷ xs)
  first-IsOldest x c xs h o = record {
    among = inl refl;
    oldest = (omega arith, All-map (λ d k. le_trans h k) xs o.oldest);
  }

  later-IsOldest :
      (x c : EvictionCandidate) (xs : List EvictionCandidate)
      → last_use c ≤ last_use x
      → IsOldest c xs
      → IsOldest c (x ∷ xs)
  later-IsOldest x c xs h o = record { among = inr o.among; oldest = (h, o.oldest) }

  insert_sorted-Sorts :
      (x : EvictionCandidate) (xs ys : List EvictionCandidate)
      → Sorts xs ys
      → Sorts (x ∷ xs) (insert_sorted locale_compare x ys)
  unfolding insert_sorted
  insert_sorted-Sorts x xs [] h = rw h (record { among = inl refl; oldest = (omega arith, tt) })
  insert_sorted-Sorts x xs (c ∷ rest) h =
      elim (Ordering-cases (compare_candidates locale_compare x c)) [
        | inl less ↦ rw (less, insert_sorted) (first-IsOldest x c xs (lt-le x c less) h)
        | inr (inl same) ↦ rw (same, insert_sorted) (first-IsOldest x c xs (eq-le x c same) h)
        | inr (inr more) ↦ rw (more, insert_sorted) (later-IsOldest x c xs (gt-le x c more) h)
      ]

  sort-Sorts : (xs : List EvictionCandidate) → Sorts xs (sort locale_compare xs)
  unfolding sort
  sort-Sorts [] = refl
  sort-Sorts (x ∷ xs) = insert_sorted-Sorts x xs (sort locale_compare xs) (sort-Sorts xs)

  module _ (cs : List EvictionCandidate) (grace : ℕ) where
    -- The candidate that a tier gives up: one of the list that passes the tier's test, none of the
    -- tier used before it.
    pub record IsBest (tier : EvictionTierId) (id : String) : Type 0 where
      pub candidate : EvictionCandidate
      pub among : Among candidate cs
      pub named : candidate.client_id ≡ id
      pub passes : in_tier tier grace candidate ≡ true
      pub oldest : All (λ d. in_tier tier grace d ≡ true → last_use candidate ≤ last_use d) cs

    -- No candidate passes the tier's test.
    abbrev pub IsEmptyTier : EvictionTierId → Type 0
    IsEmptyTier tier = All (λ d. in_tier tier grace d ≡ false) cs

    -- The best candidate of the first tier that has any.
    abbrev pub IsChosen : List EvictionTierId → EvictionDecision → Type 0
    IsChosen [] d = d ≡ no_candidate
    IsChosen (tier ∷ tiers) d =
        ((id : String) × (d ≡ evict id tier) × IsBest tier id)
        ⊎ (IsEmptyTier tier × IsChosen tiers d)

    IsBest-of :
        (tier : EvictionTierId) (c : EvictionCandidate)
        → IsOldest c (keep (in_tier tier grace) cs)
        → IsBest tier c.client_id
    IsBest-of tier c o =
        let (there, e) = keep-Among (in_tier tier grace) c cs o.among in
        record {
          candidate = c;
          among = there;
          named = refl;
          passes = e;
          oldest = keep-All (in_tier tier grace) (λ d. last_use c ≤ last_use d) cs o.oldest;
        }

    tier-IsChosen :
        (tier : EvictionTierId) (tiers : List EvictionTierId) (sorted : List EvictionCandidate)
        → sort locale_compare (keep (in_tier tier grace) cs) ≡ sorted
        → Sorts (keep (in_tier tier grace) cs) sorted
        → IsChosen tiers (choose_from locale_compare tiers cs grace)
        → IsChosen (tier ∷ tiers) (choose_from locale_compare (tier ∷ tiers) cs grace)
    unfolding choose_from
    tier-IsChosen tier tiers [] e s later = rw (e, choose_from) (inr (keep_nil _ cs s, later))
    tier-IsChosen tier tiers (c ∷ rest) e s later =
        rw (e, choose_from) (inl (c.client_id, refl, IsBest-of tier c s))

    choose_from-IsChosen :
        (tiers : List EvictionTierId) → IsChosen tiers (choose_from locale_compare tiers cs grace)
    unfolding choose_from
    choose_from-IsChosen [] = refl
    choose_from-IsChosen (tier ∷ tiers) =
        tier-IsChosen tier tiers _ refl (sort-Sorts _) (choose_from-IsChosen tiers)

  -- The decision is the best candidate of the first tier that has any: dynamic clients that are idle
  -- and were never used, then dynamic idle ones, then any idle one, each with the grace behind it;
  -- and no candidate, if all three tiers are empty.
  pub choose_eviction_decision-IsChosen :
      (cs : List EvictionCandidate) (grace : ℕ)
      → IsChosen cs grace eviction_tiers (choose_eviction_decision locale_compare cs grace)
  unfolding choose_eviction_decision
  choose_eviction_decision-IsChosen cs grace = choose_from-IsChosen cs grace eviction_tiers
