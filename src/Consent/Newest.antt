-- ===== src/Consent/Newest.antt =====
-- The times that the index of the evidence holds, whatever the order in which the records came.
use mcp4openapi.Prelude.{
  ℕ, Bool, Map, String-cases, ◌≡◌, refl, ap, String, Option, none, some, List, [], ◌∷◌, get, set,
  get-set, ltb, if◌then◌else◌, str_eq, arith, eq_iff, Option-cases, inl, inr, sym, ◌∙◌,
}
use mcp4openapi.Consent.{
  StoredRecord, ConsentEvidence, ConsentRevocation, grant, revocation, ConsentIndex, empty_index,
  consent_evidence_key, consent_identity_key, grant_key, holder_key, revoked_key, apply,
  add_revocation, fold_record, replay, lookup, ConsentIdentityContext, evaluate_grant_fold,
  supersedes, other_hash, other_rules,
}

-- The larger of two times, where there are two.
abbrev pub later : Option ℕ → Option ℕ → Option ℕ
later none t = t
later (some a) none = some a
later (some a) (some b) = if ltb a b then some b else some a

abbrev pub when : Option ConsentEvidence → Option ℕ
when none = none
when (some e) = some e.granted_at

pub later_assoc : (a b c : Option ℕ) → later (later a b) c ≡ later a (later b c)
later_assoc none b c = refl
later_assoc (some a) none c = refl
later_assoc (some a) (some b) none = ground arith
later_assoc (some a) (some b) (some c) = ground arith

later-none : (a : Option ℕ) → later a none ≡ a
later-none none = refl
later-none (some a) = refl

joined :
    {a : Option ℕ} (b c : Option ℕ)
    → a ≡ later b c
    → (t : Option ℕ) → later a t ≡ later b (later c t)
joined b c e t = ap (λ x. later x t) e ∙ later_assoc b c t

-- A write that only a newer acceptance makes leaves the newest of both times.
superseding :
    (differs : ConsentEvidence → ConsentEvidence → Bool) (j k : String) (e : ConsentEvidence)
    (m : Map ConsentEvidence)
    → when (get k (if supersedes differs e (get j m) then set j e m else m))
      ≡ later (when (get k m)) (if str_eq j k then some e.granted_at else none)
superseding differs j k e m = elim (String-cases j k) [
  | inl (same, eq) ↦ elim (Option-cases (get j m)) [
    | inl fresh ↦ ground (arith, get-set j k e m)
    | inr (known, there) ↦ ground (arith, get-set j k e m)
  ]
  | inr (other, ne) ↦ ground (arith, get-set j k e m, later-none (when (get k m)))
]

module _ (json : List (Option String) → String) where
  -- The time of the newest acceptance with this key, of one rules version or of any.
  abbrev pub newest : (ConsentEvidence → String) → String → List StoredRecord → Option ℕ
  newest key k [] = none
  newest key k (grant e ∷ rs) =
      later (if str_eq (key e) k then some e.granted_at else none) (newest key k rs)
  newest key k (revocation r ∷ rs) = newest key k rs

  -- The time of the newest revocation.
  abbrev pub newest_revocation : String → List StoredRecord → Option ℕ
  newest_revocation k [] = none
  newest_revocation k (grant e ∷ rs) = newest_revocation k rs
  newest_revocation k (revocation r ∷ rs) =
      later (if str_eq (revoked_key json r) k then some r.revoked_at else none)
        (newest_revocation k rs)

  grants_step :
      (k : String) (e : ConsentEvidence) (s : ConsentIndex)
      → when (get k (apply json e s).0.grants)
        ≡ later
            (when (get k s.grants))
            (if str_eq (grant_key json e) k then some e.granted_at else none)
  unfolding apply evaluate_grant_fold
  grants_step k e s = superseding other_hash (grant_key json e) k e s.grants

  latest_step :
      (k : String) (e : ConsentEvidence) (s : ConsentIndex)
      → when (get k (apply json e s).0.latest_grants)
        ≡ later
            (when (get k s.latest_grants))
            (if str_eq (holder_key json e) k then some e.granted_at else none)
  unfolding apply evaluate_grant_fold
  latest_step k e s = superseding other_rules (holder_key json e) k e s.latest_grants

  revocations_step :
      (k : String) (r : ConsentRevocation) (s : ConsentIndex)
      → get k (add_revocation json r s).revocations
        ≡ later
            (get k s.revocations)
            (if str_eq (revoked_key json r) k then some r.revoked_at else none)
  unfolding add_revocation
  revocations_step k r s = ground (
    arith,
    eq_iff (revoked_key json r) k,
    get-set (revoked_key json r) k r.revoked_at s.revocations,
  )

  grants_time :
      (k : String) (rs : List StoredRecord) (s : ConsentIndex)
      → when (get k (replay json rs s).grants)
        ≡ later (when (get k s.grants)) (newest (grant_key json) k rs)
  unfolding replay fold_record add_revocation
  grants_time k [] s = sym (later-none _)
  grants_time k (grant e ∷ rs) s =
      grants_time k rs (apply json e s).0
      ∙ joined _ _ (grants_step k e s) (newest (grant_key json) k rs)
  grants_time k (revocation r ∷ rs) s = grants_time k rs (add_revocation json r s)

  latest_time :
      (k : String) (rs : List StoredRecord) (s : ConsentIndex)
      → when (get k (replay json rs s).latest_grants)
        ≡ later (when (get k s.latest_grants)) (newest (holder_key json) k rs)
  unfolding replay fold_record add_revocation
  latest_time k [] s = sym (later-none _)
  latest_time k (grant e ∷ rs) s =
      latest_time k rs (apply json e s).0
      ∙ joined _ _ (latest_step k e s) (newest (holder_key json) k rs)
  latest_time k (revocation r ∷ rs) s = latest_time k rs (add_revocation json r s)

  revocations_time :
      (k : String) (rs : List StoredRecord) (s : ConsentIndex)
      → get k (replay json rs s).revocations ≡ later (get k s.revocations) (newest_revocation k rs)
  unfolding replay fold_record apply
  revocations_time k [] s = sym (later-none _)
  revocations_time k (grant e ∷ rs) s = revocations_time k rs (apply json e s).0
  revocations_time k (revocation r ∷ rs) s =
      revocations_time k rs (add_revocation json r s)
      ∙ joined _ _ (revocations_step k r s) (newest_revocation k rs)

  -- The times that the index answers with are those of the newest acceptance of these rules, of the
  -- newest of any rules and of the newest revocation, in whatever order the records came.
  pub replay_times :
      (i : ConsentIdentityContext) (profile version : String) (rs : List StoredRecord)
      → (let found = lookup json (replay json rs empty_index) i profile version in
          let holder = consent_identity_key json i profile in
          (when found.grant
            ≡ newest (grant_key json) (consent_evidence_key json i profile version) rs)
          × (when found.latest_grant ≡ newest (holder_key json) holder rs)
          × (found.revoked_at ≡ newest_revocation holder rs))
  unfolding get
  replay_times i profile version rs = (
    grants_time (consent_evidence_key json i profile version) rs empty_index,
    latest_time (consent_identity_key json i profile) rs empty_index,
    revocations_time (consent_identity_key json i profile) rs empty_index,
  )
