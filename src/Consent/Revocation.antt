-- ===== src/Consent/Revocation.antt =====
-- A revocation and a later acceptance of other rules take effect at once.
use mcp4openapi.Prelude.{
  ℕ, ◌<◌, ◌≤◌, ◌≡◌, ◌≢◌, refl, ap, String, false, Option, none, some, List, [], ◌∷◌, get,
  if◌then◌else◌, str_eq, arith, eq_iff, get-set, Option-cases, Bool-cases, String-cases, inl, inr,
  sym, ◌∙◌, Among, All, subst, eq_refl,
}
use mcp4openapi.Consent.{
  StoredRecord, ConsentEvidence, ConsentRevocation, grant, revocation, ConsentIndex, empty_index,
  consent_evidence_key, consent_identity_key, grant_key, holder_key, revoked_key, replay, lookup,
  ConsentIdentityContext, ConsentLookupResult, ConsentGate, Principal, principal_identity, judge,
  evaluate, is_revoked, is_rolled_back, is_expired, apply, add_revocation, fold_record,
  evaluate_grant_fold, supersedes, other_rules,
}
use mcp4openapi.Consent.Newest.{later, when, newest, newest_revocation, replay_times}

-- What a principal that may dispatch has in the evidence.
pub record IsAccepted (g : ConsentGate) (now : ℕ) (state : ConsentLookupResult) : Type 0 where
  pub evidence : ConsentEvidence
  pub stored : state.grant ≡ some evidence
  pub same_rules : evidence.rules_hash ≡ g.expected_rules_hash
  pub is_latest : is_rolled_back g.config.rules_version state.latest_grant ≡ false
  pub stands : is_revoked evidence.granted_at state.revoked_at ≡ false
  pub recent : is_expired now evidence.granted_at g.max_age_ms ≡ false

accepted :
    (g : ConsentGate) (now : ℕ) (state : ConsentLookupResult) (e : ConsentEvidence)
    → state.grant ≡ some e
    → judge g now state ≡ none
    → IsAccepted g now state
unfolding judge
accepted g now state e there passed = record {
  evidence = e;
  stored = there;
  same_rules = ground (arith, eq_iff e.rules_hash g.expected_rules_hash);
  is_latest = ground arith;
  stands = ground arith;
  recent = ground arith;
}

judge-IsAccepted :
    (g : ConsentGate) (now : ℕ) (state : ConsentLookupResult)
    → judge g now state ≡ none
    → IsAccepted g now state
unfolding judge
judge-IsAccepted g now state passed = elim (Option-cases state.grant) [
  | inl absent ↦ absurd (ground arith)
  | inr (e, there) ↦ accepted g now state e there passed
]

pub evaluate-IsAccepted :
    (g : ConsentGate) (look : ConsentIdentityContext → String → String → ConsentLookupResult)
    (now : ℕ) (p : Principal) (issuer : String)
    → p.issuer ≡ some issuer
    → evaluate g look now (some p) ≡ none
    → IsAccepted g now (look (principal_identity p issuer) g.profile_id g.config.rules_version)
unfolding evaluate
evaluate-IsAccepted g look now p issuer e passed = judge-IsAccepted g now _ (ground arith)

-- At most `t`, where there is a time.
abbrev Within : ℕ → Option ℕ → Type 0
Within t none = Unit
Within t (some a) = a ≤ t

-- There is a time, and it is at least `t`.
abbrev Reaches : ℕ → Option ℕ → Type 0
Reaches t none = ⊥
Reaches t (some a) = t ≤ a

later-Within : (t : ℕ) (a b : Option ℕ) → Within t a → Within t b → Within t (later a b)
later-Within t none b h k = k
later-Within t (some a) none h k = h
later-Within t (some a) (some b) h k = ground arith

Reaches-later_left : (t : ℕ) (a b : Option ℕ) → Reaches t a → Reaches t (later a b)
Reaches-later_left t none b h = absurd h
Reaches-later_left t (some a) none h = h
Reaches-later_left t (some a) (some b) h = ground arith

Reaches-later_right : (t : ℕ) (a b : Option ℕ) → Reaches t b → Reaches t (later a b)
Reaches-later_right t none b h = h
Reaches-later_right t (some a) none h = absurd h
Reaches-later_right t (some a) (some b) h = ground arith

not_revoked-lt :
    (t accepted_at : ℕ) (o : Option ℕ)
    → Reaches t o
    → is_revoked accepted_at o ≡ false
    → t < accepted_at
not_revoked-lt t accepted_at none h e = absurd h
not_revoked-lt t accepted_at (some at) h e = ground arith

-- A latest acceptance is of these rules, if nothing is rolled back.
not_rolled_back :
    (version : String) (t : ℕ) (o : Option ConsentEvidence)
    → Reaches t (when o)
    → is_rolled_back version o ≡ false
    → (l : ConsentEvidence) × (o ≡ some l) × (t ≤ l.granted_at) × (l.rules_version ≡ version)
not_rolled_back version t none h e = absurd h
not_rolled_back version t (some l) h e =
    (l, refl, h, ground (arith, eq_iff l.rules_version version))

first_Reaches :
    {A : Type 0} (key : A → String) (time : A → ℕ) (a b : A)
    → a ≡ b
    → Reaches (time a) (if str_eq (key b) (key a) then some (time b) else none)
first_Reaches key time a b e =
    subst (λ x. Reaches (time a) (if str_eq (key x) (key a) then some (time x) else none)) e
      (rw (eq_refl (key a)) (omega arith))

module _ (json : List (Option String) → String) where
  -- The record is no acceptance with this key that is newer than the time.
  abbrev pub NotAfter : (ConsentEvidence → String) → String → ℕ → StoredRecord → Type 0
  NotAfter key k t (grant e) = key e ≡ k → e.granted_at ≤ t
  NotAfter key k t (revocation r) = Unit {0}

  newest-Within :
      (key : ConsentEvidence → String) (k : String) (t : ℕ) (rs : List StoredRecord)
      → All (NotAfter key k t) rs
      → Within t (newest json key k rs)
  newest-Within key k t [] h = tt
  newest-Within key k t (grant e ∷ rs) (first, h) = elim (String-cases (key e) k) [
    | inl (same, eq) ↦ rw eq (
        later-Within t (some e.granted_at) (newest json key k rs) (first same)
          (newest-Within key k t rs h))
    | inr (other, ne) ↦ rw ne (newest-Within key k t rs h)
  ]
  newest-Within key k t (revocation r ∷ rs) (first, h) = newest-Within key k t rs h

  newest_revocation-Reaches :
      (r : ConsentRevocation) (rs : List StoredRecord)
      → Among (revocation r) rs
      → Reaches r.revoked_at (newest_revocation json (revoked_key json r) rs)
  newest_revocation-Reaches r [] m = absurd m
  newest_revocation-Reaches r (grant e ∷ rs) (inl same) = absurd (cc)
  newest_revocation-Reaches r (grant e ∷ rs) (inr m) = newest_revocation-Reaches r rs m
  newest_revocation-Reaches r (revocation q ∷ rs) (inl same) =
      Reaches-later_left r.revoked_at _ (newest_revocation json (revoked_key json r) rs)
        (first_Reaches (revoked_key json) (λ x. x.revoked_at) r q (cc))
  newest_revocation-Reaches r (revocation q ∷ rs) (inr m) =
      Reaches-later_right r.revoked_at _ (newest_revocation json (revoked_key json r) rs)
        (newest_revocation-Reaches r rs m)

  newest-Reaches :
      (e : ConsentEvidence) (key : ConsentEvidence → String) (rs : List StoredRecord)
      → Among (grant e) rs
      → Reaches e.granted_at (newest json key (key e) rs)
  newest-Reaches e key [] m = absurd m
  newest-Reaches e key (grant d ∷ rs) (inl same) =
      Reaches-later_left e.granted_at _ (newest json key (key e) rs)
        (first_Reaches key (λ x. x.granted_at) e d (cc))
  newest-Reaches e key (grant d ∷ rs) (inr m) =
      Reaches-later_right e.granted_at _ (newest json key (key e) rs) (newest-Reaches e key rs m)
  newest-Reaches e key (revocation r ∷ rs) (inl same) = absurd (cc)
  newest-Reaches e key (revocation r ∷ rs) (inr m) = newest-Reaches e key rs m

  -- What holds of every acceptance of one identity holds of the latest.
  abbrev pub Satisfies : (ConsentEvidence → Type 0) → String → StoredRecord → Type 0
  Satisfies P k (grant e) = holder_key json e ≡ k → P e
  Satisfies P k (revocation r) = Unit {0}

  apply-latest :
      (P : ConsentEvidence → Type 0) (k : String) (e : ConsentEvidence) (s : ConsentIndex)
      → (holder_key json e ≡ k → P e)
      → ((l : ConsentEvidence) → get k s.latest_grants ≡ some l → P l)
      → (l : ConsentEvidence) → get k (apply json e s).0.latest_grants ≡ some l
      → P l
  unfolding apply evaluate_grant_fold
  apply-latest P k e s new old l h = elim (String-cases (holder_key json e) k) [
    | inl (same, eq) ↦
        elim (Bool-cases (supersedes other_rules e (get (holder_key json e) s.latest_grants))) [
          | inl written ↦
              let here : e ≡ l = ground (arith, get-set (holder_key json e) k e s.latest_grants) in
              subst P here (new same)
          | inr kept ↦ old l (ground arith)
        ]
    | inr (other, ne) ↦ old l (ground (arith, get-set (holder_key json e) k e s.latest_grants))
  ]

  replay-latest :
      (P : ConsentEvidence → Type 0) (k : String) (rs : List StoredRecord) (s : ConsentIndex)
      → All (Satisfies P k) rs
      → ((l : ConsentEvidence) → get k s.latest_grants ≡ some l → P l)
      → (l : ConsentEvidence) → get k (replay json rs s).latest_grants ≡ some l
      → P l
  unfolding replay fold_record add_revocation
  replay-latest P k [] s h old = old
  replay-latest P k (grant e ∷ rs) s (first, h) old =
      replay-latest P k rs (apply json e s).0 h (apply-latest P k e s first old)
  replay-latest P k (revocation r ∷ rs) s (first, h) old =
      replay-latest P k rs (add_revocation json r s) h old

  absent : (k : String) (l : ConsentEvidence) → ¬ (get k empty_index.latest_grants ≡ some l)
  unfolding get
  absent k l h = cc

  module _ (g : ConsentGate) (p : Principal) (issuer : String)
      (known : p.issuer ≡ some issuer) where
    abbrev key : String
    key =
        consent_evidence_key json (principal_identity p issuer) g.profile_id g.config.rules_version

    abbrev holder : String
    holder = consent_identity_key json (principal_identity p issuer) g.profile_id

    -- A principal whose consent was revoked may not dispatch, unless it accepted the rules after
    -- that, wherever the revocation stands among the records.
    pub revoked_denied :
        (now : ℕ) (rs : List StoredRecord) (r : ConsentRevocation)
        → Among (revocation r) rs
        → revoked_key json r ≡ holder
        → All (NotAfter (grant_key json) key r.revoked_at) rs
        → evaluate g (lookup json (replay json rs empty_index)) now (some p) ≢ none
    revoked_denied now rs r m mine old passed =
        let a =
          evaluate-IsAccepted g (lookup json (replay json rs empty_index)) now p issuer known
            passed in
        let (granted, _, withdrawn) =
          replay_times json (principal_identity p issuer) g.profile_id g.config.rules_version rs in
        let counted : newest json (grant_key json) key rs ≡ some a.evidence.granted_at =
          sym granted ∙ ap when a.stored in
        let before : a.evidence.granted_at ≤ r.revoked_at =
          subst (Within r.revoked_at) counted
            (newest-Within (grant_key json) key r.revoked_at rs old) in
        let behind =
          not_revoked-lt r.revoked_at a.evidence.granted_at _
            (subst (Reaches r.revoked_at)
              (ap (λ k. newest_revocation json k rs) mine ∙ sym withdrawn)
              (newest_revocation-Reaches r rs m))
            a.stands in
        omega arith

    -- A principal that accepted other rules after every acceptance of these may not dispatch: a
    -- return to an older version of the rules does not bring the older acceptance back.
    pub rollback_denied :
        (now : ℕ) (rs : List StoredRecord) (e : ConsentEvidence)
        → Among (grant e) rs
        → holder_key json e ≡ holder
        → e.rules_version ≢ g.config.rules_version
        → All
            (Satisfies
              (λ d. d.rules_version ≡ g.config.rules_version → d.granted_at < e.granted_at)
              holder)
            rs
        → evaluate g (lookup json (replay json rs empty_index)) now (some p) ≢ none
    rollback_denied now rs e m mine other early passed =
        let a =
          evaluate-IsAccepted g (lookup json (replay json rs empty_index)) now p issuer known
            passed in
        let (_, latest, _) =
          replay_times json (principal_identity p issuer) g.profile_id g.config.rules_version rs in
        let newest_at =
          subst (Reaches e.granted_at)
            (ap (λ k. newest json (holder_key json) k rs) mine ∙ sym latest)
            (newest-Reaches e (holder_key json) rs m) in
        let (l, stored, after, current) =
          not_rolled_back g.config.rules_version e.granted_at _ newest_at a.is_latest in
        let before =
          replay-latest
            (λ d. d.rules_version ≡ g.config.rules_version → d.granted_at < e.granted_at) holder rs
            empty_index early (λ d none_yet. absurd (absent holder d none_yet)) l stored current in
        absurd (omega arith)
