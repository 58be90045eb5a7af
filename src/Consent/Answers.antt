-- ===== src/Consent/Answers.antt =====
-- Which acceptances and revocation the index of the evidence answers with.
use mcp4openapi.Prelude.{
  ℕ, Bool, Map, String-cases, Bool-cases, ◌≡◌, refl, ap, String, Option, none, some, List, [], ◌∷◌,
  get, set, get-set, ltb, ◌==◌, if◌then◌else◌, str_eq, arith, eq_iff, Option-cases, inl, inr, ◌⊎◌,
  sym, ◌∙◌, true, false, Among,
}
use mcp4openapi.Consent.{
  StoredRecord, ConsentEvidence, grant, revocation, ConsentIndex, empty_index, consent_evidence_key,
  consent_identity_key, grant_key, holder_key, apply, add_revocation, fold_record, replay, lookup,
  ConsentIdentityContext, evaluate_grant_fold, supersedes, other_hash, other_rules,
}
use mcp4openapi.Consent.Newest.{newest_revocation, replay_times}

-- The newer of two acceptances, the second of which was recorded behind the first: it stands where
-- both have the same time.
abbrev pub newer : ConsentEvidence → Option ConsentEvidence → Option ConsentEvidence
newer e none = some e
newer e (some d) = if ltb d.granted_at e.granted_at then some e else some d

-- The newest acceptance with this key, the last recorded one of those with the greatest time.
abbrev pub newest_grant :
    (ConsentEvidence → String) → String → List StoredRecord → Option ConsentEvidence
newest_grant key k [] = none
newest_grant key k (grant e ∷ rs) =
    if str_eq (key e) k then newer e (newest_grant key k rs) else newest_grant key k rs
newest_grant key k (revocation r ∷ rs) = newest_grant key k rs

if_same : {A : Type 0} (b : Bool) (x : A) → (if b then x else x) ≡ x
if_same true x = refl
if_same false x = refl

get_written :
    (b : Bool) (j k : String) (e : ConsentEvidence) (m : Map ConsentEvidence)
    → get k (if b then set j e m else m)
      ≡ (if str_eq j k then (if b then some e else get k m) else (if b then get k m else get k m))
get_written true j k e m = get-set j k e m
get_written false j k e m = sym (if_same (str_eq j k) (get k m))

-- What is found behind a write was written, or was there.
written_from :
    (b : Bool) (j k : String) (d e : ConsentEvidence) (m : Map ConsentEvidence)
    → get k (if b then set j d m else m) ≡ some e
    → ((e ≡ d) × (j ≡ k)) ⊎ (get k m ≡ some e)
written_from false j k d e m h = inr h
written_from true j k d e m h = elim (String-cases j k) [
  | inl (eq, hit) ↦
      let found : some d ≡ some e = ground (arith, get-set j k d m) in inl (ground arith, eq)
  | inr (ne, miss) ↦ inr (ground (arith, get-set j k d m))
]

module _ {A : Type 0} where
  -- The time of an acceptance and what was accepted.
  abbrev pub content : (ConsentEvidence → A) → Option ConsentEvidence → Option (ℕ × A)
  content tag none = none
  content tag (some e) = some (e.granted_at, tag e)

  abbrev latest : Option (ℕ × A) → Option (ℕ × A) → Option (ℕ × A)
  latest none t = t
  latest (some a) none = some a
  latest (some a) (some b) = if ltb b.0 a.0 then some a else some b

  latest_assoc : (a b c : Option (ℕ × A)) → latest (latest a b) c ≡ latest a (latest b c)
  latest_assoc none b c = refl
  latest_assoc (some a) none c = refl
  latest_assoc (some a) (some b) none = ground arith
  latest_assoc (some a) (some b) (some c) = ground arith

  latest-none : (a : Option (ℕ × A)) → latest a none ≡ a
  latest-none none = refl
  latest-none (some a) = refl

  module _ (tag : ConsentEvidence → A) where
    -- An acceptance, if it has the key.
    abbrev offered : String → String → ConsentEvidence → Option (ℕ × A)
    offered j k e = if str_eq j k then some (e.granted_at, tag e) else none

    newer-content :
        (e : ConsentEvidence) (d : Option ConsentEvidence)
        → content tag (newer e d) ≡ latest (some (e.granted_at, tag e)) (content tag d)
    newer-content e none = refl
    newer-content e (some d) = ground arith

    newest_grant-content :
        (key : ConsentEvidence → String) (k : String) (e : ConsentEvidence) (rs : List StoredRecord)
        → content tag (newest_grant key k (grant e ∷ rs))
          ≡ latest (offered (key e) k e) (content tag (newest_grant key k rs))
    newest_grant-content key k e rs = elim (Bool-cases (str_eq (key e) k)) [
      | inl same ↦ rw same (newer-content e (newest_grant key k rs))
      | inr other ↦ rw other refl
    ]

    superseding_known :
        (differs : ConsentEvidence → ConsentEvidence → Bool) (e d : ConsentEvidence)
        → (differs e d ≡ false → tag e ≡ tag d)
        → content tag (if supersedes differs e (some d) then some e else some d)
          ≡ latest (some (d.granted_at, tag d)) (some (e.granted_at, tag e))
    superseding_known differs e d same = elim (Bool-cases (ltb d.granted_at e.granted_at)) [
      | inl less ↦ ground arith
      | inr not_less ↦ elim (Bool-cases (e.granted_at == d.granted_at)) [
        | inr other ↦ ground arith
        | inl equal ↦ elim (Bool-cases (differs e d)) [
          | inl other ↦ ground arith
          | inr alike ↦
              let t : e.granted_at ≡ d.granted_at = ground arith in
              rw (same alike, t) (ground arith)
        ]
      ]
    ]

    superseding :
        (differs : ConsentEvidence → ConsentEvidence → Bool) (j k : String) (e : ConsentEvidence)
        (m : Map ConsentEvidence)
        → ((d : ConsentEvidence) → differs e d ≡ false → tag e ≡ tag d)
        → content tag (get k (if supersedes differs e (get j m) then set j e m else m))
          ≡ latest (content tag (get k m)) (offered j k e)
    superseding differs j k e m same = elim (String-cases j k) [
      | inl (eq, hit) ↦
          rw (get_written (supersedes differs e (get j m)) j k e m, hit, eq)
            (elim (Option-cases (get k m)) [
              | inl fresh ↦ rw fresh refl
              | inr (d, there) ↦ rw there (superseding_known differs e d (same d))
            ])
      | inr (ne, miss) ↦
          rw (get_written (supersedes differs e (get j m)) j k e m, miss)
            (ap (content tag) (if_same (supersedes differs e (get j m)) (get k m))
              ∙ sym (latest-none (content tag (get k m))))
    ]

same_hash : (e d : ConsentEvidence) → other_hash e d ≡ false → e.rules_hash ≡ d.rules_hash
same_hash e d h = ground (arith, eq_iff e.rules_hash d.rules_hash)

abbrev pub rules : ConsentEvidence → String × String
rules e = (e.rules_version, e.rules_hash)

same_rules : (e d : ConsentEvidence) → other_rules e d ≡ false → rules e ≡ rules d
same_rules e d h =
    ground (arith, eq_iff e.rules_hash d.rules_hash, eq_iff e.rules_version d.rules_version)

-- An acceptance that stands among the records under the key.
abbrev pub Recorded :
    (ConsentEvidence → String) → String → List StoredRecord → Option ConsentEvidence → Type 0
Recorded key k rs none = Unit
Recorded key k rs (some e) = Among (grant e) rs × (key e ≡ k)

recorded :
    (key : ConsentEvidence → String) (k : String) (rs : List StoredRecord)
    (found : Option ConsentEvidence)
    → ((e : ConsentEvidence) → found ≡ some e → Among (grant e) rs × (key e ≡ k))
    → Recorded key k rs found
recorded key k rs none h = tt
recorded key k rs (some e) h = h e refl

-- Nothing is found in the empty index.
from_records : {P : Type 0} {e : ConsentEvidence} → P ⊎ (none ≡ some e) → P
from_records (inl p) = p
from_records (inr h) = absurd (ground arith)

module _ (json : List (Option String) → String) (k : String) where
  grants_content :
      (rs : List StoredRecord) (s : ConsentIndex)
      → content (λ e. e.rules_hash) (get k (replay json rs s).grants)
        ≡ latest
            (content (λ e. e.rules_hash) (get k s.grants))
            (content (λ e. e.rules_hash) (newest_grant (grant_key json) k rs))
  unfolding replay fold_record add_revocation apply evaluate_grant_fold
  grants_content [] s = sym (latest-none _)
  grants_content (grant e ∷ rs) s =
      grants_content rs (apply json e s).0
      ∙ ap (λ a. latest a (content (λ e. e.rules_hash) (newest_grant (grant_key json) k rs)))
          (superseding (λ e. e.rules_hash) other_hash (grant_key json e) k e s.grants
            (λ d. same_hash e d))
      ∙ latest_assoc (content (λ e. e.rules_hash) (get k s.grants)) _ _
      ∙ ap (latest (content (λ e. e.rules_hash) (get k s.grants)))
          (sym (newest_grant-content (λ e. e.rules_hash) (grant_key json) k e rs))
  grants_content (revocation r ∷ rs) s = grants_content rs (add_revocation json r s)

  held_content :
      (rs : List StoredRecord) (s : ConsentIndex)
      → content rules (get k (replay json rs s).latest_grants)
        ≡ latest
            (content rules (get k s.latest_grants))
            (content rules (newest_grant (holder_key json) k rs))
  unfolding replay fold_record add_revocation apply evaluate_grant_fold
  held_content [] s = sym (latest-none _)
  held_content (grant e ∷ rs) s =
      held_content rs (apply json e s).0
      ∙ ap (λ a. latest a (content rules (newest_grant (holder_key json) k rs)))
          (superseding rules other_rules (holder_key json e) k e s.latest_grants
            (λ d. same_rules e d))
      ∙ latest_assoc (content rules (get k s.latest_grants)) _ _
      ∙ ap (latest (content rules (get k s.latest_grants)))
          (sym (newest_grant-content rules (holder_key json) k e rs))
  held_content (revocation r ∷ rs) s = held_content rs (add_revocation json r s)

  grants_recorded :
      (rs : List StoredRecord) (s : ConsentIndex) (e : ConsentEvidence)
      → get k (replay json rs s).grants ≡ some e
      → (Among (grant e) rs × (grant_key json e ≡ k)) ⊎ (get k s.grants ≡ some e)
  unfolding replay fold_record add_revocation apply
  grants_recorded [] s e h = inr h
  grants_recorded (grant d ∷ rs) s e h = elim (grants_recorded rs (apply json d s).0 e h) [
    | inl (later, same) ↦ inl (inr later, same)
    | inr there ↦ elim (written_from _ (grant_key json d) k d e s.grants there) [
      | inl (eq, same) ↦ inl (inl (ap grant eq), ap (grant_key json) eq ∙ same)
      | inr before ↦ inr before
    ]
  ]
  grants_recorded (revocation r ∷ rs) s e h =
      elim (grants_recorded rs (add_revocation json r s) e h) [
        | inl (later, same) ↦ inl (inr later, same)
        | inr there ↦ inr there
      ]

  latest_recorded :
      (rs : List StoredRecord) (s : ConsentIndex) (e : ConsentEvidence)
      → get k (replay json rs s).latest_grants ≡ some e
      → (Among (grant e) rs × (holder_key json e ≡ k)) ⊎ (get k s.latest_grants ≡ some e)
  unfolding replay fold_record add_revocation apply
  latest_recorded [] s e h = inr h
  latest_recorded (grant d ∷ rs) s e h = elim (latest_recorded rs (apply json d s).0 e h) [
    | inl (later, same) ↦ inl (inr later, same)
    | inr there ↦ elim (written_from _ (holder_key json d) k d e s.latest_grants there) [
      | inl (eq, same) ↦ inl (inl (ap grant eq), ap (holder_key json) eq ∙ same)
      | inr before ↦ inr before
    ]
  ]
  latest_recorded (revocation r ∷ rs) s e h =
      elim (latest_recorded rs (add_revocation json r s) e h) [
        | inl (later, same) ↦ inl (inr later, same)
        | inr there ↦ inr there
      ]

-- The index answers with acceptances that stand among the records under their keys: for these rules
-- and for any rules of the identity, with the time and the rules of the newest one, which is the last
-- recorded one of those with the greatest time. The revocation is the newest one.
pub lookup_newest :
    (json : List (Option String) → String) (i : ConsentIdentityContext) (profile version : String)
    (rs : List StoredRecord)
    → (let found = lookup json (replay json rs empty_index) i profile version in
        let key = consent_evidence_key json i profile version in
        let holder = consent_identity_key json i profile in
        (content (λ e. e.rules_hash) found.grant
          ≡ content (λ e. e.rules_hash) (newest_grant (grant_key json) key rs))
        × (content rules found.latest_grant
            ≡ content rules (newest_grant (holder_key json) holder rs))
        × Recorded (grant_key json) key rs found.grant
        × Recorded (holder_key json) holder rs found.latest_grant
        × (found.revoked_at ≡ newest_revocation json holder rs))
unfolding get
lookup_newest json i profile version rs =
    let key = consent_evidence_key json i profile version in
    let holder = consent_identity_key json i profile in
    (
      grants_content json key rs empty_index,
      held_content json holder rs empty_index,
      recorded (grant_key json) key rs _
          (λ e h. from_records (grants_recorded json key rs empty_index e h)),
      recorded (holder_key json) holder rs _
          (λ e h. from_records (latest_recorded json holder rs empty_index e h)),
      (replay_times json i profile version rs).2,
    )
