-- ===== src/Consent.antt =====
-- src/auth/consent-gate.ts, src/auth/consent-evidence-store.ts and src/auth/issuer.ts: the gate
-- before every tool call of a profile that asks for consent, and the index of the evidence.
-- JSON.stringify, which makes the keys, and the digest of the rules are parameters.
pub mod Newest
pub mod Answers
pub mod Revocation
pub mod Acceptance
pub mod File
mod Tests
use mcp4openapi.Prelude.{
  ℕ, ◌*◌, ◌-◌, String, Bool, true, false, not, ◌&&◌, ◌||◌, Option, none, some, List, [], ◌∷◌, Map,
  get, set, leb, ltb, ◌==◌, if◌then◌else◌, str_eq,
}
use Prim.Native.Char.{code}

-- Drops one slash at the end.
unfoldable pub normalize_issuer : String → String
normalize_issuer String.[] = String.[]
normalize_issuer (String.◌∷◌ c String.[]) =
    if code c == b'/' then String.[] else String.◌∷◌ c String.[]
normalize_issuer (String.◌∷◌ c (String.◌∷◌ d s)) = String.◌∷◌ c (normalize_issuer (String.◌∷◌ d s))

pub record ConsentIdentityContext : Type 0 where
  pub sub : String
  pub issuer : String
  pub tenant_id : Option String

pub record ConsentEvidence : Type 0 where
  pub identity : ConsentIdentityContext
  pub profile_id : String
  pub rules_version : String
  pub rules_hash : String
  pub granted_at : ℕ

pub record ConsentRevocation : Type 0 where
  pub identity : ConsentIdentityContext
  pub profile_id : String
  pub revoked_at : ℕ

pub data StoredRecord : Type 0 where
  grant : ConsentEvidence → StoredRecord
  revocation : ConsentRevocation → StoredRecord

pub record ConsentLookupResult : Type 0 where
  pub grant : Option ConsentEvidence
  pub latest_grant : Option ConsentEvidence
  pub revoked_at : Option ℕ

pub record ConsentGrantFold : Type 0 where
  pub updates_grant : Bool
  pub updates_latest_grant : Bool

-- Newer than the acceptance that is known, or of the same time and other content.
abbrev pub supersedes :
    (ConsentEvidence → ConsentEvidence → Bool) → ConsentEvidence → Option ConsentEvidence → Bool
supersedes differs e none = true
supersedes differs e (some known) =
    ltb known.granted_at e.granted_at || (e.granted_at == known.granted_at && differs e known)

abbrev pub other_hash : ConsentEvidence → ConsentEvidence → Bool
other_hash e known = not (str_eq e.rules_hash known.rules_hash)

abbrev pub other_rules : ConsentEvidence → ConsentEvidence → Bool
other_rules e known = not (str_eq e.rules_version known.rules_version) || other_hash e known

unfoldable pub evaluate_grant_fold :
    ConsentEvidence → Option ConsentEvidence → Option ConsentEvidence → ConsentGrantFold
evaluate_grant_fold e newest_for_key newest_for_identity = record {
  updates_grant = supersedes other_hash e newest_for_key;
  updates_latest_grant = supersedes other_rules e newest_for_identity;
}

pub record ConsentIndex : Type 0 where
  pub grants : Map ConsentEvidence
  pub latest_grants : Map ConsentEvidence
  pub revocations : Map ℕ

abbrev pub empty_index : ConsentIndex
empty_index = record { grants = []; latest_grants = []; revocations = [] }

-- `json` makes the text of a tuple; `none` is null.
module _ (json : List (Option String) → String) where
  abbrev pub consent_evidence_key : ConsentIdentityContext → String → String → String
  consent_evidence_key i profile_id rules_version =
      json (some i.sub ∷ some i.issuer ∷ i.tenant_id ∷ some profile_id ∷ some rules_version ∷ [])

  abbrev pub consent_identity_key : ConsentIdentityContext → String → String
  consent_identity_key i profile_id =
      json (some i.sub ∷ some i.issuer ∷ i.tenant_id ∷ some profile_id ∷ [])

  abbrev pub grant_key : ConsentEvidence → String
  grant_key e = consent_evidence_key e.identity e.profile_id e.rules_version

  abbrev pub holder_key : ConsentEvidence → String
  holder_key e = consent_identity_key e.identity e.profile_id

  abbrev pub revoked_key : ConsentRevocation → String
  revoked_key r = consent_identity_key r.identity r.profile_id

  -- The result tells whether something changed.
  unfoldable pub apply : ConsentEvidence → ConsentIndex → ConsentIndex × Bool
  apply e s =
      let fold =
        evaluate_grant_fold e (get (grant_key e) s.grants) (get (holder_key e) s.latest_grants) in
      (
        record s {
          grants = if fold.updates_grant then set (grant_key e) e s.grants else s.grants;
          latest_grants =
              if fold.updates_latest_grant
              then set (holder_key e) e s.latest_grants
              else s.latest_grants;
        },
        fold.updates_grant || fold.updates_latest_grant,
      )

  unfoldable pub add_revocation : ConsentRevocation → ConsentIndex → ConsentIndex
  add_revocation r s = record s {
    revocations = elim (get (revoked_key r) s.revocations) [
      | none ↦ set (revoked_key r) r.revoked_at s.revocations
      | some known ↦
          if ltb known r.revoked_at
          then set (revoked_key r) r.revoked_at s.revocations
          else s.revocations
    ];
  }

  abbrev pub lookup : ConsentIndex → ConsentIdentityContext → String → String → ConsentLookupResult
  lookup s i profile_id rules_version = record {
    grant = get (consent_evidence_key i profile_id rules_version) s.grants;
    latest_grant = get (consent_identity_key i profile_id) s.latest_grants;
    revoked_at = get (consent_identity_key i profile_id) s.revocations;
  }

  -- One line of the evidence, folded into the index.
  unfoldable pub fold_record : StoredRecord → ConsentIndex → ConsentIndex
  fold_record (grant e) s = (apply e s).0
  fold_record (revocation r) s = add_revocation r s

  unfoldable pub replay : List StoredRecord → ConsentIndex → ConsentIndex
  replay [] s = s
  replay (r ∷ rs) s = replay rs (fold_record r s)

pub data AuthType : Type 0 where
  oauth : AuthType
  enterprise : AuthType
  token : AuthType

pub record Principal : Type 0 where
  pub auth_type : AuthType
  pub subject : String
  pub issuer : Option String
  pub tenant_id : Option String

pub data ConsentDenialReason : Type 0 where
  no_principal : ConsentDenialReason
  auth_type_mismatch : ConsentDenialReason
  issuer_mismatch : ConsentDenialReason
  no_evidence : ConsentDenialReason
  rules_changed : ConsentDenialReason
  rules_rollback : ConsentDenialReason
  revoked : ConsentDenialReason
  expired : ConsentDenialReason

pub record ConsentGateConfig : Type 0 where
  pub required : Bool
  pub rules_version : String
  pub max_age_days : Option ℕ

pub record ConsentGate : Type 0 where
  pub profile_id : String
  pub config : ConsentGateConfig
  pub expected_rules_hash : String
  pub max_age_ms : Option ℕ
  pub expected_issuer : Option String

abbrev pub truthy : Option String → Option String
truthy none = none
truthy (some text) = if str_eq text "" then none else some text

-- The constructor; the digest of the rules is given.
unfoldable pub new_gate : String → ConsentGateConfig → String → Option String → ConsentGate
new_gate profile_id config rules_hash expected_issuer = record {
  profile_id = profile_id;
  config = config;
  expected_rules_hash = rules_hash;
  max_age_ms = elim config.max_age_days [
    | none ↦ none
    | some days ↦ some (days * 24 * 60 * 60 * 1000)
  ];
  expected_issuer = elim (truthy expected_issuer) [
    | none ↦ none
    | some issuer ↦ some (normalize_issuer issuer)
  ];
}

abbrev pub is_oauth : AuthType → Bool
is_oauth oauth = true
is_oauth enterprise = false
is_oauth token = false

-- The latest acceptance is of other rules.
abbrev pub is_rolled_back : String → Option ConsentEvidence → Bool
is_rolled_back version none = false
is_rolled_back version (some latest) = not (str_eq latest.rules_version version)

abbrev pub is_revoked : ℕ → Option ℕ → Bool
is_revoked accepted_at none = false
is_revoked accepted_at (some revoked_at) = leb accepted_at revoked_at

abbrev pub is_expired : ℕ → ℕ → Option ℕ → Bool
is_expired now accepted_at none = false
is_expired now accepted_at (some max_age) = ltb max_age (now - accepted_at)

-- What the evidence says, from the test of the grant to the end of the function.
unfoldable pub judge : ConsentGate → ℕ → ConsentLookupResult → Option ConsentDenialReason
judge g now state = elim state.grant [
  | none ↦ some no_evidence
  | some e ↦
      if not (str_eq e.rules_hash g.expected_rules_hash)
      then some rules_changed
      else if is_rolled_back g.config.rules_version state.latest_grant
      then some rules_rollback
      else if is_revoked e.granted_at state.revoked_at
      then some revoked
      else if is_expired now e.granted_at g.max_age_ms
      then some expired
      else none
]

abbrev pub other_issuer : String → Option String → Bool
other_issuer issuer none = false
other_issuer issuer (some expected) = not (str_eq expected "") && not (str_eq issuer expected)

abbrev pub principal_identity : Principal → String → ConsentIdentityContext
principal_identity p issuer = record {
  sub = p.subject;
  issuer = normalize_issuer issuer;
  tenant_id = p.tenant_id;
}

-- `none` means that the principal may dispatch; the second argument is the store's lookup.
unfoldable pub evaluate :
    ConsentGate
    → (ConsentIdentityContext → String → String → ConsentLookupResult)
    → ℕ
    → Option Principal
    → Option ConsentDenialReason
evaluate g look now none = some no_principal
evaluate g look now (some p) = elim (truthy p.issuer) [
  | none ↦ some no_principal
  | some issuer ↦
      if str_eq p.subject ""
      then some no_principal
      else if not (is_oauth p.auth_type)
      then some auth_type_mismatch
      else if other_issuer (normalize_issuer issuer) g.expected_issuer
      then some issuer_mismatch
      else judge g now (look (principal_identity p issuer) g.profile_id g.config.rules_version)
]

-- The reason of the `ConsentRequiredError` that is thrown, if one is.
unfoldable pub assert_consent :
    ConsentGate
    → (ConsentIdentityContext → String → String → ConsentLookupResult)
    → ℕ
    → Option Principal
    → Option ConsentDenialReason
assert_consent g look now p = if g.config.required then evaluate g look now p else none

abbrev pub as_principal : ConsentIdentityContext → Principal
as_principal i = record {
  auth_type = oauth;
  subject = i.sub;
  issuer = some i.issuer;
  tenant_id = i.tenant_id;
}

-- The same policy for an identity that the login has just verified.
unfoldable pub is_granted :
    ConsentGate
    → (ConsentIdentityContext → String → String → ConsentLookupResult)
    → ℕ
    → ConsentIdentityContext
    → Bool
is_granted g look now i = elim (evaluate g look now (some (as_principal i))) [
  | none ↦ true
  | some reason ↦ false
]
