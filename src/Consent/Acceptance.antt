-- ===== src/Consent/Acceptance.antt =====
-- An acceptance lets its own principal dispatch at once, until it is too old.
use mcp4openapi.Prelude.{
  ℕ, ◌<◌, ◌≡◌, ◌≢◌, refl, ap, subst, sym, String, Bool, false, true, Option, none, some, List, [],
  ◌∷◌, get, get-set_self, leb, if◌then◌else◌, str_eq, arith, eq_iff, eq_refl, ◌∙◌, All,
}
use mcp4openapi.Consent.{
  StoredRecord, ConsentEvidence, ConsentIdentityContext, grant, revocation, ConsentIndex,
  empty_index, grant_key, holder_key, apply, fold_record, replay, lookup, ConsentGate, Principal,
  oauth, truthy, expired, other_hash, other_rules, supersedes, other_issuer, principal_identity,
  judge, evaluate, is_expired, normalize_issuer, evaluate_grant_fold, ConsentLookupResult,
}
use mcp4openapi.Consent.Newest.{later, when, newest, newest_revocation, replay_times}

abbrev pub time_of : StoredRecord → ℕ
time_of (grant e) = e.granted_at
time_of (revocation r) = r.revoked_at

-- Before `t`, where there is a time.
abbrev Under : ℕ → Option ℕ → Type 0
Under t none = Unit
Under t (some a) = a < t

later-Under : (t : ℕ) (a b : Option ℕ) → Under t a → Under t b → Under t (later a b)
later-Under t none b h k = k
later-Under t (some a) none h k = h
later-Under t (some a) (some b) h k = ground arith

optional-Under : (t a : ℕ) (b : Bool) → a < t → Under t (if b then some a else none)
optional-Under t a true h = h
optional-Under t a false h = tt

supersedes-Under :
    (differs : ConsentEvidence → ConsentEvidence → Bool) (e : ConsentEvidence)
    (o : Option ConsentEvidence)
    → Under e.granted_at (when o)
    → supersedes differs e o ≡ true
supersedes-Under differs e none h = refl
supersedes-Under differs e (some known) h = ground arith

module _ (json : List (Option String) → String) where
  newest-Under :
      (key : ConsentEvidence → String) (k : String) (t : ℕ) (rs : List StoredRecord)
      → All (λ r. time_of r < t) rs
      → Under t (newest json key k rs)
  newest-Under key k t [] h = tt
  newest-Under key k t (grant e ∷ rs) (first, h) =
      later-Under t (if str_eq (key e) k then some e.granted_at else none) (newest json key k rs)
        (optional-Under t _ _ first) (newest-Under key k t rs h)
  newest-Under key k t (revocation r ∷ rs) (first, h) = newest-Under key k t rs h

  newest_revocation-Under :
      (k : String) (t : ℕ) (rs : List StoredRecord)
      → All (λ r. time_of r < t) rs
      → Under t (newest_revocation json k rs)
  newest_revocation-Under k t [] h = tt
  newest_revocation-Under k t (grant e ∷ rs) (first, h) = newest_revocation-Under k t rs h
  newest_revocation-Under k t (revocation r ∷ rs) (first, h) =
      later-Under t _ (newest_revocation json k rs) (optional-Under t _ _ first)
        (newest_revocation-Under k t rs h)

  -- What the index answers right after a newer acceptance.
  lookup-apply :
      (e : ConsentEvidence) (s : ConsentIndex)
      → Under e.granted_at (when (get (grant_key json e) s.grants))
      → Under e.granted_at (when (get (holder_key json e) s.latest_grants))
      → lookup json (apply json e s).0 e.identity e.profile_id e.rules_version ≡ record {
        grant = some e;
        latest_grant = some e;
        revoked_at = get (holder_key json e) s.revocations;
      }
  unfolding apply evaluate_grant_fold
  lookup-apply e s a b =
      rw
        (
          supersedes-Under other_hash e _ a,
          supersedes-Under other_rules e _ b,
          get-set_self (grant_key json e) e s.grants,
          get-set_self (holder_key json e) e s.latest_grants,
        )
        refl

judge_fresh :
    (g : ConsentGate) (now : ℕ) (e : ConsentEvidence) (o : Option ℕ)
    → Under e.granted_at o
    → e.rules_hash ≡ g.expected_rules_hash
    → e.rules_version ≡ g.config.rules_version
    → judge g now (record { grant = some e; latest_grant = some e; revoked_at = o })
      ≡ (if is_expired now e.granted_at g.max_age_ms then some expired else none)
unfolding judge
judge_fresh g now e none h hash version =
    rw (hash, version, eq_refl g.expected_rules_hash, eq_refl g.config.rules_version) refl
judge_fresh g now e (some t) h hash version =
    let stands : leb e.granted_at t ≡ false = ground arith in
    rw (hash, version, eq_refl g.expected_rules_hash, eq_refl g.config.rules_version, stands) refl

evaluate-judge :
    (g : ConsentGate) (look : ConsentIdentityContext → String → String → ConsentLookupResult)
    (now : ℕ) (p : Principal) (issuer : String)
    → p.auth_type ≡ oauth
    → p.subject ≢ ""
    → truthy p.issuer ≡ some issuer
    → other_issuer (normalize_issuer issuer) g.expected_issuer ≡ false
    → evaluate g look now (some p)
      ≡ judge g now (look (principal_identity p issuer) g.profile_id g.config.rules_version)
unfolding evaluate
evaluate-judge g look now p issuer login subject issued same_issuer =
    let named : str_eq p.subject "" ≡ false = ground (arith, eq_iff p.subject "") in
    rw (issued, evaluate, named, login, same_issuer) refl

-- The acceptance is the principal's, of the rules that the gate asks for.
pub record IsFor (g : ConsentGate) (p : Principal) (issuer : String) (e : ConsentEvidence)
    : Type 0 where
  pub who : e.identity ≡ principal_identity p issuer
  pub where_to : e.profile_id ≡ g.profile_id
  pub version : e.rules_version ≡ g.config.rules_version
  pub hash : e.rules_hash ≡ g.expected_rules_hash

lookup_eq :
    (look : ConsentIdentityContext → String → String → ConsentLookupResult)
    {i j : ConsentIdentityContext} {a b c d : String}
    → i ≡ j
    → a ≡ b
    → c ≡ d
    → look i a c ≡ look j b d
lookup_eq look p q r = cc

-- A principal of the profile's login that accepts the present rules, later than all that is
-- recorded, may dispatch from then on, and until its acceptance is older than the gate allows.
pub accepted_granted :
    (json : List (Option String) → String) (g : ConsentGate) (p : Principal) (issuer : String)
    (e : ConsentEvidence) (rs : List StoredRecord) (now : ℕ)
    → All (λ r. time_of r < e.granted_at) rs
    → p.auth_type ≡ oauth
    → p.subject ≢ ""
    → truthy p.issuer ≡ some issuer
    → other_issuer (normalize_issuer issuer) g.expected_issuer ≡ false
    → IsFor g p issuer e
    → evaluate g
        (lookup json (fold_record json (grant e) (replay json rs empty_index)))
        now
        (some p)
      ≡ (if is_expired now e.granted_at g.max_age_ms then some expired else none)
unfolding evaluate fold_record
accepted_granted json g p issuer e rs now older login subject issued same_issuer own =
    let s = replay json rs empty_index in
    let (granted, latest, withdrawn) =
      replay_times json e.identity e.profile_id e.rules_version rs in
    let t = e.granted_at in
    let found =
      lookup-apply json e s
        (subst (Under t) (sym granted)
          (newest-Under json (grant_key json) (grant_key json e) t rs older))
        (subst (Under t) (sym latest)
          (newest-Under json (holder_key json) (holder_key json e) t rs older)) in
    let stands =
      subst (Under t) (sym withdrawn)
        (newest_revocation-Under json (holder_key json e) t rs older) in
    evaluate-judge g (lookup json (apply json e s).0) now p issuer login subject issued same_issuer
    ∙ ap (judge g now) (
        lookup_eq (lookup json (apply json e s).0) (sym own.who) (sym own.where_to)
          (sym own.version)
        ∙ found)
    ∙ judge_fresh g now e _ stands own.hash own.version
