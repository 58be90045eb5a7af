-- ===== src/Consent/Tests.antt =====
-- The theorems at concrete inputs, with a plain joining of the parts for JSON.
use mcp4openapi.Prelude.{
  ◌≡◌, ◌≢◌, refl, String, true, false, Option, none, some, List, [], ◌∷◌, get, set, inl, inr, arith,
  eq_iff,
}
use Prim.Native.String.{◌++◌ as joined}
use mcp4openapi.Consent.{
  ConsentEvidence, ConsentRevocation, grant, revocation, ConsentGate, Principal, oauth, new_gate,
  evaluate, judge, replay, fold_record, apply, add_revocation, evaluate_grant_fold, empty_index,
  lookup, normalize_issuer, ConsentIdentityContext, consent_evidence_key, consent_identity_key,
  revoked, grant_key, holder_key,
}
use mcp4openapi.Consent.{StoredRecord}
use mcp4openapi.Consent.Newest.{newest_revocation}
use mcp4openapi.Consent.Answers.{lookup_newest, content, rules, newest_grant, Recorded}
use mcp4openapi.Consent.Revocation.{revoked_denied, rollback_denied}
use mcp4openapi.Consent.Acceptance.{accepted_granted}
use mcp4openapi.Consent.File.{
  new_file, perform_all, perform, lookup_file, persist_grant, persist_revocation, reload_if_changed,
  reset_watermark, append_line, Operation, record_grant, revoke, peer, lines,
}
use mcp4openapi.Consent.File.Synced.{lookup-lines}

abbrev to_json : List (Option String) → String
to_json [] = "]"
to_json (none ∷ ts) = joined "null," (to_json ts)
to_json (some t ∷ ts) = joined t (joined "," (to_json ts))

abbrev alice : ConsentIdentityContext
alice = record { sub = "alice"; issuer = "https://idp"; tenant_id = none }

abbrev alice_principal : Principal
alice_principal = record {
  auth_type = oauth;
  subject = "alice";
  issuer = some "https://idp/";
  tenant_id = none;
}

abbrev accepts : String → ConsentEvidence
accepts version = record {
  identity = alice;
  profile_id = "gitlab";
  rules_version = version;
  rules_hash = "hash";
  granted_at = 100;
}

abbrev withdraws : ConsentRevocation
withdraws = record { identity = alice; profile_id = "gitlab"; revoked_at = 150 }

abbrev gate : ConsentGate
gate = record {
  profile_id = "gitlab";
  config = record { required = true; rules_version = "v1"; max_age_days = some 1 };
  expected_rules_hash = "hash";
  max_age_ms = some 86400000;
  expected_issuer = some "https://idp";
}

abbrev again : ConsentEvidence
again = record (accepts "v1") { granted_at = 200 }

abbrev in_v2 : ConsentEvidence
in_v2 = record (accepts "v2") { granted_at = 200 }

normalize_issuer_test : normalize_issuer "https://idp/" ≡ "https://idp"
unfolding normalize_issuer
normalize_issuer_test = refl

gate_test :
    new_gate "gitlab"
      (record { required = true; rules_version = "v1"; max_age_days = some 1 })
      "hash"
      (some "https://idp/")
    ≡ gate
unfolding new_gate normalize_issuer
gate_test = refl

revoked_test :
    evaluate gate
      (lookup to_json
        (replay to_json (grant (accepts "v1") ∷ revocation withdraws ∷ []) empty_index))
      160
      (some alice_principal)
    ≡ some revoked
unfolding evaluate judge replay fold_record apply add_revocation evaluate_grant_fold
    normalize_issuer get set
revoked_test = refl

-- The same rules at the same time, with another text.
abbrev reworded : ConsentEvidence
reworded = record (accepts "v1") { rules_hash = "other" }

abbrev with_a_tie : List StoredRecord
with_a_tie = revocation withdraws ∷ grant (accepts "v1") ∷ grant reworded ∷ []

lookup_newest_example :
    (let found = lookup to_json (replay to_json with_a_tie empty_index) alice "gitlab" "v1" in
      let key = consent_evidence_key to_json alice "gitlab" "v1" in
      let holder = consent_identity_key to_json alice "gitlab" in
      (content (λ e. e.rules_hash) found.grant
        ≡ content (λ e. e.rules_hash) (newest_grant (grant_key to_json) key with_a_tie))
      × (content rules found.latest_grant
          ≡ content rules (newest_grant (holder_key to_json) holder with_a_tie))
      × Recorded (grant_key to_json) key with_a_tie found.grant
      × Recorded (holder_key to_json) holder with_a_tie found.latest_grant
      × (found.revoked_at ≡ newest_revocation to_json holder with_a_tie))
lookup_newest_example = lookup_newest to_json alice "gitlab" "v1" with_a_tie

tie_test :
    (lookup to_json (replay to_json with_a_tie empty_index) alice "gitlab" "v1").grant
    ≡ some reworded
unfolding replay fold_record apply add_revocation evaluate_grant_fold get set
tie_test = refl

revoked_denied_example :
    evaluate gate
      (lookup to_json
        (replay to_json (grant (accepts "v1") ∷ revocation withdraws ∷ []) empty_index))
      160
      (some alice_principal)
    ≢ none
unfolding normalize_issuer
revoked_denied_example =
    revoked_denied to_json gate alice_principal "https://idp/" refl 160
      (grant (accepts "v1") ∷ revocation withdraws ∷ []) withdraws (inr (inl refl)) refl
      (λ _. omega arith, (tt, tt))

other_version : in_v2.rules_version ≢ gate.config.rules_version
other_version e = let h : false ≡ true = (eq_iff "v2" "v1").1 e in cc

rollback_denied_example :
    evaluate gate
      (lookup to_json (replay to_json (grant in_v2 ∷ grant (accepts "v1") ∷ []) empty_index))
      300
      (some alice_principal)
    ≢ none
unfolding normalize_issuer
rollback_denied_example =
    rollback_denied to_json gate alice_principal "https://idp/" refl 300
      (grant in_v2 ∷ grant (accepts "v1") ∷ []) in_v2 (inl refl) refl other_version
      (λ _ e. absurd (other_version e), (λ _ _. omega arith, tt))

accepted_granted_example :
    evaluate gate
      (lookup to_json (
        fold_record to_json
          (grant again)
          (replay to_json (grant (accepts "v1") ∷ revocation withdraws ∷ []) empty_index)))
      300
      (some alice_principal)
    ≡ none
unfolding normalize_issuer
accepted_granted_example =
    accepted_granted to_json gate alice_principal "https://idp/" again
      (grant (accepts "v1") ∷ revocation withdraws ∷ []) 300 (omega arith) refl (cc) refl refl
      (record { who = refl; where_to = refl; version = refl; hash = refl })

abbrev history : List Operation
history =
    record_grant true (accepts "v1")
    ∷ revoke true withdraws
    ∷ peer (grant again)
    ∷ record_grant false in_v2
    ∷ []

lookup-lines_example :
    (let s = perform_all to_json history new_file in
      (lookup_file to_json alice "gitlab" "v1" s).1
      ≡ lookup to_json (replay to_json (lines s) empty_index) alice "gitlab" "v1")
lookup-lines_example = lookup-lines to_json history alice "gitlab" "v1"

-- The append of the last acceptance fails, so its line is not in the file.
lines_test :
    lines (perform_all to_json history new_file)
    ≡ grant (accepts "v1") ∷ revocation withdraws ∷ grant again ∷ []
unfolding perform_all perform persist_grant persist_revocation reload_if_changed reset_watermark
    append_line replay fold_record apply add_revocation evaluate_grant_fold get set
lines_test = refl
