-- ===== src/Consent/File.antt =====
-- The evidence in a file: whole lines, appended; each operation first folds what it has not read.
-- Another writer appends between the operations.
pub mod Synced
use mcp4openapi.Prelude.{
  ◌≡◌, refl, ap, sym, Map, ltb, String, Bool, true, false, ◌||◌, Option, none, some, List, [], ◌∷◌,
  ◌++◌, get, set, get-set_self, if◌then◌else◌, arith, eq_iff, eq_refl, Option-cases, Bool-cases,
  inl, inr, ◌∙◌,
}
use mcp4openapi.Consent.{
  StoredRecord, ConsentEvidence, ConsentRevocation, grant, revocation, ConsentIndex, empty_index,
  grant_key, holder_key, revoked_key, apply, add_revocation, supersedes, other_hash, other_rules,
  fold_record, replay, lookup, evaluate_grant_fold, ConsentIdentityContext, ConsentLookupResult,
}

-- `consumed` and `pending` are the lines before and behind the watermark.
pub record EvidenceFile : Type 0 where
  pub index : ConsentIndex
  pub consumed : List StoredRecord
  pub pending : List StoredRecord

abbrev pub lines : EvidenceFile → List StoredRecord
lines s = s.consumed ++ s.pending

abbrev pub new_file : EvidenceFile
new_file = record { index = empty_index; consumed = []; pending = [] }

-- What a write ends with.
pub data Outcome : Type 0 where
  persisted : Outcome
  unchanged : Outcome
  failed : Outcome

module _ (json : List (Option String) → String) where
  unfoldable pub reload_if_changed : EvidenceFile → EvidenceFile
  reload_if_changed s = record {
    index = replay json s.pending s.index;
    consumed = s.consumed ++ s.pending;
    pending = [];
  }

  -- The index and the watermark are forgotten; the lines stay.
  unfoldable pub reset_watermark : EvidenceFile → EvidenceFile
  reset_watermark s = record {
    index = empty_index;
    consumed = [];
    pending = s.consumed ++ s.pending;
  }

  -- The line is behind the watermark until the next operation reads it.
  unfoldable pub append_line : StoredRecord → EvidenceFile → EvidenceFile
  append_line r s = record s { pending = s.pending ++ r ∷ [] }

  -- `writable` tells whether the append works.
  unfoldable pub persist_grant : Bool → ConsentEvidence → EvidenceFile → EvidenceFile × Outcome
  persist_grant writable e s =
      let s' = reload_if_changed s in
      let (index, changed) = apply json e s'.index in
      if changed
      then (if writable
          then (append_line (grant e) (record s' { index = index }), persisted)
          else (reset_watermark s', failed))
      else (record s' { index = index }, unchanged)

  unfoldable pub persist_revocation :
      Bool → ConsentRevocation → EvidenceFile → EvidenceFile × Outcome
  persist_revocation writable r s =
      let s' = reload_if_changed s in
      if writable
      then (
        append_line (revocation r) (record s' { index = add_revocation json r s'.index }),
        persisted,
      )
      else (s', failed)

  unfoldable pub lookup_file :
      ConsentIdentityContext → String → String → EvidenceFile → EvidenceFile × ConsentLookupResult
  lookup_file i profile version s =
      let s' = reload_if_changed s in (s', lookup json s'.index i profile version)

-- What happens to the store; `peer` is another writer's line.
pub data Operation : Type 0 where
  record_grant : Bool → ConsentEvidence → Operation
  revoke : Bool → ConsentRevocation → Operation
  look_up : ConsentIdentityContext → String → String → Operation
  peer : StoredRecord → Operation

module _ (json : List (Option String) → String) where
  unfoldable pub perform : Operation → EvidenceFile → EvidenceFile
  perform (record_grant writable e) s = (persist_grant json writable e s).0
  perform (revoke writable r) s = (persist_revocation json writable r s).0
  perform (look_up i profile version) s = (lookup_file json i profile version s).0
  perform (peer r) s = append_line json r s

  unfoldable pub perform_all : List Operation → EvidenceFile → EvidenceFile
  perform_all [] s = s
  perform_all (o ∷ os) s = perform_all os (perform o s)
