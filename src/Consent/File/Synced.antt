-- ===== src/Consent/File/Synced.antt =====
-- The store in a file answers as a store in memory that was given the lines of the file.
use mcp4openapi.Prelude.{
  ◌≡◌, refl, ap, sym, Map, String, Bool, true, false, Option, some, List, [], ◌∷◌, ◌++◌, get, set,
  get-set_self, if◌then◌else◌, arith, eq_refl, Option-cases, Bool-cases, inl, inr, ◌∙◌,
}
use mathlib.Core.List.{append_assoc, append-nil}
use mcp4openapi.Consent.{
  StoredRecord, ConsentEvidence, ConsentRevocation, grant, revocation, ConsentIndex, empty_index,
  grant_key, holder_key, revoked_key, apply, add_revocation, supersedes, other_hash, other_rules,
  fold_record, replay, lookup, evaluate_grant_fold, ConsentIdentityContext,
}
use mcp4openapi.Consent.File.{
  EvidenceFile, lines, new_file, reload_if_changed, reset_watermark, append_line, persist_grant,
  persist_revocation, lookup_file, Operation, record_grant, revoke, look_up, peer, perform,
  perform_all,
}

same_hash : (e : ConsentEvidence) → other_hash e e ≡ false
same_hash e = rw (eq_refl e.rules_hash) refl

same_rules : (e : ConsentEvidence) → other_rules e e ≡ false
same_rules e = rw (eq_refl e.rules_version, eq_refl e.rules_hash) refl

-- The write of a record that is known already is no write.
superseding_twice :
    (differs : ConsentEvidence → ConsentEvidence → Bool) (k : String) (e : ConsentEvidence)
    (m : Map ConsentEvidence)
    → differs e e ≡ false
    → (let m' = if supersedes differs e (get k m) then set k e m else m in
        (if supersedes differs e (get k m') then set k e m' else m') ≡ m')
superseding_twice differs k e m same = elim (Bool-cases (supersedes differs e (get k m))) [
  | inl written ↦
      let again : supersedes differs e (some e) ≡ false = ground arith in
      rw (written, get-set_self k e m, again) refl
  | inr kept ↦ rw (kept, kept) refl
]

module _ (json : List (Option String) → String) where
  -- The index, once it has read the rest, is that of all lines.
  pub record IsSynced (s : EvidenceFile) : Type 0 where
    pub synced : replay json s.pending s.index ≡ replay json (lines s) empty_index

  replay-append :
      (rs qs : List StoredRecord) (s : ConsentIndex)
      → replay json (rs ++ qs) s ≡ replay json qs (replay json rs s)
  unfolding replay
  replay-append [] qs s = refl
  replay-append (r ∷ rs) qs s = replay-append rs qs (fold_record json r s)

  -- A second reading of a line changes nothing.
  apply_twice :
      (e : ConsentEvidence) (s : ConsentIndex)
      → (apply json e (apply json e s).0).0 ≡ (apply json e s).0
  unfolding apply evaluate_grant_fold
  apply_twice e s =
      let a = superseding_twice other_hash (grant_key json e) e s.grants (same_hash e) in
      let b = superseding_twice other_rules (holder_key json e) e s.latest_grants (same_rules e) in
      cc

  unchanged_apply :
      (e : ConsentEvidence) (s : ConsentIndex) → (apply json e s).1 ≡ false → (apply json e s).0 ≡ s
  unfolding apply evaluate_grant_fold
  unchanged_apply e s h =
      let a : supersedes other_hash e (get (grant_key json e) s.grants) ≡ false = ground arith in
      let b : supersedes other_rules e (get (holder_key json e) s.latest_grants) ≡ false =
        ground arith in
      rw (a, b) refl

  add_revocation_twice :
      (r : ConsentRevocation) (s : ConsentIndex)
      → add_revocation json r (add_revocation json r s) ≡ add_revocation json r s
  unfolding add_revocation
  add_revocation_twice r s = elim (Option-cases (get (revoked_key json r) s.revocations)) [
    | inl fresh ↦ ground (arith, get-set_self (revoked_key json r) r.revoked_at s.revocations)
    | inr (known, there) ↦
        ground (arith, get-set_self (revoked_key json r) r.revoked_at s.revocations)
  ]

  reload-Synced : (s : EvidenceFile) → IsSynced s → IsSynced (reload_if_changed json s)
  unfolding reload_if_changed replay
  reload-Synced s v = record {
    synced =
        v.synced
        ∙ ap (λ rs. replay json rs empty_index) (sym (append-nil (s.consumed ++ s.pending)));
  }

  reset-Synced : (s : EvidenceFile) → IsSynced (reset_watermark json s)
  unfolding reset_watermark
  reset-Synced s = record { synced = refl }

  -- After a reading the index is that of all lines.
  reload_index :
      (s : EvidenceFile)
      → IsSynced s
      → (reload_if_changed json s).index ≡ replay json (lines s) empty_index
  unfolding reload_if_changed
  reload_index s v = v.synced

  append-Synced :
      (r : StoredRecord) (s : EvidenceFile) → IsSynced s → IsSynced (append_line json r s)
  unfolding append_line replay
  append-Synced r s v = record {
    synced =
        replay-append s.pending (r ∷ []) s.index
        ∙ ap (fold_record json r) v.synced
        ∙ sym (replay-append (lines s) (r ∷ []) empty_index)
        ∙ ap (λ rs. replay json rs empty_index) (append_assoc s.consumed s.pending (r ∷ []));
  }

  -- The line of a record that is in the index already.
  written-Synced :
      (r : StoredRecord) (s : EvidenceFile)
      → ((x : ConsentIndex) → fold_record json r (fold_record json r x) ≡ fold_record json r x)
      → IsSynced s
      → (let s' = reload_if_changed json s in
          IsSynced (append_line json r (record s' { index = fold_record json r s'.index })))
  unfolding append_line reload_if_changed replay
  written-Synced r s twice v = record {
    synced =
        twice (replay json s.pending s.index)
        ∙ ap (fold_record json r) v.synced
        ∙ sym (replay-append (lines s) (r ∷ []) empty_index);
  }

  persist_grant-Synced :
      (writable : Bool) (e : ConsentEvidence) (s : EvidenceFile)
      → IsSynced s
      → IsSynced (persist_grant json writable e s).0
  unfolding persist_grant fold_record
  persist_grant-Synced writable e s v =
      let x = (reload_if_changed json s).index in
      elim (Bool-cases (apply json e x).1) [
        | inl changed ↦ elim (Bool-cases writable) [
          | inl works ↦ rw (changed, works) (written-Synced (grant e) s (apply_twice e) v)
          | inr fails ↦ rw (changed, fails) (reset-Synced (reload_if_changed json s))
        ]
        | inr same ↦ rw (same, unchanged_apply e x same) (reload-Synced s v)
      ]

  persist_revocation-Synced :
      (writable : Bool) (r : ConsentRevocation) (s : EvidenceFile)
      → IsSynced s
      → IsSynced (persist_revocation json writable r s).0
  unfolding persist_revocation fold_record
  persist_revocation-Synced true r s v = written-Synced (revocation r) s (add_revocation_twice r) v
  persist_revocation-Synced false r s v = reload-Synced s v

  perform-Synced : (o : Operation) (s : EvidenceFile) → IsSynced s → IsSynced (perform json o s)
  unfolding perform lookup_file
  perform-Synced (record_grant writable e) s v = persist_grant-Synced writable e s v
  perform-Synced (revoke writable r) s v = persist_revocation-Synced writable r s v
  perform-Synced (look_up i profile version) s v = reload-Synced s v
  perform-Synced (peer r) s v = append-Synced r s v

  perform_all-Synced :
      (os : List Operation) (s : EvidenceFile) → IsSynced s → IsSynced (perform_all json os s)
  unfolding perform_all
  perform_all-Synced [] s v = v
  perform_all-Synced (o ∷ os) s v = perform_all-Synced os (perform json o s) (perform-Synced o s v)

  -- Whatever happened, appends that failed and lines of other writers included, a lookup answers as
  -- the index in memory that is given every line of the file.
  pub lookup-lines :
      (os : List Operation) (i : ConsentIdentityContext) (profile version : String)
      → (let s = perform_all json os new_file in
          (lookup_file json i profile version s).1
          ≡ lookup json (replay json (lines s) empty_index) i profile version)
  unfolding lookup_file
  lookup-lines os i profile version =
      let s = perform_all json os new_file in
      ap (λ x. lookup json x i profile version)
        (reload_index s (perform_all-Synced os new_file (record { synced = refl })))
