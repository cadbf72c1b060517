-- ===== src/Health/Invalidation/Refusals.antt =====
-- What `invalidate_active_lease_from_health_evidence` leaves on disk when it answers with a decision.
use syvert.Common.{
  ℕ, String, ◌≡◌, ◌≢◌, refl, ◌∙◌, true, Bool-cases, Option, Option-cases, inl, inr, arith, ◌==◌,
  Error, Result, ok, err, Result-cases, ◌>>◌,
}
use syvert.Lifecycle.Types.{ResourceRecord, ResourceLease, ResourceLifecycleSnapshot}
use syvert.Lifecycle.Snapshot.{validate_snapshot}
use syvert.Store.Disk.{Disk}
use syvert.Service.World.{Env, World, load_from_store}
use syvert.Service.Writes.{load_from_store-disk}
use syvert.Service.Release.{ReleaseResult}
use syvert.Health.Types.{
  ResourceHealthEvidence, Supplied, ResourceAdmissionDecision, session_invalid,
}
use syvert.Health.Redaction.{Unicode}
use syvert.Health.Evidence.{coerce_evidence}
use syvert.Health.Invalidation.{
  InvalidationResult, envelope, finish_split, split_settle_active_lease_for_account_invalidation,
  of_release, has_many, settle_finding, invalidate_bound, is_of_call, invalidate_evidence,
  unreadable_evidence, invalidate_active_lease_from_health_evidence,
}
use syvert.Health.Findings.{
  Finding, inspect, invalidation_decision, invalid_contract_decision,
  invalidation_rejected_decision, invalid_contract_decision_from_context,
}
use syvert.Health.Split.{split_snapshot, split_events}

of_release-undecided :
    (m : Result ReleaseResult) (d : ResourceAdmissionDecision)
    → of_release m ≢ ok (InvalidationResult.decided d)
unfolding of_release
of_release-undecided (ok (ReleaseResult.released lease)) d h = absurd (cc h)
of_release-undecided (ok (ReleaseResult.failed f)) d h = absurd (cc h)
of_release-undecided (err e) d h = absurd (cc h)

envelope-undecided :
    (context adapter_key capability : String) (e : Error) (d : ResourceAdmissionDecision)
    → envelope context adapter_key capability e ≢ ok (InvalidationResult.decided d)
unfolding envelope
envelope-undecided context adapter_key capability e d h = absurd (ground (arith, h))

finish_split-undecided :
    (context : String) (lease scoped : ResourceLease) (m : Result ResourceLifecycleSnapshot)
    (d : ResourceAdmissionDecision)
    → finish_split context lease scoped m ≢ ok (InvalidationResult.decided d)
unfolding finish_split
finish_split-undecided context lease scoped (ok s) d h = absurd (cc h)
finish_split-undecided context lease scoped (err e) d h =
    envelope-undecided context lease.adapter_key lease.capability e d h

split-undecided :
    (env : Env) (s : ResourceLifecycleSnapshot) (lease : ResourceLease) (account : ResourceRecord)
    (context : String) (w : World) (d : ResourceAdmissionDecision)
    → (split_settle_active_lease_for_account_invalidation env s lease account context w).0
      ≢ ok (InvalidationResult.decided d)
unfolding split_settle_active_lease_for_account_invalidation
split-undecided env s lease account context w d h =
    let updated = split_snapshot s lease account.resource_id (env.now w.step) in
    elim (Result-cases
      (validate_snapshot updated >> split_events s lease account (env.now w.step))) [
        | inr (e, p) ↦
            envelope-undecided context lease.adapter_key lease.capability e d
              (rw (p, split_settle_active_lease_for_account_invalidation) at h)
        | inl (events, p) ↦
            finish_split-undecided context lease _ _ d
              (rw (p, split_settle_active_lease_for_account_invalidation) at h)
      ]

-- What an answer with a decision means for the disk and for the decision.
pub record Refused (before after : Disk) (d : ResourceAdmissionDecision) : Type 0 where
  pub same : after ≡ before
  pub closed : d.fail_closed ≡ true

module _ (env : Env) (quiet : (n : ℕ) (d : Disk) → env.others n d ≡ d) where
  settle_finding-Refused :
      (rounds : ℕ) (e : ResourceHealthEvidence) (context : String) (s : ResourceLifecycleSnapshot)
      (found : Finding) (w : World) (d : ResourceAdmissionDecision)
      → (settle_finding env rounds e context s found w).0 ≡ ok (InvalidationResult.decided d)
      → Refused w.disk (settle_finding env rounds e context s found w).1.disk d
  unfolding settle_finding invalid_contract_decision invalidation_rejected_decision
      invalidation_decision
  settle_finding-Refused rounds e context s Finding.contradicted w d h = record {
    same = refl;
    closed = cc;
  }
  settle_finding-Refused rounds e context s Finding.refused w d h = record {
    same = refl;
    closed = cc;
  }
  settle_finding-Refused rounds e context s (Finding.bound lease account) w d h =
      elim (Bool-cases (has_many lease.resource_ids)) [
        | inl many ↦
            absurd
              (split-undecided env s lease account context w d (rw (many, settle_finding) at h))
        | inr one ↦ absurd (of_release-undecided _ d (rw (one, settle_finding) at h))
      ]

  invalidate_bound-Refused :
      (rounds : ℕ) (e : ResourceHealthEvidence) (context lease_id : String) (w : World)
      (d : ResourceAdmissionDecision)
      → (invalidate_bound env rounds e context lease_id w).0 ≡ ok (InvalidationResult.decided d)
      → Refused w.disk (invalidate_bound env rounds e context lease_id w).1.disk d
  unfolding invalidate_bound
  invalidate_bound-Refused rounds e context lease_id w d h =
      elim (Result-cases (load_from_store env w).0) [
        | inr (x, p) ↦ absurd (envelope-undecided _ _ _ x d (rw (p, invalidate_bound) at h))
        | inl (s, p) ↦
            (let w' = (load_from_store env w).1 in
              let r =
                settle_finding-Refused rounds e context s (inspect e context lease_id s) w' d
                  (rw (p, invalidate_bound) at h) in
              rw (p, invalidate_bound)
                record { same = r.same ∙ load_from_store-disk env quiet w; closed = r.closed })
      ]

  invalidate_evidence-Refused :
      (rounds : ℕ) (e : ResourceHealthEvidence) (context : String) (operation : Option String)
      (w : World) (d : ResourceAdmissionDecision)
      → (invalidate_evidence env rounds e context operation w).0 ≡ ok (InvalidationResult.decided d)
      → Refused w.disk (invalidate_evidence env rounds e context operation w).1.disk d
  unfolding invalidate_evidence invalid_contract_decision invalidation_decision
  invalidate_evidence-Refused rounds e context operation w d h =
      elim (Bool-cases (e.status == session_invalid)) [
        | inr i ↦ absurd (ground (arith, h, i))
        | inl i ↦ elim (Option-cases e.lease_id) [
          | inl p ↦
              rw (i, p, invalidate_evidence)
                record { same = refl; closed = ground (arith, h, i, p) }
          | inr (lease_id, p) ↦ elim (Bool-cases (is_of_call e context operation)) [
            | inr j ↦
                rw (i, p, j, invalidate_evidence)
                  record { same = refl; closed = ground (arith, h, i, p, j) }
            | inl j ↦
                rw (i, p, j, invalidate_evidence)
                  (invalidate_bound-Refused rounds e context lease_id w d
                    (rw (i, p, j, invalidate_evidence) at h))
          ]
        ]
      ]

-- Where no other process writes, when invalidate_active_lease_from_health_evidence answers with a
-- decision, the disk is as it was and the decision fails closed.
pub invalidate_active_lease_from_health_evidence-Refused :
    (u : Unicode) (env : Env) (rounds : ℕ) (x : Supplied) (context : String)
    (operation : Option String) (w : World) (d : ResourceAdmissionDecision)
    → ((n : ℕ) (d : Disk) → env.others n d ≡ d)
    → (invalidate_active_lease_from_health_evidence u env rounds x context operation w).0
      ≡ ok (InvalidationResult.decided d)
    → Refused w.disk
        (invalidate_active_lease_from_health_evidence u env rounds x context operation w).1.disk
        d
unfolding invalidate_active_lease_from_health_evidence unreadable_evidence
    invalid_contract_decision_from_context
invalidate_active_lease_from_health_evidence-Refused u env rounds x context operation w d quiet h =
    elim (Result-cases (coerce_evidence u x)) [
      | inr (e, p) ↦
          rw (p, invalidate_active_lease_from_health_evidence)
            record { same = refl; closed = ground (arith, h, p) }
      | inl (e, p) ↦
          rw (p, invalidate_active_lease_from_health_evidence)
            (invalidate_evidence-Refused env quiet rounds e context operation w d
              (rw (p, invalidate_active_lease_from_health_evidence) at h))
    ]
