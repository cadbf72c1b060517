-- ===== src/Tests/HealthSteps.antt =====
-- Each theorem on resource health, applied to the sample data.
use syvert.Common.{
  err, health_contract, ◌>>=◌, ◌≡◌, refl, true, false, not, ◌==◌, eqb, leb, ◌||◌, ◌&&◌, none, some,
  [], ◌∷◌, Memᴰ, ok,
}
use syvert.Lifecycle.Types.{ResourceLease}
use syvert.Health.Types.{ResourceHealthEvidence, Supplied, ResourceAdmissionDecision}
use syvert.Health.Redaction.{Unicode}
use syvert.Health.Admission.{Context, decide_resource_health_admission}
use syvert.Health.Admission.Total.{decide_resource_health_admission-total}
use syvert.Health.Admission.Vouched.{Vouched, decide_resource_health_admission-Vouched}
use syvert.Health.Invalidation.{invalidate_active_lease_from_health_evidence}
use syvert.Health.Invalidation.Refusals.{
  Refused, invalidate_active_lease_from_health_evidence-Refused,
}
use syvert.Health.Invalidation.Scoped.{Scoped, invalidate_active_lease_from_health_evidence-Scoped}
use syvert.Health.Evidence.{
  evidence_object, resource_health_evidence_to_dict, resource_health_evidence_from_dict,
}
use syvert.Health.Evidence.RoundTrip.{resource_health_evidence-round_trip}
use syvert.Json.{obj}
use syvert.Tests.Program.{program}
use syvert.Tests.Samples.{account, proxy, calm, held}
use syvert.Tests.Derived.{held_snapshot, held_lease}

-- Lower-case ASCII texts.
abbrev ascii : Unicode
ascii = record {
  lower = λ cs. cs;
  is_word = λ c. leb 97 c && leb c 122 || leb 48 c && leb c 57 || eqb c 95;
  is_space = λ c. eqb c 32;
  same_letter = eqb;
}

abbrev proof : ResourceHealthEvidence
proof = record {
  evidence_id = "evidence-1";
  resource_id = "account-1";
  resource_type = "account";
  status = "healthy";
  observed_at = "2026-01-01T00:00:00Z";
  provenance = "adapter_diagnostic";
  reason = "probe passed";
  redaction_status = "redacted";
  expires_at = some "2026-01-01T01:00:00Z";
  freshness_policy_ref = some "policy-1";
  task_id = some "task-1";
  lease_id = some "lease-a1";
  bundle_id = some "bundle-a1";
  adapter_key = some "xhs";
  capability = some "search";
  operation = some "search";
  diagnostic_ref = none;
}

abbrev logged_out : ResourceHealthEvidence
logged_out = record proof { status = "invalid"; expires_at = none; freshness_policy_ref = none }

abbrev of_task : Context
of_task = record {
  task_id = "task-1";
  adapter_key = "xhs";
  capability = "search";
  operation = some "search";
}

abbrev admission : ResourceAdmissionDecision
admission = record {
  decision_id = "decision-1";
  task_id = "task-1";
  adapter_key = "xhs";
  capability = "search";
  operation = some "search";
  requested_slots = "account" ∷ "proxy" ∷ [];
  resource_ids = "account-1" ∷ "proxy-1" ∷ [];
  health_evidence_refs = "evidence-1" ∷ [];
  evaluated_at = "2026-01-01T00:30:00Z";
  projected_session_health = "healthy";
  decision_status = "admitted";
  failure_reason = none;
  fail_closed = false;
}

decide_resource_health_admission-total_example :
    (d : ResourceAdmissionDecision) × (decide_resource_health_admission ascii "decision-1" of_task
        ("account" ∷ "proxy" ∷ [])
        (account ∷ proxy ∷ [])
        (Supplied.evidence proof ∷ [])
        "2026-01-01T00:30:00Z"
        "2026-01-01T00:30:01Z"
        true
      ≡ ok d)
    × (d.fail_closed ≡ not (d.decision_status == "admitted"))
decide_resource_health_admission-total_example =
    decide_resource_health_admission-total ascii "decision-1" of_task ("account" ∷ "proxy" ∷ [])
      (account ∷ proxy ∷ []) (Supplied.evidence proof ∷ []) "2026-01-01T00:30:00Z"
      "2026-01-01T00:30:01Z" true

decide_resource_health_admission-Vouched_example :
    Vouched ascii of_task (Supplied.evidence proof ∷ []) "2026-01-01T00:30:00Z" account
unfolding program
decide_resource_health_admission-Vouched_example =
    decide_resource_health_admission-Vouched ascii "decision-1" of_task ("account" ∷ "proxy" ∷ [])
      (account ∷ proxy ∷ []) (Supplied.evidence proof ∷ []) "2026-01-01T00:30:00Z"
      "2026-01-01T00:30:01Z" admission account refl refl refl (Memᴰ.head refl) refl

-- Another task's call.
abbrev refusal : ResourceAdmissionDecision
refusal = record {
  decision_id = "resource-invalidation:evidence-1";
  task_id = "task-1";
  adapter_key = "xhs";
  capability = "search";
  operation = some "search";
  requested_slots = "account" ∷ [];
  resource_ids = "account-1" ∷ [];
  health_evidence_refs = "evidence-1" ∷ [];
  evaluated_at = "2026-01-01T00:00:02+00:00";
  projected_session_health = "unknown";
  decision_status = "invalid_contract";
  failure_reason = some "health_evidence_contract_invalid";
  fail_closed = true;
}

invalidate_active_lease_from_health_evidence-Refused_example :
    Refused held.disk
      (invalidate_active_lease_from_health_evidence ascii calm 1
        (Supplied.evidence logged_out)
        "task-2"
        (some "search")
        held).1.disk
      refusal
unfolding program
invalidate_active_lease_from_health_evidence-Refused_example =
    invalidate_active_lease_from_health_evidence-Refused ascii calm 1 (Supplied.evidence logged_out)
      "task-2" (some "search") held refusal (λ n d. refl) refl

abbrev invalidated : ResourceLease
invalidated = record {
  lease_id = "lease-a1:credential-session-invalidation";
  bundle_id = "bundle-a1:credential-session-invalidation";
  task_id = "task-1";
  adapter_key = "xhs";
  capability = "search";
  resource_ids = "account-1" ∷ [];
  acquired_at = "2026-01-01T00:00:03Z";
  released_at = some "2026-01-01T00:00:03Z";
  target_status_after_release = some "INVALID";
  release_reason = some "credential_session_invalid";
}

invalidate_active_lease_from_health_evidence-Scoped_example :
    Scoped held_snapshot held_lease "account-1" invalidated
      (invalidate_active_lease_from_health_evidence ascii calm 1
        (Supplied.evidence logged_out)
        "task-1"
        (some "search")
        held).1.disk
unfolding program
invalidate_active_lease_from_health_evidence-Scoped_example =
    invalidate_active_lease_from_health_evidence-Scoped ascii calm 1 (Supplied.evidence logged_out)
      "task-1" (some "search") held logged_out "lease-a1" held_snapshot held_lease invalidated refl
      refl refl refl refl refl

resource_health_evidence-round_trip_example :
    resource_health_evidence_from_dict ascii (obj (evidence_object proof)) ≡ ok proof
unfolding program
resource_health_evidence-round_trip_example =
    resource_health_evidence-round_trip ascii proof refl refl

-- Evidence that is not healthy may have an empty policy, but its JSON form is refused.
abbrev blank_policy : ResourceHealthEvidence
blank_policy = record logged_out { freshness_policy_ref = some "" }

blank_policy-refused :
    (resource_health_evidence_to_dict ascii blank_policy
      >>= resource_health_evidence_from_dict ascii)
    ≡ err health_contract
unfolding program
blank_policy-refused = refl
