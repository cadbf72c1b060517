-- ===== src/Health/Admission/Total.antt =====
-- What `decide_resource_health_admission` raises.
use syvert.Common.{
  subst, ok_injective, ℕ, String, ◌≡◌, refl, Bool, not, ◌&&◌, ◌==◌, has, Bool-cases, >>=-eq-ok,
  >>-eq-ok, Option, none, some, List, [], ◌∷◌, Result, ok, err, arith, each, traverse, Result-cases,
  inl, inr,
}
use syvert.Common.Raises.{Raises-ok, Raises-bind, raises_rules}
use syvert.Json.{Value, Fields, text, obj, normalize_json_value}
use syvert.Lifecycle.Types.{ResourceRecord}
use syvert.Health.Types.{
  ResourceHealthEvidence, Supplied, ResourceAdmissionDecision, admitted, healthy,
}
use syvert.Health.Redaction.{Unicode}
use syvert.Health.Evidence.{parse_health_time, coerce_evidence}
use syvert.Health.Evidence.Faults.{
  HealthOnly, parse_health_time-HealthOnly, coerce_evidence-HealthOnly,
}
use syvert.Health.Admission.{
  adapter_key_of, as_mapping, normalize_mapping, bind_material,
  credential_material_from_account_resource, validate_evidence_context, observed_time,
  max_observed_at, latest_evidence, parse_given, expiry_of, AccountHealth, judge_latest,
  judge_account, after_account, project_accounts, Assessment, check_credential,
  decision_for_projected_health, assess_accounts, Context, assess_evidence, assess,
  contract_failure, handle_assessment, decide_resource_health_admission,
}

adapter_key_of-HealthOnly : (v : Value) → HealthOnly (adapter_key_of v)
unfolding adapter_key_of
adapter_key_of-HealthOnly (text s) = search raises_rules
adapter_key_of-HealthOnly _ = search raises_rules

as_mapping-HealthOnly : (m : Result Value) → HealthOnly (as_mapping m)
unfolding as_mapping
as_mapping-HealthOnly (ok (obj fs)) = search raises_rules
as_mapping-HealthOnly _ = search raises_rules

normalize_mapping-HealthOnly : (fs : Fields) → HealthOnly (normalize_mapping fs)
unfolding normalize_mapping
normalize_mapping-HealthOnly fs = as_mapping-HealthOnly (normalize_json_value (obj fs))

bind_material-HealthOnly : (s : String) (v : Value) → HealthOnly (bind_material s v)
unfolding bind_material
bind_material-HealthOnly s (obj fs) =
    search (raises_rules, adapter_key_of-HealthOnly, normalize_mapping-HealthOnly)
bind_material-HealthOnly s _ = search raises_rules

check_credential-HealthOnly : (k : String) (r : ResourceRecord) → HealthOnly (check_credential k r)
unfolding check_credential credential_material_from_account_resource
check_credential-HealthOnly k r = search (raises_rules, bind_material-HealthOnly)

context-HealthOnly :
    (t a c : String) (o : Option String) (e : ResourceHealthEvidence)
    → HealthOnly (validate_evidence_context t a c o e)
unfolding validate_evidence_context
context-HealthOnly t a c o e = search raises_rules

max_observed_at-HealthOnly :
    (e : ResourceHealthEvidence) (es : List ResourceHealthEvidence)
    → HealthOnly (max_observed_at e es)
unfolding max_observed_at
max_observed_at-HealthOnly e es = search (raises_rules, parse_health_time-HealthOnly)

latest_evidence-HealthOnly :
    (t : ℕ) (es : List ResourceHealthEvidence) → HealthOnly (latest_evidence t es)
unfolding latest_evidence
latest_evidence-HealthOnly t [] = search raises_rules
latest_evidence-HealthOnly t (e ∷ es) =
    Raises-bind (observed_time e) _ (parse_health_time-HealthOnly e.observed_at) (λ observed.
      Raises-bind (latest_evidence t es) _ (latest_evidence-HealthOnly t es) (λ rest. Raises-ok _))

expiry_of-HealthOnly : (o : Option String) → HealthOnly (parse_given o)
unfolding parse_given
expiry_of-HealthOnly none = search raises_rules
expiry_of-HealthOnly (some s) = parse_health_time-HealthOnly s

judge_latest-HealthOnly :
    (at : ℕ) (es : List ResourceHealthEvidence) → HealthOnly (judge_latest at es)
unfolding judge_latest expiry_of
judge_latest-HealthOnly at es = search (raises_rules, expiry_of-HealthOnly)

judge_account-HealthOnly :
    (at : ℕ) (es : List ResourceHealthEvidence) → HealthOnly (judge_account at es)
unfolding judge_account
judge_account-HealthOnly at [] = search raises_rules
judge_account-HealthOnly at (e ∷ es) =
    search (
      raises_rules, max_observed_at-HealthOnly, latest_evidence-HealthOnly, judge_latest-HealthOnly,
    )

after_account-HealthOnly :
    (projected : String) (health : AccountHealth) (next : String → Result String)
    → ((p : String) → HealthOnly (next p))
    → HealthOnly (after_account projected health next)
unfolding after_account
after_account-HealthOnly projected (AccountHealth.answers h) next rest = search raises_rules
after_account-HealthOnly projected AccountHealth.turns_stale next rest = rest _
after_account-HealthOnly projected AccountHealth.stays next rest = rest projected

project_accounts-HealthOnly :
    (projected : String) (accounts : List ResourceRecord) (es : List ResourceHealthEvidence)
    (at : ℕ)
    → HealthOnly (project_accounts projected accounts es at)
unfolding project_accounts
project_accounts-HealthOnly projected [] es at = Raises-ok projected
project_accounts-HealthOnly projected (account ∷ accounts) es at =
    Raises-bind _ _ (judge_account-HealthOnly at _) (λ health.
      after_account-HealthOnly projected health _
        (λ p. project_accounts-HealthOnly p accounts es at))

assess_accounts-HealthOnly :
    (adapter_key : String) (accounts : List ResourceRecord) (es : List ResourceHealthEvidence)
    (at : ℕ)
    → HealthOnly (assess_accounts adapter_key accounts es at)
unfolding assess_accounts
assess_accounts-HealthOnly adapter_key [] es at = Raises-ok _
assess_accounts-HealthOnly adapter_key (account ∷ accounts) es at =
    search (raises_rules, check_credential-HealthOnly, project_accounts-HealthOnly)

assess_evidence-HealthOnly :
    (u : Unicode) (c : Context) (rs : List ResourceRecord) (evidence : List Supplied) (at : ℕ)
    → HealthOnly (assess_evidence u c rs evidence at)
unfolding assess_evidence
assess_evidence-HealthOnly u c rs evidence at =
    search
      (raises_rules, coerce_evidence-HealthOnly, context-HealthOnly, assess_accounts-HealthOnly)

assess-HealthOnly :
    (u : Unicode) (c : Context) (slots : List String) (rs : List ResourceRecord)
    (evidence : List Supplied) (evaluated_at : String) (fresh : Bool)
    → HealthOnly (assess u c slots rs evidence evaluated_at fresh)
unfolding assess
assess-HealthOnly u c slots rs evidence evaluated_at fresh =
    search (raises_rules, parse_health_time-HealthOnly, assess_evidence-HealthOnly)

-- The mark is that of the status.
abbrev Closed : Assessment → Type 0
Closed a = a.fail_closed ≡ not (a.status == admitted)

decision_for_projected_health-Closed :
    (refs : List String) (health : String) → Closed (decision_for_projected_health refs health)
unfolding decision_for_projected_health
decision_for_projected_health-Closed refs health = elim (Bool-cases (health == healthy)) [
  | inl e ↦ rw e refl
  | inr e ↦ rw e refl
]

assess_accounts-Closed :
    (adapter_key : String) (accounts : List ResourceRecord) (es : List ResourceHealthEvidence)
    (at : ℕ) (a : Assessment)
    → assess_accounts adapter_key accounts es at ≡ ok a
    → Closed a
unfolding assess_accounts
assess_accounts-Closed adapter_key [] es at a h = subst Closed (ok_injective h) refl
assess_accounts-Closed adapter_key (account ∷ accounts) es at a h =
    let (_, h) = >>-eq-ok (each _ es) _ h in
    let (_, h) = >>-eq-ok (each (check_credential adapter_key) (account ∷ accounts)) _ h in
    let (p, _, h) = >>=-eq-ok (project_accounts healthy (account ∷ accounts) es at) _ h in
    subst Closed (ok_injective h) (decision_for_projected_health-Closed _ p)

assess-Closed :
    (u : Unicode) (c : Context) (slots : List String) (rs : List ResourceRecord)
    (evidence : List Supplied) (evaluated_at : String) (fresh : Bool) (a : Assessment)
    → assess u c slots rs evidence evaluated_at fresh ≡ ok a
    → Closed a
unfolding assess assess_evidence
assess-Closed u c slots rs evidence evaluated_at fresh a h =
    let (at, _, h) = >>=-eq-ok (parse_health_time evaluated_at) _ h in
    elim (Bool-cases (fresh && has "account" slots)) [
      | inr free ↦ subst Closed (ok_injective (rw free at h)) refl
      | inl gated ↦
          (let h : assess_evidence u c rs evidence at ≡ ok a = rw gated at h in
            let (es, _, h) = >>=-eq-ok (traverse (coerce_evidence u) evidence) _ h in
            let (_, h) = >>-eq-ok (each _ es) _ h in
            assess_accounts-Closed c.adapter_key _ es at a h)
    ]

handle_assessment-total :
    (m : Result Assessment)
    → HealthOnly m
    → ((a : Assessment) → m ≡ ok a → Closed a)
    → (a : Assessment) × (handle_assessment m ≡ ok a) × Closed a
unfolding handle_assessment
handle_assessment-total (ok a) only closed = (a, refl, closed a refl)
handle_assessment-total (err e) only closed =
    (contract_failure e, rw (only.raised e refl) refl, refl)

-- For all arguments decide_resource_health_admission returns a decision and raises nothing, and the
-- decision fails closed exactly when it does not admit.
pub decide_resource_health_admission-total :
    (u : Unicode) (id : String) (c : Context) (slots : List String) (rs : List ResourceRecord)
    (evidence : List Supplied) (evaluated_at now : String) (fresh : Bool)
    → (d : ResourceAdmissionDecision) × (decide_resource_health_admission u id c slots rs evidence
          evaluated_at now fresh
        ≡ ok d)
      × (d.fail_closed ≡ not (d.decision_status == admitted))
unfolding decide_resource_health_admission
decide_resource_health_admission-total u id c slots rs evidence evaluated_at now fresh =
    let m = assess u c slots rs evidence evaluated_at fresh in
    let (a, e, closed) =
      handle_assessment-total m (assess-HealthOnly u c slots rs evidence evaluated_at fresh)
        (assess-Closed u c slots rs evidence evaluated_at fresh) in
    elim (Result-cases
      (decide_resource_health_admission u id c slots rs evidence evaluated_at now fresh)) [
        | inl (d, h) ↦ (d, h, ground (arith, e, h, closed))
        | inr (x, h) ↦ absurd (ground (arith, e, h))
      ]
