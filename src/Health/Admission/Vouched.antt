-- ===== src/Health/Admission/Vouched.antt =====
-- What stands behind a decision of `decide_resource_health_admission` that admits.
use syvert.Common.{
  ℕ, String, ◌≡◌, ◌≢◌, refl, sym, ap, subst, ◌∙◌, true, ◌&&◌, Bool-cases, inl, inr, Option, none,
  some, List, [], ◌∷◌, map, Memᴰ, All, All-mem, each-All, ◌==◌, eq_iff, has, mem-keep, All-keep,
  Result, ok, err, health_contract, credential_contract, pass, require, require-eq-pass, each,
  traverse, >>=-eq-ok, >>-eq-ok, ok_injective, if◌then◌else◌,
}
use syvert.Lifecycle.Types.{ResourceRecord}
use syvert.Health.Types.{
  CredentialMaterial, ResourceHealthEvidence, Supplied, ResourceAdmissionDecision, healthy, stale,
  unknown, session_invalid, admitted, evidence_statuses,
}
use syvert.Health.Redaction.{Unicode}
use syvert.Json.{obj}
use syvert.Health.Evidence.Faults.{is_health_error}
use syvert.Health.Evidence.{
  require_health_text, all_known, evidence_from_fields, parse_health_time,
  validate_resource_health_evidence, resource_health_evidence_from_dict, coerce_evidence,
}
use syvert.Health.Admission.{
  credential_material_from_account_resource, same_given, validate_evidence_context, AccountHealth,
  max_observed_at, latest_evidence, expiry_of, any_due, judge_latest, judge_account, evidence_of,
  after_account, project_accounts, Assessment, decision_for_projected_health, check_credential,
  account_resources, assess_accounts, Context, assess_evidence, assess, ungated, handle_assessment,
  decide_resource_health_admission,
}
use syvert.Health.Admission.Latest.{Fresh, judge_account-Fresh}

stale-ne-healthy : stale ≢ healthy
stale-ne-healthy h = absurd (let i = (eq_iff stale healthy).1 h in cc i)

invalid-ne-healthy : session_invalid ≢ healthy
invalid-ne-healthy h = absurd (let i = (eq_iff session_invalid healthy).1 h in cc i)

unknown-ne-healthy : unknown ≢ healthy
unknown-ne-healthy h = absurd (let i = (eq_iff unknown healthy).1 h in cc i)

judge_latest-answers :
    (at : ℕ) (l : List ResourceHealthEvidence) (h : String)
    → judge_latest at l ≡ ok (AccountHealth.answers h)
    → h ≡ session_invalid
unfolding judge_latest
judge_latest-answers at l h e = elim (Bool-cases (has session_invalid (map (λ e. e.status) l))) [
  | inl i ↦ (let e = rw (i, judge_latest) at e in cc e)
  | inr i ↦ elim (Bool-cases (has stale (map (λ e. e.status) l))) [
    | inl j ↦ absurd (let e = rw (i, j, judge_latest) at e in cc e)
    | inr j ↦
        (let (ys, _, last) = >>=-eq-ok (traverse expiry_of l) _ (rw (i, j, judge_latest) at e) in
          elim (Bool-cases (any_due at ys)) [
            | inl k ↦ absurd (let last = rw k at last in cc last)
            | inr k ↦ absurd (let last = rw k at last in cc last)
          ])
  ]
]

-- No early return says healthy.
answers-ne-healthy :
    (at : ℕ) (es : List ResourceHealthEvidence) (h : String)
    → judge_account at es ≡ ok (AccountHealth.answers h)
    → h ≢ healthy
unfolding judge_account
answers-ne-healthy at [] h e is = unknown-ne-healthy (cc (e, is))
answers-ne-healthy at (x ∷ es) h e is =
    let (t, _, e) = >>=-eq-ok (max_observed_at x es) _ e in
    let (l, _, e) = >>=-eq-ok (latest_evidence t (x ∷ es)) _ e in
    invalid-ne-healthy (sym (judge_latest-answers at l h e) ∙ is)

after_account-healthy :
    (projected : String) (health : AccountHealth) (next : String → Result String)
    → ((h : String) → health ≡ AccountHealth.answers h → h ≢ healthy)
    → (next stale ≢ ok healthy)
    → after_account projected health next ≡ ok healthy
    → (health ≡ AccountHealth.stays) × (next projected ≡ ok healthy)
unfolding after_account
after_account-healthy projected (AccountHealth.answers h) next unhealthy never e =
    absurd (unhealthy h refl (ok_injective e))
after_account-healthy projected AccountHealth.turns_stale next unhealthy never e = absurd (never e)
after_account-healthy projected AccountHealth.stays next unhealthy never e = (refl, e)

-- A projection of `healthy` changed at no account.
project_accounts-healthy :
    (projected : String) (accounts : List ResourceRecord) (es : List ResourceHealthEvidence)
    (at : ℕ)
    → project_accounts projected accounts es at ≡ ok healthy
    → (projected ≡ healthy)
      × All (λ r. judge_account at (evidence_of r.resource_id es) ≡ ok AccountHealth.stays) accounts
unfolding project_accounts
project_accounts-healthy projected [] es at h = (ok_injective h, tt)
project_accounts-healthy projected (account ∷ accounts) es at h =
    let (health, judged, h) =
      >>=-eq-ok (judge_account at (evidence_of account.resource_id es)) _ h in
    let (stays, rest) =
      after_account-healthy projected health _
        (λ a is. answers-ne-healthy at (evidence_of account.resource_id es) a (judged ∙ ap ok is))
        (λ e. stale-ne-healthy (project_accounts-healthy stale accounts es at e).0) h in
    let (same, all) = project_accounts-healthy projected accounts es at rest in
    (same, (judged ∙ ap ok stays, all))

-- Every reading of evidence that succeeds has validated it.
coerce_evidence-valid :
    (u : Unicode) (x : Supplied) (e : ResourceHealthEvidence)
    → coerce_evidence u x ≡ ok e
    → validate_resource_health_evidence u e ≡ pass
unfolding coerce_evidence resource_health_evidence_from_dict
coerce_evidence-valid u (Supplied.evidence e') e h =
    let (valid, last) = >>-eq-ok (validate_resource_health_evidence u e') _ h in
    subst (λ x. validate_resource_health_evidence u x ≡ pass) (ok_injective last) valid
coerce_evidence-valid u (Supplied.payload (obj fs)) e h =
    let (_, h) = >>-eq-ok (require (all_known fs) health_contract) _ h in
    let (e', _, h) = >>=-eq-ok (evidence_from_fields fs) _ h in
    let (valid, last) = >>-eq-ok (validate_resource_health_evidence u e') _ h in
    subst (λ x. validate_resource_health_evidence u x ≡ pass) (ok_injective last) valid
coerce_evidence-valid u (Supplied.payload _) e h = cc

valid-status :
    (u : Unicode) (e : ResourceHealthEvidence)
    → validate_resource_health_evidence u e ≡ pass
    → has e.status evidence_statuses ≡ true
unfolding validate_resource_health_evidence
valid-status u e h =
    let (_, h) = >>-eq-ok (require_health_text e.evidence_id) _ h in
    let (_, h) = >>-eq-ok (require_health_text e.resource_id) _ h in
    let (_, h) = >>-eq-ok (require (e.resource_type == "account") health_contract) _ h in
    let (known, _) = >>-eq-ok (require (has e.status evidence_statuses) health_contract) _ h in
    require-eq-pass _ health_contract known

coerced-statuses :
    (u : Unicode) (xs : List Supplied) {es : List ResourceHealthEvidence}
    → traverse (coerce_evidence u) xs ≡ ok es
    → All (λ e. has e.status evidence_statuses ≡ true) es
unfolding traverse
coerced-statuses u [] h = subst (All _) (ok_injective h) tt
coerced-statuses u (x ∷ xs) h =
    let (e, first, h) = >>=-eq-ok (coerce_evidence u x) _ h in
    let (es, others, last) = >>=-eq-ok (traverse (coerce_evidence u) xs) _ h in
    subst (All _) (ok_injective last)
      (valid-status u e (coerce_evidence-valid u x e first), coerced-statuses u xs others)

same_given-eq : (o : Option String) (s : String) → same_given o s ≡ true → o ≡ some s
unfolding same_given
same_given-eq none s h = cc
same_given-eq (some t) s h = ap some ((eq_iff t s).0 h)

-- An account resource, with the evidence of this task that its session is healthy.
pub record Vouched (u : Unicode) (c : Context) (evidence : List Supplied) (evaluated_at : String)
    (r : ResourceRecord) : Type 0 where
  pub read : List ResourceHealthEvidence
  pub coerced : traverse (coerce_evidence u) evidence ≡ ok read
  pub at : ℕ
  pub evaluated : parse_health_time evaluated_at ≡ ok at
  pub fresh : Fresh at (evidence_of r.resource_id read)
  pub of_task : fresh.proof.task_id ≡ some c.task_id
  pub of_adapter : fresh.proof.adapter_key ≡ some c.adapter_key
  pub of_capability : fresh.proof.capability ≡ some c.capability
  pub material : CredentialMaterial
  pub credential : credential_material_from_account_resource r ≡ ok material
  pub managed : material.adapter_key ≡ c.adapter_key

context-eq :
    (c : Context) (e : ResourceHealthEvidence)
    → validate_evidence_context c.task_id c.adapter_key c.capability c.operation e ≡ pass
    → (e.task_id ≡ some c.task_id)
      × (e.adapter_key ≡ some c.adapter_key)
      × (e.capability ≡ some c.capability)
unfolding validate_evidence_context
context-eq c e h =
    let (task, h) = >>-eq-ok (require (same_given e.task_id c.task_id) health_contract) _ h in
    let (adapter, h) =
      >>-eq-ok (require (same_given e.adapter_key c.adapter_key) health_contract) _ h in
    let (capability, _) =
      >>-eq-ok (require (same_given e.capability c.capability) health_contract) _ h in
    (
      same_given-eq _ _ (require-eq-pass _ health_contract task),
      same_given-eq _ _ (require-eq-pass _ health_contract adapter),
      same_given-eq _ _ (require-eq-pass _ health_contract capability),
    )

check_credential-bound :
    (k : String) (r : ResourceRecord)
    → check_credential k r ≡ pass
    → (m : CredentialMaterial) × (credential_material_from_account_resource r ≡ ok m)
      × (m.adapter_key ≡ k)
unfolding check_credential
check_credential-bound k r h =
    let (m, bound, h) = >>=-eq-ok (credential_material_from_account_resource r) _ h in
    (m, bound, (eq_iff m.adapter_key k).0 (require-eq-pass _ credential_contract h))

decision_for-admitted :
    (refs : List String) (health : String)
    → (decision_for_projected_health refs health).status ≡ admitted
    → health ≡ healthy
unfolding decision_for_projected_health
decision_for-admitted refs health h = elim (Bool-cases (health == healthy)) [
  | inl e ↦ (eq_iff health healthy).0 e
  | inr e ↦ absurd (let i = (eq_iff _ _).1 (rw e at h) in cc i)
]

-- What an assessment of accounts that admits has gone through.
assess_accounts-admitted :
    (k : String) (accounts : List ResourceRecord) (es : List ResourceHealthEvidence) (at : ℕ)
    (a : Assessment)
    → assess_accounts k accounts es at ≡ ok a
    → a.status ≡ admitted
    → All (λ r. check_credential k r ≡ pass) accounts
      × All (λ r. judge_account at (evidence_of r.resource_id es) ≡ ok AccountHealth.stays) accounts
unfolding assess_accounts
assess_accounts-admitted k [] es at a h adm = absurd (
    let i = (eq_iff _ admitted).1 (ap (λ (x : Assessment). x.status) (ok_injective h) ∙ adm) in
    cc i)
assess_accounts-admitted k (account ∷ accounts) es at a h adm =
    let (_, h) = >>-eq-ok (each _ es) _ h in
    let (credentials, h) = >>-eq-ok (each (check_credential k) (account ∷ accounts)) _ h in
    let (p, projected, last) =
      >>=-eq-ok (project_accounts healthy (account ∷ accounts) es at) _ h in
    let is =
      decision_for-admitted _ p (ap (λ (x : Assessment). x.status) (ok_injective last) ∙ adm) in
    (
      each-All (check_credential k) (account ∷ accounts) credentials,
      (project_accounts-healthy healthy (account ∷ accounts) es at (projected ∙ ap ok is)).1,
    )

-- An assessment of evidence that admits vouches for each account among the resources.
assess_evidence-Vouched :
    (u : Unicode) (c : Context) (rs : List ResourceRecord) (evidence : List Supplied)
    (evaluated_at : String) (at : ℕ) (a : Assessment) (r : ResourceRecord)
    → parse_health_time evaluated_at ≡ ok at
    → assess_evidence u c rs evidence at ≡ ok a
    → a.status ≡ admitted
    → Memᴰ r rs
    → r.resource_type ≡ "account"
    → Vouched u c evidence evaluated_at r
unfolding assess_evidence
assess_evidence-Vouched u c rs evidence evaluated_at at a r evaluated h adm member is =
    let (es, coerced, h) = >>=-eq-ok (traverse (coerce_evidence u) evidence) _ h in
    let check = validate_evidence_context c.task_id c.adapter_key c.capability c.operation in
    let (contexts, h) = >>-eq-ok (each check es) _ h in
    let (credentials, judged) =
      assess_accounts-admitted c.adapter_key (account_resources rs) es at a h adm in
    let here =
      mem-keep (λ r. r.resource_type == "account") r rs member
        ((eq_iff r.resource_type "account").1 is) in
    let fresh =
      judge_account-Fresh at (evidence_of r.resource_id es)
        (All-mem _ (account_resources rs) judged here)
        (All-keep _ (λ e. e.resource_id == r.resource_id) es
          (coerced-statuses u evidence coerced)) in
    let all = All-keep _ (λ e. e.resource_id == r.resource_id) es (each-All check es contexts) in
    let (task, adapter, capability) = context-eq c fresh.proof (All-mem _ _ all fresh.member) in
    let (m, bound, managed) =
      check_credential-bound c.adapter_key r (All-mem _ (account_resources rs) credentials here) in
    record {
      read = es;
      coerced = coerced;
      at = at;
      evaluated = evaluated;
      fresh = fresh;
      of_task = task;
      of_adapter = adapter;
      of_capability = capability;
      material = m;
      credential = bound;
      managed = managed;
    }

handle_assessment-admitted :
    (m : Result Assessment) (a : Assessment)
    → handle_assessment m ≡ ok a
    → a.status ≡ admitted
    → m ≡ ok a
unfolding handle_assessment
handle_assessment-admitted (ok a) b h adm = h
handle_assessment-admitted (err e) b h adm = elim (Bool-cases (is_health_error e)) [
  | inr i ↦ absurd (let h = rw i at h in cc h)
  | inl i ↦ absurd (
      let is = ok_injective (rw i at h) in
      let j = (eq_iff _ admitted).1 (ap (λ (x : Assessment). x.status) is ∙ adm) in cc j)
]

-- An assessment that the account slot gates has assessed the evidence.
assess-gated :
    (u : Unicode) (c : Context) (slots : List String) (rs : List ResourceRecord)
    (evidence : List Supplied) (evaluated_at : String) (a : Assessment)
    → assess u c slots rs evidence evaluated_at true ≡ ok a
    → has "account" slots ≡ true
    → (at : ℕ) × (parse_health_time evaluated_at ≡ ok at)
      × (assess_evidence u c rs evidence at ≡ ok a)
unfolding assess
assess-gated u c slots rs evidence evaluated_at a h slot =
    let (at, evaluated, h') = >>=-eq-ok (parse_health_time evaluated_at) _ h in
    (
      at,
      evaluated,
      subst (λ b. (if true && b then assess_evidence u c rs evidence at else ok ungated) ≡ ok a)
          slot h',
    )

-- When decide_resource_health_admission is asked for a fresh account session, the requested slots
-- have the account, and the decision admits, then for each account among the resources the supplied
-- evidence has a piece on that account that says healthy, was observed no earlier than any other on
-- it, expires after the time of evaluation and is of the task, adapter and capability of the
-- context; and the credential of the account is managed for the adapter.
pub decide_resource_health_admission-Vouched :
    (u : Unicode) (id : String) (c : Context) (slots : List String) (rs : List ResourceRecord)
    (evidence : List Supplied) (evaluated_at now : String) (d : ResourceAdmissionDecision)
    (r : ResourceRecord)
    → decide_resource_health_admission u id c slots rs evidence evaluated_at now true ≡ ok d
    → d.decision_status ≡ admitted
    → has "account" slots ≡ true
    → Memᴰ r rs
    → r.resource_type ≡ "account"
    → Vouched u c evidence evaluated_at r
unfolding decide_resource_health_admission
decide_resource_health_admission-Vouched u id c slots rs evidence evaluated_at now d r h adm slot
      member is =
    let m = assess u c slots rs evidence evaluated_at true in
    let (a, handled, last) = >>=-eq-ok (handle_assessment m) _ h in
    let adm : a.status ≡ admitted =
      ap (λ (x : ResourceAdmissionDecision). x.decision_status) (ok_injective last) ∙ adm in
    let assessed = handle_assessment-admitted m a handled adm in
    let (at, evaluated, read) = assess-gated u c slots rs evidence evaluated_at a assessed slot in
    assess_evidence-Vouched u c rs evidence evaluated_at at a r evaluated read adm member is
