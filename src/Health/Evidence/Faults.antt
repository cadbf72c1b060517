-- ===== src/Health/Evidence/Faults.antt =====
-- What reading and validating a `ResourceHealthEvidence` may raise.
use syvert.Common.{String, Bool, true, false, Option, none, some, Error, Result, ok, err}
use syvert.Common.Raises.{Raises, raises_rules}
use syvert.Json.{null, Value, Fields, text, obj}
use syvert.Health.Types.{ResourceHealthEvidence, Supplied}
use syvert.Health.Redaction.{Unicode, reject_private_tokens}
use syvert.Time.{parse_lifecycle_time}
use syvert.Health.Evidence.{
  as_health, parse_health_time, require_health_text, require_given, text_value, optional_given,
  optional_value, check_expiry, check_freshness, check_diagnostic,
  validate_resource_health_evidence, evidence_from_fields, resource_health_evidence_from_dict,
  coerce_evidence,
}

-- What `except ResourceHealthContractError` catches.
abbrev pub is_health_error : Error → Bool
is_health_error Error.health_contract = true
is_health_error Error.credential_contract = true
is_health_error _ = false

abbrev pub HealthOnly {ℓ} : {A : Type ℓ} → Result A → Type ℓ
HealthOnly m = Raises is_health_error m

require_health_text-HealthOnly : (s : String) → HealthOnly (require_health_text s)
unfolding require_health_text
require_health_text-HealthOnly s = search raises_rules

require_given-HealthOnly : (o : Option String) → HealthOnly (require_given o)
unfolding require_given
require_given-HealthOnly none = search raises_rules
require_given-HealthOnly (some s) = require_health_text-HealthOnly s

optional_given-HealthOnly : (o : Option String) → HealthOnly (optional_given o)
unfolding optional_given
optional_given-HealthOnly none = search raises_rules
optional_given-HealthOnly (some s) = require_health_text-HealthOnly s

check_freshness-HealthOnly : (e : ResourceHealthEvidence) → HealthOnly (check_freshness e)
unfolding check_freshness
check_freshness-HealthOnly e = search (raises_rules, require_given-HealthOnly)

as_health-HealthOnly {ℓ} : {A : Type ℓ} (m : Result A) → HealthOnly (as_health m)
unfolding as_health
as_health-HealthOnly (ok a) = search raises_rules
as_health-HealthOnly (err e) = search raises_rules

pub parse_health_time-HealthOnly : (s : String) → HealthOnly (parse_health_time s)
unfolding parse_health_time
parse_health_time-HealthOnly s = as_health-HealthOnly (parse_lifecycle_time s)

check_expiry-HealthOnly :
    (observed_at : String) (o : Option String) → HealthOnly (check_expiry observed_at o)
unfolding check_expiry
check_expiry-HealthOnly observed_at none = search raises_rules
check_expiry-HealthOnly observed_at (some s) = search (raises_rules, parse_health_time-HealthOnly)

reject_private_tokens-HealthOnly :
    (u : Unicode) (s : String) → HealthOnly (reject_private_tokens u s)
unfolding reject_private_tokens
reject_private_tokens-HealthOnly u s = search raises_rules

check_diagnostic-HealthOnly : (u : Unicode) (o : Option String) → HealthOnly (check_diagnostic u o)
unfolding check_diagnostic
check_diagnostic-HealthOnly u none = search raises_rules
check_diagnostic-HealthOnly u (some s) = reject_private_tokens-HealthOnly u s

ruleset evidence_rules = (
  raises_rules, require_health_text-HealthOnly, optional_given-HealthOnly,
  check_freshness-HealthOnly, parse_health_time-HealthOnly, check_expiry-HealthOnly,
  reject_private_tokens-HealthOnly, check_diagnostic-HealthOnly,
)

validate-HealthOnly :
    (u : Unicode) (e : ResourceHealthEvidence) → HealthOnly (validate_resource_health_evidence u e)
unfolding validate_resource_health_evidence
validate-HealthOnly u e = search evidence_rules depth 30 fits 3000

text_value-HealthOnly : (v : Value) → HealthOnly (text_value v)
unfolding text_value
text_value-HealthOnly (text s) = search evidence_rules
text_value-HealthOnly _ = search evidence_rules

optional_value-HealthOnly : (v : Value) → HealthOnly (optional_value v)
unfolding optional_value
optional_value-HealthOnly null = search evidence_rules
optional_value-HealthOnly _ = search (evidence_rules, text_value-HealthOnly)

evidence_from_fields-HealthOnly : (fs : Fields) → HealthOnly (evidence_from_fields fs)
unfolding evidence_from_fields
evidence_from_fields-HealthOnly fs =
    search (raises_rules, text_value-HealthOnly, optional_value-HealthOnly) depth 40 fits 4000

pub from_dict-HealthOnly :
    (u : Unicode) (v : Value) → HealthOnly (resource_health_evidence_from_dict u v)
unfolding resource_health_evidence_from_dict
from_dict-HealthOnly u (obj fs) =
    search (raises_rules, evidence_from_fields-HealthOnly, validate-HealthOnly)
from_dict-HealthOnly u _ = search raises_rules

pub coerce_evidence-HealthOnly : (u : Unicode) (v : Supplied) → HealthOnly (coerce_evidence u v)
unfolding coerce_evidence
coerce_evidence-HealthOnly u (Supplied.evidence e) = search (raises_rules, validate-HealthOnly)
coerce_evidence-HealthOnly u (Supplied.payload v) = from_dict-HealthOnly u v
