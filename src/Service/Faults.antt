-- ===== src/Service/Faults.antt =====
-- Which errors `acquire` and `release` of syvert/resource_lifecycle.py can meet in what they call.
pub mod Records
pub mod Snapshot
pub mod Trace
pub mod Commit
pub mod Release
pub mod Acquire
use syvert.Common.{Bool, true, false, Error, Result, ◌≡◌, refl}
use syvert.Common.Raises.{Raises}
use syvert.Lifecycle.Failures.{is_retryable_revision_conflict}

-- Neither a conflict of revisions nor the end of the rounds.
abbrev pub is_ordinary : Error → Bool
is_ordinary Error.revision_conflict = false
is_ordinary Error.not_terminated = false
is_ordinary _ = true

abbrev pub Ordinary {ℓ} : {A : Type ℓ} → Result A → Type ℓ
Ordinary m = Raises is_ordinary m

pub ordinary-not_retryable :
    (e : Error) → is_ordinary e ≡ true → is_retryable_revision_conflict e ≡ false
ordinary-not_retryable Error.revision_conflict h = cc
ordinary-not_retryable _ h = refl
