-- ===== src/Service/Quiet/Acquire.antt =====
-- The rounds of the loop of `acquire` where no other process writes.
use syvert.Common.{
  ℕ, suc, String, ◌≢◌, inl, inr, Result, ok, err, not_terminated, refl, ◌≡◌, ap, ◌∙◌, Result-cases,
  >>=-eq-ok, ok_injective,
}
use syvert.Common.Raises.{Raises-ok, Raises-err, Raises-if, raises_rules}
use syvert.Json.{Value}
use syvert.Lifecycle.Types.{ResourceBundle, AcquireRequest, ResourceLifecycleSnapshot}
use syvert.Lifecycle.Failures.{is_lifecycle_error}
use syvert.Lifecycle.Requests.{normalize_acquire_request, require_task_context_task_id}
use syvert.Store.Disk.{Disk}
use syvert.Service.World.{Env, World, load_checked, load_from_store, write_snapshot_with_tracing}
use syvert.Service.Acquire.{plan_acquire, acquire_loop, finish_acquire, begin_acquire, acquire}
use syvert.Service.Faults.{Ordinary, ordinary-not_retryable}
use syvert.Service.Faults.Snapshot.{load_checked-Ordinary}
use syvert.Service.Faults.Commit.{write_snapshot_with_tracing-Ordinary}
use syvert.Service.Faults.Release.{require_task_context-Ordinary}
use syvert.Service.Faults.Acquire.{
  plan_acquire-Ordinary, plan_acquire-revision, normalize_acquire_request-Ordinary,
}

finish_acquire-Ordinary :
    (task_id adapter_key capability : String) (m : Result ResourceBundle)
    → Ordinary m
    → Ordinary (finish_acquire task_id adapter_key capability m)
unfolding finish_acquire
finish_acquire-Ordinary task_id adapter_key capability (ok l) p = Raises-ok _
finish_acquire-Ordinary task_id adapter_key capability (err e) p =
    Raises-if (is_lifecycle_error e) _ _ (Raises-ok _) (Raises-err e (p.raised e refl))

load_from_store-Ordinary : (env : Env) (w : World) → Ordinary (load_from_store env w).0
unfolding load_from_store
load_from_store-Ordinary env w = load_checked-Ordinary _

begin_acquire-Ordinary :
    (env : Env) (request : Value) (w : World) → Ordinary (begin_acquire env request w).0
unfolding begin_acquire
begin_acquire-Ordinary env request w = elim (Result-cases (normalize_acquire_request request)) [
  | inr (e, p) ↦
      rw (p, begin_acquire) (Raises-err e ((normalize_acquire_request-Ordinary request).raised e p))
  | inl (normalized, p) ↦ rw (p, begin_acquire) (search (raises_rules, load_from_store-Ordinary))
]

-- The snapshot with which the loop begins is the one on disk.
begin_acquire-snapshot :
    (env : Env) (request : Value) (w : World) {begun : AcquireRequest × ResourceLifecycleSnapshot}
    → (begin_acquire env request w).0 ≡ ok begun
    → load_checked (begin_acquire env request w).1.disk ≡ ok begun.1
unfolding begin_acquire load_from_store
begin_acquire-snapshot env request w h = elim (Result-cases (normalize_acquire_request request)) [
  | inr (e, p) ↦ absurd (let h = rw (p, begin_acquire) at h in cc h)
  | inl (normalized, p) ↦
      (let (s, loaded, last) = >>=-eq-ok (load_from_store env w).0 _ (rw (p, begin_acquire) at h) in
        rw (p, begin_acquire) (loaded ∙ ap (λ x. ok x.1) (ok_injective last)))
]

module _ (env : Env) (quiet : (n : ℕ) (d : Disk) → env.others n d ≡ d) where
  acquire_loop-once :
      (rounds : ℕ) (request : AcquireRequest) (s : ResourceLifecycleSnapshot) (w : World)
      → load_checked w.disk ≡ ok s
      → Ordinary (acquire_loop env (suc rounds) request s w).0
        × (acquire_loop env (suc rounds) request s w ≡ acquire_loop env 1 request s w)
  unfolding acquire_loop
  acquire_loop-once rounds request s w read =
      let planned =
        plan_acquire request s (env.now w.step) (env.bundle_hex w.step) (env.lease_hex w.step) in
      elim (Result-cases planned) [
        | inr (e, p) ↦
            rw (p, acquire_loop)
              (Raises-err e ((plan_acquire-Ordinary request s _ _ _).raised e p), refl)
        | inl (plan, p) ↦
            elim (Result-cases (write_snapshot_with_tracing env plan.snapshot plan.events w).0) [
              | inl (s', q) ↦ rw (p, acquire_loop) (rw (q, acquire_loop) (Raises-ok _, refl))
              | inr (e, q) ↦
                  (let ordinary =
                      (write_snapshot_with_tracing-Ordinary env plan.snapshot s plan.events w quiet
                          read (plan_acquire-revision request s _ _ _ plan p)).raised
                        e q in
                    let fatal = ordinary-not_retryable e ordinary in
                    rw (p, acquire_loop)
                      (rw (q, acquire_loop)
                        (rw (fatal, acquire_loop) (Raises-err e ordinary, refl))))
            ]
      ]

  acquire-Ordinary :
      (rounds : ℕ) (request : Value) (context : String) (w : World)
      → Ordinary (acquire env (suc rounds) request context w).0
        × (acquire env (suc rounds) request context w ≡ acquire env 1 request context w)
  unfolding acquire
  acquire-Ordinary rounds request context w =
      elim (Result-cases (require_task_context_task_id context)) [
        | inr (e, p) ↦
            rw (p, acquire)
              (Raises-err e ((require_task_context-Ordinary context).raised e p), refl)
        | inl (_, p) ↦ elim (Result-cases (begin_acquire env request w).0) [
          | inr (e, q) ↦
              rw (p, acquire)
                (rw (q, acquire)
                  (
                    finish_acquire-Ordinary _ _ _ (err e)
                        (Raises-err e ((begin_acquire-Ordinary env request w).raised e q)),
                    refl,
                  ))
          | inl ((normalized, s), q) ↦
              (let w' = (begin_acquire env request w).1 in
                let (ordinary, once) =
                  acquire_loop-once rounds normalized s w'
                    (begin_acquire-snapshot env request w q) in
                rw (p, acquire)
                  (rw (q, acquire)
                    (
                      finish_acquire-Ordinary _ _ _ _ ordinary,
                      ap
                          (λ (x : Result ResourceBundle × World). (
                            finish_acquire normalized.task_id normalized.adapter_key
                                normalized.capability x.0,
                            x.1,
                          ))
                          once,
                    )))
        ]
      ]

-- Where no other process writes, acquire with at least one round for its loop ends: it does not
-- answer not_terminated, and with more rounds than one its result and the world that it leaves are
-- those of one round, whatever the request and whichever system calls fail.
pub acquire-once :
    (env : Env) (rounds : ℕ) (request : Value) (context : String) (w : World)
    → ((n : ℕ) (d : Disk) → env.others n d ≡ d)
    → ((acquire env (suc rounds) request context w).0 ≢ err not_terminated)
      × (acquire env (suc rounds) request context w ≡ acquire env 1 request context w)
acquire-once env rounds request context w quiet =
    let (ordinary, once) = acquire-Ordinary env quiet rounds request context w in
    ((λ h. absurd (let i = ordinary.raised not_terminated h in cc i)), once)
