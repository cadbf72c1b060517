-- ===== src/Service/Acquire/Unchanged.antt =====
-- `acquire` where no other process writes and no bundle is returned.
use syvert.Common.{
  ℕ, zero, suc, String, ◌≡◌, ◌≢◌, refl, ap, ◌∙◌, inl, inr, arith, Error, ok, err, ◌>>=◌,
  Result-cases, Bool-cases,
}
use syvert.Json.{Value}
use syvert.Lifecycle.Types.{ResourceBundle, AcquireRequest, ResourceLifecycleSnapshot}
use syvert.Lifecycle.Requests.{normalize_acquire_request, require_task_context_task_id}
use syvert.Lifecycle.Failures.{is_retryable_revision_conflict}
use syvert.Store.Disk.{Disk}
use syvert.Service.World.{Env, World, load_from_store, write_snapshot_with_tracing}
use syvert.Service.Writes.{write_snapshot_with_tracing-failed, load_from_store-disk}
use syvert.Service.Acquire.{
  AcquireResult, plan_acquire, acquire_loop, finish_acquire, begin_acquire, reselect, acquire,
}

finish_acquire-ok :
    (task_id adapter_key capability : String) (b : ResourceBundle)
    → finish_acquire task_id adapter_key capability (ok b) ≡ ok (AcquireResult.acquired b)
unfolding finish_acquire
finish_acquire-ok task_id adapter_key capability b = refl

module _ (env : Env) (quiet : (n : ℕ) (d : Disk) → env.others n d ≡ d) where
  acquire_loop-failed :
      (rounds : ℕ) (request : AcquireRequest) (s : ResourceLifecycleSnapshot) (w : World)
      (e : Error)
      → (acquire_loop env rounds request s w).0 ≡ err e
      → (acquire_loop env rounds request s w).1.disk.snapshot_file ≡ w.disk.snapshot_file
  unfolding acquire_loop
  acquire_loop-failed zero request s w e h = refl
  acquire_loop-failed (suc rounds) request s w e h =
      elim (Result-cases
        (plan_acquire request s (env.now w.step) (env.bundle_hex w.step) (env.lease_hex w.step))) [
          | inr (e', p) ↦ ground (arith, p)
          | inl (plan, p) ↦
              elim (Result-cases (write_snapshot_with_tracing env plan.snapshot plan.events w).0) [
                | inl (s', q) ↦ absurd (ground (arith, h, p, q))
                | inr (e', q) ↦
                    (let kept =
                        write_snapshot_with_tracing-failed env quiet plan.snapshot plan.events w e'
                          q in
                      let written =
                        (write_snapshot_with_tracing env plan.snapshot plan.events w).1 in
                      let reloaded =
                        ap (λ (d : Disk). d.snapshot_file) (load_from_store-disk env quiet written)
                        ∙ kept in
                      elim (Bool-cases (is_retryable_revision_conflict e')) [
                        | inr fatal ↦ ground (arith, p, q, fatal, kept)
                        | inl again ↦
                            (let (loaded, w'') = load_from_store env written in
                              elim (Result-cases
                                (do fresh ← loaded; reselect request plan.signature fresh)) [
                                  | inr (e'', r) ↦
                                      rw (p, acquire_loop)
                                        (rw (q, again, acquire_loop)
                                          (rw (r, acquire_loop) reloaded))
                                  | inl (fresh, r) ↦
                                      rw (p, acquire_loop)
                                        (rw (q, again, acquire_loop)
                                          (rw (r, acquire_loop)
                                            (acquire_loop-failed rounds request fresh w'' e
                                                (ground (arith, h, p, q, again, r))
                                              ∙ reloaded)))
                                ])
                      ])
              ]
        ]

  begin_acquire-disk : (request : Value) (w : World) → (begin_acquire env request w).1.disk ≡ w.disk
  unfolding begin_acquire
  begin_acquire-disk request w = elim (Result-cases (normalize_acquire_request request)) [
    | inl (r, p) ↦ rw (p, begin_acquire) (load_from_store-disk env quiet w)
    | inr (e, p) ↦ rw (p, begin_acquire)
  ]

  -- Where no other process writes, acquire leaves the snapshot's file as it was unless it returns a
  -- bundle: after a failure envelope and after an error that it raises.
  pub acquire-unchanged :
      (rounds : ℕ) (request : Value) (context : String) (w : World)
      → ((b : ResourceBundle)
          → (acquire env rounds request context w).0 ≢ ok (AcquireResult.acquired b))
      → (acquire env rounds request context w).1.disk.snapshot_file ≡ w.disk.snapshot_file
  unfolding acquire
  acquire-unchanged rounds request context w never =
      elim (Result-cases (require_task_context_task_id context)) [
        | inr (e, p) ↦ ground (arith, p)
        | inl (_, p) ↦
            (let begun = ap (λ (d : Disk). d.snapshot_file) (begin_acquire-disk request w) in
              let w' = (begin_acquire env request w).1 in
              elim (Result-cases (begin_acquire env request w).0) [
                | inr (e, q) ↦ rw (p, acquire) (rw (q, acquire) begun)
                | inl ((normalized, s), q) ↦
                    elim (Result-cases (acquire_loop env rounds normalized s w').0) [
                      | inl (b, r) ↦ absurd (
                          never b (
                            rw (p, acquire) (rw (q, acquire) (rw (r) (finish_acquire-ok _ _ _ b)))))
                      | inr (e, r) ↦
                          rw (p, acquire)
                            (rw (q, acquire)
                              (acquire_loop-failed rounds normalized s w' e r ∙ begun))
                    ]
              ])
      ]
