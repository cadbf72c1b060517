-- ===== src/Service/Acquire/Outcome.antt =====
-- What `acquire` leaves on disk.
use syvert.Common.{
  ℕ, zero, suc, String, ◌≡◌, sym, ap, ◌∙◌, inl, inr, List, [], ◌∷◌, ◌++◌, arith, Result, ok, err,
  pass, ◌>>=◌, >>=-eq-ok, >>-eq-ok, ok_injective, Result-cases, Bool-cases,
}
use syvert.Json.{Value}
use syvert.Lifecycle.Types.{
  ResourceBundle, ResourceLease, AcquireRequest, ResourceLifecycleSnapshot,
}
use syvert.Lifecycle.Snapshot.{validate_snapshot, values}
use syvert.Lifecycle.Requests.{require_task_context_task_id}
use syvert.Lifecycle.Failures.{is_retryable_revision_conflict}
use syvert.Lifecycle.Selection.{select_available_resources, selected_resources_signature}
use syvert.Lifecycle.Transitions.{ids_of, apply_acquire_transition}
use syvert.Lifecycle.Tracing.{
  build_resource_bundle, build_resource_lease, build_acquired_resource_trace_events,
}
use syvert.Lifecycle.Codec.{canonical_snapshot}
use syvert.Lifecycle.Codec.Canonical.{canonical_snapshot-Canonical}
use syvert.Store.Disk.{Disk}
use syvert.Store.LifecycleStore.{load_snapshot}
use syvert.Service.World.{Env, World, load_from_store, write_snapshot_with_tracing}
use syvert.Service.Writes.{write_snapshot_with_tracing-stored}
use syvert.Service.Acquire.{
  AcquireResult, AcquirePlan, plan_acquire, acquire_loop, finish_acquire, begin_acquire, reselect,
  acquire,
}

-- The disk holds a valid snapshot that ends with the lease of the bundle.
pub record Acquired (bundle : ResourceBundle) (d : Disk) : Type 0 where
  pub stored : ResourceLifecycleSnapshot
  pub loaded : load_snapshot d.snapshot_file ≡ ok stored
  pub valid : validate_snapshot stored ≡ pass
  pub earlier : List ResourceLease
  pub lease : ResourceLease
  pub leased : build_resource_lease bundle ≡ ok lease
  pub last : stored.leases ≡ earlier ++ lease ∷ []

plan_acquire-Acquired :
    (request : AcquireRequest) (s : ResourceLifecycleSnapshot) (now b l : String)
    (plan : AcquirePlan) (s' : ResourceLifecycleSnapshot) (d : Disk)
    → plan_acquire request s now b l ≡ ok plan
    → (canonical_snapshot plan.snapshot ≡ ok s') × (load_snapshot d.snapshot_file ≡ ok s')
    → Acquired plan.bundle d
unfolding plan_acquire
plan_acquire-Acquired request s now b l plan s' d h (made, stored) =
    let (selected, _, h) =
      >>=-eq-ok (select_available_resources s request.requested_slots request.adapter_key) _ h in
    let (signature, _, h) =
      >>=-eq-ok (selected_resources_signature request.requested_slots selected) _ h in
    let (bundle, _, h) = >>=-eq-ok (build_resource_bundle request selected now b l) _ h in
    let (lease, leased, h) = >>=-eq-ok (build_resource_lease bundle) _ h in
    let (events, _, h) = >>=-eq-ok (build_acquired_resource_trace_events bundle) _ h in
    let (updated, _, h) =
      >>=-eq-ok (apply_acquire_transition s.resources (ids_of (values selected))) _ h in
    let (_, h) = >>-eq-ok (validate_snapshot _) _ h in
    let canonical = canonical_snapshot-Canonical plan.snapshot made in
    let same = ok_injective h in
    record {
      stored = s';
      loaded = stored;
      valid = canonical.valid;
      earlier = s.leases;
      lease = lease;
      leased = sym (ap (λ (p : AcquirePlan). build_resource_lease p.bundle) same) ∙ leased;
      last = canonical.leases ∙ ap (λ (p : AcquirePlan). p.snapshot.leases) (sym same);
    }

acquire_loop-Acquired :
    (env : Env) (rounds : ℕ) (request : AcquireRequest) (s : ResourceLifecycleSnapshot) (w : World)
    (bundle : ResourceBundle)
    → (acquire_loop env rounds request s w).0 ≡ ok bundle
    → Acquired bundle (acquire_loop env rounds request s w).1.disk
unfolding acquire_loop
acquire_loop-Acquired env zero request s w bundle h = cc
acquire_loop-Acquired env (suc rounds) request s w bundle h =
    elim (Result-cases
      (plan_acquire request s (env.now w.step) (env.bundle_hex w.step) (env.lease_hex w.step))) [
        | inr (e, p) ↦ absurd (ground (arith, h, p))
        | inl (plan, p) ↦
            elim (Result-cases (write_snapshot_with_tracing env plan.snapshot plan.events w).0) [
              | inl (s', e) ↦
                  (let is : bundle ≡ plan.bundle = ground (arith, h, p, e) in
                    rw (p, acquire_loop)
                      (rw (e, acquire_loop)
                        (rw is (
                          plan_acquire-Acquired request s _ _ _ plan s' _ p (
                            write_snapshot_with_tracing-stored env plan.snapshot s' plan.events w
                              e)))))
              | inr (e', e) ↦ elim (Bool-cases (is_retryable_revision_conflict e')) [
                | inr fatal ↦ absurd (ground (arith, h, p, e, fatal))
                | inl again ↦
                    (let written =
                        (write_snapshot_with_tracing env plan.snapshot plan.events w).1 in
                      let (loaded, w'') = load_from_store env written in
                      elim (Result-cases
                        (do fresh ← loaded; reselect request plan.signature fresh)) [
                          | inr (e'', r) ↦ absurd (ground (arith, h, p, e, again, r))
                          | inl (fresh, r) ↦
                              rw (p, acquire_loop)
                                (rw (e, again, acquire_loop)
                                  (rw (r, acquire_loop)
                                    (acquire_loop-Acquired env rounds request fresh w'' bundle
                                      (ground (arith, h, p, e, again, r)))))
                        ])
              ]
            ]
      ]

finish_acquire-acquired :
    (task_id adapter_key capability : String) (m : Result ResourceBundle) (bundle : ResourceBundle)
    → finish_acquire task_id adapter_key capability m ≡ ok (AcquireResult.acquired bundle)
    → m ≡ ok bundle
unfolding finish_acquire
finish_acquire-acquired task_id adapter_key capability (ok b) bundle h = cc
finish_acquire-acquired task_id adapter_key capability (err e) bundle h = ground (arith, h)

-- Whatever other processes do, when acquire returns a bundle, the disk that it leaves holds a
-- snapshot that passes validation and whose last lease is the lease of that bundle.
pub acquire-Acquired :
    (env : Env) (rounds : ℕ) (request : Value) (context : String) (w : World)
    (bundle : ResourceBundle)
    → (acquire env rounds request context w).0 ≡ ok (AcquireResult.acquired bundle)
    → Acquired bundle (acquire env rounds request context w).1.disk
unfolding acquire
acquire-Acquired env rounds request context w bundle h =
    elim (Result-cases (require_task_context_task_id context)) [
      | inr (e, p) ↦ absurd (ground (arith, h, p))
      | inl (_, p) ↦
          (let w' = (begin_acquire env request w).1 in
            elim (Result-cases (begin_acquire env request w).0) [
              | inr (e, q) ↦ absurd (
                  ground
                    (arith, finish_acquire-acquired _ _ _ (err e) bundle (rw (p, q, acquire) at h)))
              | inl ((normalized, s), q) ↦
                  rw (p, acquire)
                    (rw (q, acquire)
                      (acquire_loop-Acquired env rounds normalized s w' bundle
                        (finish_acquire-acquired _ _ _ _ bundle (rw (p, q, acquire) at h))))
            ])
    ]
