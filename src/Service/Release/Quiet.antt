-- ===== src/Service/Release/Quiet.antt =====
-- The loop of `release` where no other process writes.
use syvert.Common.{
  ℕ, zero, suc, String, ◌≡◌, refl, sym, ap, ◌∙◌, true, false, Bool-cases, some, ◌⊎◌, inl, inr, List,
  arith, ◌==◌, is_some, Error, Result, ok, lease_mismatch, Check, require, ◌>>◌, >>=-eq-ok,
  >>-eq-ok, ok_injective, Result-cases,
}
use syvert.Lifecycle.Types.{ResourceLease, ReleaseRequest, ResourceLifecycleSnapshot}
use syvert.Lifecycle.Transitions.{find_lease, require_lease}
use syvert.Store.Disk.{Disk}
use syvert.Service.World.{
  Env, World, met, load_checked, load_from_store, write_snapshot_with_tracing,
}
use syvert.Service.Writes.{write_snapshot_with_tracing-stored, write_snapshot_with_tracing-failed}
use syvert.Service.Release.{
  is_text, is_same_settlement, ensure_settled_release_trace_truth, repeat_release, plan_release,
  recheck_release, find_fresh, after_failed_write, own_lease, release_loop,
}
use syvert.Service.Release.Settled.{is_text-eq}
use syvert.Service.Release.Outcome.{
  Released, load_checked-stored, load_checked-file, plan_release-Released, require_lease-find_lease,
}

module _ (env : Env) (quiet : (n : ℕ) (d : Disk) → env.others n d ≡ d) where
  repeat_release-Released :
      (request : ReleaseRequest) (s : ResourceLifecycleSnapshot) (lease l : ResourceLease)
      (w : World)
      → load_checked w.disk ≡ ok s
      → find_lease s.leases request.lease_id ≡ some lease
      → is_some lease.released_at ≡ true
      → (repeat_release env request s lease w).0 ≡ ok l
      → Released request l (repeat_release env request s lease w).1.disk
  unfolding repeat_release is_same_settlement
  repeat_release-Released request s lease l w read found settled h =
      elim (Bool-cases (is_same_settlement request lease)) [
        | inr other ↦ absurd (ground (arith, h, other))
        | inl same ↦
            (let target : is_text lease.target_status_after_release
                    request.target_status_after_release
                  ≡ true =
                ground (arith, same) in
              let reason : is_text lease.release_reason request.reason ≡ true =
                ground (arith, same) in
              let (_, last) =
                >>-eq-ok (ensure_settled_release_trace_truth s lease (met env w)) _
                  (rw (same, repeat_release) at h) in
              let is : l ≡ lease = sym (ok_injective last) in
              let (loaded, valid) = load_checked-stored w.disk read in
              rw (same, repeat_release)
                (rw (is, quiet w.step w.disk)
                  (record {
                    stored = s;
                    loaded = loaded;
                    valid = valid;
                    found = found;
                    settled = settled;
                    target = is_text-eq _ _ target;
                    reason = is_text-eq _ _ reason;
                  })))
      ]

  -- After a write that failed, the snapshot that is read again is the one of before.
  pub reload-same :
      (s : ResourceLifecycleSnapshot) (w w' : World)
      → load_checked w.disk ≡ ok s
      → w'.disk.snapshot_file ≡ w.disk.snapshot_file
      → ((load_from_store env w').0 ≡ ok s) × (load_checked (load_from_store env w').1.disk ≡ ok s)
  unfolding load_from_store
  reload-same s w w' read kept =
      let same =
        load_checked-file (met env w') w.disk
          (ap (λ (d : Disk). d.snapshot_file) (quiet w'.step w'.disk) ∙ kept)
        ∙ read in
      (same, same)

  -- The lease that was active is active still, so that the handler can only ask for another round.
  pub after_failed_write-again :
      (e : Error) (request : ReleaseRequest) (signature : String × List String)
      (s : ResourceLifecycleSnapshot) (lease : ResourceLease) (w : World)
      → require_lease s request.lease_id ≡ ok lease
      → is_some lease.released_at ≡ false
      → after_failed_write env e request signature (ok s) w
        ≡ ((recheck_release e signature s lease >> ok (inr s)), w)
  unfolding after_failed_write find_fresh
  after_failed_write-again e request signature s lease w found active =
      rw (found, after_failed_write, find_fresh) (rw (active, after_failed_write, find_fresh) refl)

  pub own_lease-require_lease :
      (request : ReleaseRequest) (s : ResourceLifecycleSnapshot) {lease : ResourceLease}
      → own_lease request s ≡ ok lease
      → require_lease s request.lease_id ≡ ok lease
  unfolding own_lease
  own_lease-require_lease request s h =
      let (l, found, h) = >>=-eq-ok (require_lease s request.lease_id) _ h in
      let (_, last) = >>-eq-ok (require (l.task_id == request.task_id) lease_mismatch) _ h in
      found ∙ last

  pub release_loop-Released :
      (rounds : ℕ) (request : ReleaseRequest) (s : ResourceLifecycleSnapshot) (l : ResourceLease)
      (w : World)
      → load_checked w.disk ≡ ok s
      → (release_loop env rounds request s w).0 ≡ ok l
      → Released request l (release_loop env rounds request s w).1.disk
  unfolding release_loop
  release_loop-Released zero request s l w read h = cc
  release_loop-Released (suc rounds) request s l w read h =
      elim (Result-cases (own_lease request s)) [
        | inr (e, p) ↦ absurd (ground (arith, h, p))
        | inl (lease, p) ↦
            (let own = own_lease-require_lease request s p in
              let found = require_lease-find_lease s request.lease_id own in
              elim (Bool-cases (is_some lease.released_at)) [
                | inl i ↦
                    rw (p, release_loop)
                      (rw (i, release_loop)
                        (repeat_release-Released request s lease l w read found i
                          (rw (p, i, release_loop) at h)))
                | inr i ↦ elim (Result-cases (plan_release request s lease (env.now w.step))) [
                  | inr (e, q) ↦ absurd (ground (arith, h, p, i, q))
                  | inl (plan, q) ↦
                      elim (Result-cases
                        (write_snapshot_with_tracing env plan.snapshot plan.events w).0) [
                          | inl (s', r) ↦
                              (let is : l ≡ plan.lease = ground (arith, h, p, i, q, r) in
                                rw (p, release_loop)
                                  (rw (i, q, release_loop)
                                    (rw (r, release_loop)
                                      (rw is (
                                        plan_release-Released request s lease _ plan s' _ found q (
                                          write_snapshot_with_tracing-stored env plan.snapshot s'
                                            plan.events w r))))))
                          | inr (e, r) ↦
                              (let written =
                                  (write_snapshot_with_tracing env plan.snapshot plan.events w).1 in
                                let kept =
                                  write_snapshot_with_tracing-failed env quiet plan.snapshot
                                    plan.events w e r in
                                let (same, read') = reload-same s w written read kept in
                                let w'' = (load_from_store env written).1 in
                                let next =
                                  ap
                                    (λ loaded.
                                      after_failed_write env e request plan.signature loaded w'')
                                    same
                                  ∙ after_failed_write-again e request plan.signature s lease w''
                                      own i in
                                elim (Result-cases (recheck_release e plan.signature s lease)) [
                                  | inr (e', c) ↦ absurd (ground (arith, h, p, i, q, r, next, c))
                                  | inl (done, c) ↦
                                      (let again =
                                          ap
                                            (λ (x : Result
                                                  (ResourceLease ⊎ ResourceLifecycleSnapshot)
                                                × World).
                                              x.0)
                                            next
                                          ∙ ap (λ (m : Check). m >> ok (inr s)) c in
                                        let there =
                                          ap
                                            (λ (x : Result
                                                  (ResourceLease ⊎ ResourceLifecycleSnapshot)
                                                × World).
                                              x.1)
                                            next in
                                        rw (p, release_loop)
                                          (rw (i, q, release_loop)
                                            (rw (r, release_loop)
                                              (rw (again, release_loop)
                                                (rw there (
                                                  release_loop-Released rounds request s l w'' read'
                                                    (ground
                                                      (arith, h, p, i, q, r, again, there))))))))
                                ])
                        ]
                ]
              ])
      ]
