-- ===== src/Service/Quiet/Release.antt =====
-- The rounds of the loop of `release` where no other process writes.
use syvert.Common.{
  ℕ, suc, String, true, false, ◌≢◌, Option, none, some, inl, inr, List, Error, Result, ok, err,
  not_terminated, Check, is_some, ◌>>◌, refl, ◌≡◌, ap, ◌∙◌, Bool-cases, Result-cases,
}
use syvert.Common.Raises.{Raises-ok, Raises-err, Raises-if, raises_rules}
use syvert.Json.{Value}
use syvert.Lifecycle.Types.{ResourceLease, ReleaseRequest, ResourceLifecycleSnapshot}
use syvert.Lifecycle.Failures.{is_lifecycle_error}
use syvert.Lifecycle.Requests.{normalize_release_request, require_task_context_task_id}
use syvert.Lifecycle.Transitions.{require_lease}
use syvert.Store.Disk.{Disk}
use syvert.Service.World.{Env, World, load_checked, load_from_store, write_snapshot_with_tracing}
use syvert.Service.Writes.{write_snapshot_with_tracing-failed}
use syvert.Service.Release.{
  plan_release, recheck_release, after_failed_write, own_lease, release_loop, finish_release,
  first_look, snapshot_or_load, begin_release, release,
}
use syvert.Service.Release.Quiet.{reload-same, after_failed_write-again, own_lease-require_lease}
use syvert.Service.Release.Stored.{begin_release-read, load_from_store-read}
use syvert.Service.Faults.{is_ordinary, Ordinary, ordinary-not_retryable}
use syvert.Service.Faults.Snapshot.{load_checked-Ordinary}
use syvert.Service.Faults.Commit.{write_snapshot_with_tracing-Ordinary}
use syvert.Service.Faults.Release.{
  plan_release-Ordinary, plan_release-revision, repeat_release-Ordinary, require_lease-Ordinary,
  own_lease-Ordinary, normalize_release_request-Ordinary, require_task_context-Ordinary,
}

-- An error that is no conflict of revisions is passed on.
recheck_release-raises :
    (e : Error) (signature : String × List String) (s : ResourceLifecycleSnapshot)
    (lease : ResourceLease)
    → is_ordinary e ≡ true
    → recheck_release e signature s lease ≡ err e
unfolding recheck_release
recheck_release-raises e signature s lease h = rw (ordinary-not_retryable e h) refl

module _ (env : Env) (quiet : (n : ℕ) (d : Disk) → env.others n d ≡ d) where
  failed-again :
      (e : Error) (request : ReleaseRequest) (signature : String × List String)
      (s : ResourceLifecycleSnapshot) (lease : ResourceLease) (w : World)
      → is_ordinary e ≡ true
      → require_lease s request.lease_id ≡ ok lease
      → is_some lease.released_at ≡ false
      → (load_from_store env w).0 ≡ ok s
      → after_failed_write env e request signature
          (load_from_store env w).0
          (load_from_store env w).1
        ≡ (err e, (load_from_store env w).1)
  failed-again e request signature s lease w ordinary found active loaded =
      let w' = (load_from_store env w).1 in
      ap (λ m. after_failed_write env e request signature m w') loaded
      ∙ after_failed_write-again env quiet e request signature s lease w' found active
      ∙ ap (λ (m : Check). ((m >> ok (inr s)), w'))
          (recheck_release-raises e signature s lease ordinary)

  pub release_loop-once :
      (rounds : ℕ) (request : ReleaseRequest) (s : ResourceLifecycleSnapshot) (w : World)
      → load_checked w.disk ≡ ok s
      → Ordinary (release_loop env (suc rounds) request s w).0
        × (release_loop env (suc rounds) request s w ≡ release_loop env 1 request s w)
  unfolding release_loop
  release_loop-once rounds request s w read = elim (Result-cases (own_lease request s)) [
    | inr (e, p) ↦
        rw (p, release_loop) (Raises-err e ((own_lease-Ordinary request s).raised e p), refl)
    | inl (lease, p) ↦ elim (Bool-cases (is_some lease.released_at)) [
      | inl i ↦
          rw (p, release_loop)
            (rw (i, release_loop) (repeat_release-Ordinary env request s lease w, refl))
      | inr i ↦ elim (Result-cases (plan_release request s lease (env.now w.step))) [
        | inr (e, q) ↦
            rw (p, release_loop)
              (rw (i, q, release_loop)
                (
                  Raises-err e
                      ((plan_release-Ordinary request s lease (env.now w.step)).raised e q),
                  refl,
                ))
        | inl (plan, q) ↦
            elim (Result-cases (write_snapshot_with_tracing env plan.snapshot plan.events w).0) [
              | inl (s', r) ↦
                  rw (p, release_loop)
                    (rw (i, q, release_loop) (rw (r, release_loop) (Raises-ok _, refl)))
              | inr (e, r) ↦
                  (let ordinary =
                      (write_snapshot_with_tracing-Ordinary env plan.snapshot s plan.events w quiet
                          read
                          (plan_release-revision request s lease (env.now w.step) plan q)).raised
                        e r in
                    let next =
                      failed-again e request plan.signature s lease
                        (write_snapshot_with_tracing env plan.snapshot plan.events w).1 ordinary
                        (own_lease-require_lease env quiet request s p) i
                        (reload-same env quiet s w
                          (write_snapshot_with_tracing env plan.snapshot plan.events w).1 read
                          (write_snapshot_with_tracing-failed env quiet plan.snapshot plan.events w
                            e r)).0 in
                    rw (p, release_loop)
                      (rw (i, q, release_loop)
                        (rw (r, release_loop)
                          (rw (next, release_loop) (Raises-err e ordinary, refl)))))
            ]
      ]
    ]
  ]

finish_release-Ordinary :
    (task_id adapter_key capability : String) (m : Result ResourceLease)
    → Ordinary m
    → Ordinary (finish_release task_id adapter_key capability m)
unfolding finish_release
finish_release-Ordinary task_id adapter_key capability (ok l) p = Raises-ok _
finish_release-Ordinary task_id adapter_key capability (err e) p =
    Raises-if (is_lifecycle_error e) _ _ (Raises-ok _) (Raises-err e (p.raised e refl))

snapshot_or_load-Ordinary :
    (env : Env) (seen : Option ResourceLifecycleSnapshot) (w : World)
    → Ordinary (snapshot_or_load env seen w).0
unfolding snapshot_or_load load_from_store
snapshot_or_load-Ordinary env (some s) w = Raises-ok s
snapshot_or_load-Ordinary env none w = load_checked-Ordinary _

begin_release-Ordinary :
    (env : Env) (request : Value) (seen : Option ResourceLifecycleSnapshot) (w : World)
    → Ordinary (begin_release env request seen w).0
unfolding begin_release
begin_release-Ordinary env request seen w =
    elim (Result-cases (normalize_release_request request)) [
      | inr (e, p) ↦
          rw (p, begin_release)
            (Raises-err e ((normalize_release_request-Ordinary request).raised e p))
      | inl (normalized, p) ↦
          rw (p, begin_release)
            (search (raises_rules, snapshot_or_load-Ordinary, require_lease-Ordinary))
    ]

begin_release-refused :
    (env : Env) (request : Value) (seen : Option ResourceLifecycleSnapshot) (w : World) (e : Error)
    {begun : ReleaseRequest × ResourceLifecycleSnapshot × ResourceLease}
    → normalize_release_request request ≡ err e
    → (begin_release env request seen w).0 ≢ ok begun
unfolding begin_release
begin_release-refused env request seen w e p h = absurd (let h = rw (p, begin_release) at h in cc h)

begin_release-snapshot :
    (env : Env) (request : Value) (w : World) (looked : Result ResourceLifecycleSnapshot)
    {begun : ReleaseRequest × ResourceLifecycleSnapshot × ResourceLease}
    → looked ≡ load_checked w.disk
    → (begin_release env request (first_look looked) w).0 ≡ ok begun
    → load_checked (begin_release env request (first_look looked) w).1.disk ≡ ok begun.1
begin_release-snapshot env request w looked is h =
    elim (Result-cases (normalize_release_request request)) [
      | inr (e, p) ↦ absurd (begin_release-refused env request (first_look looked) w e p h)
      | inl (normalized, p) ↦ (begin_release-read env request normalized w looked p is h).1
    ]

module _ (env : Env) (quiet : (n : ℕ) (d : Disk) → env.others n d ≡ d) where
  release-Ordinary :
      (rounds : ℕ) (request : Value) (context : String) (w : World)
      → Ordinary (release env (suc rounds) request context w).0
        × (release env (suc rounds) request context w ≡ release env 1 request context w)
  unfolding release
  release-Ordinary rounds request context w =
      elim (Result-cases (require_task_context_task_id context)) [
        | inr (e, p) ↦
            rw (p, release)
              (Raises-err e ((require_task_context-Ordinary context).raised e p), refl)
        | inl (_, p) ↦
            (let looked = (load_from_store env w).0 in
              let w' = (load_from_store env w).1 in
              elim (Result-cases (begin_release env request (first_look looked) w').0) [
                | inr (e, q) ↦
                    rw (p, release)
                      (rw (q, release)
                        (
                          finish_release-Ordinary _ _ _ (err e) (
                              Raises-err e (
                                (begin_release-Ordinary env request (first_look looked) w').raised e
                                  q)),
                          refl,
                        ))
                | inl ((normalized, s, bound), q) ↦
                    (let w'' = (begin_release env request (first_look looked) w').1 in
                      let read =
                        begin_release-snapshot env request w' looked (load_from_store-read env w)
                          q in
                      let (ordinary, once) =
                        release_loop-once env quiet rounds normalized s w'' read in
                      rw (p, release)
                        (rw (q, release)
                          (
                            finish_release-Ordinary _ _ _ _ ordinary,
                            ap
                                (λ (x : Result ResourceLease × World). (
                                  finish_release normalized.task_id bound.adapter_key
                                      bound.capability x.0,
                                  x.1,
                                ))
                                once,
                          )))
              ])
      ]

-- Where no other process writes, release with at least one round for its loop ends: it does not
-- answer not_terminated, and with more rounds than one its result and the world that it leaves are
-- those of one round, whatever the request and whichever system calls fail.
pub release-once :
    (env : Env) (rounds : ℕ) (request : Value) (context : String) (w : World)
    → ((n : ℕ) (d : Disk) → env.others n d ≡ d)
    → ((release env (suc rounds) request context w).0 ≢ err not_terminated)
      × (release env (suc rounds) request context w ≡ release env 1 request context w)
release-once env rounds request context w quiet =
    let (ordinary, once) = release-Ordinary env quiet rounds request context w in
    ((λ h. absurd (let i = ordinary.raised not_terminated h in cc i)), once)
