-- ===== src/Service/Release/Stored.antt =====
-- A whole `release`, from the request's normal form to the lease that it returns.
use syvert.Common.{
  ℕ, String, ◌≡◌, refl, sym, ap, ◌∙◌, inl, inr, arith, Result, ok, err, >>=-eq-ok, ok_injective,
  Result-cases,
}
use syvert.Json.{Value}
use syvert.Lifecycle.Types.{ResourceLease, ReleaseRequest, ResourceLifecycleSnapshot}
use syvert.Lifecycle.Requests.{normalize_release_request, require_task_context_task_id}
use syvert.Lifecycle.Transitions.{require_lease}
use syvert.Store.Disk.{Disk}
use syvert.Service.World.{Env, World, load_checked, load_from_store}
use syvert.Service.Release.{
  ReleaseResult, finish_release, first_look, snapshot_or_load, begin_release, release,
}
use syvert.Service.Release.Outcome.{Released}
use syvert.Service.Release.Quiet.{release_loop-Released}

finish_release-released :
    (task_id adapter_key capability : String) (m : Result ResourceLease) (lease : ResourceLease)
    → finish_release task_id adapter_key capability m ≡ ok (ReleaseResult.released lease)
    → m ≡ ok lease
unfolding finish_release
finish_release-released task_id adapter_key capability (ok l) lease h = cc
finish_release-released task_id adapter_key capability (err e) lease h = ground (arith, h)

-- The snapshot with which the loop begins is the one on disk.
snapshot_or_load-read :
    (env : Env) (w : World) (looked : Result ResourceLifecycleSnapshot)
    {s : ResourceLifecycleSnapshot}
    → looked ≡ load_checked w.disk
    → (snapshot_or_load env (first_look looked) w).0 ≡ ok s
    → load_checked (snapshot_or_load env (first_look looked) w).1.disk ≡ ok s
unfolding snapshot_or_load first_look load_from_store
snapshot_or_load-read env w (ok s') is h = sym is ∙ h
snapshot_or_load-read env w (err e) is h = h

pub begin_release-read :
    (env : Env) (request : Value) (normalized : ReleaseRequest) (w : World)
    (looked : Result ResourceLifecycleSnapshot)
    {begun : ReleaseRequest × ResourceLifecycleSnapshot × ResourceLease}
    → normalize_release_request request ≡ ok normalized
    → looked ≡ load_checked w.disk
    → (begin_release env request (first_look looked) w).0 ≡ ok begun
    → (begun.0 ≡ normalized)
      × (load_checked (begin_release env request (first_look looked) w).1.disk ≡ ok begun.1)
unfolding begin_release
begin_release-read env request normalized w looked n is h =
    let (s, loaded, rest) =
      >>=-eq-ok (snapshot_or_load env (first_look looked) w).0 _ (rw (n, begin_release) at h) in
    let (lease, _, last) = >>=-eq-ok (require_lease s normalized.lease_id) _ rest in
    let same = ok_injective last in
    (
      sym (ap (λ x. x.0) same),
      rw (n, begin_release) (snapshot_or_load-read env w looked is loaded ∙ ap (λ x. ok x.1) same),
    )

pub load_from_store-read :
    (env : Env) (w : World)
    → (load_from_store env w).0 ≡ load_checked (load_from_store env w).1.disk
unfolding load_from_store
load_from_store-read env w = refl

-- Where no other process writes, when release of a request with this normal form returns a lease,
-- the disk that it leaves holds a snapshot that passes validation, in which the request's lease is
-- the returned one, settled with the target status and the reason of the request.
pub release-Released :
    (env : Env) (rounds : ℕ) (request : Value) (context : String) (w : World)
    (normalized : ReleaseRequest) (lease : ResourceLease)
    → ((n : ℕ) (d : Disk) → env.others n d ≡ d)
    → normalize_release_request request ≡ ok normalized
    → (release env rounds request context w).0 ≡ ok (ReleaseResult.released lease)
    → Released normalized lease (release env rounds request context w).1.disk
unfolding release
release-Released env rounds request context w normalized lease quiet n h =
    elim (Result-cases (require_task_context_task_id context)) [
      | inr (e, p) ↦ absurd (ground (arith, h, p))
      | inl (_, p) ↦
          (let looked = (load_from_store env w).0 in
            let w' = (load_from_store env w).1 in
            let w'' = (begin_release env request (first_look looked) w').1 in
            elim (Result-cases (begin_release env request (first_look looked) w').0) [
              | inr (e, q) ↦ absurd (
                  ground
                    (arith, finish_release-released _ _ _ (err e) lease (rw (p, q, release) at h)))
              | inl ((request', s, bound), q) ↦
                  (let (same, read) =
                      begin_release-read env request normalized w' looked n
                        (load_from_store-read env w) q in
                    rw (p, release)
                      (rw (q, release)
                        (rw (← same) (
                          release_loop-Released env quiet rounds request' s lease w'' read
                            (finish_release-released _ _ _ _ lease (rw (p, q, release) at h))))))
            ])
    ]
