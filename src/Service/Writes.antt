-- ===== src/Service/Writes.antt =====
-- What a write and a read of `acquire` and `release` do to the disk.
use syvert.Common.{ℕ, ◌≡◌, refl, ap, ◌∙◌, List, arith, Error, Result, ok, err}
use syvert.Trace.Types.{ResourceTraceEvent}
use syvert.Lifecycle.Types.{ResourceLifecycleSnapshot}
use syvert.Lifecycle.Codec.{canonical_snapshot}
use syvert.Store.Disk.{Disk}
use syvert.Store.LifecycleStore.{load_snapshot, commit_with_trace}
use syvert.Store.LifecycleStore.Commit.{commit_with_trace-failed, commit_with_trace-Committed}
use syvert.Service.World.{
  Env, World, met, coerce_error, load_from_store, write_snapshot_with_tracing,
}

coerce_error-ok {ℓ} : {A : Type ℓ} (m : Result A) {a : A} → coerce_error m ≡ ok a → m ≡ ok a
unfolding coerce_error
coerce_error-ok (ok a) h = h
coerce_error-ok (err e) h = ground (arith, h)

pub write_snapshot_with_tracing-stored :
    (env : Env) (s s' : ResourceLifecycleSnapshot) (events : List ResourceTraceEvent) (w : World)
    → (write_snapshot_with_tracing env s events w).0 ≡ ok s'
    → (canonical_snapshot s ≡ ok s')
      × (load_snapshot (write_snapshot_with_tracing env s events w).1.disk.snapshot_file ≡ ok s')
unfolding write_snapshot_with_tracing
write_snapshot_with_tracing-stored env s s' events w h =
    let c =
      commit_with_trace-Committed (env.io w.step) s s' events (met env w) (coerce_error-ok _ h) in
    (c.canonical, c.stored)

coerce_error-err {ℓ} :
    {A : Type ℓ} (m : Result A) {e : Error} → coerce_error m ≡ err e → (e' : Error) × (m ≡ err e')
unfolding coerce_error
coerce_error-err (ok a) h = cc
coerce_error-err (err e') h = (e', refl)

-- Where no other process writes.
module _ (env : Env) (quiet : (n : ℕ) (d : Disk) → env.others n d ≡ d) where
  pub write_snapshot_with_tracing-failed :
      (s : ResourceLifecycleSnapshot) (events : List ResourceTraceEvent) (w : World) (e : Error)
      → (write_snapshot_with_tracing env s events w).0 ≡ err e
      → (write_snapshot_with_tracing env s events w).1.disk.snapshot_file ≡ w.disk.snapshot_file
  unfolding write_snapshot_with_tracing
  write_snapshot_with_tracing-failed s events w e h =
      let (e', failed) =
        coerce_error-err (commit_with_trace (env.io w.step) s events (met env w)).0 h in
      commit_with_trace-failed (env.io w.step) s events (met env w) e' failed
      ∙ ap (λ (d : Disk). d.snapshot_file) (quiet w.step w.disk)

  pub load_from_store-disk : (w : World) → (load_from_store env w).1.disk ≡ w.disk
  unfolding load_from_store
  load_from_store-disk w = quiet w.step w.disk
