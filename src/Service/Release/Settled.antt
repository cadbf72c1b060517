-- ===== src/Service/Release/Settled.antt =====
-- `release` of a lease that is settled already.
use syvert.Common.{
  eq_iff, ℕ, suc, String, ◌≡◌, sym, ap, true, arith, is_some, ok, >>-eq-ok, ok_injective,
  Bool-cases, inl, inr, Option, none, some,
}
use syvert.Store.Disk.{Disk}
use syvert.Lifecycle.Types.{ResourceLease, ReleaseRequest, ResourceLifecycleSnapshot}
use syvert.Service.World.{Env, World, met}
use syvert.Service.Release.{
  is_text, is_same_settlement, ensure_settled_release_trace_truth, repeat_release, own_lease,
  release_loop,
}

-- The lease of the request, and it is settled.
pub record Settled (request : ReleaseRequest) (s : ResourceLifecycleSnapshot)
    (lease : ResourceLease) : Type 0 where
  pub own : own_lease request s ≡ ok lease
  pub settled : is_some lease.released_at ≡ true

-- A release of the task's own lease, which is settled already, leaves the disk as it was where no
-- other process writes, whether it succeeds or not.
pub release_loop-settled_unchanged :
    (env : Env) (rounds : ℕ) (request : ReleaseRequest) (s : ResourceLifecycleSnapshot)
    (lease : ResourceLease) (w : World)
    → ((n : ℕ) (d : Disk) → env.others n d ≡ d)
    → Settled request s lease
    → (release_loop env (suc rounds) request s w).1.disk ≡ w.disk
unfolding release_loop repeat_release
release_loop-settled_unchanged env rounds request s lease w quiet h =
    elim (Bool-cases (is_same_settlement request lease)) [
      | inl same ↦ ground (arith, h.own, h.settled, same, quiet w.step w.disk)
      | inr other ↦ ground (arith, h.own, h.settled, other)
    ]

pub is_text-eq : (o : Option String) (s : String) → is_text o s ≡ true → o ≡ some s
unfolding is_text
is_text-eq none s h = cc
is_text-eq (some t) s h = ap some ((eq_iff t s).0 h)

-- A release of the task's own lease, which is settled already, returns that lease if it succeeds,
-- and then the request has the target status and the reason with which the lease was settled.
pub release_loop-settled :
    (env : Env) (rounds : ℕ) (request : ReleaseRequest) (s : ResourceLifecycleSnapshot)
    (lease released : ResourceLease) (w : World)
    → Settled request s lease
    → (release_loop env (suc rounds) request s w).0 ≡ ok released
    → (released ≡ lease)
      × (lease.target_status_after_release ≡ some request.target_status_after_release)
      × (lease.release_reason ≡ some request.reason)
unfolding release_loop repeat_release is_same_settlement
release_loop-settled env rounds request s lease released w h is =
    elim (Bool-cases (is_same_settlement request lease)) [
      | inl same ↦
          (let target : is_text lease.target_status_after_release
                  request.target_status_after_release
                ≡ true =
              ground (arith, same) in
            let reason : is_text lease.release_reason request.reason ≡ true =
              ground (arith, same) in
            let (_, e) =
              >>-eq-ok (ensure_settled_release_trace_truth s lease (met env w)) _
                (rw (h.own, h.settled, same, release_loop, repeat_release) at is) in
            (sym (ok_injective e), is_text-eq _ _ target, is_text-eq _ _ reason))
      | inr other ↦ absurd (ground (arith, h.own, h.settled, other, is))
    ]
