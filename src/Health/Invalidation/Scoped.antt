-- ===== src/Health/Invalidation/Scoped.antt =====
-- What the scoped invalidation of an account stores, when its lease holds other resources as well.
use syvert.Common.{
  sym, ◌∙◌, All, All-sort_by, ℕ, String, ◌≡◌, ◌≢◌, eq_refl, refl, ap, true, Bool-cases, Option,
  some, Option-cases, inl, inr, List, [], ◌∷◌, map, arith, eq_iff, ◌==◌, Memᴰ, sort_by-perm, Dict,
  get, put, get-put, has, is_some, not, ◌&&◌, Error, Result, ok, err, pass, ◌>>◌, >>-eq-ok,
  Result-cases, if◌then◌else◌, subst,
}
use mathlib.Core.List.{Perm}
use syvert.Lifecycle.Types.{
  ResourceRecord, ResourceLease, ResourceLifecycleSnapshot, available, invalid, collect_by_id,
  by_id,
}
use syvert.Lifecycle.Snapshot.{validate_snapshot}
use syvert.Lifecycle.Selection.{id_le}
use syvert.Lifecycle.Records.{normalize_resource_material}
use syvert.Lifecycle.Codec.Canonical.{Normal, canonical_snapshot-eq_self}
use syvert.Store.LifecycleStore.Commit.{load_snapshot-Normal}
use syvert.Service.Release.Outcome.{load_checked-stored}
use syvert.Store.Disk.{Disk}
use syvert.Store.LifecycleStore.{load_snapshot}
use syvert.Service.World.{met, Env, World, load_from_store}
use syvert.Service.Writes.{write_snapshot_with_tracing-stored}
use syvert.Health.Types.{ResourceHealthEvidence, Supplied, session_invalid}
use syvert.Health.Redaction.{Unicode}
use syvert.Health.Evidence.{coerce_evidence}
use syvert.Health.Invalidation.{
  InvalidationResult, envelope, finish_split, split_settle_active_lease_for_account_invalidation,
  has_many, settle_finding, invalidate_bound, is_of_call, invalidate_evidence,
  invalidate_active_lease_from_health_evidence,
}
use syvert.Health.Findings.{Finding, find_active_lease, with_active_lease, inspect}
use syvert.Health.Split.{
  scope_record, split_lease, split_snapshot, split_events, released_original_lease,
  invalidation_lease,
}

-- The status that a scoped invalidation gives a record.
abbrev scoped_status : (account_resource_id : String) → List String → ResourceRecord → String
scoped_status account_resource_id ids r =
    if r.resource_id == account_resource_id
    then invalid
    else if has r.resource_id ids
    then available
    else r.status

abbrev with_status : (account_resource_id : String) → List String → ResourceRecord → ResourceRecord
with_status account_resource_id ids r = record r {
  status = scoped_status account_resource_id ids r;
}

scope_record-status :
    (k : String) (ids : List String) (rs : List ResourceRecord)
    → map (scope_record k ids) rs ≡ map (with_status k ids) rs
unfolding scope_record
scope_record-status k ids [] = refl
scope_record-status k ids (r ∷ rs) = ground (arith, scope_record-status k ids rs)

split_lease-both :
    (id : String) (original scoped lease : ResourceLease) (ls : List ResourceLease)
    → Memᴰ lease ls
    → (lease.lease_id == id) ≡ true
    → Memᴰ original (split_lease id original scoped ls)
      × Memᴰ scoped (split_lease id original scoped ls)
unfolding split_lease
split_lease-both id original scoped lease [] m is = elim m [ ]
split_lease-both id original scoped lease (l ∷ ls) (Memᴰ.head e) is =
    let is' : (l.lease_id == id) ≡ true = rw (← e) is in
    rw (is', split_lease) (Memᴰ.head refl, Memᴰ.tail (Memᴰ.head refl))
split_lease-both id original scoped lease (l ∷ ls) (Memᴰ.tail m) is =
    let (a, b) = split_lease-both id original scoped lease ls m is in
    elim (Bool-cases (l.lease_id == id)) [
      | inl e ↦ rw (e, split_lease) (Memᴰ.tail (Memᴰ.tail a), Memᴰ.tail (Memᴰ.tail b))
      | inr e ↦ rw (e, split_lease) (Memᴰ.tail a, Memᴰ.tail b)
    ]

find_active_lease-mem :
    (ls : List ResourceLease) (id : String) {lease : ResourceLease}
    → find_active_lease ls id ≡ some lease
    → Memᴰ lease ls
unfolding find_active_lease
find_active_lease-mem [] id h = cc
find_active_lease-mem (l ∷ ls) id h =
    elim (Bool-cases (l.lease_id == id && not (is_some l.released_at))) [
      | inl e ↦ Memᴰ.head (ground (arith, h, e))
      | inr e ↦ Memᴰ.tail (find_active_lease-mem ls id (ground (arith, h, e)))
    ]

get-collect_by_id :
    (d : Dict ResourceRecord) (rs : List ResourceRecord) (k : String) {r : ResourceRecord}
    → ((r : ResourceRecord) → get k d ≡ some r → r.resource_id ≡ k)
    → get k (collect_by_id d rs) ≡ some r
    → r.resource_id ≡ k
unfolding collect_by_id
get-collect_by_id d [] k keyed h = keyed _ h
get-collect_by_id d (x ∷ rs) k keyed h =
    get-collect_by_id (put x.resource_id x d) rs k
      (λ r g. ground (arith, g, keyed r, get-put x.resource_id k x d, eq_iff x.resource_id k)) h

-- Where the account of a lease with other resources was invalidated: the disk holds a valid
-- snapshot in which the account is INVALID, the other resources of the lease are AVAILABLE, and
-- the rest are as they were; the lease is settled as AVAILABLE, and beside it stands a settled lease
-- of the account alone, as INVALID.
pub record Scoped (before : ResourceLifecycleSnapshot) (lease : ResourceLease)
    (account_resource_id : String) (returned : ResourceLease) (after : Disk) : Type 0 where
  pub stored : ResourceLifecycleSnapshot
  pub loaded : load_snapshot after.snapshot_file ≡ ok stored
  pub valid : validate_snapshot stored ≡ pass
  pub moved :
      Perm stored.resources
        (map (with_status account_resource_id lease.resource_ids) before.resources)
  pub at : String
  pub given_back : Memᴰ (released_original_lease lease at) stored.leases
  pub recorded : Memᴰ returned stored.leases
  pub alone : returned.resource_ids ≡ account_resource_id ∷ []
  pub target : returned.target_status_after_release ≡ some invalid

split_snapshot-moved :
    (s : ResourceLifecycleSnapshot) (lease : ResourceLease) (k at : String)
    → Perm
        (split_snapshot s lease k at).resources
        (map (with_status k lease.resource_ids) s.resources)
unfolding split_snapshot
split_snapshot-moved s lease k at =
    subst (Perm (split_snapshot s lease k at).resources)
      (scope_record-status k lease.resource_ids s.resources)
      (sort_by-perm id_le (map (scope_record k lease.resource_ids) s.resources))

scope_record-Normal :
    (k : String) (ids : List String) (r : ResourceRecord) → Normal r → Normal (scope_record k ids r)
unfolding scope_record
scope_record-Normal k ids r normal =
    let same : (scope_record k ids r).material ≡ r.material = ground arith in
    subst (λ m. normalize_resource_material m ≡ ok m) (sym same) normal

scope_records-Normal :
    (k : String) (ids : List String) (rs : List ResourceRecord)
    → All Normal rs
    → All Normal (map (scope_record k ids) rs)
scope_records-Normal k ids [] all = tt
scope_records-Normal k ids (r ∷ rs) all =
    (scope_record-Normal k ids r all.0, scope_records-Normal k ids rs all.1)

split_snapshot-Normal :
    (s : ResourceLifecycleSnapshot) (lease : ResourceLease) (k at : String)
    → All Normal s.resources
    → All Normal (split_snapshot s lease k at).resources
unfolding split_snapshot
split_snapshot-Normal s lease k at all =
    All-sort_by Normal id_le _ (scope_records-Normal k lease.resource_ids s.resources all)

-- A snapshot that `load_from_store` answers has normal materials.
load_from_store-Normal :
    (env : Env) (w : World) {s : ResourceLifecycleSnapshot}
    → (load_from_store env w).0 ≡ ok s
    → All Normal s.resources
unfolding load_from_store
load_from_store-Normal env w h =
    load_snapshot-Normal (met env w).snapshot_file (load_checked-stored (met env w) h).0

envelope-unsettled :
    (context adapter_key capability : String) (e : Error) (l : ResourceLease)
    → envelope context adapter_key capability e ≢ ok (InvalidationResult.settled l)
unfolding envelope
envelope-unsettled context adapter_key capability e l h = absurd (ground (arith, h))

finish_split-settled :
    (context : String) (lease scoped : ResourceLease) (m : Result ResourceLifecycleSnapshot)
    (l : ResourceLease)
    → finish_split context lease scoped m ≡ ok (InvalidationResult.settled l)
    → (s : ResourceLifecycleSnapshot) × (m ≡ ok s) × (l ≡ scoped)
unfolding finish_split
finish_split-settled context lease scoped (ok s) l h = (s, refl, cc)
finish_split-settled context lease scoped (err e) l h =
    absurd (envelope-unsettled context lease.adapter_key lease.capability e l h)

split-Scoped :
    (env : Env) (s : ResourceLifecycleSnapshot) (lease : ResourceLease) (account : ResourceRecord)
    (context : String) (w : World) (l : ResourceLease)
    → All Normal s.resources
    → Memᴰ lease s.leases
    → (split_settle_active_lease_for_account_invalidation env s lease account context w).0
      ≡ ok (InvalidationResult.settled l)
    → Scoped s lease account.resource_id l
        (split_settle_active_lease_for_account_invalidation env s lease account context w).1.disk
unfolding split_settle_active_lease_for_account_invalidation
split-Scoped env s lease account context w l normal member h =
    let at = env.now w.step in
    let updated = split_snapshot s lease account.resource_id at in
    elim (Result-cases (validate_snapshot updated >> split_events s lease account at)) [
      | inr (e, p) ↦ absurd (
          envelope-unsettled context lease.adapter_key lease.capability e l
            (rw (p, split_settle_active_lease_for_account_invalidation) at h))
      | inl (events, p) ↦
          (let (valid, _) = >>-eq-ok (validate_snapshot updated) _ p in
            let (s', written, is) =
              finish_split-settled context lease _ _ l
                (rw (p, split_settle_active_lease_for_account_invalidation) at h) in
            let (given_back, recorded) =
              split_lease-both lease.lease_id (released_original_lease lease at)
                (invalidation_lease lease account.resource_id at) lease s.leases member
                (eq_refl lease.lease_id) in
            let (made, loaded) =
              write_snapshot_with_tracing-stored env updated s' events w written in
            let same =
              canonical_snapshot-eq_self updated made
                (split_snapshot-Normal s lease account.resource_id at normal) in
            rw (p, split_settle_active_lease_for_account_invalidation)
              record {
                stored = updated;
                loaded = loaded ∙ ap ok same;
                valid = valid;
                moved = split_snapshot-moved s lease account.resource_id at;
                at = at;
                given_back = unfold split_snapshot in given_back;
                recorded = unfold split_snapshot in rw is recorded;
                alone = ap (λ (x : ResourceLease). x.resource_ids) is;
                target = ap (λ (x : ResourceLease). x.target_status_after_release) is;
              })
    ]

get-empty : (k : String) (r : ResourceRecord) → get k [] ≢ some r
unfolding get
get-empty k r h = absurd (cc h)

with_active_lease-bound :
    (e : ResourceHealthEvidence) (context : String) (lease : ResourceLease)
    (s : ResourceLifecycleSnapshot) (l : ResourceLease) (r : ResourceRecord)
    → with_active_lease e context lease s ≡ Finding.bound l r
    → (l ≡ lease) × (r.resource_id ≡ e.resource_id)
unfolding with_active_lease
with_active_lease-bound e context lease s l r h =
    elim (Option-cases (get e.resource_id (by_id s.resources))) [
      | inl p ↦ absurd (let h = rw (p, with_active_lease) at h in cc h)
      | inr (a, p) ↦
          (let is =
              get-collect_by_id [] s.resources e.resource_id
                (λ r g. absurd (get-empty e.resource_id r g)) p in
            (ground (arith, p, h), ground (arith, p, h, is)))
    ]

inspect-bound :
    (e : ResourceHealthEvidence) (context id : String) (lease : ResourceLease)
    (s : ResourceLifecycleSnapshot) (l : ResourceLease) (r : ResourceRecord)
    → find_active_lease s.leases id ≡ some lease
    → inspect e context id s ≡ Finding.bound l r
    → (l ≡ lease) × (r.resource_id ≡ e.resource_id)
unfolding inspect
inspect-bound e context id lease s l r active h =
    with_active_lease-bound e context lease s l r (rw (active, inspect) at h)

settle_finding-Scoped :
    (env : Env) (rounds : ℕ) (e : ResourceHealthEvidence) (context id : String)
    (s : ResourceLifecycleSnapshot) (lease : ResourceLease) (found : Finding) (w : World)
    (l : ResourceLease)
    → All Normal s.resources
    → find_active_lease s.leases id ≡ some lease
    → has_many lease.resource_ids ≡ true
    → inspect e context id s ≡ found
    → (settle_finding env rounds e context s found w).0 ≡ ok (InvalidationResult.settled l)
    → Scoped s lease e.resource_id l (settle_finding env rounds e context s found w).1.disk
unfolding settle_finding
settle_finding-Scoped env rounds e context id s lease Finding.contradicted w l normal active many is
      h =
    absurd (cc h)
settle_finding-Scoped env rounds e context id s lease Finding.refused w l normal active many is h =
    absurd (cc h)
settle_finding-Scoped env rounds e context id s lease (Finding.bound lease' account) w l normal
      active many is h =
    let (same, of_evidence) = inspect-bound e context id lease s lease' account active is in
    let many' : has_many lease'.resource_ids ≡ true = rw same many in
    rw (many', settle_finding)
      (rw (← same) (
        rw (← of_evidence) (
          split-Scoped env s lease' account context w l normal
            (rw same (find_active_lease-mem s.leases id active))
            (rw (many', settle_finding) at h))))

-- When invalidate_active_lease_from_health_evidence of evidence for an active lease with more than
-- one resource returns a lease, the disk that it leaves holds a snapshot that passes validation, in
-- which the account of the evidence is INVALID, the other resources of the lease are AVAILABLE and
-- the rest have the status of before, the lease is settled as AVAILABLE, and beside it stands the
-- returned lease, which is of the account alone and settled as INVALID.
pub invalidate_active_lease_from_health_evidence-Scoped :
    (u : Unicode) (env : Env) (rounds : ℕ) (x : Supplied) (context : String)
    (operation : Option String) (w : World) (e : ResourceHealthEvidence) (lease_id : String)
    (s : ResourceLifecycleSnapshot) (lease l : ResourceLease)
    → coerce_evidence u x ≡ ok e
    → e.lease_id ≡ some lease_id
    → (load_from_store env w).0 ≡ ok s
    → find_active_lease s.leases lease_id ≡ some lease
    → has_many lease.resource_ids ≡ true
    → (invalidate_active_lease_from_health_evidence u env rounds x context operation w).0
      ≡ ok (InvalidationResult.settled l)
    → Scoped s lease e.resource_id l
        (invalidate_active_lease_from_health_evidence u env rounds x context operation w).1.disk
unfolding invalidate_active_lease_from_health_evidence invalidate_evidence invalidate_bound
invalidate_active_lease_from_health_evidence-Scoped u env rounds x context operation w e lease_id s
      lease l coerced names loaded active many h =
    elim (Bool-cases (e.status == session_invalid)) [
      | inr i ↦ absurd (ground (arith, h, coerced, i))
      | inl i ↦ elim (Bool-cases (is_of_call e context operation)) [
        | inr j ↦ absurd (ground (arith, h, coerced, i, names, j))
        | inl j ↦
            (rw (coerced, invalidate_active_lease_from_health_evidence)
              (rw (i, names, j, invalidate_evidence)
                (rw (loaded, invalidate_bound)
                  (settle_finding-Scoped env rounds e context lease_id s lease _ _ l
                    (load_from_store-Normal env w loaded) active many refl
                    (rw
                      (
                        coerced, i, names, j, loaded, invalidate_active_lease_from_health_evidence,
                        invalidate_evidence, invalidate_bound,
                      )
                      at h)))))
      ]
    ]
