-- ===== src/Lifecycle/Transitions/Moves.antt =====
-- The two transitions of resources in syvert/resource_lifecycle.py, record by record.
use syvert.Common.{
  String, ◌≡◌, refl, true, List, [], ◌∷◌, map, arith, eq_refl, has, Result, ok, state_conflict,
  require, traverse, >>=-eq-ok, >>-eq-ok, require-eq-pass, if◌then◌else◌,
}
use syvert.Lifecycle.Types.{ResourceRecord, available, in_use}
use syvert.Lifecycle.Transitions.{
  ids_of, is_subset, move_record, in_use_ids, apply_acquire_transition, apply_release_transition,
}

-- The record with a new status, if it is one of the ids.
abbrev pub mark : String → List String → ResourceRecord → ResourceRecord
mark to ids r = if has r.resource_id ids then record r { status = to } else r

traverse-chain :
    (f g : ResourceRecord → Result ResourceRecord) (h : ResourceRecord → ResourceRecord)
    → ((x y : ResourceRecord) → f x ≡ ok y → g y ≡ ok (h x))
    → (xs : List ResourceRecord) {ys : List ResourceRecord} → traverse f xs ≡ ok ys
    → traverse g ys ≡ ok (map h xs)
unfolding traverse
traverse-chain f g h step [] e = ground arith
traverse-chain f g h step (x ∷ xs) e =
    let (y, first, rest) = >>=-eq-ok (f x) _ e in
    let (ys, more, last) = >>=-eq-ok (traverse f xs) _ rest in
    ground (arith, last, step x y first, traverse-chain f g h step xs more)

traverse-map :
    (f : ResourceRecord → Result ResourceRecord) (h : ResourceRecord → ResourceRecord)
    → ((x y : ResourceRecord) → f x ≡ ok y → y ≡ h x)
    → (xs : List ResourceRecord) {ys : List ResourceRecord} → traverse f xs ≡ ok ys
    → ys ≡ map h xs
unfolding traverse
traverse-map f h step [] e = ground arith
traverse-map f h step (x ∷ xs) e =
    let (y, first, rest) = >>=-eq-ok (f x) _ e in
    let (ys, more, last) = >>=-eq-ok (traverse f xs) _ rest in
    cc (step x y first, traverse-map f h step xs more)

move_record-mark :
    (from to : String) (ids : List String) (r r' : ResourceRecord)
    → move_record from to ids r ≡ ok r'
    → r' ≡ mark to ids r
unfolding move_record
move_record-mark from to ids r r' h = ground arith

-- A record that was moved can be moved on.
move_record-twice :
    (from via to : String) (ids : List String) (r r' : ResourceRecord)
    → move_record from via ids r ≡ ok r'
    → move_record via to ids r' ≡ ok (mark to ids r)
unfolding move_record
move_record-twice from via to ids r r' h = ground (arith, eq_refl via)

ids_of-mark :
    (to : String) (ids : List String) (rs : List ResourceRecord)
    → ids_of (map (mark to ids) rs) ≡ ids_of rs
ids_of-mark to ids [] = refl
ids_of-mark to ids (r ∷ rs) = ground (arith, ids_of-mark to ids rs)

has-in_use_ids :
    (rs : List ResourceRecord) (k : String)
    → has k (in_use_ids rs) ≡ true
    → has k (ids_of rs) ≡ true
unfolding in_use_ids has
has-in_use_ids [] k h = h
has-in_use_ids (r ∷ rs) k h = ground (arith, has-in_use_ids rs k)

is_subset_mono :
    (xs ys zs : List String)
    → ((k : String) → has k ys ≡ true → has k zs ≡ true)
    → is_subset xs ys ≡ true
    → is_subset xs zs ≡ true
unfolding is_subset
is_subset_mono [] ys zs f h = refl
is_subset_mono (x ∷ xs) ys zs f h = ground (arith, f x, is_subset_mono xs ys zs f)

module _ (rs : List ResourceRecord) (ids : List String) {rs' : List ResourceRecord}
    (moved : apply_acquire_transition rs ids ≡ ok rs') where
  -- An acquire transition that succeeds sets exactly the records with the selected ids to IN_USE
  -- and leaves the others as they were, in order.
  pub apply_acquire_transition-mark : rs' ≡ map (mark in_use ids) rs
  unfolding apply_acquire_transition
  apply_acquire_transition-mark =
      let (updated, e, rest) = >>=-eq-ok (traverse (move_record available in_use ids) rs) _ moved in
      let (_, last) =
        >>-eq-ok (require (is_subset ids (in_use_ids updated)) state_conflict) _ rest in
      cc (traverse-map _ (mark in_use ids) (move_record-mark available in_use ids) rs e, last)

  -- After an acquire transition that succeeded, a release transition of the same ids to any target
  -- succeeds, and its records are those before the acquisition, with the target as status of those
  -- ids.
  pub apply_release-apply_acquire :
      (target : String) → apply_release_transition rs' ids target ≡ ok (map (mark target ids) rs)
  unfolding apply_acquire_transition apply_release_transition
  apply_release-apply_acquire target =
      let (updated, e, rest) = >>=-eq-ok (traverse (move_record available in_use ids) rs) _ moved in
      let (sub, last) =
        >>-eq-ok (require (is_subset ids (in_use_ids updated)) state_conflict) _ rest in
      let again =
        traverse-chain _ (move_record in_use target ids) (mark target ids)
          (move_record-twice available in_use target ids) rs e in
      let all_there =
        is_subset_mono ids (in_use_ids updated) (ids_of updated) (has-in_use_ids updated)
          (require-eq-pass _ state_conflict sub) in
      ground (arith, last, again, all_there)
