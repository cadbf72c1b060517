-- ===== src/Lifecycle/Selection/Chosen.antt =====
-- What `select_available_resources` chooses.
use syvert.Common.{
  String, ◌≡◌, refl, subst, sym, ap, ◌∙◌, true, false, Bool-cases, inl, inr, some, List, [], ◌∷◌,
  Memᴰ, arith, ◌==◌, eq_iff, has, Dict, get, put, get-put, get-put_self, keep-mem, sort_by-mem, ok,
  state_conflict, key_error, require, forbid, each, >>=-eq-ok, >>-eq-ok, ok_injective,
  forbid-eq-pass,
}
use syvert.Lifecycle.Types.{
  ResourceRecord, ResourceLifecycleSnapshot, available, in_use, resource_types,
}
use syvert.Lifecycle.Selection.{
  active_resource_ids, resource_is_slot_compatible, is_candidate, id_le, candidates, take_candidate,
  check_type, select_slots, select_available_resources,
}

module _ (resources : List ResourceRecord) (active : List String) (adapter_key : String) where
  -- The slot has a resource of those at hand, on its way to IN_USE.
  pub record Chosen (slot : String) (selected : Dict ResourceRecord) : Type 0 where
    pub resource : ResourceRecord
    pub at_hand : Memᴰ resource resources
    pub is_available : resource.status ≡ available
    pub of_slot : resource.resource_type ≡ slot
    pub compatible : resource_is_slot_compatible resource slot adapter_key ≡ true
    pub free : has resource.resource_id active ≡ false
    pub taken : get slot selected ≡ some (record resource { status = in_use })

  take_candidate-first :
      (xs : List ResourceRecord) (r : ResourceRecord)
      → take_candidate active xs ≡ ok r
      → (c : ResourceRecord) × Memᴰ c xs
        × (has c.resource_id active ≡ false)
        × (r ≡ record c { status = in_use })
  unfolding take_candidate
  take_candidate-first [] r h = cc
  take_candidate-first (c ∷ xs) r h =
      let (free, last) = >>-eq-ok (forbid (has c.resource_id active) state_conflict) _ h in
      (c, Memᴰ.head refl, forbid-eq-pass _ state_conflict free, sym (ok_injective last))

  take_candidate-Chosen :
      (slot : String) (selected : Dict ResourceRecord) (r : ResourceRecord)
      → take_candidate active (candidates slot adapter_key resources) ≡ ok r
      → Chosen slot (put slot r selected)
  unfolding candidates is_candidate
  take_candidate-Chosen slot selected r h =
      let (c, sorted, free, is) =
        take_candidate-first (candidates slot adapter_key resources) r h in
      let (at_hand, fits) =
        keep-mem (is_candidate slot adapter_key) c resources (sort_by-mem id_le c _ sorted) in
      record {
        resource = c;
        at_hand = at_hand;
        is_available = ground (arith, fits, eq_iff c.status available);
        of_slot = ground (arith, fits, eq_iff c.resource_type slot);
        compatible = ground (arith, fits);
        free = free;
        taken = get-put_self slot r selected ∙ ap some is;
      }

  -- A choice for another slot does not touch it, and one for the same slot takes its place.
  put-Chosen :
      (slot other : String) (selected : Dict ResourceRecord) (r : ResourceRecord)
      → Chosen other (put other r selected)
      → Chosen slot selected
      → Chosen slot (put other r selected)
  put-Chosen slot other selected r new old = elim (Bool-cases (other == slot)) [
    | inl e ↦ subst (λ j. Chosen j (put other r selected)) ((eq_iff other slot).0 e) new
    | inr e ↦ record {
      resource = old.resource;
      at_hand = old.at_hand;
      is_available = old.is_available;
      of_slot = old.of_slot;
      compatible = old.compatible;
      free = old.free;
      taken = get-put other slot r selected ∙ rw e old.taken;
    }
  ]

  select_slots-keeps :
      (slots : List String) (selected : Dict ResourceRecord) (slot : String)
      {out : Dict ResourceRecord}
      → select_slots resources active adapter_key selected slots ≡ ok out
      → Chosen slot selected
      → Chosen slot out
  unfolding select_slots
  select_slots-keeps [] selected slot h old = subst (Chosen slot) (ok_injective h) old
  select_slots-keeps (other ∷ slots) selected slot h old =
      let (_, h) = >>-eq-ok (require (has other resource_types) key_error) _ h in
      let (r, took, rest) =
        >>=-eq-ok (take_candidate active (candidates other adapter_key resources)) _ h in
      select_slots-keeps slots (put other r selected) slot rest
        (put-Chosen slot other selected r (take_candidate-Chosen other selected r took) old)

  select_slots-Chosen :
      (slots : List String) (selected : Dict ResourceRecord) (slot : String)
      {out : Dict ResourceRecord}
      → select_slots resources active adapter_key selected slots ≡ ok out
      → has slot slots ≡ true
      → Chosen slot out
  unfolding select_slots has
  select_slots-Chosen [] selected slot h there = cc
  select_slots-Chosen (other ∷ slots) selected slot {out} h there =
      let (_, h) = >>-eq-ok (require (has other resource_types) key_error) _ h in
      let (r, took, rest) =
        >>=-eq-ok (take_candidate active (candidates other adapter_key resources)) _ h in
      elim (Bool-cases (other == slot)) [
        | inl e ↦
            subst (λ j. Chosen j out) ((eq_iff other slot).0 e)
              (select_slots-keeps slots (put other r selected) other rest
                (take_candidate-Chosen other selected r took))
        | inr e ↦
            select_slots-Chosen slots (put other r selected) slot rest (ground (arith, there, e))
      ]

-- When select_available_resources succeeds, each requested slot gets a resource of the snapshot
-- that is AVAILABLE, of the type of the slot, compatible with the adapter and held by no active
-- lease, with its status set to IN_USE.
pub select_available_resources-Chosen :
    (s : ResourceLifecycleSnapshot) (slots : List String) (adapter_key slot : String)
    (selected : Dict ResourceRecord)
    → select_available_resources s slots adapter_key ≡ ok selected
    → has slot slots ≡ true
    → Chosen s.resources (active_resource_ids s.leases) adapter_key slot selected
unfolding select_available_resources
select_available_resources-Chosen s slots adapter_key slot selected h there =
    let (_, h) = >>-eq-ok (each check_type s.resources) _ h in
    select_slots-Chosen s.resources (active_resource_ids s.leases) adapter_key slots [] slot h there
