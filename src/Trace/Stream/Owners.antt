-- ===== src/Trace/Stream/Owners.antt =====
-- Which task, bundle, adapter and capability a lease has in a stream that passes validation.
use syvert.Common.{
  Memᴰ, All-mem, subst, String, ◌≡◌, sym, ap, ◌∙◌, some, Option-cases, inl, inr, List, [], ◌∷◌,
  arith, ◌==◌, eq_iff, Dict, get, put, get-put, get-put_self, All, All-map, All-zip, ok,
  trace_contract, require, >>=-eq-ok, >>-eq-ok, ok_injective, require-eq-pass,
}
use syvert.Trace.Types.{ResourceTraceEvent}
use syvert.Trace.Stream.Bindings.{
  StreamState, empty_stream, key_of, bind_once, bind_type, bind_event, advance_timeline, step_event,
}
use syvert.Trace.Stream.{
  run_events, canonicalize_resource_trace_events, validate_resource_trace_stream,
}

bind_once-put :
    (k v : String) (d : Dict String) {d' : Dict String}
    → bind_once k v d ≡ ok d'
    → (d' ≡ put k v d) × ((w : String) → get k d ≡ some w → w ≡ v)
unfolding bind_once
bind_once-put k v d h = elim (Option-cases (get k d)) [
  | inl e ↦ (ground (arith, e, h), λ w g. ground (arith, e, g))
  | inr (w, e) ↦ (
    ground (arith, e, h),
    λ x g.
        (let (is, _) =
            >>-eq-ok (require (w == v) trace_contract) (ok (put k v d)) (rw (e, bind_once) at h) in
          ground (arith, e, g, (eq_iff w v).0 (require-eq-pass _ trace_contract is))),
  )
]

-- A binding stays.
bind_once-keeps :
    (k v : String) (d : Dict String) (j w : String) {d' : Dict String}
    → bind_once k v d ≡ ok d'
    → get j d ≡ some w
    → get j d' ≡ some w
bind_once-keeps k v d j w h g =
    let (e, same) = bind_once-put k v d h in
    rw (e, get-put) (ground (arith, g, eq_iff k j, same w, ap (λ i. get i d)))

-- The bindings that one event makes.
record Binds (s : StreamState) (e : ResourceTraceEvent) (t : StreamState) : Type 0 where
  lease_task : bind_once e.lease_id e.task_id s.lease_task_ids ≡ ok t.lease_task_ids
  lease_bundle : bind_once e.lease_id e.bundle_id s.lease_bundle_ids ≡ ok t.lease_bundle_ids
  bundle_lease : bind_once e.bundle_id e.lease_id s.bundle_lease_ids ≡ ok t.bundle_lease_ids
  lease_adapter : bind_once e.lease_id e.adapter_key s.lease_adapter_keys ≡ ok t.lease_adapter_keys
  lease_capability :
      bind_once e.lease_id e.capability s.lease_capabilities ≡ ok t.lease_capabilities

bind_event-Binds :
    (s m : StreamState) (e : ResourceTraceEvent) → bind_event s e ≡ ok m → Binds s e m
unfolding bind_event
bind_event-Binds s m e b =
    let (_, lease_task, b) = >>=-eq-ok (bind_once e.lease_id e.task_id s.lease_task_ids) _ b in
    let (_, _, b) = >>=-eq-ok (bind_once e.bundle_id e.task_id s.bundle_task_ids) _ b in
    let (_, lease_bundle, b) =
      >>=-eq-ok (bind_once e.lease_id e.bundle_id s.lease_bundle_ids) _ b in
    let (_, bundle_lease, b) =
      >>=-eq-ok (bind_once e.bundle_id e.lease_id s.bundle_lease_ids) _ b in
    let (_, lease_adapter, b) =
      >>=-eq-ok (bind_once e.lease_id e.adapter_key s.lease_adapter_keys) _ b in
    let (_, lease_capability, b) =
      >>=-eq-ok (bind_once e.lease_id e.capability s.lease_capabilities) _ b in
    let (_, _, b) = >>=-eq-ok (bind_once e.bundle_id e.adapter_key s.bundle_adapter_keys) _ b in
    let (_, _, b) = >>=-eq-ok (bind_once e.bundle_id e.capability s.bundle_capabilities) _ b in
    let (_, _, b) = >>=-eq-ok (bind_type (key_of e) e.resource_type s.types) _ b in
    let f = ok_injective b in
    record {
      lease_task = lease_task ∙ ap (λ (x : StreamState). ok x.lease_task_ids) f;
      lease_bundle = lease_bundle ∙ ap (λ (x : StreamState). ok x.lease_bundle_ids) f;
      bundle_lease = bundle_lease ∙ ap (λ (x : StreamState). ok x.bundle_lease_ids) f;
      lease_adapter = lease_adapter ∙ ap (λ (x : StreamState). ok x.lease_adapter_keys) f;
      lease_capability = lease_capability ∙ ap (λ (x : StreamState). ok x.lease_capabilities) f;
    }

-- The dicts of which `Binds` speaks are the same.
record SameBindings (s t : StreamState) : Type 0 where
  lease_task : s.lease_task_ids ≡ t.lease_task_ids
  lease_bundle : s.lease_bundle_ids ≡ t.lease_bundle_ids
  bundle_lease : s.bundle_lease_ids ≡ t.bundle_lease_ids
  lease_adapter : s.lease_adapter_keys ≡ t.lease_adapter_keys
  lease_capability : s.lease_capabilities ≡ t.lease_capabilities

advance_timeline-SameBindings :
    (s t : StreamState) (e : ResourceTraceEvent) → advance_timeline s e ≡ ok t → SameBindings s t
unfolding advance_timeline
advance_timeline-SameBindings s t e h = record {
  lease_task = ground arith;
  lease_bundle = ground arith;
  bundle_lease = ground arith;
  lease_adapter = ground arith;
  lease_capability = ground arith;
}

step_event-Binds :
    (s t : StreamState) (e : ResourceTraceEvent) → step_event s e ≡ ok t → Binds s e t
unfolding step_event
step_event-Binds s t e h =
    let (m, bound, h) = >>=-eq-ok (bind_event s e) _ h in
    let b = bind_event-Binds s m e bound in
    let k = advance_timeline-SameBindings m t e h in
    record {
      lease_task = b.lease_task ∙ ap ok k.lease_task;
      lease_bundle = b.lease_bundle ∙ ap ok k.lease_bundle;
      bundle_lease = b.bundle_lease ∙ ap ok k.bundle_lease;
      lease_adapter = b.lease_adapter ∙ ap ok k.lease_adapter;
      lease_capability = b.lease_capability ∙ ap ok k.lease_capability;
    }

-- A dict of the state that binds a key of each event to a value of it.
module _ (dict : StreamState → Dict String) (key val : ResourceTraceEvent → String)
    (binds : (s t : StreamState) (e : ResourceTraceEvent)
      → step_event s e ≡ ok t
      → bind_once (key e) (val e) (dict s) ≡ ok (dict t)) where
  run_events-keeps :
      (s : StreamState) (es : List ResourceTraceEvent) (j w : String) {t : StreamState}
      → run_events s es ≡ ok t
      → get j (dict s) ≡ some w
      → get j (dict t) ≡ some w
  unfolding run_events
  run_events-keeps s [] j w h g = rw (← ok_injective h) g
  run_events-keeps s (e ∷ es) j w h g =
      let (m, first, rest) = >>=-eq-ok (step_event s e) _ h in
      run_events-keeps m es j w rest
        (bind_once-keeps (key e) (val e) (dict s) j w (binds s m e first) g)

  run_events-binds :
      (s : StreamState) (es : List ResourceTraceEvent) {t : StreamState}
      → run_events s es ≡ ok t
      → All (λ e. get (key e) (dict t) ≡ some (val e)) es
  unfolding run_events
  run_events-binds s [] h = tt
  run_events-binds s (e ∷ es) h =
      let (m, first, rest) = >>=-eq-ok (step_event s e) _ h in
      let (put_in, _) = bind_once-put (key e) (val e) (dict s) (binds s m e first) in
      (
        run_events-keeps m es (key e) (val e) rest
            (rw put_in (get-put_self (key e) (val e) (dict s))),
        run_events-binds m es rest,
      )

  -- Two events with the same key have the same value.
  run_events-agree :
      (s : StreamState) (es : List ResourceTraceEvent) {t : StreamState}
      → run_events s es ≡ ok t
      → All (λ a. All (λ b. key a ≡ key b → val a ≡ val b) es) es
  run_events-agree s es {t} h =
      let all = run_events-binds s es h in
      All-map
        (λ a found. All-map (λ b found' e. cc (found, found', ap (λ k. get k (dict t)) e)) es all)
        es all

-- Events of one lease have one task, bundle, adapter and capability, and a bundle has one lease.
abbrev Agree : ResourceTraceEvent → ResourceTraceEvent → Type 0
Agree a b =
    (a.lease_id ≡ b.lease_id
      → (a.task_id ≡ b.task_id)
        × (a.bundle_id ≡ b.bundle_id)
        × (a.adapter_key ≡ b.adapter_key)
        × (a.capability ≡ b.capability))
    × (a.bundle_id ≡ b.bundle_id → a.lease_id ≡ b.lease_id)

module _ (P Q R S : ResourceTraceEvent → Type 0) where
  All-four :
      (xs : List ResourceTraceEvent)
      → All P xs
      → All Q xs
      → All R xs
      → All S xs
      → All (λ x. P x × Q x × R x × S x) xs
  All-four [] p q r s = tt
  All-four (x ∷ xs) p q r s = ((p.0, q.0, r.0, s.0), All-four xs p.1 q.1 r.1 s.1)

-- Two fields agree in an event with the ones of another.
abbrev SameBy :
    (ResourceTraceEvent → String)
    → (ResourceTraceEvent → String)
    → ResourceTraceEvent
    → ResourceTraceEvent
    → Type 0
SameBy key val a b = key a ≡ key b → val a ≡ val b

abbrev SameByAll :
    (ResourceTraceEvent → String)
    → (ResourceTraceEvent → String)
    → List ResourceTraceEvent
    → ResourceTraceEvent
    → Type 0
SameByAll key val es a = All (SameBy key val a) es

Agree-each :
    (es : List ResourceTraceEvent) (a : ResourceTraceEvent)
    → SameByAll (λ e. e.lease_id) (λ e. e.task_id) es a
    → SameByAll (λ e. e.lease_id) (λ e. e.bundle_id) es a
      × SameByAll (λ e. e.bundle_id) (λ e. e.lease_id) es a
      × SameByAll (λ e. e.lease_id) (λ e. e.adapter_key) es a
      × SameByAll (λ e. e.lease_id) (λ e. e.capability) es a
    → All (Agree a) es
Agree-each es a task (bundle, lease, adapter, capability) =
    All-zip (λ b t (u, v, w, x). ((λ e. (t e, u e, w e, x e)), v)) es task
      (All-four (SameBy (λ e. e.lease_id) (λ e. e.bundle_id) a)
        (SameBy (λ e. e.bundle_id) (λ e. e.lease_id) a)
        (SameBy (λ e. e.lease_id) (λ e. e.adapter_key) a)
        (SameBy (λ e. e.lease_id) (λ e. e.capability) a) es bundle lease adapter capability)

run_events-Agree :
    (s : StreamState) (es : List ResourceTraceEvent) {t : StreamState}
    → run_events s es ≡ ok t
    → All (λ a. All (Agree a) es) es
run_events-Agree s es h =
    All-zip (λ a. Agree-each es a) es
      (run_events-agree (λ s. s.lease_task_ids) (λ e. e.lease_id) (λ e. e.task_id)
        (λ s t e h. (step_event-Binds s t e h).lease_task) s es h)
      (All-four (SameByAll (λ e. e.lease_id) (λ e. e.bundle_id) es)
        (SameByAll (λ e. e.bundle_id) (λ e. e.lease_id) es)
        (SameByAll (λ e. e.lease_id) (λ e. e.adapter_key) es)
        (SameByAll (λ e. e.lease_id) (λ e. e.capability) es) es
        (run_events-agree (λ s. s.lease_bundle_ids) (λ e. e.lease_id) (λ e. e.bundle_id)
          (λ s t e h. (step_event-Binds s t e h).lease_bundle) s es h)
        (run_events-agree (λ s. s.bundle_lease_ids) (λ e. e.bundle_id) (λ e. e.lease_id)
          (λ s t e h. (step_event-Binds s t e h).bundle_lease) s es h)
        (run_events-agree (λ s. s.lease_adapter_keys) (λ e. e.lease_id) (λ e. e.adapter_key)
          (λ s t e h. (step_event-Binds s t e h).lease_adapter) s es h)
        (run_events-agree (λ s. s.lease_capabilities) (λ e. e.lease_id) (λ e. e.capability)
          (λ s t e h. (step_event-Binds s t e h).lease_capability) s es h))

module _ (events canonical : List ResourceTraceEvent)
    (valid : validate_resource_trace_stream events ≡ ok canonical) (a b : ResourceTraceEvent)
    (here : Memᴰ a canonical) (there : Memᴰ b canonical) where
  two-Agree : Agree a b
  unfolding validate_resource_trace_stream
  two-Agree =
      let (es, e, h) = >>=-eq-ok (canonicalize_resource_trace_events events) _ valid in
      let (t, ran, last) = >>=-eq-ok (run_events empty_stream es) _ h in
      let all = run_events-Agree empty_stream es ran in
      let same : canonical ≡ es = sym (ok_injective last) in
      All-mem (Agree a) es
        (All-mem (λ x. All (Agree x) es) es all (subst (λ l. Memᴰ a l) same here))
        (subst (λ l. Memᴰ b l) same there)

  -- In the stream that validate_resource_trace_stream returns, two events of one lease have the
  -- same task, bundle, adapter and capability.
  pub validate_resource_trace_stream-same_lease :
      a.lease_id ≡ b.lease_id
      → (a.task_id ≡ b.task_id)
        × (a.bundle_id ≡ b.bundle_id)
        × (a.adapter_key ≡ b.adapter_key)
        × (a.capability ≡ b.capability)
  validate_resource_trace_stream-same_lease = two-Agree.0

  -- In the stream that validate_resource_trace_stream returns, two events of one bundle are of one
  -- lease.
  pub validate_resource_trace_stream-same_bundle :
      a.bundle_id ≡ b.bundle_id → a.lease_id ≡ b.lease_id
  validate_resource_trace_stream-same_bundle = two-Agree.1
