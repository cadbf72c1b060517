-- ===== src/Trace/Stream/Timelines.antt =====
-- What a resource of a lease goes through in a stream that passes validation.
use syvert.Common.{
  ◌≡◌, refl, sym, ap, ◌∙◌, Bool, true, false, not, ◌&&◌, ◌||◌, Bool-cases, inl, inr, List, [], ◌∷◌,
  arith, ◌==◌, eq_iff, is_some, keep, ok, >>=-eq-ok, ok_injective,
}
use syvert.Trace.Types.{ResourceTraceEvent, acquired_type}
use syvert.Trace.Stream.Bindings.{
  TimelineKey, StreamState, empty_stream, same_key, key_of, timeline, set_timeline, was_acquired,
  bind_once, bind_type, bind_event, advance_timeline, step_event,
}
use syvert.Trace.Stream.{
  run_events, canonicalize_resource_trace_events, validate_resource_trace_stream,
}

abbrev pub is_acquired : ResourceTraceEvent → Bool
is_acquired e = e.event_type == acquired_type

-- the event is about this resource of this lease
abbrev pub concerns : TimelineKey → ResourceTraceEvent → Bool
concerns k e = same_key (key_of e) k

abbrev was_closed : TimelineKey → StreamState → Bool
was_closed k s = is_some (timeline k s.closeouts)

record SameTimelines (s t : StreamState) : Type 0 where
  has_acquired : t.has_acquired ≡ s.has_acquired
  closeouts : t.closeouts ≡ s.closeouts

bind_event-SameTimelines :
    (s t : StreamState) (e : ResourceTraceEvent) → bind_event s e ≡ ok t → SameTimelines s t
unfolding bind_event
bind_event-SameTimelines s t e h =
    let (_, _, h) = >>=-eq-ok (bind_once e.lease_id e.task_id s.lease_task_ids) _ h in
    let (_, _, h) = >>=-eq-ok (bind_once e.bundle_id e.task_id s.bundle_task_ids) _ h in
    let (_, _, h) = >>=-eq-ok (bind_once e.lease_id e.bundle_id s.lease_bundle_ids) _ h in
    let (_, _, h) = >>=-eq-ok (bind_once e.bundle_id e.lease_id s.bundle_lease_ids) _ h in
    let (_, _, h) = >>=-eq-ok (bind_once e.lease_id e.adapter_key s.lease_adapter_keys) _ h in
    let (_, _, h) = >>=-eq-ok (bind_once e.lease_id e.capability s.lease_capabilities) _ h in
    let (_, _, h) = >>=-eq-ok (bind_once e.bundle_id e.adapter_key s.bundle_adapter_keys) _ h in
    let (_, _, h) = >>=-eq-ok (bind_once e.bundle_id e.capability s.bundle_capabilities) _ h in
    let (_, _, h) = >>=-eq-ok (bind_type (key_of e) e.resource_type s.types) _ h in
    record {
      has_acquired = ap (λ (x : StreamState). x.has_acquired) (sym (ok_injective h));
      closeouts = ap (λ (x : StreamState). x.closeouts) (sym (ok_injective h));
    }

same_key-eq : (j k : TimelineKey) → same_key j k ≡ true → j ≡ k
same_key-eq j k h = ground (arith, eq_iff j.lease_id k.lease_id, eq_iff j.resource_id k.resource_id)

-- One event, seen from one timeline.
record Seen (k : TimelineKey) (s : StreamState) (e : ResourceTraceEvent) (t : StreamState)
    : Type 0 where
  acquired_after : was_acquired k t ≡ ((concerns k e && is_acquired e) || was_acquired k s)
  closed_after : was_closed k t ≡ ((concerns k e && not (is_acquired e)) || was_closed k s)
  acquired_before : concerns k e ≡ true → was_acquired k s ≡ not (is_acquired e)
  open_before : concerns k e ≡ true → is_acquired e ≡ false → was_closed k s ≡ false

was_acquired-same :
    (k : TimelineKey) (s : StreamState) (e : ResourceTraceEvent)
    → concerns k e ≡ true
    → was_acquired (key_of e) s ≡ was_acquired k s
was_acquired-same k s e h = ap (λ j. was_acquired j s) (same_key-eq (key_of e) k h)

was_closed-same :
    (k : TimelineKey) (s : StreamState) (e : ResourceTraceEvent)
    → concerns k e ≡ true
    → was_closed (key_of e) s ≡ was_closed k s
was_closed-same k s e h = ap (λ j. was_closed j s) (same_key-eq (key_of e) k h)

advance_timeline-Seen :
    (k : TimelineKey) (s t : StreamState) (e : ResourceTraceEvent)
    → advance_timeline s e ≡ ok t
    → Seen k s e t
unfolding advance_timeline timeline set_timeline
advance_timeline-Seen k s t e h = record {
  acquired_after = ground (arith, was_acquired-same k s e);
  closed_after = ground (arith, was_closed-same k s e);
  acquired_before = λ c. ground (arith, was_acquired-same k s e c);
  open_before = λ c n. ground (arith, was_closed-same k s e c);
}

step_event-Seen :
    (k : TimelineKey) (s t : StreamState) (e : ResourceTraceEvent)
    → step_event s e ≡ ok t
    → Seen k s e t
unfolding step_event
step_event-Seen k s t e h =
    let (b, bound, h) = >>=-eq-ok (bind_event s e) _ h in
    let same = bind_event-SameTimelines s b e bound in
    let seen = advance_timeline-Seen k b t e h in
    let a : was_acquired k b ≡ was_acquired k s =
      ap (λ d. is_some (timeline k d)) same.has_acquired in
    let c : was_closed k b ≡ was_closed k s = ap (λ d. is_some (timeline k d)) same.closeouts in
    record {
      acquired_after = cc (seen.acquired_after, a);
      closed_after = cc (seen.closed_after, c);
      acquired_before = λ h. sym a ∙ seen.acquired_before h;
      open_before = λ h n. sym c ∙ seen.open_before h n;
    }

abbrev pub events_of : TimelineKey → List ResourceTraceEvent → List ResourceTraceEvent
events_of k = keep (concerns k)

abbrev IsCloseout : List ResourceTraceEvent → Type 0
IsCloseout [] = Unit
IsCloseout (c ∷ []) = is_acquired c ≡ false
IsCloseout (c ∷ _ ∷ _) = ⊥

-- nothing, an `acquired`, or an `acquired` and one closeout
abbrev pub IsTimeline : List ResourceTraceEvent → Type 0
IsTimeline [] = Unit
IsTimeline (a ∷ cs) = (is_acquired a ≡ true) × IsCloseout cs

run_events-closed :
    (k : TimelineKey) (s : StreamState) (es : List ResourceTraceEvent) {t : StreamState}
    → run_events s es ≡ ok t
    → was_acquired k s ≡ true
    → was_closed k s ≡ true
    → events_of k es ≡ []
unfolding run_events keep
run_events-closed k s [] h a c = refl
run_events-closed k s (e ∷ es) h a c =
    let (m, first, rest) = >>=-eq-ok (step_event s e) _ h in
    let seen = step_event-Seen k s m e first in
    ground (
      arith,
      a,
      c,
      seen.acquired_after,
      seen.closed_after,
      seen.acquired_before,
      seen.open_before,
      run_events-closed k m es rest,
    )

run_events-open :
    (k : TimelineKey) (s : StreamState) (es : List ResourceTraceEvent) {t : StreamState}
    → run_events s es ≡ ok t
    → was_acquired k s ≡ true
    → IsCloseout (events_of k es)
unfolding run_events keep
run_events-open k s [] h a = tt
run_events-open k s (e ∷ es) h a =
    let (m, first, rest) = >>=-eq-ok (step_event s e) _ h in
    let seen = step_event-Seen k s m e first in
    elim (Bool-cases (concerns k e)) [
      | inl c ↦
          (let closes : is_acquired e ≡ false = ground (arith, seen.acquired_before c, a) in
            rw
              (
                c,
                run_events-closed k m es rest (ground (arith, a, c, seen.acquired_after))
                    (ground (arith, c, closes, seen.closed_after)),
              )
              closes)
      | inr c ↦ rw c (run_events-open k m es rest (ground (arith, a, c, seen.acquired_after)))
    ]

run_events-IsTimeline :
    (k : TimelineKey) (s : StreamState) (es : List ResourceTraceEvent) {t : StreamState}
    → run_events s es ≡ ok t
    → was_acquired k s ≡ false
    → IsTimeline (events_of k es)
unfolding run_events keep
run_events-IsTimeline k s [] h a = tt
run_events-IsTimeline k s (e ∷ es) h a =
    let (m, first, rest) = >>=-eq-ok (step_event s e) _ h in
    let seen = step_event-Seen k s m e first in
    elim (Bool-cases (concerns k e)) [
      | inl c ↦
          (let opens : is_acquired e ≡ true = ground (arith, seen.acquired_before c, a) in
            rw c
              (opens, run_events-open k m es rest (ground (arith, c, opens, seen.acquired_after))))
      | inr c ↦ rw c (run_events-IsTimeline k m es rest (ground (arith, a, c, seen.acquired_after)))
    ]

-- In the stream that validate_resource_trace_stream returns, the events of one resource of one
-- lease are none, or an acquired one first and at most one closeout after it.
pub validate_resource_trace_stream-IsTimeline :
    (events canonical : List ResourceTraceEvent)
    → validate_resource_trace_stream events ≡ ok canonical
    → (k : TimelineKey) → IsTimeline (events_of k canonical)
unfolding validate_resource_trace_stream timeline
validate_resource_trace_stream-IsTimeline events canonical h k =
    let (es, e, h) = >>=-eq-ok (canonicalize_resource_trace_events events) _ h in
    let (t, ran, last) = >>=-eq-ok (run_events empty_stream es) _ h in
    rw (← ok_injective last) (run_events-IsTimeline k empty_stream es ran refl)
