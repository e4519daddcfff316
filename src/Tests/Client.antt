-- ===== src/Tests/Client.antt =====
-- The client's batches, heads and passes at concrete values.
use diplomatic.Wire.Eid
use diplomatic.Base.{
  All, List, [], arith, concat, false, keep, length, refl, some, true, ℕ, ◌+◌, ◌<◌, ◌∷◌, ◌≡◌, ◌≤◌,
  ◌⊎◌,
}
use diplomatic.Base.Int.{pos, ℤ}
use diplomatic.Base.Sort.{ties}
use diplomatic.Client.Batch.{IsBatch, batch_by_bytes, batch_by_bytes_lem}
use diplomatic.Client.Coalesce.{Debounced, elapse, fulfilled, new_debounced, resume, schedule}
use diplomatic.Client.Coalesce.Rest.{IsClosing, IsResting, comes_to_rest}
use diplomatic.Client.Coalesce.Served.{Rests, schedule_is_served, way_to_rest}
use diplomatic.Client.Coalesce.Steps.{
  Event, Step, Steps, and_then, elapses, elapses_step, here, one_pass_at_a_time, passes,
  passes_step, running, schedules, schedules_step,
}
use diplomatic.Base.Int.{negsuc}
use diplomatic.Base.{◌^◌, ◌-◌, ◌+◌}
use diplomatic.Client.Hlc.{
  double, HlcHead, date_ms, head_updated_at_ms, in_front, parsed_ms, sort_by_hlc_desc,
}
use diplomatic.Client.Hlc.Laws.{IsDated, NewestFirst, sort_by_hlc_desc_lem}
use diplomatic.Tests.Wire.{small_eid}
use diplomatic.Wire.MessageHead.{parse_eid-wire}
use mathlib.Core.List.{Perm}

batch_by_bytes_lem_example :
    (concat (batch_by_bytes (3 ∷ 4 ∷ 9 ∷ 2 ∷ []) (λ n. n) 8) ≡ 3 ∷ 4 ∷ 9 ∷ 2 ∷ [])
    × All (IsBatch (λ n. n) 8) (batch_by_bytes (3 ∷ 4 ∷ 9 ∷ 2 ∷ []) (λ n. n) 8)
batch_by_bytes_lem_example = batch_by_bytes_lem (λ n. n) 8 (3 ∷ 4 ∷ 9 ∷ 2 ∷ [])

-- Heads of the small entity.
abbrev head_at : ℤ → ℤ → HlcHead
head_at off ctr = record { eid = concat (Eid.wire small_eid); off = off; ctr = ctr }

abbrev some_heads : List HlcHead
some_heads = head_at (pos 3) (pos 1) ∷ head_at (pos 5) (pos 0) ∷ head_at (pos 3) (pos 2) ∷ []

head_at-IsDated : (off ctr : ℤ) → IsDated (λ h. h) (head_at off ctr)
unfolding head_updated_at_ms parsed_ms date_ms
head_at-IsDated off ctr = rw (parse_eid-wire small_eid (omega arith, omega arith)) tt

sort_by_hlc_desc_lem_example :
    Perm some_heads (sort_by_hlc_desc (λ h. h) some_heads)
    × NewestFirst (λ h. h) (sort_by_hlc_desc (λ h. h) some_heads)
    × (keep
          (ties (in_front (λ h. h)) (head_at (pos 5) (pos 0)))
          (sort_by_hlc_desc (λ h. h) some_heads)
        ≡ keep (ties (in_front (λ h. h)) (head_at (pos 5) (pos 0))) some_heads)
sort_by_hlc_desc_lem_example =
    sort_by_hlc_desc_lem (λ h. h) (head_at (pos 5) (pos 0)) some_heads
      (head_at-IsDated (pos 5) (pos 0))
      (
        head_at-IsDated (pos 3) (pos 1),
        (head_at-IsDated (pos 5) (pos 0), (head_at-IsDated (pos 3) (pos 2), tt)),
      )

abbrev quiet : Debounced ℕ
quiet = new_debounced (pos 100)

-- One call of `schedule`, the timeout, and the passes.
abbrev settled_run : Rests 3 (schedule quiet)
settled_run = way_to_rest 7 (schedule quiet)

one_pass_at_a_time_example :
    settled_run.end.tail.started
    ≡ settled_run.end.tail.ended + running settled_run.end.tail.inflight
one_pass_at_a_time_example =
    one_pass_at_a_time (pos 100) (schedules ∷ settled_run.events) settled_run.end (
      and_then quiet (schedule quiet) settled_run.end schedules settled_run.events
        (schedules_step quiet) settled_run.steps)

schedule_is_served_example : quiet.tail.started < settled_run.end.tail.started
schedule_is_served_example =
    schedule_is_served quiet settled_run.end settled_run.events settled_run.steps
      settled_run.serving settled_run.no_timer settled_run.idle

-- A pass in flight, and a timeout that is pending.
abbrev busy : Debounced ℕ
busy = record {
  timer = true;
  delay_ms = pos 100;
  tail = record {
    inflight = some 0;
    again = false;
    promises = 1;
    settled = [];
    started = 1;
    ended = 0;
  };
}

-- The pass ends.
abbrev waiting : Debounced ℕ
waiting = record busy { tail = resume 0 (fulfilled 7) busy.tail }

abbrev closing_events : List (Event ℕ)
closing_events = passes (fulfilled 7) ∷ elapses ∷ []

closing_run : Steps busy closing_events (elapse waiting)
closing_run =
    and_then busy waiting (elapse waiting) (passes (fulfilled 7)) (elapses ∷ [])
      (passes_step busy 0 (fulfilled 7) refl)
      (and_then waiting (elapse waiting) (elapse waiting) elapses [] (elapses_step waiting refl)
        (here (elapse waiting)))

comes_to_rest_example :
    (length closing_events ≤ 4)
    × (IsResting (elapse waiting)
        ⊎ ((ev : Event ℕ) × (f : Debounced ℕ) × IsClosing ev × Step (elapse waiting) ev f))
comes_to_rest_example =
    comes_to_rest busy (elapse waiting) closing_events closing_run (tt, (tt, tt))

-- Sums above 2 ^ 53 round to a double, so two of them may be one.
double-close : double (pos (2 ^ 55 + 1)) ≡ double (pos (2 ^ 55 + 2))
unfolding double
double-close = refl

double_even : double (pos (2 ^ 53 + 3)) ≡ pos (2 ^ 53 + 4)
unfolding double
double_even = refl

double_neg : double (negsuc (2 ^ 53)) ≡ negsuc (2 ^ 53 - 1)
unfolding double
double_neg = refl
