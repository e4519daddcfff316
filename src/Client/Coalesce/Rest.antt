-- ===== src/Client/Coalesce/Rest.antt =====
-- How web/src/coalesce.ts comes to rest once no more demand comes.
use diplomatic.Base.{
  All, Bool, List, Option, arith, false, inl, inr, length, none, refl, some, suc, true, ℕ, ◌+◌, ◌<◌,
  ◌≡◌, ◌≤◌, ◌⊎◌,
}
use diplomatic.Client.Coalesce.{
  Debounced, Settlement, Tail, after_pass, elapse, fulfilled, join, rejected, resume, run,
}
use diplomatic.Client.Coalesce.Steps.{
  Event, Step, Steps, and_then, cancels_step, elapses, elapses_step, flushes_step, here, passes,
  passes_step, schedules_step,
}

-- The passes that are to end: the one in flight, and the trailing one that `again` asks for.
abbrev passes_due : Option ℕ → Bool → ℕ
passes_due none again = 0
passes_due (some p) true = 2
passes_due (some p) false = 1

abbrev timeouts_due : Bool → ℕ
timeouts_due true = 2
timeouts_due false = 0

passes_due-le : (i : Option ℕ) (again : Bool) → passes_due i again ≤ 2
passes_due-le none again = omega arith
passes_due-le (some p) true = omega arith
passes_due-le (some p) false = omega arith

timeouts_due-le : (timer : Bool) → timeouts_due timer ≤ 2
timeouts_due-le true = omega arith
timeouts_due-le false = omega arith

passes_due-true : (p : ℕ) (again : Bool) → 2 < 2 + passes_due (some p) again
passes_due-true p true = omega arith
passes_due-true p false = omega arith

passes_due-ended : (p : ℕ) (again : Bool) → 0 < passes_due (some p) again
passes_due-ended p true = omega arith
passes_due-ended p false = omega arith

module _ {T : Type 0} where
  -- What ends by itself: the pending timeout, and the pass in flight.
  abbrev pub IsClosing : Event T → Type 0
  IsClosing elapses = Unit {0}
  IsClosing (passes r) = Unit
  IsClosing _ = ⊥

  -- No timeout is pending, and no drain is in flight.
  abbrev pub IsResting : Debounced T → Type 0
  IsResting d = (d.timer ≡ false) × (d.tail.inflight ≡ none)

  abbrev tail_weight : Tail T → ℕ
  tail_weight t = passes_due t.inflight t.again

  abbrev weight : Debounced T → ℕ
  weight d = timeouts_due d.timer + tail_weight d.tail

  run-weight : (t : Tail T) → tail_weight (run t) < 2 + tail_weight t
  unfolding run
  run-weight t = go t.inflight refl
    where
      go :
          (i : Option ℕ)
          → t.inflight ≡ i
          → tail_weight (join t.inflight (record t { again = true })) < 2 + tail_weight t
      go none e = rw e (omega arith)
      go (some p) e = rw e (passes_due-true p t.again)

  after-weight :
      (again : Bool) (t : Tail T) (p : ℕ) (v : T)
      → t.inflight ≡ some p
      → t.again ≡ again
      → tail_weight (after_pass p (fulfilled v) t) < passes_due t.inflight again
  unfolding after_pass
  after-weight true t p v e a = rw (a, e) (omega arith)
  after-weight false t p v e a = rw (a, e) (omega arith)

  resume-weight :
      (t : Tail T) (p : ℕ) (r : Settlement T)
      → t.inflight ≡ some p
      → tail_weight (resume p r t) < tail_weight t
  unfolding resume
  resume-weight t p rejected e = rw e (passes_due-ended p t.again)
  resume-weight t p (fulfilled v) e =
      after-weight t.again (record t { ended = suc t.ended }) p v e refl

  Step-weight :
      (d e : Debounced T) (ev : Event T) → Step d ev e → IsClosing ev → weight e < weight d
  unfolding elapse
  Step-weight _ _ _ (elapses_step d f) c = let l = run-weight d.tail in rw f (omega arith)
  Step-weight _ _ _ (passes_step d p r f) c = let l = resume-weight d.tail p r f in omega arith
  Step-weight _ _ _ (schedules_step d) c = absurd c
  Step-weight _ _ _ (flushes_step d) c = absurd c
  Step-weight _ _ _ (cancels_step d) c = absurd c

  Steps-weight :
      (d e : Debounced T) (evs : List (Event T))
      → Steps d evs e
      → All IsClosing evs
      → length evs + weight e ≤ weight d
  Steps-weight _ _ _ (here d) c = omega arith
  Steps-weight _ _ _ (and_then d e f ev evs step steps) (c, cs) =
      let l = Step-weight d e ev step c in let ih = Steps-weight e f evs steps cs in omega arith

  -- A timeout that is pending can end, and a pass in flight can.
  closes :
      (timer : Bool) (i : Option ℕ) (d : Debounced T)
      → d.timer ≡ timer
      → d.tail.inflight ≡ i
      → IsResting d ⊎ ((ev : Event T) × (e : Debounced T) × IsClosing ev × Step d ev e)
  closes true i d t f = inr (elapses, elapse d, tt, elapses_step d t)
  closes false (some p) d t f = inr (passes rejected, _, tt, passes_step d p rejected f)
  closes false none d t f = inl (t, f)

  -- From every state, whether passes fail or not: at most four events in a row are the end of the
  -- pending timeout or of the pass in flight, and after them either one more can come, or no
  -- timeout is pending and no drain is in flight.
  pub comes_to_rest :
      (d e : Debounced T) (evs : List (Event T))
      → Steps d evs e
      → All IsClosing evs
      → (length evs ≤ 4)
        × (IsResting e ⊎ ((ev : Event T) × (f : Debounced T) × IsClosing ev × Step e ev f))
  comes_to_rest d e evs ss c =
      let l = Steps-weight d e evs ss c in
      let t = timeouts_due-le d.timer in
      let p = passes_due-le d.tail.inflight d.tail.again in
      (omega arith, closes e.timer e.tail.inflight e refl refl)
