-- ===== src/Client/Coalesce/Served.antt =====
-- Demand for the work of web/src/coalesce.ts, until a pass that starts after it.
use diplomatic.Base.{
  All, Bool, Bool-cases, List, Option, [], arith, false, inl, inr, length, none, refl, some, suc,
  true, ℕ, ◌<◌, ◌∷◌, ◌≡◌, ◌≤◌,
}
use diplomatic.Base.Int.{leb_ℤ, pos, ℤ}
use diplomatic.Client.Coalesce.{
  Debounced, Tail, after_pass, elapse, flush, fulfilled, join, rejected, resume, run, schedule,
}
use diplomatic.Client.Coalesce.Steps.{
  Event, Step, Steps, and_then, cancels, cancels_step, elapses, elapses_step, flushes_step, here,
  passes, passes_step, schedules_step,
}

module _ {T : Type 0} where
  -- Events that do not drop demand: no cancelled timeout, and no pass that fails.
  abbrev pub IsServing : Event T → Type 0
  IsServing cancels = ⊥
  IsServing (passes rejected) = ⊥
  IsServing _ = Unit {0}

  -- A pass has started after the first `n`, or the pass in flight has a trailing pass to come,
  -- or a timeout is pending.
  pub data IsDue (n : ℕ) (d : Debounced T) : Type 0 where
    served : n < d.tail.started → IsDue n d
    trailing : (p : ℕ) → d.tail.inflight ≡ some p → d.tail.again ≡ true → IsDue n d
    waiting : d.timer ≡ true → IsDue n d

  -- A call of `run` is demand, whatever came before it.
  run-IsDue :
      (n : ℕ) (timer : Bool) (delay_ms : ℤ) (t : Tail T)
      → n ≤ t.started
      → (n ≤ (run t).started)
        × IsDue n (record { timer = timer; delay_ms = delay_ms; tail = run t })
  unfolding run
  run-IsDue n timer delay_ms t l = go t.inflight refl
    where
      go :
          (i : Option ℕ)
          → t.inflight ≡ i
          → (n ≤ (join t.inflight (record t { again = true })).started)
            × IsDue n (record {
              timer = timer;
              delay_ms = delay_ms;
              tail = join t.inflight (record t { again = true });
            })
      go none e = rw e (omega arith, served (omega arith))
      go (some p) e = rw e (l, trailing p refl refl)

  resume-IsDue :
      (n : ℕ) (d : Debounced T) (p : ℕ) (v : T)
      → n ≤ d.tail.started
      → IsDue n d
      → (n ≤ (resume p (fulfilled v) d.tail).started)
        × IsDue n (record d { tail = resume p (fulfilled v) d.tail })
  unfolding resume
  resume-IsDue n d p v l h = go d.tail.again refl h
    where
      go :
          (a : Bool)
          → d.tail.again ≡ a
          → IsDue n d
          → (n ≤ (after_pass p (fulfilled v) (record d.tail { ended = suc d.tail.ended })).started)
            × IsDue n (record d {
              tail = after_pass p (fulfilled v) (record d.tail { ended = suc d.tail.ended });
            })
      go true e h = rw e (omega arith, served (omega arith))
      go false e (served m) = rw e (l, served m)
      go false e (trailing q f a) = cc
      go false e (waiting w) = rw e (l, waiting w)

  schedule-IsDue :
      (n : ℕ) (d : Debounced T)
      → n ≤ d.tail.started
      → (n ≤ (schedule d).tail.started) × IsDue n (schedule d)
  unfolding schedule
  schedule-IsDue n d l = elim (Bool-cases (leb_ℤ d.delay_ms (pos 0))) [
    | inl f ↦ rw f (run-IsDue n d.timer d.delay_ms d.tail l)
    | inr f ↦ rw f (l, waiting refl)
  ]

  Step-IsDue :
      (n : ℕ) (d e : Debounced T) (ev : Event T)
      → Step d ev e
      → IsServing ev
      → n ≤ d.tail.started
      → IsDue n d
      → (n ≤ e.tail.started) × IsDue n e
  unfolding elapse flush
  Step-IsDue n _ _ _ (schedules_step d) s l h = schedule-IsDue n d l
  Step-IsDue n _ _ _ (elapses_step d f) s l h = run-IsDue n false d.delay_ms d.tail l
  Step-IsDue n _ _ _ (flushes_step d) s l h = elim (Bool-cases d.timer) [
    | inl f ↦ rw f (run-IsDue n false d.delay_ms d.tail l)
    | inr f ↦ simp f (l, h)
  ]
  Step-IsDue n _ _ _ (cancels_step d) s l h = absurd s
  Step-IsDue n _ _ _ (passes_step d p (fulfilled v) f) s l h = resume-IsDue n d p v l h
  Step-IsDue n _ _ _ (passes_step d p rejected f) s l h = absurd s

  Steps-IsDue :
      (n : ℕ) (d e : Debounced T) (evs : List (Event T))
      → Steps d evs e
      → All IsServing evs
      → n ≤ d.tail.started
      → IsDue n d
      → IsDue n e
  Steps-IsDue n _ _ _ (here d) s l h = h
  Steps-IsDue n _ _ _ (and_then d e f ev evs step steps) s l h =
      let (l', h') = Step-IsDue n d e ev step s.0 l h in Steps-IsDue n e f evs steps s.1 l' h'

  IsDue-idle :
      (n : ℕ) (d : Debounced T)
      → d.timer ≡ false
      → d.tail.inflight ≡ none
      → IsDue n d
      → n < d.tail.started
  IsDue-idle n d t i (served l) = l
  IsDue-idle n d t i (trailing p e a) = cc
  IsDue-idle n d t i (waiting w) = cc

  -- After a call of `schedule`, and while no timeout is cancelled and no pass fails: once no timeout
  -- is pending and no drain is in flight, a pass has started after that call.
  pub schedule_is_served :
      (d e : Debounced T) (evs : List (Event T))
      → Steps (schedule d) evs e
      → All IsServing evs
      → e.timer ≡ false
      → e.tail.inflight ≡ none
      → d.tail.started < e.tail.started
  schedule_is_served d e evs ss s t i =
      let (l, h) = schedule-IsDue d.tail.started d (omega arith) in
      IsDue-idle d.tail.started e t i (Steps-IsDue d.tail.started (schedule d) e evs ss s l h)

  -- A way to rest: `n` events at most, none of which drops demand.
  pub record Rests (n : ℕ) (d : Debounced T) : Type 0 where
    pub events : List (Event T)
    pub end : Debounced T
    pub steps : Steps d events end
    pub serving : All IsServing events
    pub few : length events ≤ n
    pub no_timer : end.timer ≡ false
    pub idle : end.tail.inflight ≡ none

  Rests-step :
      (n : ℕ) (d e : Debounced T) (ev : Event T)
      → Step d ev e
      → IsServing ev
      → Rests n e
      → Rests (suc n) d
  Rests-step n d e ev step s r = record {
    events = ev ∷ r.events;
    end = r.end;
    steps = and_then d e r.end ev r.events step r.steps;
    serving = (s, r.serving);
    few = omega (arith, r.few);
    no_timer = r.no_timer;
    idle = r.idle;
  }

  Rests-more : (n : ℕ) (d : Debounced T) → Rests n d → Rests (suc n) d
  Rests-more n d r = record {
    events = r.events;
    end = r.end;
    steps = r.steps;
    serving = r.serving;
    few = omega (arith, r.few);
    no_timer = r.no_timer;
    idle = r.idle;
  }

  at_rest : (n : ℕ) (d : Debounced T) → d.timer ≡ false → d.tail.inflight ≡ none → Rests n d
  at_rest n d t i = record {
    events = [];
    end = d;
    steps = here d;
    serving = tt;
    few = omega arith;
    no_timer = t;
    idle = i;
  }

  -- The last pass ends, and no demand came in the meantime.
  last_pass : (v : T) (d : Debounced T) → d.timer ≡ false → d.tail.again ≡ false → Rests 1 d
  unfolding resume
  last_pass v d t a = go d.tail.inflight refl
    where
      go : (i : Option ℕ) → d.tail.inflight ≡ i → Rests 1 d
      go none e = at_rest 1 d t e
      go (some p) e =
          Rests-step 0 d _ (passes (fulfilled v)) (passes_step d p (fulfilled v) e) tt
            (at_rest 0 _ t (rw a refl))

  two_passes : (v : T) (d : Debounced T) → d.timer ≡ false → Rests 2 d
  unfolding resume
  two_passes v d t = go d.tail.inflight refl
    where
      go : (i : Option ℕ) → d.tail.inflight ≡ i → Rests 2 d
      go none e = at_rest 2 d t e
      go (some p) e =
          Rests-step 1 d _ (passes (fulfilled v)) (passes_step d p (fulfilled v) e) tt
            (elim (Bool-cases d.tail.again) [
              | inl a ↦ last_pass v _ t (rw a refl)
              | inr a ↦ last_pass v _ t (rw a refl)
            ])

  pub way_to_rest : (v : T) (d : Debounced T) → Rests 3 d
  unfolding elapse
  way_to_rest v d = elim (Bool-cases d.timer) [
    | inl t ↦ Rests-step 2 d (elapse d) elapses (elapses_step d t) tt (two_passes v _ refl)
    | inr t ↦ Rests-more 2 d (two_passes v d t)
  ]
