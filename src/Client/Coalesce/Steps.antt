-- ===== src/Client/Coalesce/Steps.antt =====
-- The steps of web/src/coalesce.ts: one pass of the work at a time.
use diplomatic.Base.{
  Bool-cases, List, Option, [], ap, arith, inl, inr, none, refl, some, true, ℕ, ◌+◌, ◌∷◌, ◌≡◌,
}
use diplomatic.Base.Int.{leb_ℤ, pos, ℤ}
use diplomatic.Client.Coalesce.{
  Debounced, Settlement, Tail, cancel, elapse, flush, fulfilled, join, new_debounced, rejected,
  resume, run, schedule,
}

pub data Event (T : Type 0) : Type 0 where
  schedules : Event T
  elapses : Event T
  flushes : Event T
  cancels : Event T
  passes : Settlement T → Event T

-- A timeout elapses only while it is pending, and a pass ends only while a drain is in flight.
pub data Step {T : Type 0} : Debounced T → Event T → Debounced T → Type 0 where
  schedules_step : (d : Debounced T) → Step d schedules (schedule d)
  elapses_step : (d : Debounced T) → d.timer ≡ true → Step d elapses (elapse d)
  flushes_step : (d : Debounced T) → Step d flushes (flush d)
  cancels_step : (d : Debounced T) → Step d cancels (cancel d)
  passes_step :
      (d : Debounced T) (p : ℕ) (r : Settlement T)
      → d.tail.inflight ≡ some p
      → Step d (passes r) (record d { tail = resume p r d.tail })

pub data Steps {T : Type 0} : Debounced T → List (Event T) → Debounced T → Type 0 where
  here : (d : Debounced T) → Steps d [] d
  and_then :
      (d e f : Debounced T) (ev : Event T) (evs : List (Event T))
      → Step d ev e
      → Steps e evs f
      → Steps d (ev ∷ evs) f

-- The passes that have started and not ended.
abbrev pub running : Option ℕ → ℕ
running none = 0
running (some p) = 1

module _ {T : Type 0} where
  -- A pass runs exactly while a drain is in flight.
  abbrev pub IsSingle : Tail T → Type 0
  IsSingle t = t.started ≡ t.ended + running t.inflight

  run-IsSingle : (t : Tail T) → IsSingle t → IsSingle (run t)
  unfolding run
  run-IsSingle t h = go t.inflight refl
    where
      go : (i : Option ℕ) → t.inflight ≡ i → IsSingle (join t.inflight (record t { again = true }))
      go none e = rw e (omega (arith, h, ap running e))
      go (some p) e = rw e (omega (arith, h, ap running e))

  resume-IsSingle :
      (t : Tail T) (p : ℕ) (r : Settlement T)
      → t.inflight ≡ some p
      → IsSingle t
      → IsSingle (resume p r t)
  unfolding resume
  resume-IsSingle t p (fulfilled v) e h = elim (Bool-cases t.again) [
    | inl f ↦ rw f (omega (arith, h, ap running e))
    | inr f ↦ rw f (omega (arith, h, ap running e))
  ]
  resume-IsSingle t p rejected e h = omega (arith, h, ap running e)

  Step-IsSingle :
      (d e : Debounced T) (ev : Event T) → Step d ev e → IsSingle d.tail → IsSingle e.tail
  unfolding schedule elapse flush cancel
  Step-IsSingle _ _ _ (schedules_step d) h = elim (Bool-cases (leb_ℤ d.delay_ms (pos 0))) [
    | inl f ↦ rw f (run-IsSingle d.tail h)
    | inr f ↦ rw f h
  ]
  Step-IsSingle _ _ _ (elapses_step d f) h = run-IsSingle d.tail h
  Step-IsSingle _ _ _ (flushes_step d) h = elim (Bool-cases d.timer) [
    | inl f ↦ rw f (run-IsSingle d.tail h)
    | inr f ↦ rw f h
  ]
  Step-IsSingle _ _ _ (cancels_step d) h = elim (Bool-cases d.timer) [
    | inl f ↦ rw f h
    | inr f ↦ rw f h
  ]
  Step-IsSingle _ _ _ (passes_step d p r f) h = resume-IsSingle d.tail p r f h

  Steps-IsSingle :
      (d e : Debounced T) (evs : List (Event T)) → Steps d evs e → IsSingle d.tail → IsSingle e.tail
  Steps-IsSingle _ _ _ (here d) h = h
  Steps-IsSingle _ _ _ (and_then d e f ev evs s ss) h =
      Steps-IsSingle e f evs ss (Step-IsSingle d e ev s h)

  -- After any events, at most one pass runs: the calls of the work are as many as have ended, and
  -- one more exactly where a drain is in flight.
  pub one_pass_at_a_time :
      (delay_ms : ℤ) (evs : List (Event T)) (d : Debounced T)
      → Steps (new_debounced delay_ms) evs d
      → d.tail.started ≡ d.tail.ended + running d.tail.inflight
  unfolding new_debounced
  one_pass_at_a_time delay_ms evs d ss =
      Steps-IsSingle (new_debounced delay_ms) d evs ss (omega arith)
