-- ===== src/Client/Coalesce.antt =====
-- web/src/coalesce.ts: `CoalesceTail` and `Debounced`.
-- The work is a call that leaves at its first await, as an async function does. An await that
-- resumes is an event of its own, and all that runs between two awaits is one step.
pub mod Steps
pub mod Served
pub mod Rest
use diplomatic.Base.{Bool, List, Option, [], false, if◌then◌else◌, none, some, suc, true, ℕ, ◌∷◌}
use diplomatic.Base.Int.{leb_ℤ, ltb_ℤ, pos, ℤ}

-- What a promise settles with.
pub data Settlement (T : Type 0) : Type 0 where
  fulfilled : T → Settlement T
  rejected : Settlement T

-- A promise is its number. `started` and `ended` count the calls of `work` and their ends.
pub record Tail (T : Type 0) : Type 0 where
  pub inflight : Option ℕ
  pub again : Bool
  pub promises : ℕ
  pub settled : List (ℕ × Settlement T)
  pub started : ℕ
  pub ended : ℕ

module _ {T : Type 0} where
  abbrev new_tail : Tail T
  new_tail = record {
    inflight = none;
    again = false;
    promises = 0;
    settled = [];
    started = 0;
    ended = 0;
  }

  -- `this.again = false; await work();`
  abbrev start_pass : Tail T → Tail T
  start_pass t = record t { again = false; started = suc t.started }

  -- `drain` up to its first await, and its promise.
  abbrev drain : Tail T → Tail T
  drain t = start_pass (record t { inflight = some t.promises; promises = suc t.promises })

  -- `this.again = true;`, then the promise in flight or that of a new drain.
  join : Option ℕ → Tail T → Tail T
  join none t = drain t
  join (some p) t = t

  -- `CoalesceTail.run`, which returns `inflight` of the object that it leaves.
  pub run : Tail T → Tail T
  unfolding join
  run t = join t.inflight (record t { again = true })

  -- `finally { this.inflight = null; }`, and the promise settles.
  abbrev settle : ℕ → Settlement T → Tail T → Tail T
  settle p r t = record t { inflight = none; settled = (p, r) ∷ t.settled }

  after_pass : ℕ → Settlement T → Tail T → Tail T
  after_pass p (fulfilled v) t = if t.again then start_pass t else settle p (fulfilled v) t
  after_pass p rejected t = settle p rejected t

  -- `drain` from the await of a pass to the next await or to its end.
  pub resume : ℕ → Settlement T → Tail T → Tail T
  unfolding after_pass
  resume p r t = after_pass p r (record t { ended = suc t.ended })

-- `timer` is set while a timeout is pending.
pub record Debounced (T : Type 0) : Type 0 where
  pub timer : Bool
  pub delay_ms : ℤ
  pub tail : Tail T

module _ {T : Type 0} where
  pub new_debounced : ℤ → Debounced T
  new_debounced delay_ms = record {
    timer = false;
    delay_ms = if ltb_ℤ delay_ms (pos 0) then pos 0 else delay_ms;
    tail = new_tail;
  }

  abbrev fire : Debounced T → Debounced T
  fire d = record d { tail = run d.tail }

  pub schedule : Debounced T → Debounced T
  schedule d = if leb_ℤ d.delay_ms (pos 0) then fire d else record d { timer = true }

  -- The callback of the timeout.
  pub elapse : Debounced T → Debounced T
  elapse d = fire (record d { timer = false })

  -- `flush` up to its await.
  pub flush : Debounced T → Debounced T
  flush d = if d.timer then fire (record d { timer = false }) else d

  pub cancel : Debounced T → Debounced T
  cancel d = if d.timer then record d { timer = false } else d
