-- ===== src/Async/Pool/Calls.antt =====
-- The calls that a component's handlers make, under every interleaving.
use home_stock.Common.{inl, inr, Option-cases, List, All, All-append}
use home_stock.Js.Outcome.{Outcome}
use home_stock.Api.{Call, Reply}
use home_stock.Async.{Task}
use home_stock.Async.Rules.{TaskCalls}
use home_stock.Async.Pool.Waiting.{pick-All}
use home_stock.Async.Pool.{
  Config, settle, pick, resume, answer, Component, fire, Step, event, reply, Reach, here, next,
}

module _ {S : Type 0} (P : Call → Type 0) where
  -- Whatever replies come, the waiting handlers make only calls that satisfy P.
  abbrev pub WaitingCalls : Config S → Type 0
  WaitingCalls c = All (TaskCalls P) c.waiting

  settle-Calls :
      (t : Task S) (s : S) (ws : List (Task S))
      → TaskCalls P t
      → All (TaskCalls P) ws
      → WaitingCalls (settle t s ws)
  unfolding settle TaskCalls
  settle-Calls Task.done s ws h a = a
  settle-Calls (Task.set f t) s ws h a = settle-Calls t (f s) ws h a
  settle-Calls (Task.get k) s ws h a = settle-Calls (k s) s ws (h s) a
  settle-Calls (Task.await c k) s ws h a = All-append (TaskCalls P) ws _ a (h, tt)
  settle-Calls (Task.spawn u t) s ws h a = settle-Calls t _ _ h.1 (settle-Calls u s ws h.0 a)

  resume-Calls :
      (replies : (c : Call) → Outcome (Reply c)) (t : Task S)
      → TaskCalls P t
      → TaskCalls P (resume replies t)
  unfolding resume TaskCalls
  resume-Calls replies (Task.await c k) h = h.1 (replies c)
  resume-Calls replies _ h = h

  module _ {E : Type 0} (component : Component S E) where
    -- What the events that a state offers start makes only calls that satisfy P.
    abbrev pub ReactsAt : S → Type 0
    ReactsAt s = (e : E) → component.Offered s e → TaskCalls P (component.react s e).task

    Step-Calls :
        {c d : Config S} → ReactsAt c.state → WaitingCalls c → Step component c d → WaitingCalls d
    unfolding fire answer
    Step-Calls {c} reacts h (event e offered) = settle-Calls _ _ c.waiting (reacts e offered) h
    Step-Calls {c} reacts h (reply i replies) = elim (Option-cases (pick i c.waiting)) [
      | inl missing ↦ rw (missing, answer) h
      | inr ((t, ts), found) ↦
          let (task, rest) = pick-All (TaskCalls P) i c.waiting t ts found h in
          rw (found, answer) (settle-Calls _ c.state ts (resume-Calls replies t task) rest)
    ]

    pub Reach-WaitingCalls :
        ((s : S) → ReactsAt s)
        → {c d : Config S} → WaitingCalls c
        → Reach component c d
        → WaitingCalls d
    Reach-WaitingCalls reacts h here = h
    Reach-WaitingCalls reacts h (next {d = d} r st) =
        Step-Calls (reacts d.state) (Reach-WaitingCalls reacts h r) st

    -- It is enough that this is so of the states that an invariant allows.
    pub Reach-WaitingCalls_kept :
        (I : S → Type 0)
        → ((s : S) → I s → ReactsAt s)
        → {c d : Config S} → ((e : Config S) → Reach component c e → I e.state)
        → WaitingCalls c
        → Reach component c d
        → WaitingCalls d
    Reach-WaitingCalls_kept I reacts kept h here = h
    Reach-WaitingCalls_kept I reacts kept h (next {d = d} r st) =
        Step-Calls (reacts d.state (kept d r)) (Reach-WaitingCalls_kept I reacts kept h r) st
