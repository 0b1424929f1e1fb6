-- ===== src/Async/Pool.antt =====
-- A component at work: its state and the handlers that wait for replies. A step is an event, which
-- changes the state and may start a handler, or a reply to a handler that waits, in any order; a
-- handler runs from one wait to the next without interruption.
pub mod Waiting
pub mod Keeps
pub mod Calls
pub mod Drain
pub mod Rest
pub mod Schedule
use mathlib.Core.Option
use home_stock.Common.{ℕ, zero, suc, Option, none, some, List, [], ◌∷◌, ◌++◌}
use home_stock.Js.Outcome.{Outcome}
use home_stock.Api.{Call, Reply}
use home_stock.Async.{Task}

pub record Reaction (S : Type 0) : Type 0 where
  pub change : S → S
  pub task : Task S

pub record Config (S : Type 0) : Type 0 where
  pub state : S
  pub waiting : List (Task S)

module _ {S : Type 0} where
  -- Run a task until it waits; what it has started, and it itself, may be left waiting.
  unfoldable pub settle : Task S → S → List (Task S) → Config S
  settle Task.done s ws = record { state = s; waiting = ws }
  settle (Task.set f t) s ws = settle t (f s) ws
  settle (Task.get k) s ws = settle (k s) s ws
  settle (Task.await c k) s ws = record { state = s; waiting = ws ++ Task.await c k ∷ [] }
  settle (Task.spawn u t) s ws = let first = settle u s ws in settle t first.state first.waiting

  unfoldable pub pick : ℕ → List (Task S) → Option (Task S × List (Task S))
  pick i [] = none
  pick zero (t ∷ ts) = some (t, ts)
  pick (suc i) (t ∷ ts) = Option.map (λ (u, us). (u, t ∷ us)) (pick i ts)

  -- The reply to the call that the task waits for.
  unfoldable pub resume : ((c : Call) → Outcome (Reply c)) → Task S → Task S
  resume replies (Task.await c k) = k (replies c)
  resume replies t = t

  -- The i-th of the waiting tasks gets its reply, and goes on until it waits again.
  unfoldable pub answer : Config S → ℕ → ((c : Call) → Outcome (Reply c)) → Config S
  unfolding pick resume settle
  answer c i replies = elim (pick i c.waiting) [
    | none ↦ c
    | some (t, ts) ↦ settle (resume replies t) c.state ts
  ]

-- The events that a state offers, and what they do.
pub record Component (S E : Type 0) : Type 1 where
  pub Offered : S → E → Type 0
  pub react : S → E → Reaction S

module _ {S E : Type 0} (component : Component S E) where
  unfoldable pub fire : Config S → E → Config S
  unfolding settle
  fire c e = let r = component.react c.state e in settle r.task (r.change c.state) c.waiting

  pub data Step (c : Config S) : Config S → Type 0 where
    event : (e : E) → component.Offered c.state e → Step c (fire c e)
    reply : (i : ℕ) (replies : (call : Call) → Outcome (Reply call)) → Step c (answer c i replies)

  pub data Reach (c : Config S) : Config S → Type 0 where
    here : Reach c c
    next : {d e : Config S} → Reach c d → Step d e → Reach c e
