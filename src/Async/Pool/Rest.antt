-- ===== src/Async/Pool/Rest.antt =====
-- What holds of a component when no handler waits.
pub mod Finally
pub mod Reached
use mathlib.Core.Option.{some-injective}
use home_stock.Common.{
  arith, some, subst, ℕ, zero, suc, ◌≡◌, inl, inr, ◌⊎◌, List, [], ◌∷◌, ◌++◌, All, All-append,
  Option-cases,
}
use home_stock.Js.Outcome.{Outcome}
use home_stock.Api.{Reply}
use home_stock.Async.{Task}
use home_stock.Async.Pool.{
  Config, settle, pick, resume, answer, Component, fire, Step, event, reply, Reach, here, next,
}
use home_stock.Async.Pool.Waiting.{pick-All}
use home_stock.Async.Pool.Keeps.{TaskKeeps}
use home_stock.Async.Pool.Drain.{Replies}

module _ {S : Type 0} (Q : S → Type 0) where
  -- Where the task ends, Q holds. A task that it starts brings Q likewise, or keeps it.
  unfoldable pub Brings : Task S → S → Type 0
  Brings Task.done s = Q s
  Brings (Task.set f t) s = Brings t (f s)
  Brings (Task.get k) s = Brings (k s) s
  Brings (Task.await c k) s = (r : Outcome (Reply c)) (u : S) → Brings (k r) u
  Brings (Task.spawn u t) s = (((v : S) → Brings u v) ⊎ TaskKeeps Q u) × ((v : S) → Brings t v)

  -- Every update of the task keeps Q, unless the task from there on brings Q.
  unfoldable pub Restores : Task S → Type 0
  Restores Task.done = Unit
  Restores (Task.set f t) = (((s : S) → Q s → Q (f s)) × Restores t) ⊎ ((s : S) → Brings t (f s))
  Restores (Task.get k) = (s : S) → Restores (k s)
  Restores (Task.await c k) = (r : Outcome (Reply c)) → Restores (k r)
  Restores (Task.spawn u t) = Restores u × Restores t

  pub TaskKeeps-Restores : (t : Task S) → TaskKeeps Q t → Restores t
  unfolding Restores TaskKeeps
  TaskKeeps-Restores Task.done h = tt
  TaskKeeps-Restores (Task.set f t) h = inl (h.0, TaskKeeps-Restores t h.1)
  TaskKeeps-Restores (Task.get k) h = λ s. TaskKeeps-Restores (k s) (h s)
  TaskKeeps-Restores (Task.await c k) h = λ r. TaskKeeps-Restores (k r) (h r)
  TaskKeeps-Restores (Task.spawn u t) h = (TaskKeeps-Restores u h.0, TaskKeeps-Restores t h.1)

  pub done-Restores : Restores Task.done
  unfolding Restores
  done-Restores = tt

  abbrev pub WillBring : Task S → Type 0
  WillBring t = (s : S) → Brings t s

  abbrev pub IsSafe : Task S → Type 0
  IsSafe t = WillBring t ⊎ Restores t

  abbrev pub OneBrings : List (Task S) → Type 0
  OneBrings [] = ⊥
  OneBrings (t ∷ ts) = WillBring t ⊎ OneBrings ts

  OneBrings-append : (ws us : List (Task S)) → OneBrings ws → OneBrings (ws ++ us)
  OneBrings-append [] us h = elim h [ ]
  OneBrings-append (w ∷ ws) us (inl h) = inl h
  OneBrings-append (w ∷ ws) us (inr h) = inr (OneBrings-append ws us h)

  OneBrings-last : (ws : List (Task S)) (t : Task S) → WillBring t → OneBrings (ws ++ t ∷ [])
  OneBrings-last [] t h = inl h
  OneBrings-last (w ∷ ws) t h = inr (OneBrings-last ws t h)

  -- Each handler that waits brings Q or keeps it, and Q holds unless one that waits will bring it.
  pub record IsResting (c : Config S) : Type 0 where
    pub tasks : All IsSafe c.waiting
    pub rest : Q c.state ⊎ OneBrings c.waiting

  settle-IsSafe :
      (t : Task S) (s : S) (ws : List (Task S))
      → TaskKeeps Q t
      → All IsSafe ws
      → All IsSafe (settle t s ws).waiting
  unfolding settle TaskKeeps Restores
  settle-IsSafe Task.done s ws h a = a
  settle-IsSafe (Task.set f t) s ws h a = settle-IsSafe t (f s) ws h.1 a
  settle-IsSafe (Task.get k) s ws h a = settle-IsSafe (k s) s ws (h s) a
  settle-IsSafe (Task.await c k) s ws h a =
      All-append IsSafe ws _ a (inr (λ r. TaskKeeps-Restores (k r) (h r)), tt)
  settle-IsSafe (Task.spawn u t) s ws h a = settle-IsSafe t _ _ h.1 (settle-IsSafe u s ws h.0 a)

  pub settle-Brings :
      (t : Task S) (s : S) (ws : List (Task S))
      → Brings t s
      → All IsSafe ws
      → IsResting (settle t s ws)
  unfolding settle Brings
  settle-Brings Task.done s ws h a = record { tasks = a; rest = inl h }
  settle-Brings (Task.set f t) s ws h a = settle-Brings t (f s) ws h a
  settle-Brings (Task.get k) s ws h a = settle-Brings (k s) s ws h a
  settle-Brings (Task.await c k) s ws h a = record {
    tasks = All-append IsSafe ws _ a (inl (λ v. h), tt);
    rest = inr (OneBrings-last ws (Task.await c k) (λ v. h));
  }
  settle-Brings (Task.spawn u t) s ws (inl brings, h) a =
      settle-Brings t _ _ (h _) (settle-Brings u s ws (brings s) a).tasks
  settle-Brings (Task.spawn u t) s ws (inr keeps, h) a =
      settle-Brings t _ _ (h _) (settle-IsSafe u s ws keeps a)

  await-rest :
      (s : S) (ws : List (Task S)) (t : Task S)
      → Q s ⊎ OneBrings ws
      → Q s ⊎ OneBrings (ws ++ t ∷ [])
  await-rest s ws t (inl h) = inl h
  await-rest s ws t (inr h) = inr (OneBrings-append ws (t ∷ []) h)

  pub settle-Restores :
      (t : Task S) (s : S) (ws : List (Task S))
      → Restores t
      → All IsSafe ws
      → Q s ⊎ OneBrings ws
      → IsResting (settle t s ws)
  unfolding settle Restores
  settle-Restores Task.done s ws h a q = record { tasks = a; rest = q }
  settle-Restores (Task.set f t) s ws (inl (keeps, h)) a (inl q) =
      settle-Restores t (f s) ws h a (inl (keeps s q))
  settle-Restores (Task.set f t) s ws (inl (keeps, h)) a (inr q) =
      settle-Restores t (f s) ws h a (inr q)
  settle-Restores (Task.set f t) s ws (inr brings) a q = settle-Brings t (f s) ws (brings s) a
  settle-Restores (Task.get k) s ws h a q = settle-Restores (k s) s ws (h s) a q
  settle-Restores (Task.await c k) s ws h a q = record {
    tasks = All-append IsSafe ws _ a (inr h, tt);
    rest = await-rest s ws (Task.await c k) q;
  }
  settle-Restores (Task.spawn u t) s ws h a q =
      let first = settle-Restores u s ws h.0 a q in settle-Restores t _ _ h.1 first.tasks first.rest

  resume-Brings :
      (replies : Replies) (t : Task S) (s : S) → WillBring t → Brings (resume replies t) s
  unfolding resume Brings
  resume-Brings replies (Task.await c k) s h = h s (replies c) s
  resume-Brings replies _ s h = h s

  resume-Restores : (replies : Replies) (t : Task S) → Restores t → Restores (resume replies t)
  unfolding resume Restores
  resume-Restores replies (Task.await c k) h = h (replies c)
  resume-Restores replies _ h = h

  -- The one that brings Q is picked, or is left.
  pub pick-OneBrings :
      (i : ℕ) (ts : List (Task S)) (t : Task S) (us : List (Task S))
      → pick i ts ≡ some (t, us)
      → OneBrings ts
      → WillBring t ⊎ OneBrings us
  unfolding pick
  pick-OneBrings i [] t us e h = cc
  pick-OneBrings zero (u ∷ ts) t us e h =
      subst (λ (p : Task S × List (Task S)). WillBring p.0 ⊎ OneBrings p.1)
        (some-injective {A = Task S × List (Task S)} (u, ts) (t, us) e) h
  pick-OneBrings (suc i) (u ∷ ts) t us e h = elim (Option-cases (pick i ts)) [
    | inl missing ↦ absurd (ground arith)
    | inr ((v, vs), found) ↦
        let e' : some (v, u ∷ vs) ≡ some (t, us) = rw (found, pick) at e in
        subst (λ (p : Task S × List (Task S)). WillBring p.0 ⊎ OneBrings p.1)
          (some-injective {A = Task S × List (Task S)} (v, u ∷ vs) (t, us) e')
          (elim h [
            | inl first ↦ inr (inl first)
            | inr behind ↦ elim (pick-OneBrings i ts v vs found behind) [
              | inl picked ↦ inl picked
              | inr left ↦ inr (inr left)
            ]
          ])
  ]

  pub answered-IsResting :
      (replies : Replies) (t : Task S) (s : S) (ts : List (Task S))
      → IsSafe t
      → All IsSafe ts
      → Q s ⊎ (WillBring t ⊎ OneBrings ts)
      → IsResting (settle (resume replies t) s ts)
  answered-IsResting replies t s ts (inl brings) a q =
      settle-Brings _ s ts (resume-Brings replies t s brings) a
  answered-IsResting replies t s ts (inr restores) a (inl q) =
      settle-Restores _ s ts (resume-Restores replies t restores) a (inl q)
  answered-IsResting replies t s ts (inr restores) a (inr (inl brings)) =
      settle-Brings _ s ts (resume-Brings replies t s brings) a
  answered-IsResting replies t s ts (inr restores) a (inr (inr q)) =
      settle-Restores _ s ts (resume-Restores replies t restores) a (inr q)
