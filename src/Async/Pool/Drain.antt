-- ===== src/Async/Pool/Drain.antt =====
-- How many replies can come before no handler waits.
use mathlib.Core.WellFounded.{Acc}
use home_stock.Common.{
  ℕ, zero, suc, ◌<◌, arith, ◌≡◌, refl, sym, ap, subst, some, inl, inr, ◌⊎◌, List, [], ◌∷◌, ◌++◌,
  length,
}
use home_stock.Js.Outcome.{Outcome}
use home_stock.Api.{Call, Reply}
use home_stock.Async.{Task}
use home_stock.Async.Pool.{Config, settle, pick, resume, answer}

-- The replies that the server would give to the calls.
abbrev pub Replies : Type 0
Replies = (c : Call) → Outcome (Reply c)

module _ {S : Type 0} where
  -- ys is xs with t at some place.
  data Among (t : Task S) : List (Task S) → List (Task S) → Type 0 where
    first : {xs : List (Task S)} → Among t xs (t ∷ xs)
    later : {x : Task S} {xs ys : List (Task S)} → Among t xs ys → Among t (x ∷ xs) (x ∷ ys)

  -- However the state changes between the replies and in whatever order they come, there are only
  -- finitely many.
  data Drains : List (Task S) → Type 0 where
    drains :
        {ws : List (Task S)}
        → ((t : Task S) (xs : List (Task S)) (s : S) (replies : Replies)
            → Among t xs ws
            → Drains (settle (resume replies t) s xs).waiting)
        → Drains ws

  Among-append :
      (t : Task S) {xs ys : List (Task S)} (zs : List (Task S))
      → Among t xs ys
      → Among t (xs ++ zs) (ys ++ zs)
  Among-append t zs first = first
  Among-append t zs (later a) = later (Among-append t zs a)

  Among-nil : {t : Task S} {xs : List (Task S)} → Among t xs [] → ⊥
  Among-nil a = elim a [ ]

  Among-last : (t : Task S) (xs : List (Task S)) → Among t xs (xs ++ t ∷ [])
  Among-last t [] = first
  Among-last t (x ∷ xs) = later (Among-last t xs)

  -- A task that runs does not look at those that wait.
  settle-Among :
      (u t : Task S) (s : S) {xs ys : List (Task S)}
      → Among t xs ys
      → ((settle u s xs).state ≡ (settle u s ys).state)
        × Among t (settle u s xs).waiting (settle u s ys).waiting
  unfolding settle
  settle-Among Task.done t s a = (refl, a)
  settle-Among (Task.set f u) t s a = settle-Among u t (f s) a
  settle-Among (Task.get k) t s a = settle-Among (k s) t s a
  settle-Among (Task.await c k) t s a = (refl, Among-append t _ a)
  settle-Among (Task.spawn v u) t s {xs} {ys} a =
      let (e, b) = settle-Among v t s a in
      subst
        (λ z.
          ((settle u (settle v s xs).state (settle v s xs).waiting).state
            ≡ (settle u z (settle v s ys).waiting).state)
          × Among t (settle u (settle v s xs).state (settle v s xs).waiting).waiting
              (settle u z (settle v s ys).waiting).waiting)
        e (settle-Among u t (settle v s xs).state b)

  -- Of two tasks of one list: they stand at the same place, or each is left when the other is taken.
  abbrev Apart : (t u : Task S) (xs zs : List (Task S)) → Type 0
  Apart t u xs zs = (vs : List (Task S)) × Among t vs zs × Among u vs xs

  Among-split :
      (t u : Task S) {xs zs ys : List (Task S)}
      → Among t xs ys
      → Among u zs ys
      → ((t ≡ u) × (xs ≡ zs)) ⊎ Apart t u xs zs
  Among-split t u first first = inl (refl, refl)
  Among-split t u first (later b) = inr (_, first, b)
  Among-split t u (later a) first = inr (_, a, first)
  Among-split t u (later {x = x} a) (later b) = elim (Among-split t u a b) [
    | inl (e, e') ↦ inl (e, ap (λ vs. x ∷ vs) e')
    | inr (vs, at, au) ↦ inr (x ∷ vs, later at, later au)
  ]

  -- A task may be added to a list that drains, if it may be run beside every such list.
  Among-Drains :
      (t : Task S)
      → ((replies : Replies) (s : S) (xs : List (Task S))
          → Drains xs
          → Drains (settle (resume replies t) s xs).waiting)
      → {xs ys : List (Task S)} → Drains xs
      → Among t xs ys
      → Drains ys
  Among-Drains t runs {xs} (drains h) a = drains λ u zs s replies b. elim (Among-split t u a b) [
    | inl (e, e') ↦
        subst (λ v. Drains (settle (resume replies v) s zs).waiting) e
          (subst (λ vs. Drains (settle (resume replies t) s vs).waiting) e'
            (runs replies s _ (drains h)))
    | inr (vs, at, au) ↦
        Among-Drains t runs (h u vs s replies au) (settle-Among (resume replies u) t s at).1
  ]

  -- A task that is run beside a list that drains leaves one that drains.
  settle-Drains :
      (t : Task S) (s : S) (xs : List (Task S)) → Drains xs → Drains (settle t s xs).waiting
  unfolding settle resume
  settle-Drains Task.done s xs d = d
  settle-Drains (Task.set f t) s xs d = settle-Drains t (f s) xs d
  settle-Drains (Task.get k) s xs d = settle-Drains (k s) s xs d
  settle-Drains (Task.await c k) s xs d =
      Among-Drains (Task.await c k) (λ replies u ys e. settle-Drains (k (replies c)) u ys e) d
        (Among-last (Task.await c k) xs)
  settle-Drains (Task.spawn u t) s xs d =
      settle-Drains t (settle u s xs).state (settle u s xs).waiting (settle-Drains u s xs d)

  resumed-Drains :
      (replies : Replies) (t : Task S) (s : S) (xs : List (Task S))
      → Drains xs
      → Drains (settle (resume replies t) s xs).waiting
  unfolding resume
  resumed-Drains replies (Task.await c k) s xs d = settle-Drains (k (replies c)) s xs d
  resumed-Drains replies Task.done s xs d = settle-Drains Task.done s xs d
  resumed-Drains replies (Task.set f t) s xs d = settle-Drains (Task.set f t) s xs d
  resumed-Drains replies (Task.get k) s xs d = settle-Drains (Task.get k) s xs d
  resumed-Drains replies (Task.spawn u t) s xs d = settle-Drains (Task.spawn u t) s xs d

  all-Drain : (ws : List (Task S)) → Drains ws
  unfolding resume
  all-Drain [] = drains λ t xs s replies a. absurd (Among-nil a)
  all-Drain (t ∷ ts) =
      Among-Drains t (λ replies s xs d. resumed-Drains replies t s xs d) (all-Drain ts) first

  pick-Among :
      (i : ℕ) (ts : List (Task S))
      → i < length ts
      → (t : Task S) × (us : List (Task S)) × (pick i ts ≡ some (t, us)) × Among t us ts
  unfolding pick
  pick-Among i [] h = absurd (omega arith)
  pick-Among zero (t ∷ ts) h = (t, ts, refl, first)
  pick-Among (suc i) (t ∷ ts) h =
      let (u, us, e, a) = pick-Among i ts (omega arith) in (u, t ∷ us, rw e refl, later a)

  -- d is what a reply to one of the handlers that wait in c makes of it, in whatever state it finds
  -- the component.
  abbrev pub Answered : Config S → Config S → Type 0
  Answered d c =
      (i : ℕ) × (replies : Replies) × (s : S) × (i < length c.waiting)
      × (d ≡ answer (record c { state = s }) i replies)

  Drains-Acc : (c : Config S) → Drains c.waiting → Acc Answered c
  unfolding answer
  Drains-Acc c (drains h) = Acc.intro c λ d (i, replies, s, lt, e).
      let (t, us, found, a) = pick-Among i c.waiting lt in
      let e' : d ≡ settle (resume replies t) s us = rw (found, answer) at e in
      subst (Acc Answered) (sym e')
        (Drains-Acc (settle (resume replies t) s us) (h t us s replies a))

  -- Whatever the server replies, in whatever order the replies come and whatever happens to the
  -- state between them, only finitely many come before no handler waits.
  pub Answered-Acc : (c : Config S) → Acc Answered c
  Answered-Acc c = Drains-Acc c (all-Drain c.waiting)
