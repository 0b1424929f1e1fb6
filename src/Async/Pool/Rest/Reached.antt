-- ===== src/Async/Pool/Rest/Reached.antt =====
-- What holds of every reachable configuration in which no handler waits.
use home_stock.Common.{◌≡◌, inl, inr, ◌⊎◌, List, [], ◌∷◌, Option-cases}
use home_stock.Async.{Task}
use home_stock.Async.Pool.{
  Config, pick, answer, Component, fire, Step, event, reply, Reach, here, next,
}
use home_stock.Async.Pool.Waiting.{pick-All}
use home_stock.Async.Pool.Rest.{
  Brings, Restores, IsSafe, OneBrings, IsResting, settle-Brings, settle-Restores, pick-OneBrings,
  answered-IsResting,
}

module _ {S : Type 0} (Q : S → Type 0) where
  module _ {E : Type 0} (component : Component S E) where
    -- What an event changes and starts keeps Q, or what it starts brings Q.
    abbrev pub Rests : Type 0
    Rests =
        (s : S) (e : E)
        → component.Offered s e
        → ((Q s → Q ((component.react s e).change s)) × Restores Q (component.react s e).task)
          ⊎ Brings Q (component.react s e).task ((component.react s e).change s)

    Step-IsResting : Rests → {c d : Config S} → IsResting Q c → Step component c d → IsResting Q d
    unfolding fire answer
    Step-IsResting reacts {c} h (event e offered) = elim (reacts c.state e offered) [
      | inl (keeps, restores) ↦
          settle-Restores Q _ _ c.waiting restores h.tasks
            (elim h.rest [ inl q ↦ inl (keeps q) | inr q ↦ inr q ])
      | inr brings ↦ settle-Brings Q _ _ c.waiting brings h.tasks
    ]
    Step-IsResting reacts {c} h (reply i replies) = elim (Option-cases (pick i c.waiting)) [
      | inl missing ↦ rw (missing, answer) h
      | inr ((t, ts), found) ↦
          let (task, others) = pick-All (IsSafe Q) i c.waiting t ts found h.tasks in
          rw (found, answer)
            (answered-IsResting Q replies t c.state ts task others (elim h.rest [
              | inl q ↦ inl q
              | inr q ↦ inr (pick-OneBrings Q i c.waiting t ts found q)
            ]))
    ]

    pub Reach-IsResting :
        Rests → {c d : Config S} → IsResting Q c → Reach component c d → IsResting Q d
    Reach-IsResting reacts h here = h
    Reach-IsResting reacts h (next r st) = Step-IsResting reacts (Reach-IsResting reacts h r) st

    rest_drained : (s : S) (ws : List (Task S)) → ws ≡ [] → Q s ⊎ OneBrings Q ws → Q s
    rest_drained s ws e (inl q) = q
    rest_drained s [] e (inr q) = absurd q
    rest_drained s (w ∷ ws) e (inr q) = cc

    -- From a state where Q holds, it holds whenever no handler waits.
    pub Reach-rest :
        Rests
        → (s : S) (d : Config S) → Q s
        → Reach component (record { state = s; waiting = [] }) d
        → d.waiting ≡ []
        → Q d.state
    Reach-rest reacts s d q r e =
        let first : IsResting Q (record { state = s; waiting = [] }) = record {
          tasks = tt;
          rest = inl q;
        } in
        rest_drained d.state d.waiting e (Reach-IsResting reacts first r).rest

    -- Likewise once an event has been handled whose task brings Q, if Q did not hold before.
    pub fire-rest :
        Rests
        → (s : S) (e : E) (d : Config S) → component.Offered s e
        → Q s ⊎ Brings Q (component.react s e).task ((component.react s e).change s)
        → Reach component (fire component (record { state = s; waiting = [] }) e) d
        → d.waiting ≡ []
        → Q d.state
    unfolding fire
    fire-rest reacts s e d offered (inl q) r empty =
        let first : IsResting Q (record { state = s; waiting = [] }) = record {
          tasks = tt;
          rest = inl q;
        } in
        rest_drained d.state d.waiting empty
          (Reach-IsResting reacts (Step-IsResting reacts first (event e offered)) r).rest
    fire-rest reacts s e d offered (inr brings) r empty =
        rest_drained d.state d.waiting empty
          (Reach-IsResting reacts (settle-Brings Q _ _ [] brings tt) r).rest
