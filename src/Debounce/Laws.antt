-- ===== src/Debounce/Laws.antt =====
-- What a burst of changes comes to.
use home_stock.Common.{
  ℕ, ◌+◌, ◌≤◌, ◌<◌, ◌≡◌, refl, ap, ◌∙◌, none, some, true, false, List, [], ◌∷◌, All, leb, arith,
}
use home_stock.Debounce.{Debounce, changed, first_render, fire, tick, burst}

module _ {A : Type 0} (delay : ℕ) where
  -- The last value of a burst, and when it comes.
  abbrev last_value : A → List (A × ℕ) → A
  last_value v [] = v
  last_value v ((w, gap) ∷ rest) = last_value w rest

  abbrev end_time : ℕ → List (A × ℕ) → ℕ
  end_time now [] = now
  end_time now ((w, gap) ∷ rest) = end_time (now + gap) rest

  abbrev pending : A → A → ℕ → Debounce A
  pending x v due = record { debounced = x; timer = some (v, due) }

  tick_early : (now due : ℕ) (x v : A) → now < due → tick now (pending x v due) ≡ pending x v due
  unfolding tick fire
  tick_early now due x v h = let early : leb due now ≡ false = ground arith in rw early refl

  tick_due :
      (now due : ℕ) (x v : A)
      → due ≤ now
      → tick now (pending x v due) ≡ record { debounced = v; timer = none }
  unfolding tick fire
  tick_due now due x v h = let late : leb due now ≡ true = ground arith in rw late refl

  burst-pending :
      (now : ℕ) (rest : List (A × ℕ)) (x v : A)
      → All (λ (w, gap). gap < delay) rest
      → burst delay now rest (pending x v (now + delay))
        ≡ pending x (last_value v rest) (end_time now rest + delay)
  unfolding burst changed
  burst-pending now [] x v h = refl
  burst-pending now ((w, gap) ∷ rest) x v (short, h) =
      rw (tick_early (now + gap) (now + delay) x v (omega arith))
        (burst-pending (now + gap) rest x w h)

  -- After the first render, changes come that each follow the one before within the delay. Until
  -- the delay has passed after the last of them, the debounced value is the first one; from then on
  -- it is the last one.
  tick-burst :
      (now : ℕ) (first : A) (changes : List (A × ℕ)) (time : ℕ)
      → All (λ (w, gap). gap < delay) changes
      → (time < end_time now changes + delay
          → (tick time (burst delay now changes (first_render delay first now))).debounced ≡ first)
        × (end_time now changes + delay ≤ time
            → (tick time (burst delay now changes (first_render delay first now))).debounced
              ≡ last_value first changes)
  unfolding first_render changed
  tick-burst now first changes time short =
      let ends = burst-pending now changes first first short in
      (
        λ early.
            ap (λ d. (tick time d).debounced) ends
            ∙ ap (λ (d : Debounce A). d.debounced) (tick_early time _ first _ early),
        λ late.
            ap (λ d. (tick time d).debounced) ends
            ∙ ap (λ (d : Debounce A). d.debounced) (tick_due time _ first _ late),
      )
