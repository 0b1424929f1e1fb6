-- ===== src/Debounce/Refine.antt =====
-- The timer against a description that knows no timer.
use home_stock.Common.{
  ℕ, ◌+◌, ◌≡◌, refl, ap, ◌∙◌, some, List, [], ◌∷◌, leb, arith, if◌then◌else◌, Bool-cases, inl, inr,
}
use home_stock.Debounce.{Debounce, changed, first_render, fire, tick, burst}

leb-add : (n d e : ℕ) → leb (n + d) (n + e) ≡ leb d e
leb-add n d e = ground arith

module _ {A : Type 0} (delay : ℕ) where
  -- The last value that has stood for the delay, where x is the last of before, v stands now, and
  -- the time that has passed since the last change is `elapsed`.
  abbrev pub last_settled : A → A → List (A × ℕ) → ℕ → A
  last_settled x v [] elapsed = if leb delay elapsed then v else x
  last_settled x v ((w, gap) ∷ rest) elapsed =
      last_settled (if leb delay gap then v else x) w rest elapsed

  abbrev pub total : List (A × ℕ) → ℕ
  total [] = 0
  total ((w, gap) ∷ rest) = gap + total rest

  abbrev pub pending : A → A → ℕ → Debounce A
  pending x v due = record { debounced = x; timer = some (v, due) }

  pub tick-pending :
      (now gap : ℕ) (x v : A)
      → (tick (now + gap) (pending x v (now + delay))).debounced ≡ (if leb delay gap then v else x)
  unfolding tick fire
  tick-pending now gap x v = elim (Bool-cases (leb delay gap)) [
    | inl late ↦ rw (leb-add now delay gap, late) refl
    | inr early ↦ rw (leb-add now delay gap, early) refl
  ]

  pub changed-tick :
      (now gap : ℕ) (x v w : A)
      → changed delay w (now + gap) (tick (now + gap) (pending x v (now + delay)))
        ≡ pending (if leb delay gap then v else x) w (now + gap + delay)
  unfolding changed
  changed-tick now gap x v w = ap (λ y. pending y w (now + gap + delay)) (tick-pending now gap x v)

  tick-last_settled :
      (now elapsed : ℕ) (changes : List (A × ℕ)) (x v : A)
      → (tick
          (now + (total changes + elapsed))
          (burst delay now changes (pending x v (now + delay)))).debounced
        ≡ last_settled x v changes elapsed
  unfolding burst
  tick-last_settled now elapsed [] x v =
      let time : now + (0 + elapsed) ≡ now + elapsed = omega arith in
      rw time (tick-pending now elapsed x v)
  tick-last_settled now elapsed ((w, gap) ∷ rest) x v =
      let time : now + (gap + total rest + elapsed) ≡ now + gap + (total rest + elapsed) =
        omega arith in
      let next = if leb delay gap then v else x in
      ap (λ t. (tick t (burst delay now ((w, gap) ∷ rest) (pending x v (now + delay)))).debounced)
        time
      ∙ ap
          (λ d.
            (tick (now + gap + (total rest + elapsed)) (burst delay (now + gap) rest d)).debounced)
          (changed-tick now gap x v w)
      ∙ tick-last_settled (now + gap) elapsed rest next w

  -- After the first render and any changes, each with the time since the one before it, the
  -- debounced value is at any time the last value that had stood for the delay, or the first one.
  pub burst-last_settled :
      (now : ℕ) (first : A) (changes : List (A × ℕ)) (elapsed : ℕ)
      → (tick
          (now + (total changes + elapsed))
          (burst delay now changes (first_render delay first now))).debounced
        ≡ last_settled first first changes elapsed
  unfolding first_render changed
  burst-last_settled now first changes elapsed = tick-last_settled now elapsed changes first first
