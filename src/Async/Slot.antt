-- ===== src/Async/Slot.antt =====
-- The part of a page's state that belongs to one component of it.
use home_stock.Common.{◌≡◌, refl}

pub record Slot (S D : Type 0) : Type 0 where
  pub view : S → D
  pub put : (D → D) → S → S
  pub view-put : (f : D → D) (s : S) → view (put f s) ≡ f (view s)
  pub put-put : (f g : D → D) (s : S) → put f (put g s) ≡ put (λ d. f (g d)) s

-- A component that stands alone.
abbrev pub whole_slot : {S : Type 0} → Slot S S
whole_slot = record {
  view = λ s. s;
  put = λ f s. f s;
  view-put = λ f s. refl;
  put-put = λ f g s. refl;
}
