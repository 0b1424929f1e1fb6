-- ===== src/Settings/CategorySection/Events/Settled.antt =====
-- web/src/pages/settings/CategorySection.tsx when no handler waits.
use home_stock.Common.{ℕ, ◌≡◌, refl, inl, inr, none, false, [], Bool-cases}
use home_stock.Js.Text.{Text, eq_text}
use home_stock.Js.Host.{Host}
use home_stock.Types.{Category}
use home_stock.Async.{to_task}
use home_stock.Async.Pool.{Config, Reach, fire}
use home_stock.Async.Pool.Drain.{Replies}
use home_stock.Async.Pool.Keeps.{keep_rules}
use home_stock.Async.Pool.Rest.{Brings}
use home_stock.Async.Pool.Rest.Reached.{Rests, fire-rest}
use home_stock.Async.Pool.Rest.Finally.{finally-Brings}
use home_stock.Async.Pool.Schedule.{Chooses, after, after-drained, after-Reach}
use home_stock.Settings.CategorySection.{CategorySection, fetch_categories}
use home_stock.Settings.CategorySection.View.{CategoryRow, edited, named, is_id, category_row}
use home_stock.Settings.CategorySection.Events.{mounted, react, initial, category_section}
use home_stock.Settings.CategorySection.Events.Rest.{react-Rests}

module _ (host : Host) where
  loading-Rests : Rests (λ s. s.loading ≡ false) (category_section host)
  loading-Rests =
      react-Rests (λ x. x.loading ≡ false) (λ s q. refl) (inl (λ s q. q, λ s q. q))
        (λ id. inl (λ s q. q, λ s q. q)) (λ id. inl (λ s q. q, λ s q. q)) host

  adding-Rests : Rests (λ s. s.adding ≡ false) (category_section host)
  adding-Rests =
      react-Rests (λ x. x.adding ≡ false) (λ s q. q) (inr (λ s. refl))
        (λ id. inl (λ s q. q, λ s q. q)) (λ id. inl (λ s q. q, λ s q. q)) host

  deleting-Rests : Rests (λ s. s.deleting_id ≡ none) (category_section host)
  deleting-Rests =
      react-Rests (λ x. x.deleting_id ≡ none) (λ s q. q) (inl (λ s q. q, λ s q. q))
        (λ id. inl (λ s q. q, λ s q. q)) (λ id. inr (λ s. refl)) host

  saving-Rests : (k : Text) → Rests (λ s. s.saving_edit k ≡ false) (category_section host)
  saving-Rests k =
      react-Rests (λ x. x.saving_edit k ≡ false) (λ s q. q) (inl (λ s q. q, λ s q. q))
        (λ id. elim (Bool-cases (eq_text k id)) [
          | inl same ↦ inr (λ s. rw same refl)
          | inr other ↦ inl (λ s q. rw other q, λ s q. rw other q)
        ])
        (λ id. inl (λ s q. q, λ s q. q)) host

  fetch_categories-Brings :
      (s : CategorySection) → Brings (λ t. t.loading ≡ false) (to_task (fetch_categories host)) s
  unfolding fetch_categories
  fetch_categories-Brings s =
      finally-Brings (λ t. t.loading ≡ false) _ _ (search keep_rules depth 12) (λ t. refl) s

-- The button that saves a category, or deletes it, is not disabled.
abbrev pub IsUsable : CategoryRow → Type 0
IsUsable (edited id value save_disabled) = save_disabled ≡ false
IsUsable (named id name delete_disabled) = delete_disabled ≡ false

category_row-IsUsable :
    (s : CategorySection) (cat : Category)
    → s.saving_edit cat.id ≡ false
    → s.deleting_id ≡ none
    → IsUsable (category_row s cat)
unfolding category_row
category_row-IsUsable s cat saved deleted = elim (Bool-cases (is_id cat.id s.editing_id)) [
  | inl editing ↦ rw editing saved
  | inr other ↦ rw (other, deleted) refl
]

-- The section has loaded, nothing is being added, and each category's row can be used.
pub record IsIdle (s : CategorySection) : Type 0 where
  pub loaded : s.loading ≡ false
  pub free : s.adding ≡ false
  pub rows : (cat : Category) → IsUsable (category_row s cat)

-- The section as soon as it is open, waiting for its categories.
abbrev pub opened : Host → Config CategorySection
opened host = fire (category_section host) (record { state = initial; waiting = [] }) mounted

Reach-IsIdle :
    (host : Host) (c : Config CategorySection)
    → Reach (category_section host) (opened host) c
    → c.waiting ≡ []
    → IsIdle c.state
unfolding react
Reach-IsIdle host c r e = record {
  loaded =
      fire-rest (λ s. s.loading ≡ false) (category_section host) (loading-Rests host) initial
        mounted c tt (inr (fetch_categories-Brings host initial)) r e;
  free =
      fire-rest (λ s. s.adding ≡ false) (category_section host) (adding-Rests host) initial mounted
        c tt (inl refl) r e;
  rows = λ cat.
      category_row-IsUsable c.state cat
        (fire-rest (λ s. s.saving_edit cat.id ≡ false) (category_section host)
          (saving-Rests host cat.id) initial mounted c tt (inl refl) r e)
        (fire-rest (λ s. s.deleting_id ≡ none) (category_section host) (deleting-Rests host) initial
          mounted c tt (inl refl) r e);
}

-- Once the section of the categories is open, whatever the user has done in it and whatever replies
-- have come in whatever order: when a scheduler lets waiting handlers go on as long as there is one,
-- with whatever replies, then after finitely many replies no handler waits, the section has loaded,
-- nothing is being added, and in each category's row the button that saves or deletes it is
-- enabled.
pub category_section-rest :
    (host : Host) (c : Config CategorySection) (choose : Config CategorySection → ℕ)
    (replies : Config CategorySection → Replies)
    → Reach (category_section host) (opened host) c
    → Chooses choose replies
    → (n : ℕ) × ((after choose replies n c).waiting ≡ []) × IsIdle (after choose replies n c).state
category_section-rest host c choose replies r chooses =
    let (n, e) = after-drained choose replies chooses c in
    let later = after-Reach choose replies (category_section host) n r in
    (n, e, Reach-IsIdle host (after choose replies n c) later e)
