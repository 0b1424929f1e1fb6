-- ===== src/Inventory/Page/Events/Settled.antt =====
-- web/src/pages/inventory/InventoryPage.tsx when no handler waits.
use home_stock.Common.{ℕ, ◌≡◌, refl, inl, inr, ◌⊎◌, false, none, some, Option, [], Bool-cases}
use home_stock.Js.Text.{Text}
use home_stock.Js.Host.{Host}
use home_stock.Types.{MaterialSummary}
use home_stock.Async.Pool.{Config, Reach}
use home_stock.Async.Pool.Drain.{Replies}
use home_stock.Async.Pool.Rest.{Brings, Restores, done-Restores}
use home_stock.Async.Pool.Rest.Reached.{Rests, Reach-rest}
use home_stock.Async.Pool.Schedule.{Chooses, after, after-drained, after-Reach}
use home_stock.Inventory.Page.{Filters, InventoryPage, reopen_inbound, selected_material}
use home_stock.Inventory.Page.Initial.{initial_page}
use home_stock.Inventory.Page.Events.{
  mounted, search_settled, category_chosen, location_chosen, zero_stock_ticked, refresh_clicked,
  consume_clicked, details_consume, inbound_submitted, edit_submitted, adjust_submitted,
  consume_submitted, expiring_save, expiring_void, same_filters, refilter, consume_selected, react,
  inventory_page,
}
use home_stock.Inventory.Page.Events.Flags.{flags}
use home_stock.Inventory.Page.Events.Submitting.{
  inbound_flag-Rests, edit_flag-Rests, adjust_flag-Rests, consume_flag-Rests,
}
use home_stock.Inventory.Page.Events.Rest.{NotLoading, load_data-Brings}
use home_stock.Inventory.Page.Events.DialogRest.{
  inbound-Restores, edit-Restores, adjust-Restores, consume-Restores, void-Restores, save-Restores,
}

consume_selected-NotLoading :
    (m : Option MaterialSummary) (s : InventoryPage)
    → NotLoading s
    → NotLoading (consume_selected m s)
unfolding consume_selected
consume_selected-NotLoading none s h = h
consume_selected-NotLoading (some m) s h = h

module _ (host : Host) where
  refilter-Rests :
      (f g : Filters) (s : InventoryPage)
      → ((NotLoading s → NotLoading ((refilter host f g).change s))
          × Restores NotLoading (refilter host f g).task)
        ⊎ Brings NotLoading (refilter host f g).task ((refilter host f g).change s)
  unfolding refilter
  refilter-Rests f g s = elim (Bool-cases (same_filters f g)) [
    | inl same ↦ rw same (inl (λ h. h, done-Restores NotLoading))
    | inr changed ↦ rw changed (inr (load_data-Brings host g _))
  ]

  react-Rests : Rests NotLoading (inventory_page host)
  unfolding react reopen_inbound
  react-Rests s mounted offered = inr (load_data-Brings host s.filters s)
  react-Rests s refresh_clicked offered = inr (load_data-Brings host s.filters s)
  react-Rests s (search_settled v) offered = refilter-Rests s.filters _ s
  react-Rests s (category_chosen v) offered = refilter-Rests s.filters _ s
  react-Rests s (location_chosen v) offered = refilter-Rests s.filters _ s
  react-Rests s (zero_stock_ticked b) offered = refilter-Rests s.filters _ s
  react-Rests s (consume_clicked m) offered =
      inl (consume_selected-NotLoading (some m) s, done-Restores NotLoading)
  react-Rests s details_consume offered =
      inl (consume_selected-NotLoading (selected_material s) s, done-Restores NotLoading)
  react-Rests s inbound_submitted offered =
      inl (λ h. h, inbound-Restores host s.filters host.language s.inbound.form)
  react-Rests s edit_submitted offered =
      inl (λ h. h, edit-Restores host s.filters s.editing_lot s.edit.fields)
  react-Rests s adjust_submitted offered =
      inl (λ h. h, adjust-Restores host s.filters s.adjusting_lot s.adjust.fields)
  react-Rests s consume_submitted offered =
      inl (λ h. h, consume-Restores host s.filters s.consuming_material s.consume.fields)
  react-Rests s (expiring_save lot) offered =
      inl (λ h. h, save-Restores host s.filters s.expiring.edit_expire_at lot)
  react-Rests s (expiring_void lot) offered = inl (λ h. h, void-Restores host s.filters lot)
  react-Rests s _ offered = inl (λ h. h, done-Restores NotLoading)

-- The page does not load, and none of its dialogs with a form is submitting.
pub record IsReady (s : InventoryPage) : Type 0 where
  pub loaded : s.loading ≡ false
  pub inbound_free : s.inbound.shell.submitting ≡ false
  pub edit_free : s.edit.shell.submitting ≡ false
  pub adjust_free : s.adjust.shell.submitting ≡ false
  pub consume_free : s.consume.shell.submitting ≡ false

-- When no handler waits, the page is ready for its user.
Reach-IsReady :
    (host : Host) (search : Text) (c : Config InventoryPage)
    → Reach (inventory_page host) (record { state = initial_page host search; waiting = [] }) c
    → c.waiting ≡ []
    → IsReady c.state
unfolding initial_page
Reach-IsReady host search c r e =
    let s = initial_page host search in
    let page = inventory_page host in
    record {
      loaded = Reach-rest NotLoading page (react-Rests host) s c refl r e;
      inbound_free =
          Reach-rest (λ t. (flags t).inbound ≡ false) page (inbound_flag-Rests host) s c refl r e;
      edit_free = Reach-rest (λ t. (flags t).edit ≡ false) page (edit_flag-Rests host) s c refl r e;
      adjust_free =
          Reach-rest (λ t. (flags t).adjust ≡ false) page (adjust_flag-Rests host) s c refl r e;
      consume_free =
          Reach-rest (λ t. (flags t).consume ≡ false) page (consume_flag-Rests host) s c refl r e;
    }

-- From the first render on, whatever the user has done on the inventory page and in its dialogs and
-- whatever replies have come in whatever order: when a scheduler lets waiting handlers go on as long
-- as there is one, with whatever replies, then after finitely many replies no handler waits, the
-- page is not loading, and none of the four dialogs with a form is submitting.
pub inventory_page-rest :
    (host : Host) (search : Text) (c : Config InventoryPage) (choose : Config InventoryPage → ℕ)
    (replies : Config InventoryPage → Replies)
    → Reach (inventory_page host) (record { state = initial_page host search; waiting = [] }) c
    → Chooses choose replies
    → (n : ℕ) × ((after choose replies n c).waiting ≡ []) × IsReady (after choose replies n c).state
inventory_page-rest host search c choose replies r chooses =
    let (n, e) = after-drained choose replies chooses c in
    let later = after-Reach choose replies (inventory_page host) n r in
    (n, e, Reach-IsReady host search (after choose replies n c) later e)
