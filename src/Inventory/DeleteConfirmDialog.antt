-- ===== src/Inventory/DeleteConfirmDialog.antt =====
-- web/src/pages/inventory/DeleteConfirmDialog.tsx, which no page uses: its handler and what it shows.
use home_stock.Common.{Bool, true, false, [], ◌∷◌}
use home_stock.Js.Text.{Text}
use home_stock.Js.Host.{Host}
use home_stock.Async.{Async, ◌>>◌, finally, update}
use home_stock.Async.Slot.{Slot}
use home_stock.Ui.{submit_text}

-- `onConfirm` and `onClose` are the arguments `on_confirm` and `on_close`; what the first throws is
-- thrown on.
module _ {S : Type 0} (slot : Slot S Bool) where
  unfoldable pub handle_confirm : Async S (Unit {0}) → (S → S) → Async S (Unit {0})
  handle_confirm on_confirm on_close = do
    update (slot.put λ deleting. true)
    finally (do on_confirm; update on_close) (slot.put λ deleting. false)

pub record DeleteConfirmView : Type 0 where
  pub title : Text
  pub description : Text
  pub is_disabled : Bool
  pub confirm_label : Text

unfoldable pub delete_confirm_view : Host → Text → Bool → DeleteConfirmView
delete_confirm_view host item_name deleting = record {
  title = host.translate "deleteConfirm_title";
  description = host.translate_with "deleteConfirm_description" (("name", item_name) ∷ []);
  is_disabled = deleting;
  confirm_label =
      submit_text deleting (host.translate "deleteConfirm_btnDeleting")
        (host.translate "deleteConfirm_btnConfirm");
}
