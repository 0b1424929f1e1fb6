-- ===== src/Inventory/EditLotDialog/View.antt =====
-- What the dialog of web/src/pages/inventory/EditLotDialog.tsx shows while it is open.
use home_stock.Common.{none, [], ◌∷◌}
use home_stock.Js.Text.{or_none}
use home_stock.Js.Host.{Host}
use home_stock.Ui.{input, FormView, submit_text}
use home_stock.Inventory.EditLotDialog.{EditLotDialog}

unfoldable pub edit_view : Host → EditLotDialog → FormView
edit_view host d = record {
  title = host.translate "editLot_title";
  description = none;
  controls =
      input (host.translate "editLot_labelLocation") d.fields.location none
      ∷ input (host.translate "editLot_labelPurchasedAt") d.fields.purchased_at none
      ∷ input (host.translate "editLot_labelExpireAt") d.fields.expire_at none
      ∷ input (host.translate "editLot_labelNotes") d.fields.notes none
      ∷ [];
  notice = none;
  error = or_none d.shell.error;
  cancel_disabled = d.shell.submitting;
  submit_disabled = d.shell.submitting;
  submit_label =
      submit_text d.shell.submitting (host.translate "editLot_btnSubmitting")
        (host.translate "editLot_btnSubmit");
}
