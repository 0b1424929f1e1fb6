-- ===== src/Inventory/AdjustLotDialog/View.antt =====
-- What the dialog of web/src/pages/inventory/AdjustLotDialog.tsx shows while it is open.
use home_stock.Common.{Option, none, some, Bool, true, false, ◌||◌, [], ◌∷◌}
use home_stock.Js.Text.{Text, or_none}
use home_stock.Js.Host.{Host}
use home_stock.Types.{StockLot}
use home_stock.Ui.{input, FormView, submit_text}
use home_stock.Inventory.AdjustLotDialog.{AdjustLotDialog}

unfoldable pub description : Host → Option StockLot → Text
description host none = host.translate "adjustLot_descEmpty"
description host (some lot) =
    host.translate_with "adjustLot_descCurrent"
      (("quantity", host.text_of lot.quantity_on_hand) ∷ ("unit", lot.unit) ∷ [])

-- `!lot`
abbrev pub is_missing : {A : Type 0} → Option A → Bool
is_missing none = true
is_missing (some x) = false

unfoldable pub adjust_view : Host → Option StockLot → AdjustLotDialog → FormView
unfolding description
adjust_view host lot d = record {
  title = host.translate "adjustLot_title";
  description = some (description host lot);
  controls =
      input (host.translate "adjustLot_labelTargetQuantity") d.fields.target_quantity none
      ∷ input (host.translate "adjustLot_labelReason") d.fields.reason
          (some (host.translate "adjustLot_placeholderReason"))
      ∷ input (host.translate "adjustLot_labelRemark") d.fields.remark
          (some (host.translate "adjustLot_placeholderRemark"))
      ∷ [];
  notice = none;
  error = or_none d.shell.error;
  cancel_disabled = d.shell.submitting;
  submit_disabled = d.shell.submitting || is_missing lot;
  submit_label =
      submit_text d.shell.submitting (host.translate "adjustLot_btnSubmitting")
        (host.translate "adjustLot_btnSubmit");
}
