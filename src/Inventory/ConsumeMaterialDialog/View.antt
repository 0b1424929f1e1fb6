-- ===== src/Inventory/ConsumeMaterialDialog/View.antt =====
-- What the dialog of web/src/pages/inventory/ConsumeMaterialDialog.tsx shows while it is open.
use home_stock.Common.{Option, none, some, ◌||◌, [], ◌∷◌, ◌++◌, if◌then◌else◌}
use home_stock.Js.Text.{Text, lit, truthy, or_none}
use home_stock.Js.Host.{Host}
use home_stock.Types.{MaterialSummary}
use home_stock.Ui.{input, FormView, submit_text}
use home_stock.Inventory.ConsumeMaterialDialog.{ConsumeMaterialDialog}
use home_stock.Inventory.AdjustLotDialog.View.{is_missing}

unfoldable pub description : Host → Option MaterialSummary → Text
description host none = host.translate "consume_descEmpty"
description host (some m) =
    host.translate_with "consume_descCurrent"
      (("name", m.name) ∷ ("spec", if truthy m.spec then lit " / " ++ m.spec else []) ∷ [])

-- The line under the quantity.
unfoldable pub current_stock : Host → Option MaterialSummary → Option Text
current_stock host none = none
current_stock host (some m) = some (
    host.translate_with "consume_currentStock"
      (("quantity", host.text_of m.total_quantity) ∷ ("unit", m.default_unit) ∷ []))

unfoldable pub consume_view : Host → Option MaterialSummary → ConsumeMaterialDialog → FormView
unfolding description current_stock
consume_view host material d = record {
  title = host.translate "consume_title";
  description = some (description host material);
  controls =
      input (host.translate "consume_labelQuantity") d.fields.quantity none
      ∷ input (host.translate "common:reason") d.fields.reason
          (some (host.translate "consume_placeholderReason"))
      ∷ [];
  notice = current_stock host material;
  error = or_none d.shell.error;
  cancel_disabled = d.shell.submitting;
  submit_disabled = d.shell.submitting || is_missing material;
  submit_label =
      submit_text d.shell.submitting (host.translate "consume_btnSubmitting")
        (host.translate "consume_btnSubmit");
}
