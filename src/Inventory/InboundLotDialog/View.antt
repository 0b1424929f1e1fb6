-- ===== src/Inventory/InboundLotDialog/View.antt =====
-- What the dialog of web/src/pages/inventory/InboundLotDialog.tsx shows while it is open.
use home_stock.Common.{none, some, List, [], ◌∷◌, map}
use home_stock.Js.Text.{Text, or_none}
use home_stock.Js.Host.{Host}
use home_stock.Types.{Category}
use home_stock.Ui.{Control, input, select, FormView, submit_text}
use home_stock.Inventory.InboundLotDialog.{FormState, InboundLotDialog}

unfoldable pub category_options : List Category → List (Text × Text)
category_options categories = map (λ category. (category.id, category.name)) categories

unfoldable pub controls : Host → List Category → FormState → List Control
unfolding category_options
controls host categories form =
    let t = host.translate in
    input (t "inbound_labelName") form.name (some (t "inbound_placeholderName"))
    ∷ input (t "inbound_labelSpec") form.spec (some (t "inbound_placeholderSpec"))
    ∷ select (t "inbound_labelCategory") form.category_id (t "inbound_placeholderCategory")
        (category_options categories)
    ∷ input (t "inbound_labelLocation") form.location (some (t "inbound_placeholderLocation"))
    ∷ input (t "inbound_labelQuantity") form.quantity none
    ∷ input (t "inbound_labelUnit") form.unit (some (t "inbound_placeholderUnit"))
    ∷ input (t "inbound_labelPurchasedAt") form.purchased_at none
    ∷ input (t "inbound_labelExpireAt") form.expire_at none
    ∷ input (t "inbound_labelNotes") form.notes (some (t "inbound_placeholderNotes"))
    ∷ []

unfoldable pub inbound_view : Host → List Category → InboundLotDialog → FormView
inbound_view host categories d = record {
  title = host.translate "inbound_title";
  description = none;
  controls = controls host categories d.form;
  notice = none;
  error = or_none d.shell.error;
  cancel_disabled = d.shell.submitting;
  submit_disabled = d.shell.submitting;
  submit_label =
      submit_text d.shell.submitting (host.translate "inbound_btnSubmitting")
        (host.translate "inbound_btnSubmit");
}
