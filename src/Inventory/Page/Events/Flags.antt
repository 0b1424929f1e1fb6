-- ===== src/Inventory/Page/Events/Flags.antt =====
-- Which dialogs of the inventory page are submitting, and what does not change it.
use home_stock.Common.{◌≡◌, refl, ap, sym, List, true, Bool, false, Option}
use home_stock.Js.Text.{Text}
use home_stock.Js.Host.{Host}
use home_stock.Types.{Category}
use home_stock.Inventory.Page.{InventoryPage, reopen_inbound}
use home_stock.Inventory.InboundLotDialog

-- Which dialogs are submitting.
pub record Flags : Type 0 where
  pub inbound : Bool
  pub edit : Bool
  pub adjust : Bool
  pub consume : Bool

abbrev pub flags : InventoryPage → Flags
flags s = record {
  inbound = s.inbound.shell.submitting;
  edit = s.edit.shell.submitting;
  adjust = s.adjust.shell.submitting;
  consume = s.consume.shell.submitting;
}

on_open-submitting :
    (language today : Text) (b : Bool) (categories : List Category) (name spec : Option Text)
    (d : InboundLotDialog.InboundLotDialog)
    → (InboundLotDialog.on_open language today b categories name spec d).shell.submitting
      ≡ d.shell.submitting
unfolding InboundLotDialog.on_open
on_open-submitting language today false categories name spec d = refl
on_open-submitting language today true categories name spec d = refl

pub reopen_inbound-flags :
    (host : Host) (s : InventoryPage) → flags s ≡ flags (reopen_inbound host s)
unfolding reopen_inbound
reopen_inbound-flags host s =
    ap (λ b. record (flags s) { inbound = b })
      (sym (on_open-submitting _ _ s.inbound_open s.categories _ _ s.inbound))
