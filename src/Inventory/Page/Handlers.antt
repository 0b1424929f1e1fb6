-- ===== src/Inventory/Page/Handlers.antt =====
-- The handlers that the page hands to its dialogs, and the dialogs' parts of its state.
use home_stock.Common.{refl, Option, none, some}
use home_stock.Js.Host.{Host}
use home_stock.Types.{
  MaterialSummary, StockLot, InboundStockLotPayload, UpdateStockLotPayload, AdjustStockLotPayload,
  ConsumeMaterialPayload,
}
use home_stock.Api.{inbound_lot, update_lot, adjust_lot, consume_material}
use home_stock.Async.{Async, ret, ◌>>=◌, ◌>>◌, call, update}
use home_stock.Async.Slot.{Slot}
use home_stock.Inventory.Shell.{Shell}
use home_stock.Inventory.ExpiringLotsDialog.{ExpiringLotsDialog}
use home_stock.Inventory.Page.{Filters, InventoryPage, load_data}

abbrev pub inbound_slot : Slot InventoryPage Shell
inbound_slot = record {
  view = λ s. s.inbound.shell;
  put = λ f s. record s { inbound = record (s.inbound) { shell = f s.inbound.shell } };
  view-put = λ f s. refl;
  put-put = λ f g s. refl;
}

abbrev pub edit_slot : Slot InventoryPage Shell
edit_slot = record {
  view = λ s. s.edit.shell;
  put = λ f s. record s { edit = record (s.edit) { shell = f s.edit.shell } };
  view-put = λ f s. refl;
  put-put = λ f g s. refl;
}

abbrev pub adjust_slot : Slot InventoryPage Shell
adjust_slot = record {
  view = λ s. s.adjust.shell;
  put = λ f s. record s { adjust = record (s.adjust) { shell = f s.adjust.shell } };
  view-put = λ f s. refl;
  put-put = λ f g s. refl;
}

abbrev pub consume_slot : Slot InventoryPage Shell
consume_slot = record {
  view = λ s. s.consume.shell;
  put = λ f s. record s { consume = record (s.consume) { shell = f s.consume.shell } };
  view-put = λ f s. refl;
  put-put = λ f g s. refl;
}

abbrev pub expiring_slot : Slot InventoryPage ExpiringLotsDialog
expiring_slot = record {
  view = λ s. s.expiring;
  put = λ f s. record s { expiring = f s.expiring };
  view-put = λ f s. refl;
  put-put = λ f g s. refl;
}

-- `f` and the lot or material are the render's.
module _ (host : Host) (f : Filters) where
  unfoldable pub handle_inbound : InboundStockLotPayload → Async InventoryPage (Unit {0})
  handle_inbound payload = do _ ← call (inbound_lot payload); load_data host f

  unfoldable pub handle_update_lot :
      Option StockLot → UpdateStockLotPayload → Async InventoryPage (Unit {0})
  handle_update_lot none payload = ret tt
  handle_update_lot (some editing_lot) payload = do
    _ ← call (update_lot editing_lot.id payload)
    load_data host f

  unfoldable pub handle_adjust_lot :
      Option StockLot → AdjustStockLotPayload → Async InventoryPage (Unit {0})
  handle_adjust_lot none payload = ret tt
  handle_adjust_lot (some adjusting_lot) payload = do
    _ ← call (adjust_lot adjusting_lot.id payload)
    load_data host f

  unfoldable pub handle_consume :
      Option MaterialSummary → ConsumeMaterialPayload → Async InventoryPage (Unit {0})
  handle_consume none payload = ret tt
  handle_consume (some consuming_material) payload = do
    _ ← call (consume_material consuming_material.id payload)
    load_data host f
    update (λ s. record s { consuming_material = none })
