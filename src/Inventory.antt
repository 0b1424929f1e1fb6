-- ===== src/Inventory.antt =====
-- web/src/pages/inventory: the page with its dialogs.
pub mod Shell
pub mod InboundLotDialog
pub mod EditLotDialog
pub mod AdjustLotDialog
pub mod ConsumeMaterialDialog
pub mod ExpiringLotsDialog
pub mod LotDetailsDialog
pub mod DeleteConfirmDialog
pub mod Page
