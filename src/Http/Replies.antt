-- ===== src/Http/Replies.antt =====
-- What the functions of web/src/api make of a reply's `data`.
use home_stock.Common.{Option, none, some, List, length}
use home_stock.Js.Number.{Number, whole}
use home_stock.Types.{Category, MaterialSummary, StockLot, StockMovement, AuditLog}
use home_stock.Api.{
  MaterialListResponse, StockLotListResponse, CategoryListResponse, StockMovementListResponse,
  AuditLogListResponse,
}

-- `Page<T>` of web/src/types/api.ts
pub record Page (A : Type 0) : Type 0 where
  pub items : List A
  pub total : Number
  pub page : Option Number
  pub page_size : Option Number

unfoldable pub material_page : Page MaterialSummary → MaterialListResponse
material_page res = record { materials = res.items; total = res.total }

unfoldable pub stock_lot_page : Page StockLot → StockLotListResponse
stock_lot_page res = record { lots = res.items; total = res.total }

unfoldable pub category_page : Page Category → CategoryListResponse
category_page res = record { categories = res.items; total = res.total }

unfoldable pub stock_movement_page : Page StockMovement → StockMovementListResponse
stock_movement_page res = record { movements = res.items; total = res.total }

-- `v ?? w`
abbrev or_else : Option Number → Number → Number
or_else none w = w
or_else (some v) w = v

unfoldable pub audit_log_page : Page AuditLog → AuditLogListResponse
audit_log_page res = record {
  logs = res.items;
  total = res.total;
  page = or_else res.page (whole 1);
  page_size = or_else res.page_size (whole (length res.items));
}
