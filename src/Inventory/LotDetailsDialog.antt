-- ===== src/Inventory/LotDetailsDialog.antt =====
-- web/src/pages/inventory/LotDetailsDialog.tsx: the lots that it shows.
pub mod View
use home_stock.Common.{Bool, List, if◌then◌else◌, filter, any}
use home_stock.Js.Number.{zero_number, lt_number, eq_number}
use home_stock.Types.{StockLot}

-- `displayLots`
unfoldable pub display_lots : Bool → List StockLot → List StockLot
display_lots show_zero_stock lots =
    if show_zero_stock
    then lots
    else filter (λ lot. lt_number zero_number lot.quantity_on_hand) lots

-- Whether the dialog has a switch for the lots without stock.
unfoldable pub has_switch : List StockLot → Bool
has_switch lots = any (λ lot. eq_number lot.quantity_on_hand zero_number) lots
