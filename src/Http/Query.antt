-- ===== src/Http/Query.antt =====
-- The query strings of web/src/api: each `if (params?.x) qs.set('x', params.x)` of the functions
-- `list`, in order.
use home_stock.Common.{Option, none, some, Bool, List, [], ◌∷◌, ◌++◌, String, if◌then◌else◌}
use home_stock.Js.Text.{Text, lit, truthy}
use home_stock.Js.Number.{Number, zero_number, nan, fin}
use home_stock.Js.Number
use home_stock.Js.Host.{Host}
use home_stock.Api.{MaterialQuery, StockLotQuery, StockMovementQuery, AuditLogFilter}

abbrev pub Params : Type 0
Params = List (Text × Text)

-- `if (v) qs.set(key, v)`, before the rest
abbrev pub set_text : String → Option Text → Params → Params
set_text key none rest = rest
set_text key (some v) rest = if truthy v then (lit key, v) ∷ rest else rest

-- `if (b) qs.set(key, 'true')`
abbrev pub set_true : String → Option Bool → Params → Params
set_true key none rest = rest
set_true key (some b) rest = if b then (lit key, lit "true") ∷ rest else rest

-- `if (n) qs.set(key, String(n))`
abbrev pub set_number : Host → String → Option Number → Params → Params
set_number host key none rest = rest
set_number host key (some nan) rest = rest
set_number host key (some n) rest =
    if Number.eq_number n zero_number then rest else (lit key, host.text_of n) ∷ rest

unfoldable pub material_params : MaterialQuery → Params
material_params q =
    set_text "category_id" q.category_id
      (set_text "keyword" q.keyword (set_true "show_zero_stock" q.show_zero_stock []))

unfoldable pub stock_lot_params : StockLotQuery → Params
stock_lot_params q = set_text "material_id" q.material_id (
    set_text "category_id" q.category_id (
      set_text "location" q.location (
        set_text "status" q.status (
          set_text "keyword" q.keyword (
            set_true "expiring_soon" q.expiring_soon
              (set_true "show_zero_stock" q.show_zero_stock []))))))

unfoldable pub stock_movement_params : StockMovementQuery → Params
stock_movement_params q = set_text "material_id" q.material_id (
    set_text "lot_id" q.lot_id (
      set_text "movement_type" q.movement_type
        (set_text "start_date" q.start_date (set_text "end_date" q.end_date []))))

unfoldable pub audit_log_params : Host → AuditLogFilter → Params
audit_log_params host f = set_text "action" f.action (
    set_text "channel" f.channel (
      set_text "user_name" f.user_name (
        set_text "start_date" f.start_date (
          set_text "end_date" f.end_date
            (set_number host "page" f.page (set_number host "page_size" f.page_size []))))))

-- `${path}${query ? `?${query}` : ''}`
abbrev pub with_query : Host → String → Params → Text
with_query host path params =
    let query = host.query_string params in lit path ++ (if truthy query then 63 ∷ query else [])
