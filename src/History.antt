-- ===== src/History.antt =====
-- web/src/pages/history/HistoryPage.tsx: the page's state, what it shows of a record, its load and
-- its searches.
pub mod Search
pub mod View
pub mod Events
use home_stock.Common.{
  Option, none, some, Bool, true, false, List, [], ◌∷◌, if◌then◌else◌, filter, any,
}
use home_stock.Js.Text.{Text, lit, truthy, or_text, or_none, eq_text, trim, includes}
use home_stock.Js.Number.{whole}
use home_stock.Js.Host.{Host}
use home_stock.Js.Outcome.{message_or}
use home_stock.Types.{
  StockMovement, StockMovementType, Material, AuditLog, AuditAction, AuditEntityType,
}
use home_stock.Api.{StockMovementQuery, AuditLogFilter, list_movements, list_audit_logs}
use home_stock.Async.{Async, ◌>>=◌, ◌>>◌, call_both, catch, finally, update}

pub data Variant : Type 0 where
  default secondary destructive : Variant

unfoldable pub movement_variant : StockMovementType → Variant
movement_variant StockMovementType.inbound = default
movement_variant StockMovementType.consume = secondary
movement_variant StockMovementType.adjustment = destructive
movement_variant StockMovementType.void = destructive

-- The lines of `OperatorCell`.
unfoldable pub operator_cell : Text → Text → Text → List Text
operator_cell user_name user_id channel =
    let name = or_text user_name user_id in
    if truthy name then name ∷ channel ∷ [] else channel ∷ []

-- What `loadData` captures.
pub record Filters : Type 0 where
  pub movement_type : Text
  pub audit_action : Text
  pub audit_channel : Text
  pub start_date : Text
  pub end_date : Text

pub record HistoryPage : Type 0 where
  pub movements : List StockMovement
  pub audit_logs : List AuditLog
  pub loading : Bool
  pub error : Text
  pub filters : Filters
  pub search : Text
  pub debounced_search : Text
  pub selected_audit_log : Option AuditLog

-- `REASON_MAP[r]`
unfoldable pub reason_map : Host → Text → Option Text
reason_map host r =
    if eq_text r (lit "inbound")
    then some (host.translate "reasonInbound")
    else if eq_text r (lit "consume")
    then some (host.translate "reasonConsume")
    else if eq_text r (lit "manual consume")
    then some (host.translate "reasonConsume")
    else if eq_text r (lit "adjustment")
    then some (host.translate "reasonAdjustment")
    else if eq_text r (lit "void")
    then some (host.translate "reasonVoid")
    else none

unfoldable pub reason_label : Host → Text → Text → Text
unfolding reason_map
reason_label host reason remark =
    let r = or_text reason remark in
    elim (reason_map host (host.lower r)) [ none ↦ or_text r (lit "—") | some label ↦ label ]

unfoldable pub channel_label : Host → Text → Text
channel_label host channel =
    if eq_text channel (lit "web")
    then host.translate "channelWeb"
    else if eq_text channel (lit "feishu")
    then host.translate "channelFeishu"
    else if eq_text channel (lit "system")
    then host.translate "channelSystem"
    else or_text channel (host.translate "channelSystem")

unfoldable pub movement_label : Host → StockMovementType → Text
movement_label host StockMovementType.inbound = host.translate "movementInbound"
movement_label host StockMovementType.consume = host.translate "movementConsume"
movement_label host StockMovementType.adjustment = host.translate "movementAdjustment"
movement_label host StockMovementType.void = host.translate "movementVoid"

unfoldable pub action_label : Host → AuditAction → Text
action_label host AuditAction.create = host.translate "actionCreate"
action_label host AuditAction.update = host.translate "actionUpdate"
action_label host AuditAction.delete = host.translate "actionDelete"

unfoldable pub audit_entity_label : Host → AuditEntityType → Text
audit_entity_label host AuditEntityType.material = host.translate "entityMaterial"
audit_entity_label host AuditEntityType.stock_lot = host.translate "entityStockLot"
audit_entity_label host AuditEntityType.category = host.translate "entityCategory"
audit_entity_label host AuditEntityType.system_setting = host.translate "entitySystemSetting"

-- `v !== '__all__' ? v : undefined`
abbrev pub unless_all : Text → Option Text
unless_all v = if eq_text v (lit "__all__") then none else some v

unfoldable pub movement_query : Filters → StockMovementQuery
movement_query f = record {
  material_id = none;
  lot_id = none;
  movement_type = unless_all f.movement_type;
  start_date = or_none f.start_date;
  end_date = or_none f.end_date;
}

unfoldable pub audit_query : Filters → AuditLogFilter
audit_query f = record {
  action = unless_all f.audit_action;
  channel = unless_all f.audit_channel;
  user_name = none;
  start_date = or_none f.start_date;
  end_date = or_none f.end_date;
  page = some (whole 1);
  page_size = some (whole 100);
}

unfoldable pub load_data : Host → Filters → Async HistoryPage (Unit {0})
load_data host f = do
  update (λ s. record s { loading = true; error = [] })
  finally
      (catch
        (do
          (m, a) ← call_both (list_movements (movement_query f)) (list_audit_logs (audit_query f))
          update (λ s. record s { movements = m.movements; audit_logs = a.logs }))
        (λ e. update (λ s. record s { error = message_or (host.translate "loadingFailed") e })))
      (λ s. record s { loading = false })

-- `movement.material?.name?.toLowerCase() ?? ''`, and likewise the specification.
abbrev material_name : Host → Option Material → Text
material_name host none = []
material_name host (some m) = host.lower m.name

abbrev material_spec : Host → Option Material → Text
material_spec host none = []
material_spec host (some m) = host.lower m.spec

unfoldable pub movement_fields : Host → StockMovement → List Text
movement_fields host m =
    material_name host m.material
    ∷ material_spec host m.material
    ∷ host.lower m.lot_id
    ∷ host.lower m.reason
    ∷ host.lower m.remark
    ∷ []

-- `debouncedSearch.trim().toLowerCase()`
unfoldable pub query_of : Host → Text → Text
query_of host search = host.lower (trim search)

unfoldable pub filtered_movements : Host → Text → List StockMovement → List StockMovement
unfolding query_of movement_fields
filtered_movements host search movements =
    if truthy (query_of host search)
    then filter (λ m. any (λ field. includes field (query_of host search)) (movement_fields host m))
        movements
    else movements

-- The name of an entity type as the server writes it.
unfoldable pub entity_text : AuditEntityType → Text
entity_text AuditEntityType.material = lit "material"
entity_text AuditEntityType.stock_lot = lit "stock_lot"
entity_text AuditEntityType.category = lit "category"
entity_text AuditEntityType.system_setting = lit "system_setting"

unfoldable pub audit_fields : AuditLog → List Text
audit_fields log =
    filter truthy (log.entity_name ∷ log.user_name ∷ log.user_id ∷ entity_text log.entity_type ∷ [])

unfoldable pub filtered_audit_logs : Host → Text → List AuditLog → List AuditLog
unfolding query_of audit_fields
filtered_audit_logs host search logs =
    if truthy (query_of host search)
    then filter
        (λ log.
          any (λ field. includes (host.lower field) (query_of host search)) (audit_fields log))
        logs
    else logs
