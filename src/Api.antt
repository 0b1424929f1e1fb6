-- ===== src/Api.antt =====
-- web/src/api: the calls that the client makes of the server, one constructor for each function of
-- the modules, with the type of what it resolves to.
use home_stock.Common.{Option, Bool, List}
use home_stock.Js.Text.{Text}
use home_stock.Js.Number.{Number}
use home_stock.Types.{
  Category, Material, MaterialSummary, CreateMaterialPayload, ConsumeMaterialPayload, StockLot,
  InboundStockLotPayload, UpdateStockLotPayload, AdjustStockLotPayload, StockMovement, AuditLog,
  User,
}

-- The parameters of `materialApi.list`; `none` is `undefined`.
pub record MaterialQuery : Type 0 where
  pub category_id : Option Text
  pub keyword : Option Text
  pub show_zero_stock : Option Bool

pub record StockLotQuery : Type 0 where
  pub material_id : Option Text
  pub category_id : Option Text
  pub location : Option Text
  pub status : Option Text
  pub keyword : Option Text
  pub expiring_soon : Option Bool
  pub show_zero_stock : Option Bool

pub record StockMovementQuery : Type 0 where
  pub material_id : Option Text
  pub lot_id : Option Text
  pub movement_type : Option Text
  pub start_date : Option Text
  pub end_date : Option Text

pub record AuditLogFilter : Type 0 where
  pub action : Option Text
  pub channel : Option Text
  pub user_name : Option Text
  pub start_date : Option Text
  pub end_date : Option Text
  pub page : Option Number
  pub page_size : Option Number

pub record CronConfig : Type 0 where
  pub enabled : Bool
  pub expiry_check_interval_days : Number
  pub expiry_check_poll_interval : Text
  pub notify_enabled : Bool
  pub notify_time_start : Text
  pub notify_time_end : Text

-- `Partial<CronConfig>`
pub record CronConfigUpdate : Type 0 where
  pub enabled : Option Bool
  pub expiry_check_interval_days : Option Number
  pub expiry_check_poll_interval : Option Text
  pub notify_enabled : Option Bool
  pub notify_time_start : Option Text
  pub notify_time_end : Option Text

pub record EndpointConfig : Type 0 where
  pub name : Text
  pub url : Text
  pub enabled : Bool

pub data Call : Type 0 where
  list_materials : MaterialQuery → Call
  get_material : Text → Call
  create_material : CreateMaterialPayload → Call
  consume_material : Text → ConsumeMaterialPayload → Call
  list_lots : StockLotQuery → Call
  inbound_lot : InboundStockLotPayload → Call
  update_lot : Text → UpdateStockLotPayload → Call
  adjust_lot : Text → AdjustStockLotPayload → Call
  void_lot : Text → Call
  list_categories : Call
  get_category : Text → Call
  create_category : Text → Call
  update_category : Text → Text → Call
  delete_category : Text → Call
  list_movements : StockMovementQuery → Call
  list_audit_logs : AuditLogFilter → Call
  login : Text → Text → Call
  me : Call
  change_password : Text → Text → Call
  list_endpoints : Call
  create_endpoint : Text → Text → Option Bool → Call
  update_endpoint : Text → Option Text → Option Bool → Call
  delete_endpoint : Text → Call
  test_endpoint : Text → Call
  list_api_keys : Call
  add_api_key : Text → Call
  delete_api_key : Text → Call
  get_cron_config : Call
  update_cron_config : CronConfigUpdate → Call
  -- `Promise.all([a, b])`; of three, `Promise.all([a, b, c])`, it is all of a and all of b and c
  promise_all : Call → Call → Call

pub record MaterialListResponse : Type 0 where
  pub materials : List MaterialSummary
  pub total : Number

pub record StockLotListResponse : Type 0 where
  pub lots : List StockLot
  pub total : Number

pub record CategoryListResponse : Type 0 where
  pub categories : List Category
  pub total : Number

pub record StockMovementListResponse : Type 0 where
  pub movements : List StockMovement
  pub total : Number

pub record AuditLogListResponse : Type 0 where
  pub logs : List AuditLog
  pub total : Number
  pub page : Number
  pub page_size : Number

pub record AuthResponse : Type 0 where
  pub token : Text
  pub user : User

-- What a call resolves to; of the results that no caller reads, nothing is kept.
abbrev pub Reply : Call → Type 0
Reply (list_materials q) = MaterialListResponse
Reply (get_material id) = MaterialSummary
Reply (create_material p) = Material
Reply (list_lots q) = StockLotListResponse
Reply list_categories = CategoryListResponse
Reply (get_category id) = Category
Reply (create_category name) = Category
Reply (update_category id name) = Category
Reply (list_movements q) = StockMovementListResponse
Reply (list_audit_logs q) = AuditLogListResponse
Reply (login u p) = AuthResponse
Reply me = User
Reply list_endpoints = List EndpointConfig
Reply list_api_keys = List Text
Reply get_cron_config = CronConfig
Reply (promise_all a b) = Reply a × Reply b
Reply _ = Unit {0}
