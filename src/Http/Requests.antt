-- ===== src/Http/Requests.antt =====
-- web/src/api: the request of each function.
use home_stock.Common.{List, Option, none, some, [], ◌∷◌, ◌++◌, String, Bool}
use home_stock.Js.Text.{Text, lit}
use home_stock.Js.Number.{Number}
use home_stock.Js.Host.{Host}
use home_stock.Types.{
  CreateMaterialPayload, ConsumeMaterialPayload, InboundStockLotPayload, UpdateStockLotPayload,
  AdjustStockLotPayload,
}
use home_stock.Api.{
  MaterialQuery, StockLotQuery, StockMovementQuery, AuditLogFilter, Call, CronConfigUpdate,
  list_materials, get_material, create_material, get_category, consume_material, list_lots,
  inbound_lot, update_lot, adjust_lot, void_lot, list_categories, create_category, update_category,
  delete_category, list_movements, list_audit_logs, login, me, change_password, list_endpoints,
  create_endpoint, update_endpoint, delete_endpoint, test_endpoint, list_api_keys, add_api_key,
  delete_api_key, get_cron_config, update_cron_config, promise_all,
}
use home_stock.Http.{Json, Body, Request, api_get, api_post, api_put, api_delete}
use home_stock.Http.Query.{
  material_params, stock_lot_params, stock_movement_params, audit_log_params, with_query,
}

-- One field of a body, left out where it is `undefined`.
abbrev text_field : String → Option Text → Body
text_field key none = []
text_field key (some v) = (lit key, Json.text v) ∷ []

abbrev number_field : String → Option Number → Body
number_field key none = []
number_field key (some n) = (lit key, Json.number n) ∷ []

abbrev bool_field : String → Option Bool → Body
bool_field key none = []
bool_field key (some b) = (lit key, Json.bool b) ∷ []

unfoldable pub create_body : CreateMaterialPayload → Body
create_body p =
    (text_field "name" (some p.name)
      ++ text_field "spec" p.spec
      ++ text_field "category_id" p.category_id
      ++ text_field "default_unit" p.default_unit)

unfoldable pub consume_body : ConsumeMaterialPayload → Body
consume_body p = (number_field "quantity" (some p.quantity) ++ text_field "reason" p.reason)

unfoldable pub inbound_body : InboundStockLotPayload → Body
inbound_body p =
    (text_field "material_id" p.material_id
      ++ text_field "name" p.name
      ++ text_field "spec" p.spec
      ++ text_field "category_id" p.category_id
      ++ number_field "quantity" (some p.quantity)
      ++ text_field "unit" p.unit
      ++ text_field "location" p.location
      ++ text_field "expire_at" p.expire_at
      ++ text_field "purchased_at" p.purchased_at
      ++ text_field "notes" p.notes)

unfoldable pub update_body : UpdateStockLotPayload → Body
update_body p =
    (text_field "expire_at" p.expire_at
      ++ text_field "purchased_at" p.purchased_at
      ++ text_field "location" p.location
      ++ text_field "notes" p.notes)

unfoldable pub adjust_body : AdjustStockLotPayload → Body
adjust_body p =
    (number_field "target_quantity" (some p.target_quantity)
      ++ text_field "reason" p.reason
      ++ text_field "remark" p.remark)

unfoldable pub cron_body : CronConfigUpdate → Body
cron_body p =
    (bool_field "enabled" p.enabled
      ++ number_field "expiry_check_interval_days" p.expiry_check_interval_days
      ++ text_field "expiry_check_poll_interval" p.expiry_check_poll_interval
      ++ bool_field "notify_enabled" p.notify_enabled
      ++ text_field "notify_time_start" p.notify_time_start
      ++ text_field "notify_time_end" p.notify_time_end)

unfoldable pub material_list : Host → MaterialQuery → Request
material_list host q = api_get (with_query host "/v1/materials" (material_params q))

unfoldable pub material_get : Text → Request
material_get id = api_get (lit "/v1/materials/" ++ id)

unfoldable pub material_create : CreateMaterialPayload → Request
unfolding create_body
material_create p = api_post (lit "/v1/materials") (create_body p)

unfoldable pub material_consume : Text → ConsumeMaterialPayload → Request
unfolding consume_body
material_consume id p = api_post (lit "/v1/materials/" ++ id ++ lit "/consume") (consume_body p)

unfoldable pub stock_lot_list : Host → StockLotQuery → Request
stock_lot_list host q = api_get (with_query host "/v1/stock-lots" (stock_lot_params q))

unfoldable pub stock_lot_inbound : InboundStockLotPayload → Request
unfolding inbound_body
stock_lot_inbound p = api_post (lit "/v1/stock-lots/inbound") (inbound_body p)

unfoldable pub stock_lot_update : Text → UpdateStockLotPayload → Request
unfolding update_body
stock_lot_update id p = api_put (lit "/v1/stock-lots/" ++ id) (update_body p)

unfoldable pub stock_lot_adjust : Text → AdjustStockLotPayload → Request
unfolding adjust_body
stock_lot_adjust id p = api_post (lit "/v1/stock-lots/" ++ id ++ lit "/adjust") (adjust_body p)

unfoldable pub stock_lot_void : Text → Request
stock_lot_void id = api_post (lit "/v1/stock-lots/" ++ id ++ lit "/void") []

unfoldable pub category_list : Request
category_list = api_get (lit "/v1/categories")

unfoldable pub category_get : Text → Request
category_get id = api_get (lit "/v1/categories/" ++ id)

unfoldable pub category_create : Text → Request
category_create name = api_post (lit "/v1/categories") ((text_field "name" (some name)))

unfoldable pub category_update : Text → Text → Request
category_update id name = api_put (lit "/v1/categories/" ++ id) ((text_field "name" (some name)))

unfoldable pub category_delete : Text → Request
category_delete id = api_delete (lit "/v1/categories/" ++ id)

unfoldable pub stock_movement_list : Host → StockMovementQuery → Request
stock_movement_list host q =
    api_get (with_query host "/v1/stock-movements" (stock_movement_params q))

unfoldable pub audit_log_list : Host → AuditLogFilter → Request
audit_log_list host f = api_get (with_query host "/v1/audit-logs" (audit_log_params host f))

unfoldable pub auth_login : Text → Text → Request
auth_login username password =
    api_post (lit "/v1/auth/login")
      ((text_field "username" (some username) ++ text_field "password" (some password)))

unfoldable pub auth_me : Request
auth_me = api_get (lit "/v1/auth/me")

unfoldable pub auth_change_password : Text → Text → Request
auth_change_password old_password new_password = api_put (lit "/v1/auth/password") (
    (text_field "old_password" (some old_password)
      ++ text_field "new_password" (some new_password)))

unfoldable pub outbound_list_endpoints : Request
outbound_list_endpoints = api_get (lit "/outbound/endpoints")

unfoldable pub outbound_create_endpoint : Text → Text → Option Bool → Request
outbound_create_endpoint name url enabled =
    api_post (lit "/outbound/endpoints") (
      (text_field "name" (some name)
        ++ text_field "url" (some url)
        ++ bool_field "enabled" enabled))

unfoldable pub outbound_update_endpoint : Host → Text → Option Text → Option Bool → Request
outbound_update_endpoint host name url enabled =
    api_put (lit "/outbound/endpoints/" ++ host.encode_component name)
      ((text_field "url" url ++ bool_field "enabled" enabled))

unfoldable pub outbound_delete_endpoint : Host → Text → Request
outbound_delete_endpoint host name =
    api_delete (lit "/outbound/endpoints/" ++ host.encode_component name)

unfoldable pub outbound_test_endpoint : Text → Request
outbound_test_endpoint url = api_post (lit "/outbound/test") ((text_field "url" (some url)))

unfoldable pub api_key_list : Request
api_key_list = api_get (lit "/auth/api-keys")

unfoldable pub api_key_add : Text → Request
api_key_add key = api_post (lit "/auth/api-keys") ((text_field "key" (some key)))

unfoldable pub api_key_delete : Host → Text → Request
api_key_delete host key = api_delete (lit "/auth/api-keys/" ++ host.encode_component key)

unfoldable pub cron_get_config : Request
cron_get_config = api_get (lit "/v1/cron/config")

unfoldable pub cron_update_config : CronConfigUpdate → Request
unfolding cron_body
cron_update_config p = api_put (lit "/v1/cron/config") (cron_body p)

-- The requests of a call.
unfoldable pub requests_of : Host → Call → List Request
requests_of host (list_materials q) = material_list host q ∷ []
requests_of host (get_material id) = material_get id ∷ []
requests_of host (create_material p) = material_create p ∷ []
requests_of host (consume_material id p) = material_consume id p ∷ []
requests_of host (list_lots q) = stock_lot_list host q ∷ []
requests_of host (inbound_lot p) = stock_lot_inbound p ∷ []
requests_of host (update_lot id p) = stock_lot_update id p ∷ []
requests_of host (adjust_lot id p) = stock_lot_adjust id p ∷ []
requests_of host (void_lot id) = stock_lot_void id ∷ []
requests_of host list_categories = category_list ∷ []
requests_of host (get_category id) = category_get id ∷ []
requests_of host (create_category name) = category_create name ∷ []
requests_of host (update_category id name) = category_update id name ∷ []
requests_of host (delete_category id) = category_delete id ∷ []
requests_of host (list_movements q) = stock_movement_list host q ∷ []
requests_of host (list_audit_logs f) = audit_log_list host f ∷ []
requests_of host (login username password) = auth_login username password ∷ []
requests_of host me = auth_me ∷ []
requests_of host (change_password old_password new_password) =
    auth_change_password old_password new_password ∷ []
requests_of host list_endpoints = outbound_list_endpoints ∷ []
requests_of host (create_endpoint name url enabled) = outbound_create_endpoint name url enabled ∷ []
requests_of host (update_endpoint name url enabled) =
    outbound_update_endpoint host name url enabled ∷ []
requests_of host (delete_endpoint name) = outbound_delete_endpoint host name ∷ []
requests_of host (test_endpoint url) = outbound_test_endpoint url ∷ []
requests_of host list_api_keys = api_key_list ∷ []
requests_of host (add_api_key key) = api_key_add key ∷ []
requests_of host (delete_api_key key) = api_key_delete host key ∷ []
requests_of host get_cron_config = cron_get_config ∷ []
requests_of host (update_cron_config p) = cron_update_config p ∷ []
requests_of host (promise_all a b) = requests_of host a ++ requests_of host b
