-- ===== src/Inventory/Page/Initial.antt =====
-- The inventory page when it is first rendered, at an address with this query string.
use home_stock.Common.{none, false, []}
use home_stock.Js.Text.{Text, lit}
use home_stock.Js.Host.{Host}
use home_stock.Debounce.{first_render}
use home_stock.Inventory.Shell.{Shell, or_blank}
use home_stock.Inventory.InboundLotDialog.{blank_form}
use home_stock.Inventory.ConsumeMaterialDialog
use home_stock.Inventory.Page.{Filters, InventoryPage}

abbrev pub initial_shell : Shell
initial_shell = record { submitting = false; error = [] }

-- `params.get('keyword') || ''`
unfoldable pub initial_search : Host → Text → Text
initial_search host search = or_blank (host.search_param search "keyword")

-- `useDebounce` begins with the search itself.
unfoldable pub initial_filters : Host → Text → Filters
unfolding initial_search
initial_filters host search = record {
  category_filter = lit "__all__";
  location_filter = lit "__all__";
  debounced_search = (first_render 300 (initial_search host search) 0).debounced;
  show_zero_stock = false;
}

unfoldable pub initial_page : Host → Text → InventoryPage
unfolding initial_filters
initial_page host search = record {
  materials = [];
  lots = [];
  categories = [];
  selected_material_id = [];
  loading = false;
  error = [];
  search = initial_search host search;
  filters = initial_filters host search;
  expiring_open = false;
  inbound_open = false;
  editing_lot = none;
  adjusting_lot = none;
  lot_details_open = false;
  details_zero_stock = false;
  consuming_material = none;
  page = 1;
  inbound = record { form = blank_form host.language host.today; shell = initial_shell };
  edit = record {
    fields = record { expire_at = []; purchased_at = []; location = []; notes = [] };
    shell = initial_shell;
  };
  adjust = record {
    fields = record { target_quantity = lit "0"; reason = []; remark = [] };
    shell = initial_shell;
  };
  consume = record { fields = ConsumeMaterialDialog.blank_fields; shell = initial_shell };
  expiring = record {
    editing_id = none;
    edit_expire_at = [];
    saving = false;
    voiding_id = none;
    error = [];
  };
}
