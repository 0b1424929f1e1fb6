-- ===== src/Tests/Fixtures.antt =====
-- A small host, and a page with two materials and two lots.
use home_stock.Common.{
  ◌≡◌, refl, Option, none, some, true, false, List, [], ◌∷◌, ◌++◌, ℤ, pos, negsuc, String, drop,
}
use home_stock.Js.Text.{Text, lit}
use home_stock.Js.Number.{Number, nan, infinity, neg_infinity, fin}
use home_stock.Js.Host.{Host}
use home_stock.Types.{Category, Material, MaterialSummary, StockLot}
use home_stock.Inventory.Shell.{Shell}
use home_stock.Inventory.InboundLotDialog.{FormState}
use home_stock.Inventory.EditLotDialog
use home_stock.Inventory.AdjustLotDialog
use home_stock.Inventory.ConsumeMaterialDialog
use home_stock.Inventory.Page.{Filters, InventoryPage}

-- Numbers as texts: the length of the text tells the kind.
abbrev pub text_of : Number → Text
text_of nan = 0 ∷ 0 ∷ 0 ∷ 0 ∷ 0 ∷ []
text_of infinity = 0 ∷ 0 ∷ 0 ∷ []
text_of neg_infinity = 0 ∷ 0 ∷ 0 ∷ 0 ∷ []
text_of (fin (pos n)) = n ∷ []
text_of (fin (negsuc n)) = 0 ∷ n ∷ []

abbrev pub number_of : Text → Number
number_of (n ∷ []) = fin (pos n)
number_of (_ ∷ n ∷ []) = fin (negsuc n)
number_of (_ ∷ _ ∷ _ ∷ []) = infinity
number_of (_ ∷ _ ∷ _ ∷ _ ∷ []) = neg_infinity
number_of _ = nan

pub number_of-text_of : (n : Number) → number_of (text_of n) ≡ n
number_of-text_of nan = refl
number_of-text_of infinity = refl
number_of-text_of neg_infinity = refl
number_of-text_of (fin (pos n)) = refl
number_of-text_of (fin (negsuc n)) = refl

-- A date is its milliseconds, as one unit.
abbrev date_of : Text → Option ℤ
date_of (ms ∷ []) = some (pos ms)
date_of _ = none

abbrev iso_of : ℤ → Text
iso_of (pos ms) = ms ∷ []
iso_of (negsuc ms) = []

abbrev pairs : List (Text × Text) → Text
pairs [] = []
pairs ((k, v) ∷ ps) = k ++ 61 ∷ v ++ 38 ∷ pairs ps

abbrev pub host : Host
host = record {
  parse_int = number_of;
  number_of = number_of;
  text_of = text_of;
  round = fin;
  date_of = date_of;
  iso_of = iso_of;
  locale_date = λ d locale. locale;
  locale_date_time = λ d locale. locale;
  currency = λ locale n. locale;
  range_error = lit "Invalid time value";
  lower = λ s. s;
  encode_component = λ s. s;
  query_string = pairs;
  search_param = λ search key. some (drop 9 search);
  css_property = lit;
  changes_text = λ raw. raw;
  translate = lit;
  translate_with = λ key values. lit key;
  locale_less = λ s t. false;
  language = lit "en";
  today = lit "2026-01-01";
}

abbrev pub food : Category
food = record { id = lit "c1"; tenant_id = []; name = lit "food"; created_at = []; updated_at = [] }

abbrev pub material : String → Material
material id = record {
  id = lit id;
  tenant_id = [];
  name = lit id;
  spec = [];
  category_id = lit "c1";
  category = some food;
  default_unit = lit "pcs";
  status = [];
  created_at = [];
  updated_at = [];
}

abbrev pub summary : String → MaterialSummary
summary id = record {
  material = material id;
  total_quantity = fin (pos 5);
  lot_count = fin (pos 1);
  nearest_expire_at = some (7 ∷ []);
  locations = [];
}

abbrev pub lot : String → String → StockLot
lot id material_id = record {
  id = lit id;
  tenant_id = [];
  material_id = lit material_id;
  material = none;
  quantity_on_hand = fin (pos 5);
  unit = lit "pcs";
  location = lit "shelf";
  expire_at = none;
  purchased_at = none;
  received_at = [];
  notes = [];
  status = [];
  created_at = [];
  updated_at = [];
}

abbrev pub filters : Filters
filters = record {
  category_filter = lit "__all__";
  location_filter = lit "__all__";
  debounced_search = [];
  show_zero_stock = false;
}

abbrev pub shell : Shell
shell = record { submitting = false; error = [] }

abbrev pub form : FormState
form = record {
  name = lit " rice ";
  spec = [];
  category_id = [];
  quantity = 5 ∷ [];
  unit = [];
  location = [];
  expire_at = [];
  purchased_at = [];
  notes = [];
}

abbrev pub edit_fields : EditLotDialog.Fields
edit_fields = record { expire_at = 7 ∷ []; purchased_at = []; location = lit " shelf "; notes = [] }

abbrev pub adjust_fields : AdjustLotDialog.Fields
adjust_fields = record { target_quantity = 2 ∷ []; reason = []; remark = [] }

abbrev pub consume_fields : ConsumeMaterialDialog.Fields
consume_fields = record { quantity = 2 ∷ []; reason = [] }

abbrev pub page : InventoryPage
page = record {
  materials = summary "m1" ∷ summary "m2" ∷ [];
  lots = lot "l1" "m1" ∷ lot "l2" "m2" ∷ [];
  categories = food ∷ [];
  selected_material_id = lit "m1";
  loading = false;
  error = [];
  search = [];
  filters = filters;
  expiring_open = false;
  inbound_open = true;
  editing_lot = some (lot "l1" "m1");
  adjusting_lot = none;
  lot_details_open = false;
  details_zero_stock = false;
  consuming_material = none;
  page = 1;
  inbound = record { shell = shell; form = form };
  edit = record { shell = shell; fields = edit_fields };
  adjust = record { shell = shell; fields = adjust_fields };
  consume = record { shell = shell; fields = consume_fields };
  expiring = record {
    editing_id = none;
    edit_expire_at = [];
    saving = false;
    voiding_id = none;
    error = [];
  };
}
