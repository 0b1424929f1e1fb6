-- ===== src/Shopping/View.antt =====
-- What the page of web/src/pages/shopping/ShoppingPage.tsx shows.
use home_stock.Common.{Bool, not}
use home_stock.Js.Text.{Text, lit, truthy, trim}
use home_stock.Js.Host.{Host}
use home_stock.Shopping.{ShoppingPage}
use home_stock.Ui.{Table, table_of}

pub record ShoppingView : Type 0 where
  pub title : Text
  pub subtitle : Text
  pub placeholder : Text
  pub input_value : Text
  pub add_disabled : Bool
  pub names : Table Text

unfoldable pub shopping_view : Host → ShoppingPage → ShoppingView
shopping_view host s = record {
  title = host.translate "shopping";
  subtitle = lit "添加需要购买的物品";
  placeholder = lit "输入商品名称...";
  input_value = s.input_value;
  add_disabled = not (truthy (trim s.input_value));
  names = table_of (host.translate "noData") s.items (λ item. item.name) s.items;
}
