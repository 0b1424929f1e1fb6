-- ===== src/Home.antt =====
-- web/src/pages/home/HomePage.tsx: what the page shows of the dashboard's statistics. Of the options
-- of the charts the model keeps what depends on the statistics, the colours and the language.
pub mod Shown
pub mod Charts
use Prim.Native.Nat.{max}
use mathlib.Core.List.{reverse}
use home_stock.Common.{
  ℕ, ◌+◌, ◌*◌, Option, none, some, Bool, true, false, List, [], ◌∷◌, ◌++◌, map, if◌then◌else◌,
  length, String, ◌==◌,
}
use home_stock.Js.Text.{Text, lit, truthy, trim, or_none}
use home_stock.Js.Number.{Number, zero_number, lt_number, whole}
use home_stock.Js.Host.{Host}
use home_stock.Types.{Material, StockMovement, StockMovementType}
use home_stock.Format.{format_date_time, default_locale}
use home_stock.Ui.{BadgeVariant, delta_text}
use home_stock.Dashboard.{CategoryStat, DashboardStats, Dashboard}

unfoldable pub get_css_var : Host → String → Text
get_css_var host name = trim (host.css_property name)

pub record ChartColors : Type 0 where
  pub primary : Text
  pub tertiary : Text
  pub error : Text
  pub on_surface : Text
  pub on_surface_variant : Text
  pub surface_container_high : Text

unfoldable pub use_chart_colors : Host → ChartColors
unfolding get_css_var
use_chart_colors host = record {
  primary = get_css_var host "--color-primary";
  tertiary = get_css_var host "--color-tertiary";
  error = get_css_var host "--color-error";
  on_surface = get_css_var host "--color-on-surface";
  on_surface_variant = get_css_var host "--color-on-surface-variant";
  surface_container_high = get_css_var host "--color-surface-container-high";
}

pub data CardVariant : Type 0 where
  default warning error : CardVariant

pub record StatCard : Type 0 where
  pub label : Text
  pub value : Number
  pub variant : CardVariant

unfoldable pub movement_badge_variant : StockMovementType → BadgeVariant
movement_badge_variant StockMovementType.inbound = BadgeVariant.default
movement_badge_variant StockMovementType.consume = BadgeVariant.secondary
movement_badge_variant StockMovementType.adjustment = BadgeVariant.outline
movement_badge_variant StockMovementType.void = BadgeVariant.destructive

unfoldable pub movement_type_label : Host → StockMovementType → Text
movement_type_label host StockMovementType.inbound = host.translate "movement_type_inbound"
movement_type_label host StockMovementType.consume = host.translate "movement_type_consume"
movement_type_label host StockMovementType.adjustment = host.translate "movement_type_adjustment"
movement_type_label host StockMovementType.void = host.translate "movement_type_void"

pub record BarOption : Type 0 where
  -- the tooltip
  pub background_color : Text
  pub border_color : Text
  pub text_color : Text
  -- the axes
  pub axis_label_color : Text
  pub split_line_color : Text
  pub names : List Text
  -- the one series
  pub series_name : Text
  pub quantities : List Number
  pub item_color : Text
  pub label_color : Text

-- `none` is the empty option.
unfoldable pub bar_option : Host → ChartColors → Option DashboardStats → Option BarOption
bar_option host colors none = none
bar_option host colors (some stats) =
    let sorted = reverse stats.by_category in
    some record {
      background_color = get_css_var host "--color-surface-container-high";
      border_color = get_css_var host "--color-outline-variant";
      text_color = get_css_var host "--color-on-surface";
      axis_label_color = colors.on_surface_variant;
      split_line_color = colors.surface_container_high;
      names = map (λ c. c.name) sorted;
      series_name = host.translate "total_quantity";
      quantities = map (λ c. c.quantity) sorted;
      item_color = colors.primary;
      label_color = colors.on_surface_variant;
    }

pub record Slice : Type 0 where
  pub value : ℕ
  pub name : Text
  pub item_color : Text

pub record PieOption : Type 0 where
  -- the tooltip
  pub background_color : Text
  pub border_color : Text
  pub text_color : Text
  pub legend_color : Text
  pub slices : List Slice

unfoldable pub pie_option : Host → ChartColors → Option DashboardStats → Option PieOption
pie_option host colors none = none
pie_option host colors (some stats) = some record {
  background_color = get_css_var host "--color-surface-container-high";
  border_color = get_css_var host "--color-outline-variant";
  text_color = get_css_var host "--color-on-surface";
  legend_color = colors.on_surface;
  slices =
      record {
        value = stats.normal_count;
        name = host.translate "status_normal";
        item_color = colors.primary;
      }
      ∷ record {
        value = stats.expiring_count;
        name = host.translate "status_expiring";
        item_color = colors.tertiary;
      }
      ∷ record {
        value = stats.expired_count;
        name = host.translate "status_expired";
        item_color = colors.error;
      }
      ∷ [];
}

-- A part of the page that has something to show, or says that there is no data.
pub data Panel (A : Type 0) : Type 0 where
  no_data : Text → Panel A
  panel : A → Panel A

-- The row of a recent movement.
pub record Row : Type 0 where
  pub variant : BadgeVariant
  pub type_label : Text
  pub name : Text
  pub reason : Option Text
  pub is_gain : Bool
  pub delta : Text
  pub time : Text

-- `mv.material?.name ?? mv.material_id`
abbrev pub name_or : Option Material → Text → Text
name_or none id = id
name_or (some m) id = m.name

unfoldable pub movement_row : Host → StockMovement → Row
unfolding format_date_time
movement_row host mv = record {
  variant = movement_badge_variant mv.movement_type;
  type_label = movement_type_label host mv.movement_type;
  name = name_or mv.material mv.material_id;
  reason = or_none mv.reason;
  is_gain = lt_number zero_number mv.quantity_delta;
  delta = delta_text host mv.quantity_delta mv.unit;
  time = format_date_time host mv.created_at default_locale;
}

-- The option and the height in pixels of a chart.
abbrev pub Chart : Type 0 → Type 0
Chart A = A × ℕ

pub record Content : Type 0 where
  pub cards : List StatCard
  pub bar : Panel (Chart (Option BarOption))
  pub pie : Panel (Chart (Option PieOption))
  pub recent : Panel (List Row)

unfoldable pub bar_height : DashboardStats → ℕ
bar_height stats = max 240 (length stats.by_category * 44 + 48)

unfoldable pub stat_cards : Host → DashboardStats → List StatCard
stat_cards host stats =
    record {
      label = host.translate "total_materials";
      value = whole stats.total_materials;
      variant = CardVariant.default;
    }
    ∷ record {
      label = host.translate "total_quantity";
      value = stats.total_quantity;
      variant = CardVariant.default;
    }
    ∷ record {
      label = host.translate "expiring_soon";
      value = whole stats.expiring_count;
      variant = CardVariant.warning;
    }
    ∷ record {
      label = host.translate "expired";
      value = whole stats.expired_count;
      variant = CardVariant.error;
    }
    ∷ []

-- `xs.length === 0 ? … : …`
abbrev pub panel_of : {A B : Type 0} → Host → List A → B → Panel B
panel_of host [] shown = no_data (host.translate "no_data")
panel_of host (x ∷ xs) shown = panel shown

unfoldable pub content : Host → ChartColors → DashboardStats → Content
content host colors stats = record {
  cards = stat_cards host stats;
  bar = panel_of host stats.by_category (bar_option host colors (some stats), bar_height stats);
  pie =
      if stats.total_materials == 0
      then no_data (host.translate "no_data")
      else panel (pie_option host colors (some stats), 280);
  recent = panel_of host stats.recent_movements (map (movement_row host) stats.recent_movements);
}

pub data View : Type 0 where
  loading_view : Text → View
  error_view : Text → View
  empty_view : View
  content_view : Content → View

-- `if (error)`: no error, and an error without a text, count as none.
abbrev pub shown_error : Option Text → Option Text
shown_error none = none
shown_error (some e) = or_none e

abbrev pub settled_view : Host → ChartColors → Option Text → Option DashboardStats → View
settled_view host colors (some e) stats = error_view (host.translate "error" ++ (lit ": " ++ e))
settled_view host colors none none = empty_view
settled_view host colors none (some stats) = content_view (content host colors stats)

unfoldable pub home_page : Host → ChartColors → Dashboard → View
home_page host colors d =
    if d.loading
    then loading_view (host.translate "loading")
    else settled_view host colors (shown_error d.error) d.stats
