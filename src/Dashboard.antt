-- ===== src/Dashboard.antt =====
-- web/src/hooks/useDashboardStats.ts
pub mod Unordered
pub mod Counts
pub mod Order
pub mod Cancelled
use home_stock.Common.{
  ℕ, suc, ◌+◌, Option, none, some, Bool, true, false, List, [], ◌∷◌, map, ℤ, if◌then◌else◌, length,
  slice, ◌==◌, sort_by,
}
use home_stock.Js.Text.{Text, lit, truthy, eq_text, or_text}
use home_stock.Js.Number.{Number, zero_number, add_number, lt_number}
use home_stock.Js.Host.{Host}
use home_stock.Js.Outcome.{message_or}
use home_stock.Types.{Category, MaterialSummary, StockMovement}
use home_stock.Types.Status.{InventoryStatus, normal, expiring, expired, get_inventory_status}
use home_stock.Api.{
  MaterialQuery, StockMovementQuery, list_materials, list_categories, list_movements,
}
use home_stock.Async.{Task, Async, ◌>>=◌, ◌>>◌, call_three, catch, finally, update, to_task}

pub record CategoryStat : Type 0 where
  pub name : Text
  pub quantity : Number
  pub count : ℕ

pub record DashboardStats : Type 0 where
  pub total_materials : ℕ
  pub total_quantity : Number
  pub expiring_count : ℕ
  pub expired_count : ℕ
  pub normal_count : ℕ
  pub by_category : List CategoryStat
  pub recent_movements : List StockMovement

-- `catStats`, a map in the order of insertion.
abbrev pub CategoryStats : Type 0
CategoryStats = List (Text × CategoryStat)

unfoldable pub category_key : MaterialSummary → Text
category_key m = or_text m.category_id (lit "__uncategorized__")

unfoldable pub category_name : MaterialSummary → Text
category_name m = elim m.category [ none ↦ or_text m.category_id (lit "未分类") | some c ↦ c.name ]

abbrev counted : Host → Number → CategoryStat → CategoryStat
counted host q s = record s { quantity = add_number host.round s.quantity q; count = s.count + 1 }

-- `existing = catStats.get(key) ?? …`, its two updates and `catStats.set`.
unfoldable pub count_in : Host → Text → Text → Number → CategoryStats → CategoryStats
count_in host key name q [] =
    (key, counted host q (record { name = name; quantity = zero_number; count = 0 })) ∷ []
count_in host key name q ((k, s) ∷ rest) =
    let counted_rest = count_in host key name q rest in
    if eq_text k key then (k, counted host q s) ∷ rest else (k, s) ∷ counted_rest

-- The variables of the loop.
pub record Tally : Type 0 where
  pub total_quantity : Number
  pub expiring_count : ℕ
  pub expired_count : ℕ
  pub normal_count : ℕ
  pub cat_stats : CategoryStats

abbrev pub empty_tally : Tally
empty_tally = record {
  total_quantity = zero_number;
  expiring_count = 0;
  expired_count = 0;
  normal_count = 0;
  cat_stats = [];
}

unfoldable pub count_status : InventoryStatus → Tally → Tally
count_status expiring t = record t { expiring_count = t.expiring_count + 1 }
count_status expired t = record t { expired_count = t.expired_count + 1 }
count_status normal t = record t { normal_count = t.normal_count + 1 }

-- The body of the loop. All its readings of the clock give `now`.
unfoldable pub tally_material : Host → ℕ → ℤ → MaterialSummary → Tally → Tally
tally_material host remind_days now m t =
    let u = count_status (get_inventory_status host remind_days now m.nearest_expire_at) t in
    record u {
      total_quantity = add_number host.round t.total_quantity m.total_quantity;
      cat_stats = count_in host (category_key m) (category_name m) m.total_quantity t.cat_stats;
    }

unfoldable pub tally : Host → ℕ → ℤ → List MaterialSummary → Tally → Tally
tally host remind_days now [] t = t
tally host remind_days now (m ∷ ms) t =
    tally host remind_days now ms (tally_material host remind_days now m t)

-- `(a, b) => b.quantity - a.quantity` is negative.
abbrev pub more : CategoryStat → CategoryStat → Bool
more a b = lt_number b.quantity a.quantity

unfoldable pub by_category : CategoryStats → List CategoryStat
by_category stats = sort_by more (map (λ (k, s). s) stats)

-- What `setStats` is given.
unfoldable pub stats_of : Host → ℕ → ℤ → List MaterialSummary → List StockMovement → DashboardStats
stats_of host remind_days now materials movements =
    let t = tally host remind_days now materials empty_tally in
    record {
      total_materials = length materials;
      total_quantity = t.total_quantity;
      expiring_count = t.expiring_count;
      expired_count = t.expired_count;
      normal_count = t.normal_count;
      by_category = by_category t.cat_stats;
      recent_movements = slice 0 10 movements;
    }

-- The hook's state. Each run of the effect has a number; `cancelled` of a run is that another has
-- taken its place, or that the component is gone.
pub record Dashboard : Type 0 where
  pub stats : Option DashboardStats
  pub loading : Bool
  pub error : Option Text
  pub run : ℕ

-- `if (!cancelled) …`
abbrev pub unless_cancelled : ℕ → (Dashboard → Dashboard) → Dashboard → Dashboard
unless_cancelled run f s = if s.run == run then f s else s

abbrev pub all_materials : MaterialQuery
all_materials = record { category_id = none; keyword = none; show_zero_stock = none }

abbrev pub all_movements : StockMovementQuery
all_movements = record {
  material_id = none;
  lot_id = none;
  movement_type = none;
  start_date = none;
  end_date = none;
}

unfoldable pub fetch_stats : Host → ℕ → ℤ → ℕ → Async Dashboard (Unit {0})
fetch_stats host remind_days now run = do
  update (λ s. record s { loading = true })
  update (λ s. record s { error = none })
  finally
      (catch
        (do
          (m, (c, v)) ←
              call_three (list_materials all_materials) list_categories
                (list_movements all_movements)
          update (
              unless_cancelled run λ s. record s {
                stats = some (stats_of host remind_days now m.materials v.movements);
              }))
        (λ e. update (
          unless_cancelled run
            λ s. record s { error = some (message_or (lit "Unknown error") e) })))
      (unless_cancelled run λ s. record s { loading = false })
