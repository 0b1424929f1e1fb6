-- ===== src/Inventory/Page/Locations.antt =====
-- The locations that the page's filter offers, and those of a material.
pub mod Laws
use home_stock.Common.{
  ◌-◌, not, List, [], ◌∷◌, ◌++◌, map, if◌then◌else◌, length, slice, filter, leb, ◌==◌, sort_by,
}
use home_stock.Js.Text.{Text, lit, truthy, eq_text}
use home_stock.Js.Number.{whole}
use home_stock.Js.Host.{Host}
use home_stock.Types.{StockLot}

-- `Array.from(new Set(xs))`: each text where it first stands.
unfoldable pub distinct : List Text → List Text
distinct [] = []
distinct (x ∷ xs) = x ∷ filter (λ y. not (eq_text x y)) (distinct xs)

unfoldable pub location_options : Host → List StockLot → List Text
location_options host lots =
    sort_by host.locale_less (distinct (filter truthy (map (λ lot. lot.location) lots)))

-- `xs.join(' / ')`
abbrev pub join : List Text → Text
join [] = []
join (x ∷ []) = x
join (x ∷ y ∷ ys) = x ++ (lit " / " ++ join (y ∷ ys))

unfoldable pub format_locations : Host → List Text → Text
format_locations host locations =
    if length locations == 0
    then lit "—"
    else if leb (length locations) 2
    then join locations
    else join (slice 0 2 locations) ++ (lit " +" ++ host.text_of (whole (length locations - 2)))
