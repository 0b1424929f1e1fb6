-- ===== src/Js/Dates.antt =====
-- `toDateInput` and `toRFC3339`, which the inventory dialogs declare alike.
use home_stock.Common.{Option, none, some, [], if◌then◌else◌, slice}
use home_stock.Js.Text.{Text, truthy}
use home_stock.Js.Host.{Host}
use home_stock.Js.Outcome.{Outcome, ok, err, error, ◌>>=◌}

unfoldable pub to_date_input : Option Text → Text
to_date_input none = []
to_date_input (some value) = if truthy value then slice 0 10 value else []

-- `new Date(s).toISOString()`
unfoldable pub iso_string : Host → Text → Outcome Text
iso_string host s = elim (host.date_of s) [
  | none ↦ err (error host.range_error)
  | some ms ↦ ok (host.iso_of ms)
]

unfoldable pub to_rfc3339 : Host → Text → Outcome Text
unfolding iso_string
to_rfc3339 host date_input = if truthy date_input then iso_string host date_input else ok []

-- `s ? toRFC3339(s) : undefined` and `s ? toRFC3339(s) : ''`
unfoldable pub optional_date : Host → Text → Outcome (Option Text)
unfolding to_rfc3339
optional_date host s = if truthy s then (do d ← to_rfc3339 host s; ok (some d)) else ok none

unfoldable pub date_or_blank : Host → Text → Outcome Text
unfolding to_rfc3339
date_or_blank host s = if truthy s then to_rfc3339 host s else ok []
