-- ===== src/Format.antt =====
-- web/src/lib/format.ts: dates, times and prices as texts.
use home_stock.Js.Text.{Text, lit}
use home_stock.Js.Number.{Number}
use home_stock.Js.Host.{Host}

-- The locale of a call that names none.
abbrev pub default_locale : Text
default_locale = lit "zh-CN"

unfoldable pub format_date : Host → Text → Text → Text
format_date host date_str locale = host.locale_date (host.date_of date_str) locale

unfoldable pub format_date_time : Host → Text → Text → Text
format_date_time host date_str locale = host.locale_date_time (host.date_of date_str) locale

unfoldable pub format_currency : Host → Number → Text → Text
format_currency host amount locale = host.currency locale amount
