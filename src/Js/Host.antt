-- ===== src/Js/Host.antt =====
-- What the browser, the machine's arithmetic and i18next give the client, taken as a parameter.
use home_stock.Common.{String, Option, Bool, List, ℤ}
use home_stock.Js.Text.{Text}
use home_stock.Js.Number.{Number}

pub record Host : Type 0 where
  -- `parseInt(s)`, `Number(s)` and `String(x)`
  pub parse_int : Text → Number
  pub number_of : Text → Number
  pub text_of : Number → Text
  -- the rounding of an exact sum to a double
  pub round : ℤ → Number
  -- `new Date(s).getTime()` in milliseconds, `none` for an invalid date
  pub date_of : Text → Option ℤ
  -- `new Date(ms).toISOString()`, and what it throws on an invalid date
  pub iso_of : ℤ → Text
  -- `d.toLocaleDateString(locale, …)` and `d.toLocaleString(locale, …)` of a date, with the fields
  -- that lib/format.ts names, and `new Intl.NumberFormat(locale, …).format(x)` for a price in yuan
  pub locale_date : Option ℤ → Text → Text
  pub locale_date_time : Option ℤ → Text → Text
  pub currency : Text → Number → Text
  pub range_error : Text
  -- `s.toLowerCase()`
  pub lower : Text → Text
  -- `encodeURIComponent(s)`, and `toString` of the `URLSearchParams` with these pairs
  pub encode_component : Text → Text
  pub query_string : List (Text × Text) → Text
  -- `new URLSearchParams(search).get(key)`
  pub search_param : Text → String → Option Text
  -- `getComputedStyle(document.documentElement).getPropertyValue(name)`
  pub css_property : String → Text
  -- `JSON.stringify(parseChangesDetail(raw), null, 2)`
  pub changes_text : Text → Text
  -- `t(key)`, and `t(key, { name: value, … })`
  pub translate : String → Text
  pub translate_with : String → List (String × Text) → Text
  -- `s.localeCompare(t) < 0`
  pub locale_less : Text → Text → Bool
  -- `i18n.language`, and `new Date().toISOString().slice(0, 10)`
  pub language : Text
  pub today : Text
