-- ===== src/Layout/Header.antt =====
-- web/src/components/layout/Header.tsx: the search, the theme's button and the user's letter. The
-- choice of the language is in Language.
use home_stock.Common.{Option, none, some, Bool, ◌&&◌, [], ◌∷◌, ◌++◌, if◌then◌else◌}
use home_stock.Js.Text.{Text, lit, truthy, trim, eq_text}
use home_stock.Js.Host.{Host}
use home_stock.Types.{User}
use home_stock.Stores.{Theme, light, dark, AppState}

-- The query string that `navigate` gets, without the question mark.
unfoldable pub search_query : Host → Text → Text
search_query host query = lit "keyword=" ++ host.encode_component (trim query)

-- A key in the field of the search: the path that `navigate` is called with, if it is.
unfoldable pub handle_search_key_down : Host → Text → Text → Option Text
handle_search_key_down host key query =
    if eq_text key (lit "Enter") && truthy (trim query)
    then some (lit "/inventory?" ++ search_query host query)
    else none

-- The theme that a click on the button chooses.
unfoldable pub toggled_theme : Bool → Theme
toggled_theme is_dark = if is_dark then light else dark

-- `s.charAt(0)`
abbrev pub first_char : Text → Text
first_char [] = []
first_char (c ∷ s) = c ∷ []

unfoldable pub avatar : Host → Option User → Text
avatar host none = host.translate "userFallback"
avatar host (some user) = first_char user.display_name

pub record HeaderView : Type 0 where
  pub sidebar_label : Text
  pub search_placeholder : Text
  pub search_value : Text
  pub language_label : Text
  pub theme_label : Text
  pub avatar_text : Text

unfoldable pub header_view : Host → AppState → Text → Bool → Option User → HeaderView
header_view host app query is_dark user = record {
  sidebar_label =
      if app.collapsed
      then host.translate "toggleSidebarOpen"
      else host.translate "toggleSidebarClose";
  search_placeholder = host.translate "searchPlaceholder";
  search_value = query;
  language_label = host.translate "switchLanguage";
  theme_label = if is_dark then host.translate "toggleLight" else host.translate "toggleDark";
  avatar_text = avatar host user;
}
