-- ===== src/Stores.antt =====
-- web/src/store/themeStore.ts with web/src/hooks/useTheme.ts, and web/src/store/appStore.ts. The
-- system's preference is an argument; `localStorage` keeps the theme, or throws on every use.
pub mod Laws
use home_stock.Common.{Option, none, some, Bool, true, false, not, List, [], ◌∷◌, if◌then◌else◌}

pub data Theme : Type 0 where
  light dark system : Theme

-- `localStorage`: whether it can be used, and the value of `theme`.
pub record Storage : Type 0 where
  pub available : Bool
  pub theme : Option Theme

-- The store, the class `dark` of the document, and the storage.
pub record Appearance : Type 0 where
  pub theme : Theme
  pub is_dark : Bool
  pub storage : Storage

abbrev or_system : Option Theme → Theme
or_system none = system
or_system (some t) = t

unfoldable pub read_stored : Storage → Theme
read_stored s = if s.available then or_system s.theme else system

-- Whether the theme is dark, where the system's preference is as given.
unfoldable pub resolved_dark : Bool → Theme → Bool
resolved_dark system_dark light = false
resolved_dark system_dark dark = true
resolved_dark system_dark system = system_dark

-- What the module does when it is loaded.
unfoldable pub load : Bool → Storage → Appearance
unfolding read_stored resolved_dark
load system_dark storage = record {
  theme = read_stored storage;
  is_dark = resolved_dark system_dark (read_stored storage);
  storage = storage;
}

-- `localStorage.setItem('theme', theme)`
unfoldable pub store : Theme → Storage → Storage
store theme s = if s.available then record s { theme = some theme } else s

-- `setTheme`, with the effect of `useTheme` that follows.
unfoldable pub set_theme : Bool → Theme → Appearance → Appearance
unfolding store resolved_dark
set_theme system_dark theme a = record {
  theme = theme;
  is_dark = resolved_dark system_dark theme;
  storage = store theme a.storage;
}

-- The effect of the first render.
unfoldable pub mount : Bool → Appearance → Appearance
unfolding set_theme
mount system_dark a = set_theme system_dark a.theme a

-- The listener for changes of the preference, which is there while the theme is the system's.
unfoldable pub dark_after : Bool → Theme → Bool → Bool
dark_after system_dark light is_dark = is_dark
dark_after system_dark dark is_dark = is_dark
dark_after system_dark system is_dark = system_dark

unfoldable pub preference_changed : Bool → Appearance → Appearance
unfolding dark_after
preference_changed system_dark a = record a { is_dark = dark_after system_dark a.theme a.is_dark }

pub data Event : Type 0 where
  theme_chosen : Theme → Event
  preference : Bool → Event

-- The system's preference, and the appearance.
abbrev pub World : Type 0
World = Bool × Appearance

unfoldable pub react : Event → World → World
unfolding set_theme preference_changed
react (theme_chosen t) (system_dark, a) = (system_dark, set_theme system_dark t a)
react (preference b) (system_dark, a) = (b, preference_changed b a)

unfoldable pub run : List Event → World → World
unfolding react
run [] w = w
run (e ∷ es) w = run es (react e w)

-- web/src/store/appStore.ts
pub record AppState : Type 0 where
  pub collapsed : Bool

unfoldable pub toggle_collapsed : AppState → AppState
toggle_collapsed s = record { collapsed = not s.collapsed }

unfoldable pub set_collapsed : Bool → AppState → AppState
set_collapsed value s = record { collapsed = value }
