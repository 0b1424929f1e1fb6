-- ===== src/Settings/Page.antt =====
-- web/src/pages/settings/SettingsPage.tsx: the choice of a section.
use home_stock.Common.{Bool, true, false, List, [], ◌∷◌, map}
use home_stock.Js.Text.{Text}
use home_stock.Js.Host.{Host}

pub data SectionId : Type 0 where
  outbound apikey cron password category : SectionId

unfoldable pub section_items : Host → List (SectionId × Text)
section_items host =
    (outbound, host.translate "settings:navOutbound")
    ∷ (apikey, host.translate "settings:navApiKey")
    ∷ (cron, host.translate "settings:navCron")
    ∷ (password, host.translate "settings:navPassword")
    ∷ (category, host.translate "settings:navCategory")
    ∷ []

-- The state when the page is first rendered, and after a click on the item of a section.
abbrev pub initial_section : SectionId
initial_section = outbound

unfoldable pub choose_section : SectionId → SectionId → SectionId
choose_section id active_section = id

-- `activeSection === item.id`
unfoldable pub is_active : SectionId → SectionId → Bool
is_active outbound outbound = true
is_active apikey apikey = true
is_active cron cron = true
is_active password password = true
is_active category category = true
is_active _ _ = false

-- The component that is shown.
pub data Section : Type 0 where
  outbound_section api_key_section cron_config_section : Section
  change_password_section category_section : Section

unfoldable pub shown_section : SectionId → Section
shown_section outbound = outbound_section
shown_section apikey = api_key_section
shown_section cron = cron_config_section
shown_section password = change_password_section
shown_section category = category_section

-- The items of the page, with the mark of the active one, and the section below.
pub record SettingsView : Type 0 where
  pub title : Text
  pub items : List (Text × Bool)
  pub section : Section

unfoldable pub settings_view : Host → SectionId → SettingsView
unfolding section_items is_active shown_section
settings_view host active_section = record {
  title = host.translate "settings:title";
  items = map (λ (id, label). (label, is_active active_section id)) (section_items host);
  section = shown_section active_section;
}
