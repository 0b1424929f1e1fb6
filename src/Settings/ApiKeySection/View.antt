-- ===== src/Settings/ApiKeySection/View.antt =====
-- What web/src/pages/settings/ApiKeySection.tsx shows.
use home_stock.Common.{Option, some, Bool, ◌||◌, not, List, if◌then◌else◌}
use home_stock.Js.Text.{Text, truthy, trim}
use home_stock.Js.Host.{Host}
use home_stock.Ui.{Control, input, Section, spinner, section, nothing_text, when}
use home_stock.Settings.ApiKeySection.{ApiKeySection}

-- The card in which a key is added.
pub record AddCard : Type 0 where
  pub title : Text
  pub control : Control
  pub save_disabled : Bool
  pub save_label : Text
  pub cancel_label : Text

pub record ApiKeyView : Type 0 where
  pub title : Text
  pub description : Text
  pub add_label : Text
  pub add_card : Option AddCard
  pub keys : List Text
  pub nothing : Option Text

unfoldable pub add_card : Host → ApiKeySection → AddCard
add_card host s = record {
  title = host.translate "apiKeyAdd";
  control =
      input (host.translate "apiKeyLabel") s.new_key (some (host.translate "apiKeyPlaceholder"));
  save_disabled = s.adding || not (truthy (trim s.new_key));
  save_label = host.translate "common:save";
  cancel_label = host.translate "common:cancel";
}

unfoldable pub api_key_view : Host → ApiKeySection → Section ApiKeyView
api_key_view host s =
    if s.loading
    then spinner
    else section record {
      title = host.translate "apiKeySectionTitle";
      description = host.translate "apiKeySectionDescription";
      add_label = host.translate "apiKeyAdd";
      add_card = when s.show_add (add_card host s);
      keys = s.keys;
      nothing = nothing_text (host.translate "apiKeyEmpty") s.keys;
    }
