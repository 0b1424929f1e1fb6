-- ===== src/Settings/OutboundSection/View.antt =====
-- What web/src/pages/settings/OutboundSection.tsx shows.
use home_stock.Common.{
  Option, none, some, Bool, true, false, ◌||◌, not, List, [], ◌∷◌, ◌++◌, map, if◌then◌else◌,
}
use home_stock.Js.Text.{Text, lit, truthy, eq_text}
use home_stock.Js.Host.{Host}
use home_stock.Api.{EndpointConfig}
use home_stock.Ui.{Control, input, checkbox, Section, spinner, section, nothing_text, when}
use home_stock.Settings.OutboundSection.{is_editing, OutboundSection, Fields}

-- The card in which an endpoint is added or edited.
pub record FormCard : Type 0 where
  pub title : Text
  pub controls : List Control
  pub save_disabled : Bool
  pub save_label : Text
  pub cancel_label : Text

pub record EndpointCard : Type 0 where
  pub name : Text
  pub enabled : Bool
  pub enabled_label : Text
  pub url : Text
  pub test_disabled : Bool

pub record OutboundView : Type 0 where
  pub title : Text
  pub description : Text
  pub add_label : Text
  pub form : Option FormCard
  pub endpoints : List EndpointCard
  pub nothing : Option Text
  -- whether the test succeeded, and its text
  pub test_result : Option (Bool × Text)

unfoldable pub form_controls : Host → Fields → List Control
form_controls host f =
    (if is_editing f.editing
      then []
      else input (host.translate "outboundName") f.name (some (lit "my-webhook")) ∷ [])
    ++ (input (host.translate "outboundUrl") f.url (some (lit "https://example.com/webhook"))
        ∷ checkbox (host.translate "outboundEnabled") none f.enabled
        ∷ [])

unfoldable pub form_card : Host → OutboundSection → FormCard
unfolding form_controls
form_card host s = record {
  title =
      if is_editing s.fields.editing
      then host.translate "outboundEdit"
      else host.translate "outboundAdd";
  controls = form_controls host s.fields;
  save_disabled = s.saving || not (truthy s.fields.name) || not (truthy s.fields.url);
  save_label = host.translate "common:save";
  cancel_label = host.translate "common:cancel";
}

unfoldable pub endpoint_card : Host → OutboundSection → EndpointConfig → EndpointCard
endpoint_card host s ep = record {
  name = ep.name;
  enabled = ep.enabled;
  enabled_label =
      if ep.enabled then host.translate "outboundEnabled" else host.translate "outboundDisabled";
  url = ep.url;
  test_disabled = s.testing;
}

unfoldable pub shown_test : Host → Text → Option (Bool × Text)
shown_test host result =
    if truthy result
    then some (
        if eq_text result (lit "sent")
        then (true, host.translate "outboundTestSuccess")
        else (false, host.translate "outboundTestFailed" ++ (lit ": " ++ result)))
    else none

unfoldable pub outbound_view : Host → OutboundSection → Section OutboundView
unfolding form_card endpoint_card shown_test
outbound_view host s =
    if s.loading
    then spinner
    else section record {
      title = host.translate "outboundSectionTitle";
      description = host.translate "outboundSectionDescription";
      add_label = host.translate "outboundAdd";
      form = when s.show_form (form_card host s);
      endpoints = map (endpoint_card host s) s.endpoints;
      nothing = nothing_text (host.translate "outboundEmpty") s.endpoints;
      test_result = shown_test host s.test_result;
    }
