-- ===== src/Settings/CronConfigSection/View.antt =====
-- What web/src/pages/settings/CronConfigSection.tsx shows.
use home_stock.Common.{Option, none, some, Bool, List, [], ◌∷◌, if◌then◌else◌}
use home_stock.Js.Text.{Text, lit, or_none, or_text}
use home_stock.Js.Host.{Host}
use home_stock.Api.{CronConfig}
use home_stock.Ui.{Control, input, checkbox, Section, spinner, section, submit_text}
use home_stock.Settings.CronConfigSection.{CronConfigSection, Fields}

pub record CronConfigView : Type 0 where
  pub title : Text
  pub description : Text
  pub error : Option Text
  pub success : Option Text
  pub schedule_title : Text
  pub schedule : List Control
  pub interval_hint : Text
  pub poll_hint : Text
  pub notify_title : Text
  pub notify : List Control
  pub save_disabled : Bool
  pub save_label : Text

-- `config?.expiry_check_poll_interval || '30m'`
unfoldable pub poll_placeholder : Option CronConfig → Text
poll_placeholder none = lit "30m"
poll_placeholder (some cfg) = or_text cfg.expiry_check_poll_interval (lit "30m")

unfoldable pub schedule_controls : Host → Option CronConfig → Fields → List Control
unfolding poll_placeholder
schedule_controls host config f =
    checkbox (host.translate "cronEnabled") (some (host.translate "cronEnabledHint")) f.enabled
    ∷ input (host.translate "cronIntervalDays") (host.text_of f.interval_days) none
    ∷ input (host.translate "cronPollInterval") f.poll_interval (some (poll_placeholder config))
    ∷ []

unfoldable pub notify_controls : Host → Fields → List Control
notify_controls host f =
    checkbox (host.translate "notifyEnabled") (some (host.translate "notifyEnabledHint"))
      f.notify_enabled
    ∷ input (host.translate "notifyTimeStart") f.notify_time_start none
    ∷ input (host.translate "notifyTimeEnd") f.notify_time_end none
    ∷ []

unfoldable pub cron_config_view : Host → CronConfigSection → Section CronConfigView
unfolding schedule_controls notify_controls
cron_config_view host s =
    if s.loading
    then spinner
    else section record {
      title = host.translate "cronSectionTitle";
      description = host.translate "cronSectionDescription";
      error = or_none s.error;
      success = or_none s.save_success;
      schedule_title = host.translate "cronSectionTitle";
      schedule = schedule_controls host s.config s.fields;
      interval_hint = host.translate "cronIntervalDaysHint";
      poll_hint = host.translate "cronPollIntervalHint";
      notify_title = host.translate "notifySectionTitle";
      notify = notify_controls host s.fields;
      save_disabled = s.saving;
      save_label =
          submit_text s.saving (host.translate "modelSaving") (host.translate "common:save");
    }
