-- ===== src/Settings/CronConfigSection.antt =====
-- web/src/pages/settings/CronConfigSection.tsx
pub mod View
pub mod Events
use home_stock.Common.{Option, some, Bool, true, false, []}
use home_stock.Js.Text.{Text, or_none}
use home_stock.Js.Number.{Number}
use home_stock.Js.Host.{Host}
use home_stock.Js.Outcome.{message_or}
use home_stock.Api.{CronConfig, CronConfigUpdate, get_cron_config, update_cron_config}
use home_stock.Async.{Async, ◌>>=◌, ◌>>◌, call, catch, finally, update}

-- The fields that can be edited.
pub record Fields : Type 0 where
  pub enabled : Bool
  pub interval_days : Number
  pub poll_interval : Text
  pub notify_enabled : Bool
  pub notify_time_start : Text
  pub notify_time_end : Text

pub record CronConfigSection : Type 0 where
  pub config : Option CronConfig
  pub loading : Bool
  pub error : Text
  pub saving : Bool
  pub save_success : Text
  pub fields : Fields

unfoldable pub fields_of : CronConfig → Fields
fields_of cfg = record {
  enabled = cfg.enabled;
  interval_days = cfg.expiry_check_interval_days;
  poll_interval = cfg.expiry_check_poll_interval;
  notify_enabled = cfg.notify_enabled;
  notify_time_start = cfg.notify_time_start;
  notify_time_end = cfg.notify_time_end;
}

unfoldable pub fetch_config : Host → Async CronConfigSection (Unit {0})
unfolding fields_of
fetch_config host =
    finally
      (catch
        (do
          cfg ← call get_cron_config
          update (λ s. record s { config = some cfg; fields = fields_of cfg; error = [] }))
        (λ e. update (λ s. record s { error = message_or (host.translate "cronSaveFailed") e })))
      (λ s. record s { loading = false })

unfoldable pub payload : Fields → CronConfigUpdate
payload f = record {
  enabled = some f.enabled;
  expiry_check_interval_days = some f.interval_days;
  expiry_check_poll_interval = or_none f.poll_interval;
  notify_enabled = some f.notify_enabled;
  notify_time_start = or_none f.notify_time_start;
  notify_time_end = or_none f.notify_time_end;
}

unfoldable pub handle_save : Host → Fields → Async CronConfigSection (Unit {0})
unfolding payload
handle_save host f = do
  update (λ s. record s { saving = true })
  update (λ s. record s { error = []; save_success = [] })
  finally
      (catch
        (do
          _ ← call (update_cron_config (payload f))
          update (λ s. record s { save_success = host.translate "cronSaveSuccess" })
          fetch_config host)
        (λ e. update (λ s. record s { error = message_or (host.translate "cronSaveFailed") e })))
      (λ s. record s { saving = false })
