-- ===== src/Settings/ChangePasswordSection/View.antt =====
-- What web/src/pages/settings/ChangePasswordSection.tsx shows.
use home_stock.Common.{Option, some, Bool, ◌||◌, not, List, [], ◌∷◌}
use home_stock.Js.Text.{Text, truthy, or_none}
use home_stock.Js.Host.{Host}
use home_stock.Ui.{Control, input, submit_text}
use home_stock.Settings.ChangePasswordSection.{ChangePasswordSection}

pub record ChangePasswordView : Type 0 where
  pub title : Text
  pub description : Text
  pub error : Option Text
  pub success : Option Text
  pub controls : List Control
  pub save_disabled : Bool
  pub save_label : Text

unfoldable pub change_password_view : Host → ChangePasswordSection → ChangePasswordView
change_password_view host s = record {
  title = host.translate "passwordSectionTitle";
  description = host.translate "passwordSectionDescription";
  error = or_none s.error;
  success = or_none s.success;
  controls =
      input (host.translate "passwordOldLabel") s.passwords.old_password
        (some (host.translate "passwordOldPlaceholder"))
      ∷ input (host.translate "passwordNewLabel") s.passwords.new_password
          (some (host.translate "passwordNewPlaceholder"))
      ∷ input (host.translate "passwordConfirmLabel") s.passwords.confirm_password
          (some (host.translate "passwordConfirmPlaceholder"))
      ∷ [];
  save_disabled =
      s.saving
      || not (truthy s.passwords.old_password)
      || not (truthy s.passwords.new_password)
      || not (truthy s.passwords.confirm_password);
  save_label =
      submit_text s.saving (host.translate "passwordChanging") (host.translate "common:save");
}
