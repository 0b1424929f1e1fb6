-- ===== src/Settings/ChangePasswordSection.antt =====
-- web/src/pages/settings/ChangePasswordSection.tsx
pub mod View
pub mod Laws
pub mod Events
use home_stock.Common.{Bool, true, false, [], if◌then◌else◌}
use home_stock.Js.Text.{Text, eq_text, or_text}
use home_stock.Js.Host.{Host}
use home_stock.Js.Outcome.{Thrown, message_of}
use home_stock.Api.{change_password}
use home_stock.Async.{Async, ret, ◌>>=◌, ◌>>◌, call, catch, finally, update}

pub record Passwords : Type 0 where
  pub old_password : Text
  pub new_password : Text
  pub confirm_password : Text

pub record ChangePasswordSection : Type 0 where
  pub passwords : Passwords
  pub saving : Bool
  pub error : Text
  pub success : Text

unfoldable pub reset : ChangePasswordSection → ChangePasswordSection
reset s = record s {
  passwords = record { old_password = []; new_password = []; confirm_password = [] };
}

unfoldable pub failure : Host → Thrown → Text
failure host e = or_text (message_of e) (host.translate "passwordChangeFailed")

-- What follows `setSaving(true)`.
unfoldable pub save : Host → Passwords → Async ChangePasswordSection (Unit {0})
unfolding reset failure
save host p =
    finally
      (catch
        (do
          _ ← call (change_password p.old_password p.new_password)
          update (λ s. record s { success = host.translate "passwordChangeSuccess" })
          update reset)
        (λ e. update (λ s. record s { error = failure host e })))
      (λ s. record s { saving = false })

unfoldable pub handle_save : Host → Passwords → Async ChangePasswordSection (Unit {0})
unfolding save
handle_save host p = do
  update (λ s. record s { error = []; success = [] })
  if eq_text p.new_password p.confirm_password
      then (update (λ s. record s { saving = true }) >> save host p)
      else update (λ s. record s { error = host.translate "passwordMismatch" })
