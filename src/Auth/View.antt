-- ===== src/Auth/View.antt =====
-- What the page of web/src/pages/auth/LoginPage.tsx shows.
use home_stock.Common.{Option, some, [], ◌∷◌, List, Bool}
use home_stock.Js.Text.{Text, or_none}
use home_stock.Js.Host.{Host}
use home_stock.Auth.{LoginPage}
use home_stock.Ui.{Control, input, submit_text}

pub record LoginView : Type 0 where
  pub title : Text
  pub subtitle : Text
  pub error : Option Text
  pub controls : List Control
  pub submit_disabled : Bool
  pub submit_label : Text
  pub footer : Text

unfoldable pub login_view : Host → LoginPage → LoginView
login_view host p = record {
  title = host.translate "loginTitle";
  subtitle = host.translate "loginSubtitle";
  error = or_none p.error;
  controls =
      input (host.translate "username") p.username (some (host.translate "usernamePlaceholder"))
      ∷ input (host.translate "password") p.password (some (host.translate "passwordPlaceholder"))
      ∷ [];
  submit_disabled = p.loading;
  submit_label = submit_text p.loading (host.translate "loggingIn") (host.translate "login");
  footer = host.translate "noAccount";
}
