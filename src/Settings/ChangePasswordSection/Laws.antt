-- ===== src/Settings/ChangePasswordSection/Laws.antt =====
-- When the password is changed, and what the section then shows.
use home_stock.Common.{◌≡◌, refl, inl, inr, true, false, [], Bool-cases}
use home_stock.Js.Text.{eq_text, or_text}
use home_stock.Js.Host.{Host}
use home_stock.Js.Outcome.{Outcome, ok, err, message_of}
use home_stock.Api.{Call, Reply, change_password}
use home_stock.Async.{◌>>=◌, ◌>>◌, call, catch, finally, resolve, update}
use home_stock.Async.Rules.Replied.{Replied, thrown-Ends, update_then-Replied, await-Replied}
use home_stock.Async.Rules.{Ends, Calls}
use home_stock.Async.Rules.Ends.{update-Ends, update_then-Ends, guarded-Ends}
use home_stock.Async.Rules.Calls.{call_rules}
use home_stock.Settings.ChangePasswordSection.{
  Passwords, ChangePasswordSection, reset, failure, save, handle_save,
}

module _ (host : Host) (p : Passwords) where
  -- The server is asked for nothing but the change from the old password to the new one, and only
  -- if the new one has been typed twice alike: a property that this call has in that case holds
  -- of every call of the handler.
  pub handle_save-Calls :
      (P : Call → Type 0)
      → (eq_text p.new_password p.confirm_password ≡ true
          → P (change_password p.old_password p.new_password))
      → Calls P (handle_save host p)
  unfolding handle_save save
  handle_save-Calls P h = elim (Bool-cases (eq_text p.new_password p.confirm_password)) [
    | inl same ↦ rw same (let valid = h same in search (valid, call_rules) depth 14)
    | inr different ↦ rw different (search call_rules depth 12)
  ]

  -- What the reply makes of the section, in the state u in which it comes.
  abbrev pub Concluded :
      {A : Type 0} → Outcome A → ChangePasswordSection → ChangePasswordSection → Type 0
  Concluded (ok a) u t = t ≡ record {
    passwords = record { old_password = []; new_password = []; confirm_password = [] };
    saving = false;
    error = u.error;
    success = host.translate "passwordChangeSuccess";
  }
  Concluded (err e) u t = t ≡ record {
    passwords = u.passwords;
    saving = false;
    error = or_text (message_of e) (host.translate "passwordChangeFailed");
    success = u.success;
  }

  -- The handler asks for the change of the old password to the new one, in the state s but that it
  -- is saving and shows neither an error nor a success; in the end it does not throw, and the reply
  -- is concluded.
  abbrev pub Saved :
      ChangePasswordSection
      → (c : Call) → ChangePasswordSection
      → Outcome (Reply c)
      → ChangePasswordSection
      → ChangePasswordSection
      → Outcome (Unit {0})
      → Type 0
  Saved s c waiting r u t o =
      (c ≡ change_password p.old_password p.new_password)
      × (waiting ≡ record s { saving = true; error = []; success = [] })
      × (o ≡ ok tt)
      × Concluded r u t

  saved :
      (s u : ChangePasswordSection)
      (r : Outcome (Reply (change_password p.old_password p.new_password)))
      → Ends
          (Saved s
            (change_password p.old_password p.new_password)
            (record s { saving = true; error = []; success = [] })
            r
            u)
          (finally
            (catch
              (resolve r >>= λ _.
                update (λ s. record s { success = host.translate "passwordChangeSuccess" })
                >> update reset)
              (λ e. update (λ s. record s { error = failure host e })))
            (λ s. record s { saving = false }))
          u
  unfolding reset failure resolve ◌>>=◌
  saved s u (ok a) =
      guarded-Ends _ _ _ _ u (update_then-Ends _ _ _ u (update-Ends _ _ _ (refl, refl, refl, refl)))
  saved s u (err e) = thrown-Ends _ e _ _ _ u refl (refl, refl, refl, refl)

  -- Where the new password has been typed twice alike: the handler asks for the change of the old
  -- password to the new one, marked as saving, without an error or a success. If the reply is good,
  -- the section ends with the text of success, blank fields, and nothing else changed since the
  -- reply but that it is not saving; if it is an error, with the error's message, or a text for
  -- none, and nothing else changed but that it is not saving. In no case does the handler throw.
  pub change_password-Replied :
      (s : ChangePasswordSection)
      → eq_text p.new_password p.confirm_password ≡ true
      → Replied (Saved s) (handle_save host p) s
  unfolding handle_save save ◌>>=◌ catch finally call
  change_password-Replied s same = rw same (
      update_then-Replied _ _ _ s
        (update_then-Replied _ _ _ _ (await-Replied _ _ _ _ λ r u. saved s u r)))
