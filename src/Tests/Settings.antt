-- ===== src/Tests/Settings.antt =====
-- The laws of the settings' sections at concrete inputs.
use home_stock.Common.{ℕ, ◌≡◌, refl, none, true, false, [], ◌∷◌}
use home_stock.Js.Text.{lit, trim}
use home_stock.Async.Rules.Replied.{Replied}
use home_stock.Settings.CategorySection.{CategorySection}
use home_stock.Settings.CategorySection.Laws.{IsNamed}
use home_stock.Settings.ChangePasswordSection
use home_stock.Settings.ChangePasswordSection.{Passwords, ChangePasswordSection}
use home_stock.Settings.ChangePasswordSection.Laws.{Saved, change_password-Replied}
use home_stock.Settings.CategorySection.Events as CategoryEvents
use home_stock.Settings.CategorySection.Events.{category_section}
use home_stock.Settings.CategorySection.Events.Reach.{Reach-IsNamed, enter_twice, awaited}
use home_stock.Settings.OutboundSection.{OutboundSection}
use home_stock.Settings.OutboundSection.Events as OutboundEvents
use home_stock.Settings.OutboundSection.Events.{outbound_section, IsEndpoint, Reach-IsEndpoint}
use home_stock.Async.Pool.{Config, fire, Reach, event, next, here}
use home_stock.Async.Pool.Calls.{WaitingCalls}
use home_stock.Api.{create_category}
use home_stock.Api.{Call, Reply}
use home_stock.Js.Outcome.{Outcome, err, other}
use home_stock.Async.Pool.Schedule.{after, in_order, in_order-Chooses}
use home_stock.Settings.CategorySection.Events.Settled.{opened, IsIdle, category_section-rest}
use home_stock.Tests.Fixtures.{host}

categories : CategorySection
categories = record {
  categories = [];
  loading = false;
  error = [];
  new_name = lit " food ";
  adding = false;
  editing_id = none;
  edit_name = lit "tools";
  saving_edit = λ k. false;
  deleting_id = none;
}

abbrev passwords : Passwords
passwords = record {
  old_password = lit "old";
  new_password = lit "new";
  confirm_password = lit "new";
}

section : ChangePasswordSection
section = record { passwords = passwords; saving = false; error = []; success = [] }

change_password-Replied_example :
    Replied
      (Saved host passwords section)
      (ChangePasswordSection.handle_save host passwords)
      section
change_password-Replied_example = change_password-Replied host passwords section refl

entered : Config CategorySection
entered =
    fire (category_section host) (record { state = categories; waiting = [] })
      (CategoryEvents.new_name_key (lit "Enter"))

Reach-IsNamed_example : WaitingCalls IsNamed entered
unfolding entered categories
Reach-IsNamed_example =
    Reach-IsNamed host categories entered
      (next here (event (CategoryEvents.new_name_key (lit "Enter")) refl))

enter_twice_example :
    (c : Config CategorySection) × Reach
      (category_section host)
      (record { state = categories; waiting = [] })
      c
    × (awaited c.waiting
        ≡ create_category (trim categories.new_name)
          ∷ create_category (trim categories.new_name)
          ∷ [])
unfolding categories trim
enter_twice_example = enter_twice host categories refl refl

abbrev outbound : OutboundSection
outbound = record {
  endpoints = [];
  loading = false;
  show_form = true;
  fields = record {
    editing = none;
    name = lit "hook";
    url = lit "https://example.com";
    enabled = true;
  };
  saving = false;
  test_result = [];
  testing = false;
  alerts = [];
}

saved_endpoint : Config OutboundSection
saved_endpoint =
    fire outbound_section (record { state = outbound; waiting = [] }) OutboundEvents.save_clicked

Reach-IsEndpoint_example : WaitingCalls IsEndpoint saved_endpoint
unfolding saved_endpoint
Reach-IsEndpoint_example =
    Reach-IsEndpoint outbound saved_endpoint
      (next here (event OutboundEvents.save_clicked (refl, refl, refl, refl, refl)))

lost : (c : Call) → Outcome (Reply c)
lost c = err (other [])

category_section-rest_example :
    (n : ℕ) × ((after in_order (λ c. lost) n (opened host)).waiting ≡ [])
    × IsIdle (after in_order (λ c. lost) n (opened host)).state
category_section-rest_example =
    category_section-rest host (opened host) in_order (λ c. lost) here
      (in_order-Chooses (λ c. lost))
