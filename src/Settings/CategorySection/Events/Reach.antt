-- ===== src/Settings/CategorySection/Events/Reach.antt =====
-- What the section asks of the server under every interleaving, and a name that is added twice.
use home_stock.Common.{◌≡◌, refl, subst, true, false, List, [], ◌∷◌, ◌++◌, Bool-cases, inl, inr}
use home_stock.Js.Text.{lit, truthy, trim, eq_text}
use home_stock.Js.Host.{Host}
use home_stock.Js.Outcome.{message_or}
use home_stock.Api.{Call, create_category}
use home_stock.Async.{Task, ◌>>=◌, ◌>>◌, catch, finally, call, update, to_task, resolve}
use home_stock.Async.Rules.{TaskCalls}
use home_stock.Async.Rules.Calls.{to_task-Calls, done-TaskCalls}
use home_stock.Async.Pool.{Config, settle, fire, Reach, here, next, event}
use home_stock.Async.Pool.Calls.{WaitingCalls, Reach-WaitingCalls}
use home_stock.Settings.CategorySection.{CategorySection, handle_add, fetch_categories}
use home_stock.Settings.CategorySection.Laws.{
  IsNamed, fetch_categories-Calls, handle_add-Calls, handle_update-Calls, handle_delete-Calls,
}
use home_stock.Settings.CategorySection.Events.{
  Event, mounted, new_name_key, add_clicked, edit_name_key, update_clicked, delete_clicked, Offered,
  react, category_section,
}

module _ (host : Host) where
  react-Calls :
      (s : CategorySection) (e : Event) → Offered s e → TaskCalls IsNamed (react host s e).task
  unfolding react
  react-Calls s mounted offered = to_task-Calls IsNamed _ (fetch_categories-Calls host)
  react-Calls s (new_name_key key) offered = elim (Bool-cases (eq_text key (lit "Enter"))) [
    | inl enter ↦ rw enter (to_task-Calls IsNamed _ (handle_add-Calls host s.new_name))
    | inr other ↦ rw other (done-TaskCalls CategorySection IsNamed)
  ]
  react-Calls s add_clicked offered = to_task-Calls IsNamed _ (handle_add-Calls host s.new_name)
  react-Calls s (edit_name_key cat key) offered = elim (Bool-cases (eq_text key (lit "Enter"))) [
    | inl enter ↦ rw enter (to_task-Calls IsNamed _ (handle_update-Calls host s.edit_name cat.id))
    | inr other ↦ elim (Bool-cases (eq_text key (lit "Escape"))) [
      | inl escape ↦ rw (other, escape) (done-TaskCalls CategorySection IsNamed)
      | inr neither ↦ rw (other, neither) (done-TaskCalls CategorySection IsNamed)
    ]
  ]
  react-Calls s (update_clicked cat) offered =
      to_task-Calls IsNamed _ (handle_update-Calls host s.edit_name cat.id)
  react-Calls s (delete_clicked confirmed cat) offered =
      to_task-Calls IsNamed _ (handle_delete-Calls host confirmed cat.id)
  react-Calls s _ offered = done-TaskCalls CategorySection IsNamed

  -- Whatever the user does in the section and in whatever order the replies come, every category
  -- that a handler creates or renames, now or after any further replies, gets a name that is not
  -- blank and has no white space at its ends.
  pub Reach-IsNamed :
      (s : CategorySection) (c : Config CategorySection)
      → Reach (category_section host) (record { state = s; waiting = [] }) c
      → WaitingCalls IsNamed c
  Reach-IsNamed s c r =
      Reach-WaitingCalls IsNamed (category_section host) react-Calls
        {c = record { state = s; waiting = [] }} tt r

-- The calls that the waiting handlers wait for.
abbrev pub awaited : {S : Type 0} → List (Task S) → List Call
awaited [] = []
awaited (Task.await c k ∷ ts) = c ∷ awaited ts
awaited (_ ∷ ts) = awaited ts

module _ (host : Host) (s : CategorySection) where
  abbrev adding : CategorySection → CategorySection
  adding t = record t { adding = true; error = [] }

  -- What is left of an addition at its first wait.
  rest_of_add : Task CategorySection
  rest_of_add = to_task (
      finally
        (catch
          (do
            _ ← call (create_category (trim s.new_name))
            update (λ t. record t { new_name = [] })
            fetch_categories host)
          (λ e.
            update (λ t. record t { error = message_or (host.translate "categoryAddFailed") e })))
        (λ t. record t { adding = false }))

  entered :
      (t : CategorySection) (ws : List (Task CategorySection))
      → t.new_name ≡ s.new_name
      → truthy (trim s.new_name) ≡ true
      → fire
          (category_section host)
          (record { state = t; waiting = ws })
          (new_name_key (lit "Enter"))
        ≡ record { state = adding t; waiting = ws ++ rest_of_add ∷ [] }
  unfolding fire react handle_add settle to_task ◌>>=◌ catch finally call update resolve rest_of_add
  entered t ws same named = rw (same, named) refl

  -- The key Enter is not guarded as the button is. In a section that has loaded, with a new name
  -- that is not blank, a second Enter before the first reply asks the server to create the category
  -- again.
  pub enter_twice :
      s.loading ≡ false
      → truthy (trim s.new_name) ≡ true
      → (c : Config CategorySection) × Reach
          (category_section host)
          (record { state = s; waiting = [] })
          c
        × (awaited c.waiting
            ≡ create_category (trim s.new_name) ∷ create_category (trim s.new_name) ∷ [])
  unfolding rest_of_add to_task catch finally call ◌>>=◌
  enter_twice loaded named =
      let first = entered s [] refl named in
      let second = entered (adding s) (rest_of_add ∷ []) refl named in
      (
        record { state = adding (adding s); waiting = rest_of_add ∷ rest_of_add ∷ [] },
        subst (Reach (category_section host) (record { state = s; waiting = [] })) second (
            next
              (subst (Reach (category_section host) (record { state = s; waiting = [] })) first
                (next here (event (new_name_key (lit "Enter")) loaded)))
              (event (new_name_key (lit "Enter")) loaded)),
        refl,
      )
