-- ===== src/Inventory/Page/Events/Rest.antt =====
-- Loads of the inventory page and submissions of its dialogs, and the mark `loading`.
use home_stock.Common.{◌≡◌, refl, inl, inr, false}
use home_stock.Js.Text.{Text}
use home_stock.Js.Host.{Host}
use home_stock.Js.Outcome.{Thrown, Outcome, ok, err, message_or}
use home_stock.Api.{Call}
use home_stock.Async.{
  Async, throw, ◌>>=◌, catch, finally, call, call_three, resolve, update, to_task,
}
use home_stock.Async.Slot.{Slot}
use home_stock.Async.Pool.Rest.{Brings, Restores}
use home_stock.Inventory.Shell.{Shell, set_error, set_submitting, submit}
use home_stock.Inventory.Page.{Filters, InventoryPage, loaded, load_failed, load_data}
use home_stock.Inventory.Page.Loading.{LoadReply, concluding}

abbrev pub NotLoading : InventoryPage → Type 0
NotLoading s = s.loading ≡ false

module _ (host : Host) (f : Filters) {A : Type 0} (k : Unit {0} → Async InventoryPage A)
    (h : Thrown → Async InventoryPage A) (g : InventoryPage → InventoryPage)
    (tail : (s : InventoryPage)
      → NotLoading s
      → Brings NotLoading (to_task (finally (catch (k tt) h) g)) s) where
  concluded-Brings :
      (o : Outcome LoadReply) (s : InventoryPage)
      → Brings NotLoading
          (to_task (
            finally
              (catch
                (finally
                    (catch
                      (resolve o >>= λ x.
                        update (loaded host f x.0.materials x.1.0.lots x.1.1.categories))
                      (λ e. update (load_failed host e)))
                    (λ t. record t { loading = false })
                  >>= k)
                h)
              g))
          s
  unfolding Brings to_task ◌>>=◌ catch finally resolve update
  concluded-Brings (ok x) s = tail _ refl
  concluded-Brings (err e) s = tail _ refl

  load_then-Brings :
      (s : InventoryPage)
      → Brings NotLoading (to_task (finally (catch (load_data host f >>= k) h) g)) s
  unfolding Brings load_data to_task ◌>>=◌ catch finally call_three update
  load_then-Brings s = λ r u. concluded-Brings r u

  -- A call, a load, and what follows.
  called-Restores :
      (c : Call)
      → ((e : Thrown) → Restores NotLoading (to_task (finally (catch (throw e) h) g)))
      → Restores NotLoading
          (to_task (finally (catch (call c >>= (λ _. load_data host f) >>= k) h) g))
  unfolding Restores Brings load_data to_task ◌>>=◌ catch finally update call call_three resolve
  called-Restores c failed (ok a) = inr load_then-Brings
  called-Restores c failed (err e) = failed e

module _ (host : Host) (f : Filters) where
  concluding-Brings :
      (o : Outcome LoadReply) (s : InventoryPage) → Brings NotLoading (concluding host f o) s
  unfolding Brings concluding to_task ◌>>=◌ catch finally resolve update
  concluding-Brings (ok x) s = refl
  concluding-Brings (err e) s = refl

  pub load_data-Brings : (s : InventoryPage) → Brings NotLoading (to_task (load_data host f)) s
  unfolding Brings concluding load_data to_task ◌>>=◌ catch finally call_three resolve update
  load_data-Brings s = λ r u. concluding-Brings r u

  -- A submission: the call, the load, and the dialog is closed.
  module _ (slot : Slot InventoryPage Shell) (fallback : Text)
      (on_close : InventoryPage → InventoryPage)
      (calm : (p : Shell → Shell) (s : InventoryPage) → NotLoading s → NotLoading (slot.put p s))
      (closes : (s : InventoryPage) → NotLoading s → NotLoading (on_close s)) where
    pub error-Restores : (m : Text) → Restores NotLoading (to_task (update (set_error slot m)))
    unfolding Restores to_task update set_error
    error-Restores m = inl (calm _, tt)

    failed-Restores :
        (e : Thrown)
        → Restores NotLoading (
            to_task (
              finally
                (catch (throw e) (λ x. update (set_error slot (message_or fallback x))))
                (set_submitting slot false)))
    unfolding Restores to_task catch finally update set_error set_submitting
    failed-Restores e = inl (calm _, inl (calm _, tt))

    closed-Brings :
        (s : InventoryPage)
        → NotLoading s
        → Brings NotLoading
            (to_task (
              finally
                (catch (update on_close) (λ x. update (set_error slot (message_or fallback x))))
                (set_submitting slot false)))
            s
    unfolding Brings to_task catch finally update set_submitting
    closed-Brings s q = calm _ _ (closes s q)

    pub submit-Restores :
        (c : Call)
        → Restores NotLoading (
            to_task
              (submit slot fallback (call c >>= (λ _. load_data host f) >>= λ _. update on_close)))
    unfolding Restores submit to_task ◌>>=◌ update set_error set_submitting
    submit-Restores c =
        inl (calm _, inl (calm _, called-Restores host f _ _ _ closed-Brings c failed-Restores))

    -- Where there is nothing to send, the dialog is closed at once.
    pub nothing-Restores : Restores NotLoading (to_task (submit slot fallback (update on_close)))
    unfolding Restores submit to_task ◌>>=◌ catch finally update set_error set_submitting
    nothing-Restores = inl (calm _, inl (calm _, inl (closes, inl (calm _, tt))))

    -- What is to be sent may throw.
    pub resolve-Restores :
        {P : Type 0} (o : Outcome P) (on_submit : P → Async InventoryPage (Unit {0}))
        → ((p : P)
            → Restores NotLoading
                (to_task (submit slot fallback (on_submit p >>= λ _. update on_close))))
        → Restores NotLoading (
            to_task
              (submit slot fallback (resolve o >>= λ p. on_submit p >>= λ _. update on_close)))
    unfolding Restores submit to_task ◌>>=◌ resolve update set_error set_submitting
    resolve-Restores (ok p) on_submit h = h p
    resolve-Restores (err e) on_submit h = inl (calm _, inl (calm _, failed-Restores e))
