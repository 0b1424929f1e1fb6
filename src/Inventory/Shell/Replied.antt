-- ===== src/Inventory/Shell/Replied.antt =====
-- A submission whose body is a call and what follows it.
use home_stock.Common.{◌≡◌, refl, ap, true, false, []}
use home_stock.Js.Text.{Text}
use home_stock.Js.Outcome.{Thrown, Outcome, ok, err, message_or}
use home_stock.Api.{Call, Reply}
use home_stock.Async.{Async, throw, catch, finally, update}
use home_stock.Async.Slot.{Slot}
use home_stock.Async.Rules.{Ends, Caught}
use home_stock.Async.Rules.Ends.{guarded-Ends, Ends-mono}
use home_stock.Async.Rules.Replied.{Replied, thrown-Ends, update_then-Replied, await-Replied}
use home_stock.Inventory.Shell.{Shell, set_error, set_submitting, submit}

module _ {S : Type 0} (slot : Slot S Shell) where
  abbrev shown : Shell → S → S
  shown d = slot.put λ _. d

  -- After a good reply C holds; after an error the dialog shows its message, and nothing else has
  -- changed since the reply.
  abbrev pub Concluded : (S → Type 0) → Text → {A : Type 0} → Outcome A → S → S → Type 0
  Concluded C fallback (ok a) u t = C t
  Concluded C fallback (err e) u t =
      t ≡ shown (record { submitting = false; error = message_or fallback e }) u

  -- The handler asks for `asked`, in the state s but that the dialog submits and shows no error; in
  -- the end it does not throw, the dialog no longer submits, and the reply is concluded.
  abbrev pub Submitted :
      (S → Type 0)
      → Text
      → Call
      → S
      → (c : Call) → S
      → Outcome (Reply c)
      → S
      → S
      → Outcome (Unit {0})
      → Type 0
  Submitted C fallback asked s c waiting r u t o =
      (c ≡ asked)
      × (waiting ≡ shown (record { submitting = true; error = [] }) s)
      × (o ≡ ok tt)
      × ((slot.view t).submitting ≡ false)
      × Concluded C fallback r u t

  module _ (C : S → Type 0) (keeps : (f : Shell → Shell) (t : S) → C t → C (slot.put f t))
      (fallback : Text) (c : Call) (k : Outcome (Reply c) → Async S (Unit {0}))
      (good : (a : Reply c) (u : S) → Ends (λ t o. (o ≡ ok tt) × C t) (k (ok a)) u)
      (bad : (e : Thrown) → k (err e) ≡ throw e) where
    over : (t : S) → (slot.view (set_submitting slot false t)).submitting ≡ false
    unfolding set_submitting
    over t = ap (λ d. d.submitting) (slot.view-put _ t)

    concluded :
        (s u : S) (r : Outcome (Reply c))
        → Ends
            (Submitted C fallback c s c (set_error slot [] (set_submitting slot true s)) r u)
            (finally
              (catch (k r) (λ e. update (set_error slot (message_or fallback e))))
              (set_submitting slot false))
            u
    unfolding set_error set_submitting
    concluded s u (ok a) =
        guarded-Ends _ (k (ok a)) _ _ u (Ends-mono _ _ ends (k (ok a)) u (good a u))
      where
        ends :
            (t : S) (o : Outcome (Unit {0}))
            → (o ≡ ok tt) × C t
            → Caught
                (λ v q.
                  Submitted C fallback c s c
                    (slot.put
                      (λ d. record d { error = [] })
                      (slot.put (λ d. record d { submitting = true }) s))
                    (ok a)
                    u
                    (slot.put (λ d. record d { submitting = false }) v)
                    q)
                (λ e. update (set_error slot (message_or fallback e)))
                t
                o
        ends t (ok x) h = (refl, slot.put-put _ _ s, refl, over t, keeps _ t h.1)
        ends t (err e) h = absurd (cc)
    concluded s u (err e) =
        thrown-Ends _ e _ _ (k (err e)) u (bad e)
          (refl, slot.put-put _ _ s, refl, over _, slot.put-put _ _ u)

    pub submit-Replied :
        (s : S) → Replied (Submitted C fallback c s) (submit slot fallback (Async.await c k)) s
    unfolding submit catch finally
    submit-Replied s =
        update_then-Replied _ _ _ s
          (update_then-Replied _ _ _ _ (await-Replied _ c _ _ λ r u. concluded s u r))
