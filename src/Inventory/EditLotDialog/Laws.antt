-- ===== src/Inventory/EditLotDialog/Laws.antt =====
-- What an edited lot sends.
use home_stock.Common.{
  ◌≡◌, refl, ◌⊎◌, inl, inr, Option, some, false, [], ◌∷◌, subst, arith, Option-cases, ℤ,
}
use home_stock.Js.Text.{Text, truthy, trim}
use home_stock.Js.Text.Trim.{IsTrimmed, trim-IsTrimmed}
use home_stock.Js.Host.{Host}
use home_stock.Js.Outcome.{>>=-eq-ok, ok}
use home_stock.Js.Dates.{date_or_blank}
use home_stock.Types.{UpdateStockLotPayload}
use home_stock.Api.{Call}
use home_stock.Async.{Async}
use home_stock.Async.Rules.{Calls}
use home_stock.Async.Rules.Calls.{call_rules, resolve_then-Calls}
use home_stock.Async.Slot.{Slot}
use home_stock.Inventory.Shell.{Shell}
use home_stock.Inventory.Shell.Laws.{submit-Calls}
use home_stock.Inventory.EditLotDialog.{Fields, payload, handle_submit}

-- A date that is sent: blank if the field is, else the instant that the field denotes.
abbrev pub IsDate : Host → Text → Option Text → Type 0
IsDate host field sent =
    ((truthy field ≡ false) × (sent ≡ some []))
    ⊎ ((ms : ℤ) × (host.date_of field ≡ some ms) × (sent ≡ some (host.iso_of ms)))

pub record IsValid (host : Host) (f : Fields) (p : UpdateStockLotPayload) : Type 0 where
  pub location : (l : Text) × (p.location ≡ some l) × IsTrimmed l
  pub notes : (n : Text) × (p.notes ≡ some n) × IsTrimmed n
  pub purchased_at : IsDate host f.purchased_at p.purchased_at
  pub expire_at : IsDate host f.expire_at p.expire_at

date_or_blank-IsDate :
    (host : Host) (field d : Text) → date_or_blank host field ≡ ok d → IsDate host field (some d)
unfolding date_or_blank
date_or_blank-IsDate host [] d e = inl (refl, ground arith)
date_or_blank-IsDate host (c ∷ s) d e = elim (Option-cases (host.date_of (c ∷ s))) [
  | inl missing ↦ absurd (ground arith)
  | inr (ms, known) ↦ inr (ms, known, ground arith)
]

payload-IsValid :
    (host : Host) (f : Fields) (p : UpdateStockLotPayload)
    → payload host f ≡ ok p
    → IsValid host f p
unfolding payload
payload-IsValid host f p e =
    let (purchased, was_read, e') = >>=-eq-ok (date_or_blank host f.purchased_at) _ p e in
    let (expires, was_read', e'') = >>=-eq-ok (date_or_blank host f.expire_at) _ p e' in
    record {
      location = (trim f.location, cc, trim-IsTrimmed f.location);
      notes = (trim f.notes, cc, trim-IsTrimmed f.notes);
      purchased_at =
          subst (IsDate host f.purchased_at) (cc)
            (date_or_blank-IsDate host f.purchased_at purchased was_read);
      expire_at =
          subst (IsDate host f.expire_at) (cc)
            (date_or_blank-IsDate host f.expire_at expires was_read');
    }

module _ {S : Type 0} (host : Host) (slot : Slot S Shell) (f : Fields) where
  -- `onSubmit` is called with trimmed texts and with the dates that the fields denote, or not at
  -- all: if it makes only calls that satisfy P on such payloads, so does the handler.
  pub handle_submit-Calls :
      (P : Call → Type 0) (on_submit : UpdateStockLotPayload → Async S (Unit {0}))
      (on_close : S → S)
      → ((p : UpdateStockLotPayload) → IsValid host f p → Calls P (on_submit p))
      → Calls P (handle_submit host slot f on_submit on_close)
  unfolding handle_submit
  handle_submit-Calls P on_submit on_close h = submit-Calls slot P _ _ (
      resolve_then-Calls P (payload host f) _
        λ p e. search (h p (payload-IsValid host f p e), call_rules))
