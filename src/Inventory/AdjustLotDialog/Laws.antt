-- ===== src/Inventory/AdjustLotDialog/Laws.antt =====
-- What an adjustment sends.
use home_stock.Common.{
  ◌≡◌, refl, inl, inr, none, some, true, false, arith, Bool-cases, ℤ, ◌≤ℤ◌, pos,
}
use home_stock.Js.Text.{trim}
use home_stock.Js.Number.{Number, fin, nan, infinity, neg_infinity}
use home_stock.Js.Host.{Host}
use home_stock.Types.{StockLot, AdjustStockLotPayload}
use home_stock.Api.{Call}
use home_stock.Async.{Async, ◌>>◌, update}
use home_stock.Async.Rules.{Calls}
use home_stock.Async.Rules.Calls.{call_rules, update-Calls}
use home_stock.Async.Slot.{Slot}
use home_stock.Inventory.Shell.{Shell, submit}
use home_stock.Inventory.Shell.Laws.{submit-Calls}
use home_stock.Inventory.AdjustLotDialog.{
  AdjustLotDialog, Fields, on_open, is_invalid, payload, handle_submit,
}

-- A finite number that is not negative.
abbrev pub IsQuantity : Number → Type 0
IsQuantity n = (q : ℤ) × (n ≡ fin q) × (pos 0 ≤ℤ q)

is_invalid-IsQuantity : (n : Number) → is_invalid n ≡ false → IsQuantity n
unfolding is_invalid
is_invalid-IsQuantity nan h = cc
is_invalid-IsQuantity infinity h = cc
is_invalid-IsQuantity neg_infinity h = cc
is_invalid-IsQuantity (fin q) h = (q, refl, ground arith)

pub IsQuantity-is_invalid : (n : Number) → IsQuantity n → is_invalid n ≡ false
unfolding is_invalid
IsQuantity-is_invalid n (q, e, h) = rw e (ground arith)

module _ {S : Type 0} (host : Host) (slot : Slot S Shell) where
  -- `onSubmit` is called with a finite quantity of at least 0, the one that the field denotes, or
  -- not at all: if it makes only calls that satisfy P on such payloads, so does the handler.
  pub handle_submit-Calls :
      (P : Call → Type 0) (f : Fields) (on_submit : AdjustStockLotPayload → Async S (Unit {0}))
      (on_close : S → S)
      → ((p : AdjustStockLotPayload)
          → IsQuantity p.target_quantity
          → p.target_quantity ≡ host.number_of f.target_quantity
          → Calls P (on_submit p))
      → Calls P (handle_submit host slot f on_submit on_close)
  unfolding handle_submit payload
  handle_submit-Calls P f on_submit on_close h =
      elim (Bool-cases (is_invalid (host.number_of f.target_quantity))) [
        | inl bad ↦ rw bad (update-Calls P _)
        | inr good ↦ rw good (
            submit-Calls slot P _ _ (
              search (
                h (payload (host.number_of f.target_quantity) f) (is_invalid-IsQuantity _ good)
                    refl,
                call_rules,
              )))
      ]

  -- A dialog that opens on a lot and is submitted as it stands sends the lot's own quantity, with
  -- no reason and no remark, where the quantity is valid and `Number(String(n))` is n.
  pub handle_submit-on_open :
      (lot : StockLot) (d : AdjustLotDialog)
      (on_submit : AdjustStockLotPayload → Async S (Unit {0})) (on_close : S → S)
      → IsQuantity lot.quantity_on_hand
      → ((n : Number) → host.number_of (host.text_of n) ≡ n)
      → handle_submit host slot (on_open host true (some lot) d).fields on_submit on_close
        ≡ submit slot (host.translate "adjustLot_errorFailed") (
            on_submit
              (record { target_quantity = lot.quantity_on_hand; reason = none; remark = none })
            >> update on_close)
  unfolding handle_submit on_open payload trim
  handle_submit-on_open lot d on_submit on_close q round_trip =
      rw (round_trip lot.quantity_on_hand, IsQuantity-is_invalid _ q)
