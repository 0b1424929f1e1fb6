-- ===== src/Tests/History.antt =====
-- The searches of the history page at sample records.
use mathlib.Core.List.{Memᴰ}
use home_stock.Common.{map, refl, ◌↔◌, none, some, [], ◌∷◌, pos, ℕ, ◌≡◌, false}
use home_stock.Js.Text.{lit, trim}
use home_stock.Js.Number.{fin}
use home_stock.Types.{StockMovement, StockMovementType, AuditLog, AuditAction, AuditEntityType}
use home_stock.History.{filtered_movements, filtered_audit_logs}
use home_stock.History.Search.{
  SomeIn, SomeGivenIn, movement_texts, log_texts, filtered_movements-Mem, filtered_audit_logs-Mem,
}
use home_stock.History.{HistoryPage}
use home_stock.History.Events.{mounted, initial, history_page}
use home_stock.History.Events.Calls.{IsFiltered, Reach-IsFiltered}
use home_stock.History.Events.Rest.{Reach-NotLoading}
use home_stock.Js.Outcome.{Outcome, err, other}
use home_stock.Api.{Call, Reply}
use home_stock.Async.Pool.{Config, Reach, fire, event, next, here}
use home_stock.Async.Pool.Calls.{WaitingCalls}
use home_stock.Async.Pool.Schedule.{after, in_order, in_order-Chooses}
use home_stock.Tests.Fixtures.{host, material}

movement : StockMovement
movement = record {
  id = lit "v1";
  tenant_id = [];
  material_id = lit "m1";
  material = some (material "m1");
  lot_id = lit "l1";
  lot = none;
  movement_type = StockMovementType.inbound;
  quantity_delta = fin (pos 5);
  unit = lit "pcs";
  reason = lit "inbound";
  channel = lit "web";
  user_name = [];
  user_id = [];
  remark = [];
  created_at = [];
}

filtered_movements-Mem_example :
    Memᴰ movement (filtered_movements host (lit " m1 ") (movement ∷ [])) ↔ (
      Memᴰ movement (movement ∷ [])
      × SomeIn (host.lower (trim (lit " m1 "))) (map host.lower (movement_texts movement)))
unfolding trim
filtered_movements-Mem_example =
    filtered_movements-Mem host (lit " m1 ") (movement ∷ []) movement refl

log : AuditLog
log = record {
  id = lit "a1";
  tenant_id = [];
  user_name = lit "ann";
  user_id = [];
  channel = lit "web";
  action = AuditAction.create;
  entity_type = AuditEntityType.category;
  entity_id = lit "c1";
  entity_name = lit "food";
  changes_detail = [];
  created_at = [];
}

filtered_audit_logs-Mem_example :
    Memᴰ log (filtered_audit_logs host (lit "ann") (log ∷ []))
    ↔ (Memᴰ log (log ∷ []) × SomeGivenIn host.lower (host.lower (trim (lit "ann"))) (log_texts log))
unfolding trim
filtered_audit_logs-Mem_example = filtered_audit_logs-Mem host (lit "ann") (log ∷ []) log refl

-- The page as soon as it is open, waiting for its first load.
opened : Config HistoryPage
opened = fire (history_page host) (record { state = initial; waiting = [] }) mounted

opened-Reach : Reach (history_page host) (record { state = initial; waiting = [] }) opened
unfolding opened
opened-Reach = next here (event mounted tt)

Reach-IsFiltered_example : WaitingCalls IsFiltered opened
Reach-IsFiltered_example = Reach-IsFiltered host opened opened-Reach

lost : (c : Call) → Outcome (Reply c)
lost c = err (other [])

Reach-NotLoading_example :
    (n : ℕ) × ((after in_order (λ c. lost) n opened).waiting ≡ [])
    × ((after in_order (λ c. lost) n opened).state.loading ≡ false)
Reach-NotLoading_example =
    Reach-NotLoading host opened in_order (λ c. lost) opened-Reach (in_order-Chooses (λ c. lost))
