-- ===== src/History/View.antt =====
-- What the history page shows: its filters' options, the rows of its two tabs and the dialog of a
-- log entry. Styles are left out; the details of a log entry are JSON, which the
-- host reads and prints.
use home_stock.Common.{Option, none, some, Bool, List, [], ◌∷◌, ◌++◌, map, if◌then◌else◌}
use home_stock.Js.Text.{Text, lit, or_text, or_none}
use home_stock.Js.Number.{zero_number, lt_number}
use home_stock.Js.Host.{Host}
use home_stock.Types.{Material, StockMovement, AuditLog, AuditAction}
use home_stock.Format.{format_date_time}
use home_stock.Ui.{delta_text, Table, table_of}
use home_stock.History.{
  Variant, default, secondary, destructive, HistoryPage, movement_variant, operator_cell,
  reason_label, channel_label, movement_label, action_label, audit_entity_label, filtered_movements,
  filtered_audit_logs,
}

-- The values and labels of the three `Select`s.
unfoldable pub movement_type_options : Host → List (Text × Text)
movement_type_options host =
    (lit "__all__", host.translate "allMovementTypes")
    ∷ (lit "inbound", host.translate "movementInbound")
    ∷ (lit "consume", host.translate "movementConsume")
    ∷ (lit "adjustment", host.translate "movementAdjustment")
    ∷ []

unfoldable pub audit_action_options : Host → List (Text × Text)
audit_action_options host =
    (lit "__all__", host.translate "allAuditActions")
    ∷ (lit "create", host.translate "actionCreate")
    ∷ (lit "update", host.translate "actionUpdate")
    ∷ (lit "delete", host.translate "actionDelete")
    ∷ []

unfoldable pub audit_channel_options : Host → List (Text × Text)
audit_channel_options host =
    (lit "__all__", host.translate "allChannels")
    ∷ (lit "web", host.translate "channelWeb")
    ∷ (lit "feishu", host.translate "channelFeishu")
    ∷ []

pub record MovementRow : Type 0 where
  pub time : Text
  pub variant : Variant
  pub label : Text
  pub name : Text
  pub spec : Text
  pub lot_id : Text
  pub is_loss : Bool
  pub delta : Text
  pub reason : Text
  pub operator : List Text

-- `movement.material?.name ?? '—'`
abbrev pub shown_name : Option Material → Text
shown_name none = lit "—"
shown_name (some m) = m.name

-- `movement.material?.spec || t('noSpec')`
abbrev pub shown_spec : Host → Option Material → Text
shown_spec host none = host.translate "noSpec"
shown_spec host (some m) = or_text m.spec (host.translate "noSpec")

unfoldable pub movement_row : Host → StockMovement → MovementRow
movement_row host m = record {
  time = format_date_time host m.created_at host.language;
  variant = movement_variant m.movement_type;
  label = movement_label host m.movement_type;
  name = shown_name m.material;
  spec = shown_spec host m.material;
  lot_id = m.lot_id;
  is_loss = lt_number m.quantity_delta zero_number;
  delta = delta_text host m.quantity_delta m.unit;
  reason = reason_label host m.reason m.remark;
  operator = operator_cell m.user_name m.user_id (channel_label host m.channel);
}

unfoldable pub audit_variant : AuditAction → Variant
audit_variant AuditAction.delete = destructive
audit_variant AuditAction.update = secondary
audit_variant AuditAction.create = default

pub record AuditRow : Type 0 where
  pub time : Text
  pub operator : List Text
  pub variant : Variant
  pub action : Text
  pub entity : Text
  pub name : Text

unfoldable pub audit_row : Host → AuditLog → AuditRow
audit_row host log = record {
  time = format_date_time host log.created_at host.language;
  operator = operator_cell log.user_name log.user_id (channel_label host log.channel);
  variant = audit_variant log.action;
  action = action_label host log.action;
  entity = audit_entity_label host log.entity_type;
  name = or_text log.entity_name (lit "—");
}

-- The dialog of a log entry.
pub record AuditDetails : Type 0 where
  pub time : Text
  pub operator : Text
  pub action : Text
  pub object : Text
  pub changes : Text

-- The labels of its first four lines.
unfoldable pub audit_labels : Host → List Text
audit_labels host =
    map host.translate
      ("auditFieldTime" ∷ "auditFieldOperator" ∷ "auditFieldAction" ∷ "auditFieldObject" ∷ [])

unfoldable pub audit_details : Host → AuditLog → AuditDetails
audit_details host log = record {
  time = format_date_time host log.created_at host.language;
  operator = or_text log.user_name (or_text log.user_id (host.translate "channelSystem"));
  action = action_label host log.action;
  object =
      audit_entity_label host log.entity_type ++ (lit " / " ++ or_text log.entity_name (lit "—"));
  changes = host.changes_text log.changes_detail;
}

abbrev pub dialog_of : Host → Option AuditLog → Option AuditDetails
dialog_of host none = none
dialog_of host (some log) = some (audit_details host log)

pub record HistoryView : Type 0 where
  pub refresh_disabled : Bool
  pub error : Option Text
  pub movement_columns : List Text
  pub movements : Table MovementRow
  pub audit_columns : List Text
  pub audit : Table AuditRow
  pub dialog : Option AuditDetails

-- `loading ? t('common:loading') : t(…)`
abbrev pub nothing_text : Host → Bool → Text → Text
nothing_text host loading nothing = if loading then host.translate "common:loading" else nothing

unfoldable pub movement_columns : Host → List Text
movement_columns host = map host.translate (
    "colTime" ∷ "colType" ∷ "colMaterial" ∷ "colLot" ∷ "colDelta" ∷ "colReason" ∷ "colOperator"
    ∷ [])

unfoldable pub audit_columns : Host → List Text
audit_columns host =
    map host.translate
      ("colTime" ∷ "colOperator" ∷ "colAction" ∷ "colObject" ∷ "colName" ∷ "colDetails" ∷ [])

unfoldable pub history_view : Host → HistoryPage → HistoryView
history_view host s = record {
  refresh_disabled = s.loading;
  error = or_none s.error;
  movement_columns = movement_columns host;
  movements =
      let found = filtered_movements host s.debounced_search s.movements in
      table_of (nothing_text host s.loading (host.translate "noMovements")) found
        (movement_row host) found;
  audit_columns = audit_columns host;
  audit =
      let found = filtered_audit_logs host s.debounced_search s.audit_logs in
      table_of (nothing_text host s.loading (host.translate "noAuditLogs")) found (audit_row host)
        found;
  dialog = dialog_of host s.selected_audit_log;
}
