-- ===== src/Types/Status.antt =====
-- `getInventoryStatus` of web/src/types/material.ts. Times are whole milliseconds, and the reminder
-- is a whole number of days: at such values the division by a day and the comparison are exact.
pub mod Laws
use home_stock.Common.{ℕ, ◌*◌, Option, none, some, Bool, if◌then◌else◌, ℤ, pos, ltb_ℤ, leb_ℤ, ◌-ℤ◌}
use home_stock.Js.Text.{Text, truthy}
use home_stock.Js.Host.{Host}

pub data InventoryStatus : Type 0 where
  normal expiring expired : InventoryStatus

-- 1000 * 60 * 60 * 24
abbrev pub day : ℕ
day = 1000 * 60 * 60 * 24

unfoldable pub status_at : ℕ → ℤ → Option ℤ → InventoryStatus
status_at remind_days now none = normal
status_at remind_days now (some target) =
    if ltb_ℤ target now
    then expired
    else if leb_ℤ (target -ℤ now) (pos (remind_days * day))
    then expiring
    else normal

unfoldable pub get_inventory_status : Host → ℕ → ℤ → Option Text → InventoryStatus
unfolding status_at
get_inventory_status host remind_days now none = normal
get_inventory_status host remind_days now (some date_like) =
    if truthy date_like then status_at remind_days now (host.date_of date_like) else normal
