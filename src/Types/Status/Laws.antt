-- ===== src/Types/Status/Laws.antt =====
-- How an expiry date is classified, and how the class moves as time passes.
use home_stock.Common.{
  ℕ, ◌*◌, ◌≤◌, ◌≡◌, refl, sym, ◌∙◌, subst, ◌↔◌, Option, none, some, arith, ℤ, pos, ◌≤ℤ◌, ◌+ℤ◌, ◌-ℤ◌,
  if◌then◌else◌,
}
use home_stock.Js.Text.{Text, truthy}
use home_stock.Js.Host.{Host}
use home_stock.Types.Status.{
  InventoryStatus, normal, expiring, expired, day, status_at, get_inventory_status,
}

-- The date as the code reads it: absent, blank and invalid dates are no date.
abbrev pub known_date : Host → Option Text → Option ℤ
known_date host none = none
known_date host (some s) = if truthy s then host.date_of s else none

pub get_inventory_status-known :
    (host : Host) (remind : ℕ) (n : ℤ) (date : Option Text)
    → get_inventory_status host remind n date ≡ status_at remind n (known_date host date)
unfolding get_inventory_status
get_inventory_status-known host remind n none = ground arith
get_inventory_status-known host remind n (some s) = ground arith

-- The class as an independent relation on the dates.
abbrev pub IsIn : InventoryStatus → ℕ → ℤ → Option ℤ → Type 0
IsIn expired remind now none = ⊥
IsIn expiring remind now none = ⊥
IsIn normal remind now none = Unit {0}
IsIn expired remind now (some d) = ¬ (now ≤ℤ d)
IsIn expiring remind now (some d) = (now ≤ℤ d) × (d ≤ℤ now +ℤ pos (remind * day))
IsIn normal remind now (some d) = (now ≤ℤ d) × ¬ (d ≤ℤ now +ℤ pos (remind * day))

status_at-IsIn :
    (remind : ℕ) (now : ℤ) (date : Option ℤ) → IsIn (status_at remind now date) remind now date
unfolding status_at ◌+ℤ◌ ◌-ℤ◌
status_at-IsIn remind now none = tt
status_at-IsIn remind now (some d) = ground arith

IsIn-unique :
    (s t : InventoryStatus) (remind : ℕ) (now : ℤ) (date : Option ℤ)
    → IsIn s remind now date
    → IsIn t remind now date
    → s ≡ t
IsIn-unique normal normal remind now date p q = refl
IsIn-unique expiring expiring remind now date p q = refl
IsIn-unique expired expired remind now date p q = refl
IsIn-unique normal expired remind now (some d) p q = absurd (q p.0)
IsIn-unique expired normal remind now (some d) p q = absurd (p q.0)
IsIn-unique normal expiring remind now (some d) p q = absurd (p.1 q.1)
IsIn-unique expiring normal remind now (some d) p q = absurd (q.1 p.1)
IsIn-unique expired expiring remind now (some d) p q = absurd (p q.0)
IsIn-unique expiring expired remind now (some d) p q = absurd (q p.0)
IsIn-unique normal expired remind now none p q = absurd q
IsIn-unique expired normal remind now none p q = absurd p
IsIn-unique normal expiring remind now none p q = absurd q
IsIn-unique expiring normal remind now none p q = absurd p
IsIn-unique expired expiring remind now none p q = absurd q
IsIn-unique expiring expired remind now none p q = absurd q

-- The status of a date is s exactly when the date lies in the range of s: before now (expired),
-- from now to the reminder's number of days after now, both included (expiring), or later, absent,
-- blank or invalid (normal).
pub get_inventory_status_iff :
    (host : Host) (remind : ℕ) (now : ℤ) (date : Option Text) (s : InventoryStatus)
    → (get_inventory_status host remind now date ≡ s) ↔ IsIn s remind now (known_date host date)
get_inventory_status_iff host remind now date s = (
  λ e.
      subst (λ k. IsIn k remind now (known_date host date))
        (sym (get_inventory_status-known host remind now date) ∙ e)
        (status_at-IsIn remind now (known_date host date)),
  λ p.
      get_inventory_status-known host remind now date
      ∙ IsIn-unique _ s remind now (known_date host date)
          (status_at-IsIn remind now (known_date host date)) p,
)

abbrev pub rank : InventoryStatus → ℕ
rank normal = 0
rank expiring = 1
rank expired = 2

status_at_mono :
    (remind remind' : ℕ) (now later : ℤ) (date : Option ℤ)
    → remind ≤ remind'
    → now ≤ℤ later
    → rank (status_at remind now date) ≤ rank (status_at remind' later date)
unfolding status_at ◌-ℤ◌
status_at_mono remind remind' now later none h k = omega arith
status_at_mono remind remind' now later (some d) h k = ground arith

-- As time passes, or with a longer reminder, a date's status only moves on: from normal to expiring
-- to expired.
get_inventory_status_mono :
    (host : Host) (remind remind' : ℕ) (now later : ℤ) (date : Option Text)
    → remind ≤ remind'
    → now ≤ℤ later
    → rank (get_inventory_status host remind now date)
      ≤ rank (get_inventory_status host remind' later date)
get_inventory_status_mono host remind remind' now later date h k =
    rw (get_inventory_status-known, get_inventory_status-known)
      (status_at_mono remind remind' now later (known_date host date) h k)
