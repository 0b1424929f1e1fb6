-- ===== src/Dashboard/Counts.antt =====
-- What the dashboard counts.
use home_stock.Common.{
  ℕ, ◌+◌, ◌≡◌, refl, ap, ◌∙◌, sym, Bool, true, false, List, [], ◌∷◌, arith, ℤ, if◌then◌else◌,
  length, filter, Bool-cases, inl, inr, ◌⊎◌,
}
use home_stock.Js.Text.{Text, eq_text, eq_text_iff}
use home_stock.Js.Number.{Number}
use home_stock.Js.Host.{Host}
use home_stock.Types.{MaterialSummary, StockMovement}
use home_stock.Types.Status.{InventoryStatus, normal, expiring, expired, get_inventory_status}
use home_stock.Dashboard.{
  CategoryStats, Tally, empty_tally, category_key, category_name, count_in, count_status,
  tally_material, tally, stats_of,
}

-- The materials that a test picks out, counted.
abbrev pub count_if : {A : Type 0} → (A → Bool) → List A → ℕ
count_if p xs = length (filter p xs)

-- The count of a category in the map, 0 where it is not there.
abbrev pub count_of : Text → CategoryStats → ℕ
count_of key [] = 0
count_of key ((k, s) ∷ rest) = if eq_text k key then s.count else count_of key rest

abbrev is_status : InventoryStatus → InventoryStatus → Bool
is_status normal normal = true
is_status expiring expiring = true
is_status expired expired = true
is_status _ _ = false

Status-cases : (s : InventoryStatus) → (s ≡ normal) ⊎ ((s ≡ expiring) ⊎ (s ≡ expired))
Status-cases normal = inl refl
Status-cases expiring = inr (inl refl)
Status-cases expired = inr (inr refl)

abbrev counter : InventoryStatus → Tally → ℕ
counter normal t = t.normal_count
counter expiring t = t.expiring_count
counter expired t = t.expired_count

count_status-counter :
    (x s : InventoryStatus) (t : Tally)
    → counter s (count_status x t) ≡ counter s t + (if is_status x s then 1 else 0)
unfolding count_status
count_status-counter normal normal t = omega arith
count_status-counter normal expiring t = omega arith
count_status-counter normal expired t = omega arith
count_status-counter expiring normal t = omega arith
count_status-counter expiring expiring t = omega arith
count_status-counter expiring expired t = omega arith
count_status-counter expired normal t = omega arith
count_status-counter expired expiring t = omega arith
count_status-counter expired expired t = omega arith

eq_text_apart :
    (k key other : Text)
    → eq_text k key ≡ false
    → eq_text k other ≡ true
    → eq_text key other ≡ false
eq_text_apart k key other h g = elim (Bool-cases (eq_text key other)) [
  | inl same ↦
      let e : k ≡ key = (eq_text_iff k other).0 g ∙ sym ((eq_text_iff key other).0 same) in
      let e' : eq_text k key ≡ true = (eq_text_iff k key).1 e in cc
  | inr different ↦ different
]

count_of-count_in :
    (host : Host) (key name : Text) (q : Number) (stats : CategoryStats) (other : Text)
    → count_of other (count_in host key name q stats)
      ≡ count_of other stats + (if eq_text key other then 1 else 0)
unfolding count_in
count_of-count_in host key name q [] other = ground arith
count_of-count_in host key name q ((k, s) ∷ rest) other =
    let ih = count_of-count_in host key name q rest other in
    elim (Bool-cases (eq_text k key)) [
      | inl same ↦
          let e : k ≡ key = (eq_text_iff k key).0 same in
          let e' : eq_text k other ≡ eq_text key other = ap (λ x. eq_text x other) e in
          rw same (ground arith)
      | inr different ↦ elim (Bool-cases (eq_text k other)) [
        | inl here ↦ rw (different, here, eq_text_apart k key other different here) (omega arith)
        | inr elsewhere ↦ rw (different, elsewhere) ih
      ]
    ]

module _ (host : Host) (remind : ℕ) (now : ℤ) where
  abbrev pub has_status : InventoryStatus → MaterialSummary → Bool
  has_status s m = is_status (get_inventory_status host remind now m.nearest_expire_at) s

  abbrev pub has_key : Text → MaterialSummary → Bool
  has_key key m = eq_text (category_key m) key

  tally_material-counter :
      (s : InventoryStatus) (m : MaterialSummary) (t : Tally)
      → counter s (tally_material host remind now m t)
        ≡ counter s (count_status (get_inventory_status host remind now m.nearest_expire_at) t)
  unfolding tally_material
  tally_material-counter normal m t = refl
  tally_material-counter expiring m t = refl
  tally_material-counter expired m t = refl

  tally-counter :
      (s : InventoryStatus) (ms : List MaterialSummary) (t : Tally)
      → counter s (tally host remind now ms t) ≡ counter s t + count_if (has_status s) ms
  unfolding tally
  tally-counter s [] t = omega arith
  tally-counter s (m ∷ ms) t =
      let ih = tally-counter s ms (tally_material host remind now m t) in
      let step =
        count_status-counter (get_inventory_status host remind now m.nearest_expire_at) s t in
      let step' = tally_material-counter s m t in ground arith

  tally-count_of :
      (key : Text) (ms : List MaterialSummary) (t : Tally)
      → count_of key (tally host remind now ms t).cat_stats
        ≡ count_of key t.cat_stats + count_if (has_key key) ms
  unfolding tally tally_material
  tally-count_of key [] t = omega arith
  tally-count_of key (m ∷ ms) t =
      let ih = tally-count_of key ms (tally_material host remind now m t) in
      let step =
        count_of-count_in host (category_key m) (category_name m) m.total_quantity t.cat_stats
          key in
      ground arith

  count_if_all :
      (ms : List MaterialSummary)
      → count_if (has_status expiring) ms
          + count_if (has_status expired) ms
          + count_if (has_status normal) ms
        ≡ length ms
  count_if_all [] = omega arith
  count_if_all (m ∷ ms) =
      let ih = count_if_all ms in
      elim (Status-cases (get_inventory_status host remind now m.nearest_expire_at)) [
        | inl e ↦ rw e (omega arith)
        | inr (inl e) ↦ rw e (omega arith)
        | inr (inr e) ↦ rw e (omega arith)
      ]

  -- The three counts are the numbers of materials of each status, and together all of them.
  pub stats_of-counts :
      (ms : List MaterialSummary) (vs : List StockMovement)
      → ((stats_of host remind now ms vs).expiring_count ≡ count_if (has_status expiring) ms)
        × ((stats_of host remind now ms vs).expired_count ≡ count_if (has_status expired) ms)
        × ((stats_of host remind now ms vs).normal_count ≡ count_if (has_status normal) ms)
        × ((stats_of host remind now ms vs).expiring_count
              + (stats_of host remind now ms vs).expired_count
              + (stats_of host remind now ms vs).normal_count
            ≡ (stats_of host remind now ms vs).total_materials)
  unfolding stats_of
  stats_of-counts ms vs =
      let e = tally-counter expiring ms empty_tally in
      let x = tally-counter expired ms empty_tally in
      let n = tally-counter normal ms empty_tally in
      let all = count_if_all ms in (omega arith, omega arith, omega arith, omega arith)

  -- Each category's count in the map is the number of materials with its key.
  pub cat_stats-count_of :
      (key : Text) (ms : List MaterialSummary)
      → count_of key (tally host remind now ms empty_tally).cat_stats ≡ count_if (has_key key) ms
  cat_stats-count_of key ms = omega (arith, tally-count_of key ms empty_tally)
