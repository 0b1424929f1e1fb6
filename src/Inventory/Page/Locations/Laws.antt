-- ===== src/Inventory/Page/Locations/Laws.antt =====
-- Which locations the filter offers, and in which order.
use mathlib.Core.Logic.{∥∥₁_elim, ∥∥₁_map}
use mathlib.Core.HLevel.{⊥_prop}
use mathlib.Core.List.{Memᴰ, Mem, Nodup, Nodup-nil, Nodup-cons}
use mathlib.Core.List.Memᴰ
use mathlib.Core.List.Perm
use home_stock.Common.{
  ◌≡◌, refl, sym, ◌↔◌, inl, inr, Bool, true, false, not, List, [], ◌∷◌, map, filter, Bool-cases,
  IsOrdered, sort_by-IsOrdered, sort_by-Perm,
}
use home_stock.Js.Text.{Text, truthy, eq_text, eq_text_iff, eq_text_refl}
use home_stock.Js.Host.{Host}
use home_stock.Types.{StockLot}
use home_stock.History.Search.{filter-Mem}
use home_stock.Inventory.Page.Locations.{distinct, location_options}

distinct-Mem : (x : Text) (xs : List Text) → Memᴰ x (distinct xs) ↔ Memᴰ x xs
unfolding distinct
distinct-Mem x [] = (λ m. m, λ m. m)
distinct-Mem x (y ∷ ys) =
    let (from, back) = distinct-Mem x ys in
    let (kept, keep) = filter-Mem (λ z. not (eq_text y z)) x (distinct ys) in
    (
      λ m. elim (Memᴰ.cases_cons m) [ inl e ↦ Memᴰ.head e | inr m' ↦ Memᴰ.tail (from (kept m').0) ],
      λ m. elim (Memᴰ.cases_cons m) [
        | inl e ↦ Memᴰ.head e
        | inr m' ↦ elim (Bool-cases (eq_text y x)) [
          | inl same ↦ Memᴰ.head (sym ((eq_text_iff y x).0 same))
          | inr other ↦ Memᴰ.tail (keep (back m', rw other refl))
        ]
      ],
    )

module _ {A : Type 0} (p : A → Bool) where
  filter-Nodup : (xs : List A) → Nodup xs → Nodup (filter p xs)
  filter-Nodup [] h = h
  filter-Nodup (x ∷ xs) h =
      let (absent, rest) = Nodup-cons.0 h in
      elim (Bool-cases (p x)) [
        | inl kept ↦ rw kept (
            Nodup-cons.1 (
              λ m. absent (∥∥₁_map {B = Memᴰ x xs} m (λ d. ((filter-Mem p x xs).0 d).0)),
              filter-Nodup xs rest,
            ))
        | inr dropped ↦ rw dropped (filter-Nodup xs rest)
      ]

distinct-Nodup : (xs : List Text) → Nodup (distinct xs)
unfolding distinct
distinct-Nodup [] = Nodup-nil
distinct-Nodup (x ∷ xs) = Nodup-cons.1 (
  λ m. ∥∥₁_elim m ⊥_prop (λ d.
      let other = ((filter-Mem (λ y. not (eq_text x y)) x (distinct xs)).0 d).1 in
      let same = eq_text_refl x in cc),
  filter-Nodup _ (distinct xs) (distinct-Nodup xs),
)

-- The locations offered are those of the lots that are not blank, each once; where no two texts
-- come before each other in the locale, none comes before the one in front of it.
pub location_options-Mem :
    (host : Host) (lots : List StockLot)
    → ((s t : Text) → host.locale_less s t ≡ true → host.locale_less t s ≡ false)
    → ((v : Text)
        → Mem v (location_options host lots)
          ↔ ((truthy v ≡ true) × Mem v (map (λ lot. lot.location) lots)))
      × Nodup (location_options host lots)
      × IsOrdered host.locale_less (location_options host lots)
unfolding location_options
location_options-Mem host lots asym =
    let all = map (λ (lot : StockLot). lot.location) lots in
    let given = filter truthy all in
    let same = sort_by-Perm host.locale_less (distinct given) in
    (
      λ v.
          let (from, back) = distinct-Mem v given in
          let (kept, keep) = filter-Mem truthy v all in
          (
            λ m.
                ∥∥₁_elim ((Perm.mem_iff same).0 m) (hlevel)
                  λ d. let (at, e) = kept (from d) in (e, ∣ at ∣₁),
            λ (e, m).
                (Perm.mem_iff same).1
                  (∥∥₁_map {B = Memᴰ v (distinct given)} m (λ d. back (keep (d, e)))),
          ),
      (Perm.Nodup-iff same).1 (distinct-Nodup given),
      sort_by-IsOrdered host.locale_less asym (distinct given),
    )
