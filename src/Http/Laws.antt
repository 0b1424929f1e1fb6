-- ===== src/Http/Laws.antt =====
-- What a server reads in the query strings, and what a failed request comes to.
use home_stock.Common.{
  ◌≡◌, refl, Option, none, some, Bool, true, false, [], ◌∷◌, String, if◌then◌else◌, Bool-cases, inl,
  inr,
}
use home_stock.Js.Text.{Text, lit, truthy, eq_text, eq_text_refl}
use home_stock.Api.{StockLotQuery}
use home_stock.Http.Query.{Params, set_text, set_true, stock_lot_params}

-- The value of a key.
abbrev pub lookup : Text → Params → Option Text
lookup key [] = none
lookup key ((k, v) ∷ ps) = if eq_text k key then some v else lookup key ps

-- A text that is not blank; a flag that is set.
abbrev pub given : Option Text → Option Text
given none = none
given (some v) = if truthy v then some v else none

abbrev pub flag : Option Bool → Option Text
flag none = none
flag (some b) = if b then some (lit "true") else none

module _ (key : Text) (k : String) (ps : Params) where
  lookup-set_text :
      (v : Option Text)
      → lit k ≡ key
      → lookup key ps ≡ none
      → lookup key (set_text k v ps) ≡ given v
  lookup-set_text none e h = h
  lookup-set_text (some v) e h = elim (Bool-cases (truthy v)) [
    | inl t ↦ rw (t, e, eq_text_refl) refl
    | inr f ↦ rw f h
  ]

  lookup-set_true :
      (b : Option Bool) → lit k ≡ key → lookup key ps ≡ none → lookup key (set_true k b ps) ≡ flag b
  lookup-set_true none e h = h
  lookup-set_true (some true) e h = rw (e, eq_text_refl) refl
  lookup-set_true (some false) e h = h

  lookup-set_text_other :
      (v : Option Text) (r : Option Text)
      → eq_text (lit k) key ≡ false
      → lookup key ps ≡ r
      → lookup key (set_text k v ps) ≡ r
  lookup-set_text_other none r e h = h
  lookup-set_text_other (some v) r e h = elim (Bool-cases (truthy v)) [
    | inl t ↦ rw (t, e) h
    | inr f ↦ rw f h
  ]

  lookup-set_true_other :
      (b : Option Bool) (r : Option Text)
      → eq_text (lit k) key ≡ false
      → lookup key ps ≡ r
      → lookup key (set_true k b ps) ≡ r
  lookup-set_true_other none r e h = h
  lookup-set_true_other (some true) r e h = rw e h
  lookup-set_true_other (some false) r e h = h

ruleset lookup_rules =
    (refl, lookup-set_text, lookup-set_true, lookup-set_text_other, lookup-set_true_other)

-- Under each of the seven keys, a server that looks it up in the query string reads the text that
-- the query has, if it is not blank, or `true`, if the flag is set, and otherwise nothing.
stock_lot_params-lookup :
    (q : StockLotQuery)
    → (lookup (lit "material_id") (stock_lot_params q) ≡ given q.material_id)
      × (lookup (lit "category_id") (stock_lot_params q) ≡ given q.category_id)
      × (lookup (lit "location") (stock_lot_params q) ≡ given q.location)
      × (lookup (lit "status") (stock_lot_params q) ≡ given q.status)
      × (lookup (lit "keyword") (stock_lot_params q) ≡ given q.keyword)
      × (lookup (lit "expiring_soon") (stock_lot_params q) ≡ flag q.expiring_soon)
      × (lookup (lit "show_zero_stock") (stock_lot_params q) ≡ flag q.show_zero_stock)
unfolding stock_lot_params
stock_lot_params-lookup q = (
  search lookup_rules depth 20,
  search lookup_rules depth 20,
  search lookup_rules depth 20,
  search lookup_rules depth 20,
  search lookup_rules depth 20,
  search lookup_rules depth 20,
  search lookup_rules depth 20,
)
