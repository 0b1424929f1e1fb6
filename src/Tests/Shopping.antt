-- ===== src/Tests/Shopping.antt =====
-- The laws of the shopping list with a small codec: the number of items, and before each text its
-- length.
use home_stock.Common.{
  true, ℕ, zero, suc, ◌≡◌, refl, ap, none, some, List, [], ◌∷◌, ◌++◌, All, length, take, drop,
}
use home_stock.Js.Text.{Text, lit}
use home_stock.Shopping.{
  Parsed, failed, list, Storage, ShoppingPage, load_items, ShoppingItem, Codec, Event, typed, added,
  toggled, mount, run,
}
use home_stock.Shopping.Laws.{IsCodec, mount-run, IsNamed, run-All}

abbrev put : Text → Text → Text
put t rest = length t ∷ t ++ rest

abbrev first : Text → Text
first [] = []
first (n ∷ s) = take n s

abbrev rest_of : Text → Text
rest_of [] = []
rest_of (n ∷ s) = drop n s

abbrev write : List ShoppingItem → Text
write [] = []
write (i ∷ is) = put i.id (put i.name (put i.created_at (write is)))

abbrev read : ℕ → Text → List ShoppingItem
read zero s = []
read (suc n) s =
    record { id = first s; name = first (rest_of s); created_at = first (rest_of (rest_of s)) }
    ∷ read n (rest_of (rest_of (rest_of s)))

take-append : (t rest : Text) → take (length t) (t ++ rest) ≡ t
take-append [] rest = refl
take-append (c ∷ t) rest = ap (λ x. c ∷ x) (take-append t rest)

drop-append : (t rest : Text) → drop (length t) (t ++ rest) ≡ rest
drop-append [] rest = refl
drop-append (c ∷ t) rest = drop-append t rest

read-write : (items : List ShoppingItem) → read (length items) (write items) ≡ items
read-write [] = refl
read-write (i ∷ is) =
    rw (take-append, drop-append, take-append, drop-append, take-append, drop-append, read-write is)
      refl

abbrev parse : Text → Parsed
parse [] = failed
parse (n ∷ s) = list (read n s)

codec : Codec
codec = record { stringify = λ items. length items ∷ write items; parse = parse }

codec-IsCodec : IsCodec codec
unfolding codec
codec-IsCodec = record {
  round_trip = λ items. ap (λ x. list x) (read-write items);
  not_blank = λ items. refl;
}

events : List Event
events = typed (lit " rice ") ∷ added (lit "i1") (lit "now") ∷ toggled (lit "i0") ∷ []

abbrev storage : Storage
storage = record { readable = true; writable = true; items = none }

mount-run_example :
    (first last next : ShoppingPage) × (mount codec storage ≡ some first)
    × (first.items ≡ [])
    × (run codec events first ≡ some last)
    × (mount codec last.storage ≡ some next)
    × (next.items ≡ last.items)
unfolding load_items
mount-run_example = mount-run codec storage [] events codec-IsCodec refl refl refl

abbrev page : ShoppingPage
page = record { items = []; input_value = []; storage = storage }

run-All_example :
    ((t : ShoppingPage) → run codec events page ≡ some t → All IsNamed t.items)
    × (page.storage.writable ≡ true → (t : ShoppingPage) × (run codec events page ≡ some t))
run-All_example = run-All codec events page tt
