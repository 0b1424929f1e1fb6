-- ===== src/Layout/Laws.antt =====
-- Where the layout's links and its search lead.
use home_stock.Common.{◌≡◌, refl, ap, ◌∙◌, some, true, ◌++◌}
use home_stock.Js.Text.{Text, lit, truthy, trim, or_none}
use home_stock.Js.Host.{Host}
use home_stock.Auth.{Session, logout, protected_route, to_login}
use home_stock.Inventory.Page.{material_query, lot_query}
use home_stock.Inventory.Page.Initial.{initial_search, initial_filters, initial_page}
use home_stock.Debounce.{first_render, changed}
use home_stock.Layout.{handle_logout}
use home_stock.Layout.Header.{search_query, handle_search_key_down}

-- `URLSearchParams` reads what `encodeURIComponent` has written.
abbrev pub Decodes : Host → Type 0
Decodes host =
    (s : Text)
    → host.search_param (lit "?" ++ (lit "keyword=" ++ host.encode_component s)) "keyword" ≡ some s

initial_search-search_query :
    (host : Host) (query : Text)
    → Decodes host
    → initial_search host (lit "?" ++ search_query host query) ≡ trim query
unfolding initial_search search_query
initial_search-search_query host query decodes = rw (decodes (trim query)) refl

or_none-given : (s : Text) → truthy s ≡ true → or_none s ≡ some s
or_none-given s given = rw given refl

-- Where `URLSearchParams` reads what `encodeURIComponent` has written: the key Enter in the
-- header's search, with a text that is not blank, leads to the address of the inventory page with
-- that text, trimmed, in its query; and a page that is first rendered there shows the trimmed text
-- as its search and loads materials and lots by that keyword at once.
pub initial_page-search_query :
    (host : Host) (query : Text)
    → Decodes host
    → truthy (trim query) ≡ true
    → (handle_search_key_down host (lit "Enter") query
        ≡ some (lit "/inventory" ++ (lit "?" ++ search_query host query)))
      × ((initial_page host (lit "?" ++ search_query host query)).search ≡ trim query)
      × ((material_query (initial_page host (lit "?" ++ search_query host query)).filters).keyword
          ≡ some (trim query))
      × ((lot_query (initial_page host (lit "?" ++ search_query host query)).filters).keyword
          ≡ some (trim query))
unfolding handle_search_key_down initial_page initial_filters material_query lot_query first_render
    changed
initial_page-search_query host query decodes given =
    let e = initial_search-search_query host query decodes in
    (
      rw given refl,
      e,
      ap or_none e ∙ or_none-given (trim query) given,
      ap or_none e ∙ or_none-given (trim query) given,
    )

-- A click on the button that logs out leads to the page of the login, and no protected page is
-- shown any more.
handle_logout-protected_route :
    (s : Session)
    → s.auth.is_initialized ≡ true
    → ((handle_logout s).1 ≡ lit "/login") × (protected_route (handle_logout s).0.auth ≡ to_login)
unfolding handle_logout logout protected_route
handle_logout-protected_route s ready = (refl, rw ready refl)
