-- ===== src/Language/Laws.antt =====
-- The language of the next start.
use home_stock.Common.{◌≡◌, refl, true, List, [], ◌∷◌}
use home_stock.Js.Text.{Text}
use home_stock.Language.{
  Storage, Language, saved_language, init, store, handle_language_change, run,
}

change-saved :
    (lang : Text) (l : Language)
    → l.storage.available ≡ true
    → (saved_language (handle_language_change lang l).storage ≡ lang)
      × ((handle_language_change lang l).storage.available ≡ true)
unfolding saved_language handle_language_change store
change-saved lang l usable = rw usable (refl, refl)

run-saved :
    (langs : List Text) (l : Language)
    → l.storage.available ≡ true
    → saved_language l.storage ≡ l.language
    → saved_language (run langs l).storage ≡ (run langs l).language
unfolding run handle_language_change
run-saved [] l usable e = e
run-saved (lang ∷ langs) l usable e =
    let (saved, usable') = change-saved lang l usable in
    run-saved langs (handle_language_change lang l) usable' saved

-- Where the storage can be used, the client starts next time in the language that it was last in,
-- whatever languages have been chosen.
init-run :
    (document_lang : Text) (storage : Storage) (langs : List Text)
    → storage.available ≡ true
    → (init document_lang (run langs (init document_lang storage)).storage).language
      ≡ (run langs (init document_lang storage)).language
unfolding init
init-run document_lang storage langs usable =
    run-saved langs (init document_lang storage) usable refl
