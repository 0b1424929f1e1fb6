-- ===== src/Language.antt =====
-- web/src/i18n/config.ts and the choice of the language in web/src/components/layout/Header.tsx.
-- `localStorage` keeps the language, or throws on every use.
pub mod Laws
use home_stock.Common.{Option, none, some, Bool, List, [], ◌∷◌, if◌then◌else◌}
use home_stock.Js.Text.{Text, lit}

-- `localStorage`: whether it can be used, and the value of `language`.
pub record Storage : Type 0 where
  pub available : Bool
  pub language : Option Text

-- `i18n.language`, the language of the document, and the storage.
pub record Language : Type 0 where
  pub language : Text
  pub document_lang : Text
  pub storage : Storage

abbrev or_chinese : Option Text → Text
or_chinese none = lit "zh-CN"
or_chinese (some l) = l

unfoldable pub saved_language : Storage → Text
saved_language s = if s.available then or_chinese s.language else lit "zh-CN"

-- What the module does when it is loaded, in a document with this language.
unfoldable pub init : Text → Storage → Language
unfolding saved_language
init document_lang storage = record {
  language = saved_language storage;
  document_lang = document_lang;
  storage = storage;
}

-- `localStorage.setItem('language', lang)`
unfoldable pub store : Text → Storage → Storage
store lang s = if s.available then record s { language = some lang } else s

unfoldable pub handle_language_change : Text → Language → Language
unfolding store
handle_language_change lang l = record {
  language = lang;
  document_lang = lang;
  storage = store lang l.storage;
}

-- The values of the two items of the menu, and their names.
abbrev pub languages : List (Text × Text)
languages = (lit "zh-CN", lit "中文") ∷ (lit "en", lit "English") ∷ []

-- Choices one after the other.
unfoldable pub run : List Text → Language → Language
unfolding handle_language_change
run [] l = l
run (lang ∷ langs) l = run langs (handle_language_change lang l)
