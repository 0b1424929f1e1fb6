-- ===== src/Stores/Laws.antt =====
-- What the document shows, and what the next start restores.
use home_stock.Common.{◌≡◌, refl, ◌↔◌, ◌⊎◌, inl, inr, Bool, true, List, [], ◌∷◌, arith}
use home_stock.Stores.{
  Theme, light, dark, system, Storage, Appearance, read_stored, resolved_dark, load, mount, store,
  set_theme, preference_changed, dark_after, Event, theme_chosen, preference, World, react, run,
}

-- The document is dark exactly if the theme is dark, or is the system's and the system is dark; and
-- where the storage can be used, a start with it comes up with the theme that is set.
abbrev pub IsShown : World → Type 0
IsShown (system_dark, a) =
    ((a.is_dark ≡ true) ↔ ((a.theme ≡ dark) ⊎ ((a.theme ≡ system) × (system_dark ≡ true))))
    × (a.storage.available ≡ true → (d : Bool) → (load d a.storage).theme ≡ a.theme)

resolved_dark_iff :
    (d : Bool) (t : Theme) → (resolved_dark d t ≡ true) ↔ ((t ≡ dark) ⊎ ((t ≡ system) × (d ≡ true)))
unfolding resolved_dark
resolved_dark_iff d light = (λ h. cc, λ h. elim h [ inl e ↦ cc | inr (e, f) ↦ cc ])
resolved_dark_iff d dark = (λ h. inl refl, λ h. refl)
resolved_dark_iff d system = (λ h. inr (refl, h), λ h. elim h [ inl e ↦ cc | inr (e, f) ↦ f ])

-- As the code computes it.
abbrev IsKept : World → Type 0
IsKept (system_dark, a) =
    (a.is_dark ≡ resolved_dark system_dark a.theme)
    × (a.storage.available ≡ true → read_stored a.storage ≡ a.theme)

IsKept-IsShown : (w : World) → IsKept w → IsShown w
unfolding load
IsKept-IsShown (d, a) h = (rw (h.0) (resolved_dark_iff d a.theme), λ usable d. h.1 usable)

read_stored-store :
    (t : Theme) (s : Storage) → (store t s).available ≡ true → read_stored (store t s) ≡ t
unfolding read_stored store
read_stored-store t s usable = ground arith

dark_after-resolved_dark :
    (b d : Bool) (t : Theme) (is_dark : Bool)
    → is_dark ≡ resolved_dark d t
    → dark_after b t is_dark ≡ resolved_dark b t
unfolding dark_after resolved_dark
dark_after-resolved_dark b d light is_dark h = h
dark_after-resolved_dark b d dark is_dark h = h
dark_after-resolved_dark b d system is_dark h = refl

react-IsKept : (e : Event) (w : World) → IsKept w → IsKept (react e w)
unfolding react set_theme preference_changed
react-IsKept (theme_chosen t) (d, a) h = (refl, read_stored-store t a.storage)
react-IsKept (preference b) (d, a) h = (dark_after-resolved_dark b d a.theme a.is_dark h.0, h.1)

run-IsKept : (es : List Event) (w : World) → IsKept w → IsKept (run es w)
unfolding run
run-IsKept [] w h = h
run-IsKept (e ∷ es) w h = run-IsKept es (react e w) (react-IsKept e w h)

mount-IsKept : (system_dark : Bool) (a : Appearance) → IsKept (system_dark, mount system_dark a)
unfolding mount set_theme
mount-IsKept system_dark a = (refl, read_stored-store a.theme a.storage)

-- Whatever themes are chosen and however the system's preference changes after a start: the document
-- is dark exactly if the theme is dark, or is the system's and the system prefers dark; and where the
-- storage can be used, a start with it comes up with the theme that is set.
pub run-load :
    (es : List Event) (system_dark : Bool) (s : Storage)
    → IsShown (run es (system_dark, mount system_dark (load system_dark s)))
run-load es system_dark s =
    IsKept-IsShown _ (run-IsKept es _ (mount-IsKept system_dark (load system_dark s)))
