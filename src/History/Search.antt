-- ===== src/History/Search.antt =====
-- What a search finds.
use home_stock.Common.{
  ◌≡◌, refl, subst, sym, ap, ◌∙◌, ◌↔◌, inl, inr, ◌⊎◌, Option, none, some, map, Bool, true, List, [],
  ◌∷◌, ◌++◌, arith, Bool-cases, filter, any, ◌==◌, ==_iff,
}
use mathlib.Core.List.{Memᴰ}
use mathlib.Core.List.Memᴰ
use home_stock.Js.Text.{Text, lit, trim, truthy, starts_with, includes}
use home_stock.Js.Host.{Host}
use home_stock.Types.{Material, StockMovement, AuditLog, AuditEntityType}
use home_stock.History.{
  query_of, movement_fields, entity_text, filtered_movements, audit_fields, filtered_audit_logs,
}

-- t stands in s.
abbrev pub IsIn : Text → Text → Type 0
IsIn t s = (before : Text) × (after : Text) × (s ≡ before ++ (t ++ after))

starts_with-prefix : (s t : Text) → starts_with s t ≡ true → (after : Text) × (s ≡ t ++ after)
starts_with-prefix s [] h = (s, refl)
starts_with-prefix [] (d ∷ t) h = cc
starts_with-prefix (c ∷ s) (d ∷ t) h =
    let same : (c == d) ≡ true = ground arith in
    let (after, e) = starts_with-prefix s t (ground arith) in
    let e' : c ≡ d = (==_iff c d).0 same in (after, cc)

starts_with-append : (t after : Text) → starts_with (t ++ after) t ≡ true
starts_with-append [] [] = refl
starts_with-append [] (c ∷ after) = refl
starts_with-append (c ∷ t) after =
    let same : (c == c) ≡ true = (==_iff c c).1 refl in rw same (starts_with-append t after)

includes-IsIn : (s t : Text) → includes s t ≡ true → IsIn t s
unfolding includes
includes-IsIn [] t h = let (after, e) = starts_with-prefix [] t h in ([], after, e)
includes-IsIn (c ∷ s) t h = elim (Bool-cases (starts_with (c ∷ s) t)) [
  | inl here ↦ let (after, e) = starts_with-prefix (c ∷ s) t here in ([], after, e)
  | inr not_here ↦
      let (before, after, e) = includes-IsIn s t (ground arith) in
      (c ∷ before, after, ap (λ x. c ∷ x) e)
]

IsIn-includes : (t before after : Text) → includes (before ++ (t ++ after)) t ≡ true
unfolding includes
IsIn-includes [] [] [] = refl
IsIn-includes [] [] (c ∷ after) = refl
IsIn-includes (c ∷ t) [] after = rw (starts_with-append (c ∷ t) after) refl
IsIn-includes t (c ∷ before) after = rw (IsIn-includes t before after) (ground arith)

includes_iff : (s t : Text) → (includes s t ≡ true) ↔ IsIn t s
includes_iff s t = (
  includes-IsIn s t,
  λ (before, after, e). subst (λ x. includes x t ≡ true) (sym e) (IsIn-includes t before after),
)

module _ {A : Type 0} (p : A → Bool) where
  pub filter-Mem : (x : A) (xs : List A) → Memᴰ x (filter p xs) ↔ (Memᴰ x xs × (p x ≡ true))
  filter-Mem x [] = (λ m. absurd (Memᴰ.not-nil m), λ m. absurd (Memᴰ.not-nil m.0))
  filter-Mem x (y ∷ ys) =
      let (from, back) = filter-Mem x ys in
      elim (Bool-cases (p y)) [
        | inl kept ↦ rw kept (
          λ m. elim (Memᴰ.cases_cons m) [
            | inl e ↦ (Memᴰ.head e, ap p e ∙ kept)
            | inr m' ↦ (Memᴰ.tail (from m').0, (from m').1)
          ],
          λ (m, q). elim (Memᴰ.cases_cons m) [
            | inl e ↦ Memᴰ.head e
            | inr m' ↦ Memᴰ.tail (back (m', q))
          ],
        )
        | inr dropped ↦ rw dropped (
          λ m. (Memᴰ.tail (from m).0, (from m).1),
          λ (m, q). elim (Memᴰ.cases_cons m) [
            | inl e ↦ let e' : p x ≡ p y = ap p e in cc
            | inr m' ↦ back (m', q)
          ],
        )
      ]

  pub any-Mem : (xs : List A) → (any p xs ≡ true) ↔ ((x : A) × Memᴰ x xs × (p x ≡ true))
  any-Mem [] = (λ e. cc, λ (x, m, e). absurd (Memᴰ.not-nil m))
  any-Mem (y ∷ ys) =
      let (from, back) = any-Mem ys in
      (
        λ e. elim (Bool-cases (p y)) [
          | inl here ↦ (y, Memᴰ.head refl, here)
          | inr not_here ↦ let (x, m, q) = from (ground arith) in (x, Memᴰ.tail m, q)
        ],
        λ (x, m, q). elim (Memᴰ.cases_cons m) [
          | inl e ↦ let e' : p x ≡ p y = ap p e in let here : p y ≡ true = cc in rw here refl
          | inr m' ↦ rw (back (x, m', q)) (ground arith)
        ],
      )

-- The query stands in one of the texts.
abbrev pub SomeIn : Text → List Text → Type 0
SomeIn query [] = ⊥
SomeIn query (t ∷ ts) = IsIn query t ⊎ SomeIn query ts

-- Likewise in lower case, in one that is not blank.
abbrev pub SomeGivenIn : (Text → Text) → Text → List Text → Type 0
SomeGivenIn lower query [] = ⊥
SomeGivenIn lower query (t ∷ ts) =
    ((truthy t ≡ true) × IsIn query (lower t)) ⊎ SomeGivenIn lower query ts

any-SomeIn :
    (query : Text) (ts : List Text) → (any (λ t. includes t query) ts ≡ true) ↔ SomeIn query ts
any-SomeIn query [] = (λ h. cc, λ h. absurd h)
any-SomeIn query (t ∷ ts) =
    let (from, back) = any-SomeIn query ts in
    let (found, finds) = includes_iff t query in
    elim (Bool-cases (includes t query)) [
      | inl here ↦ rw here (λ h. inl (found here), λ h. refl)
      | inr not_here ↦ rw not_here (
        λ h. inr (from h),
        λ h. elim h [ inl now ↦ let here = finds now in cc | inr later ↦ back later ],
      )
    ]

any-SomeGivenIn :
    (lower : Text → Text) (query : Text) (ts : List Text)
    → (any (λ t. includes (lower t) query) (filter truthy ts) ≡ true) ↔ SomeGivenIn lower query ts
any-SomeGivenIn lower query [] = (λ h. cc, λ h. absurd h)
any-SomeGivenIn lower query (t ∷ ts) =
    let (from, back) = any-SomeGivenIn lower query ts in
    let (found, finds) = includes_iff (lower t) query in
    elim (Bool-cases (truthy t)) [
      | inl given ↦ elim (Bool-cases (includes (lower t) query)) [
        | inl here ↦ rw (given, here) (λ h. inl (refl, found here), λ h. refl)
        | inr not_here ↦
            rw (given, not_here)
              (
                λ h. inr (from h),
                λ h. elim h [ inl now ↦ let here = finds now.1 in cc | inr later ↦ back later ],
              )
      ]
      | inr blank ↦
          rw blank (λ h. inr (from h), λ h. elim h [ inl now ↦ absurd cc | inr later ↦ back later ])
    ]

not-IsIn-nil : (c : _) (query : Text) → ¬ IsIn (c ∷ query) []
not-IsIn-nil c query ([], after, e) = cc
not-IsIn-nil c query (d ∷ before, after, e) = cc

SomeIn-blank :
    (query : Text) (ts : List Text)
    → truthy query ≡ true
    → SomeIn query ([] ∷ [] ∷ ts) ↔ SomeIn query ts
SomeIn-blank [] ts h = cc
SomeIn-blank (c ∷ query) ts h = (
  λ s. elim s [
    | inl now ↦ absurd (not-IsIn-nil c query now)
    | inr (inl now) ↦ absurd (not-IsIn-nil c query now)
    | inr (inr later) ↦ later
  ],
  λ s. inr (inr s),
)

-- The texts of a movement that are searched.
abbrev material_texts : Option Material → List Text
material_texts none = []
material_texts (some x) = x.name ∷ x.spec ∷ []

abbrev pub movement_texts : StockMovement → List Text
movement_texts m = material_texts m.material ++ (m.lot_id ∷ m.reason ∷ m.remark ∷ [])

movement_fields-SomeIn :
    (host : Host) (query : Text) (m : StockMovement) (material : Option Material)
    → m.material ≡ material
    → truthy query ≡ true
    → SomeIn query (movement_fields host m)
      ↔ SomeIn query
          (map host.lower (material_texts material ++ (m.lot_id ∷ m.reason ∷ m.remark ∷ [])))
unfolding movement_fields
movement_fields-SomeIn host query m none e given = rw e (
    SomeIn-blank query (host.lower m.lot_id ∷ host.lower m.reason ∷ host.lower m.remark ∷ []) given)
movement_fields-SomeIn host query m (some x) e given = rw e (λ h. h, λ h. h)

-- A search whose text, trimmed and in lower case, is not blank finds exactly the movements that have
-- that text in one of five texts in lower case: the material's name and specification, if there is
-- a material, the lot's id, the reason and the remark.
pub filtered_movements-Mem :
    (host : Host) (search : Text) (ms : List StockMovement) (m : StockMovement)
    → truthy (host.lower (trim search)) ≡ true
    → Memᴰ m (filtered_movements host search ms)
      ↔ (Memᴰ m ms × SomeIn (host.lower (trim search)) (map host.lower (movement_texts m)))
unfolding filtered_movements query_of
filtered_movements-Mem host search ms m given =
    let query = host.lower (trim search) in
    let (from, back) =
      filter-Mem (λ x. any (λ field. includes field query) (movement_fields host x)) m ms in
    let (found, finds) = any-SomeIn query (movement_fields host m) in
    let (has, had) = movement_fields-SomeIn host query m m.material refl given in
    rw given (λ at. ((from at).0, has (found (from at).1)), λ (at, h). back (at, finds (had h)))

-- The texts of a log entry that are searched, the entity's type as the server writes it.
abbrev pub type_text : AuditEntityType → Text
type_text AuditEntityType.material = lit "material"
type_text AuditEntityType.stock_lot = lit "stock_lot"
type_text AuditEntityType.category = lit "category"
type_text AuditEntityType.system_setting = lit "system_setting"

abbrev pub log_texts : AuditLog → List Text
log_texts log = log.entity_name ∷ log.user_name ∷ log.user_id ∷ type_text log.entity_type ∷ []

entity_text-type_text : (t : AuditEntityType) → type_text t ≡ entity_text t
unfolding entity_text
entity_text-type_text AuditEntityType.material = refl
entity_text-type_text AuditEntityType.stock_lot = refl
entity_text-type_text AuditEntityType.category = refl
entity_text-type_text AuditEntityType.system_setting = refl

-- A search whose text, trimmed and in lower case, is not blank finds exactly the log entries that
-- have that text, in lower case, in one of four texts that are not blank: the entity's name, the
-- user's name and id, and the entity's type.
pub filtered_audit_logs-Mem :
    (host : Host) (search : Text) (logs : List AuditLog) (log : AuditLog)
    → truthy (host.lower (trim search)) ≡ true
    → Memᴰ log (filtered_audit_logs host search logs)
      ↔ (Memᴰ log logs × SomeGivenIn host.lower (host.lower (trim search)) (log_texts log))
unfolding filtered_audit_logs query_of audit_fields
filtered_audit_logs-Mem host search logs log given =
    let query = host.lower (trim search) in
    let (from, back) =
      filter-Mem (λ x. any (λ field. includes (host.lower field) query) (audit_fields x)) log
        logs in
    let (found, finds) =
      any-SomeGivenIn host.lower query
        (log.entity_name ∷ log.user_name ∷ log.user_id ∷ entity_text log.entity_type ∷ []) in
    rw (given, entity_text-type_text log.entity_type)
      (λ at. ((from at).0, found (from at).1), λ (at, h). back (at, finds h))
