-- ===== src/Gui/Window/Validating.antt =====
-- validateMappings of src/gui/MainWindow.cpp.
use mathlib.Core.List.{Memᴰ}
use mathlib.Core.List.Memᴰ
use bo_smart_factory_opcua_t.Base.{
  ◌≡◌, ◌↔◌, refl, sym, ap, ◌∙◌, subst, Bool, true, false, List, [], ◌∷◌, Option, none, some,
  if◌then◌else◌, non_empty, str_eq, str_eq→eq, str_eq_refl, Bool-cases, inl, inr, arith, ◌&&◌,
}
use bo_smart_factory_opcua_t.Gui.Qt.{Text, Qt}
use bo_smart_factory_opcua_t.Gui.Mapping.{SensorMapping}
use bo_smart_factory_opcua_t.Gui.Frame.{is_sent, enabled_mappings}
use bo_smart_factory_opcua_t.Gui.Window.{Row, mappings_from_table}

true-ne-false : true ≡ false → ⊥
true-ne-false k = cc

-- QSet::contains
unfoldable pub contains : List Text → Text → Bool
contains [] id = false
contains (x ∷ xs) id = if str_eq x id then true else contains xs id

unfoldable pub id_of : SensorMapping → Text
id_of m = if non_empty m.message_pack_id then m.message_pack_id else m.node_id_string

-- The loop, with the ids so far: `none` is true, and otherwise the id that the error names.
unfoldable pub find_duplicate : List Text → List SensorMapping → Option Text
unfolding contains id_of
find_duplicate ids [] = none
find_duplicate ids (m ∷ ms) = elim (non_empty m.node_id_string && m.enabled) [
  | true ↦ elim (contains ids (id_of m)) [
    | true ↦ some (id_of m)
    | false ↦ find_duplicate (id_of m ∷ ids) ms
  ]
  | false ↦ find_duplicate ids ms
]

unfoldable pub validate_mappings : Qt → List Row → Option Text
unfolding find_duplicate
validate_mappings qt rows = find_duplicate [] (mappings_from_table qt rows)

-- No id of the mappings that are sent is among the others, or among `ids`.
abbrev pub Distinct : List Text → List SensorMapping → Type 0
Distinct ids [] = Unit
Distinct ids (m ∷ ms) = (Memᴰ (id_of m) ids → ⊥) × Distinct (id_of m ∷ ids) ms

pub contains-true : (ids : List Text) (id : Text) → contains ids id ≡ true → Memᴰ id ids
unfolding contains
contains-true [] id h = cc
contains-true (x ∷ ids) id h = elim (Bool-cases (str_eq x id)) [
  | inl e ↦ Memᴰ.head (sym (str_eq→eq x id e))
  | inr e ↦ Memᴰ.tail (contains-true ids id (rw e at h))
]

pub contains-false : (ids : List Text) (id : Text) → contains ids id ≡ false → Memᴰ id ids → ⊥
unfolding contains
contains-false [] id h m = Memᴰ.not-nil m
contains-false (x ∷ ids) id h m = elim (Bool-cases (str_eq x id)) [
  | inl e ↦ true-ne-false (rw e at h)
  | inr e ↦ elim (Memᴰ.cases_cons m) [
    | inl same ↦ true-ne-false (sym (str_eq_refl x) ∙ ap (str_eq x) (sym same) ∙ e)
    | inr m' ↦ contains-false ids id (rw e at h) m'
  ]
]

-- The steps of the loop.
module _ (ids : List Text) (m : SensorMapping) (ms : List SensorMapping) where
  find_duplicate-skipped : is_sent m ≡ false → find_duplicate ids (m ∷ ms) ≡ find_duplicate ids ms
  unfolding find_duplicate
  find_duplicate-skipped h = ground arith

  find_duplicate-found :
      is_sent m ≡ true
      → contains ids (id_of m) ≡ true
      → find_duplicate ids (m ∷ ms) ≡ some (id_of m)
  unfolding find_duplicate
  find_duplicate-found h c = ground arith

  find_duplicate-new :
      is_sent m ≡ true
      → contains ids (id_of m) ≡ false
      → find_duplicate ids (m ∷ ms) ≡ find_duplicate (id_of m ∷ ids) ms
  unfolding find_duplicate
  find_duplicate-new h c = ground arith

some-ne-none : {id : Text} → some id ≡ none → ⊥
some-ne-none k = cc

enabled-true :
    (m : SensorMapping) (ms : List SensorMapping)
    → is_sent m ≡ true
    → enabled_mappings (m ∷ ms) ≡ m ∷ enabled_mappings ms
unfolding enabled_mappings
enabled-true m ms h = ground arith

enabled-false :
    (m : SensorMapping) (ms : List SensorMapping)
    → is_sent m ≡ false
    → enabled_mappings (m ∷ ms) ≡ enabled_mappings ms
unfolding enabled_mappings
enabled-false m ms h = ground arith

find_duplicate-nil :
    (ids : List Text) → (find_duplicate ids [] ≡ none) ↔ Distinct ids (enabled_mappings [])
unfolding find_duplicate enabled_mappings
find_duplicate-nil ids = (λ _. tt, λ _. refl)

find_duplicate_iff :
    (ids : List Text) (ms : List SensorMapping)
    → (find_duplicate ids ms ≡ none) ↔ Distinct ids (enabled_mappings ms)
find_duplicate_iff ids [] = find_duplicate-nil ids
find_duplicate_iff ids (m ∷ ms) = elim (Bool-cases (is_sent m)) [
  | inl sent ↦ elim (Bool-cases (contains ids (id_of m))) [
    | inl old ↦ (
      λ h. absurd (some-ne-none (sym (find_duplicate-found ids m ms sent old) ∙ h)),
      λ d.
          absurd
            ((subst (Distinct ids) (enabled-true m ms sent) d).0 (contains-true ids (id_of m) old)),
    )
    | inr new ↦
        let rest = find_duplicate_iff (id_of m ∷ ids) ms in
        (
          λ h. subst (Distinct ids) (sym (enabled-true m ms sent)) (
            contains-false ids (id_of m) new,
            rest.0 (sym (find_duplicate-new ids m ms sent new) ∙ h),
          ),
          λ d.
              find_duplicate-new ids m ms sent new
              ∙ rest.1 (subst (Distinct ids) (enabled-true m ms sent) d).1,
        )
  ]
  | inr skipped ↦
      let rest = find_duplicate_iff ids ms in
      (
        λ h.
            subst (Distinct ids) (sym (enabled-false m ms skipped))
              (rest.0 (sym (find_duplicate-skipped ids m ms skipped) ∙ h)),
        λ d.
            find_duplicate-skipped ids m ms skipped
            ∙ rest.1 (subst (Distinct ids) (enabled-false m ms skipped) d),
      )
]

-- The table is valid exactly if no two of the mappings that a frame would carry, the enabled ones with
-- a node id, have the same id, where a mapping without one goes by its node id.
pub validate_mappings_iff :
    (qt : Qt) (rows : List Row)
    → (validate_mappings qt rows ≡ none)
      ↔ Distinct [] (enabled_mappings (mappings_from_table qt rows))
unfolding validate_mappings
validate_mappings_iff qt rows = find_duplicate_iff [] (mappings_from_table qt rows)
