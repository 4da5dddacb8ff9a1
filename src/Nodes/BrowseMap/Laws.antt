-- ===== src/Nodes/BrowseMap/Laws.antt =====
-- g_map as a partial map from names to node ids.
use bo_smart_factory_opcua_t.Base.{
  ◌<◌, ◌≡◌, refl, Bool, true, false, inl, inr, ◌&&◌, List, [], ◌∷◌, none, some, arith, CString,
  str_eq, str_eq_iff, str_eq_refl, fit_of_short, if◌then◌else◌, length, is_some, Option-cases,
  Bool-cases,
}
use bo_smart_factory_opcua_t.Config.{browse_name_max}
use bo_smart_factory_opcua_t.Nodes.BrowseMap.{
  NodeId, BrowseMapEntry, map_lookup, map_add, map_remove,
}

-- No name is in use twice.
abbrev pub IsMap : List BrowseMapEntry → Type 0
IsMap [] = Unit {0}
IsMap (e ∷ es) = ((e.used && is_some (map_lookup es e.browse_name)) ≡ false) × IsMap es

unfoldable pub has_free : List BrowseMapEntry → Bool
has_free [] = false
has_free (e ∷ es) = if e.used then has_free es else true

absent_of_used :
    (es : List BrowseMapEntry) (e : BrowseMapEntry)
    → e.used ≡ true
    → (e.used && is_some (map_lookup es e.browse_name)) ≡ false
    → map_lookup es e.browse_name ≡ none
absent_of_used es e u h = elim (Option-cases (map_lookup es e.browse_name)) [
  | inl n ↦ n
  | inr (id, s) ↦ ground arith
]

-- While an entry is free, adding a new name of up to 63 bytes binds it and no other name.
pub map_lookup-map_add :
    (es : List BrowseMapEntry) (name q : CString) (id : NodeId)
    → length name < browse_name_max
    → has_free es ≡ true
    → map_lookup es name ≡ none
    → map_lookup (map_add es name id) q ≡ (if str_eq name q then some id else map_lookup es q)
unfolding map_lookup map_add has_free
map_lookup-map_add [] name q id l h n = cc
map_lookup-map_add (e ∷ es) name q id l h n = ground (
  arith,
  map_lookup-map_add es name q id l,
  fit_of_short browse_name_max name l,
  str_eq_iff e.browse_name q,
  str_eq_iff e.browse_name name,
  str_eq_iff name q,
)

-- Removing a name unbinds it and no other name.
pub map_lookup-map_remove :
    (es : List BrowseMapEntry) (name q : CString)
    → IsMap es
    → map_lookup (map_remove es name) q ≡ (if str_eq name q then none else map_lookup es q)
unfolding map_lookup map_remove
map_lookup-map_remove [] name q m = ground arith
map_lookup-map_remove (e ∷ es) name q m = ground (
  arith,
  map_lookup-map_remove es name q m.1,
  str_eq_iff e.browse_name q,
  str_eq_iff e.browse_name name,
  str_eq_iff name q,
  m.0,
  Option-cases (map_lookup es e.browse_name),
)

map_add_absent :
    (es : List BrowseMapEntry) (name q : CString) (id : NodeId)
    → length name < browse_name_max
    → str_eq name q ≡ false
    → map_lookup es q ≡ none
    → map_lookup (map_add es name id) q ≡ none
unfolding map_add map_lookup
map_add_absent [] name q id l ne n = refl
map_add_absent (e ∷ es) name q id l ne n =
    ground (arith, map_add_absent es name q id l ne, fit_of_short browse_name_max name l)

map_remove_absent :
    (es : List BrowseMapEntry) (name q : CString)
    → map_lookup es q ≡ none
    → map_lookup (map_remove es name) q ≡ none
unfolding map_remove map_lookup
map_remove_absent [] name q n = refl
map_remove_absent (e ∷ es) name q n = ground (arith, map_remove_absent es name q)

-- Adding a new name keeps the names of the table distinct.
pub map_add-IsMap :
    (es : List BrowseMapEntry) (name : CString) (id : NodeId)
    → length name < browse_name_max
    → map_lookup es name ≡ none
    → IsMap es
    → IsMap (map_add es name id)
unfolding map_add map_lookup
map_add-IsMap [] name id l n m = tt
map_add-IsMap (e ∷ es) name id l n m = elim (Bool-cases e.used) [
  | inl u ↦
      let absent : map_lookup es e.browse_name ≡ none = absent_of_used es e u m.0 in
      let other : str_eq name e.browse_name ≡ false =
        ground (arith, str_eq_iff name e.browse_name, str_eq_refl e.browse_name) in
      rw (u, map_add)
        (
          rw (map_add_absent es name e.browse_name id l other absent) refl,
          map_add-IsMap es name id l (ground arith) m.1,
        )
  | inr u ↦ rw (u, map_add) (ground (arith, fit_of_short browse_name_max name l), m.1)
]

-- So does removing one.
pub map_remove-IsMap :
    (es : List BrowseMapEntry) (name : CString) → IsMap es → IsMap (map_remove es name)
unfolding map_remove map_lookup
map_remove-IsMap [] name m = tt
map_remove-IsMap (e ∷ es) name m = elim (Bool-cases (e.used && str_eq e.browse_name name)) [
  | inl hit ↦ rw (hit, map_remove) (refl, m.1)
  | inr miss ↦
      rw (miss, map_remove)
        (
          elim (Bool-cases e.used) [
            | inl u ↦
                rw (map_remove_absent es name e.browse_name (absent_of_used es e u m.0))
                  (ground arith)
            | inr u ↦ rw u refl
          ],
          map_remove-IsMap es name m.1,
        )
]
