-- ===== src/Config/Names.antt =====
-- server_config_validate_browse_name of src/server_config.c, against the set of names that its
-- error message describes.
use bo_smart_factory_opcua_t.Base.{
  ℕ, ◌≤◌, ◌<◌, ◌≡◌, ◌↔◌, refl, Bool, true, false, ◌&&◌, ◌||◌, not, [], ◌∷◌, Option, none, some,
  arith, leb, ◌==◌, length, All, CString, if◌then◌else◌, Bool-cases, inl, inr, subst,
}
use bo_smart_factory_opcua_t.Config.{browse_name_max}

-- The test of the loop's body: `char` may be signed, and a byte of 128 or more fails either way.
unfoldable pub browse_name_char : ℕ → Bool
browse_name_char c =
    (leb b'a' c && leb c b'z')
    || (leb b'A' c && leb c b'Z')
    || (leb b'0' c && leb c b'9')
    || (c == b'_')

-- for(size_t i = 0; i < len; ++i)
unfoldable pub all_browse_name_chars : CString → Bool
all_browse_name_chars [] = true
all_browse_name_chars (c ∷ s) =
    let rest = all_browse_name_chars s in if not (browse_name_char c) then false else rest

-- `none` is NULL.
unfoldable pub validate_browse_name : Option CString → Bool
validate_browse_name none = false
validate_browse_name (some []) = false
validate_browse_name (some (c ∷ s)) =
    if leb browse_name_max (length (c ∷ s)) then false else all_browse_name_chars (c ∷ s)

-- A letter, a digit or an underscore.
pub data NameChar (c : ℕ) : Type 0 where
  lower : b'a' ≤ c → c ≤ b'z' → NameChar c
  upper : b'A' ≤ c → c ≤ b'Z' → NameChar c
  digit : b'0' ≤ c → c ≤ b'9' → NameChar c
  underscore : c ≡ b'_' → NameChar c

pub record BrowseName (s : CString) : Type 0 where
  pub not_empty : 0 < length s
  pub fits : length s < browse_name_max
  pub chars : All NameChar s

browse_name_char→NameChar : (c : ℕ) → browse_name_char c ≡ true → NameChar c
unfolding browse_name_char
browse_name_char→NameChar c h = elim (Bool-cases (leb b'a' c && leb c b'z')) [
  | inl e ↦ lower (ground arith) (ground arith)
  | inr e ↦ elim (Bool-cases (leb b'A' c && leb c b'Z')) [
    | inl e' ↦ upper (ground arith) (ground arith)
    | inr e' ↦ elim (Bool-cases (leb b'0' c && leb c b'9')) [
      | inl f ↦ digit (ground arith) (ground arith)
      | inr f ↦ underscore (ground arith)
    ]
  ]
]

accepted-NameChar : (c : ℕ) → NameChar c → browse_name_char c ≡ true
unfolding browse_name_char
accepted-NameChar c (lower a b) = ground arith
accepted-NameChar c (upper a b) = ground arith
accepted-NameChar c (digit a b) = ground arith
accepted-NameChar c (underscore e) = ground arith

all_browse_name_chars_iff : (s : CString) → (all_browse_name_chars s ≡ true) ↔ All NameChar s
unfolding all_browse_name_chars
all_browse_name_chars_iff [] = (λ _. tt, λ _. refl)
all_browse_name_chars_iff (c ∷ s) = (
  λ h. (browse_name_char→NameChar c (ground arith), (all_browse_name_chars_iff s).0 (ground arith)),
  λ h. ground (arith, accepted-NameChar c h.0, (all_browse_name_chars_iff s).1 h.1),
)

-- A name is accepted exactly when it is not NULL, has 1 to 63 bytes, and each of them is an ASCII
-- letter, a digit or an underscore.
pub validate_browse_name_iff :
    (name : Option CString)
    → (validate_browse_name name ≡ true) ↔ ((s : CString) × (name ≡ some s) × BrowseName s)
unfolding validate_browse_name
validate_browse_name_iff none = (λ h. cc, λ h. cc (h.1))
validate_browse_name_iff (some []) = (λ h. cc, λ h. absurd (rejects h.0 h.1 h.2))
  where
    rejects : (s : CString) → some [] ≡ some s → BrowseName s → ⊥
    rejects [] e b = omega arith
    rejects (c ∷ s) e b = cc
validate_browse_name_iff (some (c ∷ s)) = (
  λ h. (
    c ∷ s,
    refl,
    record {
      not_empty = omega arith;
      fits = ground arith;
      chars = (all_browse_name_chars_iff (c ∷ s)).0 (ground arith);
    },
  ),
  λ h. accepts h.0 h.1 h.2,
)
  where
    accepts :
        (t : CString)
        → some (c ∷ s) ≡ some t
        → BrowseName t
        → validate_browse_name (some (c ∷ s)) ≡ true
    accepts t e b =
        let p : t ≡ c ∷ s = cc in
        let b' : BrowseName (c ∷ s) = subst BrowseName p b in
        ground (arith, (all_browse_name_chars_iff (c ∷ s)).1 b'.chars)
