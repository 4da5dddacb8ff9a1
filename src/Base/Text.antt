-- ===== src/Base/Text.antt =====
-- C strings: the bytes before the terminating NUL. A `char` buffer of size n that `snprintf` fills
-- by "%s" holds the first n - 1 bytes.
use Prim.Native.Nat.{ℕ, ◌-◌, ◌<◌}
use Prim.Native.Char.{code}
use Prim.Native.String.{String}
use mathlib.Core.Bool.{Bool, true, false, ◌&&◌}
use mathlib.Core.List.{List, [], ◌∷◌}
use mathlib.Core.Logic.{◌↔◌, ◌≢◌, inl, inr}
use mathlib.Core.Path.{◌≡◌, refl, sym}
use native.Mathlib.Omega.{arith}
use bo_smart_factory_opcua_t.Base.Lists.{length, take, All, take_of_length-le, length-take-le}
use bo_smart_factory_opcua_t.Base.Tests.{◌==◌, if◌then◌else◌, Bool-cases}

abbrev pub CString : Type 0
CString = List ℕ

abbrev pub codes : String → CString
codes String.[] = []
codes (String.◌∷◌ c s) = code c ∷ codes s

-- `strcmp(s, t) == 0`
unfoldable pub str_eq : CString → CString → Bool
str_eq [] [] = true
str_eq [] (d ∷ t) = false
str_eq (c ∷ s) [] = false
str_eq (c ∷ s) (d ∷ t) = (c == d) && str_eq s t

pub str_eq→eq : (s t : CString) → str_eq s t ≡ true → s ≡ t
unfolding str_eq
str_eq→eq [] [] h = refl
str_eq→eq [] (d ∷ t) h = cc
str_eq→eq (c ∷ s) [] h = cc
str_eq→eq (c ∷ s) (d ∷ t) h = ground (arith, str_eq→eq s t)

pub str_eq_refl : (s : CString) → str_eq s s ≡ true
unfolding str_eq
str_eq_refl [] = refl
str_eq_refl (c ∷ s) = ground (arith, str_eq_refl s)

pub str_eq_iff : (s t : CString) → (str_eq s t ≡ true) ↔ (s ≡ t)
str_eq_iff s t = (str_eq→eq s t, λ e. rw e (str_eq_refl t))

pub str_eq_ne : (s t : CString) → s ≢ t → str_eq t s ≡ false
str_eq_ne s t h = elim (Bool-cases (str_eq t s)) [
  | inl e ↦ absurd (h (sym (str_eq→eq t s e)))
  | inr e ↦ e
]

-- `s[0]` as a truth value: the string is not empty.
abbrev pub non_empty : CString → Bool
non_empty [] = false
non_empty (c ∷ s) = true

-- `snprintf(buf, size, "%s", s)`, as the string that the buffer then holds.
abbrev pub fit : ℕ → CString → CString
fit size s = take (size - 1) s

pub fit_of_short : (size : ℕ) (s : CString) → length s < size → fit size s ≡ s
fit_of_short size s h = take_of_length-le (size - 1) s (omega arith)

pub fit_short : (size : ℕ) (s : CString) → 0 < size → length (fit size s) < size
fit_short size s h = omega (arith, length-take-le (size - 1) s)

-- A buffer of bytes read as a C string ends at its first NUL.
unfoldable pub until_nul : CString → CString
until_nul [] = []
until_nul (c ∷ s) = if c == 0 then [] else c ∷ until_nul s

abbrev pub NoNul : CString → Type 0
NoNul = All (λ c. 0 < c)

pub until_nul_of_NoNul : (s : CString) → NoNul s → until_nul s ≡ s
unfolding until_nul
until_nul_of_NoNul [] h = refl
until_nul_of_NoNul (c ∷ s) h = ground (arith, until_nul_of_NoNul s h.1)
