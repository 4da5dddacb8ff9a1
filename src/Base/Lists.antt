-- ===== src/Base/Lists.antt =====
-- Lists measured and indexed by native numbers, under the library's names, and the predicate that
-- holds of every element.
use Prim.Native.Nat.{ℕ, zero, suc, ◌+◌, ◌≤◌, ◌<◌}
use mathlib.Core.Path.{◌≡◌, refl, ap, subst}
use mathlib.Core.Logic.{◌≢◌}
use mathlib.Core.List.{List, [], ◌∷◌, ◌++◌, map}
use mathlib.Core.Option.{Option, none, some}
use native.Mathlib.Omega.{arith}

module _ {ℓ} {A : Type ℓ} where
  abbrev pub length : List A → ℕ
  length [] = 0
  length (x ∷ xs) = suc (length xs)

  abbrev pub get_elem? : List A → ℕ → Option A
  get_elem? [] i = none
  get_elem? (x ∷ xs) zero = some x
  get_elem? (x ∷ xs) (suc i) = get_elem? xs i

  -- A write out of bounds changes nothing.
  abbrev pub set : List A → ℕ → A → List A
  set [] i v = []
  set (x ∷ xs) zero v = v ∷ xs
  set (x ∷ xs) (suc i) v = x ∷ set xs i v

  -- The element at i replaced by its image.
  abbrev pub update_at : List A → ℕ → (A → A) → List A
  update_at [] i f = []
  update_at (x ∷ xs) zero f = f x ∷ xs
  update_at (x ∷ xs) (suc i) f = x ∷ update_at xs i f

  abbrev pub take : ℕ → List A → List A
  take zero xs = []
  take (suc n) [] = []
  take (suc n) (x ∷ xs) = x ∷ take n xs

  abbrev pub replicate : ℕ → A → List A
  replicate zero a = []
  replicate (suc n) a = a ∷ replicate n a

  -- `memmove` of the tail over the element at `i`, in an array of which `length` cells are in use.
  abbrev pub remove_at : ℕ → List A → List A
  remove_at i [] = []
  remove_at zero (x ∷ xs) = xs
  remove_at (suc i) (x ∷ xs) = x ∷ remove_at i xs

  abbrev pub All {κ} : (A → Type κ) → List A → Type κ
  All P [] = Unit
  All P (x ∷ xs) = P x × All P xs

module _ {ℓ} {A : Type ℓ} where
  pub length-append : (xs ys : List A) → length (xs ++ ys) ≡ length xs + length ys
  length-append [] ys = omega arith
  length-append (x ∷ xs) ys = omega (arith, length-append xs ys)

  pub length-set : (xs : List A) (i : ℕ) (v : A) → length (set xs i v) ≡ length xs
  length-set [] i v = refl
  length-set (x ∷ xs) zero v = refl
  length-set (x ∷ xs) (suc i) v = ap suc (length-set xs i v)

  pub get_elem?-set_self :
      (xs : List A) (i : ℕ) (v : A) → i < length xs → get_elem? (set xs i v) i ≡ some v
  get_elem?-set_self [] i v h = elim h [ ]
  get_elem?-set_self (x ∷ xs) zero v h = refl
  get_elem?-set_self (x ∷ xs) (suc i) v h = get_elem?-set_self xs i v (omega arith)

  pub get_elem?-set_ne :
      (xs : List A) (i j : ℕ) (v : A) → i ≢ j → get_elem? (set xs i v) j ≡ get_elem? xs j
  get_elem?-set_ne [] i j v h = refl
  get_elem?-set_ne (x ∷ xs) zero zero v h = absurd (h refl)
  get_elem?-set_ne (x ∷ xs) zero (suc j) v h = refl
  get_elem?-set_ne (x ∷ xs) (suc i) zero v h = refl
  get_elem?-set_ne (x ∷ xs) (suc i) (suc j) v h = get_elem?-set_ne xs i j v (λ e. h (ap suc e))

  pub length-take-le : (n : ℕ) (xs : List A) → length (take n xs) ≤ n
  length-take-le zero xs = omega arith
  length-take-le (suc n) [] = omega arith
  length-take-le (suc n) (x ∷ xs) = omega (arith, length-take-le n xs)

  pub take_of_length-le : (m : ℕ) (l : List A) → length l ≤ m → take m l ≡ l
  take_of_length-le (suc m) (a ∷ l) short =
      ap (λ rest. a ∷ rest) (take_of_length-le m l (omega arith))
  take_of_length-le (suc m) [] short = refl
  take_of_length-le zero (a ∷ l) short = absurd (omega arith)
  take_of_length-le zero [] short = refl

  pub length-remove_at :
      (i : ℕ) (xs : List A) → i < length xs → length (remove_at i xs) + 1 ≡ length xs
  length-remove_at i [] h = elim h [ ]
  length-remove_at zero (x ∷ xs) h = omega arith
  length-remove_at (suc i) (x ∷ xs) h = omega (arith, length-remove_at i xs (omega arith))

  pub get_elem?-remove_at_below :
      (i j : ℕ) (xs : List A) → j < i → get_elem? (remove_at i xs) j ≡ get_elem? xs j
  get_elem?-remove_at_below i j [] h = refl
  get_elem?-remove_at_below zero j (x ∷ xs) h = elim h [ ]
  get_elem?-remove_at_below (suc i) zero (x ∷ xs) h = refl
  get_elem?-remove_at_below (suc i) (suc j) (x ∷ xs) h =
      get_elem?-remove_at_below i j xs (omega arith)

  pub get_elem?-remove_at_above :
      (i j : ℕ) (xs : List A) → i ≤ j → get_elem? (remove_at i xs) j ≡ get_elem? xs (suc j)
  get_elem?-remove_at_above i j [] h = refl
  get_elem?-remove_at_above zero j (x ∷ xs) h = refl
  get_elem?-remove_at_above (suc i) zero (x ∷ xs) h = elim h [ ]
  get_elem?-remove_at_above (suc i) (suc j) (x ∷ xs) h =
      get_elem?-remove_at_above i j xs (omega arith)

  pub All-append {κ} : (P : A → Type κ) (xs ys : List A) → All P xs → All P ys → All P (xs ++ ys)
  All-append P [] ys hx hy = hy
  All-append P (x ∷ xs) ys hx hy = (hx.0, All-append P xs ys hx.1 hy)

  pub All-remove_at {κ} : (P : A → Type κ) (i : ℕ) (xs : List A) → All P xs → All P (remove_at i xs)
  All-remove_at P i [] h = h
  All-remove_at P zero (x ∷ xs) h = h.1
  All-remove_at P (suc i) (x ∷ xs) h = (h.0, All-remove_at P i xs h.1)

  pub All-get_elem {κ} :
      (P : A → Type κ) (xs : List A) (i : ℕ) (x : A) → All P xs → get_elem? xs i ≡ some x → P x
  All-get_elem P [] i x h e = cc
  All-get_elem P (y ∷ xs) zero x h e = subst P (cc) h.0
  All-get_elem P (y ∷ xs) (suc i) x h e = All-get_elem P xs i x h.1 e

  pub get_elem?-map {κ} :
      {B : Type κ} (f : A → B) (xs : List A) (i : ℕ) {a : A}
      → get_elem? xs i ≡ some a
      → get_elem? (map f xs) i ≡ some (f a)
  get_elem?-map f [] i h = cc
  get_elem?-map f (x ∷ xs) zero h = cc
  get_elem?-map f (x ∷ xs) (suc i) h = get_elem?-map f xs i h

  pub get_elem?-update_at_self :
      (xs : List A) (i : ℕ) (f : A → A) {a : A}
      → get_elem? xs i ≡ some a
      → get_elem? (update_at xs i f) i ≡ some (f a)
  get_elem?-update_at_self [] i f h = cc
  get_elem?-update_at_self (x ∷ xs) zero f h = cc
  get_elem?-update_at_self (x ∷ xs) (suc i) f h = get_elem?-update_at_self xs i f h

  pub get_elem?-update_at_ne :
      (xs : List A) (i j : ℕ) (f : A → A) → i ≢ j → get_elem? (update_at xs i f) j ≡ get_elem? xs j
  get_elem?-update_at_ne [] i j f h = refl
  get_elem?-update_at_ne (x ∷ xs) zero zero f h = absurd (h refl)
  get_elem?-update_at_ne (x ∷ xs) zero (suc j) f h = refl
  get_elem?-update_at_ne (x ∷ xs) (suc i) zero f h = refl
  get_elem?-update_at_ne (x ∷ xs) (suc i) (suc j) f h =
      get_elem?-update_at_ne xs i j f (λ e. h (ap suc e))

  pub update_at-append :
      (before : List A) (x : A) (xs : List A) (f : A → A)
      → update_at (before ++ x ∷ xs) (length before) f ≡ before ++ f x ∷ xs
  update_at-append [] x xs f = refl
  update_at-append (y ∷ before) x xs f = ap (◌∷◌ y) (update_at-append before x xs f)

  pub map-ext-map :
      (f g h : A → A) → ((a : A) → f (g a) ≡ h a) → (xs : List A) → map f (map g xs) ≡ map h xs
  map-ext-map f g h e [] = refl
  map-ext-map f g h e (x ∷ xs) = rw (e x, map-ext-map f g h e xs)

  pub length-map {κ} : {B : Type κ} (f : A → B) (xs : List A) → length (map f xs) ≡ length xs
  length-map f [] = refl
  length-map f (x ∷ xs) = ap suc (length-map f xs)

  pub get_elem?-lt : (xs : List A) (i : ℕ) {a : A} → get_elem? xs i ≡ some a → i < length xs
  get_elem?-lt [] i h = cc
  get_elem?-lt (x ∷ xs) zero h = omega arith
  get_elem?-lt (x ∷ xs) (suc i) h = omega (arith, get_elem?-lt xs i h)
