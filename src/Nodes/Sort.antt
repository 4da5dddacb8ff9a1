-- ===== src/Nodes/Sort.antt =====
-- sort_nodes_by_depth of src/node_manager.c: an exchange sort by node_depth.
pub mod Parents
use mathlib.Core.List.Perm
use mathlib.Core.List.{Mem, Mem-prop, mem-append, mem-cons, not-mem-nil}
use mathlib.Core.HLevel.{⊥_prop}
use mathlib.Core.Logic.Or
use bo_smart_factory_opcua_t.Base.{
  ℕ, zero, suc, ◌+◌, ◌≤◌, ◌<◌, ◌≡◌, refl, sym, ◌∙◌, subst, ap, Bool, true, false, inl, inr, List,
  [], take_of_length-le, ◌∷◌, ◌++◌, Perm, Option, none, some, arith, ltb, if◌then◌else◌, length,
  take, length-take-le, All, Bool-cases,
}
use bo_smart_factory_opcua_t.Config.{ServerNodeDef, max_nodes}
use bo_smart_factory_opcua_t.Nodes.Depth.{node_depth}

All-excludes {ℓ κ} :
    {A : Type ℓ} (P : A → Type κ) {a : A} (xs : List A) → All P xs → ¬ P a → ¬ Mem a xs
All-excludes P [] h out m = not-mem-nil m
All-excludes P (x ∷ xs) h out m =
    Or.elim ⊥_prop (mem-cons.0 m) (λ e. out (subst P (sym e) h.0)) (All-excludes P xs h.1 out)

module _ (key : ServerNodeDef → ℕ) where
  -- The inner loop, for j = i + 1, …, n - 1: the least element so far stands at sorted[i], and what
  -- it replaces goes to sorted[j].
  unfoldable pub exchange : ServerNodeDef → List ServerNodeDef → ServerNodeDef × List ServerNodeDef
  exchange x [] = (x, [])
  exchange x (y ∷ ys) =
      let smaller = ltb (key y) (key x) in
      let (least, rest) = exchange (if smaller then y else x) ys in
      (least, (if smaller then x else y) ∷ rest)

  -- The outer loop, with the rounds left.
  unfoldable pub sort_loop : ℕ → List ServerNodeDef → List ServerNodeDef
  unfolding exchange
  sort_loop zero nodes = nodes
  sort_loop (suc n) [] = []
  sort_loop (suc n) (x ∷ xs) = let (least, rest) = exchange x xs in least ∷ sort_loop n rest

  exchange-length :
      (x : ServerNodeDef) (ys : List ServerNodeDef) → length (exchange x ys).1 ≡ length ys
  unfolding exchange
  exchange-length x [] = refl
  exchange-length x (y ∷ ys) = ground (arith, exchange-length x ys, exchange-length y ys)

  length-sort_loop :
      (n : ℕ) (nodes : List ServerNodeDef) → length (sort_loop n nodes) ≡ length nodes
  unfolding sort_loop
  length-sort_loop zero nodes = refl
  length-sort_loop (suc n) [] = refl
  length-sort_loop (suc n) (x ∷ xs) =
      omega (arith, length-sort_loop n (exchange x xs).1, exchange-length x xs)

  exchange-perm :
      (x : ServerNodeDef) (ys : List ServerNodeDef)
      → Perm ((exchange x ys).0 ∷ (exchange x ys).1) (x ∷ ys)
  unfolding exchange
  exchange-perm x [] = Perm.refl (x ∷ [])
  exchange-perm x (y ∷ ys) = elim (Bool-cases (ltb (key y) (key x))) [
    | inl e ↦ rw (e, exchange) (Perm.trans (Perm.swap _ _ _) (Perm.cons x (exchange-perm y ys)))
    | inr e ↦
        rw (e, exchange)
          (Perm.trans (Perm.swap _ _ _)
            (Perm.trans (Perm.cons y (exchange-perm x ys)) (Perm.swap _ _ _)))
  ]

  -- The least key ends up in front.
  exchange-le : (x : ServerNodeDef) (ys : List ServerNodeDef) → key (exchange x ys).0 ≤ key x
  unfolding exchange
  exchange-le x [] = omega arith
  exchange-le x (y ∷ ys) = ground (arith, exchange-le x ys, exchange-le y ys)

  exchange-least :
      (x : ServerNodeDef) (ys : List ServerNodeDef) (b : ℕ)
      → b ≡ key (exchange x ys).0
      → All (λ n. b ≤ key n) (exchange x ys).1
  unfolding exchange
  exchange-least x [] b h = tt
  exchange-least x (y ∷ ys) b h = elim (Bool-cases (ltb (key y) (key x))) [
    | inl e ↦
        let h' : b ≡ key (exchange y ys).0 = rw (e, exchange) at h in
        rw (e, exchange) (ground (arith, exchange-le y ys), exchange-least y ys b h')
    | inr e ↦
        let h' : b ≡ key (exchange x ys).0 = rw (e, exchange) at h in
        rw (e, exchange) (ground (arith, exchange-le x ys), exchange-least x ys b h')
  ]

  exchange-All {κ} :
      (P : ServerNodeDef → Type κ) (x : ServerNodeDef) (ys : List ServerNodeDef)
      → P x
      → All P ys
      → P (exchange x ys).0 × All P (exchange x ys).1
  unfolding exchange
  exchange-All P x [] h hs = (h, tt)
  exchange-All P x (y ∷ ys) h hs = elim (Bool-cases (ltb (key y) (key x))) [
    | inl e ↦ let (p, rest) = exchange-All P y ys hs.0 hs.1 in rw (e, exchange) (p, (h, rest))
    | inr e ↦ let (p, rest) = exchange-All P x ys h hs.1 in rw (e, exchange) (p, (hs.0, rest))
  ]

  sort_loop-All {κ} :
      (P : ServerNodeDef → Type κ) (n : ℕ) (nodes : List ServerNodeDef)
      → All P nodes
      → All P (sort_loop n nodes)
  unfolding sort_loop
  sort_loop-All P zero nodes h = h
  sort_loop-All P (suc n) [] h = tt
  sort_loop-All P (suc n) (x ∷ xs) h =
      let (p, rest) = exchange-All P x xs h.0 h.1 in (p, sort_loop-All P n (exchange x xs).1 rest)

  -- Each key is at most every later one.
  abbrev pub IsSorted : List ServerNodeDef → Type 0
  IsSorted [] = Unit {0}
  IsSorted (n ∷ ns) = All (λ m. key n ≤ key m) ns × IsSorted ns

  pub sort_loop-IsSorted :
      (n : ℕ) (nodes : List ServerNodeDef) → length nodes ≤ n → IsSorted (sort_loop n nodes)
  unfolding sort_loop
  sort_loop-IsSorted zero [] h = tt
  sort_loop-IsSorted zero (x ∷ xs) h = absurd (omega arith)
  sort_loop-IsSorted (suc n) [] h = tt
  sort_loop-IsSorted (suc n) (x ∷ xs) h = (
    sort_loop-All (λ m. key (exchange x xs).0 ≤ key m) n (exchange x xs).1
        (exchange-least x xs (key (exchange x xs).0) refl),
    sort_loop-IsSorted n (exchange x xs).1 (omega (arith, exchange-length x xs)),
  )

  pub sort_loop-perm : (n : ℕ) (nodes : List ServerNodeDef) → Perm (sort_loop n nodes) nodes
  unfolding sort_loop
  sort_loop-perm zero nodes = Perm.refl nodes
  sort_loop-perm (suc n) [] = Perm.refl []
  sort_loop-perm (suc n) (x ∷ xs) =
      Perm.trans (Perm.cons (exchange x xs).0 (sort_loop-perm n (exchange x xs).1))
        (exchange-perm x xs)

  IsSorted-middle :
      (before : List ServerNodeDef) (n : ServerNodeDef) (after : List ServerNodeDef)
      → IsSorted (before ++ n ∷ after)
      → All (λ m. key n ≤ key m) after
  IsSorted-middle [] n after s = s.0
  IsSorted-middle (b ∷ before) n after s = IsSorted-middle before n after s.1

  -- What has a smaller key stands before.
  pub IsSorted-before :
      (before : List ServerNodeDef) (n m : ServerNodeDef) (after : List ServerNodeDef)
      → IsSorted (before ++ n ∷ after)
      → key m < key n
      → Mem m (before ++ n ∷ after)
      → Mem m before
  IsSorted-before before n m after s h mem =
      Or.elim Mem-prop (mem-append.0 mem) (λ here. here)
        λ there. absurd (
          Or.elim ⊥_prop (mem-cons.0 there) (λ e. omega (arith, ap key e))
            (λ later.
              All-excludes (λ p. key n ≤ key p) after (IsSorted-middle before n after s)
                (λ le. omega arith) later))

-- sort_nodes_by_depth, with the loop bound n of its caller: the nodes are copied first.
unfoldable pub sort_nodes_by_depth : List ServerNodeDef → ℕ → List ServerNodeDef
unfolding sort_loop
sort_nodes_by_depth nodes n = sort_loop (node_depth nodes) n (take n nodes)

-- The sorted copy holds the same nodes.
pub length-sort_nodes_by_depth :
    (nodes : List ServerNodeDef) → length (sort_nodes_by_depth nodes (length nodes)) ≡ length nodes
unfolding sort_nodes_by_depth
length-sort_nodes_by_depth nodes =
    length-sort_loop (node_depth nodes) (length nodes) (take (length nodes) nodes)
    ∙ ap length (take_of_length-le (length nodes) nodes (omega arith))

pub sort_nodes_by_depth-perm :
    (nodes : List ServerNodeDef) (n : ℕ) → Perm (sort_nodes_by_depth nodes n) (take n nodes)
unfolding sort_nodes_by_depth
sort_nodes_by_depth-perm nodes n = sort_loop-perm (node_depth nodes) n (take n nodes)

pub sort_nodes_by_depth-IsSorted :
    (nodes : List ServerNodeDef) (n : ℕ) → IsSorted (node_depth nodes) (sort_nodes_by_depth nodes n)
unfolding sort_nodes_by_depth
sort_nodes_by_depth-IsSorted nodes n =
    sort_loop-IsSorted (node_depth nodes) n (take n nodes) (length-take-le n nodes)
