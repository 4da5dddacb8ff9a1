-- ===== src/Bridge/Clients/Bag/Filling.antt =====
-- A free slot of the table of clients of src/opcua_tcp_bridge.c, and how many sockets the table holds.
use mathlib.Core.List.{foldr, perm_middle}
use mathlib.Core.List.Perm
use native.Mathlib.Nat.{ℕ_set}
use bo_smart_factory_opcua_t.Base.{
  ℕ, zero, suc, ◌≡◌, ◌≤◌, ◌<◌, refl, sym, ap, ◌∙◌, true, false, List, [], ◌∷◌, Perm, none, some,
  length, length-append, set, get_elem?, All, arith,
}
use bo_smart_factory_opcua_t.Bridge.Clients.{ClientConnection, find_free_client_slot}
use bo_smart_factory_opcua_t.Bridge.Clients.Bag.{open_socket, sockets_of, Owned}

pub length-set :
    (cs : List ClientConnection) (i : ℕ) (d : ClientConnection) → length (set cs i d) ≡ length cs
length-set [] i d = refl
length-set (c ∷ cs) zero d = refl
length-set (c ∷ cs) (suc i) d = ap suc (length-set cs i d)

-- A client in a free slot.
pub sockets_of-set :
    (cs : List ClientConnection) (i s : ℕ) (c : ClientConnection)
    → get_elem? cs i ≡ some c
    → c.active ≡ false
    → Perm (sockets_of (set cs i (record { socket = some s; active = true }))) (s ∷ sockets_of cs)
unfolding sockets_of
sockets_of-set [] i s c g a = cc
sockets_of-set (x ∷ cs) zero s c g a =
    let none_here : open_socket x ≡ [] = ground arith in
    rw none_here (Perm.refl (s ∷ sockets_of cs))
sockets_of-set (x ∷ cs) (suc i) s c g a =
    Perm.trans (Perm.append_left (open_socket x) (sockets_of-set cs i s c g a))
      (perm_middle (open_socket x) (sockets_of cs))

pub Owned-set :
    (cs : List ClientConnection) (i s : ℕ)
    → All Owned cs
    → All Owned (set cs i (record { socket = some s; active = true }))
Owned-set [] i s o = tt
Owned-set (c ∷ cs) zero s o = (λ _. refl, o.1)
Owned-set (c ∷ cs) (suc i) s o = (o.0, Owned-set cs i s o.1)

pub length-open_socket : (c : ClientConnection) → length (open_socket c) ≤ 1
length-open_socket c = ground arith

pub length-sockets_of-le : (cs : List ClientConnection) → length (sockets_of cs) ≤ length cs
unfolding sockets_of
length-sockets_of-le [] = omega arith
length-sockets_of-le (c ∷ cs) = omega (
  arith,
  length-append (open_socket c) (sockets_of cs),
  length-open_socket c,
  length-sockets_of-le cs,
)

pub length-sockets_of-lt :
    (cs : List ClientConnection) (i : ℕ) (c : ClientConnection)
    → get_elem? cs i ≡ some c
    → c.active ≡ false
    → length (sockets_of cs) < length cs
unfolding sockets_of
length-sockets_of-lt [] i c g a = cc
length-sockets_of-lt (x ∷ cs) zero c g a =
    let none_here : open_socket x ≡ [] = ground arith in
    rw none_here (omega (arith, length-sockets_of-le cs))
length-sockets_of-lt (x ∷ cs) (suc i) c g a = omega (
  arith,
  length-append (open_socket x) (sockets_of cs),
  length-open_socket x,
  length-sockets_of-lt cs i c g a,
)

-- Without a free slot, every slot has its socket in the bag.
pub length-open_socket_active :
    (c : ClientConnection) → Owned c → c.active ≡ true → length (open_socket c) ≡ 1
length-open_socket_active c o a = ground arith

pub find_free-none :
    (c : ClientConnection) (cs : List ClientConnection)
    → find_free_client_slot (c ∷ cs) ≡ none
    → (c.active ≡ true) × (find_free_client_slot cs ≡ none)
unfolding find_free_client_slot
find_free-none c cs h = ground arith

pub length-sockets_of_full :
    (cs : List ClientConnection)
    → All Owned cs
    → find_free_client_slot cs ≡ none
    → length (sockets_of cs) ≡ length cs
unfolding sockets_of
length-sockets_of_full [] o h = refl
length-sockets_of_full (c ∷ cs) o h =
    let (a, h') = find_free-none c cs h in
    omega (
      arith,
      length-append (open_socket c) (sockets_of cs),
      length-open_socket_active c o.0 a,
      length-sockets_of_full cs o.1 h',
    )

pub length-foldr : (xs : List ℕ) → foldr (λ _ n. suc n) 0 xs ≡ length xs
length-foldr [] = refl
length-foldr (x ∷ xs) = ap suc (length-foldr xs)

pub length-perm : {xs ys : List ℕ} → Perm xs ys → length xs ≡ length ys
length-perm {xs} {ys} p =
    sym (length-foldr xs) ∙ Perm.foldr-eq ℕ_set (λ _ n. suc n) (λ a b x. refl) p 0 ∙ length-foldr ys
