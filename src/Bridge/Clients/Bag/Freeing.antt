-- ===== src/Bridge/Clients/Bag/Freeing.antt =====
-- The loops over the table of clients of src/opcua_tcp_bridge.c free some of the slots.
use mathlib.Core.Bool.{Bool-discrete}
use mathlib.Core.List.{filter-append}
use mathlib.Core.Option
use mathlib.Core.Path.{ap₂}
use bo_smart_factory_opcua_t.Base.{
  ℕ, zero, suc, ◌≡◌, ◌≤◌, refl, sym, ap, ◌∙◌, Bool, true, false, not, ◌&&◌, List, [], ◌∷◌, ◌++◌,
  Option, none, some, if◌then◌else◌, length, get_elem?, All, map, arith, Bool-cases, Option-cases,
  inl, inr,
}
use bo_smart_factory_opcua_t.Bridge.Clients.{
  ClientConnection, Clients, idle, max_clients, remove_client, Send, sent_whole, for_clients,
  poll_client,
}
use bo_smart_factory_opcua_t.Bridge.Clients.Slots.{
  changed, changed_self, changed-none, same_change, dropped, sent_to, for_clients-slots,
  remove_client-slots,
}
use bo_smart_factory_opcua_t.Bridge.Clients.Bag.{is_gone, keep, open_socket, sockets_of, Owned}

-- A change of a slot that frees it exactly if its socket is not good.
pub record Frees (good : ℕ → Bool) (f : ClientConnection → ClientConnection) : Type 0 where
  pub kept : (c : ClientConnection) → Owned c → open_socket (f c) ≡ keep good (open_socket c)
  pub still : (c : ClientConnection) → Owned c → Owned (f c)

pub sockets_of-map :
    (good : ℕ → Bool) (f : ClientConnection → ClientConnection) (cs : List ClientConnection)
    → Frees good f
    → All Owned cs
    → sockets_of (map f cs) ≡ keep good (sockets_of cs)
unfolding sockets_of
sockets_of-map good f [] h o = refl
sockets_of-map good f (c ∷ cs) h o =
    ap₂ ◌++◌ (h.kept c o.0) (sockets_of-map good f cs h o.1)
    ∙ sym (filter-append (λ s. Bool-discrete (good s) true) (open_socket c) (sockets_of cs))

pub Owned-map :
    (good : ℕ → Bool) (f : ClientConnection → ClientConnection) (cs : List ClientConnection)
    → Frees good f
    → All Owned cs
    → All Owned (map f cs)
Owned-map good f [] h o = tt
Owned-map good f (c ∷ cs) h o = (h.still c o.0, Owned-map good f cs h o.1)

pub length-map :
    (f : ClientConnection → ClientConnection) (cs : List ClientConnection)
    → length (map f cs) ≡ length cs
length-map f [] = refl
length-map f (c ∷ cs) = ap suc (length-map f cs)

pub sent_to-Frees :
    (send : Send) (frame : List ℕ)
    → Frees (λ s. sent_whole (send (some s) frame) (length frame)) (sent_to send frame)
sent_to-Frees send frame = record { kept = kept; still = λ c o. ground arith }
  where
    kept :
        (c : ClientConnection)
        → Owned c
        → open_socket (sent_to send frame c)
          ≡ keep (λ s. sent_whole (send (some s) frame) (length frame)) (open_socket c)
    kept c o = ground arith

pub dropped-Frees : Frees (λ _. false) dropped
dropped-Frees = record { kept = λ c o. ground arith; still = λ c o. ground arith }

-- A slot after it has been looked at.
abbrev pub polled : (Option ℕ → Bool) → (Option ℕ → Option ℕ) → ClientConnection → ClientConnection
polled ready peek c = if c.active && (ready c.socket && is_gone (peek c.socket)) then idle else c

pub polled-Frees :
    (ready : Option ℕ → Bool) (peek : Option ℕ → Option ℕ)
    → Frees (λ s. not (ready (some s) && is_gone (peek (some s)))) (polled ready peek)
polled-Frees ready peek = record { kept = kept; still = λ c o. ground arith }
  where
    kept :
        (c : ClientConnection)
        → Owned c
        → open_socket (polled ready peek c)
          ≡ keep (λ s. not (ready (some s) && is_gone (peek (some s)))) (open_socket c)
    kept c o = ground arith

module _ (ready : Option ℕ → Bool) (peek : Option ℕ → Option ℕ) (st : Clients) (i : ℕ) where
  poll_client_gone :
      (c : ClientConnection)
      → get_elem? st.slots i ≡ some c
      → c.active && ready c.socket ≡ true
      → is_gone (peek c.socket) ≡ true
      → poll_client ready peek st i ≡ remove_client st i
  unfolding poll_client
  poll_client_gone c e a g = ground arith

  poll_client_stays :
      (c : ClientConnection)
      → get_elem? st.slots i ≡ some c
      → (c.active && ready c.socket) && is_gone (peek c.socket) ≡ false
      → poll_client ready peek st i ≡ st
  unfolding poll_client
  poll_client_stays c e a = ground arith

  poll_client_out : get_elem? st.slots i ≡ none → poll_client ready peek st i ≡ st
  unfolding poll_client
  poll_client_out e = rw (e, poll_client) refl

pub slot : ℕ → Clients → Option ClientConnection
slot j st = get_elem? st.slots j

pub poll_client-slots :
    (ready : Option ℕ → Bool) (peek : Option ℕ → Option ℕ) (st : Clients) (i j : ℕ)
    → get_elem? (poll_client ready peek st i).slots j ≡ changed (polled ready peek) st i j
unfolding slot
poll_client-slots ready peek st i j = elim (Option-cases (get_elem? st.slots i)) [
  | inl e ↦
      ap (slot j) (poll_client_out ready peek st i e) ∙ changed-none (polled ready peek) st i j e
  | inr (c, e) ↦ elim (Bool-cases ((c.active && ready c.socket) && is_gone (peek c.socket))) [
    | inr a ↦
        ap (slot j) (poll_client_stays ready peek st i c e a)
        ∙ changed_self (polled ready peek) st i j c e (ground arith)
    | inl a ↦
        ap (slot j) (poll_client_gone ready peek st i c e (ground arith) (ground arith))
        ∙ same_change st i j c dropped (polled ready peek) e (ground arith)
            (remove_client-slots st i j)
  ]
]

-- Two tables that agree in every slot.
pub ext : (xs ys : List ClientConnection) → ((j : ℕ) → get_elem? xs j ≡ get_elem? ys j) → xs ≡ ys
ext [] [] h = refl
ext [] (y ∷ ys) h = cc (h 0)
ext (x ∷ xs) [] h = cc (h 0)
ext (x ∷ xs) (y ∷ ys) h = ap₂ ◌∷◌ (subst-some' x y (h 0)) (ext xs ys (λ j. h (suc j)))
  where
    subst-some' : (a b : ClientConnection) → some a ≡ some b → a ≡ b
    subst-some' a b e = cc

pub get_elem?-map :
    (f : ClientConnection → ClientConnection) (cs : List ClientConnection) (j : ℕ)
    → get_elem? (map f cs) j ≡ Option.map f (get_elem? cs j)
get_elem?-map f [] j = refl
get_elem?-map f (c ∷ cs) zero = refl
get_elem?-map f (c ∷ cs) (suc j) = get_elem?-map f cs j

pub get_elem?-none : (cs : List ClientConnection) (j : ℕ) → length cs ≤ j → get_elem? cs j ≡ none
get_elem?-none [] j h = refl
get_elem?-none (c ∷ cs) zero h = absurd (omega (arith, h))
get_elem?-none (c ∷ cs) (suc j) h = get_elem?-none cs j (omega (arith, h))

-- A loop over the table changes each slot by itself.
pub loop-map :
    (f : ClientConnection → ClientConnection) (body : Clients → ℕ → Clients) (st : Clients)
    → ((st' : Clients) (i k : ℕ) → get_elem? (body st' i).slots k ≡ changed f st' i k)
    → length st.slots ≡ max_clients
    → (for_clients body max_clients 0 st).slots ≡ map f st.slots
loop-map f body st h n = ext _ _ (λ j. each j ∙ sym (get_elem?-map f st.slots j))
  where
    each :
        (j : ℕ)
        → get_elem? (for_clients body max_clients 0 st).slots j
          ≡ Option.map f (get_elem? st.slots j)
    each j =
        ground (arith, for_clients-slots f body max_clients 0 st j h, get_elem?-none st.slots j)
