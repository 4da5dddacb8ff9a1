-- ===== src/Bridge/Clients/Bag.antt =====
-- The table of clients of src/opcua_tcp_bridge.c as a bag of at most 32 sockets, without an order.
pub mod Freeing
pub mod Filling
pub mod Refining
use mathlib.Core.Bool.{Bool-discrete}
use mathlib.Core.List.{filter, foldr, foldl, filter-append, perm_middle}
use mathlib.Core.List.Perm
use mathlib.Core.Option
use native.Mathlib.Nat.{ℕ_set}
use mathlib.Core.Path.{ap₂}
use bo_smart_factory_opcua_t.Base.{
  ℕ, zero, suc, ◌+◌, ◌≡◌, ◌≤◌, ◌<◌, refl, sym, ap, ◌∙◌, subst, Bool, true, false, not, ◌&&◌, ◌||◌,
  List, [], ◌∷◌, ◌++◌, Perm, Option, none, some, is_some, if◌then◌else◌, length, length-append, set,
  get_elem?, ltb, leb, ◌==◌, All, map, arith, Bool-cases, Option-cases, inl, inr, and_then,
  replicate,
}
use bo_smart_factory_opcua_t.Bridge.Clients.{
  ClientConnection, Clients, idle, init_clients, max_clients, close, find_free_client_slot,
  remove_client, accept_new_client, Send, sent_whole, for_clients, send_to_client, broadcast_frame,
  poll_client, poll_clients, remove_clients,
}
use bo_smart_factory_opcua_t.Bridge.Clients.Accounting.{find_free_client_slot-inactive}
use bo_smart_factory_opcua_t.Bridge.Clients.Slots.{
  changed, changed_self, changed-none, same_change, dropped, sent_to, for_clients-slots,
  send_to_client-slots, remove_client-slots,
}

-- What main does with the table.
pub data TableCall : Type 0 where
  accept_call : Option ℕ → TableCall
  broadcast_call : Send → List ℕ → TableCall
  poll_call : (Option ℕ → Bool) → (Option ℕ → Option ℕ) → TableCall
  remove_call : TableCall

unfoldable pub table_step : Clients → TableCall → Clients
table_step st (accept_call o) = accept_new_client st o
table_step st (broadcast_call send frame) = broadcast_frame send frame st
table_step st (poll_call ready peek) = poll_clients ready peek st
table_step st remove_call = remove_clients st

-- recv() says that the other end is gone.
abbrev pub is_gone : Option ℕ → Bool
is_gone none = true
is_gone (some n) = n == 0

-- The specification, on a bag of sockets.
abbrev pub keep : (ℕ → Bool) → List ℕ → List ℕ
keep good = filter (λ s. Bool-discrete (good s) true)

abbrev pub spec_step : List ℕ → TableCall → List ℕ
spec_step bag (accept_call none) = bag
spec_step bag (accept_call (some s)) = if ltb (length bag) max_clients then s ∷ bag else bag
spec_step bag (broadcast_call send frame) =
    keep (λ s. sent_whole (send (some s) frame) (length frame)) bag
spec_step bag (poll_call ready peek) =
    keep (λ s. not (ready (some s) && is_gone (peek (some s)))) bag
spec_step bag remove_call = []

-- The sockets of the active slots.
abbrev pub open_socket : ClientConnection → List ℕ
open_socket c = if c.active then close c.socket [] else []

unfoldable pub sockets_of : List ClientConnection → List ℕ
sockets_of [] = []
sockets_of (c ∷ cs) = open_socket c ++ sockets_of cs

-- A table has 32 slots, and an active slot has a socket.
pub record IsTable (st : Clients) : Type 0 where
  pub sized : length st.slots ≡ max_clients
  pub owned : All (λ c. c.active ≡ true → is_some c.socket ≡ true) st.slots

abbrev pub Owned : ClientConnection → Type 0
Owned c = c.active ≡ true → is_some c.socket ≡ true

-- The table implements the bag.
pub record Refines (st : Clients) (bag : List ℕ) : Type 0 where
  pub table : IsTable st
  pub same : Perm (sockets_of st.slots) bag
