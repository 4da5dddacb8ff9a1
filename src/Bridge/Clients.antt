-- ===== src/Bridge/Clients.antt =====
-- The table g_clients of src/opcua_tcp_bridge.c: accepting, sending to, polling and closing the
-- clients.
pub mod Accounting
pub mod Slots
pub mod Lifetime
pub mod Bag
use bo_smart_factory_opcua_t.Base.{
  ℕ, suc, Bool, true, false, not, ◌&&◌, List, [], ◌∷◌, ◌++◌, Option, none, some, if◌then◌else◌,
  and_then, length, set, get_elem?, replicate, ◌==◌,
}

abbrev pub max_clients : ℕ
max_clients = 32

-- `none` is the socket -1.
pub record ClientConnection : Type 0 where
  pub socket : Option ℕ
  pub active : Bool

abbrev pub idle : ClientConnection
idle = record { socket = none; active = false }

-- g_clients, and the sockets given to close(), the last one first.
pub record Clients : Type 0 where
  pub slots : List ClientConnection
  pub closed : List ℕ

-- The loop at the start of main.
abbrev pub init_clients : Clients
init_clients = record { slots = replicate max_clients idle; closed = [] }

-- `none` is -1.
unfoldable pub find_free_client_slot : List ClientConnection → Option ℕ
find_free_client_slot [] = none
find_free_client_slot (c ∷ cs) =
    if not c.active then some 0 else and_then (find_free_client_slot cs) λ i. some (suc i)

-- close() of a socket; -1 is not open.
abbrev pub close : Option ℕ → List ℕ → List ℕ
close none closed = closed
close (some s) closed = s ∷ closed

-- removeClient for the slot i; an index out of range has no slot.
unfoldable pub remove_client : Clients → ℕ → Clients
remove_client st i = elim (get_elem? st.slots i) [
  | none ↦ st
  | some c ↦
      if c.active
      then record { slots = set st.slots i idle; closed = close c.socket st.closed }
      else st
]

-- acceptNewClient, with what accept() returns; `none` is a negative number.
unfoldable pub accept_new_client : Clients → Option ℕ → Clients
unfolding find_free_client_slot
accept_new_client st none = st
accept_new_client st (some s) = elim (find_free_client_slot st.slots) [
  | none ↦ record st { closed = s ∷ st.closed }
  | some slot ↦ record st { slots = set st.slots slot (record { socket = some s; active = true }) }
]

-- What send() returns for a socket; `none` is a negative number.
abbrev pub Send : Type 0
Send = Option ℕ → List ℕ → Option ℕ

abbrev pub sent_whole : Option ℕ → ℕ → Bool
sent_whole none n = false
sent_whole (some sent) n = sent == n

-- for(int i = first; i < first + rounds; ++i), with the body's change of the table.
unfoldable pub for_clients : (Clients → ℕ → Clients) → ℕ → ℕ → Clients → Clients
for_clients body ℕ.zero first st = st
for_clients body (suc rounds) first st = for_clients body rounds (suc first) (body st first)

-- The body of the loop of broadcastFrame.
unfoldable pub send_to_client : Send → List ℕ → Clients → ℕ → Clients
unfolding remove_client
send_to_client send frame st i = elim (get_elem? st.slots i) [
  | none ↦ st
  | some c ↦
      if not c.active
      then st
      else if sent_whole (send c.socket frame) (length frame)
      then st
      else remove_client st i
]

unfoldable pub broadcast_frame : Send → List ℕ → Clients → Clients
unfolding send_to_client for_clients
broadcast_frame send frame st = for_clients (send_to_client send frame) max_clients 0 st

-- The body of the loop of main that looks for closed connections: `ready` is FD_ISSET, and `peek`
-- is what recv() returns, with `none` for a negative number.
unfoldable pub poll_client : (Option ℕ → Bool) → (Option ℕ → Option ℕ) → Clients → ℕ → Clients
unfolding remove_client
poll_client ready peek st i = elim (get_elem? st.slots i) [
  | none ↦ st
  | some c ↦
      if c.active && ready c.socket
      then elim (peek c.socket) [
        | none ↦ remove_client st i
        | some n ↦ if n == 0 then remove_client st i else st
      ]
      else st
]

unfoldable pub poll_clients : (Option ℕ → Bool) → (Option ℕ → Option ℕ) → Clients → Clients
unfolding poll_client for_clients
poll_clients ready peek st = for_clients (poll_client ready peek) max_clients 0 st

-- The loop behind the main loop.
unfoldable pub remove_clients : Clients → Clients
unfolding remove_client for_clients
remove_clients st = for_clients remove_client max_clients 0 st
