-- ===== src/Bridge/Clients/Lifetime.antt =====
-- The sockets of the bridge's clients over a whole run: any sequence of connections, broadcasts and
-- polls, and then the closing loop.
use mathlib.Core.Option
use bo_smart_factory_opcua_t.Base.{
  ℕ, zero, suc, ◌+◌, ◌≡◌, refl, sym, ◌∙◌, Bool, true, false, inl, inr, List, [], ◌∷◌, ◌++◌, Option,
  none, some, arith, length, get_elem?, get_elem?-lt, length-set, replicate, Option-cases,
  if◌then◌else◌, subst-some,
}
use bo_smart_factory_opcua_t.Bridge.Clients.{
  ClientConnection, Clients, idle, init_clients, max_clients, find_free_client_slot, remove_client,
  accept_new_client, Send, for_clients, send_to_client, broadcast_frame, poll_client, poll_clients,
  remove_clients,
}
use bo_smart_factory_opcua_t.Bridge.Clients.Accounting.{
  count, open_count, known, known-remove_client, known-accept_new_client, known-send_to_client,
  known-poll_client, for_clients-known, accepted_socket,
}
use bo_smart_factory_opcua_t.Bridge.Clients.Slots.{dropped, remove_clients-slots}

-- What the main loop does to the table, in the order in which it happens.
pub data Event : Type 0 where
  connection : Option ℕ → Event
  broadcast : Send → List ℕ → Event
  poll : (Option ℕ → Bool) → (Option ℕ → Option ℕ) → Event

unfoldable pub step : Clients → Event → Clients
unfolding accept_new_client broadcast_frame poll_clients
step st (connection o) = accept_new_client st o
step st (broadcast send frame) = broadcast_frame send frame st
step st (poll ready peek) = poll_clients ready peek st

unfoldable pub run : Clients → List Event → Clients
run st [] = st
run st (e ∷ es) = run (step st e) es

-- The sockets that accept() returned.
unfoldable pub accepted_sockets : List Event → List ℕ
accepted_sockets [] = []
accepted_sockets (connection o ∷ es) = accepted_socket o ++ accepted_sockets es
accepted_sockets (broadcast _ _ ∷ es) = accepted_sockets es
accepted_sockets (poll _ _ ∷ es) = accepted_sockets es

known-broadcast_frame :
    (s : ℕ) (send : Send) (frame : List ℕ) (st : Clients)
    → known s (broadcast_frame send frame st) ≡ known s st
unfolding broadcast_frame
known-broadcast_frame s send frame st =
    for_clients-known s (send_to_client send frame) max_clients 0 st
      (known-send_to_client s send frame)

known-poll_clients :
    (s : ℕ) (ready : Option ℕ → Bool) (peek : Option ℕ → Option ℕ) (st : Clients)
    → known s (poll_clients ready peek st) ≡ known s st
unfolding poll_clients
known-poll_clients s ready peek st =
    for_clients-known s (poll_client ready peek) max_clients 0 st (known-poll_client s ready peek)

known-remove_clients : (s : ℕ) (st : Clients) → known s (remove_clients st) ≡ known s st
unfolding remove_clients
known-remove_clients s st =
    for_clients-known s remove_client max_clients 0 st (known-remove_client s)

count-append : (s : ℕ) (xs ys : List ℕ) → count s (xs ++ ys) ≡ count s xs + count s ys
unfolding count
count-append s [] ys = omega arith
count-append s (x ∷ xs) ys = omega (arith, count-append s xs ys)

-- At every moment a socket is open or closed as often as accept() has returned it.
pub known-run :
    (s : ℕ) (st : Clients) (es : List Event)
    → known s (run st es) ≡ known s st + count s (accepted_sockets es)
unfolding run accepted_sockets count step
known-run s st [] = omega arith
known-run s st (connection o ∷ es) = omega (
  arith,
  known-run s (accept_new_client st o) es,
  known-accept_new_client s st o,
  count-append s (accepted_socket o) (accepted_sockets es),
)
known-run s st (broadcast send frame ∷ es) =
    omega
      (arith, known-run s (broadcast_frame send frame st) es, known-broadcast_frame s send frame st)
known-run s st (poll ready peek ∷ es) =
    omega (arith, known-run s (poll_clients ready peek st) es, known-poll_clients s ready peek st)

length-remove_client : (st : Clients) (i : ℕ) → length (remove_client st i).slots ≡ length st.slots
unfolding remove_client
length-remove_client st i = elim (Option-cases (get_elem? st.slots i)) [
  | inl e ↦ rw (e, remove_client) refl
  | inr (c, e) ↦ rw (e, remove_client) (ground (arith, length-set st.slots i idle))
]

for_clients-length :
    (body : Clients → ℕ → Clients) (n first : ℕ) (st : Clients)
    → ((st' : Clients) (i : ℕ) → length (body st' i).slots ≡ length st'.slots)
    → length (for_clients body n first st).slots ≡ length st.slots
unfolding for_clients
for_clients-length body zero first st h = refl
for_clients-length body (suc n) first st h =
    for_clients-length body n (suc first) (body st first) h ∙ h st first

length-send_to_client :
    (send : Send) (frame : List ℕ) (st : Clients) (i : ℕ)
    → length (send_to_client send frame st i).slots ≡ length st.slots
unfolding send_to_client
length-send_to_client send frame st i = elim (Option-cases (get_elem? st.slots i)) [
  | inl e ↦ rw (e, send_to_client) refl
  | inr (c, e) ↦ rw (e, send_to_client) (ground (arith, length-remove_client st i))
]

length-poll_client :
    (ready : Option ℕ → Bool) (peek : Option ℕ → Option ℕ) (st : Clients) (i : ℕ)
    → length (poll_client ready peek st i).slots ≡ length st.slots
unfolding poll_client
length-poll_client ready peek st i = elim (Option-cases (get_elem? st.slots i)) [
  | inl e ↦ rw (e, poll_client) refl
  | inr (c, e) ↦ elim (Option-cases (peek c.socket)) [
    | inl p ↦ rw (e, poll_client, p) (ground (arith, length-remove_client st i))
    | inr (n, p) ↦ rw (e, poll_client, p) (ground (arith, length-remove_client st i))
  ]
]

length-step : (st : Clients) (e : Event) → length (step st e).slots ≡ length st.slots
unfolding step accept_new_client broadcast_frame poll_clients
length-step st (connection none) = refl
length-step st (connection (some s)) = elim (Option-cases (find_free_client_slot st.slots)) [
  | inl e ↦ rw (e, accept_new_client) refl
  | inr (i, e) ↦
      rw (e, accept_new_client) (length-set st.slots i (record { socket = some s; active = true }))
]
length-step st (broadcast send frame) =
    for_clients-length (send_to_client send frame) max_clients 0 st
      (length-send_to_client send frame)
length-step st (poll ready peek) =
    for_clients-length (poll_client ready peek) max_clients 0 st (length-poll_client ready peek)

pub length-run : (st : Clients) (es : List Event) → length (run st es).slots ≡ length st.slots
unfolding run
length-run st [] = refl
length-run st (e ∷ es) = length-run (step st e) es ∙ length-step st e

-- A table without an active slot holds no socket.
open_count-none :
    (s : ℕ) (cs : List ClientConnection)
    → ((j : ℕ) (c : ClientConnection) → get_elem? cs j ≡ some c → c.active ≡ false)
    → open_count s cs ≡ 0
unfolding open_count
open_count-none s [] h = refl
open_count-none s (c ∷ cs) h =
    rw (h 0 c refl) (omega (arith, open_count-none s cs (λ j. h (suc j))))

idle_or_inactive :
    (b : Bool) (d : ClientConnection) → d.active ≡ b → (if b then idle else d).active ≡ false
idle_or_inactive true d e = refl
idle_or_inactive false d e = e

dropped-inactive :
    (o : Option ClientConnection) (c : ClientConnection)
    → Option.map dropped o ≡ some c
    → c.active ≡ false
dropped-inactive none c h = cc
dropped-inactive (some d) c h =
    subst-some (λ k. k.active ≡ false) h (idle_or_inactive d.active d refl)

length-remove_clients : (st : Clients) → length (remove_clients st).slots ≡ length st.slots
unfolding remove_clients
length-remove_clients st = for_clients-length remove_client max_clients 0 st length-remove_client

idle_slots :
    (n j : ℕ) (c : ClientConnection) → get_elem? (replicate n idle) j ≡ some c → c.active ≡ false
idle_slots zero j c g = cc
idle_slots (suc n) zero c g = let e : idle ≡ c = cc in rw (← e) refl
idle_slots (suc n) (suc j) c g = idle_slots n j c g

known-init_clients : (s : ℕ) → known s init_clients ≡ 0
unfolding count
known-init_clients s =
    omega (arith, open_count-none s init_clients.slots (λ j c g. idle_slots max_clients j c g))

-- Whatever connects, fails and hangs up, in whatever order: once the bridge is down, every socket
-- has been closed exactly as often as accept() returned it. None leaks and none is closed twice,
-- those included that were refused because all 32 slots were taken.
pub remove_clients-run :
    (es : List Event) (s : ℕ)
    → count s (remove_clients (run init_clients es)).closed ≡ count s (accepted_sockets es)
remove_clients-run es s =
    let st = run init_clients es in
    let len : length st.slots ≡ max_clients = length-run init_clients es in
    let quiet : open_count s (remove_clients st).slots ≡ 0 =
      open_count-none s (remove_clients st).slots λ j c g.
        dropped-inactive (get_elem? st.slots j) c (
          sym (
            remove_clients-slots st j (
              omega
                (arith, len, length-remove_clients st, get_elem?-lt (remove_clients st).slots j g)))
          ∙ g) in
    omega
      (arith, quiet, known-remove_clients s st, known-run s init_clients es, known-init_clients s)

-- The table keeps its 32 slots, so that at most 32 clients are ever held.
pub length-run_init : (es : List Event) → length (run init_clients es).slots ≡ max_clients
length-run_init es = length-run init_clients es
