-- ===== src/Bridge/Clients/Accounting.antt =====
-- The sockets that accept() returns: how often each is held in a slot or has been closed.
use bo_smart_factory_opcua_t.Base.{
  ℕ, zero, suc, ◌+◌, ◌≡◌, refl, ◌∙◌, Bool, true, false, inl, inr, List, [], ◌∷◌, Option, none, some,
  arith, if◌then◌else◌, and_then, set, get_elem?, ◌==◌, Option-cases, Bool-cases, and_then-eq-some,
}
use bo_smart_factory_opcua_t.Bridge.Clients.{
  ClientConnection, Clients, idle, find_free_client_slot, remove_client, accept_new_client, Send,
  for_clients, send_to_client, poll_client, close,
}

abbrev pub one_if : Bool → ℕ
one_if true = 1
one_if false = 0

-- How often a socket is in a list.
unfoldable pub count : ℕ → List ℕ → ℕ
count s [] = 0
count s (x ∷ xs) = one_if (x == s) + count s xs

abbrev held_by : ℕ → ClientConnection → ℕ
held_by s c = if c.active then count s (close c.socket []) else 0

-- How many slots hold a socket.
unfoldable pub open_count : ℕ → List ClientConnection → ℕ
open_count s [] = 0
open_count s (c ∷ cs) = held_by s c + open_count s cs

open_count-set :
    (s : ℕ) (cs : List ClientConnection) (i : ℕ) (c d : ClientConnection)
    → get_elem? cs i ≡ some c
    → open_count s (set cs i d) + held_by s c ≡ open_count s cs + held_by s d
unfolding open_count
open_count-set s [] i c d g = cc
open_count-set s (x ∷ cs) zero c d g = let e : x ≡ c = cc in rw e (omega arith)
open_count-set s (x ∷ cs) (suc i) c d g = omega (arith, open_count-set s cs i c d g)

-- How often a socket is open or has been closed.
abbrev pub known : ℕ → Clients → ℕ
known s st = open_count s st.slots + count s st.closed

count-close :
    (s : ℕ) (o : Option ℕ) (xs : List ℕ) → count s (close o xs) ≡ count s (close o []) + count s xs
unfolding count
count-close s none xs = omega arith
count-close s (some x) xs = omega arith

pub known-remove_client : (s : ℕ) (st : Clients) (i : ℕ) → known s (remove_client st i) ≡ known s st
unfolding remove_client
known-remove_client s st i = elim (Option-cases (get_elem? st.slots i)) [
  | inl e ↦ rw (e, remove_client) refl
  | inr (c, e) ↦ elim (Bool-cases c.active) [
    | inr a ↦ rw (e, remove_client, a) refl
    | inl a ↦
        let h = open_count-set s st.slots i c idle e in
        let h' : open_count s (set st.slots i idle) + count s (close c.socket [])
            ≡ open_count s st.slots + 0 =
          rw a at h in
        rw (e, remove_client, a) (omega (arith, h', count-close s c.socket st.closed))
  ]
]

pub find_free_client_slot-inactive :
    (cs : List ClientConnection) (i : ℕ)
    → find_free_client_slot cs ≡ some i
    → (c : ClientConnection) × (get_elem? cs i ≡ some c) × (c.active ≡ false)
unfolding find_free_client_slot
find_free_client_slot-inactive [] i h = cc
find_free_client_slot-inactive (x ∷ cs) i h = elim (Bool-cases x.active) [
  | inl a ↦
      let h' : and_then (find_free_client_slot cs) (λ k. some (suc k)) ≡ some i =
        rw (a, find_free_client_slot) at h in
      let (k, found, q) = and_then-eq-some (find_free_client_slot cs) (λ n. some (suc n)) h' in
      let (c, got, off) = find_free_client_slot-inactive cs k found in
      let e : suc k ≡ i = cc in (c, rw (← e) got, off)
  | inr a ↦
      let h' : some 0 ≡ some i = rw (a, find_free_client_slot) at h in
      let e : 0 ≡ i = cc in (x, rw (← e) refl, a)
]

-- The sockets of one result of accept().
abbrev pub accepted_socket : Option ℕ → List ℕ
accepted_socket none = []
accepted_socket (some x) = x ∷ []

pub known-accept_new_client :
    (s : ℕ) (st : Clients) (o : Option ℕ)
    → known s (accept_new_client st o) ≡ count s (accepted_socket o) + known s st
unfolding accept_new_client count
known-accept_new_client s st none = omega arith
known-accept_new_client s st (some x) = elim (Option-cases (find_free_client_slot st.slots)) [
  | inl e ↦ rw (e, accept_new_client) (omega arith)
  | inr (i, e) ↦
      let (c, got, off) = find_free_client_slot-inactive st.slots i e in
      let h = open_count-set s st.slots i c (record { socket = some x; active = true }) got in
      let h' : open_count s (set st.slots i (record { socket = some x; active = true })) + 0
          ≡ open_count s st.slots + (one_if (x == s) + 0) =
        rw off at h in
      rw (e, accept_new_client) (omega (arith, h'))
]

pub for_clients-known :
    (s : ℕ) (body : Clients → ℕ → Clients) (n first : ℕ) (st : Clients)
    → ((st' : Clients) (i : ℕ) → known s (body st' i) ≡ known s st')
    → known s (for_clients body n first st) ≡ known s st
unfolding for_clients
for_clients-known s body zero first st h = refl
for_clients-known s body (suc n) first st h =
    for_clients-known s body n (suc first) (body st first) h ∙ h st first

pub known-send_to_client :
    (s : ℕ) (send : Send) (frame : List ℕ) (st : Clients) (i : ℕ)
    → known s (send_to_client send frame st i) ≡ known s st
unfolding send_to_client
known-send_to_client s send frame st i = elim (Option-cases (get_elem? st.slots i)) [
  | inl e ↦ rw (e, send_to_client) refl
  | inr (c, e) ↦ rw (e, send_to_client) (ground (arith, known-remove_client s st i))
]

pub known-poll_client :
    (s : ℕ) (ready : Option ℕ → Bool) (peek : Option ℕ → Option ℕ) (st : Clients) (i : ℕ)
    → known s (poll_client ready peek st i) ≡ known s st
unfolding poll_client
known-poll_client s ready peek st i = elim (Option-cases (get_elem? st.slots i)) [
  | inl e ↦ rw (e, poll_client) refl
  | inr (c, e) ↦ elim (Option-cases (peek c.socket)) [
    | inl p ↦ rw (e, poll_client, p) (ground (arith, known-remove_client s st i))
    | inr (n, p) ↦ rw (e, poll_client, p) (ground (arith, known-remove_client s st i))
  ]
]
