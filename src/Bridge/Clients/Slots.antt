-- ===== src/Bridge/Clients/Slots.antt =====
-- The loops over g_clients, seen by one slot.
use mathlib.Core.Option
use bo_smart_factory_opcua_t.Base.{
  ℕ, zero, suc, ◌+◌, ◌<◌, ◌≡◌, refl, sym, subst, not, ◌&&◌, inl, inr, List, Option, none, some,
  arith, if◌then◌else◌, length, set, get_elem?, get_elem?-set_self, get_elem?-set_ne, get_elem?-lt,
  ◌==◌, leb, ltb, Option-cases, Bool-cases,
}
use bo_smart_factory_opcua_t.Bridge.Clients.{
  ClientConnection, Clients, idle, max_clients, remove_client, Send, sent_whole, for_clients,
  send_to_client, broadcast_frame, remove_clients,
}

-- The slot j once the slot i has been changed by f.
abbrev pub changed :
    (ClientConnection → ClientConnection) → Clients → ℕ → ℕ → Option ClientConnection
changed f st i j = if i == j then Option.map f (get_elem? st.slots j) else get_elem? st.slots j

pub changed_self :
    (f : ClientConnection → ClientConnection) (st : Clients) (i j : ℕ) (c : ClientConnection)
    → get_elem? st.slots i ≡ some c
    → f c ≡ c
    → get_elem? st.slots j ≡ changed f st i j
changed_self f st i j c g e = elim (Bool-cases (i == j)) [
  | inr ne ↦ rw ne refl
  | inl eq ↦
      let p : i ≡ j = ground arith in
      let g' : get_elem? st.slots j ≡ some c = subst (λ k. get_elem? st.slots k ≡ some c) p g in
      rw (eq, g', e) refl
]

changed-set :
    (f : ClientConnection → ClientConnection) (st : Clients) (i j : ℕ) (c : ClientConnection)
    → get_elem? st.slots i ≡ some c
    → get_elem? (set st.slots i (f c)) j ≡ changed f st i j
changed-set f st i j c g = elim (Bool-cases (i == j)) [
  | inr ne ↦ rw (ne, get_elem?-set_ne st.slots i j (f c) (λ (p : i ≡ j). ground arith)) refl
  | inl eq ↦
      let p : i ≡ j = ground arith in
      let g' : get_elem? st.slots j ≡ some c = subst (λ k. get_elem? st.slots k ≡ some c) p g in
      let s : get_elem? (set st.slots j (f c)) j ≡ some (f c) =
        get_elem?-set_self st.slots j (f c) (get_elem?-lt st.slots j g') in
      rw (eq, g') (subst (λ k. get_elem? (set st.slots k (f c)) j ≡ some (f c)) (sym p) s)
]

pub changed-none :
    (f : ClientConnection → ClientConnection) (st : Clients) (i j : ℕ)
    → get_elem? st.slots i ≡ none
    → get_elem? st.slots j ≡ changed f st i j
changed-none f st i j g = elim (Bool-cases (i == j)) [
  | inr ne ↦ rw ne refl
  | inl eq ↦
      let p : i ≡ j = ground arith in
      let g' : get_elem? st.slots j ≡ none = subst (λ k. get_elem? st.slots k ≡ none) p g in
      rw (eq, g') refl
]

-- A slot without its client.
abbrev pub dropped : ClientConnection → ClientConnection
dropped c = if c.active then idle else c

pub remove_client-slots :
    (st : Clients) (i j : ℕ) → get_elem? (remove_client st i).slots j ≡ changed dropped st i j
unfolding remove_client
remove_client-slots st i j = elim (Option-cases (get_elem? st.slots i)) [
  | inl e ↦ rw (e, remove_client) (changed-none dropped st i j e)
  | inr (c, e) ↦ elim (Bool-cases c.active) [
    | inl a ↦
        rw (e, remove_client, a)
          (subst (λ d. get_elem? (set st.slots i d) j ≡ changed dropped st i j) (rw a refl)
            (changed-set dropped st i j c e))
    | inr a ↦ rw (e, remove_client, a) (changed_self dropped st i j c e (rw a refl))
  ]
]

-- A change that is another one at the slot itself.
pub same_change :
    (st' : Clients) (k l : ℕ) (c : ClientConnection) (f g : ClientConnection → ClientConnection)
    {o : Option ClientConnection}
    → get_elem? st'.slots k ≡ some c
    → f c ≡ g c
    → o ≡ changed f st' k l
    → o ≡ changed g st' k l
same_change st' k l c f g got e h = elim (Bool-cases (k == l)) [
  | inr ne ↦ rw ne (rw ne at h)
  | inl eq ↦
      let p : k ≡ l = ground arith in
      let got' : get_elem? st'.slots l ≡ some c =
        subst (λ n. get_elem? st'.slots n ≡ some c) p got in
      rw (eq, got', ← e) (rw (eq, got') at h)
]

-- A slot after a frame has been sent to its client.
abbrev pub sent_to : Send → List ℕ → ClientConnection → ClientConnection
sent_to send frame c =
    if c.active && not (sent_whole (send c.socket frame) (length frame)) then idle else c

pub send_to_client-slots :
    (send : Send) (frame : List ℕ) (st : Clients) (i j : ℕ)
    → get_elem? (send_to_client send frame st i).slots j ≡ changed (sent_to send frame) st i j
unfolding send_to_client
send_to_client-slots send frame st i j = elim (Option-cases (get_elem? st.slots i)) [
  | inl e ↦ rw (e, send_to_client) (changed-none (sent_to send frame) st i j e)
  | inr (c, e) ↦ elim (Bool-cases c.active) [
    | inr a ↦ rw (e, send_to_client, a) (changed_self (sent_to send frame) st i j c e (rw a refl))
    | inl a ↦ elim (Bool-cases (sent_whole (send c.socket frame) (length frame))) [
      | inl w ↦
          rw (e, send_to_client, a, w)
            (changed_self (sent_to send frame) st i j c e (rw (a, w) refl))
      | inr w ↦
          rw (e, send_to_client, a, w)
            (same_change st i j c dropped (sent_to send frame) e (rw (a, w) refl)
              (remove_client-slots st i j))
    ]
  ]
]

pub for_clients-slots :
    (f : ClientConnection → ClientConnection) (body : Clients → ℕ → Clients) (n first : ℕ)
    (st : Clients) (j : ℕ)
    → ((st' : Clients) (i k : ℕ) → get_elem? (body st' i).slots k ≡ changed f st' i k)
    → get_elem? (for_clients body n first st).slots j ≡ (
        if leb first j && ltb j (first + n)
        then Option.map f (get_elem? st.slots j)
        else get_elem? st.slots j)
unfolding for_clients
for_clients-slots f body zero first st j h = ground arith
for_clients-slots f body (suc n) first st j h =
    ground (arith, for_clients-slots f body n (suc first) (body st first) j h, h st first j)

-- A broadcast treats each of the 32 slots by itself: a client stays exactly when send() takes the
-- whole frame, and a slot whose client fails becomes free; a failure changes no other slot.
pub broadcast_frame-slots :
    (send : Send) (frame : List ℕ) (st : Clients) (j : ℕ)
    → j < max_clients
    → get_elem? (broadcast_frame send frame st).slots j
      ≡ Option.map (sent_to send frame) (get_elem? st.slots j)
unfolding broadcast_frame
broadcast_frame-slots send frame st j h = ground (
  arith,
  for_clients-slots (sent_to send frame) (send_to_client send frame) max_clients 0 st j
      (send_to_client-slots send frame),
)

-- Behind the main loop no slot below 32 is active.
pub remove_clients-slots :
    (st : Clients) (j : ℕ)
    → j < max_clients
    → get_elem? (remove_clients st).slots j ≡ Option.map dropped (get_elem? st.slots j)
unfolding remove_clients
remove_clients-slots st j h =
    ground (arith, for_clients-slots dropped remove_client max_clients 0 st j remove_client-slots)
