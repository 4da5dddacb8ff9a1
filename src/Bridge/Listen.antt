-- ===== src/Bridge/Listen.antt =====
-- createListenSocket of src/opcua_tcp_bridge.c, and the choice of the port in its main.
use bo_smart_factory_opcua_t.Base.{
  ℕ, ◌≡◌, ◌<◌, refl, Bool, true, false, not, ◌&&◌, ◌⊎◌, inl, inr, List, [], ◌∷◌, Option, none, some,
  arith, CString, if◌then◌else◌, ltb, Bool-cases, Option-cases,
}

-- What socket(), setsockopt(), bind() and listen() answer; `none` and `false` are negative numbers.
pub record ListenCalls : Type 0 where
  pub socket : Option ℕ
  pub setsockopt : Bool
  pub bind : Bool
  pub listen : Bool

-- The result, with `none` for -1, and the sockets that were closed.
unfoldable pub create_listen_socket : ListenCalls → Option ℕ × List ℕ
create_listen_socket calls = elim calls.socket [
  | none ↦ (none, [])
  | some sock ↦
      if not calls.setsockopt
      then (none, sock ∷ [])
      else if not calls.bind
      then (none, sock ∷ [])
      else if not calls.listen
      then (none, sock ∷ [])
      else (some sock, [])
]

abbrev pub default_tcp_port : ℕ
default_tcp_port = 9000

-- The port, from OPCUA_TCP_BRIDGE_PORT and what atoi() makes of it; `none` is a negative number.
unfoldable pub tcp_port : (CString → Option ℕ) → Option CString → ℕ
tcp_port atoi none = default_tcp_port
tcp_port atoi (some s) = elim (atoi s) [
  | none ↦ default_tcp_port
  | some port ↦ if ltb 0 port && ltb port 65536 then port else default_tcp_port
]

-- The socket that socket() returned is either handed on, ready and open, or closed once and not
-- handed on: a listening socket does not leak, whichever call fails.
pub create_listen_socket_lem :
    (calls : ListenCalls) (sock : ℕ)
    → calls.socket ≡ some sock
    → (((calls.setsockopt && calls.bind) && calls.listen ≡ true)
        × (create_listen_socket calls ≡ (some sock, [])))
      ⊎ (((calls.setsockopt && calls.bind) && calls.listen ≡ false)
          × (create_listen_socket calls ≡ (none, sock ∷ [])))
unfolding create_listen_socket
create_listen_socket_lem calls sock e = elim (Bool-cases calls.setsockopt) [
  | inr s ↦ rw (e, s, create_listen_socket) (inr (refl, refl))
  | inl s ↦ elim (Bool-cases calls.bind) [
    | inr b ↦ rw (e, s, b, create_listen_socket) (inr (refl, refl))
    | inl b ↦ elim (Bool-cases calls.listen) [
      | inr l ↦ rw (e, s, b, l, create_listen_socket) (inr (refl, refl))
      | inl l ↦ rw (e, s, b, l, create_listen_socket) (inl (refl, refl))
    ]
  ]
]

-- The port is always one that a TCP socket can be bound to.
pub tcp_port-bounds :
    (atoi : CString → Option ℕ) (env : Option CString)
    → (0 < tcp_port atoi env) × (tcp_port atoi env < 65536)
unfolding tcp_port
tcp_port-bounds atoi none = (omega arith, omega arith)
tcp_port-bounds atoi (some s) = elim (Option-cases (atoi s)) [
  | inl e ↦ rw (e, tcp_port) (omega arith, omega arith)
  | inr (port, e) ↦ elim (Bool-cases (ltb 0 port && ltb port 65536)) [
    | inl ok ↦ rw (e, tcp_port, ok) (ground arith, ground arith)
    | inr bad ↦ rw (e, tcp_port, bad) (omega arith, omega arith)
  ]
]
