-- ===== src/Gui/Engine/Stopping.antt =====
-- stopBridge of src/gui/BridgeEngine.cpp, by how many clients disconnect inside its loop.
use mathlib.Core.List.{append_assoc}
use bo_smart_factory_opcua_t.Base.{
  ℕ, zero, suc, ◌≤◌, ◌<◌, ◌≡◌, refl, Bool, true, false, List, [], ◌∷◌, ◌++◌, none, some, length,
  get_elem?, arith, ◌∙◌, All, Option-cases, inl, inr, sym, ap,
}
use bo_smart_factory_opcua_t.Gui.Engine.{
  Engine, remove_all, disconnect_from_host, disconnect_clients, forget_clients, stop_bridge, emit,
  on_client_disconnected, update_status,
}

pub length-remove_all-le : (s : ℕ) (ts : List ℕ) → length (remove_all s ts) ≤ length ts
unfolding remove_all
length-remove_all-le s [] = omega arith
length-remove_all-le s (t ∷ ts) = ground (arith, length-remove_all-le s ts)

-- An item of the list is taken out.
length-remove_all-lt :
    (s : ℕ) (ts : List ℕ) (i : ℕ) → get_elem? ts i ≡ some s → length (remove_all s ts) < length ts
unfolding remove_all
length-remove_all-lt s [] i h = cc
length-remove_all-lt s (t ∷ ts) zero h = ground (arith, length-remove_all-le s ts)
length-remove_all-lt s (t ∷ ts) (suc i) h = ground (arith, length-remove_all-lt s ts i)

lt-length_of_some : (ts : List ℕ) (i s : ℕ) → get_elem? ts i ≡ some s → i < length ts
lt-length_of_some [] i s h = cc
lt-length_of_some (t ∷ ts) zero s h = omega arith
lt-length_of_some (t ∷ ts) (suc i) s h = omega (arith, lt-length_of_some ts i s h)

length_snoc : (ts : List ℕ) (s : ℕ) → length (ts ++ s ∷ []) ≡ suc (length ts)
length_snoc [] s = refl
length_snoc (t ∷ ts) s = ap suc (length_snoc ts s)

module _ (at_once : ℕ → Bool) (n i : ℕ) (e : Engine) where
  pub disconnect_clients-some :
      (s : ℕ)
      → get_elem? e.clients i ≡ some s
      → disconnect_clients at_once (suc n) i e
        ≡ disconnect_clients at_once n (suc i) (disconnect_from_host at_once s e)
  unfolding disconnect_clients
  disconnect_clients-some s h = rw (h, disconnect_clients) refl

  disconnect_clients-zero : disconnect_clients at_once zero i e ≡ some e
  unfolding disconnect_clients
  disconnect_clients-zero = refl

  pub disconnect_clients-none :
      get_elem? e.clients i ≡ none → disconnect_clients at_once (suc n) i e ≡ none
  unfolding disconnect_clients
  disconnect_clients-none h = rw (h, disconnect_clients) refl

-- A client that disconnects at once is taken out of the list.
clients-disconnect_at_once :
    (s : ℕ) (e : Engine) → (disconnect_from_host (λ _. true) s e).clients ≡ remove_all s e.clients
unfolding disconnect_from_host on_client_disconnected emit
clients-disconnect_at_once s e = refl

-- From the second round on the list is too short for the rounds that are left.
disconnect_clients_short :
    (n i : ℕ) (e : Engine)
    → 0 < n
    → 0 < i
    → length e.clients ≤ n
    → disconnect_clients (λ _. true) n i e ≡ none
disconnect_clients_short zero i e h k l = absurd (omega (arith, h))
disconnect_clients_short (suc n) i e h k l = elim (Option-cases (get_elem? e.clients i)) [
  | inl out ↦ disconnect_clients-none (λ _. true) n i e out
  | inr (s, found) ↦
      let shorter = length-remove_all-lt s e.clients i found in
      let inside = lt-length_of_some e.clients i s found in
      let left = ap length (clients-disconnect_at_once s e) in
      disconnect_clients-some (λ _. true) n i e s found
      ∙ disconnect_clients_short n (suc i) (disconnect_from_host (λ _. true) s e) (omega arith)
          (omega arith) (omega arith)
]

all_short :
    (n : ℕ) (e : Engine)
    → length e.clients ≡ n
    → 2 ≤ n
    → disconnect_clients (λ _. true) n 0 e ≡ none
all_short zero e l h = absurd (omega (arith, h))
all_short (suc n) e l h = elim (Option-cases (get_elem? e.clients 0)) [
  | inl out ↦ disconnect_clients-none (λ _. true) n 0 e out
  | inr (s, found) ↦
      let shorter = length-remove_all-lt s e.clients 0 found in
      let left = ap length (clients-disconnect_at_once s e) in
      disconnect_clients-some (λ _. true) n 0 e s found
      ∙ disconnect_clients_short n 1 (disconnect_from_host (λ _. true) s e) (omega arith)
          (omega arith) (omega arith)
]

-- A bridge with two clients or more, each of which disconnects as soon as it is asked to, is not
-- stopped: the loop reads behind the end of the list of clients, from which onClientDisconnected
-- takes an item in every round.
pub stop_bridge_undefined : (e : Engine) → 2 ≤ length e.clients → stop_bridge (λ _. true) e ≡ none
unfolding stop_bridge
stop_bridge_undefined e h =
    rw
      (all_short (length e.clients) (record e { running = false; timer = false; listening = none })
        refl h)
      refl

-- The sockets of a list, the last one first, in front of others.
pub rev_onto : List ℕ → List ℕ → List ℕ
rev_onto [] ts = ts
rev_onto (s ∷ ss) ts = rev_onto ss (s ∷ ts)

-- A client that has something left to write only closes.
disconnect_later :
    (at_once : ℕ → Bool) (s : ℕ) (e : Engine)
    → at_once s ≡ false
    → disconnect_from_host at_once s e ≡ record e { closing = s ∷ e.closing }
unfolding disconnect_from_host
disconnect_later at_once s e h = rw h refl

get_elem?-middle :
    (pre : List ℕ) (s : ℕ) (rest : List ℕ) → get_elem? (pre ++ s ∷ rest) (length pre) ≡ some s
get_elem?-middle [] s rest = refl
get_elem?-middle (p ∷ pre) s rest = get_elem?-middle pre s rest

-- The rounds over `rest`, behind those over `pre`.
disconnect_clients_later :
    (at_once : ℕ → Bool) (rest pre : List ℕ) (e : Engine)
    → e.clients ≡ pre ++ rest
    → All (λ s. at_once s ≡ false) rest
    → disconnect_clients at_once (length rest) (length pre) e
      ≡ some (record e { closing = rev_onto rest e.closing })
unfolding rev_onto
disconnect_clients_later at_once [] pre e l h = disconnect_clients-zero at_once 0 (length pre) e
disconnect_clients_later at_once (s ∷ rest) pre e l h =
    disconnect_clients-some at_once (length rest) (length pre) e s
      (ap (λ cs. get_elem? cs (length pre)) l ∙ get_elem?-middle pre s rest)
    ∙ rw (disconnect_later at_once s e h.0, ← length_snoc pre s)
        (disconnect_clients_later at_once rest (pre ++ s ∷ [])
          (record e { closing = s ∷ e.closing }) (l ∙ sym (append_assoc pre (s ∷ []) rest)) h.1)

-- What stopBridge is to leave of the engine `e`.
pub record IsStopped (e e' : Engine) : Type 0 where
  pub none_left : e'.clients ≡ []
  pub all_closing : e'.closing ≡ rev_onto e.clients e.closing
  pub not_running : e'.running ≡ false
  pub not_ticking : e'.timer ≡ false
  pub not_listening : e'.listening ≡ none

forget_clients-IsStopped :
    (e e' : Engine)
    → e'.closing ≡ rev_onto e.clients e.closing
    → e'.running ≡ false
    → e'.timer ≡ false
    → e'.listening ≡ none
    → IsStopped e (forget_clients e')
unfolding forget_clients update_status emit
forget_clients-IsStopped e e' c r t l = ground arith

-- A bridge whose clients all have something left to write is stopped: every client is asked to
-- disconnect, none is left in the list, and neither the timer nor the TCP server goes on.
pub stop_bridge-IsStopped :
    (at_once : ℕ → Bool) (e : Engine)
    → All (λ s. at_once s ≡ false) e.clients
    → (e' : Engine) × (stop_bridge at_once e ≡ some e') × IsStopped e e'
unfolding stop_bridge
stop_bridge-IsStopped at_once e h =
    let off = record e { running = false; timer = false; listening = none } in
    let closed = record off { closing = rev_onto e.clients e.closing } in
    (
      forget_clients closed,
      rw (disconnect_clients_later at_once e.clients [] off refl h) refl,
      forget_clients-IsStopped e closed refl refl refl refl,
    )
