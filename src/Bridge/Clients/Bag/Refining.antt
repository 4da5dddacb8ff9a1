-- ===== src/Bridge/Clients/Bag/Refining.antt =====
-- The table of clients of src/opcua_tcp_bridge.c implements the bag.
use mathlib.Core.Bool.{Bool-discrete}
use mathlib.Core.List.{foldl}
use mathlib.Core.List.Perm
use bo_smart_factory_opcua_t.Base.{
  ℕ, zero, suc, ◌≡◌, refl, sym, ap, ◌∙◌, subst, Bool, true, false, not, ◌&&◌, List, [], ◌∷◌, Perm,
  Option, none, some, length, ltb, All, map, arith, replicate,
}
use bo_smart_factory_opcua_t.Bridge.Clients.{
  ClientConnection, Clients, idle, init_clients, max_clients, find_free_client_slot, remove_client,
  accept_new_client, sent_whole, send_to_client, broadcast_frame, poll_client, poll_clients,
  remove_clients,
}
use bo_smart_factory_opcua_t.Bridge.Clients.Accounting.{find_free_client_slot-inactive}
use bo_smart_factory_opcua_t.Bridge.Clients.Slots.{
  dropped, sent_to, send_to_client-slots, remove_client-slots,
}
use bo_smart_factory_opcua_t.Bridge.Clients.Bag.{
  TableCall, accept_call, broadcast_call, poll_call, remove_call, table_step, is_gone, keep,
  spec_step, sockets_of, Owned, Refines,
}
use bo_smart_factory_opcua_t.Bridge.Clients.Bag.Freeing.{
  Frees, sockets_of-map, Owned-map, length-map, sent_to-Frees, dropped-Frees, polled, polled-Frees,
  poll_client-slots, loop-map,
}
use bo_smart_factory_opcua_t.Bridge.Clients.Bag.Filling.{
  length-set, sockets_of-set, Owned-set, length-sockets_of-lt, length-sockets_of_full, length-perm,
}

Refines-map :
    (good : ℕ → Bool) (f : ClientConnection → ClientConnection) (st st' : Clients) (bag : List ℕ)
    → st'.slots ≡ map f st.slots
    → Frees good f
    → Refines st bag
    → Refines st' (keep good bag)
Refines-map good f st st' bag e h r = record {
  table = record {
    sized = ap length e ∙ length-map f st.slots ∙ r.table.sized;
    owned = subst (All Owned) (sym e) (Owned-map good f st.slots h r.table.owned);
  };
  same =
      subst (λ l. Perm l (keep good bag))
        (sym (ap sockets_of e ∙ sockets_of-map good f st.slots h r.table.owned))
        (Perm.filter (λ s. Bool-discrete (good s) true) r.same);
}

keep-nothing : (xs : List ℕ) → keep (λ _. false) xs ≡ []
keep-nothing [] = refl
keep-nothing (x ∷ xs) = keep-nothing xs

-- A connection, by the free slot that is found.
accept-Refines :
    (s : ℕ) (st : Clients) (bag : List ℕ) (o : Option ℕ)
    → find_free_client_slot st.slots ≡ o
    → Refines st bag
    → Refines (accept_new_client st (some s)) (spec_step bag (accept_call (some s)))
unfolding accept_new_client
accept-Refines s st bag none e r =
    let full = length-sockets_of_full st.slots r.table.owned e in
    let n = length-perm r.same in
    let size = r.table.sized in
    let over : ltb (length bag) max_clients ≡ false = ground arith in
    rw (e, accept_new_client, over)
      (record { table = record { sized = r.table.sized; owned = r.table.owned }; same = r.same })
accept-Refines s st bag (some i) e r =
    let (c, got, off) = find_free_client_slot-inactive st.slots i e in
    let room = length-sockets_of-lt st.slots i c got off in
    let n = length-perm r.same in
    let size = r.table.sized in
    let under : ltb (length bag) max_clients ≡ true = ground arith in
    rw (e, accept_new_client, under)
      (record {
        table = record {
          sized = length-set st.slots i (record { socket = some s; active = true }) ∙ r.table.sized;
          owned = Owned-set st.slots i s r.table.owned;
        };
        same = Perm.trans (sockets_of-set st.slots i s c got off) (Perm.cons s r.same);
      })

step-Refines :
    (st : Clients) (bag : List ℕ) (call : TableCall)
    → Refines st bag
    → Refines (table_step st call) (spec_step bag call)
unfolding table_step broadcast_frame poll_clients remove_clients accept_new_client
step-Refines st bag (accept_call none) r = r
step-Refines st bag (accept_call (some s)) r =
    accept-Refines s st bag (find_free_client_slot st.slots) refl r
step-Refines st bag (broadcast_call send frame) r =
    Refines-map (λ s. sent_whole (send (some s) frame) (length frame)) (sent_to send frame) st
      (broadcast_frame send frame st) bag
      (loop-map (sent_to send frame) (send_to_client send frame) st
        (send_to_client-slots send frame) r.table.sized)
      (sent_to-Frees send frame) r
step-Refines st bag (poll_call ready peek) r =
    Refines-map (λ s. not (ready (some s) && is_gone (peek (some s)))) (polled ready peek) st
      (poll_clients ready peek st) bag
      (loop-map (polled ready peek) (poll_client ready peek) st (poll_client-slots ready peek)
        r.table.sized)
      (polled-Frees ready peek) r
step-Refines st bag remove_call r = subst (Refines (remove_clients st)) (keep-nothing bag) (
    Refines-map (λ _. false) dropped st (remove_clients st) bag
      (loop-map dropped remove_client st remove_client-slots r.table.sized) dropped-Frees r)

Owned-idle : (n : ℕ) → All Owned (replicate n idle)
Owned-idle zero = tt
Owned-idle (suc n) = (λ a. cc, Owned-idle n)

sockets_of-idle : (n : ℕ) → sockets_of (replicate n idle) ≡ []
unfolding sockets_of
sockets_of-idle zero = refl
sockets_of-idle (suc n) = sockets_of-idle n

length-idle : (n : ℕ) → length (replicate n idle) ≡ n
length-idle zero = refl
length-idle (suc n) = ap suc (length-idle n)

init-Refines : Refines init_clients []
init-Refines = record {
  table = record { sized = length-idle max_clients; owned = Owned-idle max_clients };
  same = rw (sockets_of-idle max_clients) (Perm.refl []);
}

run-Refines :
    (calls : List TableCall) (st : Clients) (bag : List ℕ)
    → Refines st bag
    → Refines (foldl table_step st calls) (foldl spec_step bag calls)
run-Refines [] st bag r = r
run-Refines (c ∷ calls) st bag r =
    run-Refines calls (table_step st c) (spec_step bag c) (step-Refines st bag c r)

-- The table of clients implements a bag of sockets: over any sequence of calls from the empty table
-- its active slots hold exactly the sockets of the bag, in some order, where a new connection joins
-- the bag if it has fewer than 32, a broadcast keeps the sockets to which send() took the whole
-- frame, a poll drops the ready ones whose other end is gone, and the end empties it.
pub foldl-Refines :
    (calls : List TableCall)
    → Refines (foldl table_step init_clients calls) (foldl spec_step [] calls)
foldl-Refines calls = run-Refines calls init_clients [] init-Refines
