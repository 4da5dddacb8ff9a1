-- ===== src/Bridge/Loop/Sockets.antt =====
-- The clients' sockets over a whole run of the bridge.
use bo_smart_factory_opcua_t.Base.{
  ℕ, ◌≡◌, refl, sym, ap, ◌∙◌, Bool, true, false, inl, inr, List, [], ◌∷◌, ◌++◌, Option,
  if◌then◌else◌, length, Bool-cases, ltb, if-either, subst, ◌⊎◌,
}
use mathlib.Core.List.{append-nil, append_assoc}
use bo_smart_factory_opcua_t.Bridge.Clients.{
  Clients, accept_new_client, poll_clients, remove_clients,
}
use bo_smart_factory_opcua_t.Bridge.Clients.Accounting.{count, accepted_socket}
use bo_smart_factory_opcua_t.Bridge.Clients.Lifetime.{
  Event, connection, broadcast, poll, step, run, accepted_sockets, remove_clients-run,
}
use bo_smart_factory_opcua_t.Bridge.Frame.{MsgPack, encode_frame, frame_size}
use bo_smart_factory_opcua_t.Bridge.Link.{reconnect}
use bo_smart_factory_opcua_t.Bridge.Loop.{
  Bridge, init_bridge, Round, SelectResult, interrupted, failed, ready, read_sensors, publish,
  is_due, serve, iterate, loop, run_bridge,
}

-- The sockets that accept() returns in a run: it is called in the rounds in which select() finds
-- the listening socket ready, up to the round in which select() fails.
abbrev pub accepted_in_round : SelectResult → Option ℕ → List ℕ
accepted_in_round (ready true _) o = accepted_socket o
accepted_in_round _ o = []

abbrev pub goes_on : SelectResult → Bool
goes_on failed = false
goes_on _ = true

unfoldable pub accepted_in_run : List Round → List ℕ
accepted_in_run [] = []
accepted_in_run (r ∷ rs) =
    accepted_in_round r.select r.accept ++ (if goes_on r.select then accepted_in_run rs else [])

run-append : (st : Clients) (es fs : List Event) → run st (es ++ fs) ≡ run (run st es) fs
unfolding run
run-append st [] fs = refl
run-append st (e ∷ es) fs = run-append (step st e) es fs

accepted_sockets-append :
    (es fs : List Event) → accepted_sockets (es ++ fs) ≡ accepted_sockets es ++ accepted_sockets fs
unfolding accepted_sockets
accepted_sockets-append [] fs = refl
accepted_sockets-append (connection o ∷ es) fs =
    ap (λ l. accepted_socket o ++ l) (accepted_sockets-append es fs)
    ∙ sym (append_assoc (accepted_socket o) (accepted_sockets es) (accepted_sockets fs))
accepted_sockets-append (broadcast _ _ ∷ es) fs = accepted_sockets-append es fs
accepted_sockets-append (poll _ _ ∷ es) fs = accepted_sockets-append es fs

-- A stretch of the run as events on the table of clients.
record Events (before after : Clients) (accepted : List ℕ) : Type 0 where
  events : List Event
  runs : run before events ≡ after
  accepts : accepted_sockets events ≡ accepted

no-Events : (st : Clients) → Events st st []
unfolding run accepted_sockets
no-Events st = record { events = []; runs = refl; accepts = refl }

then-Events :
    {a b c : Clients} {xs ys : List ℕ} → Events a b xs → Events b c ys → Events a c (xs ++ ys)
then-Events {a = a} {xs = xs} e f = record {
  events = e.events ++ f.events;
  runs = run-append a e.events f.events ∙ (ap (λ st. run st f.events) e.runs ∙ f.runs);
  accepts =
      accepted_sockets-append e.events f.events
      ∙ (ap (λ l. l ++ accepted_sockets f.events) e.accepts ∙ ap (λ l. xs ++ l) f.accepts);
}

select_cases :
    (sel : SelectResult)
    → (sel ≡ interrupted)
      ⊎ (sel ≡ failed)
      ⊎ ((listen_ready : Bool) × (is_ready : Option ℕ → Bool) × (sel ≡ ready listen_ready is_ready))
select_cases interrupted = inl refl
select_cases failed = inr (inl refl)
select_cases (ready l i) = inr (inr (l, i, refl))

module _ (mp : MsgPack) where
  publish-Events : (r : Round) (b : Bridge) → Events b.clients (publish mp r b).clients []
  unfolding publish run step accepted_sockets
  publish-Events r b =
      let frame = encode_frame mp (read_sensors r.client r.timestamp_ms b) frame_size in
      elim (Bool-cases (ltb 0 (length frame))) [
        | inl e ↦
            rw e (record { events = broadcast r.send frame ∷ []; runs = refl; accepts = refl })
        | inr e ↦ rw e (no-Events b.clients)
      ]

  accept-Events :
      (listen_ready : Bool) (is_ready : Option ℕ → Bool) (r : Round) (b : Bridge)
      → Events b.clients
          (poll_clients is_ready r.peek
            (if listen_ready then accept_new_client b.clients r.accept else b.clients))
          (accepted_in_round (ready listen_ready is_ready) r.accept)
  unfolding run step accepted_sockets
  accept-Events true is_ready r b = record {
    events = connection r.accept ∷ poll is_ready r.peek ∷ [];
    runs = refl;
    accepts = append-nil (accepted_socket r.accept);
  }
  accept-Events false is_ready r b = record {
    events = poll is_ready r.peek ∷ [];
    runs = refl;
    accepts = refl;
  }

  serve-Events :
      (r : Round) (listen_ready : Bool) (is_ready : Option ℕ → Bool) (b : Bridge)
      → Events b.clients
          (serve mp r listen_ready is_ready b).clients
          (accepted_in_round (ready listen_ready is_ready) r.accept)
  unfolding serve
  serve-Events r listen_ready is_ready b =
      let accepted = if listen_ready then accept_new_client b.clients r.accept else b.clients in
      let b' : Bridge = record b { clients = poll_clients is_ready r.peek accepted } in
      let xs = accepted_in_round (ready listen_ready is_ready) r.accept in
      let first : Events b.clients b'.clients xs = accept-Events listen_ready is_ready r b in
      if-either (λ (c : Bridge). Events b.clients c.clients xs) (is_due mp r b')
        (subst (Events b.clients (publish mp r b').clients) (append-nil xs)
          (then-Events first (publish-Events r b')))
        first

  loop-Events :
      (rs : List Round) (b : Bridge) → Events b.clients (loop mp rs b).clients (accepted_in_run rs)
  unfolding loop iterate accepted_in_run
  loop-Events [] b = no-Events b.clients
  loop-Events (r ∷ rs) b =
      let b' : Bridge = record b { link = reconnect r.client r.connected r.now_ms b.link } in
      elim (select_cases r.select) [
        | inl e ↦ rw (e, iterate) (then-Events (no-Events b.clients) (loop-Events rs b'))
        | inr (inl e) ↦ rw (e, iterate) (then-Events (no-Events b.clients) (no-Events b.clients))
        | inr (inr (listen_ready, is_ready, e)) ↦
            rw (e, iterate)
              (then-Events (serve-Events r listen_ready is_ready b')
                (loop-Events rs (serve mp r listen_ready is_ready b')))
      ]

-- Whatever connects, fails and hangs up, whenever the loop ends: when the bridge is down, each
-- socket that accept() returned has been closed exactly as often as it was returned.
pub run_bridge-closed :
    (mp : MsgPack) (rs : List Round) (s : ℕ)
    → count s (run_bridge mp rs).clients.closed ≡ count s (accepted_in_run rs)
unfolding run_bridge
run_bridge-closed mp rs s =
    let es = loop-Events mp rs init_bridge in
    ap (λ st. count s (remove_clients st).closed) (sym es.runs)
    ∙ (remove_clients-run es.events s ∙ ap (count s) es.accepts)
