-- ===== src/Bridge/Loop.antt =====
-- The main loop of src/opcua_tcp_bridge.c.
pub mod Laws
pub mod Sockets
use bo_smart_factory_opcua_t.Base.{
  ℕ, ◌+◌, ◌%◌, ◌^◌, Bool, true, false, not, ◌&&◌, List, [], ◌∷◌, ◌++◌, Option, none, some,
  if◌then◌else◌, length, ltb, leb, ◌==◌,
}
use bo_smart_factory_opcua_t.Bridge.Clients.{
  Clients, Send, init_clients, accept_new_client, poll_clients, broadcast_frame, remove_clients,
}
use bo_smart_factory_opcua_t.Bridge.Frame.{MsgPack, SensorSnapshot, encode_frame, frame_size}
use bo_smart_factory_opcua_t.Bridge.Link.{
  Link, UaClient, init_link, no_namespace, elapsed, reconnect, read_values,
}

-- The clients, the connection, lastUpdateMs and seqCounter; `published` holds the snapshots that
-- were broadcast, the first one first.
pub record Bridge : Type 0 where
  pub clients : Clients
  pub link : Link
  pub last_update_ms : ℕ
  pub seq_counter : ℕ
  pub published : List SensorSnapshot

abbrev pub init_bridge : Bridge
init_bridge = record {
  clients = init_clients;
  link = init_link;
  last_update_ms = 0;
  seq_counter = 0;
  published = [];
}

-- select(): a signal, another error, or the sockets that are ready, the listening one apart.
pub data SelectResult : Type 0 where
  interrupted failed : SelectResult
  ready : Bool → (Option ℕ → Bool) → SelectResult

-- What a round of the loop meets.
pub record Round : Type 0 where
  pub now_ms : ℕ
  pub client : UaClient
  pub connected : Bool
  pub select : SelectResult
  pub accept : Option ℕ
  pub peek : Option ℕ → Option ℕ
  pub connected_now : Bool
  pub timestamp_ms : ℕ
  pub send : Send

abbrev pub update_interval_ms : ℕ
update_interval_ms = 300

-- seq is a uint64_t.
unfoldable pub read_sensors : UaClient → ℕ → Bridge → SensorSnapshot
unfolding read_values
read_sensors client timestamp b = record {
  values = read_values client b.link.sensor_node_ids;
  seq = (b.seq_counter + 1) % 2 ^ 64;
  timestamp_ms = timestamp;
}

module _ (mp : MsgPack) where
  -- Reading, encoding and sending; an empty frame is not sent.
  unfoldable pub publish : Round → Bridge → Bridge
  unfolding read_sensors
  publish r b =
      let snap = read_sensors r.client r.timestamp_ms b in
      let frame = encode_frame mp snap frame_size in
      let b' = record b { seq_counter = snap.seq; last_update_ms = r.now_ms } in
      if ltb 0 (length frame)
      then record b' {
        clients = broadcast_frame r.send frame b.clients;
        published = b.published ++ snap ∷ [];
      }
      else b'

  abbrev pub is_due : Round → Bridge → Bool
  is_due r b =
      ((not (b.link.ns_idx == no_namespace) && r.connected_now) && b.link.sensor_node_ids_resolved)
      && leb update_interval_ms (elapsed r.now_ms b.last_update_ms)

  -- The part of a round behind select().
  unfoldable pub serve : Round → Bool → (Option ℕ → Bool) → Bridge → Bridge
  unfolding publish
  serve r listen_ready is_ready b =
      let accepted = if listen_ready then accept_new_client b.clients r.accept else b.clients in
      let b' = record b { clients = poll_clients is_ready r.peek accepted } in
      if is_due r b' then publish r b' else b'

  -- One round: whether the loop goes on, and the state.
  unfoldable pub iterate : Round → Bridge → Bool × Bridge
  unfolding serve
  iterate r b =
      let b' = record b { link = reconnect r.client r.connected r.now_ms b.link } in
      elim r.select [
        | interrupted ↦ (true, b')
        | failed ↦ (false, b')
        | ready listen_ready is_ready ↦ (true, serve r listen_ready is_ready b')
      ]

  -- The rounds until g_running is false, or until one breaks the loop.
  unfoldable pub loop : List Round → Bridge → Bridge
  unfolding iterate
  loop [] b = b
  loop (r ∷ rs) b =
      let (go_on, b') = iterate r b in let rest = loop rs b' in if go_on then rest else b'

  -- The loop, and the closing of the clients behind it.
  unfoldable pub run_bridge : List Round → Bridge
  unfolding loop
  run_bridge rs = let b = loop rs init_bridge in record b { clients = remove_clients b.clients }
