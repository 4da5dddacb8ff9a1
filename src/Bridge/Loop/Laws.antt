-- ===== src/Bridge/Loop/Laws.antt =====
-- What the bridge publishes over a whole run, and the state of its connection.
use bo_smart_factory_opcua_t.Base.{
  ℕ, zero, suc, ◌+◌, ◌^◌, ◌≡◌, ◌≤◌, ◌<◌, refl, sym, ap, ◌∙◌, Bool, true, false, List, [], ◌∷◌, ◌++◌,
  Option, arith, if◌then◌else◌, length, lt→ltb, All, All-append, if-either, map, length-map,
  length-append,
}
use bo_smart_factory_opcua_t.Bridge.Clients.{accept_new_client, poll_clients, broadcast_frame}
use bo_smart_factory_opcua_t.Bridge.Frame.{MsgPack, MsgPackSizes, encode_frame, frame_size}
use bo_smart_factory_opcua_t.Bridge.Frame.Stream.{IsSnapshot}
use bo_smart_factory_opcua_t.Bridge.Frame.Sizes.{length-encode_frame}
use bo_smart_factory_opcua_t.Bridge.Link.{reconnect, read_values}
use bo_smart_factory_opcua_t.Bridge.Link.Laws.{IsLink, reconnect-IsLink}
use bo_smart_factory_opcua_t.Bridge.Loop.{
  Bridge, init_bridge, Round, SelectResult, interrupted, failed, ready, read_sensors, publish,
  is_due, serve, iterate, loop,
}

-- first, first + 1, …: n numbers.
abbrev pub numbers : ℕ → ℕ → List ℕ
numbers first zero = []
numbers first (suc n) = first ∷ numbers (suc first) n

numbers-snoc : (first n : ℕ) → numbers first n ++ (first + n) ∷ [] ≡ numbers first (suc n)
numbers-snoc first zero = ap (λ k. k ∷ []) (omega arith)
numbers-snoc first (suc n) =
    ap (◌∷◌ first)
      (ap (λ k. numbers (suc first) n ++ k ∷ []) (omega arith) ∙ numbers-snoc (suc first) n)

map-snoc {ℓ κ} :
    {A : Type ℓ} {B : Type κ} (f : A → B) (xs : List A) (x : A)
    → map f (xs ++ x ∷ []) ≡ map f xs ++ f x ∷ []
map-snoc f [] x = refl
map-snoc f (y ∷ xs) x = ap (◌∷◌ (f y)) (map-snoc f xs x)

-- The state of the bridge between two rounds.
pub record IsBridge (b : Bridge) : Type 0 where
  pub link_fits : IsLink b.link
  pub counter_counts : b.seq_counter ≡ length b.published
  pub numbered : map (λ s. s.seq) b.published ≡ numbers 1 (length b.published)
  pub snapshots_fit : All IsSnapshot b.published

module _ (mp : MsgPack) (sizes : MsgPackSizes mp) where
  publish_lem :
      (r : Round) (b : Bridge)
      → publish mp r b ≡ (
          let snap = read_sensors r.client r.timestamp_ms b in
          record b {
            seq_counter = snap.seq;
            last_update_ms = r.now_ms;
            clients = broadcast_frame r.send (encode_frame mp snap frame_size) b.clients;
            published = b.published ++ snap ∷ [];
          })
  unfolding publish
  publish_lem r b =
      rw
        (lt→ltb 0 (length (encode_frame mp (read_sensors r.client r.timestamp_ms b) frame_size))
          (length-encode_frame mp sizes (read_sensors r.client r.timestamp_ms b)))
        refl

  publish-IsBridge :
      (r : Round) (b : Bridge)
      → IsBridge b
      → length b.published + 1 < 2 ^ 64
      → r.timestamp_ms < 2 ^ 64
      → IsBridge (publish mp r b) × (length (publish mp r b).published ≡ length b.published + 1)
  unfolding read_sensors read_values
  publish-IsBridge r b k room stamp =
      let snap = read_sensors r.client r.timestamp_ms b in
      let seq : snap.seq ≡ length b.published + 1 = omega (arith, k.counter_counts) in
      let len : length (b.published ++ snap ∷ []) ≡ suc (length b.published) =
        omega (arith, length-append b.published (snap ∷ [])) in
      rw (publish_lem r b) (
        record {
          link_fits = k.link_fits;
          counter_counts = omega (arith, seq, len);
          numbered =
              map-snoc (λ s. s.seq) b.published snap
              ∙ (ap (λ l. l ++ snap.seq ∷ []) k.numbered
                  ∙ (ap (λ n. numbers 1 (length b.published) ++ n ∷ []) (omega (arith, seq))
                      ∙ (numbers-snoc 1 (length b.published) ∙ ap (numbers 1) (sym len))));
          snapshots_fit = All-append IsSnapshot b.published (snap ∷ []) k.snapshots_fit (
            record {
              count_fits = length-map _ b.link.sensor_node_ids ∙ k.link_fits.ids_fit;
              seq_fits = omega (arith, seq);
              timestamp_fits = stamp;
            },
            tt,
          );
        },
        omega (arith, len),
      )

  serve-IsBridge :
      (r : Round) (listen_ready : Bool) (is_ready : Option ℕ → Bool) (b : Bridge)
      → IsBridge b
      → length b.published + 1 < 2 ^ 64
      → r.timestamp_ms < 2 ^ 64
      → IsBridge (serve mp r listen_ready is_ready b)
        × (length (serve mp r listen_ready is_ready b).published ≤ length b.published + 1)
  unfolding serve
  serve-IsBridge r listen_ready is_ready b k room stamp =
      let accepted = if listen_ready then accept_new_client b.clients r.accept else b.clients in
      let b' : Bridge = record b { clients = poll_clients is_ready r.peek accepted } in
      let k' : IsBridge b' = record {
        link_fits = k.link_fits;
        counter_counts = k.counter_counts;
        numbered = k.numbered;
        snapshots_fit = k.snapshots_fit;
      } in
      if-either (λ c. IsBridge c × (length c.published ≤ length b.published + 1)) (is_due mp r b')
        (let (kept, len) = publish-IsBridge r b' k' room stamp in (kept, omega (arith, len)))
        (k', omega arith)

  iterate-IsBridge :
      (r : Round) (b : Bridge)
      → IsBridge b
      → length b.published + 1 < 2 ^ 64
      → r.timestamp_ms < 2 ^ 64
      → IsBridge (iterate mp r b).1 × (length (iterate mp r b).1.published ≤ length b.published + 1)
  unfolding iterate
  iterate-IsBridge r b k room stamp =
      let b' : Bridge = record b { link = reconnect r.client r.connected r.now_ms b.link } in
      let k' : IsBridge b' = record {
        link_fits = reconnect-IsLink r.client r.connected r.now_ms b.link k.link_fits;
        counter_counts = k.counter_counts;
        numbered = k.numbered;
        snapshots_fit = k.snapshots_fit;
      } in
      go r.select b' k' room
    where
      go :
          (sel : SelectResult) (b₁ : Bridge)
          → IsBridge b₁
          → length b₁.published + 1 < 2 ^ 64
          → let after = elim sel as (λ _. Bool × Bridge) [
            | interrupted ↦ (true, b₁)
            | failed ↦ (false, b₁)
            | ready listen_ready is_ready ↦ (true, serve mp r listen_ready is_ready b₁)
          ] in
            IsBridge after.1 × (length after.1.published ≤ length b₁.published + 1)
      go interrupted b₁ k₁ room₁ = (k₁, omega arith)
      go failed b₁ k₁ room₁ = (k₁, omega arith)
      go (ready listen_ready is_ready) b₁ k₁ room₁ =
          serve-IsBridge r listen_ready is_ready b₁ k₁ room₁ stamp

  loop-IsBridge :
      (rs : List Round) (b : Bridge)
      → IsBridge b
      → length b.published + length rs < 2 ^ 64
      → All (λ r. r.timestamp_ms < 2 ^ 64) rs
      → IsBridge (loop mp rs b)
  unfolding loop
  loop-IsBridge [] b k room stamps = k
  loop-IsBridge (r ∷ rs) b k room stamps =
      let (k', len) = iterate-IsBridge r b k (omega arith) stamps.0 in
      if-either IsBridge (iterate mp r b).0
        (loop-IsBridge rs (iterate mp r b).1 k' (omega (arith, len)) stamps.1) k'

init_bridge-IsBridge : IsBridge init_bridge
init_bridge-IsBridge = record {
  link_fits = record { ids_fit = refl; backoff_known = refl };
  counter_counts = refl;
  numbered = refl;
  snapshots_fit = tt;
}

-- Whatever the server, the network and the clients do, in fewer than 2^64 rounds with clocks of 64
-- bits, and with frames of the sizes that the MessagePack specification gives: the snapshots that
-- are published are numbered 1, 2, 3, … without a gap, each has the five sensors' values and counters
-- of 64 bits, the five node ids are kept, and the backoff is 1, 2, 4, 8, 16 or 10 seconds.
pub loop-IsBridge_init :
    (mp : MsgPack) (sizes : MsgPackSizes mp) (rs : List Round)
    → length rs < 2 ^ 64
    → All (λ r. r.timestamp_ms < 2 ^ 64) rs
    → IsBridge (loop mp rs init_bridge)
loop-IsBridge_init mp sizes rs room stamps =
    loop-IsBridge mp sizes rs init_bridge init_bridge-IsBridge (omega arith) stamps
