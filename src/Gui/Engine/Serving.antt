-- ===== src/Gui/Engine/Serving.antt =====
-- The ticks of src/gui/BridgeEngine.cpp while the connection lives.
use bo_smart_factory_opcua_t.Base.{
  ℕ, ◌+◌, ◌%◌, ◌^◌, ◌≡◌, ◌<◌, refl, ap, ◌∙◌, Bool, true, List, [], ◌∷◌, ◌++◌, some, is_some, length,
  arith, All, Bool-cases, inl, inr, if◌then◌else◌, ◌==◌, ==_iff, non_empty, map,
}
use bo_smart_factory_opcua_t.Bridge.Frame.{MsgPackSizes}
use bo_smart_factory_opcua_t.Bridge.Clients.Accounting.{count}
use bo_smart_factory_opcua_t.Gui.Qt.{Qt}
use bo_smart_factory_opcua_t.Gui.Mapping.{SensorMapping}
use bo_smart_factory_opcua_t.Gui.Frame.{GuiPack, frame_bytes}
use bo_smart_factory_opcua_t.Gui.Engine.{Engine}
use bo_smart_factory_opcua_t.Gui.Engine.Events.{
  Tick, is_alive, encode_frame, write_frame, send_frame, on_tick, tick, step, run, run-step,
}

-- The frames that were written to a socket, the last one first.
unfoldable pub sent_to : ℕ → List (ℕ × List ℕ) → List (List ℕ)
sent_to s [] = []
sent_to s ((t, frame) ∷ written) =
    let rest = sent_to s written in if t == s then frame ∷ rest else rest

module _ (is_connected : ℕ → Bool) (frame : List ℕ) (s : ℕ) where
  sent_to-write_frame_absent :
      (clients : List ℕ) (written : List (ℕ × List ℕ))
      → count s clients ≡ 0
      → sent_to s (write_frame is_connected frame clients written) ≡ sent_to s written
  unfolding write_frame sent_to count
  sent_to-write_frame_absent [] written h = refl
  sent_to-write_frame_absent (c ∷ clients) written h = ground (
    arith,
    sent_to-write_frame_absent clients (if is_connected c then (c, frame) ∷ written else written),
  )

  sent_to-write_frame_first :
      (c : ℕ) (clients : List ℕ) (written : List (ℕ × List ℕ))
      → is_connected s ≡ true
      → (c == s) ≡ true
      → count s clients ≡ 0
      → sent_to s (write_frame is_connected frame (c ∷ clients) written) ≡ frame ∷ sent_to s written
  unfolding write_frame sent_to
  sent_to-write_frame_first c clients written k here h =
      let same : c ≡ s = (==_iff c s).0 here in
      rw (same, k) (sent_to-write_frame_absent clients ((s, frame) ∷ written) h ∙ ground arith)

  -- A connected client that stands in the list once is sent the frame once.
  sent_to-write_frame :
      (clients : List ℕ) (written : List (ℕ × List ℕ))
      → is_connected s ≡ true
      → count s clients ≡ 1
      → sent_to s (write_frame is_connected frame clients written) ≡ frame ∷ sent_to s written
  unfolding write_frame sent_to count
  sent_to-write_frame [] written c h = absurd (omega (arith, h))
  sent_to-write_frame (c ∷ clients) written k h = elim (Bool-cases (c == s)) [
    | inl here ↦ sent_to-write_frame_first c clients written k here (ground arith)
    | inr later ↦ ground (
      arith,
      sent_to-write_frame clients (if is_connected c then (c, frame) ∷ written else written),
    )
  ]

-- The bridge runs with a connection.
pub record IsServing (e : Engine) : Type 0 where
  pub has_client : is_some e.session ≡ true
  pub holds_connected : e.connected ≡ true
  pub is_running : e.running ≡ true
  pub is_ticking : e.timer ≡ true

-- The frames of a run of ticks, the last one first, in front of others.
abbrev pub frames_of :
    GuiPack → Qt → List SensorMapping → ℕ → List Tick → List (List ℕ) → List (List ℕ)
frames_of gp qt ms sequence [] sent = sent
frames_of gp qt ms sequence (t ∷ ts) sent =
    frames_of gp qt ms (sequence + 1) ts
      (frame_bytes gp qt t.read_value ms (sequence + 1) t.timestamp_ms ∷ sent)

non_empty-append : (xs ys : List ℕ) → length xs ≡ 1 → non_empty (xs ++ ys) ≡ true
non_empty-append [] ys h = absurd (omega (arith, h))
non_empty-append (x ∷ xs) ys h = refl

module _ (gp : GuiPack) (sizes : MsgPackSizes gp.base) (qt : Qt) where
  -- A frame is not empty: it starts with the head of a map.
  non_empty-frame_bytes :
      (t : Tick) (ms : List SensorMapping) (n : ℕ)
      → non_empty (frame_bytes gp qt t.read_value ms n t.timestamp_ms) ≡ true
  unfolding frame_bytes
  non_empty-frame_bytes t ms n =
      non_empty-append (gp.base.pack_map 4) _ (sizes.length-pack_map 4 (omega arith))

  abbrev next : Tick → Engine → Engine
  next t e = record e {
    sequence = e.sequence + 1;
    written =
        write_frame t.is_connected
          (frame_bytes gp qt t.read_value e.mappings (e.sequence + 1) t.timestamp_ms) e.clients
          e.written;
  }

  step-tick :
      (t : Tick) (e : Engine)
      → IsServing e
      → is_alive t ≡ true
      → e.sequence + 1 < 2 ^ 64
      → step gp qt e (tick t) ≡ some (next t e)
  unfolding step on_tick send_frame encode_frame
  step-tick t e v a h =
      let exact : (e.sequence + 1) % 2 ^ 64 ≡ e.sequence + 1 = omega (arith, h) in
      ground (arith, exact, non_empty-frame_bytes t e.mappings (e.sequence + 1))

  -- As long as the connection lives, a running bridge serves each of its clients at every tick: a
  -- client that stands in the list once and stays connected is sent a frame for each tick, in order
  -- and with no other between them, with the values, the time and the next sequence number of that
  -- tick, and the bridge still runs with a connection. The sequence number is asked not to pass 64
  -- bits, and msgpack-c to write the sizes of the MessagePack specification.
  pub run-ticks :
      (s : ℕ) (ts : List Tick) (e : Engine)
      → IsServing e
      → All (λ t. (is_alive t ≡ true) × (t.is_connected s ≡ true)) ts
      → count s e.clients ≡ 1
      → e.sequence + length ts < 2 ^ 64
      → (e' : Engine) × (run gp qt e (map tick ts) ≡ some e')
        × IsServing e'
        × (sent_to s e'.written ≡ frames_of gp qt e.mappings e.sequence ts (sent_to s e.written))
  unfolding run
  run-ticks s [] e v a c h = (e, refl, v, refl)
  run-ticks s (t ∷ ts) e v a c h =
      let frame = frame_bytes gp qt t.read_value e.mappings (e.sequence + 1) t.timestamp_ms in
      let sent = sent_to-write_frame t.is_connected frame s e.clients e.written a.0.1 c in
      let (e', runs, v', frames) =
        run-ticks s ts (next t e) (ground arith) a.1 c (omega (arith, h)) in
      (
        e',
        run-step gp qt e (tick t) (map tick ts) (step-tick t e v a.0.0 (omega (arith, h))) ∙ runs,
        v',
        frames ∙ ap (frames_of gp qt e.mappings (e.sequence + 1) ts) sent,
      )
