-- ===== src/Gui/Engine/Resolving.antt =====
-- When connectToOpcUa of src/gui/BridgeEngine.cpp ends connected.
use bo_smart_factory_opcua_t.Base.{◌≡◌, ◌↔◌, ◌||◌, true, is_some, All, arith}
use bo_smart_factory_opcua_t.Nodes.Server.{is_good}
use bo_smart_factory_opcua_t.Gui.Qt.{Qt}
use bo_smart_factory_opcua_t.Gui.Mapping.{resolve_node_ids}
use bo_smart_factory_opcua_t.Gui.Mapping.RoundTrip.{
  Readable, resolve_node_ids-Readable, Readable-resolve_node_ids,
}
use bo_smart_factory_opcua_t.Gui.Engine.{
  Engine, Connecting, emit, update_status, resolve, connect_client, connect_to_opc_ua,
}
use bo_smart_factory_opcua_t.Gui.Engine.Invariant.{IsEngine}

-- The client exists or can be made, the server answers, it has the namespace, and the node id of
-- each mapping is empty or can be read.
pub record CanConnect (qt : Qt) (c : Connecting) (e : Engine) : Type 0 where
  pub client_made : is_some e.session || c.created ≡ true
  pub server_answers : is_good c.connect ≡ true
  pub namespace_found : is_good c.namespace_get_index.0 ≡ true
  pub all_readable : All (Readable qt) e.mappings

connected-resolve :
    (qt : Qt) (e : Engine) → (resolve qt e).connected ≡ (resolve_node_ids qt e.mappings).0
unfolding resolve emit
connected-resolve qt e = ground arith

connected-update_status : (e : Engine) → (update_status e).connected ≡ e.connected
unfolding update_status emit
connected-update_status e = ground arith

mappings-update_status : (e : Engine) → (update_status e).mappings ≡ e.mappings
unfolding update_status emit
mappings-update_status e = ground arith

module _ (qt : Qt) (c : Connecting) (e : Engine) where
  forward : IsEngine e → (connect_to_opc_ua qt c e).connected ≡ true → CanConnect qt c e
  unfolding connect_to_opc_ua connect_client resolve update_status emit
  forward i h = ground (arith, Readable-resolve_node_ids qt e.mappings)

  backward : CanConnect qt c e → (connect_to_opc_ua qt c e).connected ≡ true
  unfolding connect_to_opc_ua connect_client resolve update_status emit
  backward h = ground (arith, resolve_node_ids-Readable qt e.mappings h.all_readable)

-- An attempt to connect ends with the engine connected exactly if the client exists or can be made,
-- the server answers, it has the namespace, and the node id of each mapping is empty or can be read;
-- the engine before is asked to hold itself connected only with a client.
pub connected-connect_to_opc_ua :
    (qt : Qt) (c : Connecting) (e : Engine)
    → IsEngine e
    → ((connect_to_opc_ua qt c e).connected ≡ true) ↔ CanConnect qt c e
connected-connect_to_opc_ua qt c e i = (forward qt c e i, backward qt c e)
