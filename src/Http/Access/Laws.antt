-- ===== src/Http/Access/Laws.antt =====
-- The configuration under HTTP requests.
use bo_smart_factory_opcua_t.Base.{Option, none, some, ◌<◌, length, none, some}
use bo_smart_factory_opcua_t.Config.{max_nodes}
use bo_smart_factory_opcua_t.Nodes.Manager.{Manager}
use bo_smart_factory_opcua_t.Nodes.Edit.Adding.{IsConsistent}
use bo_smart_factory_opcua_t.Http.Handlers.{Libraries, Handled}
use bo_smart_factory_opcua_t.Http.Access.{HttpServer, Served}

module _ (lib : Libraries) where
  open lib use {json, env, ua, realloc}

  abbrev Consistent : Handled ua → Type 0
  Consistent h = IsConsistent h.manager.config

  -- The answer is consistent, or undefined for want of room in the array of the switch.
  abbrev GoodHandled : Manager ua → Option (Handled ua) → Type 0
  GoodHandled nm none = max_nodes < length nm.sensors
  GoodHandled nm (some h) = Consistent h

  -- A call has kept the configuration consistent, or there are more sensors than the switch of the
  -- simulation has room for.
  abbrev pub GoodServed : HttpServer ua → Option (Served ua) → Type 0
  GoodServed http none = max_nodes < length http.manager.sensors
  GoodServed http (some s) = IsConsistent s.server.manager.config
