-- ===== src/Gui/Browser.antt =====
-- OpcUaBrowser of src/gui: browsing the address space for its variables, and connecting for that.
pub mod Reaching
pub mod Rounds
pub mod Returning
pub mod Endless
use bo_smart_factory_opcua_t.Base.{
  ℕ, zero, suc, Bool, true, false, not, List, [], ◌∷◌, ◌++◌, Option, none, some, if◌then◌else◌,
  non_empty, and_then,
}
use bo_smart_factory_opcua_t.Nodes.BrowseMap.{NodeId, objects_folder}
use bo_smart_factory_opcua_t.Nodes.Server.{StatusCode, good, is_good}
use bo_smart_factory_opcua_t.Gui.Qt.{Text, Qt}

pub data NodeClass : Type 0 where
  object variable other : NodeClass

-- UA_ReferenceDescription; the names are the bytes of the browse name and the display name.
pub record Reference : Type 0 where
  pub node_class : NodeClass
  pub node_id : NodeId
  pub browse_name : List ℕ
  pub display_name : List ℕ

-- UA_BrowseResponse, with the status and the references of each result.
pub record BrowseResponse : Type 0 where
  pub service_result : StatusCode
  pub results : List (StatusCode × List Reference)

-- What the server answers while it is browsed, and UA_NodeId_print.
pub record AddressSpace : Type 0 where
  pub browse : NodeId → BrowseResponse
  pub print : NodeId → List ℕ

pub record DiscoveredNode : Type 0 where
  pub browse_name : Text
  pub display_name : Text
  pub node_id_string : Text
  pub node_class : NodeClass

abbrev pub or_else : Text → Text → Text
or_else name substitute = if non_empty name then name else substitute

-- The references that are looked at, if the browse went well.
abbrev pub first_result : List (StatusCode × List Reference) → Option (List Reference)
first_result [] = none
first_result ((rc, refs) ∷ results) = if is_good rc then some refs else none

unfoldable pub references_of : BrowseResponse → Option (List Reference)
references_of resp = if is_good resp.service_result then first_result resp.results else none

module _ (qt : Qt) (space : AddressSpace) where
  unfoldable pub node_id_to_string : NodeId → Text
  node_id_to_string id = if non_empty (space.print id) then qt.from_utf8 (space.print id) else []

  -- A name that is there, as a text.
  abbrev pub name_text : List ℕ → Text
  name_text bytes = if non_empty bytes then qt.from_utf8 bytes else []

  -- `node` behind the two tests for empty names.
  unfoldable pub discovered : Reference → DiscoveredNode
  unfolding node_id_to_string
  discovered ref =
      let node_id_string = node_id_to_string ref.node_id in
      let browse_name = name_text ref.browse_name in
      record {
        browse_name = or_else browse_name node_id_string;
        display_name = or_else (name_text ref.display_name) browse_name;
        node_id_string = node_id_string;
        node_class = ref.node_class;
      }

  -- The loop over the references, with the call for a child; `none` is a call that does not return.
  unfoldable pub browse_references :
      (NodeId → List DiscoveredNode → Option (Bool × List DiscoveredNode))
      → List Reference
      → List DiscoveredNode
      → Option (List DiscoveredNode)
  browse_references browse_child [] nodes = some nodes
  browse_references browse_child (ref ∷ refs) nodes = elim ref.node_class [
    | variable ↦ browse_references browse_child refs (nodes ++ discovered ref ∷ [])
    | object ↦
        and_then (browse_child ref.node_id nodes) λ r. browse_references browse_child refs r.1
    | other ↦ browse_references browse_child refs nodes
  ]

  -- The result and m_nodes; the fuel is the depth of the calls.
  unfoldable pub browse_recursive :
      ℕ → NodeId → List DiscoveredNode → Option (Bool × List DiscoveredNode)
  unfolding references_of browse_references
  browse_recursive zero parent nodes = none
  browse_recursive (suc depth) parent nodes = elim (references_of (space.browse parent)) [
    | none ↦ some (false, nodes)
    | some refs ↦
        and_then (browse_references (browse_recursive depth) refs nodes) λ found. some (true, found)
  ]

-- What the client answers to connectAndBrowse up to the browse.
pub record BrowseCalls : Type 0 where
  pub created : Bool
  pub connect : StatusCode
  pub namespace_get_index : StatusCode

pub data BrowseError : Type 0 where
  not_created browse_failed : BrowseError
  not_connected namespace_not_found : StatusCode → BrowseError

-- The object: whether m_client is not null, and m_nodes. `finished` is the signal, if it was emitted.
pub record OpcUaBrowser : Type 0 where
  pub has_client : Bool
  pub nodes : List DiscoveredNode
  pub finished : Option (Option BrowseError)

abbrev pub disconnect : OpcUaBrowser → OpcUaBrowser
disconnect b = record b { has_client = false; nodes = [] }

abbrev pub give_up : BrowseError → List DiscoveredNode → Bool × OpcUaBrowser
give_up err nodes =
    (false, record { has_client = false; nodes = nodes; finished = some (some err) })

-- connectAndBrowse, behind the disconnect() at its start; `none` if the browse does not return.
unfoldable pub connect_and_browse :
    ℕ → Qt → AddressSpace → BrowseCalls → Option (Bool × OpcUaBrowser)
unfolding browse_recursive
connect_and_browse depth qt space calls =
    if not calls.created
    then some (give_up not_created [])
    else if not (is_good calls.connect)
    then some (give_up (not_connected calls.connect) [])
    else if not (is_good calls.namespace_get_index)
    then some (give_up (namespace_not_found calls.namespace_get_index) [])
    else and_then (browse_recursive qt space depth objects_folder []) λ r.
      if r.0
      then some (true, record { has_client = true; nodes = r.1; finished = some none })
      else some (give_up browse_failed r.1)
