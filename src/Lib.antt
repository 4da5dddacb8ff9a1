-- ===== src/Lib.antt =====
-- The test server of the smart factory, in C: its configuration, its node manager, its HTTP
-- interface and its TCP bridge; and the bridge with a window, in C++.
--
-- The server holds a list of folders and variables, persistent as JSON, and shows it in an OPC UA
-- address space. Simulated Boolean variables ("sensors") are toggled by a timer; a client's write
-- overrides a sensor, and a variable with the role simulationEnabled switches the simulation. Over
-- HTTP the nodes are listed, added and deleted, and the simulation is switched. The bridge is a
-- program of its own: it reads five sensors of that server and sends them as MessagePack frames to
-- its TCP clients. The bridge with a window does the same for any nodes: they are found by browsing
-- the server and listed in a table, which is kept in a JSON file.
--
-- Which file models what:
-- - Config, Config/Names, Config/DataTypes, Config/Seed: src/server_config.h, and the names, the
--   data types and the seeded configuration of src/server_config.c.
-- - Config/Json/Library: cJSON as an interface, and the laws that its documentation gives;
--   Config/Json/Nodes: parse_node, node_to_json, the document of server_config_save and the loop of
--   server_config_load; Config/Json/RoundTrip: from definitions to JSON and back.
-- - Config/Storage: server_config_init_path, server_config_resolve_namespace_uri,
--   server_config_load and server_config_save, over the files (Storage) and the answers of the C
--   library (Env); Storage/Save, Storage/Load and Storage/Restore are about
--   the two.
-- - Nodes/BrowseMap: the table g_map of src/node_manager.c. Nodes/Depth, Nodes/Sort: node_depth and
--   sort_nodes_by_depth. Nodes/Server: what is used of open62541, as an interface. Nodes/Manager:
--   the state, add_simulated_sensor, create_folder, create_variable and node_manager_build;
--   Manager/Building: the parents of the nodes that it builds.
-- - Nodes/Edit: node_manager_add_folder, node_manager_add_variable and node_manager_delete;
--   Edit/Names, Adding, Overflow, Deleting, Pointers, Registering, Growth and Refusing are about
--   them.
-- - Nodes/Simulation: the tick, the switch, the overrides and the two callbacks;
--   Simulation/Delivery: what the server does with the writes that these ask for, when the server
--   thread and the thread of the HTTP server make them in turn (Delivery/Racing) too.
-- - Bridge/Clients: the table of clients of src/opcua_tcp_bridge.c, its loops slot by slot (Slots),
--   the sockets over a run (Accounting, Lifetime), and the table as a bag of sockets (Bag).
-- - Bridge/Frame: encodeFrame, over msgpack-c as an interface; Frame/Reader: a client that follows
--   PROTOCOL.md; Frame/Sizes: their sizes; Frame/Stream: frames read back by it.
-- - Bridge/Link: browseToNode, findSensorsFolder, the attempts to connect and readSensors;
--   Bridge/Listen: createListenSocket and the port; Bridge/Loop: a round of main's loop, the loop and
--   its end.
-- - Http/Body: read_post_body of src/http_server.c and the calls that collect a body (Collect);
--   Http/Answers: the responses, node_id_string, url_after_prefix and serve_static; Http/Handlers:
--   the handlers; Http/Access: access_handler, the configuration under any request (Laws) and under a
--   refused one (Refusals).
-- - Program: main of src/opcua_server.c up to its loop and http_server_start; Program/Startup: how it
--   gives up; Program/Ending: the loop of main, its signal handler, http_server_stop and what is
--   released; Program/Returning: that it ends.
-- - Gui/Qt: what src/gui uses of Qt, as interfaces. Gui/Mapping: SensorMapping, parseNodeId and
--   resolveNodeIds; Gui/Frame: the body of BridgeEngine::encodeFrame; Frame/Items, Frame/Decode: its
--   frames read item by item.
-- - Gui/Engine: BridgeEngine, its calls and TCP clients; Engine/Events: its tick and any sequence of
--   events; Engine/Stopping, Invariant, Resolving, Losing and Serving are about them.
-- - Gui/Browser: OpcUaBrowser; Browser/Reaching, Rounds, Returning and Endless: when it returns, with
--   what. Gui/Dialog: NodeSelectionDialog, with Dialog/Selecting and Filtering.
-- - Gui/Window: the table of MainWindow; Window/Files: its configuration files; Window/Buttons: its
--   buttons with the engine; Window/Validating: validateMappings; Window/RoundTrip and Reaching are
--   about them.
-- - Base: lists, Booleans and C strings over the native numbers. Tests: concrete instances.
--
-- Conventions. A C string is the list of its bytes without the terminator, `fit n s` is what
-- snprintf leaves in a buffer of n bytes, and a pointer that may be NULL is an Option. The state is
-- passed explicitly, the globals of a file beside the fields of its struct. A function that holds
-- the mutex is one step; the writes that a function makes after it has released the mutex are a list
-- that it returns, in order. A pointer into the array of sensors is the array's block and an index,
-- so that a pointer into a block that realloc gave back can be told from a good one.
--
-- Bounds. The loop of node_depth has 32 rounds and stops there in the source as in the model. The
-- outer loop of the sort has a round for each node. make_writes, which lets the server make the
-- writes of a tick, has a round for each write. The loops over the clients have 32 rounds, the size
-- of the table; the bridge's main loop runs through a list of rounds, one for each time that
-- g_running was still true. The browse of the GUI has the depth of its calls as fuel, and `none` is a
-- browse that does not return; in stopBridge of the GUI `none` is undefined behaviour. So it is in
-- the tick, in node_manager_set_simulation_enabled and in the callback of the switch, which collect
-- node ids in arrays of SERVER_MAX_NODES cells on the stack: `none` is an array that is too short, and
-- it passes through the handlers of the HTTP server up to access_handler.
--
-- Not modelled: the locking itself, the freeing of memory other than in Program, the widgets of the GUI
-- beside the values that its code reads from them, the event loop inside a message box, the programs
-- under cmd and internal, and the assets under web.
pub mod Base
pub mod Config
pub mod Nodes
pub mod Bridge
pub mod Http
pub mod Gui
pub mod Program
mod Tests
