-- ===== src/Program/Ending.antt =====
-- The loop of main in src/opcua_server.c and what stands behind it, with signal_handler, and
-- http_server_request_shutdown, http_server_shutdown_requested and http_server_stop of
-- src/http_server.c.
use bo_smart_factory_opcua_t.Base.{ℕ, ◌+◌, Bool, true, false, List, [], ◌∷◌, ◌++◌, if◌then◌else◌}

-- g_running of main, g_shutdown_requested of the HTTP server, and whether g_daemon is set.
pub record Flags : Type 0 where
  pub g_running : Bool
  pub g_shutdown_requested : Bool
  pub g_daemon : Bool

unfoldable pub request_shutdown : Flags → Flags
request_shutdown f = record f { g_shutdown_requested = true }

unfoldable pub signal_handler : Flags → Flags
unfolding request_shutdown
signal_handler f = request_shutdown (record f { g_running = false })

-- What may come between two steps of main: nothing, SIGINT or SIGTERM, or a request to restart.
pub data Happening : Type 0 where
  quiet signal restart_request : Happening

unfoldable pub happen : Happening → Flags → Flags
unfolding signal_handler request_shutdown
happen quiet f = f
happen signal f = signal_handler f
happen restart_request f = request_shutdown f

-- What comes in front of the two tests of a round.
pub record MainRound : Type 0 where
  pub before_while : Happening
  pub before_test : Happening

-- What is released behind the loop.
pub data Release : Type 0 where
  daemon_stopped node_manager_destroyed server_deleted : Release

unfoldable pub http_server_stop : Flags → Flags × List Release
http_server_stop f =
    if f.g_daemon then (record f { g_daemon = false }, daemon_stopped ∷ []) else (f, [])

-- The calls behind the loop.
unfoldable pub finish : Flags → Flags × List Release
unfolding http_server_stop
finish f =
    let (f', released) = http_server_stop f in
    (f', released ++ node_manager_destroyed ∷ server_deleted ∷ [])

-- The loop has come through the rounds that are given, or main has returned EXIT_SUCCESS. Either
-- has the number of calls of UA_Server_run_iterate.
pub data MainState : Type 0 where
  looping : Flags → ℕ → MainState
  returned : Flags → List Release → ℕ → MainState

abbrev pub return_from : Flags × List Release → ℕ → MainState
return_from (f, released) iterations = returned f released iterations

-- The body of the loop.
unfoldable pub loop_body : MainRound → Flags → Flags
loop_body r f =
    let f' = happen r.before_test f in
    if f'.g_shutdown_requested then record f' { g_running = false } else f'

unfoldable pub main_loop : Flags → ℕ → List MainRound → MainState
unfolding happen loop_body finish
main_loop f iterations [] = looping f iterations
main_loop f iterations (r ∷ rounds) =
    let f' = happen r.before_while f in
    let rest = main_loop (loop_body r f') (iterations + 1) rounds in
    if f'.g_running then rest else return_from (finish f') iterations

-- The flags with which main enters the loop if nothing has come before. A signal during the start
-- sets them as one in front of the first test does.
abbrev pub entering : Flags
entering = record { g_running = true; g_shutdown_requested = false; g_daemon = true }
