-- ===== src/Program/Returning.antt =====
-- That main of src/opcua_server.c returns when it is asked to.
use bo_smart_factory_opcua_t.Base.{
  ℕ, ◌+◌, ◌≡◌, ◌≤◌, refl, sym, ap, subst, ◌∙◌, Bool, true, false, ◌||◌, List, [], ◌∷◌, ◌++◌, All,
  arith, length, Bool-cases, inl, inr,
}
use bo_smart_factory_opcua_t.Program.Ending.{
  Flags, request_shutdown, signal_handler, Happening, quiet, signal, restart_request, happen,
  MainRound, Release, daemon_stopped, node_manager_destroyed, server_deleted, finish, MainState,
  looping, returned, return_from, loop_body, main_loop, entering,
}

abbrev pub IsQuiet : MainRound → Type 0
IsQuiet r = (r.before_while ≡ quiet) × (r.before_test ≡ quiet)

-- A round in which somebody asks main to end.
abbrev asks : Happening → Bool
asks quiet = false
asks signal = true
asks restart_request = true

abbrev pub AsksToEnd : MainRound → Type 0
AsksToEnd r = asks r.before_while || asks r.before_test ≡ true

-- The daemon is stopped first, then the node manager goes, then the server.
abbrev pub released_all : List Release
released_all = daemon_stopped ∷ node_manager_destroyed ∷ server_deleted ∷ []

-- main has returned and released everything, after that many iterations or one fewer.
abbrev pub EndedWithin : ℕ → MainState → Type 0
EndedWithin n (looping f iterations) = ⊥
EndedWithin n (returned f released iterations) =
    (released ≡ released_all) × (iterations ≤ n) × (n ≤ iterations + 1)

quiet_round :
    (r : MainRound) (f : Flags) (n : ℕ) (rounds : List MainRound)
    → IsQuiet r
    → f.g_running ≡ true
    → f.g_shutdown_requested ≡ false
    → main_loop f n (r ∷ rounds) ≡ main_loop f (n + 1) rounds
unfolding main_loop
quiet_round r f n rounds q a b = ground arith

module _ (next : MainRound) (n : ℕ) (rounds : List MainRound) where
  -- The test of the loop fails: main returns.
  off_round :
      (f : Flags)
      → f.g_running ≡ false
      → f.g_daemon ≡ true
      → EndedWithin (n + 1) (main_loop f (n + 1) (next ∷ rounds))
        × EndedWithin (n + 1) (main_loop f n (next ∷ rounds))
  unfolding main_loop
  off_round f g d = go next.before_while refl
    where
      go :
          (h : Happening)
          → next.before_while ≡ h
          → EndedWithin (n + 1) (main_loop f (n + 1) (next ∷ rounds))
            × EndedWithin (n + 1) (main_loop f n (next ∷ rounds))
      go quiet e = ground arith
      go signal e = ground arith
      go restart_request e = ground arith

-- One round, by the test of the loop.
module _ (r : MainRound) (f : Flags) (n : ℕ) (rounds : List MainRound) where
  main_loop-on :
      (happen r.before_while f).g_running ≡ true
      → main_loop f n (r ∷ rounds)
        ≡ main_loop (loop_body r (happen r.before_while f)) (n + 1) rounds
  unfolding main_loop
  main_loop-on h = rw h refl

  main_loop-off :
      (happen r.before_while f).g_running ≡ false
      → main_loop f n (r ∷ rounds) ≡ return_from (finish (happen r.before_while f)) n
  unfolding main_loop
  main_loop-off h = rw h refl

happen-daemon : (h : Happening) (f : Flags) → (happen h f).g_daemon ≡ f.g_daemon
unfolding happen signal_handler request_shutdown
happen-daemon quiet f = refl
happen-daemon signal f = refl
happen-daemon restart_request f = refl

loop_body-daemon : (r : MainRound) (f : Flags) → (loop_body r f).g_daemon ≡ f.g_daemon
unfolding loop_body
loop_body-daemon r f = ground (arith, happen-daemon r.before_test f)

-- A round that is asked to end either fails its test or clears g_running.
asked-off :
    (r : MainRound) (f : Flags)
    → AsksToEnd r
    → (happen r.before_while f).g_running ≡ true
    → (loop_body r (happen r.before_while f)).g_running ≡ false
unfolding happen loop_body
asked-off r f a g = by r.before_while r.before_test refl refl
  where
    by :
        (h k : Happening)
        → r.before_while ≡ h
        → r.before_test ≡ k
        → (loop_body r (happen r.before_while f)).g_running ≡ false
    by quiet quiet e d = ground arith
    by quiet signal e d = ground arith
    by quiet restart_request e d = ground arith
    by signal k e d = ground arith
    by restart_request quiet e d = ground arith
    by restart_request signal e d = ground arith
    by restart_request restart_request e d = ground arith

finish-released : (f : Flags) → f.g_daemon ≡ true → (finish f).1 ≡ released_all
unfolding finish
finish-released f d = ground arith

EndedWithin-return :
    (f : Flags) (n k : ℕ)
    → f.g_daemon ≡ true
    → k ≤ n
    → n ≤ k + 1
    → EndedWithin n (return_from (finish f) k)
EndedWithin-return f n k d h l = (finish-released f d, h, l)

asked_round :
    (r next : MainRound) (f : Flags) (n : ℕ) (rounds : List MainRound)
    → AsksToEnd r
    → f.g_daemon ≡ true
    → EndedWithin (n + 1) (main_loop f n (r ∷ next ∷ rounds))
asked_round r next f n rounds a d = elim (Bool-cases (happen r.before_while f).g_running) [
  | inl on ↦
      subst (EndedWithin (n + 1)) (sym (main_loop-on r f n (next ∷ rounds) on))
        (off_round next n rounds (loop_body r (happen r.before_while f)) (asked-off r f a on)
          (loop_body-daemon r (happen r.before_while f) ∙ happen-daemon r.before_while f ∙ d)).0
  | inr off ↦ subst (EndedWithin (n + 1)) (sym (main_loop-off r f n (next ∷ rounds) off)) (
      EndedWithin-return (happen r.before_while f) (n + 1) n (happen-daemon r.before_while f ∙ d)
        (omega arith) (omega arith))
]

-- The quiet rounds only count.
after_calm :
    (calm : List MainRound) (n : ℕ) (rounds : List MainRound)
    → All IsQuiet calm
    → main_loop entering n (calm ++ rounds) ≡ main_loop entering (n + length calm) rounds
after_calm [] n rounds q = ap (λ k. main_loop entering k rounds) (omega arith)
after_calm (c ∷ calm) n rounds q =
    quiet_round c entering n (calm ++ rounds) q.0 refl refl
    ∙ after_calm calm (n + 1) rounds q.1
    ∙ ap (λ k. main_loop entering k rounds) (omega arith)

-- main returns: after any number of quiet rounds, a SIGINT, a SIGTERM or a request to restart lets it
-- run at most the iteration that it is in, whatever else comes then; it has then stopped the HTTP
-- daemon, destroyed the node manager and deleted the server, in this order, each once.
pub main_loop_ends :
    (calm : List MainRound) (r next : MainRound) (later : List MainRound)
    → All IsQuiet calm
    → AsksToEnd r
    → EndedWithin (length calm + 1) (main_loop entering 0 (calm ++ r ∷ next ∷ later))
main_loop_ends calm r next later q a =
    let plain : 0 + length calm ≡ length calm = omega arith in
    subst (EndedWithin (length calm + 1))
      (sym (
        after_calm calm 0 (r ∷ next ∷ later) q
        ∙ ap (λ k. main_loop entering k (r ∷ next ∷ later)) plain))
      (asked_round r next entering (length calm) later a refl)
