-- ===== src/Bundle/Life.antt =====
-- What a bundle can come to under any sequence of calls (nodebus/bundle/bundle.cpp).
use jsonbus.Prelude.{◌≡◌, ◌≢◌, ◌⊎◌, true, false, [], none, some, illegal_operation_exception, arith}
use jsonbus.Bundle.{Bundle, Env, resolved, active, create, install, uninstall, start, stop}

-- A call of a method, on any thread, whatever the file and the activator answer.
pub data Call (b : Bundle) : Bundle → Type 0 where
  installs : (env : Env) → Call b (install env b).0
  uninstalls : (env : Env) → Call b (uninstall env b).0
  starts : (env : Env) → Call b (start env b).0
  stops : (env : Env) → Call b (stop env b).0

-- The bundles that a constructor which did not throw leads to.
pub data Reachable : Bundle → Type 0 where
  created : (env : Env) → (create env).1 ≡ none → Reachable (create env).0
  called : {b c : Bundle} → Reachable b → Call b c → Reachable c

-- The library is not loaded, no activator is held and none was ever called.
pub record IsIdle (b : Bundle) : Type 0 where
  pub state_idle : (b.state ≡ resolved) ⊎ (b.state ≡ active)
  pub not_loaded : b.lib_file.loaded ≡ false
  pub no_activator : b.has_activator ≡ false
  pub no_events : b.events ≡ []

create-IsIdle : (env : Env) → (create env).1 ≡ none → IsIdle (create env).0
unfolding create
create-IsIdle env h = ground arith

Call-IsIdle : {b c : Bundle} → Call b c → IsIdle b → IsIdle c
unfolding install uninstall start stop
Call-IsIdle (installs env) h = ground arith
Call-IsIdle (uninstalls env) h = ground arith
Call-IsIdle (starts env) h = ground arith
Call-IsIdle (stops env) h = ground arith

-- Whatever the calls, a bundle stays resolved or active, with its library unloaded and without an
-- activator, and no activator was ever started or stopped.
pub Reachable-IsIdle : {b : Bundle} → Reachable b → IsIdle b
Reachable-IsIdle (created env h) = create-IsIdle env h
Reachable-IsIdle (called r c) = Call-IsIdle c (Reachable-IsIdle r)

-- `start` on the owner's thread makes a reachable bundle active, and throws all the same.
pub start_active :
    (env : Env) {b : Bundle}
    → Reachable b
    → env.on_owner_thread ≡ true
    → ((start env b).0.state ≡ active) × ((start env b).1 ≡ some illegal_operation_exception)
unfolding start
start_active env r h = let i = Reachable-IsIdle r in ground arith

-- No call on a reachable bundle ever returns: `install`, `uninstall`, `start` and `stop` all throw.
pub Reachable-throws :
    (env : Env) {b : Bundle}
    → Reachable b
    → ((install env b).1 ≢ none)
      × ((uninstall env b).1 ≢ none)
      × ((start env b).1 ≢ none)
      × ((stop env b).1 ≢ none)
unfolding install uninstall start stop
Reachable-throws env r = let i = Reachable-IsIdle r in ground arith
