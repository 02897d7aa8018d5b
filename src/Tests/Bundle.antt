-- ===== src/Tests/Bundle.antt =====
-- A bundle that is created, started and stopped (nodebus/bundle/bundle.cpp).
use jsonbus.Prelude.{◌≡◌, refl, true, none}
use jsonbus.Bundle.{Bundle, Env, create, start, stop}
use jsonbus.Bundle.Life.{Reachable, IsIdle, created, called, starts, stops, Reachable-IsIdle}

-- Everything is there and nothing goes wrong.
abbrev good_env : Env
good_env = record {
  on_owner_thread = true;
  file_opens = true;
  has_bundle_name = true;
  has_symbolic_name = true;
  has_version = true;
  has_require_service = true;
  has_bundle_activator = true;
  start_throws = none;
  stop_throws = none;
}

abbrev new_bundle : Bundle
new_bundle = (create good_env).0

create_good : (create good_env).1 ≡ none
unfolding create
create_good = refl

new-Reachable : Reachable new_bundle
new-Reachable = created good_env create_good

Reachable-IsIdle_example : IsIdle (stop good_env (start good_env new_bundle).0).0
Reachable-IsIdle_example =
    Reachable-IsIdle (called (called new-Reachable (starts good_env)) (stops good_env))
