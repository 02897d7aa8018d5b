-- ===== src/Container/Startup.antt =====
-- What comes of a container that starts its bundle, with `Application::run` above it and the bundle below.
use jsonbus.Prelude.{
  ℕ, ◌≡◌, ◌≢◌, refl, sym, ap, ◌∙◌, arith, true, false, is_empty, Option, none, some, List,
  Exception, exit_application_exception, Outcome, ok,
}
use mathlib.Core.Path.{subst}
use jsonbus.Variant.{Variant}
use jsonbus.CliArguments.{CliArguments, get_value, is_enabled}
use jsonbus.Bundle.{Bundle, Env, create, start}
use jsonbus.Bundle.Life.{Reachable, created, Reachable-IsIdle, Reachable-throws}
use jsonbus.Application.{exec_service, exit_code}
use jsonbus.Container.{
  bundle_info, bundle_file, bundle_start, thrown, start_bundle, show_bundle, use_bundle,
  open_bundle, on_start,
}

create_no_exit : (env : Env) → (create env).1 ≢ some exit_application_exception
unfolding create
create_no_exit env = ground arith

start_no_exit :
    (env : Env) {b : Bundle} → Reachable b → (start env b).1 ≢ some exit_application_exception
unfolding start
start_no_exit env r = let i = Reachable-IsIdle r in ground arith

exit_code-thrown :
    (e : Option Exception) (loop stop : Outcome (Unit {0}))
    → e ≢ none
    → e ≢ some exit_application_exception
    → exit_code (exec_service (thrown e) loop stop) ≡ ok 1
unfolding exit_code exec_service
exit_code-thrown none loop stop h k = absurd (h refl)
exit_code-thrown (some e) loop stop h k = ground (arith, k)

exit_code-use_bundle :
    (env : Env) (args : CliArguments) (r : Bundle × Option Exception)
    (loop stop : Outcome (Unit {0}))
    → r ≡ create env
    → is_enabled bundle_info args ≡ ok false
    → is_enabled bundle_start args ≡ ok true
    → exit_code (exec_service (use_bundle env args r).1 loop stop) ≡ ok 1
unfolding use_bundle show_bundle start_bundle
exit_code-use_bundle env args (b, none) loop stop e i s =
    let r : Reachable b =
      subst (λ x. Reachable x.0) (sym e) (created env (sym (ap (λ x. x.1) e))) in
    rw (i, s)
      (exit_code-thrown (start env b).1 loop stop (Reachable-throws env r).2 (start_no_exit env r))
exit_code-use_bundle env args (b, some x) loop stop e i s =
    exit_code-thrown (some x) loop stop (λ h. cc)
      (λ h. create_no_exit env (sym (ap (λ x. x.1) e) ∙ h))

-- A container that is asked to start a bundle and not to show it exits with 1, whatever the file and
-- the activator of the bundle answer, and whatever its event loop and its end would do.
pub exit_code-on_start :
    (to_string : Variant → List ℕ) (env : Env) (args : CliArguments) (v : Variant)
    (loop stop : Outcome (Unit {0}))
    → get_value bundle_file args ≡ ok v
    → is_empty (to_string v) ≡ false
    → is_enabled bundle_info args ≡ ok false
    → is_enabled bundle_start args ≡ ok true
    → exit_code (exec_service (on_start to_string env args).1 loop stop) ≡ ok 1
unfolding on_start open_bundle
exit_code-on_start to_string env args v loop stop g n i s =
    rw (g, n) (exit_code-use_bundle env args (create env) loop stop refl i s)
