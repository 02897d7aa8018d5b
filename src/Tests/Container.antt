-- ===== src/Tests/Container.antt =====
-- A container that is asked to start its bundle (nodebus/container/container.cpp).
use jsonbus.Prelude.{ℕ, ◌≡◌, refl, true, false, none, List, [], ◌∷◌, ok}
use jsonbus.Dict.{lookup}
use jsonbus.Variant.{Variant, bool, string}
use jsonbus.CliArguments.{CliArguments, Element, get_value, is_enabled, to_enabled}
use jsonbus.Bundle.{Env}
use jsonbus.Application.{exec_service, exit_code}
use jsonbus.Container.{bundle_info, bundle_file, bundle_start, on_start}
use jsonbus.Container.Startup.{exit_code-on_start}

abbrev element : List ℕ → Variant → List ℕ × Element
element name v = (name, record { name = name; short_tag = b'x'; value = v })

abbrev args : CliArguments
args = record {
  arguments =
      element bundle_info (bool false)
      ∷ element bundle_file (string (b'f' ∷ []))
      ∷ element bundle_start (bool true)
      ∷ [];
  short_tag_to_name = [];
  extra_args = [];
}

abbrev env : Env
env = record {
  on_owner_thread = true;
  file_opens = true;
  has_bundle_name = true;
  has_symbolic_name = true;
  has_version = true;
  has_require_service = true;
  has_bundle_activator = true;
  start_throws = none;
  stop_throws = none;
}

file_is : get_value bundle_file args ≡ ok (string (b'f' ∷ []))
unfolding get_value lookup
file_is = refl

info_is : is_enabled bundle_info args ≡ ok false
unfolding is_enabled to_enabled lookup
info_is = refl

start_is : is_enabled bundle_start args ≡ ok true
unfolding is_enabled to_enabled lookup
start_is = refl

exit_code-on_start_example :
    exit_code (exec_service (on_start (λ _. b'f' ∷ []) env args).1 (ok tt) (ok tt)) ≡ ok 1
exit_code-on_start_example =
    exit_code-on_start (λ _. b'f' ∷ []) env args (string (b'f' ∷ [])) (ok tt) (ok tt) file_is refl
      info_is start_is
