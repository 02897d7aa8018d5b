-- ===== src/Container.antt =====
-- nodebus/container/container.cpp and the search for bundles of nodebus/master/master.cpp. The answers of
-- the bundles' files are arguments; printing is not modelled.
pub mod Startup
use jsonbus.Prelude.{
  ℕ, Bool, true, false, List, [], ◌∷◌, Option, none, some, is_empty, if◌then◌else◌, Exception,
  application_exception, container_exception, exit_application_exception, Outcome, ok, throw,
  undefined, out_of_fuel,
}
use jsonbus.Dict.{text_eq, Dict, insert}
use jsonbus.Variant.{Variant, bool, string}
use jsonbus.CliArguments.{CliArguments, Step, define, get_value, is_enabled}
use jsonbus.Bundle.{Bundle, Env, create, start}

abbrev pub bundle_info : List ℕ
bundle_info = b'b' ∷ b'u' ∷ b'n' ∷ b'd' ∷ b'l' ∷ b'e' ∷ b'-' ∷ b'i' ∷ b'n' ∷ b'f' ∷ b'o' ∷ []

abbrev pub bundle_file : List ℕ
bundle_file = b'b' ∷ b'u' ∷ b'n' ∷ b'd' ∷ b'l' ∷ b'e' ∷ b'-' ∷ b'f' ∷ b'i' ∷ b'l' ∷ b'e' ∷ []

abbrev pub bundle_start : List ℕ
bundle_start =
    b'b' ∷ b'u' ∷ b'n' ∷ b'd' ∷ b'l' ∷ b'e' ∷ b'-' ∷ b's' ∷ b't' ∷ b'a' ∷ b'r' ∷ b't' ∷ []

abbrev chain : Step → (CliArguments → Step) → Step
chain (args, none) k = k args
chain (args, some e) k = (args, some e)

-- `Container::onInit`
unfoldable pub on_init : CliArguments → Step
on_init args =
    chain (define bundle_info b'i' (bool false) args) λ a.
      chain (define bundle_file b'f' (string []) a) λ b. define bundle_start b's' (bool false) b

abbrev pub thrown : Option Exception → Outcome (Unit {0})
thrown none = ok tt
thrown (some e) = throw e

-- `m_bundle`, and how the start ended.
abbrev pub Started : Type 0
Started = Option Bundle × Outcome (Unit {0})

-- The test of `bundle-start`.
unfoldable pub start_bundle : Env → Bundle → Outcome Bool → Started
start_bundle env b (ok true) = let (c, e) = start env b in (some c, thrown e)
start_bundle env b (ok false) = (some b, ok tt)
start_bundle env b (throw e) = (some b, throw e)
start_bundle env b undefined = (some b, undefined)
start_bundle env b out_of_fuel = (some b, out_of_fuel)

-- The test of `bundle-info`.
unfoldable pub show_bundle : Env → CliArguments → Bundle → Outcome Bool → Started
unfolding start_bundle
show_bundle env args b (ok true) = (some b, throw exit_application_exception)
show_bundle env args b (ok false) = start_bundle env b (is_enabled bundle_start args)
show_bundle env args b (throw e) = (some b, throw e)
show_bundle env args b undefined = (some b, undefined)
show_bundle env args b out_of_fuel = (some b, out_of_fuel)

-- What follows `new Bundle`.
unfoldable pub use_bundle : Env → CliArguments → Bundle × Option Exception → Started
unfolding show_bundle
use_bundle env args (b, none) = show_bundle env args b (is_enabled bundle_info args)
use_bundle env args (b, some e) = (none, throw e)

-- What follows reading the path, of which `to_string` is the text.
unfoldable pub open_bundle : (Variant → List ℕ) → Env → CliArguments → Outcome Variant → Started
unfolding use_bundle
open_bundle to_string env args (ok v) =
    if is_empty (to_string v)
    then (none, throw container_exception)
    else use_bundle env args (create env)
open_bundle to_string env args (throw e) = (none, throw e)
open_bundle to_string env args undefined = (none, undefined)
open_bundle to_string env args out_of_fuel = (none, out_of_fuel)

-- `Container::onStart`; that of SlaveApplication does nothing.
unfoldable pub on_start : (Variant → List ℕ) → Env → CliArguments → Started
unfolding open_bundle
on_start to_string env args = open_bundle to_string env args (get_value bundle_file args)

-- A file that the master finds, with its answers and its symbolic name.
pub record Found : Type 0 where
  pub env : Env
  pub symbolic_name : List ℕ

-- A turn of the search: a file that is no bundle is skipped.
unfoldable pub add_bundle :
    List ℕ → Bundle × Option Exception → Dict (List ℕ) Bundle → Dict (List ℕ) Bundle
add_bundle name (b, none) bundles = insert name b bundles
add_bundle name (b, some e) bundles = bundles

-- The search of `Master::onStart`.
unfoldable pub search_bundles : List Found → Dict (List ℕ) Bundle → Dict (List ℕ) Bundle
unfolding add_bundle
search_bundles [] bundles = bundles
search_bundles (f ∷ found) bundles =
    search_bundles found (add_bundle f.symbolic_name (create f.env) bundles)

-- `Master::onStart` behind the definitions of its settings.
unfoldable pub on_start_master : Bool → List Found → Dict (List ℕ) Bundle × Outcome (Unit {0})
unfolding search_bundles
on_start_master edit_settings found =
    if edit_settings
    then ([], throw exit_application_exception)
    else (let bundles = search_bundles found [] in
        if is_empty bundles then ([], throw application_exception) else (bundles, ok tt))
