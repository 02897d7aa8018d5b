-- ===== src/Bundle.antt =====
-- nodebus/bundle/bundle.cpp and bundle.h: the life of a bundle.
-- What the bundle's file and its activator answer, and on which thread a call runs, is an `Env`.
-- A method gives the new state and the exception that it threw, if any. The calls of the activator are
-- kept as events.
pub mod Life
use jsonbus.Prelude.{
  Bool, true, false, not, List, [], ◌∷◌, Option, none, some, if◌then◌else◌, Exception,
  bundle_exception, invalid_shared_lib_exception, load_shared_lib_exception,
  symbol_shared_lib_exception, unsupported_operation_exception, illegal_operation_exception,
}
use jsonbus.SharedLib.{SharedLib, load, get_symbol, unload}

pub data State : Type 0 where
  uninstalled resolved starting active stopping : State

pub data Event : Type 0 where
  activator_started activator_stopped : Event

pub record Bundle : Type 0 where
  pub state : State
  pub lib_file : SharedLib
  -- whether `m_bundleActivator` is not null
  pub has_activator : Bool
  pub events : List Event

pub record Env : Type 0 where
  pub on_owner_thread : Bool
  pub file_opens : Bool
  pub has_bundle_name : Bool
  pub has_symbolic_name : Bool
  pub has_version : Bool
  pub has_require_service : Bool
  pub has_bundle_activator : Bool
  -- what the activator's methods throw
  pub start_throws : Option Exception
  pub stop_throws : Option Exception

abbrev pub Step : Type 0
Step = Bundle × Option Exception

-- `b` goes on if nothing was thrown.
abbrev pub and_then : Step → (Bundle → Step) → Step
and_then (b, none) f = f b
and_then (b, some e) f = (b, some e)

-- `catch (LoadSharedLibException e) { throw BundleException(…); }`
abbrev load_error : Option Exception → Option Exception
load_error (some load_shared_lib_exception) = some bundle_exception
load_error e = e

-- `catch (SymbolSharedLibException e) { throw BundleException(…); }`
abbrev symbol_error : Option Exception → Option Exception
symbol_error (some symbol_shared_lib_exception) = some bundle_exception
symbol_error e = e

-- `catch (SymbolSharedLibException e) {}`
abbrev no_symbol_error : Option Exception → Option Exception
no_symbol_error (some symbol_shared_lib_exception) = none
no_symbol_error e = e

unfoldable pub load_file : Env → Bundle → Step
unfolding load
load_file env b =
    let (lib, e) = load env.file_opens b.lib_file in (record b { lib_file = lib }, load_error e)

unfoldable pub unload_file : Bundle → Step
unfolding unload
unload_file b = let (lib, e) = unload b.lib_file in (record b { lib_file = lib }, e)

unfoldable pub read_manifest : Env → Bundle → Step
unfolding get_symbol
read_manifest env b =
    and_then (b, symbol_error (get_symbol env.has_bundle_name b.lib_file))
      λ b1.
        and_then (b1, symbol_error (get_symbol env.has_symbolic_name b1.lib_file))
          λ b2.
            and_then (b2, symbol_error (get_symbol env.has_version b2.lib_file))
              λ b3. (b3, no_symbol_error (get_symbol env.has_require_service b3.lib_file))

-- The constructor.
unfoldable pub create : Env → Step
unfolding load_file read_manifest unload_file
create env =
    let b : Bundle = record {
      state = resolved;
      lib_file = record { loaded = false };
      has_activator = false;
      events = [];
    } in
    and_then (load_file env b) λ b1. and_then (read_manifest env b1) unload_file

-- `m_bundleActivator = …` unless the symbol is missing, which is no error here.
unfoldable pub get_activator : Env → Bundle → Step
unfolding get_symbol
get_activator env b = elim (get_symbol env.has_bundle_activator b.lib_file) [
  | none ↦ (record b { has_activator = true }, none)
  | some e ↦ (b, no_symbol_error (some e))
]

is_state : State → State → Bool
is_state uninstalled uninstalled = true
is_state resolved resolved = true
is_state starting starting = true
is_state active active = true
is_state stopping stopping = true
is_state _ _ = false

unfoldable pub install : Env → Bundle → Step
unfolding is_state load_file get_activator
install env b =
    if not env.on_owner_thread
    then (b, some unsupported_operation_exception)
    else if is_state b.state uninstalled
    then and_then (load_file env b) (get_activator env)
    else (b, some illegal_operation_exception)

-- `m_bundleActivator->start(m_context)`, if there is an activator.
unfoldable pub start_activator : Env → Bundle → Step
start_activator env b =
    if b.has_activator
    then (record b { events = activator_started ∷ b.events }, env.start_throws)
    else (b, none)

unfoldable pub stop_activator : Env → Bundle → Step
stop_activator env b =
    if b.has_activator
    then (record b { events = activator_stopped ∷ b.events }, env.stop_throws)
    else (b, none)

unfoldable pub start_if_resolved : Env → Bundle → Step
unfolding is_state start_activator
start_if_resolved env b =
    if is_state b.state resolved
    then and_then (start_activator env (record b { state = starting }))
        (λ b'. (record b' { state = active }, none))
    else (b, none)

-- The exception at the end of the method is thrown on every way that comes there.
unfoldable pub start : Env → Bundle → Step
unfolding is_state install start_if_resolved
start env b =
    if not env.on_owner_thread
    then (b, some unsupported_operation_exception)
    else and_then (if is_state b.state uninstalled then install env b else (b, none))
        λ b1. and_then (start_if_resolved env b1) λ b2. (b2, some illegal_operation_exception)

unfoldable pub stop_if_active : Env → Bundle → Step
unfolding is_state stop_activator
stop_if_active env b =
    if is_state b.state active
    then and_then (stop_activator env (record b { state = stopping }))
        (λ b'. (record b' { state = resolved }, none))
    else (b, none)

unfoldable pub stop : Env → Bundle → Step
unfolding stop_if_active
stop env b =
    if not env.on_owner_thread
    then (b, some unsupported_operation_exception)
    else and_then (stop_if_active env b) λ b'. (b', some illegal_operation_exception)

unfoldable pub uninstall_if_resolved : Bundle → Step
unfolding is_state unload_file
uninstall_if_resolved b =
    if is_state b.state resolved
    then and_then (unload_file (record b { has_activator = false }))
        (λ b'. (record b' { state = uninstalled }, none))
    else (b, some illegal_operation_exception)

unfoldable pub uninstall : Env → Bundle → Step
unfolding is_state stop uninstall_if_resolved
uninstall env b =
    if not env.on_owner_thread
    then (b, some unsupported_operation_exception)
    else and_then (if is_state b.state active then stop env b else (b, none)) uninstall_if_resolved
