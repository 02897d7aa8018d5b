-- ===== src/SharedLib.antt =====
-- nodebus/core/sharedlib.cpp: a dynamic library and its handle.
-- What `dlopen` and `dlsym` answer is an argument: whether the file opens, whether it has the symbol.
-- A method gives the new state and the exception that it threw, if any.
use jsonbus.Prelude.{
  Bool, true, false, Option, none, some, if◌then◌else◌, Exception, invalid_shared_lib_exception,
  load_shared_lib_exception, symbol_shared_lib_exception,
}

-- Whether the handle is not null.
pub record SharedLib : Type 0 where
  pub loaded : Bool

unfoldable pub load : Bool → SharedLib → SharedLib × Option Exception
load opens lib =
    if lib.loaded
    then (lib, some invalid_shared_lib_exception)
    else if opens
    then (record { loaded = true }, none)
    else (record { loaded = false }, some load_shared_lib_exception)

unfoldable pub get_symbol : Bool → SharedLib → Option Exception
get_symbol present lib =
    if lib.loaded
    then if present then none else some symbol_shared_lib_exception
    else some invalid_shared_lib_exception

unfoldable pub unload : SharedLib → SharedLib × Option Exception
unload lib =
    if lib.loaded
    then (record { loaded = false }, none)
    else (lib, some invalid_shared_lib_exception)
