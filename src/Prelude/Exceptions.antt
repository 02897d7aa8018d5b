-- ===== src/Prelude/Exceptions.antt =====
-- What a run of the program's code can come to, and the exceptions it throws
-- (nodebus/core/exception.h and the declarations in the headers of the other parts).

-- The classes of `nodebus_declare_exception`, and `HTTPException` with its code left to its users.
-- The message of an exception is not kept.
pub data Exception : Type 0 where
  exception parser_exception error_parser_exception serializer_exception : Exception
  io_exception io_timeout_exception eof_exception : Exception
  pointer_exception null_pointer_exception invalid_class_exception : Exception
  illegal_operation_exception unsupported_operation_exception : Exception
  cli_arguments_exception settings_exception bundle_exception : Exception
  shared_lib_exception invalid_shared_lib_exception load_shared_lib_exception : Exception
  symbol_shared_lib_exception application_exception exit_application_exception : Exception
  container_exception : Exception

-- `undefined` is a run that uses an uninitialised value or an object that was deleted; `out_of_fuel` has no counterpart.
pub data Outcome {ℓ} (A : Type ℓ) : Type ℓ where
  ok : A → Outcome A
  throw : Exception → Outcome A
  undefined out_of_fuel : Outcome A

abbrev pub bind {ℓ κ} : {A : Type ℓ} {B : Type κ} → Outcome A → (A → Outcome B) → Outcome B
bind (ok a) f = f a
bind (throw e) f = throw e
bind undefined f = undefined
bind out_of_fuel f = out_of_fuel
