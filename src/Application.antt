-- ===== src/Application.antt =====
-- nodebus/core/application.cpp: `Application::run`, with what a program does in `onInit` and `onExec` as
-- arguments, and `Application::notify`.
pub mod Exits
use jsonbus.Prelude.{
  ℕ, Bool, true, false, List, [], ◌∷◌, Option, none, some, Exception, exit_application_exception,
  Outcome, ok, throw, undefined, out_of_fuel,
}
use jsonbus.Variant.{bool}
use jsonbus.CliArguments.{CliArguments, Step, define, Patterns, parse, is_enabled}

abbrev pub help_name : List ℕ
help_name = b'h' ∷ b'e' ∷ b'l' ∷ b'p' ∷ []

abbrev pub then_step : {A : Type 0} → Step → (CliArguments → Outcome A) → Outcome A
then_step (args, none) k = k args
then_step (args, some e) k = throw e

-- The test of `help`, whose page goes to the error stream.
unfoldable pub help_or_exec : (CliArguments → Outcome ℕ) → CliArguments → Outcome Bool → Outcome ℕ
help_or_exec on_exec args (ok true) = throw exit_application_exception
help_or_exec on_exec args (ok false) = on_exec args
help_or_exec on_exec args (throw e) = throw e
help_or_exec on_exec args undefined = undefined
help_or_exec on_exec args out_of_fuel = out_of_fuel

-- The block of `run` that is guarded.
unfoldable pub start_up :
    Patterns
    → (CliArguments → Step)
    → (CliArguments → Outcome ℕ)
    → List (List ℕ)
    → CliArguments
    → Outcome ℕ
unfolding help_or_exec
start_up patterns on_init on_exec argv args =
    then_step (define help_name b'h' (bool false) args) λ a.
      then_step (on_init a)
        λ b. then_step (parse patterns argv b) λ c. help_or_exec on_exec c (is_enabled help_name c)

-- The handlers of `run`.
unfoldable pub exit_code : Outcome ℕ → Outcome ℕ
exit_code (ok n) = ok n
exit_code (throw exit_application_exception) = ok 0
exit_code (throw e) = ok 1
exit_code undefined = undefined
exit_code out_of_fuel = out_of_fuel

-- `run`
unfoldable pub run :
    Patterns
    → (CliArguments → Step)
    → (CliArguments → Outcome ℕ)
    → List (List ℕ)
    → CliArguments
    → Outcome ℕ
unfolding start_up exit_code
run patterns on_init on_exec argv args = exit_code (start_up patterns on_init on_exec argv args)

-- `onExec` of a service: what `onStart`, the event loop and `onStop` come to, in this order.
unfoldable pub exec_service :
    Outcome (Unit {0}) → Outcome (Unit {0}) → Outcome (Unit {0}) → Outcome ℕ
exec_service (ok _) (ok _) (ok _) = ok 0
exec_service (ok _) (ok _) (throw e) = throw e
exec_service (ok _) (ok _) undefined = undefined
exec_service (ok _) (ok _) out_of_fuel = out_of_fuel
exec_service (ok _) (throw e) _ = throw e
exec_service (ok _) undefined _ = undefined
exec_service (ok _) out_of_fuel _ = out_of_fuel
exec_service (throw e) _ _ = throw e
exec_service undefined _ _ = undefined
exec_service out_of_fuel _ _ = out_of_fuel

-- `notify`, on what handling the event comes to: its answer, and whether the event loop is told to quit.
unfoldable pub notify : Outcome Bool → Outcome (Bool × Bool)
notify (ok b) = ok (b, false)
notify (throw e) = ok (false, true)
notify undefined = undefined
notify out_of_fuel = out_of_fuel
