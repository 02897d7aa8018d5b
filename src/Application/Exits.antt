-- ===== src/Application/Exits.antt =====
-- The exit codes of the programs.
use jsonbus.Prelude.{
  ℕ, ◌≡◌, ◌≢◌, refl, arith, true, false, List, none, Exception, Outcome, ok, throw,
}
use jsonbus.Variant.{bool}
use jsonbus.CliArguments.{CliArguments, Step, define, Patterns, parse, is_enabled}
use jsonbus.Application.{help_name, help_or_exec, start_up, exit_code, run}

exit_code-caught : (o : Outcome ℕ) (e : Exception) → exit_code o ≢ throw e
unfolding exit_code
exit_code-caught o e h = ground (arith, h)

-- No exception leaves `run`, whatever the program throws.
pub run-caught :
    (patterns : Patterns) (on_init : CliArguments → Step) (on_exec : CliArguments → Outcome ℕ)
    (argv : List (List ℕ)) (args : CliArguments) (e : Exception)
    → run patterns on_init on_exec argv args ≢ throw e
unfolding run
run-caught patterns on_init on_exec argv args e = exit_code-caught _ e

-- Where the help is asked for, the exit code is 0 and the program does not execute.
pub run_help :
    (patterns : Patterns) (on_init : CliArguments → Step) (on_exec : CliArguments → Outcome ℕ)
    (argv : List (List ℕ)) (args a b c : CliArguments)
    → define help_name b'h' (bool false) args ≡ (a, none)
    → on_init a ≡ (b, none)
    → parse patterns argv b ≡ (c, none)
    → is_enabled help_name c ≡ ok true
    → run patterns on_init on_exec argv args ≡ ok 0
unfolding run start_up help_or_exec exit_code
run_help patterns on_init on_exec argv args a b c d i p h = rw (d, i, p, h) refl
