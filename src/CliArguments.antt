-- ===== src/CliArguments.antt =====
-- nodebus/core/cliarguments.cpp and cliarguments.h: the definitions and the parsing of the arguments.
-- The two regular expressions are Qt's: what they capture is an argument of `parse`. A method gives
-- the new state and the exception that it threw, if any; the messages are not kept.
pub mod Laws
pub mod Kinds
use jsonbus.Prelude.{
  is_empty, ℕ, ◌==◌, Bool, true, false, List, [], ◌∷◌, ◌++◌, Option, none, some, if◌then◌else◌,
  Exception, cli_arguments_exception, Outcome, ok, throw,
}
use jsonbus.Dict.{nat_eq, text_eq, Dict, lookup, insert, contains}
use jsonbus.Variant.{Variant, invalid, bool, string}

-- The class `Element`; the description is not kept.
pub record Element : Type 0 where
  pub name : List ℕ
  pub short_tag : ℕ
  pub value : Variant

pub record CliArguments : Type 0 where
  pub arguments : Dict (List ℕ) Element
  pub short_tag_to_name : Dict ℕ (List ℕ)
  pub extra_args : List (List ℕ)

abbrev pub Step : Type 0
Step = CliArguments × Option Exception

unfoldable pub define : List ℕ → ℕ → Variant → CliArguments → Step
unfolding contains
define name short_tag value args =
    if contains name args.arguments then (args, some cli_arguments_exception) else (
      record args {
        arguments =
            insert name (record { name = name; short_tag = short_tag; value = value })
              args.arguments;
        short_tag_to_name =
            if short_tag == 0
            then args.short_tag_to_name
            else insert short_tag name args.short_tag_to_name;
      },
      none,
    )

unfoldable pub get_value : List ℕ → CliArguments → Outcome Variant
get_value name args = elim (lookup name args.arguments) [
  | none ↦ throw cli_arguments_exception
  | some elt ↦ ok elt.value
]

unfoldable pub to_enabled : Variant → Outcome Bool
to_enabled (bool b) = ok b
to_enabled _ = throw cli_arguments_exception

unfoldable pub is_enabled : List ℕ → CliArguments → Outcome Bool
unfolding to_enabled
is_enabled name args = elim (lookup name args.arguments) [
  | none ↦ throw cli_arguments_exception
  | some elt ↦ to_enabled elt.value
]

-- `value.type() == QVariant::String`
unfoldable pub is_string : Variant → Bool
is_string (string s) = true
is_string _ = false

unfoldable pub set_value : List ℕ → Element → Variant → CliArguments → CliArguments
set_value name elt v args = record args {
  arguments = insert name (record elt { value = v }) args.arguments;
}

-- What a turn of the loop comes to: it may have taken the next argument too.
pub record Turn : Type 0 where
  pub state : CliArguments
  pub thrown : Option Exception
  pub took_next : Bool

-- The value of a `--name` that wants one.
unfoldable pub long_value :
    List ℕ → Element → List ℕ → List ℕ → Option (List ℕ) → CliArguments → Turn
unfolding set_value
long_value name elt [] cap3 none args = record {
  state = args;
  thrown = some cli_arguments_exception;
  took_next = false;
}
long_value name elt [] cap3 (some value) args = record {
  state = set_value name elt (string value) args;
  thrown = none;
  took_next = true;
}
long_value name elt (_ ∷ _) cap3 next args = record {
  state = set_value name elt (string cap3) args;
  thrown = none;
  took_next = false;
}

-- `--name`, `--name=value` or `--name value`: the captures 1, 2 and 3, and the next argument.
unfoldable pub long_argument : List ℕ → List ℕ → List ℕ → Option (List ℕ) → CliArguments → Turn
unfolding is_string set_value long_value
long_argument name cap2 cap3 next args = elim (lookup name args.arguments) [
  | none ↦ record { state = args; thrown = some cli_arguments_exception; took_next = false }
  | some elt ↦ elim (is_string elt.value) [
    | true ↦ long_value name elt cap2 cap3 next args
    | false ↦ record {
      state = set_value name elt (bool true) args;
      thrown = none;
      took_next = false;
    }
  ]
]

-- `m_arguments[*argIt]`: a missing entry is the default one.
unfoldable pub element_or_default : List ℕ → CliArguments → Element
element_or_default name args = elim (lookup name args.arguments) [
  | none ↦ record { name = []; short_tag = 0; value = bool false }
  | some elt ↦ elt
]

-- The value of a letter that wants one: only the last letter may have it.
unfoldable pub short_value :
    List ℕ → Element → List ℕ → List ℕ → Option (List ℕ) → CliArguments → Turn
unfolding set_value
short_value name elt [] cap2 next args =
    if is_empty cap2
    then elim next [
      | none ↦ record { state = args; thrown = some cli_arguments_exception; took_next = false }
      | some value ↦ record {
        state = set_value name elt (string value) args;
        thrown = none;
        took_next = true;
      }
    ]
    else record { state = set_value name elt (string cap2) args; thrown = none; took_next = false }
short_value name elt (_ ∷ _) cap2 next args = record {
  state = args;
  thrown = some cli_arguments_exception;
  took_next = false;
}

-- `-abc` or `-abc value`: the loop over the letters.
unfoldable pub short_arguments : List ℕ → List ℕ → Option (List ℕ) → CliArguments → Turn
unfolding element_or_default is_string set_value short_value
short_arguments [] cap2 next args = record { state = args; thrown = none; took_next = false }
short_arguments (letter ∷ letters) cap2 next args = elim (lookup letter args.short_tag_to_name) [
  | none ↦ record { state = args; thrown = some cli_arguments_exception; took_next = false }
  | some name ↦ elim (is_string (element_or_default name args).value) [
    | true ↦ short_value name (element_or_default name args) letters cap2 next args
    | false ↦
        short_arguments letters cap2 next
          (set_value name (element_or_default name args) (bool true) args)
  ]
]

-- The captures of `patternArg` and of `patternShortArg` on an argument, if it matches.
pub record Patterns : Type 0 where
  pub long : List ℕ → Option (List ℕ × List ℕ × List ℕ)
  pub short : List ℕ → Option (List ℕ × List ℕ)

unfoldable pub parse_turn : Patterns → List ℕ → Option (List ℕ) → CliArguments → Turn
unfolding long_argument short_arguments
parse_turn p arg next args = elim (p.long arg) [
  | some (name, cap2, cap3) ↦ long_argument name cap2 cap3 next args
  | none ↦ elim (p.short arg) [
    | some (letters, cap2) ↦ short_arguments letters cap2 next args
    | none ↦ record {
      state = record args { extra_args = args.extra_args ++ arg ∷ [] };
      thrown = none;
      took_next = false;
    }
  ]
]

-- `it++`, once more if the turn took the next argument; an exception ends the loop.
unfoldable pub after_turn : Turn → (CliArguments → Step) → (CliArguments → Step) → Step
after_turn turn skip go = elim turn.thrown [
  | some e ↦ (turn.state, some e)
  | none ↦ elim turn.took_next [ true ↦ skip turn.state | false ↦ go turn.state ]
]

-- The loop over the arguments behind the program's name.
unfoldable pub parse_args : Patterns → List (List ℕ) → CliArguments → Step
parse_args p [] args = (args, none)
parse_args p (arg ∷ []) args =
    after_turn (parse_turn p arg none args) (λ a. (a, none)) (λ a. (a, none))
parse_args p (arg ∷ next ∷ rest) args =
    after_turn (parse_turn p arg (some next) args) (parse_args p rest) (parse_args p (next ∷ rest))

-- `parse(const QStringList &)`: the first element is the program's name. On a list without it, which no
-- process has, the source would go past the end; here nothing is parsed.
unfoldable pub parse : Patterns → List (List ℕ) → CliArguments → Step
unfolding parse_args
parse p [] args = (args, none)
parse p (program ∷ arg_list) args = parse_args p arg_list args

-- `parse(int, const char **)`: the list is built and dropped.
unfoldable pub parse_argv : Patterns → List (List ℕ) → CliArguments → Step
parse_argv p argv args = (args, none)
