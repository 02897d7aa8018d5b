-- ===== src/Tests/CliArguments.antt =====
-- Arguments that are defined and parsed (nodebus/core/cliarguments.cpp).
use jsonbus.Prelude.{ℕ, ◌≡◌, refl, List, [], ◌∷◌, none, some}
use jsonbus.Dict.{nat_eq, text_eq, lookup, contains}
use jsonbus.Variant.{string}
use jsonbus.CliArguments.{CliArguments, Patterns, define, parse}
use jsonbus.CliArguments.Laws.{IsWired, define-IsWired}
use jsonbus.CliArguments.Kinds.{Keeps, parse-Keeps}

abbrev no_arguments : CliArguments
no_arguments = record { arguments = []; short_tag_to_name = []; extra_args = [] }

-- `config`, with the letter c.
abbrev config : List ℕ
config = 99 ∷ 111 ∷ 110 ∷ 102 ∷ 105 ∷ 103 ∷ []

abbrev with_config : CliArguments
with_config = (define config 99 (string []) no_arguments).0

-- `--x` is long and `-x` short, for any x; here only the first two characters are read.
abbrev patterns : Patterns
patterns = record {
  long = λ arg. elim arg [
    | [] ↦ none
    | c ∷ rest ↦ elim rest [ [] ↦ none | d ∷ name ↦ some (name, [], []) ]
  ];
  short = λ arg. none;
}

no_tags-IsWired : IsWired no_arguments
unfolding lookup
no_tags-IsWired tag name h = cc

defined : (define config 99 (string []) no_arguments).1 ≡ none
unfolding define contains lookup
defined = refl

wired : IsWired with_config
wired = define-IsWired config 99 (string []) no_arguments no_tags-IsWired

parse-Keeps_example :
    Keeps with_config (parse patterns (config ∷ (45 ∷ 45 ∷ config) ∷ (120 ∷ []) ∷ []) with_config).0
parse-Keeps_example =
    parse-Keeps patterns (config ∷ (45 ∷ 45 ∷ config) ∷ (120 ∷ []) ∷ []) with_config
