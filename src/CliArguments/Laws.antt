-- ===== src/CliArguments/Laws.antt =====
-- What defining and parsing arguments guarantees (nodebus/core/cliarguments.cpp).
use jsonbus.Prelude.{
  ℕ, ◌≡◌, refl, ◌∙◌, true, false, List, [], ◌∷◌, ◌++◌, append-nil, append_assoc, Option, none, some,
  if◌then◌else◌, All, ok, arith,
}
use jsonbus.Dict.{
  nat_eq, text_eq, Dict, lookup, insert, contains, lookup-insert, same_self, text_same,
}
use jsonbus.Variant.{Variant}
use jsonbus.CliArguments.{
  after_turn, CliArguments, Element, Step, Patterns, define, get_value, parse_turn, parse_args,
  parse,
}

-- Neither pattern matches.
abbrev pub IsPlain : Patterns → List ℕ → Type 0
IsPlain p arg = (p.long arg ≡ none) × (p.short arg ≡ none)

parse_turn_plain :
    (p : Patterns) (arg : List ℕ) (next : Option (List ℕ)) (args : CliArguments)
    → IsPlain p arg
    → parse_turn p arg next args ≡ record {
      state = record args { extra_args = args.extra_args ++ arg ∷ [] };
      thrown = none;
      took_next = false;
    }
unfolding parse_turn
parse_turn_plain p arg next args h = ground arith

after_turn_go :
    (state : CliArguments) (skip go : CliArguments → Step)
    → after_turn (record { state = state; thrown = none; took_next = false }) skip go ≡ go state
unfolding after_turn
after_turn_go state skip go = refl

parse_args_plain :
    (p : Patterns) (arg_list : List (List ℕ)) (args : CliArguments)
    → All (IsPlain p) arg_list
    → parse_args p arg_list args ≡ (record args { extra_args = args.extra_args ++ arg_list }, none)
unfolding parse_args
parse_args_plain p [] args h = rw append-nil
parse_args_plain p (arg ∷ []) args h = rw (parse_turn_plain p arg none args h.0, after_turn_go)
parse_args_plain p (arg ∷ next ∷ rest) args h =
    let args' : CliArguments = record args { extra_args = args.extra_args ++ arg ∷ [] } in
    rw (parse_turn_plain p arg (some next) args h.0, after_turn_go)
      (parse_args_plain p (next ∷ rest) args' h.1 ∙ rw append_assoc)

-- Arguments that match neither pattern become the extra arguments, in their order and behind those
-- that are there; nothing else changes and nothing is thrown.
pub parse_plain :
    (p : Patterns) (program : List ℕ) (arg_list : List (List ℕ)) (args : CliArguments)
    → All (IsPlain p) arg_list
    → parse p (program ∷ arg_list) args
      ≡ (record args { extra_args = args.extra_args ++ arg_list }, none)
unfolding parse
parse_plain p program arg_list args h = parse_args_plain p arg_list args h

-- A name that has a value after `define` is one that had it before, or the new one with its value.
pub get_value-define :
    (name other : List ℕ) (tag : ℕ) (value : Variant) (args : CliArguments)
    → (define name tag value args).1 ≡ none
    → get_value other (define name tag value args).0
      ≡ (if text_same name other then ok value else get_value other args)
unfolding define get_value
get_value-define name other tag value args h = ground (
  arith,
  lookup-insert other name (record { name = name; short_tag = tag; value = value }) args.arguments,
)

-- Every short tag names a defined argument.
abbrev pub IsWired : CliArguments → Type 0
IsWired args =
    (tag : ℕ) (name : List ℕ)
    → lookup tag args.short_tag_to_name ≡ some name
    → contains name args.arguments ≡ true

contains-insert :
    (j k : List ℕ) (v : Element) (d : Dict (List ℕ) Element)
    → contains j d ≡ true
    → contains j (insert k v d) ≡ true
unfolding contains
contains-insert j k v d h = ground (arith, lookup-insert j k v d)

contains-insert_self :
    (k : List ℕ) (v : Element) (d : Dict (List ℕ) Element) → contains k (insert k v d) ≡ true
unfolding contains
contains-insert_self k v d = ground (arith, lookup-insert k k v d, same_self k)

-- Defining an argument keeps every short tag on a defined argument, also when it throws.
pub define-IsWired :
    (name : List ℕ) (tag : ℕ) (value : Variant) (args : CliArguments)
    → IsWired args
    → IsWired (define name tag value args).0
unfolding define
define-IsWired name tag value args h t n e =
    let elt : Element = record { name = name; short_tag = tag; value = value } in
    ground (
      arith,
      h t n,
      lookup-insert t tag name args.short_tag_to_name,
      contains-insert n name elt args.arguments,
      contains-insert_self name elt args.arguments,
    )
