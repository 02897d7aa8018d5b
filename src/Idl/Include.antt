-- ===== src/Idl/Include.antt =====
-- `Driver::Driver`, `parse` and `include` of nodebus/core/idlparser/driver.cpp. What the generated parser
-- does with a file is an argument: its includes, and its other actions on what the files share.
pub mod Files
use jsonbus.Prelude.{
  ℕ, zero, suc, Bool, true, false, List, [], ◌∷◌, Option, none, some, if◌then◌else◌, is_empty,
  length, io_exception, error_parser_exception, Outcome, ok, throw, out_of_fuel,
}
use jsonbus.Dict.{text_eq, text_same, Dict, lookup}
use jsonbus.Idl.{NodeRoot, not_opened, append_error}

-- An action of the parser: an include directive, or code that tells whether the parser goes on.
pub data Action : Type 0 where
  includes : List ℕ → Action
  acts : (NodeRoot → NodeRoot × Bool) → Action

-- What the drivers of all files share, with the keys of `m_fileList`. `parsed` is no member: it has the
-- files on which the parser was run, the last one first, as often as it was.
pub record Parsing : Type 0 where
  pub root : NodeRoot
  pub file_list : List (List ℕ)
  pub parsed : List (List ℕ)

-- Nothing was parsed.
abbrev pub unparsed : Parsing
unparsed = record { root = record { sym_tbl = []; errors = [] }; file_list = []; parsed = [] }

-- `m_fileList.contains`
unfoldable pub is_listed : List (List ℕ) → List ℕ → Bool
is_listed [] path = false
is_listed (p ∷ ps) path = if text_same p path then true else is_listed ps path

-- The constructor of Driver.
unfoldable pub new_driver : List ℕ → Parsing → Parsing
unfolding is_listed
new_driver path s =
    if is_listed s.file_list path then s else record s { file_list = path ∷ s.file_list }

-- `Parser::parse` on a file, whose answer no caller reads; `include` is the method below.
unfoldable pub parse_actions :
    (List ℕ → Parsing → Option Parsing) → List Action → Parsing → Option Parsing
parse_actions include [] s = some s
parse_actions include (includes name ∷ rest) s = elim (include name s) [
  | none ↦ none
  | some s1 ↦ parse_actions include rest s1
]
parse_actions include (acts f ∷ rest) s =
    let (root, goes) = f s.root in
    let s1 = record s { root = root } in
    let after = parse_actions include rest s1 in if goes then after else some s1

-- `Parser::parse` on a file, with the driver of its path.
unfoldable pub run_parser :
    (List ℕ → Parsing → Option Parsing) → List ℕ → List Action → Parsing → Option Parsing
unfolding parse_actions
run_parser include path actions s =
    parse_actions include actions (record s { parsed = path ∷ s.parsed })

-- `canonical` is the canonical path of a name in the directory of a file; `disk` has the files that open.
module _ (canonical : List ℕ → List ℕ → List ℕ) (disk : Dict (List ℕ) (List Action)) where
  -- `include`, on fuel, from the driver of a file.
  unfoldable pub include : ℕ → List ℕ → List ℕ → Parsing → Option Parsing
  unfolding is_listed append_error new_driver run_parser
  include zero from name s = none
  include (suc fuel) from name s =
      let path = canonical from name in
      elim (is_listed s.file_list path) [
        | true ↦ some s
        | false ↦ elim (lookup path disk) [
          | none ↦ some (record s { root = (append_error (not_opened path) s.root).0 })
          | some actions ↦ run_parser (include fuel path) path actions (new_driver path s)
        ]
      ]

  -- The end of `parse`. The members of its map are those that the generated parser collects.
  unfoldable pub parse_end : Option Parsing → Outcome Parsing
  parse_end none = out_of_fuel
  parse_end (some s) = if is_empty s.root.errors then ok s else throw error_parser_exception

  -- The static `parse` on a canonical path, on a unit of fuel for each file.
  unfoldable pub parse_file : List ℕ → Outcome Parsing
  unfolding include parse_end run_parser
  parse_file path = elim (lookup path disk) [
    | none ↦ throw io_exception
    | some actions ↦
        parse_end (run_parser (include (length disk) path) path actions (new_driver path unparsed))
  ]
