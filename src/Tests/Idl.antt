-- ===== src/Tests/Idl.antt =====
-- Symbols and an interface of the IDL driver (nodebus/core/idlparser).
use jsonbus.Idl.Include.{
  Action, includes, is_listed, new_driver, parse_actions, run_parser, include, parse_end,
  parse_file,
}
use jsonbus.Idl.Include.Files.{ParsesOnce, parse_file-ParsesOnce}
use jsonbus.Prelude.{◌≢◌, some, ok, ℕ, ◌≡◌, refl, true, false, List, [], ◌∷◌}
use jsonbus.Dict.{Dict, nat_eq, text_eq, lookup, contains}
use jsonbus.Idl.{Node, NodeRoot, NodeIntf, append, resolve, add_parents}
use jsonbus.Idl.Laws.{resolve-append, Grows, add_parents-Grows}

abbrev empty_root : NodeRoot
empty_root = record { sym_tbl = []; errors = [] }

abbrev point : Node
point = record { name = 80 ∷ []; node_type = 115 }

point_new : (append point empty_root).1 ≡ true
unfolding append lookup contains
point_new = refl

-- Two parents that have a member `f` each.
abbrev two_parents : List (List ℕ × List (List ℕ))
two_parents = ((65 ∷ []), (102 ∷ []) ∷ []) ∷ ((66 ∷ []), (102 ∷ []) ∷ []) ∷ []

abbrev child : NodeIntf
child = record {
  name = 67 ∷ [];
  members = (103 ∷ []) ∷ [];
  parents = two_parents;
  finalized = false;
}

add_parents-Grows_example :
    Grows ([], empty_root) (add_parents (67 ∷ []) two_parents ([], empty_root))
add_parents-Grows_example = add_parents-Grows (67 ∷ []) two_parents ([], empty_root)

-- Two files that include each other.
abbrev cycle : Dict (List ℕ) (List Action)
cycle = (b'a' ∷ [], includes (b'b' ∷ []) ∷ []) ∷ (b'b' ∷ [], includes (b'a' ∷ []) ∷ []) ∷ []

parse_file-ParsesOnce_example : ParsesOnce (parse_file (λ _ name. name) cycle (b'a' ∷ []))
parse_file-ParsesOnce_example = parse_file-ParsesOnce (λ _ name. name) cycle (b'a' ∷ [])

both_parsed :
    parse_file (λ _ name. name) cycle (b'a' ∷ [])
    ≡ ok (record {
      root = record { sym_tbl = []; errors = [] };
      file_list = (b'b' ∷ []) ∷ (b'a' ∷ []) ∷ [];
      parsed = (b'b' ∷ []) ∷ (b'a' ∷ []) ∷ [];
    })
unfolding parse_file parse_end run_parser parse_actions include new_driver is_listed lookup
both_parsed = refl

resolve-append_example :
    (resolve point.name point.node_type (append point empty_root).0
      ≡ ((append point empty_root).0, some point))
    × ((other : List ℕ)
        → other ≢ point.name
        → lookup other (append point empty_root).0.sym_tbl ≡ lookup other empty_root.sym_tbl)
resolve-append_example = resolve-append point empty_root point_new
