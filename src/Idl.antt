-- ===== src/Idl.antt =====
-- nodebus/core/idlparser: the errors, the symbols and the interfaces that the IDL driver keeps.
-- The grammar's code is generated. The place that an error names is not kept.
pub mod Laws
pub mod Exec
pub mod Results
pub mod Assign
pub mod Include
use jsonbus.Prelude.{
  Outcome, ok, undefined, ℕ, ◌==◌, Bool, true, false, not, List, [], ◌∷◌, ◌++◌, Option, none, some,
  if◌then◌else◌, ltb, length,
}
use jsonbus.Variant.{Variant}
use jsonbus.Dict.{nat_eq, text_eq, Dict, lookup, insert, contains}

-- What an error says.
pub data IdlError : Type 0 where
  duplicated undefined_symbol invalid_symbol : List ℕ → IdlError
  invalid_operand : Variant → IdlError
  operator_text not_convertible not_opened : List ℕ → IdlError
  void_variable variable_type : IdlError
  conflict : List ℕ → List ℕ → List ℕ → List ℕ → IdlError

-- What `map` gives of a node: its name and the first character of its type, which is all that is
-- compared.
pub record Node : Type 0 where
  pub name : List ℕ
  pub node_type : ℕ

pub record NodeRoot : Type 0 where
  pub sym_tbl : Dict (List ℕ) Node
  pub errors : List IdlError

-- `Driver::appendError`: whether there are fewer than 20 errors.
unfoldable pub append_error : IdlError → NodeRoot → NodeRoot × Bool
append_error e root =
    (record root { errors = root.errors ++ e ∷ [] }, ltb (length (root.errors ++ e ∷ [])) 20)

-- `NodeRoot::append`
unfoldable pub append : Node → NodeRoot → NodeRoot × Bool
unfolding append_error contains
append node root =
    if contains node.name root.sym_tbl
    then ((append_error (duplicated node.name) root).0, false)
    else (record root { sym_tbl = insert node.name node root.sym_tbl }, true)

-- `NodeRoot::resolve`
unfoldable pub resolve : List ℕ → ℕ → NodeRoot → NodeRoot × Option Node
unfolding append_error
resolve symbol type root = elim (lookup symbol root.sym_tbl) [
  | none ↦ ((append_error (undefined_symbol symbol) root).0, none)
  | some node ↦
      if not (node.node_type == type)
      then ((append_error (invalid_symbol symbol) root).0, none)
      else (root, some node)
]

-- The names that are known while an interface is checked, each with the interface that has it.
abbrev pub SymMap : Type 0
SymMap = Dict (List ℕ) (List ℕ)

-- The first loop of `NodeIntf::map`: the interface's own members.
unfoldable pub own_members : List ℕ → List (List ℕ) → SymMap → SymMap
own_members name [] sym_map = sym_map
own_members name (member ∷ members) sym_map = own_members name members (insert member name sym_map)

-- `symMap[memberName]`: what the name belongs to.
unfoldable pub owner : List ℕ → SymMap → List ℕ
owner member sym_map = elim (lookup member sym_map) [ none ↦ [] | some name ↦ name ]

-- The body of the inner loop, for a member of a parent.
unfoldable pub add_member : List ℕ → List ℕ → List ℕ → SymMap × NodeRoot → SymMap × NodeRoot
unfolding append_error contains owner
add_member name parent member (sym_map, root) =
    if contains member sym_map
    then (sym_map, (append_error (conflict name (owner member sym_map) parent member) root).0)
    else (insert member parent sym_map, root)

unfoldable pub add_members : List ℕ → List ℕ → List (List ℕ) → SymMap × NodeRoot → SymMap × NodeRoot
unfolding add_member
add_members name parent [] s = s
add_members name parent (member ∷ members) s =
    add_members name parent members (add_member name parent member s)

-- The outer loop: the parents in the order of their names.
unfoldable pub add_parents :
    List ℕ → List (List ℕ × List (List ℕ)) → SymMap × NodeRoot → SymMap × NodeRoot
unfolding add_members
add_parents name [] s = s
add_parents name ((parent, members) ∷ parents) s =
    add_parents name parents (add_members name parent members s)

pub record NodeIntf : Type 0 where
  pub name : List ℕ
  pub members : List (List ℕ)
  pub parents : List (List ℕ × List (List ℕ))
  pub finalized : Bool

-- `NodeIntf::map`: the check of the first call, and the errors that it leaves.
unfoldable pub finalize : NodeIntf → NodeRoot → NodeIntf × NodeRoot
unfolding own_members add_parents
finalize intf root =
    if not intf.finalized
    then (
      record intf { finalized = true },
      (add_parents intf.name intf.parents (own_members intf.name intf.members [], root)).1,
    )
    else (intf, root)

-- The node that is being read, and those around it.
pub record Context : Type 0 where
  pub cur_ctx : ℕ
  pub node_stack : List ℕ

-- `Driver::push`
unfoldable pub push : ℕ → Context → Context
push node c = record { cur_ctx = node; node_stack = c.cur_ctx ∷ c.node_stack }

-- `Driver::pop`, which a stack without an element does not allow.
unfoldable pub pop : Context → Outcome Context
pop c = elim c.node_stack [
  | [] ↦ undefined
  | node ∷ nodes ↦ ok (record { cur_ctx = node; node_stack = nodes })
]
