-- ===== src/Idlc.antt =====
-- The linker of nodebus/idlc/idlc.cpp: `IDLc::link` and `processIntf`. An interface is known by its name,
-- under which `m_symTbl` has it; `elements` are what `Intf::Intf` makes of the compiled files.
-- The member names of an interface and its ancestors are in the order of a QMap, without repetition.
pub mod Marks
pub mod Termination
pub mod Exec
use jsonbus.Prelude.{
  ℕ, zero, suc, Bool, true, false, List, [], ◌∷◌, ◌++◌, Option, none, some, if◌then◌else◌, length,
}
use jsonbus.Dict.{text_eq, text_same, Dict, lookup, insert, contains}
use jsonbus.Variant.{key_lt}

abbrev pub Name : Type 0
Name = List ℕ

pub record Intf : Type 0 where
  pub members : List Name
  pub parents : List Name

-- `m_errors`, with the names that a message has.
pub data LinkError : Type 0 where
  cyclic undefined_symbol duplicated : Name → LinkError
  undefined_member : Name → Name → LinkError
  conflict : Name → Name → Name → Name → LinkError

-- `mark`, `completed` and `ancestors` are the fields of the interfaces.
pub record Linker : Type 0 where
  pub sym_tbl : Dict Name Intf
  pub mark : Name → Bool
  pub completed : Name → Bool
  pub ancestors : Name → List Name
  pub errors : List LinkError

unfoldable pub report : LinkError → Linker → Linker
report e s = record s { errors = s.errors ++ e ∷ [] }

abbrev pub update {ℓ} : {A : Type ℓ} → Name → A → (Name → A) → Name → A
update n a f m = if text_same n m then a else f m

-- `map[name] = ...` on a map whose entries stand for themselves.
unfoldable pub insert_name : Name → List Name → List Name
unfolding key_lt
insert_name n [] = n ∷ []
insert_name n (m ∷ names) =
    if key_lt n m
    then n ∷ m ∷ names
    else if text_same n m
    then m ∷ names
    else m ∷ insert_name n names

unfoldable pub insert_names : List Name → List Name → List Name
unfolding insert_name
insert_names [] names = names
insert_names (n ∷ more) names = insert_names more (insert_name n names)

-- The loop over the interface's own members.
unfoldable pub own_symbols : Name → List Name → Dict Name Name → Linker → Dict Name Name × Linker
unfolding report contains
own_symbols name [] symbols s = (symbols, s)
own_symbols name (m ∷ members) symbols s =
    if contains m symbols
    then own_symbols name members symbols (report (undefined_member name m) s)
    else own_symbols name members (insert m name symbols) s

-- The loop over the members of an ancestor.
unfoldable pub ancestor_symbols :
    Name → Name → List Name → Dict Name Name → Linker → Dict Name Name × Linker
unfolding report
ancestor_symbols name ancestor [] symbols s = (symbols, s)
ancestor_symbols name ancestor (m ∷ members) symbols s = elim (lookup m symbols) [
  | some owner ↦
      ancestor_symbols name ancestor members symbols (report (conflict name owner ancestor m) s)
  | none ↦ ancestor_symbols name ancestor members (insert m ancestor symbols) s
]

abbrev pub members_of : Name → Linker → List Name
members_of name s = elim (lookup name s.sym_tbl) [ none ↦ [] | some i ↦ i.members ]

-- The loop over the ancestors.
unfoldable pub all_symbols : Name → List Name → Dict Name Name → Linker → Linker
unfolding ancestor_symbols
all_symbols name [] symbols s = s
all_symbols name (a ∷ ancestors) symbols s =
    let (symbols1, s1) = ancestor_symbols name a (members_of a s) symbols s in
    all_symbols name ancestors symbols1 s1

-- `processIntf` behind the loop over the parents.
unfoldable pub complete : Name → List Name → Linker → Linker
unfolding own_symbols all_symbols
complete name members s =
    let s0 = record s { mark = update name false s.mark } in
    let (symbols, s1) = own_symbols name members [] s0 in
    let s2 = all_symbols name (s1.ancestors name) symbols s1 in
    record s2 { completed = update name true s2.completed }

-- What the loop over the parents does behind the recursive call.
unfoldable pub inherit : Name → Name → Linker → Linker
unfolding insert_names insert_name
inherit name parent s = record s {
  ancestors =
      update name (insert_name parent (insert_names (s.ancestors parent) (s.ancestors name)))
        s.ancestors;
}

-- The loop over the parents, with the recursive call as an argument.
unfoldable pub process_parents :
    (Name → Linker → Option Linker) → Name → List Name → Linker → Option Linker
unfolding report inherit contains
process_parents process name [] s = some s
process_parents process name (p ∷ parents) s = elim (contains p s.sym_tbl) [
  | false ↦ process_parents process name parents (report (undefined_symbol p) s)
  | true ↦ elim (process p s) [
    | none ↦ none
    | some s1 ↦ process_parents process name parents (inherit name p s1)
  ]
]

-- `processIntf` on an interface that is neither marked nor completed.
unfoldable pub process_new : (Name → Linker → Option Linker) → Name → Intf → Linker → Option Linker
unfolding process_parents complete
process_new process name i s =
    elim (process_parents process name i.parents (record s { mark = update name true s.mark })) [
      | none ↦ none
      | some s1 ↦ some (complete name i.members s1)
    ]

-- `processIntf`, on fuel
unfoldable pub process_intf : ℕ → Name → Linker → Option Linker
unfolding process_new report
process_intf zero name s = none
process_intf (suc fuel) name s = elim (lookup name s.sym_tbl) [
  | none ↦ some s
  | some i ↦ elim (s.mark name) [
    | true ↦ some (report (cyclic name) s)
    | false ↦ elim (s.completed name) [
      | true ↦ some s
      | false ↦ process_new (process_intf fuel) name i s
    ]
  ]
]

-- The first loop of `link`: the table and its names in the order of a QMap.
unfoldable pub link_elements : List (Name × Intf) → List Name → Linker → List Name × Linker
unfolding report contains insert_name
link_elements [] names s = (names, s)
link_elements ((name, i) ∷ elements) names s =
    if contains name s.sym_tbl
    then link_elements elements names (report (duplicated name) s)
    else link_elements elements (insert_name name names)
        (record s { sym_tbl = insert name i s.sym_tbl })

-- The second loop of `link`.
unfoldable pub process_all : ℕ → List Name → Linker → Option Linker
unfolding process_intf
process_all fuel [] s = some s
process_all fuel (n ∷ names) s = elim (process_intf fuel n s) [
  | none ↦ none
  | some s1 ↦ process_all fuel names s1
]

-- `link` with the fuel of one unit for each interface and one; the exception has the errors.
unfoldable pub link : List (Name × Intf) → Linker → Option Linker
unfolding link_elements process_all
link elements s =
    let (names, s1) = link_elements elements [] s in process_all (suc (length s1.sym_tbl)) names s1
