-- ===== src/Idl/Laws.antt =====
-- What the symbols and the check of interfaces guarantee (nodebus/core/idlparser).
use jsonbus.Prelude.{
  ok, ℕ, ◌≡◌, ◌≢◌, refl, true, false, List, [], ◌∷◌, ◌++◌, some, arith, ap, ◌∙◌, append-nil,
  append_assoc, Bool-cases, inl, inr,
}
use jsonbus.Dict.{nat_eq, text_eq, lookup, insert, contains, lookup-insert, text_same_iff}
use jsonbus.Idl.{
  Context, push, pop, conflict, owner, IdlError, Node, NodeRoot, append_error, append, resolve,
  SymMap, add_member, add_members, add_parents, NodeIntf, finalize,
}

-- A symbol that NodeRoot::append took is resolved with its type, without an error, and every other
-- name is found as before.
pub resolve-append :
    (node : Node) (root : NodeRoot)
    → (append node root).1 ≡ true
    → (resolve node.name node.node_type (append node root).0 ≡ ((append node root).0, some node))
      × ((other : List ℕ)
          → other ≢ node.name
          → lookup other (append node root).0.sym_tbl ≡ lookup other root.sym_tbl)
unfolding append resolve
resolve-append node root h = (
  ground (
    arith,
    lookup-insert node.name node.name node root.sym_tbl,
    text_same_iff node.name node.name,
  ),
  λ other d.
      ground
        (arith, lookup-insert other node.name node root.sym_tbl, text_same_iff node.name other),
)

-- A name that is known keeps its owner, and an error stays.
pub record Grows (s t : SymMap × NodeRoot) : Type 0 where
  pub keeps_owner :
      (member name : List ℕ) → lookup member s.0 ≡ some name → lookup member t.0 ≡ some name
  pub more : List IdlError
  pub keeps_errors : t.1.errors ≡ s.1.errors ++ more

Grows-refl : (s : SymMap × NodeRoot) → Grows s s
Grows-refl s = record { keeps_owner = λ m n h. h; more = []; keeps_errors = rw append-nil }

Grows-trans : {s t u : SymMap × NodeRoot} → Grows s t → Grows t u → Grows s u
Grows-trans g h = record {
  keeps_owner = λ m n e. h.keeps_owner m n (g.keeps_owner m n e);
  more = g.more ++ h.more;
  keeps_errors = h.keeps_errors ∙ ap (λ l. l ++ h.more) g.keeps_errors ∙ rw append_assoc;
}

insert_keeps :
    (member other name parent : List ℕ) (sym_map : SymMap)
    → contains member sym_map ≡ false
    → lookup other sym_map ≡ some name
    → lookup other (insert member parent sym_map) ≡ some name
unfolding contains
insert_keeps member other name parent sym_map f h =
    ground (arith, lookup-insert other member parent sym_map, text_same_iff member other)

add_member-Grows :
    (name parent member : List ℕ) (s : SymMap × NodeRoot)
    → Grows s (add_member name parent member s)
unfolding add_member append_error
add_member-Grows name parent member (sym_map, root) = elim (Bool-cases (contains member sym_map)) [
  | inl t ↦
      rw (add_member, t)
        (record {
          keeps_owner = λ m n h. h;
          more = conflict name (owner member sym_map) parent member ∷ [];
          keeps_errors = refl;
        })
  | inr f ↦
      rw (add_member, f)
        (record {
          keeps_owner = λ m n h. insert_keeps member m n parent sym_map f h;
          more = [];
          keeps_errors = rw append-nil;
        })
]

add_members-Grows :
    (name parent : List ℕ) (members : List (List ℕ)) (s : SymMap × NodeRoot)
    → Grows s (add_members name parent members s)
unfolding add_members
add_members-Grows name parent [] s = Grows-refl s
add_members-Grows name parent (member ∷ members) s =
    Grows-trans (add_member-Grows name parent member s)
      (add_members-Grows name parent members (add_member name parent member s))

-- Checking the parents of an interface, whatever they have, keeps the owner of every name that is known
-- and only adds errors behind those that are there.
pub add_parents-Grows :
    (name : List ℕ) (parents : List (List ℕ × List (List ℕ))) (s : SymMap × NodeRoot)
    → Grows s (add_parents name parents s)
unfolding add_parents
add_parents-Grows name [] s = Grows-refl s
add_parents-Grows name ((parent, members) ∷ parents) s =
    Grows-trans (add_members-Grows name parent members s)
      (add_parents-Grows name parents (add_members name parent members s))

-- An interface is checked once: a second `map` adds no error.
pub finalize-finalize :
    (intf : NodeIntf) (root other : NodeRoot)
    → finalize (finalize intf root).0 other ≡ ((finalize intf root).0, other)
unfolding finalize
finalize-finalize intf root other = ground arith

-- A node that was pushed is left by `pop`, back to what it was read in.
pub pop-push : (node : ℕ) (c : Context) → pop (push node c) ≡ ok c
unfolding pop push
pop-push node c = refl
