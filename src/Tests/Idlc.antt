-- ===== src/Tests/Idlc.antt =====
-- Two interfaces that inherit from each other (nodebus/idlc/idlc.cpp).
use jsonbus.Prelude.{◌≡◌, refl, false, List, [], ◌∷◌, some, Option, none}
use jsonbus.Dict.{insert}
use jsonbus.Idlc.{Name, Intf, Linker, link, link_elements, cyclic, LinkError}
use jsonbus.Idlc.Termination.{Ends, link-Ends}

abbrev circle : List (Name × Intf)
circle =
    (97 ∷ [], record { members = []; parents = (98 ∷ []) ∷ [] })
    ∷ (98 ∷ [], record { members = []; parents = (97 ∷ []) ∷ [] })
    ∷ []

abbrev no_symbols : Linker
no_symbols = record {
  sym_tbl = [];
  mark = λ n. false;
  completed = λ n. false;
  ancestors = λ n. [];
  errors = [];
}

link-Ends_example : Ends (link_elements circle [] no_symbols).1 (link circle no_symbols)
link-Ends_example = link-Ends circle no_symbols

abbrev errors_of : Option Linker → List LinkError
errors_of none = []
errors_of (some s) = s.errors

circle_cyclic : errors_of (link circle no_symbols) ≡ cyclic (97 ∷ []) ∷ []
unfolding link insert
circle_cyclic = refl
