-- ===== src/Idl/Include/Files.antt =====
-- Includes end, cyclic ones too, and each file is parsed once.
use jsonbus.Prelude.{
  ℕ, zero, suc, ◌<◌, ◌≤◌, ◌≡◌, refl, sym, ap, ◌∙◌, false, List, [], ◌∷◌, ◌++◌, append_assoc, Option,
  some, length, arith, Bool-cases, Option-cases, inl, inr, is_empty, if_both, Outcome, ok, throw,
  out_of_fuel, undefined, ◌⊎◌, io_exception, error_parser_exception,
}
use jsonbus.Dict.{text_eq, Dict, lookup}
use jsonbus.Idlc.Marks.{unmarked, unmarked_fewer, unmarked-update, unmarked-length}
use jsonbus.Idl.{not_opened, append_error}
use jsonbus.Idl.Include.{
  run_parser, Action, includes, acts, Parsing, unparsed, is_listed, new_driver, parse_actions,
  include, parse_end, parse_file,
}

-- No path is in the list twice.
pub IsDistinct : List (List ℕ) → Type 0
IsDistinct [] = Unit
IsDistinct (p ∷ ps) = (is_listed ps p ≡ false) × IsDistinct ps

-- Files were added in front of those that were listed, none that was listed before, and the parser was run
-- on those that are listed where that held before.
pub record Grows (s t : Parsing) : Type 0 where
  pub added : List (List ℕ)
  pub is_added : t.file_list ≡ added ++ s.file_list
  pub keeps : IsDistinct s.file_list → IsDistinct t.file_list
  pub runs : s.parsed ≡ s.file_list → t.parsed ≡ t.file_list

Grows-refl : (s t : Parsing) → t.file_list ≡ s.file_list → t.parsed ≡ s.parsed → Grows s t
Grows-refl s t e p = record {
  added = [];
  is_added = e;
  keeps = λ d. rw e d;
  runs = λ h. p ∙ h ∙ sym e;
}

Grows-trans : {s t u : Parsing} → Grows s t → Grows t u → Grows s u
Grows-trans {s} a b = record {
  added = b.added ++ a.added;
  is_added =
      b.is_added
      ∙ ap (λ x. b.added ++ x) a.is_added
      ∙ sym (append_assoc b.added a.added s.file_list);
  keeps = λ d. b.keeps (a.keeps d);
  runs = λ h. b.runs (a.runs h);
}

module _ (disk : Dict (List ℕ) (List Action)) where
  -- How many files of the disk were not parsed.
  abbrev pub left : Parsing → ℕ
  left s = unmarked disk (is_listed s.file_list)

  left_added :
      (ps more : List (List ℕ))
      → unmarked disk (is_listed (more ++ ps)) ≤ unmarked disk (is_listed ps)
  unfolding is_listed
  left_added ps [] = omega arith
  left_added ps (p ∷ more) =
      omega (arith, unmarked_fewer disk p (is_listed (more ++ ps)), left_added ps more)

  Grows-left : (s t : Parsing) → Grows s t → left t ≤ left s
  Grows-left s t g = rw g.is_added (left_added s.file_list g.added)

  -- A run that ends.
  abbrev Ends : Parsing → Option Parsing → Type 0
  Ends s r = (t : Parsing) × (r ≡ some t) × Grows s t

  Ends-trans : {s t : Parsing} {r : Option Parsing} → Grows s t → Ends t r → Ends s r
  Ends-trans g (u, e, h) = (u, e, Grows-trans g h)

  parse_actions-Ends :
      (inc : List ℕ → Parsing → Option Parsing) (s0 : Parsing)
      → ((name : List ℕ) (t : Parsing) → Grows s0 t → Ends t (inc name t))
      → (actions : List Action) (s : Parsing) → Grows s0 s
      → Ends s (parse_actions inc actions s)
  unfolding parse_actions
  parse_actions-Ends inc s0 h [] s g = (s, refl, Grows-refl s s refl refl)
  parse_actions-Ends inc s0 h (includes name ∷ rest) s g =
      let (t, e, k) = h name s g in
      let (u, e2, k2) = parse_actions-Ends inc s0 h rest t (Grows-trans g k) in
      (u, rw (parse_actions, e) e2, Grows-trans k k2)
  parse_actions-Ends inc s0 h (acts f ∷ rest) s g =
      let s1 = record s { root = (f s.root).0 } in
      let k = Grows-refl s s1 refl refl in
      if_both (Ends s) (f s.root).1
        (Ends-trans k (parse_actions-Ends inc s0 h rest s1 (Grows-trans g k))) (s1, refl, k)

  -- The state in which the parser starts on a file.
  unfoldable begun : List ℕ → Parsing → Parsing
  unfolding new_driver
  begun path s = let s1 = new_driver path s in record s1 { parsed = path ∷ s1.parsed }

  run_parser-begun :
      (inc : List ℕ → Parsing → Option Parsing) (path : List ℕ) (actions : List Action)
      (s : Parsing)
      → run_parser inc path actions (new_driver path s) ≡ parse_actions inc actions (begun path s)
  unfolding begun run_parser
  run_parser-begun inc path actions s = refl

  new_driver-Grows :
      (path : List ℕ) (s : Parsing) → is_listed s.file_list path ≡ false → Grows s (begun path s)
  unfolding begun new_driver IsDistinct
  new_driver-Grows path s n = record {
    added = path ∷ [];
    is_added = rw n refl;
    keeps = λ d. rw n (n, d);
    runs = λ h. rw n (ap (λ x. path ∷ x) h);
  }

  new_driver-left :
      (path : List ℕ) (actions : List Action) (s : Parsing)
      → lookup path disk ≡ some actions
      → is_listed s.file_list path ≡ false
      → left (begun path s) < left s
  unfolding begun new_driver is_listed
  new_driver-left path actions s e n =
      rw n (omega (arith, unmarked-update disk path actions (is_listed s.file_list) e n))

  include-Ends :
      (canonical : List ℕ → List ℕ → List ℕ) (fuel : ℕ) (from name : List ℕ) (s : Parsing)
      → left s < fuel
      → Ends s (include canonical disk fuel from name s)
  unfolding include append_error
  include-Ends canonical zero from name s l = absurd (omega (arith, l))
  include-Ends canonical (suc fuel) from name s l =
      let path = canonical from name in
      elim (Bool-cases (is_listed s.file_list path)) [
        | inl y ↦ (s, rw (include, y) refl, Grows-refl s s refl refl)
        | inr n ↦ elim (Option-cases (lookup path disk)) [
          | inl m ↦
              let s1 = record s { root = (append_error (not_opened path) s.root).0 } in
              (s1, rw (include, n, m) refl, Grows-refl s s1 refl refl)
          | inr (actions, e) ↦
              let s1 = begun path s in
              let (t, r, g) =
                parse_actions-Ends (include canonical disk fuel path) s1
                  (λ name' u k.
                    include-Ends canonical fuel path name' u
                      (omega (arith, Grows-left s1 u k, new_driver-left path actions s e n, l)))
                  actions s1 (Grows-refl s1 s1 refl refl) in
              (t, rw (include, n, e, run_parser-begun) r, Grows-trans (new_driver-Grows path s n) g)
        ]
      ]

-- A parse that returns has parsed no file twice; it does not run out of fuel.
pub ParsesOnce : Outcome Parsing → Type 0
ParsesOnce (ok t) = IsDistinct t.parsed
ParsesOnce (throw e) = (e ≡ io_exception) ⊎ (e ≡ error_parser_exception)
ParsesOnce undefined = ⊥
ParsesOnce out_of_fuel = ⊥

-- Parsing an IDL file ends on fuel of a unit for each file, also where files include each other: it
-- throws an IOException or an ErrorParserException, or it returns having run the parser on no file
-- twice, whatever the other actions of the parser do to the symbols and errors.
pub parse_file-ParsesOnce :
    (canonical : List ℕ → List ℕ → List ℕ) (disk : Dict (List ℕ) (List Action)) (path : List ℕ)
    → ParsesOnce (parse_file canonical disk path)
unfolding parse_file parse_end ParsesOnce IsDistinct
parse_file-ParsesOnce canonical disk path = elim (Option-cases (lookup path disk)) [
  | inl m ↦ rw (parse_file, m) (inl refl)
  | inr (actions, e) ↦
      let s1 = begun disk path unparsed in
      let (t, r, g) =
        parse_actions-Ends disk (include canonical disk (length disk) path) s1
          (λ name u k. include-Ends disk canonical (length disk) path name u (
            omega (
              arith,
              Grows-left disk s1 u k,
              new_driver-left disk path actions unparsed e refl,
              unmarked-length disk (is_listed []),
            )))
          actions s1 (Grows-refl s1 s1 refl refl) in
      let g1 = Grows-trans (new_driver-Grows disk path unparsed refl) g in
      rw (parse_file, e, run_parser-begun disk, r)
        (if_both ParsesOnce (is_empty t.root.errors) (rw (g1.runs refl) (g1.keeps tt)) (inr refl))
]
