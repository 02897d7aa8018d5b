-- ===== src/Idlc/Termination.antt =====
-- `IDLc::processIntf` (nodebus/idlc/idlc.cpp) ends on every graph of interfaces: the marks cut cycles.
use jsonbus.Prelude.{
  ℕ, zero, suc, ◌<◌, ◌≡◌, refl, sym, ap, ◌∙◌, true, false, List, [], ◌∷◌, Option, some, length,
  arith, Bool-cases, Option-cases, inl, inr,
}
use jsonbus.Dict.{text_eq, text_same, text_same_iff, Dict, lookup, insert, contains}
use jsonbus.Idlc.{
  Name, Intf, LinkError, undefined_member, conflict, cyclic, undefined_symbol, Linker, report,
  update, own_symbols, ancestor_symbols, members_of, all_symbols, complete, inherit,
  process_parents, process_new, process_intf, process_all, link, link_elements,
}
use jsonbus.Idlc.Marks.{unmarked, unmarked-ext, unmarked-update, unmarked-length}

-- A step that leaves the table and the marks.
pub record Kept (s s1 : Linker) : Type 0 where
  pub same_table : s1.sym_tbl ≡ s.sym_tbl
  pub same_mark : (n : Name) → s1.mark n ≡ s.mark n

Kept-trans : {s s1 s2 : Linker} → Kept s s1 → Kept s1 s2 → Kept s s2
Kept-trans a b = record {
  same_table = b.same_table ∙ a.same_table;
  same_mark = λ n. b.same_mark n ∙ a.same_mark n;
}

Kept-refl : (s : Linker) → Kept s s
Kept-refl s = record { same_table = refl; same_mark = λ n. refl }

report-Kept : (e : LinkError) (s : Linker) → Kept s (report e s)
unfolding report
report-Kept e s = record { same_table = refl; same_mark = λ n. refl }

inherit-Kept : (n p : Name) (s : Linker) → Kept s (inherit n p s)
unfolding inherit
inherit-Kept n p s = record { same_table = refl; same_mark = λ n. refl }

own_symbols-Kept :
    (name : Name) (ms : List Name) (d : Dict Name Name) (s : Linker)
    → Kept s (own_symbols name ms d s).1
unfolding own_symbols
own_symbols-Kept name [] d s = Kept-refl s
own_symbols-Kept name (m ∷ ms) d s = elim (Bool-cases (contains m d)) [
  | inl y ↦
      rw (own_symbols, y)
        (Kept-trans (report-Kept (undefined_member name m) s)
          (own_symbols-Kept name ms d (report (undefined_member name m) s)))
  | inr n ↦ rw (own_symbols, n) (own_symbols-Kept name ms (insert m name d) s)
]

ancestor_symbols-Kept :
    (name a : Name) (ms : List Name) (d : Dict Name Name) (s : Linker)
    → Kept s (ancestor_symbols name a ms d s).1
unfolding ancestor_symbols
ancestor_symbols-Kept name a [] d s = Kept-refl s
ancestor_symbols-Kept name a (m ∷ ms) d s = elim (Option-cases (lookup m d)) [
  | inl n ↦ rw (ancestor_symbols, n) (ancestor_symbols-Kept name a ms (insert m a d) s)
  | inr (o, y) ↦
      rw (ancestor_symbols, y)
        (Kept-trans (report-Kept (conflict name o a m) s)
          (ancestor_symbols-Kept name a ms d (report (conflict name o a m) s)))
]

all_symbols-Kept :
    (name : Name) (as' : List Name) (d : Dict Name Name) (s : Linker)
    → Kept s (all_symbols name as' d s)
unfolding all_symbols
all_symbols-Kept name [] d s = Kept-refl s
all_symbols-Kept name (a ∷ as') d s =
    let r = ancestor_symbols name a (members_of a s) d s in
    Kept-trans (ancestor_symbols-Kept name a (members_of a s) d s)
      (all_symbols-Kept name as' r.0 r.1)

-- A run that ends and leaves the table and the marks.
abbrev pub Ends : Linker → Option Linker → Type 0
Ends s r = (s1 : Linker) × (r ≡ some s1) × Kept s s1

process_parents-Ends :
    (process : Name → Linker → Option Linker) (s0 : Linker)
    → ((p : Name) (s : Linker) → Kept s0 s → Ends s (process p s))
    → (name : Name) (ps : List Name) (s : Linker) → Kept s0 s
    → Ends s (process_parents process name ps s)
unfolding process_parents
process_parents-Ends process s0 h name [] s k = (s, refl, Kept-refl s)
process_parents-Ends process s0 h name (p ∷ ps) s k = elim (Bool-cases (contains p s.sym_tbl)) [
  | inl y ↦
      let (s1, e, k1) = h p s k in
      let k2 : Kept s (inherit name p s1) = Kept-trans k1 (inherit-Kept name p s1) in
      let (s2, e2, k3) =
        process_parents-Ends process s0 h name ps (inherit name p s1) (Kept-trans k k2) in
      (s2, rw (process_parents, y, e) e2, Kept-trans k2 k3)
  | inr n ↦
      let k2 = report-Kept (undefined_symbol p) s in
      let (s2, e2, k3) =
        process_parents-Ends process s0 h name ps (report (undefined_symbol p) s)
          (Kept-trans k k2) in
      (s2, rw (process_parents, n) e2, Kept-trans k2 k3)
]

complete-table :
    (name : Name) (ms : List Name) (s : Linker) → (complete name ms s).sym_tbl ≡ s.sym_tbl
unfolding complete
complete-table name ms s =
    let s0 = record s { mark = update name false s.mark } in
    let r = own_symbols name ms [] s0 in
    (all_symbols-Kept name (r.1.ancestors name) r.0 r.1).same_table
    ∙ (own_symbols-Kept name ms [] s0).same_table

complete-mark :
    (name : Name) (ms : List Name) (s : Linker) (n : Name)
    → (complete name ms s).mark n ≡ update name false s.mark n
unfolding complete
complete-mark name ms s n =
    let s0 = record s { mark = update name false s.mark } in
    let r = own_symbols name ms [] s0 in
    (all_symbols-Kept name (r.1.ancestors name) r.0 r.1).same_mark n
    ∙ (own_symbols-Kept name ms [] s0).same_mark n

restored :
    (name n : Name) (s s1 : Linker)
    → s.mark name ≡ false
    → s1.mark n ≡ update name true s.mark n
    → update name false s1.mark n ≡ s.mark n
restored name n s s1 u e = elim (Bool-cases (text_same name n)) [
  | inl y ↦ let m : name ≡ n = (text_same_iff name n).0 y in rw y (sym (ap s.mark (sym m) ∙ u))
  | inr x ↦ simp x (e ∙ simp x refl)
]

process_new-Ends :
    (process : Name → Linker → Option Linker) (name : Name) (i : Intf) (s : Linker)
    → s.mark name ≡ false
    → ((p : Name) (t : Linker)
        → Kept (record s { mark = update name true s.mark }) t
        → Ends t (process p t))
    → Ends s (process_new process name i s)
unfolding process_new
process_new-Ends process name i s u h =
    let s0 = record s { mark = update name true s.mark } in
    let (s1, e, k) = process_parents-Ends process s0 h name i.parents s0 (Kept-refl s0) in
    (
      complete name i.members s1,
      rw (process_new, e) refl,
      record {
        same_table = complete-table name i.members s1 ∙ k.same_table;
        same_mark = λ n. complete-mark name i.members s1 n ∙ restored name n s s1 u (k.same_mark n);
      },
    )

fewer :
    (name : Name) (i : Intf) (s t : Linker) (fuel : ℕ)
    → lookup name s.sym_tbl ≡ some i
    → s.mark name ≡ false
    → Kept (record s { mark = update name true s.mark }) t
    → unmarked s.sym_tbl s.mark < suc fuel
    → unmarked t.sym_tbl t.mark < fuel
fewer name i s t fuel e u k l =
    let a : unmarked t.sym_tbl t.mark ≡ unmarked s.sym_tbl (update name true s.mark) =
      ap (λ d. unmarked d t.mark) k.same_table
      ∙ unmarked-ext s.sym_tbl (update name true s.mark) t.mark k.same_mark in
    omega (arith, a, unmarked-update s.sym_tbl name i s.mark e u, l)

process_intf-Ends :
    (fuel : ℕ) (name : Name) (s : Linker)
    → unmarked s.sym_tbl s.mark < fuel
    → Ends s (process_intf fuel name s)
unfolding process_intf
process_intf-Ends zero name s l = absurd (omega (arith, l))
process_intf-Ends (suc fuel) name s l = elim (Option-cases (lookup name s.sym_tbl)) [
  | inl n ↦ (s, rw (process_intf, n) refl, Kept-refl s)
  | inr (i, e) ↦ elim (Bool-cases (s.mark name)) [
    | inl y ↦ (report (cyclic name) s, rw (process_intf, e, y) refl, report-Kept (cyclic name) s)
    | inr u ↦ elim (Bool-cases (s.completed name)) [
      | inl y ↦ (s, rw (process_intf, e, u, y) refl, Kept-refl s)
      | inr m ↦
          let (s1, r, k) =
            process_new-Ends (process_intf fuel) name i s u
              (λ p t k. process_intf-Ends fuel p t (fewer name i s t fuel e u k l)) in
          (s1, rw (process_intf, e, u, m) r, k)
    ]
  ]
]

process_all-Ends :
    (names : List Name) (s : Linker) (fuel : ℕ)
    → length s.sym_tbl < fuel
    → Ends s (process_all fuel names s)
unfolding process_all
process_all-Ends [] s fuel l = (s, refl, Kept-refl s)
process_all-Ends (n ∷ names) s fuel l =
    let (s1, e, k) =
      process_intf-Ends fuel n s (omega (arith, unmarked-length s.sym_tbl s.mark, l)) in
    let (s2, e2, k2) = process_all-Ends names s1 fuel (rw k.same_table l) in
    (s2, rw (process_all, e) e2, Kept-trans k k2)

-- Linking any interfaces ends, cyclic inheritance included, on one unit of fuel for each interface
-- and one, and leaves the table and the marks as the first loop of link left them.
pub link-Ends :
    (elements : List (Name × Intf)) (s : Linker)
    → Ends (link_elements elements [] s).1 (link elements s)
unfolding link
link-Ends elements s =
    let r = link_elements elements [] s in
    process_all-Ends r.0 r.1 (suc (length r.1.sym_tbl)) (omega arith)
