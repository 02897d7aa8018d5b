-- ===== src/CliArguments/Kinds.antt =====
-- Parsing keeps every argument, its kind and the short tags (nodebus/core/cliarguments.cpp).
use jsonbus.Prelude.{
  ℕ, ◌≡◌, refl, ap, sym, ◌∙◌, Bool, true, List, [], ◌∷◌, Option, none, some, arith, Bool-cases,
  Option-cases, inl, inr,
}
use jsonbus.Dict.{nat_eq, text_eq, lookup, contains, lookup-insert, text_same_iff}
use jsonbus.Variant.{Variant, bool, string}
use jsonbus.CliArguments.{
  CliArguments, Element, Step, Turn, long_value, Patterns, is_string, set_value, long_argument,
  short_value, short_arguments, element_or_default, parse_turn, after_turn, parse_args, parse,
}
use jsonbus.CliArguments.Laws.{IsWired}

-- The argument takes a value: it holds a string.
abbrev pub takes_value : List ℕ → CliArguments → Bool
takes_value name args = is_string (element_or_default name args).value

-- `b` has the tags of `a`, and each argument of `a`, with its kind.
pub record Keeps (a b : CliArguments) : Type 0 where
  pub same_tags : b.short_tag_to_name ≡ a.short_tag_to_name
  pub same_kind :
      (name : List ℕ)
      → contains name a.arguments ≡ true
      → (contains name b.arguments ≡ true) × (takes_value name b ≡ takes_value name a)

Keeps-refl : (a : CliArguments) → Keeps a a
Keeps-refl a = record { same_tags = refl; same_kind = λ name h. (h, refl) }

Keeps-trans : {a b c : CliArguments} → Keeps a b → Keeps b c → Keeps a c
Keeps-trans h k = record {
  same_tags = k.same_tags ∙ h.same_tags;
  same_kind = λ name e.
      let (at_b, kind) = h.same_kind name e in
      let (at_c, kind') = k.same_kind name at_b in (at_c, kind' ∙ kind);
}

set_value-kind :
    (name other : List ℕ) (elt : Element) (v : Variant) (args : CliArguments)
    → is_string v ≡ takes_value name args
    → contains other args.arguments ≡ true
    → (contains other (set_value name elt v args).arguments ≡ true)
      × (takes_value other (set_value name elt v args) ≡ takes_value other args)
unfolding set_value contains element_or_default
set_value-kind name other elt v args e h = ground (
  arith,
  text_same_iff name other,
  lookup-insert other name (record elt { value = v }) args.arguments,
)

set_value-Keeps :
    (name : List ℕ) (elt : Element) (v : Variant) (args : CliArguments)
    → is_string v ≡ takes_value name args
    → Keeps args (set_value name elt v args)
set_value-Keeps name elt v args e = record {
  same_tags = unfold set_value in refl;
  same_kind = λ other h. set_value-kind name other elt v args e h;
}

short_value-Keeps :
    (name letters cap2 : List ℕ) (elt : Element) (next : Option (List ℕ)) (args : CliArguments)
    → takes_value name args ≡ true
    → Keeps args (short_value name elt letters cap2 next args).state
unfolding short_value is_string
short_value-Keeps name [] [] elt none args h = Keeps-refl args
short_value-Keeps name [] [] elt (some v) args h = set_value-Keeps name elt (string v) args (sym h)
short_value-Keeps name [] (c ∷ cap2) elt next args h =
    set_value-Keeps name elt (string (c ∷ cap2)) args (sym h)
short_value-Keeps name (l ∷ letters) cap2 elt next args h = Keeps-refl args

takes_value_at :
    (name : List ℕ) (elt : Element) (args : CliArguments)
    → lookup name args.arguments ≡ some elt
    → takes_value name args ≡ is_string elt.value
unfolding element_or_default
takes_value_at name elt args e = rw (takes_value, element_or_default, e)

long_value-Keeps :
    (name cap2 cap3 : List ℕ) (elt : Element) (next : Option (List ℕ)) (args : CliArguments)
    → takes_value name args ≡ true
    → Keeps args (long_value name elt cap2 cap3 next args).state
unfolding long_value is_string
long_value-Keeps name [] cap3 elt none args h = Keeps-refl args
long_value-Keeps name [] cap3 elt (some v) args h = set_value-Keeps name elt (string v) args (sym h)
long_value-Keeps name (_ ∷ _) cap3 elt next args h =
    set_value-Keeps name elt (string cap3) args (sym h)

long_argument-Keeps :
    (name cap2 cap3 : List ℕ) (next : Option (List ℕ)) (args : CliArguments)
    → Keeps args (long_argument name cap2 cap3 next args).state
unfolding long_argument is_string
long_argument-Keeps name cap2 cap3 next args = elim (Option-cases (lookup name args.arguments)) [
  | inl e ↦ rw (long_argument, e) (Keeps-refl args)
  | inr (elt, e) ↦
      let k = takes_value_at name elt args e in
      elim (Bool-cases (is_string elt.value)) [
        | inl t ↦ rw (long_argument, e, t) (long_value-Keeps name cap2 cap3 elt next args (k ∙ t))
        | inr f ↦ rw (long_argument, e, f) (set_value-Keeps name elt (bool true) args (sym (k ∙ f)))
      ]
]

short_arguments-Keeps :
    (letters cap2 : List ℕ) (next : Option (List ℕ)) (args : CliArguments)
    → Keeps args (short_arguments letters cap2 next args).state
unfolding short_arguments
short_arguments-Keeps [] cap2 next args = Keeps-refl args
short_arguments-Keeps (letter ∷ letters) cap2 next args =
    elim (Option-cases (lookup letter args.short_tag_to_name)) [
      | inl e ↦ rw (short_arguments, e) (Keeps-refl args)
      | inr (name, e) ↦
          let elt = element_or_default name args in
          elim (Bool-cases (is_string elt.value)) [
            | inl t ↦
                rw (short_arguments, e, t) (short_value-Keeps name letters cap2 elt next args t)
            | inr f ↦
                rw (short_arguments, e, f)
                  (Keeps-trans (set_value-Keeps name elt (bool true) args (sym f))
                    (short_arguments-Keeps letters cap2 next (set_value name elt (bool true) args)))
          ]
    ]

parse_turn-Keeps :
    (p : Patterns) (arg : List ℕ) (next : Option (List ℕ)) (args : CliArguments)
    → Keeps args (parse_turn p arg next args).state
unfolding parse_turn
parse_turn-Keeps p arg next args = elim (Option-cases (p.long arg)) [
  | inr ((name, cap2, cap3), e) ↦ rw (parse_turn, e) (long_argument-Keeps name cap2 cap3 next args)
  | inl e ↦ elim (Option-cases (p.short arg)) [
    | inr ((letters, cap2), f) ↦
        rw (parse_turn, e, f) (short_arguments-Keeps letters cap2 next args)
    | inl f ↦ rw (parse_turn, e, f) (record { same_tags = refl; same_kind = λ name h. (h, refl) })
  ]
]

after_turn-Keeps :
    (args : CliArguments) (turn : Turn) (skip go : CliArguments → Step)
    → Keeps args turn.state
    → ((a : CliArguments) → Keeps a (skip a).0)
    → ((a : CliArguments) → Keeps a (go a).0)
    → Keeps args (after_turn turn skip go).0
unfolding after_turn
after_turn-Keeps args turn skip go h s g = elim (Option-cases turn.thrown) [
  | inr (e, t) ↦ rw t h
  | inl t ↦ elim (Bool-cases turn.took_next) [
    | inl b ↦ rw (t, b) (Keeps-trans h (s turn.state))
    | inr b ↦ rw (t, b) (Keeps-trans h (g turn.state))
  ]
]

parse_args-Keeps :
    (p : Patterns) (arg_list : List (List ℕ)) (args : CliArguments)
    → Keeps args (parse_args p arg_list args).0
unfolding parse_args
parse_args-Keeps p [] args = Keeps-refl args
parse_args-Keeps p (arg ∷ []) args =
    after_turn-Keeps args (parse_turn p arg none args) (λ a. (a, none)) (λ a. (a, none))
      (parse_turn-Keeps p arg none args) Keeps-refl Keeps-refl
parse_args-Keeps p (arg ∷ next ∷ rest) args =
    after_turn-Keeps args (parse_turn p arg (some next) args) (parse_args p rest)
      (parse_args p (next ∷ rest)) (parse_turn-Keeps p arg (some next) args)
      (parse_args-Keeps p rest) (parse_args-Keeps p (next ∷ rest))

-- Whatever the command line, and also when `parse` throws, every defined argument stays defined, one
-- that takes a value goes on holding a string and one that does not goes on holding no string, and the
-- short tags are the same.
pub parse-Keeps :
    (p : Patterns) (arg_list : List (List ℕ)) (args : CliArguments)
    → Keeps args (parse p arg_list args).0
unfolding parse
parse-Keeps p [] args = Keeps-refl args
parse-Keeps p (program ∷ arg_list) args = parse_args-Keeps p arg_list args

-- Parsing keeps every short tag on a defined argument, also when it throws.
pub parse-IsWired :
    (p : Patterns) (arg_list : List (List ℕ)) (args : CliArguments)
    → IsWired args
    → IsWired (parse p arg_list args).0
parse-IsWired p arg_list args h tag name e =
    let k = parse-Keeps p arg_list args in
    (k.same_kind name (h tag name (sym (ap (λ d. lookup tag d) k.same_tags) ∙ e))).0
