-- ===== src/Settings.antt =====
-- nodebus/core/settings.cpp: parameters with a default value over the stored settings, which QSettings
-- keeps. The list of parameters is that of a QMap, in the order of its keys. The prompts are left out.
use jsonbus.Prelude.{
  ℕ, ◌≡◌, refl, false, not, List, [], ◌∷◌, Option, none, some, if◌then◌else◌, is_empty, Exception,
  settings_exception, Bool-cases, inl, inr, ◌&&◌,
}
use jsonbus.Dict.{text_eq, text_same, Dict, lookup, insert, contains, lookup-insert}
use jsonbus.Variant.{Variant, string, key_lt}

pub record Element : Type 0 where
  pub description : List ℕ
  pub default_value : Variant

pub record Settings : Type 0 where
  pub parameters : Dict (List ℕ) Element
  pub values : Dict (List ℕ) Variant

-- `m_parameters.insert` of a new key, at its place.
unfoldable pub insert_new : List ℕ → Element → Dict (List ℕ) Element → Dict (List ℕ) Element
unfolding key_lt
insert_new k x [] = (k, x) ∷ []
insert_new k x ((j, y) ∷ d) = if key_lt k j then (k, x) ∷ (j, y) ∷ d else (j, y) ∷ insert_new k x d

-- `QSettings::setValue`
unfoldable pub set_value : List ℕ → Variant → Settings → Settings
set_value name v s = record s { values = insert name v s.values }

-- `define`
unfoldable pub define : List ℕ → List ℕ → Variant → Settings → Settings × Option Exception
unfolding insert_new set_value contains
define name description default_value s =
    if contains name s.parameters
    then (s, some settings_exception)
    else let s1 = record s {
      parameters =
          insert_new name (record { description = description; default_value = default_value })
            s.parameters;
    } in
      (if contains name s1.values then s1 else set_value name default_value s1, none)

-- The loop of `setup`: a line of the input for each parameter, empty where the input has ended.
unfoldable pub setup_values : Dict (List ℕ) Element → List (List ℕ) → Settings → Settings
unfolding set_value
setup_values [] lines s = s
setup_values (p ∷ ps) [] s = setup_values ps [] s
setup_values ((name, x) ∷ ps) (line ∷ lines) s =
    setup_values ps lines (if is_empty line then s else set_value name (string line) s)

-- `setup`
unfoldable pub setup : List (List ℕ) → Settings → Settings
unfolding setup_values
setup lines s = setup_values s.parameters lines s

-- A parameter that is defined has its stored value, or the default if there is none; no other value
-- changes.
pub lookup-define :
    (name j description : List ℕ) (v : Variant) (s : Settings)
    → contains name s.parameters ≡ false
    → lookup j (define name description v s).0.values
      ≡ (if not (contains name s.values) && text_same name j then some v else lookup j s.values)
unfolding define set_value
lookup-define name j description v s h = elim (Bool-cases (contains name s.values)) [
  | inl y ↦ rw (define, h, y) refl
  | inr n ↦ rw (define, h, n, set_value) (lookup-insert j name v s.values)
]
