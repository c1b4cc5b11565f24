-- ===== src/Architecture/Policy.antt =====
-- scripts/check_architecture.py: `load_rules`, from what tomllib makes of the policy file. Values of
-- another type than the program expects are not modelled, nor are those that it does not read.
pub mod Reads
pub mod Tables
pub mod Checked
pub mod Loaded
use portfolio_manager.Architecture.{ModuleRule, names}
use portfolio_manager.Architecture.Cycles.{detect_cycles}
use portfolio_manager.Base.{
  Bool, List, Option, Result, Text, [], bad_text, codes, contains, err, false, if◌then◌else◌,
  is_empty, key_error, none, not, ok, pos, raise_if, set_of, some, sorted_texts, text_eq, true,
  unknown_modules, value_error, ℕ, ℤ, ◌&&◌, ◌++◌, ◌==◌, ◌>>=◌, ◌>>◌, ◌||◌, ◌∷◌,
}

-- A module's table; a key that is not there is `none`.
pub record RawRule : Type 0 where
  pub path : Option Text
  pub import_prefix : Option Text
  pub may_import : Option (List Text)

-- The file: `version`, if it is an integer, and the tables of `modules`, if that is a table.
pub record Config : Type 0 where
  pub version : Option ℤ
  pub modules : Option (List (Text × RawRule))

-- The parts of a path between its slashes, as pathlib reads it: no part is empty or a dot.
unfoldable pub cut_slashes : Text → Text → List Text
cut_slashes part [] = part ∷ []
cut_slashes part (c ∷ s) =
    let rest = cut_slashes (if c == b'/' then [] else part ++ c ∷ []) s in
    if c == b'/' then part ∷ rest else rest

abbrev pub is_part : Text → Bool
is_part s = not (is_empty s) && not (text_eq s (codes "."))

unfoldable pub keep : (Text → Bool) → List Text → List Text
keep p [] = []
keep p (x ∷ xs) = let rest = keep p xs in if p x then x ∷ rest else rest

-- `Path(text).parts` of a path that is not absolute, and `Path(text).is_absolute()`.
unfoldable pub path_parts : Text → List Text
unfolding cut_slashes keep
path_parts s = keep is_part (cut_slashes [] s)

abbrev pub is_absolute : Text → Bool
is_absolute [] = false
is_absolute (c ∷ s) = c == b'/'

-- `==` of two such paths.
unfoldable pub path_eq : List Text → List Text → Bool
path_eq [] [] = true
path_eq [] (y ∷ ys) = false
path_eq (x ∷ xs) [] = false
path_eq (x ∷ xs) (y ∷ ys) = text_eq x y && path_eq xs ys

-- `table[key]`
abbrev pub required {ℓ} : {A : Type ℓ} → Option A → Result A
required none = err key_error
required (some a) = ok a

-- `table.get(key, [])`
abbrev pub or_empty {ℓ} : {A : Type ℓ} → Option (List A) → List A
or_empty none = []
or_empty (some xs) = xs

-- The variables of the first loop.
pub record Loading : Type 0 where
  pub rules : List ModuleRule
  pub paths : List (List Text)
  pub prefixes : List Text

unfoldable pub add_rule : Text → RawRule → Loading → Result Loading
add_rule name raw_rule loading = do
  text ← required raw_rule.path
  prefix ← required raw_rule.import_prefix
  let path = path_parts text
  raise_if (is_absolute text || contains text_eq (codes "..") path)
      (bad_text "module has an unsafe path" name)
  raise_if (contains path_eq path loading.paths)
      (bad_text "module path is declared more than once" text)
  raise_if (contains text_eq prefix loading.prefixes)
      (bad_text "import prefix is declared more than once" prefix)
  ok (record {
    rules =
        loading.rules
        ++ record {
          name = name;
          path = path;
          import_prefix = prefix;
          may_import = set_of text_eq (or_empty raw_rule.may_import);
        }
          ∷ [];
    paths = loading.paths ++ path ∷ [];
    prefixes = loading.prefixes ++ prefix ∷ [];
  })

unfoldable pub add_rules : List (Text × RawRule) → Loading → Result Loading
add_rules [] loading = ok loading
add_rules ((name, raw_rule) ∷ modules) loading = do
  loading' ← add_rule name raw_rule loading
  add_rules modules loading'

-- The body of the second loop.
unfoldable pub check_rule : List ModuleRule → ModuleRule → Result (Unit {0})
check_rule rules rule = do
  let unknown = keep (λ n. not (contains text_eq n (names rules))) rule.may_import
  raise_if (not (is_empty unknown)) (unknown_modules rule.name (sorted_texts unknown))
  raise_if (contains text_eq rule.name rule.may_import)
      (bad_text "module cannot list itself in may_import" rule.name)

unfoldable pub check_rules : List ModuleRule → List ModuleRule → Result (Unit {0})
check_rules rules [] = ok tt
check_rules rules (rule ∷ rest) = do check_rule rules rule; check_rules rules rest

abbrev pub is_version_one : Option ℤ → Bool
is_version_one (some (pos n)) = n == 1
is_version_one _ = false

-- `frames` is what Python's recursion limit leaves to `detect_cycles`.
unfoldable pub load_rules : ℕ → Config → Result (List ModuleRule)
load_rules frames config = do
  raise_if (not (is_version_one config.version))
      (value_error "architecture.toml must declare version = 1")
  let modules = or_empty config.modules
  raise_if (is_empty modules) (value_error "architecture.toml must define at least one module")
  loading ← add_rules modules (record { rules = []; paths = []; prefixes = [] })
  check_rules loading.rules loading.rules
  detect_cycles loading.rules frames
  ok loading.rules
