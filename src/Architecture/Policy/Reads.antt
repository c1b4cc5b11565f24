-- ===== src/Architecture/Policy/Reads.antt =====
-- scripts/check_architecture.py: the first loop of `load_rules`.
use portfolio_manager.Architecture.{ModuleRule}
use portfolio_manager.Architecture.Policy.{
  Loading, RawRule, add_rule, is_absolute, or_empty, path_eq, path_parts, required,
}
use portfolio_manager.Base.{
  >>=-eq-ok, List, Option, Text, [], arith, bad_text, codes, contains, false, map, none, ok,
  raise_if, refl, set_of, some, text_eq, true, ◌++◌, ◌||◌, ◌↔◌, ◌∷◌, ◌≡◌, raise_if-ok, or-false,
}
use portfolio_manager.Base.Texts.Strip.{text_eq_iff}
use mathlib.Core.List.{append-nil, append_assoc}

-- The rules are what the tables say, one after another.
abbrev pub Reads : List (Text × RawRule) → List ModuleRule → Type 0
Reads [] [] = Unit
Reads [] (r ∷ rs) = ⊥
Reads ((name, raw_rule) ∷ ms) [] = ⊥
Reads ((name, raw_rule) ∷ ms) (r ∷ rs) =
    ((text : Text) × (raw_rule.path ≡ some text)
      × (raw_rule.import_prefix ≡ some r.import_prefix)
      × (is_absolute text ≡ false)
      × (r.name ≡ name)
      × (r.path ≡ path_parts text)
      × (r.may_import ≡ set_of text_eq (or_empty raw_rule.may_import)))
    × Reads ms rs

abbrev pub IsSafe : ModuleRule → Type 0
IsSafe r = contains text_eq (codes "..") r.path ≡ false

pub path_eq_iff : (p q : List Text) → (path_eq p q ≡ true) ↔ (p ≡ q)
unfolding path_eq
path_eq_iff [] [] = (λ h. refl, λ h. refl)
path_eq_iff [] (y ∷ ys) = (λ h. cc, λ h. cc)
path_eq_iff (x ∷ xs) [] = (λ h. cc, λ h. cc)
path_eq_iff (x ∷ xs) (y ∷ ys) = ground (arith, path_eq_iff xs ys, text_eq_iff x y)

abbrev pub paths : List ModuleRule → List (List Text)
paths rs = map (λ r. r.path) rs

abbrev pub prefixes : List ModuleRule → List Text
prefixes rs = map (λ r. r.import_prefix) rs

abbrev pub extend : Loading → List ModuleRule → Loading
extend l rs = record {
  rules = l.rules ++ rs;
  paths = l.paths ++ map (λ r. r.path) rs;
  prefixes = l.prefixes ++ map (λ r. r.import_prefix) rs;
}

-- What one table adds.
pub record Added (name : Text) (raw_rule : RawRule) (l l' : Loading) : Type 0 where
  pub rule : ModuleRule
  pub text : Text
  pub of_path : raw_rule.path ≡ some text
  pub of_prefix : raw_rule.import_prefix ≡ some rule.import_prefix
  pub relative : is_absolute text ≡ false
  pub of_name : rule.name ≡ name
  pub parts : rule.path ≡ path_parts text
  pub of_imports : rule.may_import ≡ set_of text_eq (or_empty raw_rule.may_import)
  pub safe : IsSafe rule
  pub new_path : contains path_eq rule.path l.paths ≡ false
  pub new_prefix : contains text_eq rule.import_prefix l.prefixes ≡ false
  pub extended : l' ≡ extend l (rule ∷ [])

required-ok : {A : Type 0} (o : Option A) (a : A) → required o ≡ ok a → o ≡ some a
required-ok none a h = cc
required-ok (some x) a h = cc

pub add_rule-Added :
    (name : Text) (raw_rule : RawRule) (l l' : Loading)
    → add_rule name raw_rule l ≡ ok l'
    → Added name raw_rule l l'
unfolding add_rule
add_rule-Added name raw_rule l l' h =
    let (text, p, k) = >>=-eq-ok (required raw_rule.path) _ h in
    let (prefix, q, k1) = >>=-eq-ok (required raw_rule.import_prefix) _ k in
    let (_, a, k2) =
      >>=-eq-ok
        (raise_if (is_absolute text || contains text_eq (codes "..") (path_parts text))
          (bad_text "module has an unsafe path" name))
        _ k1 in
    let (_, b, k3) =
      >>=-eq-ok
        (raise_if (contains path_eq (path_parts text) l.paths)
          (bad_text "module path is declared more than once" text))
        _ k2 in
    let (_, c, k4) =
      >>=-eq-ok
        (raise_if (contains text_eq prefix l.prefixes)
          (bad_text "import prefix is declared more than once" prefix))
        _ k3 in
    let (relative, safe) = or-false _ _ (raise_if-ok _ _ a) in
    record {
      rule = record {
        name = name;
        path = path_parts text;
        import_prefix = prefix;
        may_import = set_of text_eq (or_empty raw_rule.may_import);
      };
      text = text;
      of_path = required-ok raw_rule.path text p;
      of_prefix = required-ok raw_rule.import_prefix prefix q;
      relative = relative;
      of_name = refl;
      parts = refl;
      of_imports = refl;
      safe = safe;
      new_path = raise_if-ok _ _ b;
      new_prefix = raise_if-ok _ _ c;
      extended = cc;
    }

pub add_rule-ok :
    (name : Text) (raw_rule : RawRule) (l l' : Loading)
    → Added name raw_rule l l'
    → add_rule name raw_rule l ≡ ok l'
unfolding add_rule
add_rule-ok name raw_rule l l' a =
    rw
      (
        a.of_path,
        a.of_prefix,
        a.relative,
        ← a.parts,
        a.safe,
        a.new_path,
        a.new_prefix,
        ← a.of_imports,
        ← a.of_name,
        a.extended,
      )
      refl

pub extend-nil : (l : Loading) → extend l [] ≡ l
extend-nil l = rw (append-nil l.rules, append-nil l.paths, append-nil l.prefixes) refl

pub extend-cons :
    (l : Loading) (r : ModuleRule) (rs : List ModuleRule)
    → extend (extend l (r ∷ [])) rs ≡ extend l (r ∷ rs)
extend-cons l r rs =
    rw
      (
        append_assoc l.rules (r ∷ []) rs,
        append_assoc l.paths (r.path ∷ []) (paths rs),
        append_assoc l.prefixes (r.import_prefix ∷ []) (prefixes rs),
      )
      refl
