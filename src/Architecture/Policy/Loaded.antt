-- ===== src/Architecture/Policy/Loaded.antt =====
-- scripts/check_architecture.py: the policies that `load_rules` accepts.
use portfolio_manager.Architecture.{ModuleRule, names}
use portfolio_manager.Architecture.Policy.{
  Config, RawRule, Loading, add_rules, check_rules, is_version_one, load_rules, or_empty, path_eq,
}
use portfolio_manager.Architecture.Policy.Reads.{IsSafe, Reads, extend}
use portfolio_manager.Architecture.Policy.Checked.{IsChecked, IsChecked-IsClosed, check_rules_iff}
use portfolio_manager.Architecture.Cycles.{detect_cycles}
use portfolio_manager.Architecture.Cycles.Frames.{detect_cycles_iff}
use portfolio_manager.Architecture.Cycles.Graph.{IsAcyclic}
use portfolio_manager.Architecture.Cycles.Sound.{detect_cycles-IsAcyclic}
use portfolio_manager.Base.{
  ==_iff, >>=-eq-ok, All, Among, List, Option, Text, [], ap, arith, distinct, false, is_empty,
  length, map, negsuc, none, not, not-false, ok, ok-injective, pos, raise_if, raise_if-ok, refl,
  some, text_eq, true, value_error, ℕ, ℤ, ◌<◌, ◌↔◌, ◌∷◌, ◌≡◌,
}
use portfolio_manager.Architecture.Policy.Tables.{
  IsDistinct, Loads, Loads-add_rules, add_rules-Loads,
}

-- The rules that a policy file gives.
pub record IsPolicy (config : Config) (rules : List ModuleRule) : Type 0 where
  pub version : config.version ≡ some (pos 1)
  pub some_module : is_empty (or_empty config.modules) ≡ false
  pub reads : Reads (or_empty config.modules) rules
  pub safe : All IsSafe rules
  pub distinct_paths : distinct path_eq (map (λ r. r.path) rules) ≡ true
  pub distinct_prefixes : distinct text_eq (map (λ r. r.import_prefix) rules) ≡ true
  pub checked : (r : ModuleRule) → Among r rules → IsChecked rules r
  pub acyclic : IsAcyclic rules

is_version_one_iff : (v : Option ℤ) → (is_version_one v ≡ true) ↔ (v ≡ some (pos 1))
is_version_one_iff none = (λ h. cc, λ h. cc)
is_version_one_iff (some (negsuc n)) = (λ h. cc, λ h. cc)
is_version_one_iff (some (pos n)) = (
  λ h. ap (λ (k : ℕ). some (pos k)) ((==_iff n 1).0 h),
  λ h. let e : n ≡ 1 = cc in (==_iff n 1).1 e,
)

abbrev pub unread : Loading
unread = record { rules = []; paths = []; prefixes = [] }

length-Reads :
    (ms : List (Text × RawRule)) (rs : List ModuleRule)
    → Reads ms rs
    → length (names rs) ≡ length ms
length-Reads [] [] h = refl
length-Reads [] (r ∷ rs) h = absurd h
length-Reads ((name, raw_rule) ∷ ms) [] h = absurd h
length-Reads ((name, raw_rule) ∷ ms) (r ∷ rs) h = omega (arith, length-Reads ms rs h.1)

unread-IsDistinct : IsDistinct unread
unfolding distinct
unread-IsDistinct = record { distinct_paths = refl; distinct_prefixes = refl }

pub length-add_rules :
    (ms : List (Text × RawRule)) (l : Loading)
    → add_rules ms unread ≡ ok l
    → length (names l.rules) ≡ length ms
length-add_rules ms l h =
    let (rs, s) = add_rules-Loads ms unread l unread-IsDistinct h in
    rw s.extended (length-Reads ms rs s.reads)

IsPolicy-Loads :
    (config : Config) (rules : List ModuleRule)
    → IsPolicy config rules
    → Loads (or_empty config.modules) unread (extend unread rules) rules
IsPolicy-Loads config rules p = record {
  reads = p.reads;
  safe = p.safe;
  extended = refl;
  distinct_rules = record {
    distinct_paths = p.distinct_paths;
    distinct_prefixes = p.distinct_prefixes;
  };
}

load_rules-IsPolicy :
    (frames : ℕ) (config : Config) (rules : List ModuleRule)
    → length (or_empty config.modules) < frames
    → load_rules frames config ≡ ok rules
    → IsPolicy config rules
unfolding load_rules
load_rules-IsPolicy frames config rules enough h =
    let (_, a, h1) =
      >>=-eq-ok
        (raise_if (not (is_version_one config.version))
          (value_error "architecture.toml must declare version = 1"))
        _ h in
    let (_, b, h2) =
      >>=-eq-ok
        (raise_if (is_empty (or_empty config.modules))
          (value_error "architecture.toml must define at least one module"))
        _ h1 in
    let (l, c, h3) = >>=-eq-ok (add_rules (or_empty config.modules) unread) _ h2 in
    let (_, d, h4) = >>=-eq-ok (check_rules l.rules l.rules) _ h3 in
    let (_, e, h5) = >>=-eq-ok (detect_cycles l.rules frames) _ h4 in
    let (rs, s) = add_rules-Loads (or_empty config.modules) unread l unread-IsDistinct c in
    let same : l.rules ≡ rules = ok-injective h5 in
    let all : rs ≡ rules = cc (ap (λ (x : Loading). x.rules) s.extended, same) in
    let checked = (check_rules_iff l.rules l.rules).0 d in
    record {
      version = (is_version_one_iff config.version).0 (not-false _ (raise_if-ok _ _ a));
      some_module = raise_if-ok _ _ b;
      reads = rw all at s.reads;
      safe = rw all at s.safe;
      distinct_paths = rw (s.extended, all) at s.distinct_rules.distinct_paths;
      distinct_prefixes = rw (s.extended, all) at s.distinct_rules.distinct_prefixes;
      checked = rw same at checked;
      acyclic = rw same at (detect_cycles-IsAcyclic l.rules frames e);
    }

-- With more frames than the policy file has modules, `load_rules` gives the rules exactly if the file
-- declares version 1 and at least one module, its tables say these rules one after another, each directory is relative
-- and does not go up, no directory and no prefix comes twice, each rule lists other modules of the
-- file alone, and no chain of imports leads from a module to itself.
pub load_rules_iff :
    (frames : ℕ) (config : Config) (rules : List ModuleRule)
    → length (or_empty config.modules) < frames
    → (load_rules frames config ≡ ok rules) ↔ IsPolicy config rules
unfolding load_rules
load_rules_iff frames config rules enough = (
  load_rules-IsPolicy frames config rules enough,
  λ p.
      let loaded =
        Loads-add_rules (or_empty config.modules) unread (extend unread rules) rules
          (IsPolicy-Loads config rules p) in
      let closed = IsChecked-IsClosed rules p.checked in
      let fits : length (names rules) < frames =
        omega (arith, length-Reads (or_empty config.modules) rules p.reads, enough) in
      rw
        (
          (is_version_one_iff config.version).1 p.version,
          p.some_module,
          loaded,
          (check_rules_iff rules rules).1 p.checked,
          (detect_cycles_iff rules closed frames fits).1 p.acyclic,
        )
        refl,
)
