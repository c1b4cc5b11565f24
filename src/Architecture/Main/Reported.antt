-- ===== src/Architecture/Main/Reported.antt =====
-- scripts/check_architecture.py: the errors that `main` catches, of all that `load_rules` raises.
use portfolio_manager.Architecture.Main.{is_policy_error}
use portfolio_manager.Architecture.Policy.Loaded.{unread, length-add_rules}
use portfolio_manager.Architecture.{ModuleRule, names}
use portfolio_manager.Architecture.Cycles.{detect_cycles}
use portfolio_manager.Architecture.Cycles.Frames.{detect_cycles-Outcome}
use portfolio_manager.Architecture.Cycles.Graph.{IsClosed}
use portfolio_manager.Architecture.Policy.{
  Config, Loading, RawRule, add_rule, add_rules, check_rule, check_rules, load_rules, or_empty,
  required, is_absolute, is_version_one, keep, path_eq, path_parts,
}
use portfolio_manager.Base.{
  Bool, Error, List, Option, Result, Text, [], dependency_cycle, err, false, inl, inr, key_error,
  length, none, ok, raise_if, refl, some, true, ℕ, ◌<◌, ◌>>=◌, ◌∷◌, ◌≡◌, bad_text, codes, contains,
  is_empty, not, sorted_texts, text_eq, unknown_modules, value_error, ◌>>◌, ◌||◌, arith,
}
use portfolio_manager.Architecture.Policy.Checked.{IsChecked-IsClosed, check_rules_iff}

-- Every error of the result is one that `main` reports.
abbrev pub IsReported {ℓ} : {A : Type ℓ} → Result A → Type ℓ
IsReported r = (e : Error) → r ≡ err e → is_policy_error e ≡ true

bind-IsReported :
    {A B : Type 0} (r : Result A) (next : A → Result B)
    → IsReported r
    → ((a : A) → r ≡ ok a → IsReported (next a))
    → IsReported (r >>= next)
bind-IsReported (ok a) next first rest = rest a refl
bind-IsReported (err e) next first rest = λ e' h. first e' cc

-- `if b: raise e`, and what follows.
guard-IsReported :
    {B : Type 0} (b : Bool) (e : Error) (rest : Result B)
    → is_policy_error e ≡ true
    → IsReported rest
    → IsReported (raise_if b e >> rest)
guard-IsReported true e rest h after = λ e' k. let same : e ≡ e' = cc in rw same at h
guard-IsReported false e rest h after = after

raise_if-IsReported : (b : Bool) (e : Error) → is_policy_error e ≡ true → IsReported (raise_if b e)
raise_if-IsReported true e h = λ e' k. let same : e ≡ e' = cc in rw same at h
raise_if-IsReported false e h = λ e' k. cc

required-IsReported : {A : Type 0} (o : Option A) → IsReported (required o)
required-IsReported none = λ e h. let same : key_error ≡ e = cc in rw (← same) refl
required-IsReported (some a) = λ e h. cc

ok-IsReported : {A : Type 0} (a : A) → IsReported (ok a)
ok-IsReported a = λ e h. cc

add_rule-IsReported :
    (name : Text) (raw_rule : RawRule) (l : Loading) → IsReported (add_rule name raw_rule l)
unfolding add_rule
add_rule-IsReported name raw_rule l =
    bind-IsReported (required raw_rule.path) _ (required-IsReported raw_rule.path) (λ text _.
      bind-IsReported (required raw_rule.import_prefix) _
        (required-IsReported raw_rule.import_prefix)
        (λ prefix _.
          guard-IsReported (is_absolute text || contains text_eq (codes "..") (path_parts text))
            (bad_text "module has an unsafe path" name) _ refl
            (guard-IsReported (contains path_eq (path_parts text) l.paths)
              (bad_text "module path is declared more than once" text) _ refl
              (guard-IsReported (contains text_eq prefix l.prefixes)
                (bad_text "import prefix is declared more than once" prefix) _ refl
                (ok-IsReported _)))))

add_rules-IsReported : (ms : List (Text × RawRule)) (l : Loading) → IsReported (add_rules ms l)
unfolding add_rules
add_rules-IsReported [] l = ok-IsReported l
add_rules-IsReported ((name, raw_rule) ∷ ms) l =
    bind-IsReported (add_rule name raw_rule l) (add_rules ms) (add_rule-IsReported name raw_rule l)
      (λ l' _. add_rules-IsReported ms l')

check_rule-IsReported : (rules : List ModuleRule) (r : ModuleRule) → IsReported (check_rule rules r)
unfolding check_rule
check_rule-IsReported rules r =
    let unknown = keep (λ n. not (contains text_eq n (names rules))) r.may_import in
    guard-IsReported (not (is_empty unknown)) (unknown_modules r.name (sorted_texts unknown)) _ refl
      (raise_if-IsReported (contains text_eq r.name r.may_import)
        (bad_text "module cannot list itself in may_import" r.name) refl)

check_rules-IsReported : (rules rs : List ModuleRule) → IsReported (check_rules rules rs)
unfolding check_rules
check_rules-IsReported rules [] = ok-IsReported tt
check_rules-IsReported rules (r ∷ rs) =
    bind-IsReported (check_rule rules r) _ (check_rule-IsReported rules r)
      (λ _ _. check_rules-IsReported rules rs)

detect_cycles-IsReported :
    (rules : List ModuleRule) (frames : ℕ)
    → IsClosed rules
    → length (names rules) < frames
    → IsReported (detect_cycles rules frames)
detect_cycles-IsReported rules frames closed enough =
    elim (detect_cycles-Outcome rules closed frames enough) [
      | inl (done, _) ↦ λ e h. cc
      | inr (chain, _, raised, _) ↦
          λ e h. let same : dependency_cycle chain ≡ e = cc in rw (← same) refl
    ]

pub load_rules-IsReported :
    (frames : ℕ) (config : Config)
    → length (or_empty config.modules) < frames
    → IsReported (load_rules frames config)
unfolding load_rules
load_rules-IsReported frames config enough =
    guard-IsReported (not (is_version_one config.version))
      (value_error "architecture.toml must declare version = 1") _ refl
      (guard-IsReported (is_empty (or_empty config.modules))
        (value_error "architecture.toml must define at least one module") _ refl
        (bind-IsReported (add_rules (or_empty config.modules) unread) _
          (add_rules-IsReported (or_empty config.modules) unread)
          (λ l added.
            bind-IsReported (check_rules l.rules l.rules) _ (check_rules-IsReported l.rules l.rules)
              (λ _ checked.
                bind-IsReported (detect_cycles l.rules frames) _
                  (detect_cycles-IsReported l.rules frames
                    (IsChecked-IsClosed l.rules ((check_rules_iff l.rules l.rules).0 checked))
                    (omega (arith, length-add_rules (or_empty config.modules) l added, enough)))
                  (λ _ _. ok-IsReported l.rules)))))
