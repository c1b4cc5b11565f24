-- ===== src/Architecture/Policy/Tables.antt =====
-- scripts/check_architecture.py: what all the tables add to the rules.
use portfolio_manager.Architecture.Policy.Reads.{
  Reads, IsSafe, extend, Added, add_rule-Added, add_rule-ok, extend-cons, extend-nil, path_eq_iff,
  paths, prefixes,
}
use portfolio_manager.Architecture.{ModuleRule}
use portfolio_manager.Architecture.Policy.{Loading, RawRule, add_rule, add_rules, path_eq}
use portfolio_manager.Base.{
  >>=-eq-ok, All, List, Text, [], distinct, distinct-middle, distinct-snoc, ok, ok-injective, refl,
  sym, text_eq, true, ◌∙◌, ◌∷◌, ◌≡◌,
}
use portfolio_manager.Base.Texts.Strip.{text_eq_iff}

-- No directory and no prefix twice.
pub record IsDistinct (l : Loading) : Type 0 where
  pub distinct_paths : distinct path_eq l.paths ≡ true
  pub distinct_prefixes : distinct text_eq l.prefixes ≡ true

Added-IsDistinct :
    (name : Text) (raw_rule : RawRule) (l l' : Loading)
    → Added name raw_rule l l'
    → IsDistinct l
    → IsDistinct l'
Added-IsDistinct name raw_rule l l' a d = record {
  distinct_paths =
      rw
        (
          a.extended,
          distinct-snoc path_eq path_eq_iff l.paths a.rule.path,
          a.new_path,
          d.distinct_paths,
        )
        refl;
  distinct_prefixes =
      rw
        (
          a.extended,
          distinct-snoc text_eq text_eq_iff l.prefixes a.rule.import_prefix,
          a.new_prefix,
          d.distinct_prefixes,
        )
        refl;
}

-- What the tables add together.
pub record Loads (ms : List (Text × RawRule)) (l l' : Loading) (rs : List ModuleRule) : Type 0 where
  pub reads : Reads ms rs
  pub safe : All IsSafe rs
  pub extended : l' ≡ extend l rs
  pub distinct_rules : IsDistinct l'

pub add_rules-Loads :
    (ms : List (Text × RawRule)) (l l' : Loading)
    → IsDistinct l
    → add_rules ms l ≡ ok l'
    → (rs : List ModuleRule) × Loads ms l l' rs
unfolding add_rules
add_rules-Loads [] l l' d h =
    let same : l ≡ l' = ok-injective h in
    (
      [],
      record { reads = tt; safe = tt; extended = cc (extend-nil l); distinct_rules = rw same at d },
    )
add_rules-Loads ((name, raw_rule) ∷ ms) l l' d h =
    let (l1, e, k) = >>=-eq-ok (add_rule name raw_rule l) _ h in
    let a = add_rule-Added name raw_rule l l1 e in
    let (rs, s) = add_rules-Loads ms l1 l' (Added-IsDistinct name raw_rule l l1 a d) k in
    (
      a.rule ∷ rs,
      record {
        reads = (
          (a.text, a.of_path, a.of_prefix, a.relative, a.of_name, a.parts, a.of_imports),
          s.reads,
        );
        safe = (a.safe, s.safe);
        extended = s.extended ∙ rw a.extended (extend-cons l a.rule rs);
        distinct_rules = s.distinct_rules;
      },
    )

Loads-Added :
    (name : Text) (raw_rule : RawRule) (ms : List (Text × RawRule)) (l l' : Loading)
    (r : ModuleRule) (rs : List ModuleRule)
    → Loads ((name, raw_rule) ∷ ms) l l' (r ∷ rs)
    → Added name raw_rule l (extend l (r ∷ []))
Loads-Added name raw_rule ms l l' r rs s =
    let (text, of_path, of_prefix, relative, of_name, parts, of_imports) = s.reads.0 in
    record {
      rule = r;
      text = text;
      of_path = of_path;
      of_prefix = of_prefix;
      relative = relative;
      of_name = of_name;
      parts = parts;
      of_imports = of_imports;
      safe = s.safe.0;
      new_path =
          distinct-middle path_eq path_eq_iff l.paths r.path (paths rs)
            (rw s.extended at s.distinct_rules.distinct_paths);
      new_prefix =
          distinct-middle text_eq text_eq_iff l.prefixes r.import_prefix (prefixes rs)
            (rw s.extended at s.distinct_rules.distinct_prefixes);
      extended = refl;
    }

pub Loads-add_rules :
    (ms : List (Text × RawRule)) (l l' : Loading) (rs : List ModuleRule)
    → Loads ms l l' rs
    → add_rules ms l ≡ ok l'
unfolding add_rules
Loads-add_rules [] l l' [] s = cc (s.extended, extend-nil l)
Loads-add_rules [] l l' (r ∷ rs) s = absurd s.reads
Loads-add_rules ((name, raw_rule) ∷ ms) l l' [] s = absurd s.reads
Loads-add_rules ((name, raw_rule) ∷ ms) l l' (r ∷ rs) s =
    rw (add_rule-ok name raw_rule l (extend l (r ∷ [])) (Loads-Added name raw_rule ms l l' r rs s))
      (Loads-add_rules ms (extend l (r ∷ [])) l' rs (record {
        reads = s.reads.1;
        safe = s.safe.1;
        extended = s.extended ∙ sym (extend-cons l r rs);
        distinct_rules = s.distinct_rules;
      }))
