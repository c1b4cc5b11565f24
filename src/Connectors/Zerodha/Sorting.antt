-- ===== src/Connectors/Zerodha/Sorting.antt =====
-- connectors/zerodha.py: the order in which capabilities are collected.
use mathlib.Core.List.{Perm, Permᴰ}
use mathlib.Core.Logic.{∥∥₁_elim}
use portfolio_manager.Application.{Capability, capability_eq, capability_value}
use portfolio_manager.Application.Laws.{capability_eq_iff}
use portfolio_manager.Base.{
  List, [], arith, contains, distinct, false, is_empty, not, refl, ◌&&◌, ◌||◌, ◌∷◌, ◌≡◌, ltb,
  text_lt, ℕ, ◌∙◌,
}
use portfolio_manager.Connectors.Kite.{insert_sorted, sorted_capabilities}
use mathlib.Core.Path.{ap₂}

contains-insert_sorted :
    (a c : Capability) (cs : List Capability)
    → contains capability_eq a (insert_sorted c cs)
      ≡ (capability_eq a c || contains capability_eq a cs)
unfolding insert_sorted contains
contains-insert_sorted a c [] = refl
contains-insert_sorted a c (d ∷ ds) = ground (arith, contains-insert_sorted a c ds)

pub contains-sorted_capabilities :
    (a : Capability) (cs : List Capability)
    → contains capability_eq a (sorted_capabilities cs) ≡ contains capability_eq a cs
unfolding sorted_capabilities contains
contains-sorted_capabilities a [] = refl
contains-sorted_capabilities a (c ∷ cs) =
    rw (contains-insert_sorted a c (sorted_capabilities cs), contains-sorted_capabilities a cs)

capability_eq_comm : (a b : Capability) → capability_eq a b ≡ capability_eq b a
capability_eq_comm a b = ground (arith, capability_eq_iff a b, capability_eq_iff b a)

distinct-insert_sorted :
    (c : Capability) (cs : List Capability)
    → distinct capability_eq (insert_sorted c cs)
      ≡ (not (contains capability_eq c cs) && distinct capability_eq cs)
unfolding insert_sorted distinct
distinct-insert_sorted c [] = refl
distinct-insert_sorted c (d ∷ ds) =
    ground
      (arith, distinct-insert_sorted c ds, contains-insert_sorted d c ds, capability_eq_comm c d)

pub distinct-sorted_capabilities :
    (cs : List Capability)
    → distinct capability_eq (sorted_capabilities cs) ≡ distinct capability_eq cs
unfolding sorted_capabilities distinct
distinct-sorted_capabilities [] = refl
distinct-sorted_capabilities (c ∷ cs) = rw (
  distinct-insert_sorted c (sorted_capabilities cs),
  contains-sorted_capabilities c cs,
  distinct-sorted_capabilities cs,
)

pub is_empty-insert_sorted :
    (c : Capability) (cs : List Capability) → is_empty (insert_sorted c cs) ≡ false
unfolding insert_sorted
is_empty-insert_sorted c [] = refl
is_empty-insert_sorted c (d ∷ ds) = ground arith

pub is_empty-sorted_capabilities :
    (cs : List Capability) → is_empty (sorted_capabilities cs) ≡ is_empty cs
unfolding sorted_capabilities
is_empty-sorted_capabilities [] = refl
is_empty-sorted_capabilities (c ∷ cs) = is_empty-insert_sorted c (sorted_capabilities cs)

-- The place of a capability in the order of the names.
rank : Capability → ℕ
rank Capability.accounts = 0
rank Capability.activities = 1
rank Capability.balances = 2
rank Capability.holdings = 3
rank Capability.instruments = 4
rank Capability.positions = 5
rank Capability.prices = 6
rank Capability.tax_lots = 7

text_lt-rank :
    (c d : Capability) → text_lt (capability_value c) (capability_value d) ≡ ltb (rank c) (rank d)
unfolding text_lt capability_value rank
text_lt-rank Capability.accounts d = ground arith
text_lt-rank _ d = ground arith

rank-injective : (c d : Capability) → rank c ≡ rank d → c ≡ d
unfolding rank
rank-injective c d h = ground arith

insert_sorted_comm :
    (c d : Capability) (cs : List Capability)
    → insert_sorted c (insert_sorted d cs) ≡ insert_sorted d (insert_sorted c cs)
unfolding insert_sorted
insert_sorted_comm c d [] = ground (arith, text_lt-rank c d, text_lt-rank d c, rank-injective c d)
insert_sorted_comm c d (e ∷ es) = ground (
  arith,
  text_lt-rank c d,
  text_lt-rank d c,
  text_lt-rank e c,
  text_lt-rank e d,
  rank-injective c d,
  insert_sorted_comm c d es,
)

sorted-permᴰ :
    {cs ds : List Capability} → Permᴰ cs ds → sorted_capabilities cs ≡ sorted_capabilities ds
unfolding sorted_capabilities
sorted-permᴰ Permᴰ.nil = refl
sorted-permᴰ (Permᴰ.cons e p) = ap₂ insert_sorted e (sorted-permᴰ p)
sorted-permᴰ (Permᴰ.swap {a = c} {b = d} {l = cs} e f) =
    insert_sorted_comm c d (sorted_capabilities cs)
    ∙ ap₂ (λ x y. insert_sorted x (insert_sorted y (sorted_capabilities cs))) f e
sorted-permᴰ (Permᴰ.trans p q) = sorted-permᴰ p ∙ sorted-permᴰ q

List_Capability-set : IsSet (List Capability)
List_Capability-set = hlevel

-- The order in which a `frozenset` is iterated over does not show.
pub sorted-perm :
    {cs ds : List Capability} → Perm cs ds → sorted_capabilities cs ≡ sorted_capabilities ds
sorted-perm p = ∥∥₁_elim p (List_Capability-set _ _) sorted-permᴰ
