-- ===== src/Architecture/Cycles/Visited.antt =====
-- scripts/check_architecture.py: what a visit that returns has marked.
use portfolio_manager.Architecture.{ModuleRule, dependencies_of}
use portfolio_manager.Architecture.Cycles.{Marks, remove, visit, visit_each}
use portfolio_manager.Base.{
  >>=-eq-ok, All, List, Result, Text, [], arith, contains, false, ok, refl, text_eq, true, ◌∙◌, ◌∷◌,
  ◌≡◌, Bool-cases, inl, inr, suc, zero, ℕ, ap, ◌++◌, ◌>>=◌,
}
use portfolio_manager.Base.Texts.Strip.{text_eq_refl, text_eq_iff}

module _ (rules : List ModuleRule) where
  -- Each name stands before the names that it depends on, and once.
  abbrev pub Ordered : List Text → Type 0
  Ordered [] = Unit
  Ordered (n ∷ ns) =
      (contains text_eq n ns ≡ false)
      × ((deps : List Text) × (dependencies_of rules n ≡ ok deps)
          × All (λ d. contains text_eq d ns ≡ true) deps)
      × Ordered ns

  -- What visiting `ds` does to the marks.
  pub record Visited (ds : List Text) (m m' : Marks) : Type 0 where
    pub visiting : m'.visiting ≡ m.visiting
    pub keeps :
        (x : Text) → contains text_eq x m.visited ≡ true → contains text_eq x m'.visited ≡ true
    pub apart :
        (x : Text)
        → contains text_eq x m.visiting ≡ true
        → contains text_eq x m.visited ≡ false
        → contains text_eq x m'.visited ≡ false
    pub ordered : Ordered m.visited → Ordered m'.visited
    pub reached : All (λ d. contains text_eq d m'.visited ≡ true) ds

  Visited-nil : (m : Marks) → Visited [] m m
  Visited-nil m = record {
    visiting = refl;
    keeps = λ x h. h;
    apart = λ x h k. k;
    ordered = λ o. o;
    reached = tt;
  }

  Visited-cons :
      (d : Text) (ds : List Text) (m m1 m' : Marks)
      → Visited (d ∷ []) m m1
      → Visited ds m1 m'
      → Visited (d ∷ ds) m m'
  Visited-cons d ds m m1 m' a b = record {
    visiting = b.visiting ∙ a.visiting;
    keeps = λ x h. b.keeps x (a.keeps x h);
    apart = λ x h k. b.apart x (rw a.visiting h) (a.apart x h k);
    ordered = λ o. b.ordered (a.ordered o);
    reached = (b.keeps d a.reached.0, b.reached);
  }

  pub visit_each-Visited :
      (visit : Text → Marks → Result Marks)
      → ((d : Text) (m m' : Marks) → visit d m ≡ ok m' → Visited (d ∷ []) m m')
      → (ds : List Text) (m m' : Marks) → visit_each visit ds m ≡ ok m'
      → Visited ds m m'
  unfolding visit_each
  visit_each-Visited visit step [] m m' h = let e : m ≡ m' = cc in rw e (Visited-nil m')
  visit_each-Visited visit step (d ∷ ds) m m' h =
      let (m1, a, b) = >>=-eq-ok (visit d m) (visit_each visit ds) h in
      Visited-cons d ds m m1 m' (step d m m1 a) (visit_each-Visited visit step ds m1 m' b)

  remove-cons : (n : Text) (ns ms : List Text) → remove n (n ∷ ns) ≡ ok ms → ms ≡ ns
  unfolding remove
  remove-cons n ns ms h = ground (arith, text_eq_refl n)

  other-eq :
      (x n : Text) (ns : List Text)
      → contains text_eq x ns ≡ true
      → contains text_eq n ns ≡ false
      → text_eq x n ≡ false
  other-eq x n ns h off = elim (Bool-cases (text_eq x n)) [
    | inl same ↦
        let e = (text_eq_iff x n).0 same in cc (h, off, ap (λ (t : Text). contains text_eq t ns) e)
    | inr other ↦ other
  ]

  -- A visit that goes inside: its name is marked after the names that it depends on.
  visit-inside :
      (n : Text) (deps : List Text) (m m1 : Marks)
      → contains text_eq n m.visiting ≡ false
      → contains text_eq n m.visited ≡ false
      → dependencies_of rules n ≡ ok deps
      → Visited deps (record m { visiting = n ∷ m.visiting }) m1
      → Visited (n ∷ []) m (record { visiting = m.visiting; visited = n ∷ m1.visited })
  unfolding contains
  visit-inside n deps m m1 off new of_n v = record {
    visiting = refl;
    keeps = λ x h. rw (v.keeps x h) (ground arith);
    apart = λ x h k.
        let other = other-eq x n m.visiting h off in
        rw (other, v.apart x (rw (other, h) refl) k) refl;
    ordered = λ o. (v.apart n (rw text_eq_refl refl) new, (deps, of_n, v.reached), v.ordered o);
    reached = (rw text_eq_refl refl, tt);
  }

  Visited-old : (n : Text) (m : Marks) → contains text_eq n m.visited ≡ true → Visited (n ∷ []) m m
  Visited-old n m old = record {
    visiting = refl;
    keeps = λ x h. h;
    apart = λ x h k. k;
    ordered = λ o. o;
    reached = (old, tt);
  }

  -- The part of `visit` after its two tests.
  abbrev entered : Text → (Text → Marks → Result Marks) → Marks → Result Marks
  entered n visit m = do
    dependencies ← dependencies_of rules n
    marks' ← visit_each visit dependencies (record m { visiting = n ∷ m.visiting })
    visiting ← remove n marks'.visiting
    ok (record { visiting = visiting; visited = n ∷ marks'.visited })

  visit-entered :
      (n : Text) (m m' : Marks)
      → contains text_eq n m.visiting ≡ false
      → contains text_eq n m.visited ≡ false
      → (visit : Text → Marks → Result Marks)
      → ((d : Text) (m m' : Marks) → visit d m ≡ ok m' → Visited (d ∷ []) m m')
      → entered n visit m ≡ ok m'
      → Visited (n ∷ []) m m'
  visit-entered n m m' off new visit step h =
      let (deps, of_n, k) = >>=-eq-ok (dependencies_of rules n) _ h in
      let (m1, each, k1) =
        >>=-eq-ok (visit_each visit deps (record m { visiting = n ∷ m.visiting })) _ k in
      let (ms, removed, k2) = >>=-eq-ok (remove n m1.visiting) _ k1 in
      let v = visit_each-Visited visit step deps (record m { visiting = n ∷ m.visiting }) m1 each in
      let left : ms ≡ m.visiting = remove-cons n m.visiting ms (rw v.visiting at removed) in
      let e : record { visiting = m.visiting; visited = n ∷ m1.visited } ≡ m' = cc (k2, left) in
      rw (← e) (visit-inside n deps m m1 off new of_n v)

  pub visit-Visited :
      (frames : ℕ) (chain : List Text) (n : Text) (m m' : Marks)
      → visit rules frames chain n m ≡ ok m'
      → Visited (n ∷ []) m m'
  unfolding visit
  visit-Visited zero chain n m m' h = cc
  visit-Visited (suc frames) chain n m m' h = elim (Bool-cases (contains text_eq n m.visiting)) [
    | inl on ↦ cc (rw on at h)
    | inr off ↦ elim (Bool-cases (contains text_eq n m.visited)) [
      | inl old ↦
          let same : m ≡ m' = cc (rw (off, old) at h) in rw same (Visited-old n m' (rw same at old))
      | inr new ↦
          visit-entered n m m' off new (visit rules frames (chain ++ n ∷ []))
            (visit-Visited frames (chain ++ n ∷ [])) (rw (off, new) at h)
    ]
  ]
