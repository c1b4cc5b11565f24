-- ===== src/Architecture/Cycles/Frames.antt =====
-- scripts/check_architecture.py: how `detect_cycles` ends where there are frames enough.
use portfolio_manager.Base.Pigeonhole.{length-le_of_distinct}
use portfolio_manager.Architecture.{ModuleRule, names}
use portfolio_manager.Architecture.Cycles.{Marks, visit, visit_each, detect_cycles, remove}
use portfolio_manager.Architecture.Cycles.Graph.{
  Chain, Edge, IsClosed, contains-cons, dependencies_of-ok, more, one, IsAcyclic,
}
use portfolio_manager.Base.{
  List, Result, Text, arith, contains, dependency_cycle, distinct, err, false, length, ok, refl,
  suc, text_eq, true, zero, ℕ, ◌+◌, ◌<◌, ◌∷◌, ◌≡◌, ◌⊎◌, Bool-cases, [], inl, inr, ◌++◌, ◌∙◌,
  false-ne-true, ◌↔◌,
}
use portfolio_manager.Base.Texts.Strip.{text_eq_iff, text_eq_refl}
use portfolio_manager.Architecture.Cycles.Visited.{visit-Visited, visit_each-Visited}
use portfolio_manager.Domain.Temporal.{before}
use portfolio_manager.Architecture.Cycles.Sound.{detect_cycles-IsAcyclic}
use portfolio_manager.Architecture.Policy.{keep}

module _ (rules : List ModuleRule) where
  -- The marks, or the error of a cycle that is there.
  abbrev pub Outcome {ℓ} : {A : Type ℓ} → Result A → Type ℓ
  Outcome {A} r =
      ((a : A) × (r ≡ ok a))
      ⊎ ((chain : List Text) × (n : Text) × (r ≡ err (dependency_cycle chain)) × Chain rules n n)

remove-head : (n : Text) (ns : List Text) → remove n (n ∷ ns) ≡ ok ns
unfolding remove
remove-head n ns = rw text_eq_refl refl

module _ (rules : List ModuleRule) (closed : IsClosed rules) where
  -- A visit of `n` that has enough frames and comes from the names that are being visited.
  record Entering (frames : ℕ) (n : Text) (m : Marks) : Type 0 where
    known : contains text_eq n (names rules) ≡ true
    fits : length (names rules) < frames + length m.visiting
    once : distinct text_eq m.visiting ≡ true
    within :
        (x : Text) → contains text_eq x m.visiting ≡ true → contains text_eq x (names rules) ≡ true
    leads : (x : Text) → contains text_eq x m.visiting ≡ true → Chain rules x n

  Entering-frames : (n : Text) (m : Marks) → ¬ (Entering zero n m)
  Entering-frames n m e = absurd (
      omega (
        arith,
        e.fits,
        length-le_of_distinct text_eq text_eq_iff m.visiting (names rules) e.once e.within,
      ))

  -- From `n`, which is not being visited, to a name that it depends on.
  Entering-Edge :
      (frames : ℕ) (n d : Text) (m m1 : Marks)
      → Entering (suc frames) n m
      → contains text_eq n m.visiting ≡ false
      → Edge rules n d
      → m1.visiting ≡ n ∷ m.visiting
      → Entering frames d m1
  unfolding distinct contains
  Entering-Edge frames n d m m1 e off edge at = record {
    known = closed n d edge;
    fits = rw at (omega (arith, e.fits));
    once = rw (at, off, e.once) refl;
    within = λ x h. elim (contains-cons x n m.visiting (rw at at h)) [
      | inl same ↦ rw same e.known
      | inr before ↦ e.within x before
    ];
    leads = λ x h. elim (contains-cons x n m.visiting (rw at at h)) [
      | inl same ↦ rw same (one edge)
      | inr before ↦ more (e.leads x before) edge
    ];
  }

  Entering-start :
      (frames : ℕ) (d : Text) (m : Marks)
      → length (names rules) < frames
      → contains text_eq d (names rules) ≡ true
      → m.visiting ≡ []
      → Entering frames d m
  unfolding distinct contains
  Entering-start frames d m enough h at = record {
    known = h;
    fits = omega (arith, enough);
    once = rw at refl;
    within = λ x k. cc (rw at at k);
    leads = λ x k. absurd (false-ne-true (rw at at k));
  }

  accepted :
      (frames : ℕ) (m : Marks)
      → visit_each (visit rules frames []) (names rules) (record { visiting = []; visited = [] })
        ≡ ok m
      → detect_cycles rules frames ≡ ok tt
  unfolding detect_cycles
  accepted frames m done = rw done refl

  visit_each-Outcome :
      (visit : Text → Marks → Result Marks) (vs : List Text)
      → ((d : Text) (m m' : Marks) → visit d m ≡ ok m' → m'.visiting ≡ m.visiting)
      → (ds : List Text)
      → ((d : Text) (m : Marks)
          → contains text_eq d ds ≡ true
          → m.visiting ≡ vs
          → Outcome rules (visit d m))
      → (m : Marks) → m.visiting ≡ vs
      → Outcome rules (visit_each visit ds m)
  unfolding visit_each contains
  visit_each-Outcome visit vs keep [] step m e = inl (m, refl)
  visit_each-Outcome visit vs keep (d ∷ ds) step m e = elim (step d m (rw text_eq_refl refl) e) [
    | inl (m1, done) ↦ rw done (
        visit_each-Outcome visit vs keep ds (λ x m2 h k. step x m2 (rw h (ground arith)) k) m1
          (keep d m m1 done ∙ e))
    | inr (chain, n, raised, cycle) ↦ inr (chain, n, rw raised refl, cycle)
  ]

  visit-Outcome :
      (frames : ℕ) (chain : List Text) (n : Text) (m : Marks)
      → Entering frames n m
      → Outcome rules (visit rules frames chain n m)
  unfolding visit
  visit-Outcome zero chain n m e = absurd (Entering-frames n m e)
  visit-Outcome (suc frames) chain n m e = elim (Bool-cases (contains text_eq n m.visiting)) [
    | inl on ↦ inr (chain ++ n ∷ [], n, rw on refl, e.leads n on)
    | inr off ↦ elim (Bool-cases (contains text_eq n m.visited)) [
      | inl old ↦ inl (m, rw (off, old) refl)
      | inr new ↦
          let (deps, of_n) = dependencies_of-ok rules n e.known in
          let inner : Marks = record m { visiting = n ∷ m.visiting } in
          let each =
            visit_each-Outcome (visit rules frames (chain ++ n ∷ [])) (n ∷ m.visiting)
              (λ d m1 m2 h. (visit-Visited rules frames (chain ++ n ∷ []) d m1 m2 h).visiting) deps
              (λ d m1 h at.
                visit-Outcome frames (chain ++ n ∷ []) d m1
                  (Entering-Edge frames n d m m1 e off (deps, of_n, h) at))
              inner refl in
          elim each [
            | inl (m1, done) ↦
                let v =
                  visit_each-Visited rules (visit rules frames (chain ++ n ∷ []))
                    (visit-Visited rules frames (chain ++ n ∷ [])) deps inner m1 done in
                inl (
                  record { visiting = m.visiting; visited = n ∷ m1.visited },
                  rw (off, new, of_n, done, v.visiting, remove-head n m.visiting) refl,
                )
            | inr (c, x, raised, cycle) ↦ inr (c, x, rw (off, new, of_n, raised) refl, cycle)
          ]
    ]
  ]

  -- Where each name that a rule lists has a rule, and Python has more frames than there are rules:
  -- `detect_cycles` returns exactly if no chain of imports leads from a module to itself, and raises
  -- the error of a cycle exactly if some chain does.
  pub detect_cycles-Outcome :
      (frames : ℕ)
      → length (names rules) < frames
      → ((detect_cycles rules frames ≡ ok tt) × IsAcyclic rules)
        ⊎ ((chain : List Text) × (n : Text) × (detect_cycles rules frames
              ≡ err (dependency_cycle chain))
            × Chain rules n n)
  unfolding detect_cycles
  detect_cycles-Outcome frames enough =
      let start : Marks = record { visiting = []; visited = [] } in
      let each =
        visit_each-Outcome (visit rules frames []) []
          (λ d m1 m2 h. (visit-Visited rules frames [] d m1 m2 h).visiting) (names rules)
          (λ d m h at. visit-Outcome frames [] d m (Entering-start frames d m enough h at)) start
          refl in
      elim each [
        | inl (m, done) ↦
            inl (rw done refl, detect_cycles-IsAcyclic rules frames (accepted frames m done))
        | inr (chain, n, raised, cycle) ↦ inr (chain, n, rw raised refl, cycle)
      ]

  pub detect_cycles_iff :
      (frames : ℕ)
      → length (names rules) < frames
      → (detect_cycles rules frames ≡ ok tt) ↔ IsAcyclic rules
  detect_cycles_iff frames enough = (
    detect_cycles-IsAcyclic rules frames,
    λ acyclic. elim (detect_cycles-Outcome frames enough) [
      | inl (done, a) ↦ done
      | inr (chain, n, raised, cycle) ↦ absurd (acyclic n cycle)
    ],
  )
