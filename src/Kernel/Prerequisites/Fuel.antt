-- ===== src/Kernel/Prerequisites/Fuel.antt =====
-- The planner of src/nilscript/kernel/prerequisites.py always comes to a plan or to a cycle.
use nilscript.Base.{
  ℕ, zero, suc, ◌+◌, ◌≤◌, ◌<◌, ◌≡◌, refl, inl, inr, Bool, true, false, String, ◌==◌, some, List, [],
  ◌∷◌, elem, lookup, length, if◌then◌else◌, arith, eq_iff, eq_refl, ap, Bool-cases, Option-cases,
}
use nilscript.Kernel.Prerequisites.{
  Prereq, PlanStep, Graph, Planned, planned, cycle, out_of_fuel, place, after_visit, visit_all,
  visit, plan_prerequisites, in_order,
}

unfoldable pub is_out : Planned → Bool
is_out (planned order) = false
is_out (cycle verb) = false
is_out out_of_fuel = true

-- The verbs with prerequisites that are not on the path.
left : List String → Graph → ℕ
left visiting [] = 0
left visiting ((k, qs) ∷ g) = (if elem k visiting then 0 else 1) + left visiting g

left-le : (visiting : List String) (g : Graph) → left visiting g ≤ length g
unfolding left
left-le visiting [] = omega arith
left-le visiting ((k, qs) ∷ g) = ground (arith, left-le visiting g)

left-cons_le :
    (verb : String) (visiting : List String) (g : Graph)
    → left (verb ∷ visiting) g ≤ left visiting g
unfolding left
left-cons_le verb visiting [] = omega arith
left-cons_le verb visiting ((k, qs) ∷ g) = ground (arith, left-cons_le verb visiting g)

left-cons_lt :
    (verb : String) (visiting : List String) (g : Graph) (qs : List Prereq)
    → lookup verb g ≡ some qs
    → elem verb visiting ≡ false
    → left (verb ∷ visiting) g < left visiting g
unfolding left
left-cons_lt verb visiting [] qs h f = absurd (cc)
left-cons_lt verb visiting ((k, rs) ∷ g) qs h f = elim (Bool-cases (k == verb)) [
  | inl t ↦ ground (
    arith,
    left-cons_le verb visiting g,
    eq_iff k verb,
    eq_refl verb,
    f,
    ap (λ (x : String). elem x visiting) ((eq_iff k verb).0 t),
  )
  | inr g' ↦ ground (arith, eq_iff k verb, eq_iff verb k, left-cons_lt verb visiting g qs, h, f)
]

module _ (prerequisites : Graph) (is_satisfied : Prereq → Bool) where
  Sure : (String → List PlanStep → Planned) → Type 0
  Sure visitor = (verb : String) (order : List PlanStep) → is_out (visitor verb order) ≡ false

  after_visit-out :
      (more : List PlanStep → Planned) (q : Prereq) (r : Planned)
      → is_out r ≡ false
      → ((order : List PlanStep) → is_out (more order) ≡ false)
      → is_out (after_visit prerequisites is_satisfied more q r) ≡ false
  unfolding is_out
  after_visit-out more q (planned order) h k = k (place q order)
  after_visit-out more q (cycle verb) h k = refl
  after_visit-out more q out_of_fuel h k = h

  visit_all-out :
      (visitor : String → List PlanStep → Planned) (qs : List Prereq) (order : List PlanStep)
      → Sure visitor
      → is_out (visit_all prerequisites is_satisfied visitor qs order) ≡ false
  unfolding visit_all Sure is_out
  visit_all-out visitor [] order v = refl
  visit_all-out visitor (q ∷ qs) order v = elim (Bool-cases (is_satisfied q)) [
    | inl t ↦ ground (arith, t, visit_all-out visitor qs order v)
    | inr f ↦ ground (
      arith,
      f,
      after_visit-out (visit_all prerequisites is_satisfied visitor qs) q
          (visitor q.create_verb order) (v q.create_verb order) (λ o. visit_all-out visitor qs o v),
    )
  ]

  empty-out :
      (visitor : String → List PlanStep → Planned) (order : List PlanStep)
      → is_out (visit_all prerequisites is_satisfied visitor [] order) ≡ false
  unfolding visit_all is_out
  empty-out visitor order = refl

  visit-out :
      (fuel : ℕ) (visiting : List String)
      → left visiting prerequisites < fuel
      → Sure (visit prerequisites is_satisfied fuel visiting)
  unfolding visit Sure is_out
  visit-out zero visiting lt verb order = absurd (omega arith)
  visit-out (suc fuel) visiting lt verb order = elim (Bool-cases (elem verb visiting)) [
    | inl t ↦ ground (arith, t)
    | inr f ↦ elim (Option-cases (lookup verb prerequisites)) [
      | inl e ↦
          ground
            (arith, f, e, empty-out (visit prerequisites is_satisfied fuel (verb ∷ visiting)) order)
      | inr (qs, e) ↦ ground (
        arith,
        f,
        e,
        visit_all-out (visit prerequisites is_satisfied fuel (verb ∷ visiting)) qs order (
            visit-out fuel (verb ∷ visiting)
              (omega (arith, left-cons_lt verb visiting prerequisites qs e f))),
      )
    ]
  ]

  in_order-out : (r : Planned) → is_out (in_order prerequisites is_satisfied r) ≡ is_out r
  unfolding is_out
  in_order-out (planned order) = refl
  in_order-out (cycle verb) = refl
  in_order-out out_of_fuel = refl

  -- Whatever the graph, its cycles included, the planner ends within its fuel: with a plan, or
  -- with the verb at which it finds a cycle.
  pub plan_prerequisites-is_out :
      (goal_verb : String)
      → is_out (plan_prerequisites prerequisites is_satisfied goal_verb) ≡ false
  unfolding plan_prerequisites Sure
  plan_prerequisites-is_out goal_verb =
      let fuel = suc (suc (length prerequisites)) in
      ground (
        arith,
        in_order-out (visit prerequisites is_satisfied fuel [] goal_verb []),
        visit-out fuel [] (omega (arith, left-le [] prerequisites)) goal_verb [],
      )
