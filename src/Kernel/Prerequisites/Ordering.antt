-- ===== src/Kernel/Prerequisites/Ordering.antt =====
-- What the plan of src/nilscript/kernel/prerequisites.py promises: every step comes after the steps
-- that it needs, and creates an entity that no other step creates.
use mathlib.Core.List.{reverse-reverse}
use nilscript.Base.{
  ℕ, zero, suc, ◌≡◌, refl, inl, inr, Bool, true, false, String, List, [], ◌∷◌, reverse, elem,
  lookup, length, if◌then◌else◌, arith, eq_refl, Bool-cases,
}
use nilscript.Kernel.Prerequisites.{
  Prereq, PlanStep, Graph, Planned, planned, cycle, out_of_fuel, entities, prereqs_of, place,
  after_visit, visit_all, visit, plan_prerequisites, in_order,
}

module _ (prerequisites : Graph) (is_satisfied : Prereq → Bool) where
  -- The prerequisites in a list that are not satisfied stand in the order.
  unfoldable pub met : List Prereq → List PlanStep → Bool
  met [] order = true
  met (q ∷ qs) order =
      if is_satisfied q
      then met qs order
      else if elem q.entity (entities order)
      then met qs order
      else false

  abbrev pub needs : String → List Prereq
  needs verb = prereqs_of (lookup verb prerequisites)

  -- The last step first: each one is new, and what its verb needs stands behind it.
  unfoldable pub is_plan : List PlanStep → Bool
  unfolding met
  is_plan [] = true
  is_plan (s ∷ order) =
      if elem s.entity (entities order)
      then false
      else if met (needs s.verb) order
      then is_plan order
      else false

  -- The entities of one order stand in another.
  Grows : List PlanStep → List PlanStep → Type 0
  Grows a b = (e : String) → elem e (entities a) ≡ true → elem e (entities b) ≡ true

  met-Grows :
      (qs : List Prereq) (a b : List PlanStep) → Grows a b → met qs a ≡ true → met qs b ≡ true
  unfolding met Grows
  met-Grows [] a b g h = refl
  met-Grows (q ∷ qs) a b g h = elim (Bool-cases (is_satisfied q)) [
    | inl t ↦ ground (arith, t, h, met-Grows qs a b g)
    | inr f ↦ elim (Bool-cases (elem q.entity (entities a))) [
      | inl k ↦ ground (arith, f, h, k, g q.entity k, met-Grows qs a b g)
      | inr k ↦ absurd (ground (arith, f, h, k))
    ]
  ]

  Grows-place : (q : Prereq) (order : List PlanStep) → Grows order (place q order)
  unfolding place Grows
  Grows-place q order e h = ground (arith, h)

  placed-place :
      (q : Prereq) (order : List PlanStep) → elem q.entity (entities (place q order)) ≡ true
  unfolding place
  placed-place q order = ground (arith, eq_refl q.entity)

  is_plan-place :
      (q : Prereq) (order : List PlanStep)
      → is_plan order ≡ true
      → met (needs q.create_verb) order ≡ true
      → is_plan (place q order) ≡ true
  unfolding place is_plan
  is_plan-place q order h m = elim (Bool-cases (elem q.entity (entities order))) [
    | inl t ↦ ground (arith, t, h)
    | inr f ↦ ground (arith, f, h, m)
  ]

  -- What a planned outcome of a visit promises, with what it is to have met.
  Outcome : List Prereq → List PlanStep → Planned → Type 0
  Outcome qs before (planned order) =
      (is_plan order ≡ true) × (met qs order ≡ true) × Grows before order
  Outcome qs before (cycle verb) = Unit
  Outcome qs before out_of_fuel = Unit

  Visits : (String → List PlanStep → Planned) → Type 0
  Visits visitor =
      (verb : String) (order : List PlanStep)
      → is_plan order ≡ true
      → Outcome (needs verb) order (visitor verb order)

  placed-Outcome :
      (q : Prereq) (qs : List Prereq) (before order : List PlanStep) (r : Planned)
      → is_satisfied q ≡ false
      → Outcome (needs q.create_verb) before (planned order)
      → Outcome qs (place q order) r
      → Outcome (q ∷ qs) before r
  unfolding Outcome met Grows
  placed-Outcome q qs before order (cycle verb) f h k = tt
  placed-Outcome q qs before order out_of_fuel f h k = tt
  placed-Outcome q qs before order (planned o) f h k = (
    k.0,
    ground (arith, f, k.1, k.2 q.entity (placed-place q order)),
    λ e m. k.2 e (Grows-place q order e (h.2 e m)),
  )

  after_visit-Outcome :
      (more : List PlanStep → Planned) (q : Prereq) (qs : List Prereq) (before : List PlanStep)
      (r : Planned)
      → is_satisfied q ≡ false
      → Outcome (needs q.create_verb) before r
      → ((order : List PlanStep) → is_plan order ≡ true → Outcome qs order (more order))
      → Outcome (q ∷ qs) before (after_visit prerequisites is_satisfied more q r)
  unfolding Outcome
  after_visit-Outcome more q qs before (cycle verb) f h k = tt
  after_visit-Outcome more q qs before out_of_fuel f h k = tt
  after_visit-Outcome more q qs before (planned order) f h k =
      placed-Outcome q qs before order (more (place q order)) f h
        (k (place q order) (is_plan-place q order h.0 h.1))

  skip-Outcome :
      (q : Prereq) (qs : List Prereq) (order : List PlanStep) (r : Planned)
      → is_satisfied q ≡ true
      → Outcome qs order r
      → Outcome (q ∷ qs) order r
  unfolding Outcome met
  skip-Outcome q qs order (cycle verb) t h = tt
  skip-Outcome q qs order out_of_fuel t h = tt
  skip-Outcome q qs order (planned o) t h = (h.0, ground (arith, t, h.1), h.2)

  visit_all-Outcome :
      (visitor : String → List PlanStep → Planned) (qs : List Prereq) (order : List PlanStep)
      → Visits visitor
      → is_plan order ≡ true
      → Outcome qs order (visit_all prerequisites is_satisfied visitor qs order)
  unfolding visit_all Outcome Visits met Grows
  visit_all-Outcome visitor [] order v h = (h, refl, λ e m. m)
  visit_all-Outcome visitor (q ∷ qs) order v h = elim (Bool-cases (is_satisfied q)) [
    | inl t ↦ rw t (
        skip-Outcome q qs order (visit_all prerequisites is_satisfied visitor qs order) t
          (visit_all-Outcome visitor qs order v h))
    | inr f ↦ rw f (
        after_visit-Outcome (visit_all prerequisites is_satisfied visitor qs) q qs order
          (visitor q.create_verb order) f (v q.create_verb order h)
          (λ o k. visit_all-Outcome visitor qs o v k))
  ]

  visit-Visits :
      (fuel : ℕ) (visiting : List String) → Visits (visit prerequisites is_satisfied fuel visiting)
  unfolding visit Visits Outcome
  visit-Visits zero visiting verb order h = tt
  visit-Visits (suc fuel) visiting verb order h = elim (Bool-cases (elem verb visiting)) [
    | inl t ↦ rw t tt
    | inr f ↦ rw f (
        visit_all-Outcome (visit prerequisites is_satisfied fuel (verb ∷ visiting)) (needs verb)
          order (visit-Visits fuel (verb ∷ visiting)) h)
  ]

  in_order-planned :
      (r : Planned) (steps : List PlanStep)
      → in_order prerequisites is_satisfied r ≡ planned steps
      → r ≡ planned (reverse steps)
  in_order-planned (planned order) steps e = cc (reverse-reverse order)
  in_order-planned (cycle verb) steps e = absurd (cc)
  in_order-planned out_of_fuel steps e = absurd (cc)

  planned-Outcome :
      (qs : List Prereq) (before : List PlanStep) (r : Planned) (order : List PlanStep)
      → r ≡ planned order
      → Outcome qs before r
      → (is_plan order ≡ true) × (met qs order ≡ true)
  unfolding Outcome
  planned-Outcome qs before (planned o) order e h = ground (arith, e, h.0, h.1)
  planned-Outcome qs before (cycle verb) order e h = absurd (cc)
  planned-Outcome qs before out_of_fuel order e h = absurd (cc)

  -- When there is a plan, each of its steps creates an entity that no earlier step creates, the
  -- unmet prerequisites of the step's verb are created by earlier steps, and those of the goal by
  -- some step. `is_plan` reads the steps with the last one first.
  pub plan_prerequisites-is_plan :
      (goal_verb : String) (steps : List PlanStep)
      → plan_prerequisites prerequisites is_satisfied goal_verb ≡ planned steps
      → (is_plan (reverse steps) ≡ true) × (met (needs goal_verb) (reverse steps) ≡ true)
  unfolding plan_prerequisites Visits is_plan
  plan_prerequisites-is_plan goal_verb steps e =
      let fuel = suc (suc (length prerequisites)) in
      let r = visit prerequisites is_satisfied fuel [] goal_verb [] in
      planned-Outcome (needs goal_verb) [] r (reverse steps) (in_order-planned r steps e)
        (visit-Visits fuel [] goal_verb [] refl)
