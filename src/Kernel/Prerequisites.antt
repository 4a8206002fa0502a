-- ===== src/Kernel/Prerequisites.antt =====
-- `plan_prerequisites` of src/nilscript/kernel/prerequisites.py. The set `placed` is the entities of
-- `order`, which grow together; `order` is kept with its last step first. The set `visiting` is an
-- argument of a visit, since a visit discards the verb that it adds.
pub mod Ordering
pub mod Fuel
use nilscript.Base.{
  ℕ, zero, suc, Bool, true, false, String, ◌==◌, Option, none, some, List, [], ◌∷◌, reverse, elem,
  lookup, length, if◌then◌else◌,
}

pub record Prereq : Type 0 where
  pub entity : String
  pub create_verb : String
  pub carry : String

pub record PlanStep : Type 0 where
  pub verb : String
  pub entity : String
  pub carry : String

abbrev pub Graph : Type 0
Graph = List (String × List Prereq)

-- The order so far, or the PrerequisiteCycle; the last is no outcome of the program.
pub data Planned : Type 0 where
  planned : List PlanStep → Planned
  cycle : String → Planned
  out_of_fuel : Planned

-- `placed`
abbrev pub entities : List PlanStep → List String
entities [] = []
entities (s ∷ order) = s.entity ∷ entities order

-- prerequisites.get(verb, ())
abbrev pub prereqs_of : Option (List Prereq) → List Prereq
prereqs_of none = []
prereqs_of (some ps) = ps

-- The step of a prerequisite that was visited.
unfoldable pub place : Prereq → List PlanStep → List PlanStep
place q order =
    if elem q.entity (entities order)
    then order
    else (record { verb = q.create_verb; entity = q.entity; carry = q.carry }) ∷ order

module _ (prerequisites : Graph) (is_satisfied : Prereq → Bool) where
  abbrev pub Visitor : Type 0
  Visitor = String → List PlanStep → Planned

  abbrev pub after_visit : (List PlanStep → Planned) → Prereq → Planned → Planned
  after_visit more q (planned order) = more (place q order)
  after_visit more q (cycle verb) = cycle verb
  after_visit more q out_of_fuel = out_of_fuel

  -- The loop over the prerequisites of a verb.
  unfoldable pub visit_all : Visitor → List Prereq → List PlanStep → Planned
  unfolding place
  visit_all visitor [] order = planned order
  visit_all visitor (q ∷ qs) order =
      let skipped = visit_all visitor qs order in
      let visited = after_visit (visit_all visitor qs) q (visitor q.create_verb order) in
      if is_satisfied q then skipped else visited

  unfoldable pub visit : ℕ → List String → Visitor
  unfolding visit_all
  visit zero visiting verb order = out_of_fuel
  visit (suc fuel) visiting verb order =
      let visited =
        visit_all (visit fuel (verb ∷ visiting)) (prereqs_of (lookup verb prerequisites)) order in
      if elem verb visiting then cycle verb else visited

  abbrev pub in_order : Planned → Planned
  in_order (planned order) = planned (reverse order)
  in_order (cycle verb) = cycle verb
  in_order out_of_fuel = out_of_fuel

  -- The verbs of a path do not repeat, and all but the last of them have prerequisites.
  unfoldable pub plan_prerequisites : String → Planned
  unfolding visit
  plan_prerequisites goal_verb = in_order (visit (suc (suc (length prerequisites))) [] goal_verb [])
