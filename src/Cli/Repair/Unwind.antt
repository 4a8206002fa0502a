-- ===== src/Cli/Repair/Unwind.antt =====
-- What `run_saga_unwind` of src/nilscript/cli/repair.py reports.
use nilscript.Base.{
  ◌≡◌, refl, sym, Bool, not, ◌&&◌, String, ◌==◌, List, [], ◌∷◌, ◌++◌, reverse, elem, if◌then◌else◌,
  arith, eq_iff, Bool-cases, inl, inr,
}
use mathlib.Core.List.{append_assoc, append-nil}
use nilscript.Cli.Repair.{
  CommittedStep, UnwindOutcome, started, unwind_step, unwind_steps, closing, run_saga_unwind,
}

-- The verbs of the steps that pass a test, in order.
abbrev pub verbs_of : (CommittedStep → Bool) → List CommittedStep → List String
verbs_of p [] = []
verbs_of p (s ∷ steps) = if p s then s.verb ∷ verbs_of p steps else verbs_of p steps

unfoldable pub is_irreversible : CommittedStep → Bool
is_irreversible s = s.reversibility == "IRREVERSIBLE"

unfoldable pub is_blessed : List String → CommittedStep → Bool
is_blessed auto s = (s.reversibility == "REVERSIBLE") && elem s.verb auto

-- A step that a human has to decide on.
unfoldable pub needs_decision : List String → CommittedStep → Bool
needs_decision auto s =
    not (s.reversibility == "IRREVERSIBLE")
    && not ((s.reversibility == "REVERSIBLE") && elem s.verb auto)

-- The three lists of an outcome, each with the verbs of further steps behind it.
Extends : List String → List CommittedStep → UnwindOutcome → UnwindOutcome → Type 0
Extends auto steps o r =
    (r.compensated ≡ o.compensated ++ verbs_of (is_blessed auto) steps)
    × (r.parked ≡ o.parked ++ verbs_of (needs_decision auto) steps)
    × (r.irreversible ≡ o.irreversible ++ verbs_of is_irreversible steps)
    × (r.status ≡ o.status)

step-Extends :
    (auto : List String) (s : CommittedStep) (o : UnwindOutcome)
    → Extends auto (s ∷ []) o (unwind_step auto s o)
unfolding Extends unwind_step is_blessed needs_decision is_irreversible
step-Extends auto s o = elim (Bool-cases (s.reversibility == "IRREVERSIBLE")) [
  | inl t ↦ ground (
    arith,
    t,
    eq_iff "IRREVERSIBLE" "REVERSIBLE",
    eq_iff s.reversibility "IRREVERSIBLE",
    eq_iff s.reversibility "REVERSIBLE",
    append-nil o.compensated,
    append-nil o.parked,
    append-nil o.irreversible,
  )
  | inr f ↦ elim (Bool-cases ((s.reversibility == "REVERSIBLE") && elem s.verb auto)) [
    | inl t ↦ ground (
      arith,
      f,
      t,
      eq_iff "IRREVERSIBLE" "REVERSIBLE",
      eq_iff s.reversibility "IRREVERSIBLE",
      eq_iff s.reversibility "REVERSIBLE",
      append-nil o.compensated,
      append-nil o.parked,
      append-nil o.irreversible,
    )
    | inr g ↦ ground (
      arith,
      f,
      g,
      eq_iff "IRREVERSIBLE" "REVERSIBLE",
      eq_iff s.reversibility "IRREVERSIBLE",
      eq_iff s.reversibility "REVERSIBLE",
      append-nil o.compensated,
      append-nil o.parked,
      append-nil o.irreversible,
    )
  ]
]

verbs_of-cons :
    (p : CommittedStep → Bool) (s : CommittedStep) (steps : List CommittedStep)
    → verbs_of p (s ∷ steps) ≡ verbs_of p (s ∷ []) ++ verbs_of p steps
verbs_of-cons p s steps = elim (Bool-cases (p s)) [
  | inl t ↦ ground (arith, t)
  | inr f ↦ ground (arith, f)
]

extends-field :
    (a b c xs ys zs : List String) → b ≡ a ++ xs → c ≡ b ++ ys → zs ≡ xs ++ ys → c ≡ a ++ zs
extends-field a b c xs ys zs e f g = cc (append_assoc a xs ys)

steps-Extends :
    (auto : List String) (steps : List CommittedStep) (o : UnwindOutcome)
    → Extends auto steps o (unwind_steps auto steps o)
unfolding Extends unwind_steps
steps-Extends auto [] o = (
  sym (append-nil o.compensated),
  sym (append-nil o.parked),
  sym (append-nil o.irreversible),
  refl,
)
steps-Extends auto (s ∷ steps) o =
    let m = unwind_step auto s o in
    let r = unwind_steps auto steps m in
    let (a, b, c, d) = step-Extends auto s o in
    let (e, f, g, h) = steps-Extends auto steps m in
    (
      extends-field o.compensated m.compensated r.compensated (verbs_of (is_blessed auto) (s ∷ []))
          (verbs_of (is_blessed auto) steps) (verbs_of (is_blessed auto) (s ∷ steps)) a e
          (verbs_of-cons (is_blessed auto) s steps),
      extends-field o.parked m.parked r.parked (verbs_of (needs_decision auto) (s ∷ []))
          (verbs_of (needs_decision auto) steps) (verbs_of (needs_decision auto) (s ∷ steps)) b f
          (verbs_of-cons (needs_decision auto) s steps),
      extends-field o.irreversible m.irreversible r.irreversible (verbs_of is_irreversible (s ∷ []))
          (verbs_of is_irreversible steps) (verbs_of is_irreversible (s ∷ steps)) c g
          (verbs_of-cons is_irreversible s steps),
      cc (d, h),
    )

closing-lists :
    (o : UnwindOutcome)
    → ((closing o).compensated ≡ o.compensated)
      × ((closing o).parked ≡ o.parked)
      × ((closing o).irreversible ≡ o.irreversible)
unfolding closing
closing-lists o = ground arith

closing-status :
    (o : UnwindOutcome)
    → o.status ≡ "compensated"
    → (closing o).status ≡ "compensated"
    → (o.parked ≡ []) × (o.irreversible ≡ [])
unfolding closing
closing-status o s h =
    ground (arith, s, h, eq_iff "blocked" "compensated", eq_iff "parked" "compensated")

-- The unwind goes over the steps in reverse: the irreversible ones are reported as such, those that
-- are reversible and on the allow list are compensated, and all others are parked.
pub run_saga_unwind-lists :
    (steps : List CommittedStep) (auto : List String)
    → ((run_saga_unwind steps auto).compensated ≡ verbs_of (is_blessed auto) (reverse steps))
      × ((run_saga_unwind steps auto).parked ≡ verbs_of (needs_decision auto) (reverse steps))
      × ((run_saga_unwind steps auto).irreversible ≡ verbs_of is_irreversible (reverse steps))
unfolding run_saga_unwind Extends
run_saga_unwind-lists steps auto =
    let o = unwind_steps auto (reverse steps) started in
    let (a, b, c, d) = steps-Extends auto (reverse steps) started in
    let (x, y, z) = closing-lists o in (cc (a, x), cc (b, y), cc (c, z))

-- When the unwind reports that all is compensated, no step is parked and none is irreversible.
pub run_saga_unwind-compensated :
    (steps : List CommittedStep) (auto : List String)
    → (run_saga_unwind steps auto).status ≡ "compensated"
    → (verbs_of (needs_decision auto) (reverse steps) ≡ [])
      × (verbs_of is_irreversible (reverse steps) ≡ [])
unfolding run_saga_unwind Extends
run_saga_unwind-compensated steps auto h =
    let o = unwind_steps auto (reverse steps) started in
    let (a, b, c, d) = steps-Extends auto (reverse steps) started in
    let (x, y) = closing-status o d h in (cc (b, x), cc (c, y))
