-- ===== src/Kernel/Admission/Passes.antt =====
-- An admitted program has no error in any pass of `validate` of src/nilscript/kernel/validator.py.
use nilscript.Base.{
  ◌≡◌, refl, inl, inr, true, false, ◌&&◌, String, ◌==◌, some, List, [], ◌∷◌, ◌++◌, elem, Bool-cases,
  arith, eq_iff,
}
use nilscript.Kernel.Program.{Node, find_node, ids, ids_are_unique, fits_pipeline, WosoolProgram}
use nilscript.Kernel.Diagnostics.{Diagnostic, ok, fail, has_errors, of, has_errors-append, error_of}
use nilscript.Kernel.Context.{ValidationContext}
use nilscript.Kernel.Validator.Passes.{for_nodes, for_names}
use nilscript.Kernel.Validator.Integrity.{check_references, check_acyclicity}
use nilscript.Kernel.Validator.Whitelist.{check_whitelist}
use nilscript.Kernel.Validator.Arguments.{check_arguments}
use nilscript.Kernel.Validator.Outputs.{check_output_references}
use nilscript.Kernel.Validator.Reachability.{check_reachability}
use nilscript.Kernel.Validator.{validate}

pub find_node-id : (k : String) (ns : List Node) (n : Node) → find_node k ns ≡ some n → n.id ≡ k
unfolding find_node
find_node-id k [] n h = absurd (cc)
find_node-id k (m ∷ ns) n h = ground (arith, find_node-id k ns n, eq_iff m.id k)

pub find_node-elem :
    (k : String) (ns : List Node) (n : Node) → find_node k ns ≡ some n → elem k (ids ns) ≡ true
unfolding find_node
find_node-elem k [] n h = absurd (cc)
find_node-elem k (m ∷ ns) n h = ground (arith, find_node-elem k ns n)

pub elem-find_node :
    (k : String) (ns : List Node) → elem k (ids ns) ≡ true → (n : Node) × (find_node k ns ≡ some n)
unfolding find_node
elem-find_node k [] h = absurd (cc)
elem-find_node k (m ∷ ns) h = elim (Bool-cases (m.id == k)) [
  | inl t ↦ (m, ground arith)
  | inr f ↦ let (n, p) = elem-find_node k ns (ground arith) in (n, ground arith)
]

pub for_nodes-find_node :
    (check : Node → List Diagnostic) (k : String) (ns : List Node) (n : Node)
    → has_errors (for_nodes check ns) ≡ false
    → find_node k ns ≡ some n
    → has_errors (check n) ≡ false
unfolding find_node
for_nodes-find_node check k [] n e h = absurd (cc)
for_nodes-find_node check k (m ∷ ns) n e h =
    ground
      (arith, for_nodes-find_node check k ns n, has_errors-append (check m) (for_nodes check ns))

pub for_names-elem :
    (check : String → List Diagnostic) (x : String) (xs : List String)
    → has_errors (for_names check xs) ≡ false
    → elem x xs ≡ true
    → has_errors (check x) ≡ false
for_names-elem check x [] e h = absurd (cc)
for_names-elem check x (y ∷ ys) e h =
    ground (
      arith,
      for_names-elem check x ys,
      eq_iff y x,
      has_errors-append (check y) (for_names check ys),
    )

pub record Clean (p : WosoolProgram) (ctx : ValidationContext) : Type 0 where
  pub size : fits_pipeline p.pipeline ≡ true
  pub unique : ids_are_unique p.pipeline ≡ true
  pub references : has_errors (check_references p) ≡ false
  pub acyclicity : has_errors (check_acyclicity p) ≡ false
  pub whitelist : has_errors (check_whitelist p ctx) ≡ false
  pub arguments : has_errors (check_arguments p ctx) ≡ false
  pub outputs : has_errors (check_output_references p ctx) ≡ false
  pub reachability : has_errors (check_reachability p) ≡ false

of-ok : (ds : List Diagnostic) → (of ds).result ≡ ok → has_errors ds ≡ false
unfolding of
of-ok ds h = ground arith

all-clean :
    (a b c d e f : List Diagnostic)
    → has_errors (a ++ b ++ c ++ d ++ e ++ f) ≡ false
    → (has_errors a ≡ false)
      × (has_errors b ≡ false)
      × (has_errors c ≡ false)
      × (has_errors d ≡ false)
      × (has_errors e ≡ false)
      × (has_errors f ≡ false)
all-clean a b c d e f h = ground (
  arith,
  has_errors-append (a ++ b ++ c ++ d ++ e) f,
  has_errors-append (a ++ b ++ c ++ d) e,
  has_errors-append (a ++ b ++ c) d,
  has_errors-append (a ++ b) c,
  has_errors-append a b,
)

gate_error : (of (error_of "V1_SCHEMA")).result ≡ fail
unfolding of has_errors
gate_error = refl

accepted :
    (p : WosoolProgram) (ctx : ValidationContext)
    → (validate p ctx).result ≡ ok
    → (fits_pipeline p.pipeline && ids_are_unique p.pipeline) ≡ true
    → has_errors (
        check_references p
        ++ check_acyclicity p
        ++ check_whitelist p ctx
        ++ check_arguments p ctx
        ++ check_output_references p ctx
        ++ check_reachability p)
      ≡ false
unfolding validate
accepted p ctx h t = ground (
  arith,
  of-ok (
      check_references p
      ++ check_acyclicity p
      ++ check_whitelist p ctx
      ++ check_arguments p ctx
      ++ check_output_references p ctx
      ++ check_reachability p),
)

refused :
    (p : WosoolProgram) (ctx : ValidationContext)
    → (validate p ctx).result ≡ ok
    → (fits_pipeline p.pipeline && ids_are_unique p.pipeline) ≡ false
    → ⊥
unfolding validate
refused p ctx h f = ground (arith, gate_error)

pub validate-Clean :
    (p : WosoolProgram) (ctx : ValidationContext) → (validate p ctx).result ≡ ok → Clean p ctx
unfolding validate
validate-Clean p ctx h = elim (Bool-cases (fits_pipeline p.pipeline && ids_are_unique p.pipeline)) [
  | inr f ↦ absurd (refused p ctx h f)
  | inl t ↦
      let (a, b, c, d, e, g) =
        all-clean (check_references p) (check_acyclicity p) (check_whitelist p ctx)
          (check_arguments p ctx) (check_output_references p ctx) (check_reachability p)
          (accepted p ctx h t) in
      record {
        size = ground arith;
        unique = ground arith;
        references = a;
        acyclicity = b;
        whitelist = c;
        arguments = d;
        outputs = e;
        reachability = g;
      }
]
