-- ===== src/Kernel/Validator/Passes.antt =====
-- src/nilscript/kernel/validator.py: how a pass goes over the pipeline.
use nilscript.Base.{String, List, [], ◌∷◌, ◌++◌}
use nilscript.Kernel.Program.{Node}
use nilscript.Kernel.References.{Reference}
use nilscript.Kernel.Diagnostics.{Diagnostic}

-- A check of every node, in the order of the pipeline.
abbrev pub for_nodes : (Node → List Diagnostic) → List Node → List Diagnostic
for_nodes check [] = []
for_nodes check (n ∷ ns) = check n ++ for_nodes check ns

abbrev pub for_names : (String → List Diagnostic) → List String → List Diagnostic
for_names check [] = []
for_names check (x ∷ xs) = check x ++ for_names check xs

abbrev pub for_references : (Reference → List Diagnostic) → List Reference → List Diagnostic
for_references check [] = []
for_references check (r ∷ rs) = check r ++ for_references check rs
