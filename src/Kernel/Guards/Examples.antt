-- ===== src/Kernel/Guards/Examples.antt =====
-- Guards at concrete inputs.
use nilscript.Base.{◌≡◌, ◌≢◌, refl, true, String, List, [], ◌∷◌}
use nilscript.Kernel.Value.{null, int, pos, str, dict, field, end}
use nilscript.Kernel.RunResult.{Context}
use nilscript.Kernel.Guards.{ok, out_of_fuel, Token, ref, op, number, word}
use nilscript.Kernel.Guards.Evaluate.{evaluate_guard}
use nilscript.Kernel.Guards.Fuel.{evaluate_guard-out_of_fuel}

-- {"input": {"n": 7, "s": "ab"}}
abbrev ctx : Context
ctx = ("input", dict (field "n" (int (pos 7)) (field "s" (str "ab") end))) ∷ []

abbrev condition : String
condition =
    "has($.input.n) && ($.input.n >= 7) && !( 'a' in [ 'b' , \"c\" ] ) || size($.input.s)==3"

condition_holds : evaluate_guard condition ctx null ≡ ok true
unfolding evaluate_guard
condition_holds = refl

evaluate_guard-out_of_fuel_example : evaluate_guard condition ctx null ≢ out_of_fuel
evaluate_guard-out_of_fuel_example = evaluate_guard-out_of_fuel condition ctx null

-- $.input.n < 10 && !false
abbrev tokens : List Token
tokens =
    record { kind = ref; text = "$.input.n" }
    ∷ record { kind = op; text = "<" }
    ∷ record { kind = number; text = "10" }
    ∷ record { kind = op; text = "&&" }
    ∷ record { kind = op; text = "!" }
    ∷ record { kind = word; text = "false" }
    ∷ []
