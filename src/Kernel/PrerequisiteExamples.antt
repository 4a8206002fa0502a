-- ===== src/Kernel/PrerequisiteExamples.antt =====
-- The theorems about prerequisites at concrete inputs.
use nilscript.Base.{ℕ, ◌≡◌, refl, true, false, String, ◌==◌, some, List, [], ◌∷◌}
use nilscript.Base.{◌+◌}
use nilscript.Base.{Bool}
use nilscript.Kernel.Prerequisites.{Prereq, PlanStep, planned, plan_prerequisites}
use nilscript.Kernel.Prerequisites.Ordering.{is_plan, met, plan_prerequisites-is_plan}
use nilscript.Kernel.Prerequisites.Fuel.{is_out, plan_prerequisites-is_out}
use nilscript.Kernel.PrerequisiteSaga.{failed, run_prerequisite_saga}
use nilscript.Kernel.PrerequisiteSaga.Outcome.{IsAccount, run_prerequisite_saga-IsAccount}

-- A price needs a product, which needs a category.
abbrev product : Prereq
product = record { entity = "product"; create_verb = "create_product"; carry = "product_id->id" }

abbrev category : Prereq
category = record {
  entity = "category";
  create_verb = "create_category";
  carry = "category_id->id";
}

abbrev shop : List (String × List Prereq)
shop = ("set_price", product ∷ []) ∷ ("create_product", category ∷ []) ∷ []

abbrev nothing_exists : Prereq → Bool
nothing_exists = λ q. false

abbrev create_category : PlanStep
create_category = record {
  verb = "create_category";
  entity = "category";
  carry = "category_id->id";
}

abbrev create_product : PlanStep
create_product = record { verb = "create_product"; entity = "product"; carry = "product_id->id" }

shop_plan :
    plan_prerequisites shop nothing_exists "set_price"
    ≡ planned (create_category ∷ create_product ∷ [])
unfolding plan_prerequisites
shop_plan = refl

plan_prerequisites-is_plan_example :
    (is_plan shop nothing_exists (create_product ∷ create_category ∷ []) ≡ true)
    × (met shop nothing_exists (product ∷ []) (create_product ∷ create_category ∷ []) ≡ true)
plan_prerequisites-is_plan_example =
    plan_prerequisites-is_plan shop nothing_exists "set_price"
      (create_category ∷ create_product ∷ []) shop_plan

plan_prerequisites-is_out_example :
    is_out (plan_prerequisites shop nothing_exists "set_price") ≡ false
plan_prerequisites-is_out_example = plan_prerequisites-is_out shop nothing_exists "set_price"

-- A backend that creates anything but prices; the number of writes is its state.
abbrev no_prices : String → List (String × ℕ) → ℕ → Bool × ℕ
no_prices = λ verb args w. (verb == "set_price", w + 1)

run_prerequisite_saga-IsAccount_example :
    IsAccount
      ("create_category" ∷ "create_product" ∷ [])
      "set_price"
      failed
      (some "set_price")
      ("create_category" ∷ "create_product" ∷ [])
unfolding run_prerequisite_saga
run_prerequisite_saga-IsAccount_example =
    run_prerequisite_saga-IsAccount no_prices (λ b. b) (λ b f. 7) (λ s. s.carry) (λ s. "id")
      "set_price" [] (create_category ∷ create_product ∷ []) 0
