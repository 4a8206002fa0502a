-- ===== src/Kernel/Value.antt =====
-- JSON values as the kernel handles them. Numbers with a fraction are not modelled.
use nilscript.Base.{ℕ, Bool, String, Option, none, some, ◌==◌, if◌then◌else◌}

-- `negsuc n` is -(n + 1).
pub data ℤ : Type 0 where
  pos negsuc : ℕ → ℤ

mutual
  pub data Value : Type 0 where
    null : Value
    bool : Bool → Value
    int : ℤ → Value
    str : String → Value
    list : Items → Value
    dict : Fields → Value

  pub data Items : Type 0 where
    nil : Items
    cons : Value → Items → Items

  pub data Fields : Type 0 where
    end : Fields
    field : String → Value → Fields → Fields

-- d[key] for a dict; `none` is the KeyError.
unfoldable pub get_field : String → Fields → Option Value
get_field k end = none
get_field k (field j v rest) = if j == k then some v else get_field k rest
