-- ===== src/Sdk/Ceilings.antt =====
-- src/nilscript/sdk/ceilings.py: tier floors and numeric ceilings.
use Prim.Native.Nat.{max}
use nilscript.Base.{ℕ, ◌≡◌, String, none, some, List, [], ◌∷◌, lookup, ltb, arith, if◌then◌else◌}

-- `_TIER_ORDER`
unfoldable pub tier_order : List (String × ℕ)
tier_order = ("LOW", 0) ∷ ("MEDIUM", 1) ∷ ("HIGH", 2) ∷ ("CRITICAL", 3) ∷ []

-- `_TIER_ORDER.get(tier, default)`
unfoldable pub rank : String → ℕ → ℕ
rank tier default = elim (lookup tier tier_order) [ none ↦ default | some n ↦ n ]

unfoldable pub floor_tier : String → String → String
floor_tier tier to = if ltb (rank tier 0) (rank to 2) then to else tier

rank-known :
    (tier : String) (default n : ℕ) → lookup tier tier_order ≡ some n → rank tier default ≡ n
unfolding rank
rank-known tier default n h = rw (h, rank)

-- The tier that results stands at the higher of the two orders, so a floor never demotes a tier
-- and never leaves one below the floor, for a floor that the table knows.
pub floor_tier-max :
    (tier to : String) (n : ℕ)
    → lookup to tier_order ≡ some n
    → rank (floor_tier tier to) 0 ≡ max (rank tier 0) n
unfolding floor_tier
floor_tier-max tier to n h = ground (arith, rank-known to 0 n h, rank-known to 2 n h)
