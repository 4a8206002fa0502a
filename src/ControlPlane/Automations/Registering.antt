-- ===== src/ControlPlane/Automations/Registering.antt =====
-- Registering a plan: what the call returns, and that the same plan again changes nothing.
use nilscript.Base.{
  ℕ, ◌<◌, ◌≡◌, refl, ◌⊎◌, true, false, String, Option, none, some, List, [], ◌∷◌, ◌++◌, arith, inl,
  inr, Bool-cases, Option-cases, eq_refl,
}
use nilscript.ControlPlane.Automations.{
  Automation, Registration, is_version, latest, find_version, inserted, archived, registered,
  register_automation, get_automation, same_hash, next_version, version_of,
}
use nilscript.ControlPlane.Automations.Latest.{
  latest-append, latest-le, version-le-latest, latest-archived, next_version-eq,
}

module _ {J : Type 0} where
  find_version-above :
      (rows : List (Automation J)) (ws id : String) (v : ℕ)
      → version_of (latest ws id rows) < v
      → find_version ws id v rows ≡ none
  unfolding find_version
  find_version-above [] ws id v h = refl
  find_version-above (a ∷ rows) ws id v h =
      let ih = find_version-above rows ws id v (omega (arith, latest-le a rows ws id)) in
      elim (Bool-cases (is_version ws id v a)) [
        | inl t ↦ absurd (ground (arith, version-le-latest a rows ws id (ground arith)))
        | inr t ↦ rw t ih
      ]

  find_version-append :
      (rows : List (Automation J)) (b : Automation J) (ws id : String) (v : ℕ)
      → find_version ws id v rows ≡ none
      → is_version ws id v b ≡ true
      → find_version ws id v (rows ++ b ∷ []) ≡ some b
  unfolding find_version
  find_version-append [] b ws id v h t = ground arith
  find_version-append (a ∷ rows) b ws id v h t = ground (arith, find_version-append rows b ws id v)

  registered-same :
      (rows : List (Automation J)) (r : Registration J) (now : ℕ)
      → same_hash r (latest r.workspace r.automation_id rows) ≡ true
      → registered rows r now ≡ rows
  unfolding registered
  registered-same rows r now h = rw h

  module _ (rows : List (Automation J)) (r : Registration J) (now : ℕ) where
    abbrev pub top : Option (Automation J)
    top = latest r.workspace r.automation_id rows

    abbrev pub row : Automation J
    row = inserted r (next_version top) now

    top-lt : version_of (latest r.workspace r.automation_id (archived r top rows)) < row.version
    top-lt =
        omega (arith, latest-archived rows r top r.workspace r.automation_id, next_version-eq top)

    latest-new :
        same_hash r top ≡ false
        → latest r.workspace r.automation_id (registered rows r now) ≡ some row
    unfolding registered
    latest-new new = rw new (
        ground (
          arith,
          latest-append (archived r top rows) row r.workspace r.automation_id top-lt,
          eq_refl r.workspace,
          eq_refl r.automation_id,
        ))

    same_hash-after :
        same_hash r (latest r.workspace r.automation_id (registered rows r now)) ≡ true
    same_hash-after = elim (Bool-cases (same_hash r top)) [
      | inl same ↦ rw (registered-same rows r now same) same
      | inr new ↦ rw (latest-new new) (eq_refl r.content_hash)
    ]

    -- A registration whose hash differs from the latest version's, or of an automation that is not
    -- stored, returns the new row, which is the next version and from then on the latest; any other
    -- registration leaves the table as it is.
    pub register_automation-cases :
        (same_hash r top ≡ false)
          × ((register_automation rows r now).1 ≡ some row)
          × (get_automation (register_automation rows r now).0 r.workspace r.automation_id none
              ≡ some row)
        ⊎ (same_hash r top ≡ true) × ((register_automation rows r now).0 ≡ rows)
    unfolding register_automation get_automation
    register_automation-cases = elim (Bool-cases (same_hash r top)) [
      | inl same ↦ inr (same, rw same)
      | inr new ↦ inl (
        new,
        rw new (
            find_version-append (archived r top rows) row r.workspace r.automation_id row.version
              (find_version-above (archived r top rows) r.workspace r.automation_id row.version
                top-lt)
              (ground (arith, eq_refl r.workspace, eq_refl r.automation_id))),
        latest-new new,
      )
    ]

  -- Registering a plan with the hash that was registered last, for the same automation, is a no-op,
  -- whatever else the second call says.
  pub register_automation-again :
      (rows : List (Automation J)) (r s : Registration J) (now later : ℕ)
      → s.workspace ≡ r.workspace
      → s.automation_id ≡ r.automation_id
      → s.content_hash ≡ r.content_hash
      → (register_automation (register_automation rows r now).0 s later).0
        ≡ (register_automation rows r now).0
  unfolding register_automation
  register_automation-again rows r s now later w a c =
      registered-same (registered rows r now) s later (
        rw (w, a)
          (ground (
            arith,
            same_hash-after rows r now,
            Option-cases (latest r.workspace r.automation_id (registered rows r now)),
          )))
