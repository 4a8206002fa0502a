-- ===== src/ControlPlane/Automations/Arming.antt =====
-- Which version of an automation is armed, and registering the same plan again.
use mathlib.Core.Path.{subst₂}
use nilscript.Base.{
  ℕ, ◌+◌, ◌<◌, ◌≡◌, ◌≢◌, refl, sym, ◌∙◌, ap, true, false, not, ◌&&◌, String, ◌==◌, Option, none,
  some, List, [], ◌∷◌, ◌++◌, any, eqb, arith, inl, inr, Bool-cases, eq_iff, eq_refl,
}
use nilscript.ControlPlane.Automations.{
  Automation, Registration, is_key, is_version, latest, inserted, archived, registered,
  set_automation_state, Write, register, set_state, apply, apply_all, same_hash, next_version,
  version_of,
}
use nilscript.ControlPlane.Automations.Latest.{
  latest-append, latest-append_other, version-latest-update, latest-archived, next_version-eq,
  Keeps-restated,
}
use nilscript.ControlPlane.Automations.Stale.{
  stale_active, any_active, stale-superseded, archived-inactive, latest-none, stale-append,
  inactive-stale, stale-restated, armed-stale,
}

module _ {J : Type 0} where
  -- Every active row is the latest version of its automation.
  pub record IsArmedLatest (rows : List (Automation J)) : Type 0 where
    pub fresh : (ws id : String) → stale_active ws id (version_of (latest ws id rows)) rows ≡ false

  archived-fresh :
      (rows : List (Automation J)) (r : Registration J) (l : Option (Automation J))
      → l ≡ latest r.workspace r.automation_id rows
      → IsArmedLatest rows
      → any_active r.workspace r.automation_id (archived r l rows) ≡ false
  archived-fresh rows r none e h = latest-none rows r.workspace r.automation_id (sym e)
  archived-fresh rows r (some l) e h =
      archived-inactive (l.version + 1) l.version r.workspace r.automation_id rows
        (rw (ap version_of (sym e)) at (h.fresh r.workspace r.automation_id))

  module _ (rows : List (Automation J)) (r : Registration J) (now : ℕ)
      (h : IsArmedLatest rows) where
    abbrev top : Option (Automation J)
    top = latest r.workspace r.automation_id rows

    abbrev row : Automation J
    row = inserted r (next_version top) now

    abbrev after : List (Automation J)
    after = archived r top rows ++ row ∷ []

    top-lt : version_of (latest r.workspace r.automation_id (archived r top rows)) < row.version
    top-lt =
        omega (arith, latest-archived rows r top r.workspace r.automation_id, next_version-eq top)

    latest-after : version_of (latest r.workspace r.automation_id after) ≡ row.version
    latest-after = ground (
      arith,
      latest-append (archived r top rows) row r.workspace r.automation_id top-lt,
      eq_refl r.workspace,
      eq_refl r.automation_id,
    )

    after-fresh_own :
        stale_active r.workspace r.automation_id
          (version_of (latest r.workspace r.automation_id after))
          after
        ≡ false
    after-fresh_own = rw latest-after (
        stale-append (archived r top rows) row row.version r.workspace r.automation_id
          (inactive-stale (archived r top rows) row.version r.workspace r.automation_id
            (archived-fresh rows r top refl h))
          (ground arith))

    stale-archived :
        (l : Option (Automation J)) (ws id : String) (n : ℕ)
        → stale_active ws id n rows ≡ false
        → stale_active ws id n (archived r l rows) ≡ false
    stale-archived none ws id n k = k
    stale-archived (some l) ws id n k = stale-superseded _ (l.version + 1) n ws id rows k

    after-fresh_other :
        (ws id : String)
        → is_key ws id row ≡ false
        → stale_active ws id (version_of (latest ws id after)) after ≡ false
    after-fresh_other ws id other =
        rw
          (ap version_of (latest-append_other (archived r top rows) row ws id other)
            ∙ latest-archived rows r top ws id)
          (stale-append (archived r top rows) row (version_of (latest ws id rows)) ws id
            (stale-archived top ws id (version_of (latest ws id rows)) (h.fresh ws id))
            (ground arith))

    after-IsArmedLatest : IsArmedLatest after
    after-IsArmedLatest = record {
      fresh = λ ws id. elim (Bool-cases (is_key ws id row)) [
        | inl own ↦
            let u : r.workspace ≡ ws = (eq_iff r.workspace ws).0 (ground arith) in
            let v : r.automation_id ≡ id = (eq_iff r.automation_id id).0 (ground arith) in
            subst₂ (λ x y. stale_active x y (version_of (latest x y after)) after ≡ false) u v
              after-fresh_own
        | inr other ↦ after-fresh_other ws id other
      ];
    }

  registered-IsArmedLatest :
      (rows : List (Automation J)) (r : Registration J) (now : ℕ)
      → IsArmedLatest rows
      → IsArmedLatest (registered rows r now)
  unfolding registered
  registered-IsArmedLatest rows r now h =
      elim (Bool-cases (same_hash r (latest r.workspace r.automation_id rows))) [
        | inl same ↦ rw same h
        | inr new ↦ rw new (after-IsArmedLatest rows r now h)
      ]

  -- A state change arms the latest version only.
  abbrev pub ArmsLatest : List (Automation J) → Write J → Type 0
  ArmsLatest rows (register r now) = Unit
  ArmsLatest rows (set_state ws id v st by) =
      ((st == "active") && not (eqb v (version_of (latest ws id rows)))) ≡ false

  abbrev pub AllArmLatest : List (Automation J) → List (Write J) → Type 0
  AllArmLatest rows [] = Unit
  AllArmLatest rows (w ∷ ws) = ArmsLatest rows w × AllArmLatest (apply rows w) ws

  apply-IsArmedLatest :
      (rows : List (Automation J)) (w : Write J)
      → ArmsLatest rows w
      → IsArmedLatest rows
      → IsArmedLatest (apply rows w)
  unfolding apply
  apply-IsArmedLatest rows (register r now) ok h = registered-IsArmedLatest rows r now h
  apply-IsArmedLatest rows (set_state ws id v st by) ok h = record {
    fresh = λ u j. rw (version-latest-update _ _ (Keeps-restated st by) rows u j) (
        stale-restated ws id v st by u j (version_of (latest u j rows))
          (ground (arith, ok, eq_iff ws u, eq_iff id j)) rows (h.fresh u j));
  }

  apply_all-IsArmedLatest_from :
      (writes : List (Write J)) (rows : List (Automation J))
      → AllArmLatest rows writes
      → IsArmedLatest rows
      → IsArmedLatest (apply_all rows writes)
  unfolding apply_all
  apply_all-IsArmedLatest_from [] rows ok h = h
  apply_all-IsArmedLatest_from (w ∷ writes) rows ok h =
      apply_all-IsArmedLatest_from writes (apply rows w) ok.1 (apply-IsArmedLatest rows w ok.0 h)

  -- From the empty registry, if state changes to "active" are only ever made at the version that is
  -- the latest at that time, then at the end no automation has an active version other than its
  -- latest.
  pub apply_all-IsArmedLatest :
      (writes : List (Write J)) → AllArmLatest [] writes → IsArmedLatest (apply_all [] writes)
  unfolding stale_active
  apply_all-IsArmedLatest writes ok =
      apply_all-IsArmedLatest_from writes [] ok (record { fresh = λ ws id. refl })

  -- The store itself does not keep superseded versions from being armed: setting any stored version
  -- but the latest to "active" reports success, and leaves an active version that is not the latest.
  pub set_automation_state-stale_active :
      (rows : List (Automation J)) (ws id : String) (v : ℕ) (by : Option String)
      → any (is_version ws id v) rows ≡ true
      → v ≢ version_of (latest ws id rows)
      → ((set_automation_state rows ws id v "active" by).1 ≡ true)
        × (stale_active ws id
              (version_of (latest ws id (set_automation_state rows ws id v "active" by).0))
              (set_automation_state rows ws id v "active" by).0
            ≡ true)
  unfolding set_automation_state
  set_automation_state-stale_active rows ws id v by stored ne = (
    stored,
    rw (version-latest-update _ _ (Keeps-restated "active" by) rows ws id)
        (armed-stale ws id v (version_of (latest ws id rows)) by rows ne stored),
  )
