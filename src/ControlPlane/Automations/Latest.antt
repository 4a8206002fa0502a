-- ===== src/ControlPlane/Automations/Latest.antt =====
-- The latest version of an automation, under the changes that the registry makes.
use nilscript.Base.{
  ℕ, ◌+◌, ◌≤◌, ◌<◌, ◌≡◌, refl, ap, ◌∙◌, Bool, true, false, String, Option, none, some, List, [],
  ◌∷◌, ◌++◌, arith, inl, inr, Option-cases, if◌then◌else◌,
}
use nilscript.ControlPlane.Automations.{
  Automation, Registration, is_key, latest, update, superseded, archived, restated, next_version,
  version_of,
}

module _ {J : Type 0} where
  pub latest-le :
      (a : Automation J) (rows : List (Automation J)) (ws id : String)
      → version_of (latest ws id rows) ≤ version_of (latest ws id (a ∷ rows))
  unfolding latest
  latest-le a rows ws id = elim (Option-cases (latest ws id rows)) [
    | inl absent ↦ ground arith
    | inr (b, found) ↦ ground arith
  ]

  pub version-le-latest :
      (a : Automation J) (rows : List (Automation J)) (ws id : String)
      → is_key ws id a ≡ true
      → a.version ≤ version_of (latest ws id (a ∷ rows))
  unfolding latest
  version-le-latest a rows ws id h = elim (Option-cases (latest ws id rows)) [
    | inl absent ↦ ground arith
    | inr (b, found) ↦ ground arith
  ]

  pub latest-append :
      (rows : List (Automation J)) (b : Automation J) (ws id : String)
      → version_of (latest ws id rows) < b.version
      → latest ws id (rows ++ b ∷ []) ≡ (if is_key ws id b then some b else latest ws id rows)
  unfolding latest
  latest-append [] b ws id h = ground arith
  latest-append (a ∷ rows) b ws id h =
      let ih = latest-append rows b ws id (omega (arith, latest-le a rows ws id)) in
      elim (Option-cases (latest ws id rows)) [
        | inl absent ↦ ground arith
        | inr (c, found) ↦ ground arith
      ]

  pub latest-append_other :
      (rows : List (Automation J)) (b : Automation J) (ws id : String)
      → is_key ws id b ≡ false
      → latest ws id (rows ++ b ∷ []) ≡ latest ws id rows
  unfolding latest
  latest-append_other [] b ws id h = ground arith
  latest-append_other (a ∷ rows) b ws id h = ground (arith, latest-append_other rows b ws id h)

  -- What an update does to the row that is found.
  abbrev pub touched :
      (Automation J → Bool)
      → (Automation J → Automation J)
      → Option (Automation J)
      → Option (Automation J)
  touched p f none = none
  touched p f (some a) = some (if p a then f a else a)

  -- An update that leaves the key and the version of each row.
  pub record Keeps (f : Automation J → Automation J) : Type 0 where
    pub same_workspace : (a : Automation J) → (f a).workspace ≡ a.workspace
    pub same_id : (a : Automation J) → (f a).automation_id ≡ a.automation_id
    pub same_version : (a : Automation J) → (f a).version ≡ a.version

  module _ (p : Automation J → Bool) (f : Automation J → Automation J) (keeps : Keeps f) where
    pub latest-update :
        (rows : List (Automation J)) (ws id : String)
        → latest ws id (update p f rows) ≡ touched p f (latest ws id rows)
    unfolding latest update
    latest-update [] ws id = refl
    latest-update (a ∷ rows) ws id = elim (Option-cases (latest ws id rows)) [
      | inl absent ↦ ground (
        arith,
        latest-update rows ws id,
        keeps.same_workspace a,
        keeps.same_id a,
        keeps.same_version a,
      )
      | inr (c, found) ↦ ground (
        arith,
        latest-update rows ws id,
        keeps.same_workspace a,
        keeps.same_id a,
        keeps.same_version a,
        keeps.same_version c,
      )
    ]

    pub version_of-touched : (o : Option (Automation J)) → version_of (touched p f o) ≡ version_of o
    version_of-touched none = refl
    version_of-touched (some a) = ground (arith, keeps.same_version a)

    pub version-latest-update :
        (rows : List (Automation J)) (ws id : String)
        → version_of (latest ws id (update p f rows)) ≡ version_of (latest ws id rows)
    version-latest-update rows ws id =
        ap version_of (latest-update rows ws id) ∙ version_of-touched (latest ws id rows)

  pub Keeps-superseded : (n : ℕ) → Keeps (superseded n)
  Keeps-superseded n = record {
    same_workspace = λ a. refl;
    same_id = λ a. refl;
    same_version = λ a. refl;
  }

  pub Keeps-restated : (st : String) (by : Option String) → Keeps (restated st by)
  Keeps-restated st none = record {
    same_workspace = λ a. refl;
    same_id = λ a. refl;
    same_version = λ a. refl;
  }
  Keeps-restated st (some b) = record {
    same_workspace = λ a. refl;
    same_id = λ a. refl;
    same_version = λ a. refl;
  }

  pub latest-archived :
      (rows : List (Automation J)) (r : Registration J) (l : Option (Automation J)) (ws id : String)
      → version_of (latest ws id (archived r l rows)) ≡ version_of (latest ws id rows)
  latest-archived rows r none ws id = refl
  latest-archived rows r (some l) ws id =
      version-latest-update _ _ (Keeps-superseded (l.version + 1)) rows ws id

  pub next_version-eq : (o : Option (Automation J)) → next_version o ≡ version_of o + 1
  next_version-eq none = omega arith
  next_version-eq (some a) = refl
