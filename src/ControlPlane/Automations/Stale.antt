-- ===== src/ControlPlane/Automations/Stale.antt =====
-- Counting the active rows of an automation at other versions than one, under the changes that the
-- registry makes.
use nilscript.Base.{
  ℕ, ◌≡◌, ◌≢◌, refl, Bool, true, false, not, ◌&&◌, String, ◌==◌, Option, none, some, List, [], ◌∷◌,
  ◌++◌, any, eqb, arith, inl, inr, Bool-cases, if◌then◌else◌, eq_iff,
}
use nilscript.ControlPlane.Automations.{
  Automation, is_key, is_version, latest, update, superseded, restated,
}

-- A state change of version `v` that arms a version other than `n` of the same automation.
abbrev pub arms_other : String → String → ℕ → String → String → String → ℕ → Bool
arms_other ws id v st u j n = (st == "active") && (ws == u) && (id == j) && not (eqb v n)

module _ {J : Type 0} where
  -- Some active row of the automation has another version than `n`.
  unfoldable pub stale_active : String → String → ℕ → List (Automation J) → Bool
  stale_active ws id n rows =
      any (λ a. is_key ws id a && (a.state == "active") && not (eqb a.version n)) rows

  pub any_active : String → String → List (Automation J) → Bool
  any_active ws id rows = any (λ a. is_key ws id a && (a.state == "active")) rows

  -- A row counted after an update was counted before it.
  any-update :
      (q r p : Automation J → Bool) (f : Automation J → Automation J)
      → ((a : Automation J) → q a ≡ false → r (if p a then f a else a) ≡ false)
      → (rows : List (Automation J)) → any q rows ≡ false
      → any r (update p f rows) ≡ false
  unfolding update
  any-update q r p f step [] h = refl
  any-update q r p f step (a ∷ rows) h =
      ground (arith, step a (ground arith), any-update q r p f step rows (ground arith))

  -- The tests that the two counts make on a row.
  abbrev pub is_stale : String → String → ℕ → Automation J → Bool
  is_stale ws id n a = is_key ws id a && (a.state == "active") && not (eqb a.version n)

  abbrev pub is_active : String → String → Automation J → Bool
  is_active ws id a = is_key ws id a && (a.state == "active")

  pub stale-superseded :
      (p : Automation J → Bool) (m n : ℕ) (ws id : String) (rows : List (Automation J))
      → stale_active ws id n rows ≡ false
      → stale_active ws id n (update p (superseded m) rows) ≡ false
  unfolding stale_active
  stale-superseded p m n ws id =
      any-update (is_stale ws id n) (is_stale ws id n) p (superseded m)
        λ a h. elim (Bool-cases (p a)) [ inl t ↦ rw t (ground arith) | inr t ↦ rw t h ]

  pub archived-inactive :
      (m n : ℕ) (ws id : String) (rows : List (Automation J))
      → stale_active ws id n rows ≡ false
      → any_active ws id (update (is_version ws id n) (superseded m) rows) ≡ false
  unfolding stale_active any_active
  archived-inactive m n ws id =
      any-update (is_stale ws id n) (is_active ws id) (is_version ws id n) (superseded m) λ a h.
        elim (Bool-cases (is_version ws id n a)) [
          | inl t ↦ rw t (ground arith)
          | inr t ↦ rw t (ground arith)
        ]

  pub latest-none :
      (rows : List (Automation J)) (ws id : String)
      → latest ws id rows ≡ none
      → any_active ws id rows ≡ false
  unfolding latest any_active
  latest-none [] ws id h = refl
  latest-none (a ∷ rows) ws id h = ground (arith, latest-none rows ws id)

  pub stale-append :
      (rows : List (Automation J)) (b : Automation J) (n : ℕ) (ws id : String)
      → stale_active ws id n rows ≡ false
      → (is_key ws id b && not (eqb b.version n)) ≡ false
      → stale_active ws id n (rows ++ b ∷ []) ≡ false
  unfolding stale_active
  stale-append [] b n ws id h k = ground arith
  stale-append (a ∷ rows) b n ws id h k = ground (arith, stale-append rows b n ws id)

  pub inactive-stale :
      (rows : List (Automation J)) (n : ℕ) (ws id : String)
      → any_active ws id rows ≡ false
      → stale_active ws id n rows ≡ false
  unfolding stale_active any_active
  inactive-stale [] n ws id h = refl
  inactive-stale (a ∷ rows) n ws id h = ground (arith, inactive-stale rows n ws id)

  restated-fits :
      (ws id : String) (v : ℕ) (st : String) (by : Option String) (u j : String) (n : ℕ)
      (a : Automation J)
      → arms_other ws id v st u j n ≡ false
      → is_version ws id v a ≡ true
      → is_stale u j n (restated st by a) ≡ false
  restated-fits ws id v st none u j n a ok t = ground (
    arith,
    eq_iff a.workspace ws,
    eq_iff a.workspace u,
    eq_iff ws u,
    eq_iff a.automation_id id,
    eq_iff a.automation_id j,
    eq_iff id j,
  )
  restated-fits ws id v st (some b) u j n a ok t = ground (
    arith,
    eq_iff a.workspace ws,
    eq_iff a.workspace u,
    eq_iff ws u,
    eq_iff a.automation_id id,
    eq_iff a.automation_id j,
    eq_iff id j,
  )

  pub stale-restated :
      (ws id : String) (v : ℕ) (st : String) (by : Option String) (u j : String) (n : ℕ)
      → arms_other ws id v st u j n ≡ false
      → (rows : List (Automation J)) → stale_active u j n rows ≡ false
      → stale_active u j n (update (is_version ws id v) (restated st by) rows) ≡ false
  unfolding stale_active
  stale-restated ws id v st by u j n ok =
      any-update (is_stale u j n) (is_stale u j n) (is_version ws id v) (restated st by) λ a h.
        elim (Bool-cases (is_version ws id v a)) [
          | inl t ↦ rw t (restated-fits ws id v st by u j n a ok t)
          | inr t ↦ rw t h
        ]

  pub armed-stale :
      (ws id : String) (v n : ℕ) (by : Option String) (rows : List (Automation J))
      → v ≢ n
      → any (is_version ws id v) rows ≡ true
      → stale_active ws id n (update (is_version ws id v) (restated "active" by) rows) ≡ true
  unfolding stale_active update
  armed-stale ws id v n by [] ne h = absurd (cc)
  armed-stale ws id v n none (a ∷ rows) ne h = elim (Bool-cases (is_version ws id v a)) [
    | inl t ↦ rw t (ground arith)
    | inr t ↦ rw t (ground (arith, armed-stale ws id v n none rows ne))
  ]
  armed-stale ws id v n (some b) (a ∷ rows) ne h = elim (Bool-cases (is_version ws id v a)) [
    | inl t ↦ rw t (ground arith)
    | inr t ↦ rw t (ground (arith, armed-stale ws id v n (some b) rows ne))
  ]
