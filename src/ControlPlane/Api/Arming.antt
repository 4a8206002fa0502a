-- ===== src/ControlPlane/Api/Arming.antt =====
-- Which writes to the table of automations make a version active.
use nilscript.Base.{
  ℕ, Bool, true, false, ◌&&◌, String, ◌==◌, Option, none, some, List, [], ◌∷◌, ◌++◌, ◌+◌, any, inl,
  inr, ◌≡◌, refl, arith, eqb, eq_iff, Bool-cases,
}
use nilscript.ControlPlane.Automations.{
  Automation, Registration, is_version, update, superseded, restated, latest, archived, inserted,
  same_hash, next_version, registered, set_automation_state,
}
use nilscript.ControlPlane.Api.{
  Request, register_adapter_at, activate, set_active, active_of, draft_plan, register_plan,
  set_state, registry_authed,
}

-- A change of state that makes the version `v` of `id` in `ws` active.
abbrev pub names_active : String → String → ℕ → String → String → ℕ → Option String → Bool
names_active ws id v ws' id' v' none = false
names_active ws id v ws' id' v' (some st) =
    (ws' == ws) && (id' == id) && eqb v' v && (st == "active")

module _ {J : Type 0} (ws id : String) (v : ℕ) where
  -- An active row of this version.
  abbrev pub is_armed : Automation J → Bool
  is_armed a = is_version ws id v a && (a.state == "active")

  abbrev pub armed : List (Automation J) → Bool
  armed rows = any is_armed rows

  armed-append :
      (rows : List (Automation J)) (a : Automation J)
      → armed rows ≡ false
      → is_armed a ≡ false
      → armed (rows ++ a ∷ []) ≡ false
  armed-append [] a h k = ground arith
  armed-append (b ∷ rows) a h k = ground (arith, armed-append rows a)

  armed-update :
      (p : Automation J → Bool) (f : Automation J → Automation J) (rows : List (Automation J))
      → ((a : Automation J) → p a ≡ true → is_armed a ≡ false → is_armed (f a) ≡ false)
      → armed rows ≡ false
      → armed (update p f rows) ≡ false
  unfolding update
  armed-update p f [] keeps h = refl
  armed-update p f (a ∷ rows) keeps h = elim (Bool-cases (p a)) [
    | inl hit ↦ ground (arith, keeps a hit, armed-update p f rows keeps)
    | inr miss ↦ ground (arith, armed-update p f rows keeps)
  ]

  armed-archived :
      (r : Registration J) (l : Option (Automation J)) (rows : List (Automation J))
      → armed rows ≡ false
      → armed (archived r l rows) ≡ false
  armed-archived r none rows h = h
  armed-archived r (some l) rows h =
      armed-update (is_version r.workspace r.automation_id l.version) (superseded (l.version + 1))
        rows (λ a hit k. ground arith) h

  -- A registration that lands in another state than "active" arms nothing.
  pub armed-registered :
      (rows : List (Automation J)) (r : Registration J) (now : ℕ)
      → (r.state == "active") ≡ false
      → armed rows ≡ false
      → armed (registered rows r now) ≡ false
  unfolding registered
  armed-registered rows r now waits h =
      let l = latest r.workspace r.automation_id rows in
      elim (Bool-cases (same_hash r l)) [
        | inl same ↦ ground arith
        | inr other ↦
            let after =
              armed-append (archived r l rows) (inserted r (next_version l) now)
                (armed-archived r l rows h) (ground arith) in
            ground arith
      ]

  -- A change of state arms this version only if it names it and the state "active".
  pub armed-restated :
      (rows : List (Automation J)) (ws' id' : String) (v' : ℕ) (st : String) (by : Option String)
      → ((ws' == ws) && (id' == id) && eqb v' v && (st == "active")) ≡ false
      → armed rows ≡ false
      → armed (set_automation_state rows ws' id' v' st by).0 ≡ false
  unfolding set_automation_state
  armed-restated rows ws' id' v' st by other h =
      armed-update (is_version ws' id' v') (restated st by) rows (keeps by) h
    where
      keeps :
          (by : Option String) (a : Automation J)
          → is_version ws' id' v' a ≡ true
          → is_armed a ≡ false
          → is_armed (restated st by a) ≡ false
      keeps none a hit k = ground (
        arith,
        eq_iff a.workspace ws',
        eq_iff a.workspace ws,
        eq_iff ws' ws,
        eq_iff a.automation_id id',
        eq_iff a.automation_id id,
        eq_iff id' id,
      )
      keeps (some b) a hit k = ground (
        arith,
        eq_iff a.workspace ws',
        eq_iff a.workspace ws,
        eq_iff ws' ws,
        eq_iff a.automation_id id',
        eq_iff a.automation_id id,
        eq_iff id' id,
      )

  -- The request of a holder of the token that arms this version.
  abbrev pub is_arming : String → Request J → Bool
  unfolding registry_authed
  is_arming token (set_state header ws' id' v' (some (st, by))) =
      registry_authed token header && names_active ws id v ws' id' v' st
  is_arming token (set_state header ws' id' v' none) = false
  is_arming token (register_adapter_at header body now) = false
  is_arming token (activate header ws' id' now) = false
  is_arming token (set_active header ws' id' enabled now) = false
  is_arming token (active_of header ws') = false
  is_arming token (draft_plan header body) = false
  is_arming token (register_plan header body now) = false
