-- ===== src/ControlPlane/Automations/Numbering.antt =====
-- Versions are numbered 1, 2, 3, … without gaps, and the latest is found.
use nilscript.Base.{
  ℕ, suc, ◌+◌, ◌≡◌, refl, Bool, ◌&&◌, String, Option, none, some, List, [], ◌∷◌, ◌++◌, leb, arith,
  inl, inr, Bool-cases, if◌then◌else◌, eq_iff,
}
use nilscript.ControlPlane.Automations.{
  Automation, Registration, is_key, is_version, latest, update, inserted, archived, registered,
  Write, register, set_state, apply, apply_all, same_hash, next_version, version_of,
}
use nilscript.ControlPlane.Automations.Latest.{
  latest-append, latest-append_other, Keeps, Keeps-superseded, Keeps-restated, next_version-eq,
  version-latest-update,
}

module _ {J : Type 0} where
  -- How many rows an automation has, and how many at one version.
  abbrev pub count : String → String → List (Automation J) → ℕ
  count ws id [] = 0
  count ws id (a ∷ rows) = if is_key ws id a then suc (count ws id rows) else count ws id rows

  abbrev pub count_version : String → String → ℕ → List (Automation J) → ℕ
  count_version ws id v [] = 0
  count_version ws id v (a ∷ rows) =
      if is_version ws id v a then suc (count_version ws id v rows) else count_version ws id v rows

  -- Every automation's versions are 1, 2, …, up to the number of its rows, each once, and the latest
  -- is the last of them.
  pub record IsNumbered (rows : List (Automation J)) : Type 0 where
    pub top : (ws id : String) → version_of (latest ws id rows) ≡ count ws id rows
    pub each :
        (ws id : String) (v : ℕ)
        → count_version ws id v rows ≡ (if leb 1 v && leb v (count ws id rows) then 1 else 0)

  count-append :
      (rows : List (Automation J)) (b : Automation J) (ws id : String)
      → count ws id (rows ++ b ∷ [])
        ≡ (if is_key ws id b then suc (count ws id rows) else count ws id rows)
  count-append [] b ws id = refl
  count-append (a ∷ rows) b ws id = ground (arith, count-append rows b ws id)

  count_version-append :
      (rows : List (Automation J)) (b : Automation J) (ws id : String) (v : ℕ)
      → count_version ws id v (rows ++ b ∷ []) ≡ (
          if is_version ws id v b
          then suc (count_version ws id v rows)
          else count_version ws id v rows)
  count_version-append [] b ws id v = refl
  count_version-append (a ∷ rows) b ws id v = ground (arith, count_version-append rows b ws id v)

  module _ (p : Automation J → Bool) (f : Automation J → Automation J) (keeps : Keeps f) where
    count-update :
        (rows : List (Automation J)) (ws id : String)
        → count ws id (update p f rows) ≡ count ws id rows
    unfolding update
    count-update [] ws id = refl
    count-update (a ∷ rows) ws id =
        ground (arith, count-update rows ws id, keeps.same_workspace a, keeps.same_id a)

    count_version-update :
        (rows : List (Automation J)) (ws id : String) (v : ℕ)
        → count_version ws id v (update p f rows) ≡ count_version ws id v rows
    unfolding update
    count_version-update [] ws id v = refl
    count_version-update (a ∷ rows) ws id v = ground (
      arith,
      count_version-update rows ws id v,
      keeps.same_workspace a,
      keeps.same_id a,
      keeps.same_version a,
    )

    update-IsNumbered :
        {rows : List (Automation J)} → IsNumbered rows → IsNumbered (update p f rows)
    update-IsNumbered {rows} h = record {
      top = λ ws id. rw (version-latest-update p f keeps, count-update) (h.top ws id);
      each = λ ws id v. rw (count_version-update, count-update) (h.each ws id v);
    }

  append-IsNumbered :
      {rows : List (Automation J)} (b : Automation J)
      → IsNumbered rows
      → b.version ≡ count b.workspace b.automation_id rows + 1
      → IsNumbered (rows ++ b ∷ [])
  append-IsNumbered {rows} b h e = record {
    top = λ ws id. elim (Bool-cases (is_key ws id b)) [
      | inl own ↦ ground (
        arith,
        h.top ws id,
        count-append rows b ws id,
        latest-append rows b ws id,
        eq_iff b.workspace ws,
        eq_iff b.automation_id id,
      )
      | inr other ↦
          ground
            (arith, h.top ws id, count-append rows b ws id, latest-append_other rows b ws id other)
    ];
    each = λ ws id v. ground (
      arith,
      count-append rows b ws id,
      count_version-append rows b ws id v,
      h.each ws id v,
      eq_iff b.workspace ws,
      eq_iff b.automation_id id,
    );
  }

  archived-IsNumbered :
      {rows : List (Automation J)} (r : Registration J) (l : Option (Automation J))
      → IsNumbered rows
      → IsNumbered (archived r l rows)
  archived-IsNumbered r none h = h
  archived-IsNumbered r (some l) h = update-IsNumbered _ _ (Keeps-superseded (l.version + 1)) h

  count-archived :
      (rows : List (Automation J)) (r : Registration J) (l : Option (Automation J)) (ws id : String)
      → count ws id (archived r l rows) ≡ count ws id rows
  count-archived rows r none ws id = refl
  count-archived rows r (some l) ws id =
      count-update _ _ (Keeps-superseded (l.version + 1)) rows ws id

  registered-IsNumbered :
      {rows : List (Automation J)} (r : Registration J) (now : ℕ)
      → IsNumbered rows
      → IsNumbered (registered rows r now)
  unfolding registered
  registered-IsNumbered {rows} r now h =
      let l = latest r.workspace r.automation_id rows in
      elim (Bool-cases (same_hash r l)) [
        | inl same ↦ rw same h
        | inr new ↦ rw new (
            append-IsNumbered (inserted r (next_version l) now) (archived-IsNumbered r l h) (
              omega (
                arith,
                next_version-eq l,
                h.top r.workspace r.automation_id,
                count-archived rows r l r.workspace r.automation_id,
              )))
      ]

  apply-IsNumbered :
      {rows : List (Automation J)} (w : Write J) → IsNumbered rows → IsNumbered (apply rows w)
  unfolding apply
  apply-IsNumbered (register r now) h = registered-IsNumbered r now h
  apply-IsNumbered (set_state ws id v st by) h = update-IsNumbered _ _ (Keeps-restated st by) h

  pub apply_all-IsNumbered_from :
      (writes : List (Write J)) (rows : List (Automation J))
      → IsNumbered rows
      → IsNumbered (apply_all rows writes)
  unfolding apply_all
  apply_all-IsNumbered_from [] rows h = h
  apply_all-IsNumbered_from (w ∷ writes) rows h =
      apply_all-IsNumbered_from writes (apply rows w) (apply-IsNumbered w h)

  -- From the empty registry, after any registrations and state changes, the versions of every
  -- automation are 1, 2, …, up to the number of its rows, each stored once, and the version that the
  -- registry calls the latest is the last of them.
  pub apply_all-IsNumbered : (writes : List (Write J)) → IsNumbered (apply_all [] writes)
  unfolding latest
  apply_all-IsNumbered writes =
      apply_all-IsNumbered_from writes []
        (record { top = λ ws id. refl; each = λ ws id v. ground arith })
