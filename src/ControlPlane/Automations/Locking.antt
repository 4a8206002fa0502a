-- ===== src/ControlPlane/Automations/Locking.antt =====
-- The version lock: what a version runs is never rewritten.
use nilscript.Base.{
  ℕ, ◌+◌, ◌≡◌, refl, ◌∙◌, Bool, String, Option, none, some, List, [], ◌∷◌, ◌++◌, arith, inl, inr,
  Bool-cases,
}
use nilscript.ControlPlane.Automations.{
  Automation, Registration, latest, find_version, update, superseded, archived, restated,
  registered, Write, register, set_state, apply, apply_all, same_hash,
}

-- All of a row but its state, its approver and its successor.
pub record Content (J : Type 0) : Type 0 where
  pub workspace : String
  pub automation_id : String
  pub version : ℕ
  pub content_hash : String
  pub kind : String
  pub name : J
  pub description : Option J
  pub plan : J
  pub trigger : J
  pub authored_by : String
  pub created_at : ℕ

module _ {J : Type 0} where
  abbrev pub content : Automation J → Content J
  content a = record {
    workspace = a.workspace;
    automation_id = a.automation_id;
    version = a.version;
    content_hash = a.content_hash;
    kind = a.kind;
    name = a.name;
    description = a.description;
    plan = a.plan;
    trigger = a.trigger;
    authored_by = a.authored_by;
    created_at = a.created_at;
  }

  abbrev pub content_at : String → String → ℕ → List (Automation J) → Option (Content J)
  content_at ws id v rows = elim (find_version ws id v rows) [
    | none ↦ none
    | some a ↦ some (content a)
  ]

  content_at-superseded :
      (rows : List (Automation J)) (p : Automation J → Bool) (n : ℕ) (ws id : String) (v : ℕ)
      → content_at ws id v (update p (superseded n) rows) ≡ content_at ws id v rows
  unfolding find_version update
  content_at-superseded [] p n ws id v = refl
  content_at-superseded (a ∷ rows) p n ws id v =
      ground (arith, content_at-superseded rows p n ws id v)

  content_at-restated :
      (rows : List (Automation J)) (p : Automation J → Bool) (st : String) (by : Option String)
      (ws id : String) (v : ℕ)
      → content_at ws id v (update p (restated st by) rows) ≡ content_at ws id v rows
  unfolding find_version update
  content_at-restated [] p st by ws id v = refl
  content_at-restated (a ∷ rows) p st none ws id v =
      ground (arith, content_at-restated rows p st none ws id v)
  content_at-restated (a ∷ rows) p st (some b) ws id v =
      ground (arith, content_at-restated rows p st (some b) ws id v)

  content_at-append :
      (rows : List (Automation J)) (b : Automation J) (ws id : String) (v : ℕ) {c : Content J}
      → content_at ws id v rows ≡ some c
      → content_at ws id v (rows ++ b ∷ []) ≡ some c
  unfolding find_version
  content_at-append [] b ws id v h = absurd (cc)
  content_at-append (a ∷ rows) b ws id v {c} h =
      ground (arith, content_at-append rows b ws id v {c = c})

  content_at-archived :
      (rows : List (Automation J)) (r : Registration J) (l : Option (Automation J)) (ws id : String)
      (v : ℕ)
      → content_at ws id v (archived r l rows) ≡ content_at ws id v rows
  content_at-archived rows r none ws id v = refl
  content_at-archived rows r (some l) ws id v = content_at-superseded rows _ (l.version + 1) ws id v

  content_at-registered :
      (rows : List (Automation J)) (r : Registration J) (now : ℕ) (ws id : String) (v : ℕ)
      {c : Content J}
      → content_at ws id v rows ≡ some c
      → content_at ws id v (registered rows r now) ≡ some c
  unfolding registered
  content_at-registered rows r now ws id v h =
      let l = latest r.workspace r.automation_id rows in
      elim (Bool-cases (same_hash r l)) [
        | inl same ↦ rw same h
        | inr new ↦
            rw new (content_at-append _ _ ws id v (content_at-archived rows r l ws id v ∙ h))
      ]

  content_at-apply :
      (rows : List (Automation J)) (w : Write J) (ws id : String) (v : ℕ) {c : Content J}
      → content_at ws id v rows ≡ some c
      → content_at ws id v (apply rows w) ≡ some c
  unfolding apply
  content_at-apply rows (register r now) ws id v h = content_at-registered rows r now ws id v h
  content_at-apply rows (set_state ws' id' v' st by) ws id v h =
      content_at-restated rows _ st by ws id v ∙ h

  -- Once a version is stored, no later registrations and state changes alter its hash, plan,
  -- trigger, texts, author or time, nor make it unreadable: `get_automation` at that version goes on
  -- answering with the same content.
  pub content_at-apply_all :
      (writes : List (Write J)) (rows : List (Automation J)) (ws id : String) (v : ℕ)
      {c : Content J}
      → content_at ws id v rows ≡ some c
      → content_at ws id v (apply_all rows writes) ≡ some c
  unfolding apply_all
  content_at-apply_all [] rows ws id v h = h
  content_at-apply_all (w ∷ writes) rows ws id v h =
      content_at-apply_all writes (apply rows w) ws id v (content_at-apply rows w ws id v h)
