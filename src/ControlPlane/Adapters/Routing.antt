-- ===== src/ControlPlane/Adapters/Routing.antt =====
-- What the operations on the adapter registry do to the routing of each workspace.
use nilscript.Base.{
  ℕ, ◌≡◌, refl, inl, inr, Bool, true, false, ◌&&◌, String, ◌==◌, some, List, [], ◌∷◌, ◌++◌, any,
  ltb, eq_refl, eq_iff, arith, Option-cases, Bool-cases, if◌then◌else◌,
}
use nilscript.ControlPlane.Adapters.{
  Adapter, is_at, Coordinates, refreshed, registered, update, register_adapter, activate_adapter,
  set_adapter_active, newer, newest, active_adapter,
}

-- Whether a workspace routes to an adapter: some row of that key is active.
unfoldable pub routes : List Adapter → String → String → Bool
routes rows ws id = any (λ a. is_at ws id a && a.active) rows

-- The workspace and the adapter of a row are a registered pair.
abbrev pub registers : List Adapter → String → String → Bool
registers rows ws id = any (is_at ws id) rows

-- The update of `activate_adapter`.
abbrev chosen : String → ℕ → Adapter → Adapter
chosen id now a = record a { active = a.adapter_id == id; updated_at = now }

routes-exclusive :
    (rows : List Adapter) (ws id v j : String) (now : ℕ)
    → routes (update (λ a. a.workspace == ws) (chosen id now) rows) v j
      ≡ (if v == ws then registers rows v j && (j == id) else routes rows v j)
unfolding update routes
routes-exclusive [] ws id v j now = ground arith
routes-exclusive (a ∷ rows) ws id v j now = ground (
  arith,
  routes-exclusive rows ws id v j now,
  eq_iff a.workspace ws,
  eq_iff a.workspace v,
  eq_iff v ws,
  eq_iff a.adapter_id j,
  eq_iff a.adapter_id id,
  eq_iff j id,
)

-- After an activation that reports success, the workspace routes to that adapter and to no other,
-- and every other workspace routes as before.
pub routes-activate_adapter :
    (rows : List Adapter) (ws id v j : String) (now : ℕ)
    → (activate_adapter rows ws id now).1 ≡ true
    → routes (activate_adapter rows ws id now).0 v j
      ≡ (if v == ws then j == id else routes rows v j)
unfolding activate_adapter
routes-activate_adapter rows ws id v j now h =
    ground (arith, routes-exclusive rows ws id v j now, eq_iff v ws, eq_iff j id)

-- An adapter that is not registered cannot be activated, and the table stays as it is.
activate_adapter-unknown :
    (rows : List Adapter) (ws id : String) (now : ℕ)
    → registers rows ws id ≡ false
    → activate_adapter rows ws id now ≡ (rows, false)
unfolding activate_adapter
activate_adapter-unknown rows ws id now h = ground arith

routes-refreshed :
    (rows : List Adapter) (ws id v j : String) (c : Coordinates) (now : ℕ)
    → routes (update (is_at ws id) (refreshed c now) rows) v j ≡ routes rows v j
unfolding update routes
routes-refreshed [] ws id v j c now = refl
routes-refreshed (a ∷ rows) ws id v j c now = ground (arith, routes-refreshed rows ws id v j c now)

routes-append_inactive :
    (rows : List Adapter) (a : Adapter) (v j : String)
    → a.active ≡ false
    → routes (rows ++ a ∷ []) v j ≡ routes rows v j
unfolding routes
routes-append_inactive [] a v j h = ground arith
routes-append_inactive (b ∷ rows) a v j h = ground (arith, routes-append_inactive rows a v j h)

-- Registering an adapter, new or again, changes no workspace's routing.
pub routes-register_adapter :
    (rows : List Adapter) (ws id v j : String) (c : Coordinates) (now : ℕ)
    → routes (register_adapter rows ws id c now).0 v j ≡ routes rows v j
unfolding register_adapter
routes-register_adapter rows ws id v j c now = elim (Bool-cases (any (is_at ws id) rows)) [
  | inl old ↦ rw old (routes-refreshed rows ws id v j c now)
  | inr new ↦ rw new (routes-append_inactive rows (registered ws id c now) v j refl)
]

routes-switched :
    (rows : List Adapter) (ws id v j : String) (enabled : Bool) (now : ℕ)
    → routes (update (is_at ws id) (λ a. record a { active = enabled; updated_at = now }) rows) v j
      ≡ (if (v == ws) && (j == id) then registers rows ws id && enabled else routes rows v j)
unfolding update routes
routes-switched [] ws id v j enabled now = ground arith
routes-switched (a ∷ rows) ws id v j enabled now = ground (
  arith,
  routes-switched rows ws id v j enabled now,
  eq_iff a.workspace ws,
  eq_iff a.workspace v,
  eq_iff v ws,
  eq_iff a.adapter_id j,
  eq_iff a.adapter_id id,
  eq_iff j id,
)

-- Enabling or disabling one adapter sets its own routing, if it is registered, and leaves that of
-- its siblings and of every other workspace; the result tells whether it is registered.
pub routes-set_adapter_active :
    (rows : List Adapter) (ws id v j : String) (enabled : Bool) (now : ℕ)
    → ((set_adapter_active rows ws id enabled now).1 ≡ registers rows ws id)
      × (routes (set_adapter_active rows ws id enabled now).0 v j
          ≡ (if (v == ws) && (j == id) then registers rows ws id && enabled else routes rows v j))
unfolding set_adapter_active
routes-set_adapter_active rows ws id v j enabled now =
    (refl, routes-switched rows ws id v j enabled now)

-- The newest row that passes is a row: it is counted by every other test that it passes.
newest-any :
    (p q : Adapter → Bool) (rows : List Adapter) {a : Adapter}
    → newest p rows ≡ some a
    → q a ≡ true
    → (p a ≡ true) × (any q rows ≡ true)
unfolding newest
newest-any p q [] h k = absurd (cc)
newest-any p q (b ∷ rows) h k = elim (Bool-cases (p b)) [
  | inr fails ↦ ground (arith, newest-any p q rows (ground arith) k)
  | inl passes ↦ elim (Option-cases (newest p rows)) [
    | inl last ↦ ground arith
    | inr (c, e) ↦ elim (Bool-cases (ltb b.updated_at c.updated_at)) [
      | inl later ↦ ground (arith, newest-any p q rows {a = c} e (ground arith))
      | inr first ↦ ground arith
    ]
  ]
]

newest-some :
    (p : Adapter → Bool) (rows : List Adapter)
    → any p rows ≡ true
    → (a : Adapter) × (newest p rows ≡ some a)
unfolding newest
newest-some p [] h = absurd (cc)
newest-some p (b ∷ rows) h = elim (Bool-cases (p b)) [
  | inl passes ↦ (newer b (newest p rows), rw passes)
  | inr fails ↦ rw fails (newest-some p rows (ground arith))
]

-- `routes` is what `active_adapter` picks from.
active_adapter-routes :
    (rows : List Adapter) (ws : String) {a : Adapter}
    → active_adapter rows ws ≡ some a
    → routes rows ws a.adapter_id ≡ true
unfolding active_adapter routes
active_adapter-routes rows ws {a} h = elim (Bool-cases ((a.workspace == ws) && a.active)) [
  | inl on ↦
      (newest-any _ (λ b. is_at ws a.adapter_id b && b.active) rows h
        (ground (arith, eq_refl a.adapter_id))).1
  | inr off ↦ absurd (ground (arith, (newest-any _ (λ b. true) rows h refl).0))
]

routes-active_adapter :
    (rows : List Adapter) (ws id : String)
    → routes rows ws id ≡ true
    → any (λ a. (a.workspace == ws) && a.active) rows ≡ true
unfolding routes
routes-active_adapter [] ws id h = h
routes-active_adapter (a ∷ rows) ws id h = ground (arith, routes-active_adapter rows ws id)

routes-some :
    (rows : List Adapter) (ws id : String)
    → routes rows ws id ≡ true
    → (a : Adapter) × (active_adapter rows ws ≡ some a)
unfolding active_adapter
routes-some rows ws id h = newest-some _ rows (routes-active_adapter rows ws id h)

-- After an activation that reports success, the workspace's default adapter is the one that was
-- activated, whatever was active before.
pub active_adapter-activate_adapter :
    (rows : List Adapter) (ws id : String) (now : ℕ)
    → (activate_adapter rows ws id now).1 ≡ true
    → (a : Adapter) × (active_adapter (activate_adapter rows ws id now).0 ws ≡ some a)
      × (a.adapter_id ≡ id)
active_adapter-activate_adapter rows ws id now h =
    let after = (activate_adapter rows ws id now).0 in
    let on : routes after ws id ≡ true =
      ground (arith, routes-activate_adapter rows ws id ws id now h, eq_refl ws, eq_refl id) in
    let (a, picked) = routes-some after ws id on in
    let same : (a.adapter_id == id) ≡ true = ground (
      arith,
      routes-activate_adapter rows ws id ws a.adapter_id now h,
      active_adapter-routes after ws picked,
      eq_refl ws,
    ) in
    (a, picked, (eq_iff a.adapter_id id).0 same)
