-- ===== src/Automation/Scheduler/Newest.antt =====
-- The time of an automation's newest run only grows, and what is not due stays so as it grows.
use nilscript.Base.{
  ℕ, Bool, true, false, String, ◌==◌, Option, none, some, [], ◌∷◌, ◌≡◌, refl, inl, inr, leb, arith,
  lookup, insert, Option-cases, Bool-cases,
}
use nilscript.ControlPlane.Automations.{Automation, get_automation}
use nilscript.ControlPlane.Runs.{Run, Runs, Start, start_run, finish_run, opened, closed}
use nilscript.Automation.Dispatch.{
  Trace, Store, Ran, returned, failed, settle, fire_active, fire_manual, start_of,
}
use nilscript.Automation.Scheduler.{last_started, later}
use nilscript.Automation.Triggers.{schedule_due, cron_due, interval_due}
use nilscript.Automation.Triggers.Clock.{Moment}

-- The second time is there if the first is, and is not before it.
abbrev pub since : Option ℕ → Option ℕ → Bool
since none o = true
since (some t) none = false
since (some t) (some u) = leb t u

since_refl : (o : Option ℕ) → since o o ≡ true
since_refl none = refl
since_refl (some t) = ground arith

pub since_trans : (a b c : Option ℕ) → since a b ≡ true → since b c ≡ true → since a c ≡ true
since_trans none b c h k = refl
since_trans (some t) none c h k = absurd (cc)
since_trans (some t) (some u) none h k = absurd (cc)
since_trans (some t) (some u) (some v) h k = ground arith

since-later : (t : ℕ) (o : Option ℕ) → since o (later t o) ≡ true
since-later t none = refl
since-later t (some u) = ground arith

later-since : (t : ℕ) (o p : Option ℕ) → since o p ≡ true → since (later t o) (later t p) ≡ true
later-since t none none h = ground arith
later-since t none (some v) h = ground arith
later-since t (some u) none h = absurd (cc)
later-since t (some u) (some v) h = ground arith

last_started-new :
    (runs : Runs Trace) (key : String) (run : Run Trace) (ws id : String)
    → lookup key runs ≡ none
    → since (last_started ws id runs) (last_started ws id (insert key run runs)) ≡ true
unfolding last_started
last_started-new [] key run ws id h = refl
last_started-new ((found, old) ∷ runs) key run ws id h = ground (
  arith,
  last_started-new runs key run ws id,
  later-since old.started_at (last_started ws id runs) (last_started ws id (insert key run runs)),
)

last_started-closed :
    (runs : Runs Trace) (key : String) (run : Run Trace) (st : String) (trace : Option Trace)
    (now : ℕ) (ws id : String)
    → lookup key runs ≡ some run
    → last_started ws id (insert key (closed run st trace now) runs) ≡ last_started ws id runs
unfolding last_started
last_started-closed [] key run st trace now ws id h = absurd (cc)
last_started-closed ((found, old) ∷ runs) key run st trace now ws id h =
    ground (arith, last_started-closed runs key run st trace now ws id)

started-since :
    (runs : Runs Trace) (s : Start) (now : ℕ) (ws id : String)
    → since (last_started ws id runs) (last_started ws id (start_run runs s now).0) ≡ true
unfolding start_run
started-since runs s now ws id = elim (Option-cases (lookup s.run_id runs)) [
  | inl absent ↦ rw (start_run, absent) (last_started-new runs s.run_id (opened s now) ws id absent)
  | inr (old, found) ↦ rw (start_run, found) (since_refl (last_started ws id runs))
]

finished-same :
    (runs : Runs Trace) (key st : String) (trace : Option Trace) (now : ℕ) (ws id : String)
    → last_started ws id (finish_run runs key st trace now).0 ≡ last_started ws id runs
unfolding finish_run
finished-same runs key st trace now ws id = elim (Option-cases (lookup key runs)) [
  | inl absent ↦ rw (finish_run, absent) refl
  | inr (run, found) ↦
      rw (finish_run, found) (last_started-closed runs key run st trace now ws id found)
]

settled-same :
    (runs : Runs Trace) (key : String) (ran : Ran) (now : ℕ) (ws id : String)
    → last_started ws id (settle runs key ran now).0 ≡ last_started ws id runs
unfolding settle
settled-same runs key (returned r) now ws id = finished-same runs key _ _ now ws id
settled-same runs key (failed e) now ws id = finished-same runs key _ _ now ws id

-- Each automation's newest run in the second store is as new as in the first one.
abbrev pub Onward : {J : Type 0} → Store J → Store J → Type 0
Onward s s' =
    (ws id : String) → since (last_started ws id s.runs) (last_started ws id s'.runs) ≡ true

module _ {J : Type 0} where
  pub Onward-refl : (s : Store J) → Onward s s
  Onward-refl s ws id = since_refl (last_started ws id s.runs)

  pub Onward-trans : (r s t : Store J) → Onward r s → Onward s t → Onward r t
  Onward-trans r s t h k ws id =
      since_trans (last_started ws id r.runs) (last_started ws id s.runs)
        (last_started ws id t.runs) (h ws id) (k ws id)

module _ {J W : Type 0} (runner : J → String → W → Ran × W) (store : Store J) (world : W) where
  fire_active-Onward :
      (auto : Automation J) (s : Start) (started ended : ℕ)
      → Onward store (fire_active runner store world auto s started ended).0
  unfolding fire_active
  fire_active-Onward auto s started ended ws id =
      elim (Bool-cases (start_run store.runs s started).1) [
        | inl new ↦
            rw
              (
                new,
                settled-same (start_run store.runs s started).0 s.run_id
                    (runner auto.plan s.run_id world).0 ended ws id,
              )
              (started-since store.runs s started ws id)
        | inr old ↦ rw old (since_refl (last_started ws id store.runs))
      ]

  pub after-Onward :
      (ws id key by : String) (started ended : ℕ)
      → Onward store (fire_manual runner store world ws id key by started ended).0
  unfolding fire_manual
  after-Onward ws id key by started ended =
      elim (Option-cases (get_automation store.automations ws id none)) [
        | inl absent ↦ rw (fire_manual, absent) (Onward-refl store)
        | inr (auto, latest) ↦ elim (Bool-cases (auto.state == "active")) [
          | inl armed ↦
              rw (fire_manual, latest, armed)
                (fire_active-Onward auto (start_of auto ws id key by) started ended)
          | inr paused ↦ rw (fire_manual, latest, paused) (Onward-refl store)
        ]
      ]

cron_due-since :
    (expr : String) (last newer : Option ℕ) (now : Moment)
    → since last newer ≡ true
    → cron_due expr last now ≡ false
    → cron_due expr newer now ≡ false
unfolding cron_due
cron_due-since expr none none now h k = k
cron_due-since expr none (some u) now h k = ground arith
cron_due-since expr (some t) none now h k = absurd (cc)
cron_due-since expr (some t) (some u) now h k = ground arith

interval_due-since :
    (seconds : ℕ) (last newer : Option ℕ) (now : Moment)
    → since last newer ≡ true
    → interval_due seconds last now ≡ false
    → interval_due seconds newer now ≡ false
unfolding interval_due
interval_due-since seconds none newer now h k = absurd (cc)
interval_due-since seconds (some t) none now h k = absurd (cc)
interval_due-since seconds (some t) (some u) now h k = ground arith

-- What is not due after one run is not due after a newer one.
pub schedule_due-since :
    (cron : Option String) (seconds : Option ℕ) (last newer : Option ℕ) (now : Moment)
    → since last newer ≡ true
    → schedule_due cron seconds last now ≡ false
    → schedule_due cron seconds newer now ≡ false
unfolding schedule_due
schedule_due-since (some expr) seconds last newer now h k = cron_due-since expr last newer now h k
schedule_due-since none none last newer now h k = refl
schedule_due-since none (some seconds) last newer now h k =
    interval_due-since seconds last newer now h k
