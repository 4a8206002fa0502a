-- ===== src/Automation/Scheduler/Loop.antt =====
-- The loop over armed automations, for steps that a newer run leaves as they are or turns to nothing:
-- going through it again fires nothing.
use nilscript.Base.{ℕ, suc, true, String, List, [], ◌∷◌, ◌≡◌, refl, ap, ◌∙◌, ◌⊎◌, inl, inr}
use nilscript.ControlPlane.Automations.{Automation}
use nilscript.Automation.Dispatch.{Store, Ran}
use nilscript.Automation.Scheduler.Done.{
  is_done, after, after-automations, after-is_done, is_done-after, is_done-Keeps,
}
use nilscript.Automation.Scheduler.Newest.{Onward, Onward-refl, Onward-trans, after-Onward}
use nilscript.Automation.Scheduler.{Step, skip, aborted, fire, Dispatched, fire_each, take_step}

-- What a step may become: what is skipped is skipped then too, and what is fired may be skipped.
abbrev pub Settles : Step → Step → Type 0
Settles aborted next = next ≡ aborted
Settles skip next = next ≡ skip
Settles (fire key) next = (next ≡ skip) ⊎ (next ≡ fire key)

-- A step that, for an automation, settles as the newest runs of the store grow.
abbrev pub Steady : {J : Type 0} → (Store J → Automation J → Step) → Type 0
Steady {J} step =
    (s s' : Store J) → Onward s s' → (auto : Automation J) → Settles (step s auto) (step s' auto)

module _ {J : Type 0} (step : Store J → Automation J → Step) where
  -- There is nothing to do for the automations up to the one, if any, that stops the loop.
  abbrev pub HandledAt : Step → Store J → Automation J → Type 0 → Type 0
  HandledAt aborted store auto rest = Unit
  HandledAt skip store auto rest = rest
  HandledAt (fire key) store auto rest =
      (is_done store auto.workspace auto.automation_id key ≡ true) × rest

  abbrev pub Handled : Store J → List (Automation J) → Type 0
  Handled store [] = Unit
  Handled store (auto ∷ autos) = HandledAt (step store auto) store auto (Handled store autos)

module _ {J W : Type 0} (runner : J → String → W → Ran × W) (step : Store J → Automation J → Step)
    (by : String) where
  abbrev Rest : Type 0
  Rest = Store J → W → Dispatched J W

  abbrev pub run_loop : List (Automation J) → (ℕ → ℕ × ℕ) → Rest
  run_loop = fire_each runner step by

  step-automations :
      (st : Step) (auto : Automation J) (times : ℕ × ℕ) (rest : Rest)
      → ((s : Store J) (w : W) → (rest s w).0.automations ≡ s.automations)
      → (store : Store J) (world : W)
      → (take_step runner st auto by times rest store world).0.automations ≡ store.automations
  unfolding take_step
  step-automations aborted auto times rest h store world = refl
  step-automations skip auto times rest h store world = h store world
  step-automations (fire key) auto (started, ended) rest h store world =
      let done = after runner store world auto.workspace auto.automation_id key by started ended in
      h done.0 done.1
      ∙ after-automations runner store world auto.workspace auto.automation_id key by started ended

  pub run_loop-automations :
      (autos : List (Automation J)) (clock : ℕ → ℕ × ℕ) (store : Store J) (world : W)
      → (run_loop autos clock store world).0.automations ≡ store.automations
  unfolding fire_each
  run_loop-automations [] clock store world = refl
  run_loop-automations (auto ∷ autos) clock store world =
      step-automations (step store auto) auto (clock 0) _
        (run_loop-automations autos (λ n. clock (suc n))) store world

  step-is_done :
      (ws id key : String) (st : Step) (auto : Automation J) (times : ℕ × ℕ) (rest : Rest)
      → ((s : Store J) (w : W) → is_done s ws id key ≡ true → is_done (rest s w).0 ws id key ≡ true)
      → (store : Store J) (world : W) → is_done store ws id key ≡ true
      → is_done (take_step runner st auto by times rest store world).0 ws id key ≡ true
  unfolding take_step
  step-is_done ws id key aborted auto times rest h store world d = d
  step-is_done ws id key skip auto times rest h store world d = h store world d
  step-is_done ws id key (fire k) auto (started, ended) rest h store world d =
      let done = after runner store world auto.workspace auto.automation_id k by started ended in
      h done.0 done.1 (
        after-is_done runner store world auto.workspace auto.automation_id k by started ended ws id
          key d)

  run_loop-is_done :
      (ws id key : String) (autos : List (Automation J)) (clock : ℕ → ℕ × ℕ) (store : Store J)
      (world : W)
      → is_done store ws id key ≡ true
      → is_done (run_loop autos clock store world).0 ws id key ≡ true
  unfolding fire_each
  run_loop-is_done ws id key [] clock store world d = d
  run_loop-is_done ws id key (auto ∷ autos) clock store world d =
      step-is_done ws id key (step store auto) auto (clock 0) _
        (run_loop-is_done ws id key autos (λ n. clock (suc n))) store world d

  step-Onward :
      (st : Step) (auto : Automation J) (times : ℕ × ℕ) (rest : Rest)
      → ((s : Store J) (w : W) → Onward s (rest s w).0)
      → (store : Store J) (world : W)
      → Onward store (take_step runner st auto by times rest store world).0
  unfolding take_step
  step-Onward aborted auto times rest h store world = Onward-refl store
  step-Onward skip auto times rest h store world = h store world
  step-Onward (fire key) auto (started, ended) rest h store world =
      let done = after runner store world auto.workspace auto.automation_id key by started ended in
      Onward-trans store done.0 (rest done.0 done.1).0
        (after-Onward runner store world auto.workspace auto.automation_id key by started ended)
        (h done.0 done.1)

  run_loop-Onward :
      (autos : List (Automation J)) (clock : ℕ → ℕ × ℕ) (store : Store J) (world : W)
      → Onward store (run_loop autos clock store world).0
  unfolding fire_each
  run_loop-Onward [] clock store world = Onward-refl store
  run_loop-Onward (auto ∷ autos) clock store world =
      step-Onward (step store auto) auto (clock 0) _ (run_loop-Onward autos (λ n. clock (suc n)))
        store world

  step-Handled :
      (st : Step) (auto : Automation J) (times : ℕ × ℕ) (rest : Rest) (autos : List (Automation J))
      → ((s : Store J) (w : W) → Handled step (rest s w).0 autos)
      → ((ws id key : String) (s : Store J) (w : W)
          → is_done s ws id key ≡ true
          → is_done (rest s w).0 ws id key ≡ true)
      → (store : Store J) (world : W) (next : Step) → Settles st next
      → let end = (take_step runner st auto by times rest store world).0 in
        HandledAt step next end auto (Handled step end autos)
  unfolding take_step
  step-Handled aborted auto times rest autos h d store world next e = rw e tt
  step-Handled skip auto times rest autos h d store world next e = rw e (h store world)
  step-Handled (fire key) auto (started, ended) rest autos h d store world next (inl e) =
      let done = after runner store world auto.workspace auto.automation_id key by started ended in
      rw e (h done.0 done.1)
  step-Handled (fire key) auto (started, ended) rest autos h d store world next (inr e) =
      let done = after runner store world auto.workspace auto.automation_id key by started ended in
      rw e (
        d auto.workspace auto.automation_id key done.0 done.1 (
            is_done-after runner store world auto.workspace auto.automation_id key by started
              ended),
        h done.0 done.1,
      )

  -- After the loop there is nothing to do for them.
  pub run_loop-Handled :
      Steady step
      → (autos : List (Automation J)) (clock : ℕ → ℕ × ℕ) (store : Store J) (world : W)
      → Handled step (run_loop autos clock store world).0 autos
  unfolding fire_each
  run_loop-Handled steady [] clock store world = tt
  run_loop-Handled steady (auto ∷ autos) clock store world =
      step-Handled (step store auto) auto (clock 0) _ autos
        (run_loop-Handled steady autos (λ n. clock (suc n)))
        (λ ws id key. run_loop-is_done ws id key autos (λ n. clock (suc n))) store world _
        (steady store _ (run_loop-Onward (auto ∷ autos) clock store world) auto)

  -- A loop that ends where it began.
  abbrev pub Keeps : Rest → Store J → W → Type 0
  Keeps rest store world = ((rest store world).0 ≡ store) × ((rest store world).1 ≡ world)

  step-Keeps :
      (st : Step) (auto : Automation J) (times : ℕ × ℕ) (rest : Rest) (store : Store J) (world : W)
      (others : Type 0)
      → (others → Keeps rest store world)
      → HandledAt step st store auto others
      → Keeps (take_step runner st auto by times rest) store world
  unfolding take_step
  step-Keeps aborted auto times rest store world others h d = (refl, refl)
  step-Keeps skip auto times rest store world others h d = h d
  step-Keeps (fire key) auto (started, ended) rest store world others h d =
      let done = after runner store world auto.workspace auto.automation_id key by started ended in
      let (same, same_world) =
        is_done-Keeps runner store world auto.workspace auto.automation_id key by started ended
          d.0 in
      (
        ap (λ s. (rest s done.1).0) same ∙ ap (λ w. (rest store w).0) same_world ∙ (h d.1).0,
        ap (λ s. (rest s done.1).1) same ∙ ap (λ w. (rest store w).1) same_world ∙ (h d.1).1,
      )

  pub run_loop-Keeps :
      (autos : List (Automation J)) (clock : ℕ → ℕ × ℕ) (store : Store J) (world : W)
      → Handled step store autos
      → Keeps (run_loop autos clock) store world
  unfolding fire_each
  run_loop-Keeps [] clock store world h = (refl, refl)
  run_loop-Keeps (auto ∷ autos) clock store world h =
      step-Keeps (step store auto) auto (clock 0) _ store world (Handled step store autos)
        (run_loop-Keeps autos (λ n. clock (suc n)) store world) h
