-- ===== src/Bootstrap.antt =====
-- libs/app/bootstrap.py: `service_lifespan`, the start and the stop of a service.
-- The container, the listeners and the tasks are parameters over a state `S` of everything outside;
-- `serve` is what happens between, at the `yield`, and may raise too.
pub mod Cleanup
pub mod Runs
use mmo_backend_server.Prelude.{
  ℕ, Bool, true, false, ◌&&◌, Option, none, some, List, [], ◌∷◌, ◌++◌, is_some, if◌then◌else◌,
  Exception, Result, ok, raised, Exec, pure, raise, lift, modify, ◌>>=◌, ◌>>◌, try_except,
  try_finally,
}

abbrev pub reverse : {A : Type 0} → List A → List A
reverse [] = []
reverse (x ∷ xs) = reverse xs ++ x ∷ []

-- `T` are the tasks of the event loop.
pub record Parts (S Settings C L T : Type 0) : Type 0 where
  pub settings : Option Settings
  -- `"settings" in inspect.signature(container_factory).parameters`
  pub takes_settings : Bool
  pub container_factory : Option Settings → Exec S C
  pub topology_declarator : C → Exec S (Unit {0})
  pub listener_factories : List (C → Exec S L)
  pub background_tasks : List (Option Settings → C → S → T × S)
  pub start : L → Exec S (Unit {0})
  pub stop : L → Exec S (Unit {0})
  pub cancel : T → S → S
  -- `asyncio.gather` of cancelled tasks, which returns their exceptions
  pub await_tasks : List T → S → S
  pub shutdown : C → Exec S (Unit {0})
  pub serve : Exec S (Unit {0})

-- `app.state.container`, and the local variables of `service_lifespan`.
pub record Lifespan (S C L T : Type 0) : Type 0 where
  pub outer : S
  pub container : Option C
  pub listeners : List L
  pub running_bg_tasks : List T

abbrev pub joined : {A : Type 0} → Result A → Result (List A) → Result (List A)
joined (raised e) rest = raised e
joined (ok x) (raised e) = raised e
joined (ok x) (ok xs) = ok (x ∷ xs)

abbrev pub outside : {S C L T A : Type 0} → Exec S A → Exec (Lifespan S C L T) A
outside call s = let (r, o) = call s.outer in (r, record s { outer = o })

module _ {S Settings C L T : Type 0} (p : Parts S Settings C L T) where
  abbrev pub create_container : Exec S C
  create_container =
      if is_some p.settings && p.takes_settings
      then p.container_factory p.settings
      else p.container_factory none

  -- `asyncio.gather` of the factories, which do not wait: each runs, and the first exception is raised.
  unfoldable pub gather_listeners : List (C → Exec S L) → C → Exec S (List L)
  gather_listeners [] container s = (ok [], s)
  gather_listeners (factory ∷ factories) container s =
      let (r, s') = factory container s in
      let (rest, s'') = gather_listeners factories container s' in (joined r rest, s'')

  unfoldable pub start_each : List L → Exec S (Unit {0})
  start_each [] = pure tt
  start_each (listener ∷ listeners) = p.start listener >> start_each listeners

  unfoldable pub create_tasks :
      List (Option Settings → C → S → T × S) → C → Lifespan S C L T → Lifespan S C L T
  create_tasks [] container s = s
  create_tasks (task_factory ∷ factories) container s =
      let (task, o) = task_factory p.settings container s.outer in
      create_tasks factories container
        (record s { outer = o; running_bg_tasks = s.running_bg_tasks ++ task ∷ [] })

  -- The `try` block.
  unfoldable pub start_and_serve : Exec (Lifespan S C L T) (Unit {0})
  start_and_serve = do
    c ← outside create_container
    modify (λ s. record s { container = some c })
    outside (p.topology_declarator c)
    created ← outside (gather_listeners p.listener_factories c)
    modify (λ s. record s { listeners = created })
    outside (start_each (reverse created))
    modify (create_tasks p.background_tasks c)
    outside p.serve

  unfoldable pub cancel_each : List T → S → S
  cancel_each [] s = s
  cancel_each (task ∷ tasks) s = cancel_each tasks (p.cancel task s)

  abbrev pub stop_tasks : List T → S → S
  stop_tasks [] s = s
  stop_tasks tasks s = p.await_tasks tasks (cancel_each tasks s)

  unfoldable pub stop_each : List L → Exec S (Unit {0})
  stop_each [] = pure tt
  stop_each (listener ∷ listeners) =
      try_except (p.stop listener) (λ e. pure tt) >> stop_each listeners

  abbrev pub shut_down : Option C → Exec S (Unit {0})
  shut_down none = pure tt
  shut_down (some c) = p.shutdown c

  -- The `finally` block.
  unfoldable pub clean_up : Exec (Lifespan S C L T) (Unit {0})
  clean_up s =
      (modify (λ v. record v { outer = stop_tasks v.running_bg_tasks v.outer })
          >> outside (stop_each (reverse s.listeners))
          >> outside (shut_down s.container))
        s

  -- The `except` clause raises its exception again.
  unfoldable pub service_lifespan : Exec S (Unit {0})
  service_lifespan s =
      let (r, after) =
        try_finally (try_except start_and_serve raise) clean_up
          (record { outer = s; container = none; listeners = []; running_bg_tasks = [] }) in
      (r, after.outer)
