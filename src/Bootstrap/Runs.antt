-- ===== src/Bootstrap/Runs.antt =====
-- The log of a service from its start to its end.
use mmo_backend_server.Prelude.{
  ◌≡◌, refl, sym, ap, ◌∙◌, Bool, true, false, ◌&&◌, Option, none, some, List, [], ◌++◌, map,
  is_some, if◌then◌else◌, Result, ok, raised, Exec, raise, lift, modify, ◌>>=◌, try_except,
  try_finally-state, Ends, Triple, Triple-bind, both-Ends, both-Ends-state,
}
use mmo_backend_server.Bootstrap.{
  Parts, Lifespan, outside, reverse, create_container, gather_listeners, start_each, create_tasks,
  start_and_serve, clean_up, service_lifespan,
}
use mmo_backend_server.Bootstrap.Cleanup
use mmo_backend_server.Bootstrap.Cleanup.{Event, started, stopped, Observed, append_nil}

abbrev pub created_of : {A : Type 0} → Result A → Option A
created_of (ok a) = some a
created_of (raised e) = none

module _ {S Settings C L T : Type 0} (p : Parts S Settings C L T) (o : Observed p) where
  abbrev from_container : C → Exec (Lifespan S C L T) (Unit {0})
  from_container c = outside (p.topology_declarator c) >>= λ _.
      outside (gather_listeners p p.listener_factories c) >>= λ created.
      modify (λ s. record s { listeners = created }) >>= λ _.
      outside (start_each p (reverse created)) >>= λ _.
      modify (create_tasks p p.background_tasks c) >>= λ _. outside p.serve

  module _ (base : List (Event C L)) (cont : Option C) where
    -- No listener is there yet; the listeners are there; some of them, in order, were started.
    abbrev Ready : Lifespan S C L T → Type 0
    Ready v = (o.log v.outer ≡ base) × (v.listeners ≡ []) × (v.container ≡ cont)

    abbrev Listening : List L → Lifespan S C L T → Type 0
    Listening ls v = (o.log v.outer ≡ base) × (v.listeners ≡ ls) × (v.container ≡ cont)

    abbrev pub Good : Lifespan S C L T → Type 0
    Good v =
        (xs rest : List L) × (o.log v.outer ≡ base ++ map started xs)
        × (reverse v.listeners ≡ xs ++ rest)
        × (v.container ≡ cont)

    Ready-Good : (v : Lifespan S C L T) → Ready v → Good v
    Ready-Good v (log, listeners, container) =
        ([], [], log ∙ sym (append_nil base), ap reverse listeners, container)

    result-Ready :
        {A : Type 0} (r : Result A) (v : Lifespan S C L T) → Ready v → Ends Ready Good (r, v)
    result-Ready (ok a) v h = h
    result-Ready (raised e) v h = Ready-Good v h

    outside-Ready :
        {A : Type 0} (call : Exec S A)
        → ((s : S) → o.log (call s).1 ≡ o.log s)
        → Triple Ready Ready Good (outside call)
    outside-Ready call quiet v (log, listeners, container) =
        result-Ready (call v.outer).0 (outside call v).1 (quiet v.outer ∙ log, listeners, container)

    start_each-Good :
        (ls : List L) → Triple (Listening ls) Good Good (outside (start_each p (reverse ls)))
    start_each-Good ls v (log, listeners, container) =
        let (xs, rest, split, after) = Cleanup.start_each-log p o (reverse ls) v.outer in
        both-Ends Good (outside (start_each p (reverse ls)) v) (
          xs,
          rest,
          after ∙ ap (λ k. k ++ map started xs) log,
          ap reverse listeners ∙ split,
          container,
        )

    create_tasks-Good :
        (c : C) → Triple Good Good Good (modify (create_tasks p p.background_tasks c))
    create_tasks-Good c v (xs, rest, log, listeners, container) =
        let (same_log, same_listeners, same_container) =
          Cleanup.create_tasks-log p o p.background_tasks c v o.background_tasks_log in
        (
          xs,
          rest,
          same_log ∙ log,
          ap reverse same_listeners ∙ listeners,
          same_container ∙ container,
        )

    serve-Good : Triple Good Good Good (outside p.serve)
    serve-Good v (xs, rest, log, listeners, container) =
        both-Ends Good (outside p.serve v)
          (xs, rest, o.serve_log v.outer ∙ log, listeners, container)

    from_container-Good : (c : C) → Triple Ready Good Good (from_container c)
    from_container-Good c =
        let k4 : Unit {0} → Exec (Lifespan S C L T) (Unit {0}) = λ _. outside p.serve in
        let k3 : Unit {0} → Exec (Lifespan S C L T) (Unit {0}) =
          λ _. modify (create_tasks p p.background_tasks c) >>= k4 in
        let k2 : List L → Unit {0} → Exec (Lifespan S C L T) (Unit {0}) =
          λ created _. outside (start_each p (reverse created)) >>= k3 in
        let k1 : List L → Exec (Lifespan S C L T) (Unit {0}) =
          λ created. modify (λ s. record s { listeners = created }) >>= k2 created in
        let k0 : Unit {0} → Exec (Lifespan S C L T) (Unit {0}) =
          λ _. outside (gather_listeners p p.listener_factories c) >>= k1 in
        Triple-bind Ready Ready Good Good (outside (p.topology_declarator c)) k0
          (outside-Ready (p.topology_declarator c) (o.topology_declarator_log c))
          (λ _.
            Triple-bind Ready Ready Good Good (outside (gather_listeners p p.listener_factories c))
              k1
              (outside-Ready (gather_listeners p p.listener_factories c) (λ s.
                Cleanup.gather_listeners-log p o p.listener_factories c s o.listener_factories_log))
              (λ created.
                Triple-bind Ready (Listening created) Good Good
                  (modify (λ s. record s { listeners = created })) (k2 created)
                  (λ v (log, listeners, container). (log, refl, container))
                  (λ _.
                    Triple-bind (Listening created) Good Good Good
                      (outside (start_each p (reverse created))) k3 (start_each-Good created)
                      (λ _.
                        Triple-bind Good Good Good Good
                          (modify (create_tasks p p.background_tasks c)) k4 (create_tasks-Good c)
                          (λ _. serve-Good)))))

  create_container-log : (s : S) → o.log (create_container p s).1 ≡ o.log s
  create_container-log s = either (is_some p.settings && p.takes_settings)
    where
      either :
          (b : Bool)
          → o.log ((if b then p.container_factory p.settings else p.container_factory none) s).1
            ≡ o.log s
      either true = o.container_factory_log p.settings s
      either false = o.container_factory_log none s

  abbrev at_first : S → Lifespan S C L T
  at_first s = record { outer = s; container = none; listeners = []; running_bg_tasks = [] }

  start_and_serve-Good :
      (s : S)
      → Good (o.log s) (created_of (create_container p s).0) (start_and_serve p (at_first s)).1
  unfolding start_and_serve
  start_and_serve-Good s = from_factory (create_container p s).0
    where
      v1 : Lifespan S C L T
      v1 = at_first (create_container p s).1

      set_container : C → Exec (Lifespan S C L T) (Unit {0})
      set_container c = modify (λ v. record v { container = some c })

      from_factory :
          (r : Result C)
          → Good
              (o.log s)
              (created_of r)
              ((lift r >>= λ c. set_container c >>= λ _. from_container c) v1).1
      from_factory (ok c) =
          let v2 : Lifespan S C L T = record v1 { container = some c } in
          both-Ends-state (Good (o.log s) (some c)) (from_container c v2)
            (from_container-Good (o.log s) (some c) c v2 (create_container-log s, refl, refl))
      from_factory (raised e) = Ready-Good (o.log s) none v1 (create_container-log s, refl, refl)

  reraised-state :
      (out : Result (Unit {0}) × Lifespan S C L T) (v : Lifespan S C L T)
      → (try_except (λ (_ : Lifespan S C L T). out) raise v).1 ≡ out.1
  reraised-state (ok _, w) v = refl
  reraised-state (raised e, w) v = refl

  -- However a service ends, in its start at any step or while it serves, and by returning or by raising,
  -- its log goes on with this: listeners start, in some order; then each of them stops, in the same
  -- order, also where stopping one raises, and after them perhaps others, which had not started; and
  -- last the container is shut down, just if its factory returned one. The calls that start, stop and
  -- shut down write to the log, whether they return or raise, and nothing else does.
  pub service_lifespan-log :
      (s : S)
      → (xs rest : List L) × (o.log (service_lifespan p s).1
          ≡ ((o.log s ++ map started xs) ++ map stopped (xs ++ rest))
            ++ Cleanup.shut_of p o (created_of (create_container p s).0))
  unfolding service_lifespan
  service_lifespan-log s =
      let body : Exec (Lifespan S C L T) (Unit {0}) = try_except (start_and_serve p) raise in
      let (xs, rest, log, listeners, container) = start_and_serve-Good s in
      (
        xs,
        rest,
        ap (λ v. o.log v.outer)
              (try_finally-state body (clean_up p) (at_first s)
                ∙ ap (λ v. (clean_up p v).1)
                    (reraised-state (start_and_serve p (at_first s)) (at_first s)))
            ∙ Cleanup.clean_up-log p o (start_and_serve p (at_first s)).1
            ∙ ap
                (λ k.
                  (k ++ map stopped (reverse (start_and_serve p (at_first s)).1.listeners))
                  ++ Cleanup.shut_of p o (start_and_serve p (at_first s)).1.container)
                log
            ∙ ap
                (λ ls.
                  ((o.log s ++ map started xs) ++ map stopped ls)
                  ++ Cleanup.shut_of p o (start_and_serve p (at_first s)).1.container)
                listeners
            ∙ ap
                (λ c.
                  ((o.log s ++ map started xs) ++ map stopped (xs ++ rest))
                  ++ Cleanup.shut_of p o c)
                container,
      )
