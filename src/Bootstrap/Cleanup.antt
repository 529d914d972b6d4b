-- ===== src/Bootstrap/Cleanup.antt =====
-- What a service leaves when it stops, wherever its start or its run ended.
use mmo_backend_server.Prelude.{
  ◌≡◌, refl, sym, ap, ◌∙◌, Option, none, some, List, [], ◌∷◌, ◌++◌, map, All, Result, ok, raised,
  Exec, pure, lift, ◌>>=◌, ◌>>◌, try_except, bind-of-ok,
}
use mmo_backend_server.Bootstrap.{
  Parts, Lifespan, outside, reverse, gather_listeners, start_each, create_tasks, cancel_each,
  stop_tasks, stop_each, shut_down, clean_up,
}

pub data Event (C L : Type 0) : Type 0 where
  started : L → Event C L
  stopped : L → Event C L
  shut : C → Event C L

-- A log of the calls that start and stop a listener and shut a container down, whether they return or
-- raise, in which nothing else writes.
pub record Observed {S Settings C L T : Type 0} (p : Parts S Settings C L T) : Type 0 where
  pub log : S → List (Event C L)
  pub start_log : (l : L) (s : S) → log (p.start l s).1 ≡ log s ++ started l ∷ []
  pub stop_log : (l : L) (s : S) → log (p.stop l s).1 ≡ log s ++ stopped l ∷ []
  pub shutdown_log : (c : C) (s : S) → log (p.shutdown c s).1 ≡ log s ++ shut c ∷ []
  pub container_factory_log :
      (o : Option Settings) (s : S) → log (p.container_factory o s).1 ≡ log s
  pub topology_declarator_log : (c : C) (s : S) → log (p.topology_declarator c s).1 ≡ log s
  pub listener_factories_log :
      All (λ f. (c : C) (s : S) → log (f c s).1 ≡ log s) p.listener_factories
  pub background_tasks_log :
      All (λ f. (c : C) (s : S) → log (f p.settings c s).1 ≡ log s) p.background_tasks
  pub cancel_log : (t : T) (s : S) → log (p.cancel t s) ≡ log s
  pub await_tasks_log : (ts : List T) (s : S) → log (p.await_tasks ts s) ≡ log s
  pub serve_log : (s : S) → log (p.serve s).1 ≡ log s

pub append_nil : {A : Type 0} (xs : List A) → xs ++ [] ≡ xs
append_nil [] = refl
append_nil (x ∷ xs) = ap (λ k. x ∷ k) (append_nil xs)

pub append_assoc : {A : Type 0} (xs ys zs : List A) → (xs ++ ys) ++ zs ≡ xs ++ (ys ++ zs)
append_assoc [] ys zs = refl
append_assoc (x ∷ xs) ys zs = ap (λ k. x ∷ k) (append_assoc xs ys zs)

module _ {S Settings C L T : Type 0} (p : Parts S Settings C L T) (o : Observed p) where
  pub gather_listeners-log :
      (fs : List (C → Exec S L)) (c : C) (s : S)
      → All (λ f. (d : C) (v : S) → o.log (f d v).1 ≡ o.log v) fs
      → o.log (gather_listeners p fs c s).1 ≡ o.log s
  unfolding gather_listeners
  gather_listeners-log [] c s all = refl
  gather_listeners-log (f ∷ fs) c s (quiet, all) =
      gather_listeners-log fs c (f c s).1 all ∙ quiet c s

  pub create_tasks-log :
      (fs : List (Option Settings → C → S → T × S)) (c : C) (v : Lifespan S C L T)
      → All (λ f. (d : C) (s : S) → o.log (f p.settings d s).1 ≡ o.log s) fs
      → (o.log (create_tasks p fs c v).outer ≡ o.log v.outer)
        × ((create_tasks p fs c v).listeners ≡ v.listeners)
        × ((create_tasks p fs c v).container ≡ v.container)
  unfolding create_tasks
  create_tasks-log [] c v all = (refl, refl, refl)
  create_tasks-log (f ∷ fs) c v (quiet, all) =
      let (task, out) = f p.settings c v.outer in
      let (log, listeners, container) =
        create_tasks-log fs c
          (record v { outer = out; running_bg_tasks = v.running_bg_tasks ++ task ∷ [] }) all in
      (log ∙ quiet c v.outer, listeners, container)

  -- The listeners that start are the first of those that should.
  pub start_each-log :
      (ls : List L) (s : S)
      → (xs rest : List L) × (ls ≡ xs ++ rest)
        × (o.log (start_each p ls s).1 ≡ o.log s ++ map started xs)
  unfolding start_each
  start_each-log [] s = ([], [], refl, sym (append_nil (o.log s)))
  start_each-log (l ∷ ls) s = from_start (p.start l s).0 (start_each-log ls (p.start l s).1)
    where
      from_start :
          (r : Result (Unit {0}))
          → ((xs rest : List L) × (ls ≡ xs ++ rest)
              × (o.log (start_each p ls (p.start l s).1).1
                  ≡ o.log (p.start l s).1 ++ map started xs))
          → (xs rest : List L) × (l ∷ ls ≡ xs ++ rest)
            × (o.log ((lift r >>= λ _. start_each p ls) (p.start l s).1).1
                ≡ o.log s ++ map started xs)
      from_start (ok _) (xs, rest, split, log) = (
        l ∷ xs,
        rest,
        ap (λ k. l ∷ k) split,
        log
            ∙ ap (λ k. k ++ map started xs) (o.start_log l s)
            ∙ append_assoc (o.log s) (started l ∷ []) (map started xs),
      )
      from_start (raised x) h = (l ∷ [], ls, refl, o.start_log l s)

  -- Every listener is stopped, whether stopping those before it raises or not.
  stop_each-log :
      (ls : List L) (s : S)
      → ((stop_each p ls s).0 ≡ ok tt) × (o.log (stop_each p ls s).1 ≡ o.log s ++ map stopped ls)
  unfolding stop_each
  stop_each-log [] s = (refl, sym (append_nil (o.log s)))
  stop_each-log (l ∷ ls) s = from_stop (p.stop l s).0 (stop_each-log ls (p.stop l s).1)
    where
      from_stop :
          (r : Result (Unit {0}))
          → ((stop_each p ls (p.stop l s).1).0 ≡ ok tt)
            × (o.log (stop_each p ls (p.stop l s).1).1 ≡ o.log (p.stop l s).1 ++ map stopped ls)
          → let out =
              (try_except (λ (_ : S). (r, (p.stop l s).1)) (λ e. pure tt) >> stop_each p ls) s in
            (out.0 ≡ ok tt) × (o.log out.1 ≡ o.log s ++ map stopped (l ∷ ls))
      from_stop (ok _) (e, log) = (
        e,
        log
            ∙ ap (λ k. k ++ map stopped ls) (o.stop_log l s)
            ∙ append_assoc (o.log s) (stopped l ∷ []) (map stopped ls),
      )
      from_stop (raised x) (e, log) = (
        e,
        log
            ∙ ap (λ k. k ++ map stopped ls) (o.stop_log l s)
            ∙ append_assoc (o.log s) (stopped l ∷ []) (map stopped ls),
      )

  cancel_each-log : (ts : List T) (s : S) → o.log (cancel_each p ts s) ≡ o.log s
  unfolding cancel_each
  cancel_each-log [] s = refl
  cancel_each-log (t ∷ ts) s = cancel_each-log ts (p.cancel t s) ∙ o.cancel_log t s

  stop_tasks-log : (ts : List T) (s : S) → o.log (stop_tasks p ts s) ≡ o.log s
  stop_tasks-log [] s = refl
  stop_tasks-log (t ∷ ts) s =
      o.await_tasks_log (t ∷ ts) (cancel_each p (t ∷ ts) s) ∙ cancel_each-log (t ∷ ts) s

  abbrev pub shut_of : Option C → List (Event C L)
  shut_of none = []
  shut_of (some c) = shut c ∷ []

  shut_down-log : (c : Option C) (s : S) → o.log (shut_down p c s).1 ≡ o.log s ++ shut_of c
  shut_down-log none s = sym (append_nil (o.log s))
  shut_down-log (some c) s = o.shutdown_log c s

  -- The cleanup stops the tasks, then every listener, then the container.
  pub clean_up-log :
      (v : Lifespan S C L T)
      → o.log (clean_up p v).1.outer
        ≡ (o.log v.outer ++ map stopped (reverse v.listeners)) ++ shut_of v.container
  unfolding clean_up
  clean_up-log v =
      let o1 : S = stop_tasks p v.running_bg_tasks v.outer in
      let v1 : Lifespan S C L T = record v { outer = o1 } in
      let (returned, stopped_log) = stop_each-log (reverse v.listeners) o1 in
      ap (λ out. o.log out.1.outer)
        (bind-of-ok (outside (stop_each p (reverse v.listeners)))
          (λ _. outside (shut_down p v.container)) v1 returned)
      ∙ shut_down-log v.container (stop_each p (reverse v.listeners) o1).1
      ∙ ap (λ k. k ++ shut_of v.container)
          (stopped_log
            ∙ ap (λ k. k ++ map stopped (reverse v.listeners))
                (stop_tasks-log v.running_bg_tasks v.outer))
