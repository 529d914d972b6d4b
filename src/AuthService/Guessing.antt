-- ===== src/AuthService/Guessing.antt =====
-- `issue_token` against someone who guesses passwords.
use mmo_backend_server.Prelude.{
  ℕ, ◌+◌, ◌≤◌, ◌<◌, String, ◌≡◌, refl, sym, ap, subst, ◌∙◌, inl, inr, Bool, true, false, Option,
  none, some, List, [], ◌∷◌, ◌==◌, arith, nat_eq, leb, length, if◌then◌else◌, Bool-cases, All, Exec,
  Result, ok, pure, ◌>>=◌, ◌>>◌,
}
use mmo_backend_server.Errors.{auth_invalid_credentials, auth_forbidden}
use mmo_backend_server.Names.{key_auth_ban}
use mmo_backend_server.RedisClient
use mmo_backend_server.RedisClient.Contract.{Contract}
use mmo_backend_server.AuthService.{World, Service, TokenData, Reply, refuse, truthy, on_redis}
use mmo_backend_server.AuthService.Login.{note_failure, login, issue_checked, issue_token}
use mmo_backend_server.AuthService.Counting
use mmo_backend_server.AuthService.Counting.{if_true, if_false, note_failure_lem, login-invalid}

-- A call with a name and a password.
pub record Guess : Type 0 where
  pub now : ℕ
  pub fresh_jti : String
  pub password : String

leb-lt : (m n : ℕ) → leb m n ≡ false → n < m
leb-lt m n h = ground arith

le-leb : (m n : ℕ) → m ≤ n → leb m n ≡ true
le-leb m n h = ground arith

module _ {Db Rd Raw : Type 0} (sv : Service Db Rd Raw) (law : Contract sv.redis)
    (connected : sv.client.redis ≡ true) where
  -- The count and the ban of a name, in this service.
  abbrev attempts : String → World Db Rd → ℕ
  attempts = Counting.attempts sv law connected

  abbrev banned : String → World Db Rd → Bool
  banned = Counting.banned sv law connected

  abbrev Counted : String → Rd → Rd → Type 0
  Counted = Counting.Counted sv law connected

  -- One attempt of a guess.
  abbrev pub attempt : String → Guess → Exec (World Db Rd) (Reply TokenData)
  attempt username g =
      issue_token sv g.now g.fresh_jti
        (record { username = some username; password = some g.password })

  module _ (not_test : sv.is_test ≡ false) (username : String)
      (named : username == "" ≡ false) where
    attempt-is-checked :
        (g : Guess) (w : World Db Rd)
        → g.password == "" ≡ false
        → attempt username g w
          ≡ (if nat_eq (if banned username w then 1 else 0) 0
                then login sv g.now g.fresh_jti username g.password
                else pure (refuse auth_forbidden))
              w
    unfolding issue_token issue_checked
    attempt-is-checked g w given =
        let check : Option String → Option String → Exec (World Db Rd) (Reply TokenData) =
          issue_checked sv g.now g.fresh_jti in
        let decide : ℕ → Exec (World Db Rd) (Reply TokenData) = λ n.
          if nat_eq n 0
          then login sv g.now g.fresh_jti username g.password
          else pure (refuse auth_forbidden) in
        let ask : Exec (World Db Rd) ℕ =
          on_redis (RedisClient.exists sv.redis sv.client (key_auth_ban username ∷ [])) in
        let n : ℕ = if banned username w then 1 else 0 in
        let asked : ask w ≡ (ok n, w) =
          ap (λ (m : Exec Rd ℕ). on_redis m w) (if_true _ _ connected)
          ∙ ap (λ out. (out.0, record w { redis = out.1 }))
              (law.exists_up (key_auth_ban username) w.redis) in
        ap (λ o. check o (truthy (some g.password)) w) (if_false none (some username) named)
        ∙ ap (λ o. check (some username) o w) (if_false none (some g.password) given)
        ∙ ap (λ (m : Exec (World Db Rd) (Unit {0})). (m >> (ask >>= decide)) w)
            (if_false _ _ not_test)
        ∙ ap (λ out. ((λ (_ : World Db Rd). out) >>= decide) w) asked

    -- While the ban stands, any attempt is refused, and neither the database nor Redis is changed.
    -- Conditions: Redis is up and connected, the service is not under test, the name and the password
    -- are not empty.
    pub banned-attempt :
        (g : Guess) (w : World Db Rd)
        → g.password == "" ≡ false
        → banned username w ≡ true
        → attempt username g w ≡ (ok (refuse auth_forbidden), w)
    banned-attempt g w given ban =
        attempt-is-checked g w given
        ∙ ap
            (λ b.
              (if nat_eq (if b then 1 else 0) 0
                  then login sv g.now g.fresh_jti username g.password
                  else pure (refuse auth_forbidden))
                w)
            ban

    -- An attempt that was answered with invalid credentials met no ban and was counted.
    attempt-invalid :
        (g : Guess) (w : World Db Rd)
        → g.password == "" ≡ false
        → (attempt username g w).0 ≡ ok (refuse auth_invalid_credentials)
        → (banned username w ≡ false) × Counted username w.redis (attempt username g w).1.redis
    attempt-invalid g w given e = elim (Bool-cases (banned username w)) [
      | inl ban ↦
          let forbidden : ok (refuse auth_forbidden) ≡ ok (refuse auth_invalid_credentials) =
            sym (ap (λ out. out.0) (banned-attempt g w given ban)) ∙ e in
          cc
      | inr free ↦
          let tried : attempt username g w ≡ login sv g.now g.fresh_jti username g.password w =
            attempt-is-checked g w given
            ∙ ap
                (λ b.
                  (if nat_eq (if b then 1 else 0) 0
                      then login sv g.now g.fresh_jti username g.password
                      else pure (refuse auth_forbidden))
                    w)
                free in
          let (v, same, after) =
            login-invalid sv law connected g.now g.fresh_jti username g.password w
              (sym (ap (λ out. out.0) tried) ∙ e) in
          (
            free,
            subst (Counted username w.redis) (sym (ap (λ out. out.1.redis) tried ∙ after)) (
                subst (λ rd. Counted username rd (note_failure sv username v).1.redis) same
                  (note_failure_lem sv law connected username v)),
          )
    ]

    -- Attempts one after the other, with their replies.
    abbrev pub run_attempts :
        List Guess → World Db Rd → List (Result (Reply TokenData)) × World Db Rd
    run_attempts [] w = ([], w)
    run_attempts (g ∷ gs) w =
        let (reply, w') = attempt username g w in
        let (replies, w'') = run_attempts gs w' in (reply ∷ replies, w'')

    -- Every reply says that the credentials are wrong.
    abbrev pub AllInvalid : List (Result (Reply TokenData)) → Type 0
    AllInvalid = All (λ r. r ≡ ok (refuse auth_invalid_credentials))

    abbrev pub AllGiven : List Guess → Type 0
    AllGiven = All (λ g. g.password == "" ≡ false)

    banned-then-none :
        (gs : List Guess) (w : World Db Rd)
        → AllGiven gs
        → banned username w ≡ true
        → AllInvalid (run_attempts gs w).0
        → length gs ≡ 0
    banned-then-none [] w given ban invalid = refl
    banned-then-none (g ∷ gs) w (given, _) ban (e, _) =
        let forbidden : ok (refuse auth_forbidden) ≡ ok (refuse auth_invalid_credentials) =
          sym (ap (λ out. out.0) (banned-attempt g w given ban)) ∙ e in
        cc

    -- However the passwords are chosen, the attempts in a row for one name that are answered with
    -- invalid credentials, together with those counted before, are at most the limit. Conditions: Redis
    -- meets its contract (it is up, and no key expires meanwhile) and is connected, the service is not
    -- under test, the name and the passwords are not empty, and the count is below the limit at first.
    pub guesses-bounded :
        (gs : List Guess) (w : World Db Rd)
        → AllGiven gs
        → attempts username w < sv.bruteforce_max_attempts
        → AllInvalid (run_attempts gs w).0
        → length gs + attempts username w ≤ sv.bruteforce_max_attempts
    guesses-bounded [] w given below invalid = omega arith
    guesses-bounded (g ∷ gs) w (given, givens) below (e, invalid) =
        let (free, counted_here) = attempt-invalid g w given e in
        let w1 = (attempt username g w).1 in
        elim (Bool-cases (leb sv.bruteforce_max_attempts (attempts username w + 1))) [
          | inl reached ↦
              let ban : banned username w1 ≡ true =
                subst
                  (λ b.
                    if b
                    then banned username w1 ≡ true
                    else attempts username w1 ≡ attempts username w + 1)
                  reached counted_here in
              let none_left : length gs ≡ 0 = banned-then-none gs w1 givens ban invalid in
              omega arith
          | inr not_yet ↦
              let one_more : attempts username w1 ≡ attempts username w + 1 =
                subst
                  (λ b.
                    if b
                    then banned username w1 ≡ true
                    else attempts username w1 ≡ attempts username w + 1)
                  not_yet counted_here in
              let room : attempts username w + 1 < sv.bruteforce_max_attempts =
                leb-lt _ _ not_yet in
              let still : attempts username w1 < sv.bruteforce_max_attempts = omega arith in
              let ih : length gs + attempts username w1 ≤ sv.bruteforce_max_attempts =
                guesses-bounded gs w1 givens still invalid in
              omega arith
        ]

    -- A failing attempt that brings the count to the limit locks the name: the next attempt is
    -- refused with AUTH_FORBIDDEN, be its password right or not, and changes neither the database nor
    -- Redis. Conditions: Redis meets its contract and is connected, the service is not under test, and
    -- the name and both passwords are not empty.
    pub attempt-locks :
        (g next : Guess) (w : World Db Rd)
        → g.password == "" ≡ false
        → next.password == "" ≡ false
        → sv.bruteforce_max_attempts ≤ attempts username w + 1
        → (attempt username g w).0 ≡ ok (refuse auth_invalid_credentials)
        → attempt username next (attempt username g w).1
          ≡ (ok (refuse auth_forbidden), (attempt username g w).1)
    attempt-locks g next w given next_given full e =
        let w1 = (attempt username g w).1 in
        banned-attempt next w1 next_given (
          subst
            (λ b.
              if b
              then banned username w1 ≡ true
              else attempts username w1 ≡ attempts username w + 1)
            (le-leb _ _ full) (attempt-invalid g w given e).1)
