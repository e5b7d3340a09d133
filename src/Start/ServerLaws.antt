-- ===== src/Start/ServerLaws.antt =====
-- When `main` of src/app.rs serves, and what and where.
use hoopoe.Base.{
  Text, codes, ◌++◌, Bool, true, false, ◌&&◌, Option, none, some, Outcome, done, panic, ◌>>=◌,
  arith, if◌then◌else◌, is_some, ◌≡◌, refl, ap, ◌∙◌, inl, inr, Bool-cases, text_eq,
}
use hoopoe.Storage.Engine.{Connections, Storage, new_storage}
use hoopoe.Start.Config.{Environment, Env, get_vars, var_names}
use hoopoe.Start.ConfigLaws.{all_set, values, value_of, get_vars_lem, has_name, all_set-some}
use hoopoe.Start.Routes.{build_router}
use hoopoe.Start.Server.{
  Parsed, arguments, exits, Ran, still, exited, run_on, or_else, field_of, vars_of, Acceptor, tcp,
  Machine, Service, HoopoeServer, new_server, init, build_app_context, build_service,
  apply_migrations, main,
}

or_else-some :
    (default : Text) (o : Option Text) → is_some o ≡ true → or_else default o ≡ value_of o
or_else-some default none h = cc
or_else-some default (some value) h = refl

has_host : has_name (codes "HOST") var_names ≡ true
unfolding has_name text_eq
has_host = refl

has_port : has_name (codes "HTTP_PORT") var_names ≡ true
unfolding has_name text_eq
has_port = refl

-- The address that the variables give.
abbrev pub listen_addr : Environment → Text
listen_addr e =
    value_of (e.var (codes "HOST")) ++ (codes ":" ++ value_of (e.var (codes "HTTP_PORT")))

module _ (C : Connections) where
  abbrev pub served_app : Env → Option (Storage C) → Service C
  served_app vars storage = record {
    router = build_router;
    injected = some (record { config = vars; app_storage = storage });
  }

  -- What is left once the storage has answered.
  abbrev served_at :
      Machine → Text → Env → Option (Storage C) → Outcome (Ran (Acceptor × Service C))
  served_at m addr vars storage = elim m.parse [
    | exits status ↦ done (exited status)
    | arguments args ↦
        if m.connects (field_of (codes "DATABASE_URL") vars) && m.can_bind (tcp addr)
        then done (still (tcp addr, served_app vars storage))
        else panic
  ]

  abbrev pub serve :
      Machine → Env → Outcome (Option (Storage C)) → Outcome (Ran (Acceptor × Service C))
  serve m vars panic = panic
  serve m vars (done storage) = served_at m (listen_addr m.environment) vars storage

  -- A server with its address only.
  abbrev at_addr : Text → HoopoeServer C
  at_addr addr = record { service = none; addr = addr; app_ctx = none; ssl_domain = none }

  started_lem :
      (m : Machine) (addr : Text) (vars : Env) (storage : Option (Storage C))
      → (apply_migrations C m (
            build_service C (record (at_addr addr) {
              app_ctx = some (record { config = vars; app_storage = storage });
            }))
          >>= run_on C m)
        ≡ served_at m addr vars storage
  unfolding build_service apply_migrations run_on
  started_lem m addr vars storage = by_parse m.parse refl
    where
      by_parse :
          (parsed : Parsed)
          → m.parse ≡ parsed
          → (apply_migrations C m (
                build_service C (record (at_addr addr) {
                  app_ctx = some (record { config = vars; app_storage = storage });
                }))
              >>= run_on C m)
            ≡ served_at m addr vars storage
      by_parse (exits status) e = ground (arith, e)
      by_parse (arguments args) e =
          elim (Bool-cases (m.connects (field_of (codes "DATABASE_URL") vars))) [
            | inr off ↦ ground (arith, e, off)
            | inl on ↦ elim (Bool-cases (m.can_bind (tcp addr))) [
              | inl free ↦ ground (arith, e, on, free)
              | inr taken ↦ ground (arith, e, on, taken)
            ]
          ]

  -- The address with the defaults of `HoopoeServer::new`.
  abbrev default_addr : Environment → Text
  default_addr e =
      or_else (codes "0.0.0.0") (e.var (codes "HOST"))
      ++ (codes ":" ++ or_else (codes "2344") (e.var (codes "HTTP_PORT")))

  main_from :
      (m : Machine) (found ready : Bool) (vars : Env) (o : Outcome (Option (Storage C)))
      → m.environment.has_file ≡ found
      → get_vars m.environment ≡ (if found && ready then done vars else panic)
      → new_storage C (vars_of vars) m.id ≡ o
      → (ready ≡ true → default_addr m.environment ≡ listen_addr m.environment)
      → main C m ≡ (if found && ready then serve m vars o else panic)
  unfolding main new_server build_app_context init
  main_from m false ready vars o file got stored addr = simp file refl
  main_from m true false vars o file got stored addr = simp (file, got) refl
  main_from m true true vars panic file got stored addr = simp (file, got, stored) refl
  main_from m true true vars (done storage) file got stored addr =
      simp (file, got, stored)
        (started_lem m (default_addr m.environment) vars storage
          ∙ ap (λ a. served_at m a vars storage) (addr refl))

  -- `main` panics unless there is a file `.env`, all the variables are set and the storage connects.
  -- Then, with a command line that ends the process, as bad arguments do, it ends with that status.
  -- Otherwise it serves exactly if the database can be connected to once more and the address can be
  -- bound, and else panics. It serves the router with the context of these variables and this
  -- storage, without a certificate, at the address that the variables give, never at a default one.
  pub main_lem :
      (m : Machine)
      → main C m ≡ (
          let vars : Env = values m.environment.var var_names in
          if m.environment.has_file && all_set m.environment.var var_names
          then serve m vars (new_storage C (vars_of vars) m.id)
          else panic)
  main_lem m =
      let e : Environment = m.environment in
      let vars : Env = values e.var var_names in
      main_from m e.has_file (all_set e.var var_names) vars (new_storage C (vars_of vars) m.id) refl
        (get_vars_lem e) refl
        (λ set.
          ap (λ host. host ++ (codes ":" ++ or_else (codes "2344") (e.var (codes "HTTP_PORT"))))
            (or_else-some (codes "0.0.0.0") (e.var (codes "HOST"))
              (all_set-some e.var (codes "HOST") var_names set has_host))
          ∙ ap (λ port. value_of (e.var (codes "HOST")) ++ (codes ":" ++ port))
              (or_else-some (codes "2344") (e.var (codes "HTTP_PORT"))
                (all_set-some e.var (codes "HTTP_PORT") var_names set has_port)))
