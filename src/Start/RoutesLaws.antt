-- ===== src/Start/RoutesLaws.antt =====
-- Which middlewares of src/routers/mod.rs and src/server/mod.rs a served request has passed.
use mathlib.Core.Path.{subst}
use mathlib.Core.Option.{some-injective}
use hoopoe.Base.{Text, List, [], ◌∷◌, Bool, true, false, ◌&&◌, some, if◌then◌else◌, ◌≡◌, refl, All}
use hoopoe.Start.Routes.{
  Method, Handler, Middleware, compression, logger, inject_app_ctx, cors, max_concurrency,
  check_token, check_passport, set_data, Route, routes, child_routes, own_routes, dispatch, served,
  same_path, takes, build_router, with_path, hoop, on, push, push_last, unshift, hoop_controller,
  health_controller, auth_controller, notif_controller, notif_ws_controller,
  register_app_controllers,
}

-- The middleware that is meant for each handler.
abbrev pub guard_of : Handler → List Middleware
guard_of Handler.get_hoop = check_token ∷ []
guard_of Handler.add_hoop = check_token ∷ []
guard_of Handler.delete_hoop = check_token ∷ []
guard_of Handler.update_hoop = check_token ∷ []
guard_of Handler.leave_hoop = check_token ∷ []
guard_of Handler.join_hoop = check_token ∷ []
guard_of Handler.check_health = set_data ∷ []
guard_of Handler.picer = set_data ∷ []
guard_of Handler.mint = set_data ∷ []
guard_of Handler.home = set_data ∷ []
guard_of Handler.register_notif = check_passport ∷ []
guard_of Handler.get_notif = check_passport ∷ []
guard_of _ = []

abbrev pub IsGuarded : Route → Type 0
IsGuarded r =
    r.middlewares
    ≡ compression ∷ logger ∷ inject_app_ctx ∷ cors ∷ max_concurrency ∷ guard_of r.handler

dispatch-IsGuarded :
    (rs : List Route) (method : Method) (path : List Text) {r : Route}
    → All IsGuarded rs
    → dispatch rs method path ≡ some r
    → IsGuarded r
unfolding dispatch
dispatch-IsGuarded [] method path guarded e = cc
dispatch-IsGuarded (r ∷ rs) method path {r = r'} guarded e =
    by_test (takes r.method method && same_path r.path path)
      (dispatch-IsGuarded rs method path guarded.1) e
  where
    by_test :
        (fits : Bool)
        → (dispatch rs method path ≡ some r' → IsGuarded r')
        → (if fits then some r else dispatch rs method path) ≡ some r'
        → IsGuarded r'
    by_test true ih e = subst IsGuarded (some-injective r r' e) guarded.0
    by_test false ih e = ih e

routes-IsGuarded : All IsGuarded (routes [] [] build_router)
unfolding build_router with_path hoop on push push_last unshift hoop_controller health_controller
    auth_controller notif_controller notif_ws_controller register_app_controllers routes
    child_routes own_routes
routes-IsGuarded = (
  refl,
  (
    refl,
    (
      refl,
      (
        refl,
        (
          refl,
          (
            refl,
            (
              refl,
              (
                refl,
                (
                  refl,
                  (
                    refl,
                    (refl, (refl, (refl, (refl, (refl, (refl, (refl, (refl, (refl, tt))))))))),
                  ),
                ),
              ),
            ),
          ),
        ),
      ),
    ),
  ),
)

-- A request that is served has passed the common middlewares, and then the check of the token before
-- each handler of hoops, the check of the passport before each handler of notifications over HTTP, and
-- neither of them before the other handlers.
pub served-IsGuarded :
    (method : Method) (path : List Text) {r : Route} → served method path ≡ some r → IsGuarded r
unfolding served
served-IsGuarded method path e =
    dispatch-IsGuarded (routes [] [] build_router) method path routes-IsGuarded e
