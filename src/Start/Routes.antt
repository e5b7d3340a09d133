-- ===== src/Start/Routes.antt =====
-- src/routers/mod.rs, the functions `register_controller` of src/apis/v1, and `buildRouter` of
-- src/server/mod.rs: the tree of routers, and which handlers and middlewares a request meets.
use hoopoe.Base.{
  Text, codes, List, [], ◌∷◌, ◌++◌, Bool, true, false, ◌&&◌, ◌||◌, is_empty, Option, none, some,
  if◌then◌else◌, text_eq,
}

pub data Method : Type 0 where
  get post put delete any : Method

pub data Handler : Type 0 where
  get_hoop add_hoop delete_hoop update_hoop leave_hoop join_hoop : Handler
  check_health picer mint home generate_access_token : Handler
  register_notif get_notif consume : Handler
  openapi scalar swagger rapidoc redoc : Handler

pub data Middleware : Type 0 where
  compression logger inject_app_ctx cors max_concurrency : Middleware
  check_token check_passport set_data : Middleware

-- The rest of a path.
abbrev pub wildcard : Text
wildcard = codes "<**>"

-- A router: its piece of the path, its middlewares, its own handlers and its children.
mutual
  pub data Router : Type 0 where
    router : Text → List Middleware → List (Method × Handler) → Routers → Router

  pub data Routers : Type 0 where
    nil : Routers
    cons : Router → Routers → Routers

-- The methods of salvo's `Router` that the code calls.
unfoldable pub with_path : Text → Router
with_path path = router path [] [] nil

unfoldable pub hoop : Middleware → Router → Router
hoop m (router path ms hs rs) = router path (ms ++ m ∷ []) hs rs

unfoldable pub on : Method → Handler → Router → Router
on method h (router path ms hs rs) = router path ms (hs ++ (method, h) ∷ []) rs

unfoldable pub push_last : Router → Routers → Routers
push_last r nil = cons r nil
push_last r (cons s rs) = cons s (push_last r rs)

unfoldable pub push : Router → Router → Router
unfolding push_last
push child (router path ms hs rs) = router path ms hs (push_last child rs)

unfoldable pub unshift : Router → Router → Router
unshift child (router path ms hs rs) = router path ms hs (cons child rs)

unfoldable pub hoop_controller : Router
unfolding with_path hoop on push
hoop_controller = push (on post join_hoop (on delete leave_hoop (with_path (codes "user")))) (
    hoop check_token (
      on put update_hoop
        (on delete delete_hoop (on post add_hoop (on get get_hoop (with_path (codes "v1/hoop")))))))

unfoldable pub health_controller : Router
unfolding with_path hoop on push
health_controller = push (on get home (with_path (codes "home"))) (
    push (on post mint (with_path (codes "atomic-mint"))) (
      push (on post picer (with_path (codes "upload"))) (
        push (on get check_health (with_path (codes "check")))
          (hoop set_data (with_path (codes "v1/health"))))))

unfoldable pub auth_controller : Router
unfolding with_path on push
auth_controller =
    push (on post generate_access_token (with_path (codes "generate-access-token")))
      (with_path (codes "v1/auth"))

unfoldable pub notif_controller : Router
unfolding with_path hoop on
notif_controller =
    on get get_notif
      (on post register_notif (hoop check_passport (with_path (codes "v1/events/notif"))))

unfoldable pub notif_ws_controller : Router
unfolding with_path on push
notif_ws_controller =
    push (on any consume (with_path (codes "consume"))) (with_path (codes "v1/stream/notif"))

unfoldable pub register_app_controllers : Router
unfolding with_path push hoop_controller health_controller auth_controller notif_controller
    notif_ws_controller
register_app_controllers = push notif_ws_controller (
    push notif_controller
      (push auth_controller (push health_controller (push hoop_controller (with_path [])))))

-- `into_router` of a page for the API: it takes every method, and whatever stands after its path.
into_router : Handler → Text → Router
unfolding with_path on push
into_router page path = push (on any page (with_path wildcard)) (with_path path)

-- `buildRouter`.
unfoldable pub build_router : Router
unfolding with_path hoop on push unshift into_router register_app_controllers
build_router = unshift (into_router redoc (codes "redoc")) (
    unshift (into_router rapidoc (codes "rapidoc")) (
      unshift (into_router swagger (codes "swagger")) (
        unshift (into_router scalar (codes "scalar")) (
          push (on any openapi (with_path (codes "api-doc/openapi.json"))) (
            hoop max_concurrency (
              hoop cors (
                hoop inject_app_ctx (
                  hoop logger
                    (hoop compression (push register_app_controllers (with_path [])))))))))))

-- `internalBuildRouter`, for the challenge of the certificate, has the same body.
unfoldable pub internal_build_router : Router
unfolding build_router
internal_build_router = build_router

-- What a handler is reached by: the pieces of the path, and the middlewares on the way down.
pub record Route : Type 0 where
  pub path : List Text
  pub method : Method
  pub middlewares : List Middleware
  pub handler : Handler

unfoldable pub own_routes : List Text → List Middleware → List (Method × Handler) → List Route
own_routes path ms [] = []
own_routes path ms ((method, h) ∷ hs) =
    record { path = path; method = method; middlewares = ms; handler = h } ∷ own_routes path ms hs

abbrev join_piece : List Text → Text → List Text
join_piece path [] = path
join_piece path (b ∷ piece) = path ++ (b ∷ piece) ∷ []

unfoldable mutual
  unfolding own_routes

  pub routes : List Text → List Middleware → Router → List Route
  routes path ms (router piece ns hs rs) =
      own_routes (join_piece path piece) (ms ++ ns) hs
      ++ child_routes (join_piece path piece) (ms ++ ns) rs

  pub child_routes : List Text → List Middleware → Routers → List Route
  child_routes path ms nil = []
  child_routes path ms (cons r rs) = routes path ms r ++ child_routes path ms rs

-- Whether a route's path fits a request's.
unfoldable pub same_path : List Text → List Text → Bool
same_path [] [] = true
same_path [] (b ∷ bs) = false
same_path (a ∷ as') [] = text_eq a wildcard && is_empty as'
same_path (a ∷ as') (b ∷ bs) =
    (text_eq a wildcard && is_empty as') || (text_eq a b && same_path as' bs)

unfoldable pub takes : Method → Method → Bool
takes any method = true
takes get get = true
takes post post = true
takes put put = true
takes delete delete = true
takes _ _ = false

-- The first route that fits.
unfoldable pub dispatch : List Route → Method → List Text → Option Route
unfolding same_path takes
dispatch [] method path = none
dispatch (r ∷ rs) method path =
    if takes r.method method && same_path r.path path then some r else dispatch rs method path

unfoldable pub served : Method → List Text → Option Route
unfolding dispatch routes build_router
served method path = dispatch (routes [] [] build_router) method path
