-- ===== src/Health/CheckLaws.antt =====
-- What src/apis/v1/http/health.rs, `check_health`, answers when a service is down.
use hoopoe.Base.{
  ℕ, ◌+◌, Text, codes, List, [], ◌∷◌, ◌++◌, true, false, Option, none, some, Outcome, done, ◌>>=◌,
  ◌≡◌, refl, arith, length, >>=-eq-done, Option-cases, inl, inr, length-append,
}
use hoopoe.Models.{storage_io_error_code}
use hoopoe.Errors.{Site, new_error}
use hoopoe.Storage.Engine.{Connections, Storage}
use hoopoe.Health.Check.{
  Failure, Pings, Progress, Rendered, alive, failing, render, report, nothing_rendered, report_all,
  pools_of, check_health,
}

-- How many of the services fail.
abbrev one_if : Option Failure → ℕ
one_if none = 0
one_if (some failure) = 1

abbrev pub failures : Pings → ℕ
failures pings = one_if pings.db + one_if pings.redis + one_if pings.rmq

-- What a failing service adds.
report_adds :
    (prefix : Text) (site : Site) (failure : Option Failure) (p q : Progress)
    → report prefix site failure p ≡ done q
    → (length q.errors ≡ length p.errors + one_if failure)
      × (length q.rendered ≡ length p.rendered + one_if failure)
unfolding report render
report_adds prefix site none p q e = ground (arith, e)
report_adds prefix site (some failure) p q e = elim (Option-cases failure.source) [
  | inl missing ↦ absurd (ground (arith, e, missing))
  | inr (source, found) ↦ ground (
    arith,
    e,
    found,
    length-append p.errors (new_error storage_io_error_code site true ∷ []),
    length-append p.rendered
        (record { status = 500; is_err = true; body = failing (prefix ++ source) } ∷ []),
  )
]

-- What an answer says.
abbrev pub SaysAlive : Pings → Progress → Type 0
SaysAlive pings p =
    (p.status_code ≡ some 200)
    × (length p.errors ≡ failures pings)
    × ((before : List Rendered) × (p.rendered
          ≡ before ++ record { status = 200; is_err = false; body = alive } ∷ [])
        × (length before ≡ failures pings))

rendered_last :
    (pings : Pings) (r : Progress)
    → length r.errors ≡ failures pings
    → length r.rendered ≡ failures pings
    → SaysAlive pings (render 200 false alive r)
unfolding render
rendered_last pings r errors rendered = (refl, errors, (r.rendered, refl, rendered))

report_all-SaysAlive :
    (pings : Pings) (p : Progress) → report_all pings ≡ done p → SaysAlive pings p
unfolding report_all
report_all-SaysAlive pings p e =
    let db = report (codes "SeaOrm: ") Site.check_db_ping pings.db in
    let redis = report (codes "Redis: ") Site.check_redis_pool pings.redis in
    let rmq = report (codes "Rmq: ") Site.check_rmq_pool pings.rmq in
    let end : Progress → Outcome Progress = λ r. done (render 200 false alive r) in
    let (p1, r1, e1) = >>=-eq-done (db nothing_rendered) (λ x. redis x >>= λ y. rmq y >>= end) e in
    let (p2, r2, e2) = >>=-eq-done (redis p1) (λ y. rmq y >>= end) e1 in
    let (p3, r3, e3) = >>=-eq-done (rmq p2) end e2 in
    let a1 = report_adds (codes "SeaOrm: ") Site.check_db_ping pings.db nothing_rendered p1 r1 in
    let a2 = report_adds (codes "Redis: ") Site.check_redis_pool pings.redis p1 p2 r2 in
    let a3 = report_adds (codes "Rmq: ") Site.check_rmq_pool pings.rmq p2 p3 r3 in
    let last : p ≡ render 200 false alive p3 = ground (arith, e3) in
    rw last
      (rendered_last pings p3 (ground (arith, a1.0, a2.0, a3.0)) (ground (arith, a1.1, a2.1, a3.1)))

module _ (C : Connections) where
  -- Whatever the database, Redis and RabbitMQ answer, a health check that does not panic is sent
  -- with the status 200, and the last of its bodies says that the server is alive. Before it stands
  -- one body for each service that fails, and one error is recorded for each.
  pub check_health-SaysAlive :
      (st : Storage C) (pings : Pings) (p : Progress)
      → check_health C st pings ≡ done p
      → SaysAlive pings p
  unfolding check_health
  check_health-SaysAlive st pings p e =
      report_all-SaysAlive pings p (>>=-eq-done (pools_of C st) (λ pools. report_all pings) e).2
