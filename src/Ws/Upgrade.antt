-- ===== src/Ws/Upgrade.antt =====
-- src/apis/v1/ws/notif.rs: the handler `consume`. The session is spawned once the connection is
-- upgraded.
use hoopoe.Base.{Option, Outcome, done, panic, ◌>>=◌, unwrap, Bool, if◌then◌else◌}
use hoopoe.Models.{EventQuery}
use hoopoe.Ws.{Hub, session_handler}

-- A session that panics takes only its task with it.
spawned_session : EventQuery → Hub → Hub
spawned_session query s = elim (session_handler query s) [ panic ↦ s | done (s', session) ↦ s' ]

-- The hub afterwards, and whether the connection was upgraded.
unfoldable pub consume : Option EventQuery → (upgraded : Bool) → Hub → Outcome (Hub × Bool)
unfolding spawned_session
consume queries upgraded s =
    unwrap queries >>= λ query. done (if upgraded then spawned_session query s else s, upgraded)
