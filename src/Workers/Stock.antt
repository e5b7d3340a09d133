-- ===== src/Workers/Stock.antt =====
-- src/workers/actor.rs, `StockPriceEvent`: threads that update a price, and the main thread that
-- waits on a condition variable until the price has come to a limit. Prices are whole numbers.
use hoopoe.Base.{ℕ, List, ◌∷◌, ◌++◌, if◌then◌else◌, ltb, ◌≡◌}

-- The main thread looks at the price, or waits for the signal, or has gone on.
pub data Watcher : Type 0 where
  looking waiting released : Watcher

-- The price, the updates whose threads have not run yet, and the main thread.
pub record Monitor : Type 0 where
  pub price : ℕ
  pub updates : List ℕ
  pub watcher : Watcher

abbrev pub limit : ℕ
limit = 115

unfoldable pub notify_one : Watcher → Watcher
notify_one waiting = looking
notify_one looking = looking
notify_one released = released

unfoldable pub update_price : ℕ → Monitor → Monitor
unfolding notify_one
update_price new_price m = record m { price = new_price; watcher = notify_one m.watcher }

-- A turn of the loop of `wait_for_release`.
unfoldable pub look : ℕ → Watcher → Watcher
look price looking = if ltb price limit then waiting else released
look price waiting = waiting
look price released = released

-- Any thread runs next; a wait may also end without a signal.
pub data Run (s : Monitor) : Monitor → Type 0 where
  start : Run s s
  updated :
      {m : Monitor} (new_price : ℕ) (before after : List ℕ)
      → m.updates ≡ before ++ new_price ∷ after
      → Run s m
      → Run s (update_price new_price (record m { updates = before ++ after }))
  looked : {m : Monitor} → Run s m → Run s (record m { watcher = look m.price m.watcher })
  woken : {m : Monitor} → m.watcher ≡ waiting → Run s m → Run s (record m { watcher = looking })

-- `StockPriceEvent` with the prices of its threads.
unfoldable pub stock_price_event : ℕ → List ℕ → Monitor
stock_price_event price updates = record { price = price; updates = updates; watcher = looking }
