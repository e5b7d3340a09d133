-- ===== src/Workers/StockLaws.antt =====
-- Whether the main thread of `StockPriceEvent` of src/workers/actor.rs goes on.
use hoopoe.Base.{ℕ, ◌<◌, List, [], ◌∷◌, ◌++◌, ◌≡◌, ◌≢◌, refl, arith, sym, ◌∙◌}
use hoopoe.Workers.Stock.{
  Watcher, looking, waiting, released, Monitor, limit, notify_one, update_price, look, Run, start,
  updated, looked, woken, stock_price_event,
}

-- Nothing is left to raise a price that is too low.
abbrev IsStuck : Monitor → Type 0
IsStuck m = (m.updates ≡ []) × (m.price < limit) × (m.watcher ≢ released)

look-low : (price : ℕ) (w : Watcher) → price < limit → w ≢ released → look price w ≢ released
unfolding look
look-low price looking low ne = ground (arith, low)
look-low price waiting low ne = ne
look-low price released low ne = ne

not_updated : (xs ys : List ℕ) (p : ℕ) → [] ≢ xs ++ p ∷ ys
not_updated [] ys p = λ e. cc
not_updated (x ∷ xs) ys p = λ e. cc

Run-IsStuck : {s m : Monitor} → IsStuck s → Run s m → IsStuck m
Run-IsStuck stuck start = stuck
Run-IsStuck stuck (updated p before after e r) =
    absurd (not_updated before after p (sym (Run-IsStuck stuck r).0 ∙ e))
Run-IsStuck stuck (looked {m} r) =
    let ih = Run-IsStuck stuck r in (ih.0, ih.1, look-low m.price m.watcher ih.1 ih.2)
Run-IsStuck stuck (woken e r) = let ih = Run-IsStuck stuck r in (ih.0, ih.1, λ e. cc)

-- The updates in front of the others run.
run_front :
    {s : Monitor} (price : ℕ) (before rest : List ℕ)
    → Run s (stock_price_event price (before ++ rest))
    → (last : ℕ) × Run s (stock_price_event last rest)
unfolding stock_price_event update_price notify_one
run_front price [] rest r = (price, r)
run_front price (p ∷ before) rest r = run_front p before rest (updated p [] (before ++ rest) refl r)

-- The updates behind the first one run.
run_behind :
    {s : Monitor} (price p : ℕ) (after : List ℕ)
    → Run s (stock_price_event price (p ∷ after))
    → (last : ℕ) × Run s (stock_price_event last (p ∷ []))
unfolding stock_price_event update_price notify_one
run_behind price p [] r = (price, r)
run_behind price p (q ∷ after) r = run_behind q p after (updated q (p ∷ []) after refl r)

-- If one of the updates is below the limit, the threads can run so that all updates are made and
-- the main thread is never released any more, whatever runs then.
pub wait_can_last :
    (price p : ℕ) (before after : List ℕ)
    → p < limit
    → (m : Monitor) × Run (stock_price_event price (before ++ p ∷ after)) m
      × (m.updates ≡ [])
      × ((m' : Monitor) → Run m m' → m'.watcher ≢ released)
unfolding stock_price_event update_price notify_one
wait_can_last price p before after low =
    let (q, in_front) = run_front price before (p ∷ after) start in
    let (last, behind) = run_behind q p after in_front in
    (
      stock_price_event p [],
      updated p [] [] refl behind,
      refl,
      λ m' r. (Run-IsStuck (refl, low, λ e. cc) r).2,
    )
