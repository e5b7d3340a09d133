-- ===== src/Workers/Garage.antt =====
-- src/workers/actor.rs: the pool of `MutexCondvarPlayground`, the event loop of `ExecutorEventLoop`
-- and the subscribers of `jobQChannelFromScratch`.
use hoopoe.Base.{
  ℕ, zero, suc, Text, codes, List, [], ◌∷◌, ◌++◌, Bool, true, false, Option, none, some,
}

pub data Color : Type 0 where
  yellow red blue : Color

pub record ExpensiveCar : Type 0 where
  pub brand : Text
  pub color : Color

-- The queue behind the lock, the pooled objects that are alive, the last one first, and the cars
-- that `get` has handed out.
pub record Garage : Type 0 where
  pub queue : List ExpensiveCar
  pub held : List ExpensiveCar
  pub got : List ExpensiveCar

unfoldable pub new_garage : Garage
new_garage = record { queue = []; held = []; got = [] }

-- `Vec::pop`: the last element and the rest.
unfoldable pub pop : List ExpensiveCar → Option (List ExpensiveCar × ExpensiveCar)
pop [] = none
pop (car ∷ cars) = elim (pop cars) [
  | none ↦ some ([], car)
  | some (rest, last) ↦ some (car ∷ rest, last)
]

unfoldable pub acquire : Garage → Garage
unfolding pop
acquire g = elim (pop g.queue) [
  | none ↦ g
  | some (rest, car) ↦ record g { queue = rest; held = car ∷ g.held }
]

unfoldable pub park : ExpensiveCar → Garage → Garage
park car g = record g { queue = g.queue ++ car ∷ [] }

-- `get` waits while there is no car, and takes the first one.
unfoldable pub get_from : List ExpensiveCar → Garage → Garage
get_from [] g = g
get_from (car ∷ rest) g = record g { queue = rest; got = g.got ++ car ∷ [] }

unfoldable pub get : Garage → Garage
unfolding get_from
get g = get_from g.queue g

-- A colour is set through `deref_mut` of the last pooled object.
unfoldable pub repaint : Color → List ExpensiveCar → List ExpensiveCar
repaint color [] = []
repaint color (car ∷ held) = record car { color = color } ∷ held

unfoldable pub paint : Color → Garage → Garage
unfolding repaint
paint color g = record g { held = repaint color g.held }

-- `drop` of the last pooled object pushes its car back.
unfoldable pub drop_first : List ExpensiveCar → Garage → Garage
drop_first [] g = g
drop_first (car ∷ held) g = record g { queue = g.queue ++ car ∷ []; held = held }

unfoldable pub drop_pooled : Garage → Garage
unfolding drop_first
drop_pooled g = drop_first g.held g

-- `#[derive(Clone)]` on the pooled object.
unfoldable pub copy_first : List ExpensiveCar → List ExpensiveCar
copy_first [] = []
copy_first (car ∷ held) = car ∷ car ∷ held

unfoldable pub clone_pooled : Garage → Garage
unfolding copy_first
clone_pooled g = record g { held = copy_first g.held }

pub data Use : Type 0 where
  parking : ExpensiveCar → Use
  getting acquiring dropping : Use
  painting : Color → Use

unfoldable pub use_garage : Use → Garage → Garage
unfolding park get acquire drop_pooled paint
use_garage (parking car) g = park car g
use_garage getting g = get g
use_garage acquiring g = acquire g
use_garage dropping g = drop_pooled g
use_garage (painting color) g = paint color g

unfoldable pub use_all : List Use → Garage → Garage
unfolding use_garage
use_all [] g = g
use_all (u ∷ us) g = use_all us (use_garage u g)

-- `Handlers::produce` parks n cars, and `Handlers::consume` gets n.
abbrev pub new_car : ExpensiveCar
new_car = record { brand = codes "BMW"; color = red }

unfoldable pub produce : ℕ → Garage → Garage
unfolding park
produce zero g = g
produce (suc n) g = produce n (park new_car g)

unfoldable pub consume : ℕ → Garage → Garage
unfolding get
consume zero g = g
consume (suc n) g = consume n (get g)

-- The executor: its channel, and the tasks whose threads were started. The future of `send` in
-- `spawn` is dropped, and the sender lives in the executor, so that the channel is never closed.
pub data EventData : Type 0 where
  task : Text → EventData
  quit : EventData

pub record Executor : Type 0 where
  pub rx : List EventData
  pub running : List Text
  pub ended : Bool

unfoldable pub new_executor : Executor
new_executor = record { rx = []; running = []; ended = false }

unfoldable pub send : EventData → Executor → Executor
send event ex = record ex { rx = ex.rx ++ event ∷ [] }

unfoldable pub drop_future : (Executor → Executor) → Executor → Executor
drop_future future ex = ex

unfoldable pub spawn : Text → Executor → Executor
unfolding send drop_future
spawn name ex = drop_future (send (task name)) ex

-- `run`, up to where it waits or ends.
unfoldable pub run_events : List EventData → Executor → Executor
run_events [] ex = record ex { rx = [] }
run_events (task name ∷ rest) ex = run_events rest (record ex { running = ex.running ++ name ∷ [] })
run_events (quit ∷ rest) ex = record ex { rx = rest; ended = true }

unfoldable pub run : Executor → Executor
unfolding run_events
run ex = run_events ex.rx ex

unfoldable pub spawn_all : List Text → Executor → Executor
unfolding spawn
spawn_all [] ex = ex
spawn_all (name ∷ names) ex = spawn_all names (spawn name ex)

-- A person with subscribers, each of which keeps the values that it was called with.
pub record Person (V : Type 0) : Type 0 where
  pub info : V
  pub subscribers : List (List V)

pub data PersonCall (V : Type 0) : Type 0 where
  subscribe : PersonCall V
  set_info : V → PersonCall V

module _ {V : Type 0} where
  unfoldable pub publish : V → List (List V) → List (List V)
  publish value [] = []
  publish value (seen ∷ subscribers) = (seen ++ value ∷ []) ∷ publish value subscribers

  unfoldable pub call_person : PersonCall V → Person V → Person V
  unfolding publish
  call_person subscribe p = record p { subscribers = p.subscribers ++ [] ∷ [] }
  call_person (set_info value) p = record p {
    info = value;
    subscribers = publish value p.subscribers;
  }

  unfoldable pub call_all : List (PersonCall V) → Person V → Person V
  unfolding call_person
  call_all [] p = p
  call_all (c ∷ cs) p = call_all cs (call_person c p)
