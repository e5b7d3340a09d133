-- ===== src/Workers/GarageLaws.antt =====
-- The pool, the event loop and the subscribers of src/workers/actor.rs.
use mathlib.Core.List.{append_assoc, append-nil}
use hoopoe.Base.{
  ℕ, suc, ◌+◌, Text, List, [], ◌∷◌, ◌++◌, none, some, ◌≡◌, refl, arith, ap, sym, ◌∙◌, length,
  length-append, ◌⊎◌, ◌≤◌, inl, inr,
}
use hoopoe.Workers.Garage.{
  Color, ExpensiveCar, Garage, pop, acquire, park, get, get_from, paint, repaint, drop_pooled,
  drop_first, clone_pooled, copy_first, Use, parking, getting, acquiring, dropping, painting,
  use_garage, use_all, Executor, new_executor, spawn, spawn_all, drop_future, run, run_events,
  Person, PersonCall, subscribe, set_info, publish, call_person, call_all,
}

-- The cars of a garage, wherever they are.
abbrev pub cars : Garage → ℕ
cars g = length g.queue + length g.held + length g.got

abbrev pub parked : List Use → ℕ
parked [] = 0
parked (parking car ∷ us) = suc (parked us)
parked (getting ∷ us) = parked us
parked (acquiring ∷ us) = parked us
parked (dropping ∷ us) = parked us
parked (painting color ∷ us) = parked us

pop-cases :
    (queue : List ExpensiveCar)
    → ((pop queue ≡ none) × (queue ≡ []))
      ⊎ ((rest : List ExpensiveCar) × (car : ExpensiveCar) × (pop queue ≡ some (rest, car))
          × (queue ≡ rest ++ car ∷ []))
unfolding pop
pop-cases [] = inl (refl, refl)
pop-cases (car ∷ queue) = elim (pop-cases queue) [
  | inl (e, e') ↦ inr ([], car, rw e refl, ap (λ cs. car ∷ cs) e')
  | inr (rest, last, e, e') ↦ inr (car ∷ rest, last, rw e refl, ap (λ cs. car ∷ cs) e')
]

cars-acquire : (g : Garage) → cars (acquire g) ≡ cars g
unfolding acquire
cars-acquire g = elim (pop-cases g.queue) [
  | inl (e, e') ↦ rw (e, acquire) refl
  | inr (rest, car, e, e') ↦
      rw (e, acquire) (omega (arith, ap length e', length-append rest (car ∷ [])))
]

cars-get :
    (queue : List ExpensiveCar) (g : Garage) → g.queue ≡ queue → cars (get_from queue g) ≡ cars g
unfolding get_from
cars-get [] g e = refl
cars-get (car ∷ rest) g e = omega (arith, ap length e, length-append g.got (car ∷ []))

cars-drop :
    (held : List ExpensiveCar) (g : Garage) → g.held ≡ held → cars (drop_first held g) ≡ cars g
unfolding drop_first
cars-drop [] g e = refl
cars-drop (car ∷ rest) g e = omega (arith, ap length e, length-append g.queue (car ∷ []))

length-repaint :
    (color : Color) (held : List ExpensiveCar) → length (repaint color held) ≡ length held
unfolding repaint
length-repaint color [] = refl
length-repaint color (car ∷ held) = refl

cars-use : (u : Use) (g : Garage) → cars (use_garage u g) ≡ parked (u ∷ []) + cars g
unfolding use_garage park get drop_pooled paint
cars-use (parking car) g = omega (arith, length-append g.queue (car ∷ []))
cars-use getting g = omega (arith, cars-get g.queue g refl)
cars-use acquiring g = omega (arith, cars-acquire g)
cars-use dropping g = omega (arith, cars-drop g.held g refl)
cars-use (painting color) g = omega (arith, length-repaint color g.held)

parked-cons : (u : Use) (us : List Use) → parked (u ∷ us) ≡ parked (u ∷ []) + parked us
parked-cons (parking car) us = omega arith
parked-cons getting us = omega arith
parked-cons acquiring us = omega arith
parked-cons dropping us = omega arith
parked-cons (painting color) us = omega arith

-- However a garage is used, but for clones of pooled objects, a car that is parked is in the queue, in
-- one pooled object or has been handed out, and no car comes from elsewhere.
pub use_all-cars : (us : List Use) (g : Garage) → cars (use_all us g) ≡ parked us + cars g
unfolding use_all
use_all-cars [] g = omega arith
use_all-cars (u ∷ us) g =
    omega (arith, use_all-cars us (use_garage u g), cars-use u g, parked-cons u us)

-- A clone of a pooled object brings another car with it.
pub clone_brings_car :
    (g : Garage)
    → 1 ≤ length g.held
    → cars (drop_pooled (drop_pooled (clone_pooled g))) ≡ cars g + 1
unfolding drop_pooled drop_first clone_pooled copy_first
clone_brings_car g some_held = by_held g.held refl some_held
  where
    by_held :
        (held : List ExpensiveCar)
        → g.held ≡ held
        → 1 ≤ length held
        → cars (drop_pooled (drop_pooled (clone_pooled g))) ≡ cars g + 1
    by_held [] e h = absurd (omega (arith, h))
    by_held (car ∷ held) e h = simp e (
        omega
          (arith, length-append g.queue (car ∷ []), length-append (g.queue ++ car ∷ []) (car ∷ [])))

-- An executor has no task but those of before, and `run` waits for ever if it had none.
spawn_all-same : (names : List Text) (ex : Executor) → spawn_all names ex ≡ ex
unfolding spawn_all spawn drop_future
spawn_all-same [] ex = refl
spawn_all-same (name ∷ names) ex = spawn_all-same names ex

-- Whatever is spawned, a new executor starts none of it, and its event loop does not end.
pub executor_starts_nothing :
    (names : List Text) → run (spawn_all names new_executor) ≡ new_executor
unfolding run run_events new_executor
executor_starts_nothing names = rw (spawn_all-same names new_executor) refl

module _ {V : Type 0} where
  -- The values that are set.
  abbrev pub set_values : List (PersonCall V) → List V
  set_values [] = []
  set_values (subscribe ∷ cs) = set_values cs
  set_values (set_info value ∷ cs) = value ∷ set_values cs

  -- What the subscribers that come see, in the order in which they come.
  abbrev pub later_subscribers : List (PersonCall V) → List (List V)
  later_subscribers [] = []
  later_subscribers (subscribe ∷ cs) = set_values cs ∷ later_subscribers cs
  later_subscribers (set_info value ∷ cs) = later_subscribers cs

  -- What the subscribers that are there see.
  abbrev pub seen_with : List V → List (List V) → List (List V)
  seen_with values [] = []
  seen_with values (seen ∷ subscribers) = (seen ++ values) ∷ seen_with values subscribers

  seen_with-none : (subscribers : List (List V)) → seen_with [] subscribers ≡ subscribers
  seen_with-none [] = refl
  seen_with-none (seen ∷ subscribers) = rw (append-nil seen, seen_with-none subscribers) refl

  seen_with-last :
      (values : List V) (subscribers : List (List V))
      → seen_with values (subscribers ++ [] ∷ []) ≡ seen_with values subscribers ++ values ∷ []
  seen_with-last values [] = refl
  seen_with-last values (seen ∷ subscribers) =
      ap (λ rest. (seen ++ values) ∷ rest) (seen_with-last values subscribers)

  seen_with-publish :
      (value : V) (values : List V) (subscribers : List (List V))
      → seen_with values (publish value subscribers) ≡ seen_with (value ∷ values) subscribers
  unfolding publish
  seen_with-publish value values [] = refl
  seen_with-publish value values (seen ∷ subscribers) =
      rw (append_assoc seen (value ∷ []) values, seen_with-publish value values subscribers) refl

  -- Each subscriber is called with the values that are set after it came, each once and in order.
  pub call_all-subscribers :
      (cs : List (PersonCall V)) (p : Person V)
      → (call_all cs p).subscribers
        ≡ seen_with (set_values cs) p.subscribers ++ later_subscribers cs
  unfolding call_all call_person
  call_all-subscribers [] p =
      sym (append-nil (seen_with [] p.subscribers) ∙ seen_with-none p.subscribers)
  call_all-subscribers (subscribe ∷ cs) p =
      call_all-subscribers cs (record p { subscribers = p.subscribers ++ [] ∷ [] })
      ∙ ap (λ xs. xs ++ later_subscribers cs) (seen_with-last (set_values cs) p.subscribers)
      ∙ append_assoc (seen_with (set_values cs) p.subscribers) (set_values cs ∷ [])
          (later_subscribers cs)
  call_all-subscribers (set_info value ∷ cs) p =
      call_all-subscribers cs (record p { info = value; subscribers = publish value p.subscribers })
      ∙ ap (λ xs. xs ++ later_subscribers cs)
          (seen_with-publish value (set_values cs) p.subscribers)
