-- ===== src/Storage/DatabaseLaws.antt =====
-- What the engine of src/storage/cruft.rs saves, and when a caller gets one.
use mathlib.Core.List.{append_assoc, append-nil}
use hoopoe.Base.{
  ℕ, zero, suc, ◌+◌, List, [], ◌∷◌, ◌++◌, Bool, true, false, none, some, ◌≡◌, refl, arith,
  if◌then◌else◌, ltb, ◌==◌, length, length-append, Bool-cases, inl, inr, sym, ◌∙◌,
}
use hoopoe.Storage.Buffer.{Buffer, push}
use hoopoe.Storage.Database.{
  Timestamp, Event, Database, new_database, try_connect, connect_loop, Happening, pushed, round,
  halted, happen, run_engine, save_round, drop_future, halt_engine,
}

-- The events that are pushed, in order.
abbrev pub pushed_events : List Happening → List Event
pushed_events [] = []
pushed_events (pushed e ∷ hs) = e ∷ pushed_events hs
pushed_events (round ∷ hs) = pushed_events hs
pushed_events (halted ∷ hs) = pushed_events hs

-- At most so many of them.
abbrev pub first : ℕ → List Event → List Event
first zero events = []
first (suc n) [] = []
first (suc n) (e ∷ events) = e ∷ first n events

push-full :
    (b : Buffer Event) (event : Event) → length b.atomic_data ≡ b.e_size + 1 → push b event ≡ none
unfolding push
push-full b event full = ground (arith, full)

push-room :
    (b : Buffer Event) (event : Event) (room : ℕ)
    → length b.atomic_data + suc room ≡ b.e_size + 1
    → push b event ≡ some (record b { atomic_data = b.atomic_data ++ event ∷ [] })
unfolding push
push-room b event room e = ground (arith, e)

-- Whatever happens to an engine, in any order, it saves nothing and never empties its buffer: the
-- buffer takes the first events until it holds one more than its size, and refuses the later ones.
pub run_engine_lem :
    (hs : List Happening) (d : Database) (room : ℕ)
    → length d.event_buf.atomic_data + room ≡ d.event_buf.e_size + 1
    → ((run_engine hs d).saved ≡ d.saved)
      × ((run_engine hs d).event_buf.atomic_data
          ≡ d.event_buf.atomic_data ++ first room (pushed_events hs))
unfolding run_engine happen save_round drop_future halt_engine
run_engine_lem [] d zero e = (refl, sym (append-nil d.event_buf.atomic_data))
run_engine_lem [] d (suc room) e = (refl, sym (append-nil d.event_buf.atomic_data))
run_engine_lem (pushed event ∷ hs) d zero e =
    rw (push-full d.event_buf event (omega (arith, e)), run_engine) (run_engine_lem hs d zero e)
run_engine_lem (pushed event ∷ hs) d (suc room) e =
    let more : List Event = d.event_buf.atomic_data ++ event ∷ [] in
    let d' : Database = record d { event_buf = record d.event_buf { atomic_data = more } } in
    let ih =
      run_engine_lem hs d' room
        (omega (arith, e, length-append d.event_buf.atomic_data (event ∷ []))) in
    rw (push-room d.event_buf event room e, run_engine)
      (
        ih.0,
        ih.1 ∙ append_assoc d.event_buf.atomic_data (event ∷ []) (first room (pushed_events hs)),
      )
run_engine_lem (round ∷ hs) d room e = run_engine_lem hs d room e
run_engine_lem (halted ∷ hs) d room e = run_engine_lem hs (record d { state = 1 }) room e

-- With time left and an engine that is halted the loop goes round.
connect_loop-halted :
    (rounds state : ℕ) → (state == 0) ≡ false → connect_loop rounds true state ≡ none
unfolding connect_loop
connect_loop-halted zero state off = refl
connect_loop-halted (suc rounds) state off = rw off (connect_loop-halted rounds state off)

connect_loop_lem :
    (rounds state : ℕ) (in_time : Bool)
    → connect_loop (suc rounds) in_time state
      ≡ (if in_time then (if state == 0 then some (some new_database) else none) else some none)
unfolding connect_loop
connect_loop_lem rounds state false = refl
connect_loop_lem rounds state true = elim (Bool-cases (state == 0)) [
  | inl alive ↦ rw alive refl
  | inr dead ↦ rw dead (connect_loop-halted rounds state dead)
]

in_time : (now timeout : ℕ) → ltb now (now + timeout) ≡ ltb 0 timeout
in_time now timeout = ground arith

-- A caller is answered at once, with a new engine if this one is not halted, and with none if there
-- is no time. For a halted engine and some time the answer does not come in any number of rounds.
pub try_connect_lem :
    (rounds timeout : ℕ) (now : Timestamp) (d : Database)
    → try_connect (suc rounds) timeout now d ≡ (
        if ltb 0 timeout
        then (if d.state == 0 then some (some new_database) else none)
        else some none)
unfolding try_connect
try_connect_lem rounds timeout now d =
    rw (connect_loop_lem rounds d.state (ltb now (now + timeout)), in_time now timeout) refl
