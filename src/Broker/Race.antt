-- ===== src/Broker/Race.antt =====
-- src/workers/notif/mod.rs: each delivery's cache step runs in a task of its own, which reads the
-- receiver's list and writes it back later. Tasks interleave between the two.
use mathlib.Core.List.{append_assoc, append-nil}
use mathlib.Core.Path.{subst}
use hoopoe.Base.{
  ℕ, ◌<◌, ◌^◌, Text, List, [], ◌∷◌, ◌++◌, none, some, ◌≡◌, refl, arith, text_eq, text_eq_refl,
  Option-cases, Bool-cases, inl, inr, text_eq-true,
}
use hoopoe.Models.{NotifData}
use hoopoe.Service.{Services}
use hoopoe.Broker.Cache.{read_events, write_events}
use hoopoe.Broker.CacheLaws.{events_of, read_events_lem, events_of-write_events}

-- A task has yet to read, has a list to write, or is over.
pub data Task : Type 0 where
  reading : NotifData → Task
  writing : NotifData → List NotifData → Task
  over : Task

module _ (V : Services) (exp : ℕ) where
  pub record Tasks : Type 0 where
    pub store : V.Store
    pub one : Task
    pub two : Task

  -- One step of one task.
  unfoldable pub advance : V.Store → Task → V.Store × Task
  advance s (reading event) = elim (read_events V s event) [
    | none ↦ (s, over)
    | some events ↦ (s, writing event events)
  ]
  advance s (writing event events) = (write_events V s event events exp, over)
  advance s over = (s, over)

  -- The scheduler picks a task for each step.
  pub data Step (t : Tasks) : Tasks → Type 0 where
    first : Step t (record t { store = (advance t.store t.one).0; one = (advance t.store t.one).1 })
    second :
        Step t (record t { store = (advance t.store t.two).0; two = (advance t.store t.two).1 })

  pub data Reach (t : Tasks) : Tasks → Type 0 where
    here : Reach t t
    next : {u v : Tasks} → Reach t u → Step u v → Reach t v

module _ (V : Services) (exp : ℕ) (pos : 0 < exp) (small : exp < 2 ^ 31) (owner : Text) where
  module _ (ms : List NotifData) where
    -- The receiver's list begins with what it held at the start.
    abbrev pub Keeps : V.Store → Type 0
    Keeps s = (rest : List NotifData) × (events_of V s owner ≡ some (ms ++ rest))

    abbrev TaskKeeps : Task → Type 0
    TaskKeeps (reading event) = Unit
    TaskKeeps (writing event events) =
        event.receiver_info ≡ owner → (rest : List NotifData) × (events ≡ ms ++ rest)
    TaskKeeps over = Unit

    appended :
        (s : V.Store) (event : NotifData) (events rest : List NotifData)
        → event.receiver_info ≡ owner
        → read_events V s event ≡ some events
        → events_of V s owner ≡ some (ms ++ rest)
        → events ≡ ms ++ (rest ++ event ∷ [])
    appended s event events rest mine e k =
        ground (arith, read_events_lem V s event, append_assoc ms rest (event ∷ []))

    advance-Keeps :
        (s : V.Store) (t : Task)
        → Keeps s
        → TaskKeeps t
        → Keeps (advance V exp s t).0 × TaskKeeps (advance V exp s t).1
    unfolding advance
    advance-Keeps s (reading event) k o = elim (Option-cases (read_events V s event)) [
      | inl e ↦ rw (e, advance) (k, tt)
      | inr (events, e) ↦
          rw (e, advance) (k, λ mine. (k.0 ++ event ∷ [], appended s event events k.0 mine e k.1))
    ]
    advance-Keeps s (writing event events) k o =
        elim (Bool-cases (text_eq event.receiver_info owner)) [
          | inl mine ↦ (
            (
              (o (text_eq-true event.receiver_info owner mine)).0,
              ground (
                arith,
                events_of-write_events V s event events exp pos small owner,
                (o (text_eq-true event.receiver_info owner mine)).1,
              ),
            ),
            tt,
          )
          | inr other ↦ (
            (k.0, ground (arith, events_of-write_events V s event events exp pos small owner, k.1)),
            tt,
          )
        ]
    advance-Keeps s over k o = (k, tt)

    record Inv (t : Tasks V exp) : Type 0 where
      kept : Keeps t.store
      one_ok : TaskKeeps t.one
      two_ok : TaskKeeps t.two

    Step-Inv : {t u : Tasks V exp} → Step V exp t u → Inv t → Inv u
    Step-Inv {t} first i =
        let (kept, ok) = advance-Keeps t.store t.one i.kept i.one_ok in
        record { kept = kept; one_ok = ok; two_ok = i.two_ok }
    Step-Inv {t} second i =
        let (kept, ok) = advance-Keeps t.store t.two i.kept i.two_ok in
        record { kept = kept; one_ok = i.one_ok; two_ok = ok }

    Reach-Inv : {t u : Tasks V exp} → Inv t → Reach V exp t u → Inv u
    Reach-Inv i here = i
    Reach-Inv i (next r s) = Step-Inv s (Reach-Inv i r)

    -- Whatever two notifications are handled at once and however their tasks interleave, nothing
    -- that a receiver's list held before is lost.
    pub earlier_events_stay :
        (f g : NotifData) (s : V.Store) (t : Tasks V exp)
        → events_of V s owner ≡ some ms
        → Reach V exp (record { store = s; one = reading f; two = reading g }) t
        → Keeps t.store
    earlier_events_stay f g s t known r =
        (Reach-Inv (record { kept = ([], rw append-nil known); one_ok = tt; two_ok = tt }) r).kept

  step_first :
      (s s' : V.Store) (one one' two : Task)
      → advance V exp s one ≡ (s', one')
      → Step V exp
          (record { store = s; one = one; two = two })
          (record { store = s'; one = one'; two = two })
  step_first s s' one one' two e =
      subst
        (λ p.
          Step V exp (record { store = s; one = one; two = two })
            (record { store = p.0; one = p.1; two = two }))
        e first

  step_second :
      (s s' : V.Store) (one two two' : Task)
      → advance V exp s two ≡ (s', two')
      → Step V exp
          (record { store = s; one = one; two = two })
          (record { store = s'; one = one; two = two' })
  step_second s s' one two two' e =
      subst
        (λ p.
          Step V exp (record { store = s; one = one; two = two })
            (record { store = p.0; one = one; two = p.1 }))
        e second

  advance-reading :
      (s : V.Store) (f : NotifData) (ms : List NotifData)
      → f.receiver_info ≡ owner
      → events_of V s owner ≡ some ms
      → advance V exp s (reading f) ≡ (s, writing f (ms ++ f ∷ []))
  unfolding advance
  advance-reading s f ms mine known = ground (arith, read_events_lem V s f)

  advance-writing :
      (s : V.Store) (f : NotifData) (events : List NotifData)
      → advance V exp s (writing f events) ≡ (write_events V s f events exp, over)
  unfolding advance
  advance-writing s f events = refl

  -- Two notifications for one receiver can both be handled to the end with only the second of
  -- them in the list: the first one's write is overwritten.
  pub update_can_be_lost :
      (first_event second_event : NotifData) (s : V.Store) (ms : List NotifData)
      → first_event.receiver_info ≡ owner
      → second_event.receiver_info ≡ owner
      → events_of V s owner ≡ some ms
      → (t : Tasks V exp) × Reach V exp
          (record { store = s; one = reading first_event; two = reading second_event })
          t
        × (t.one ≡ over)
        × (t.two ≡ over)
        × (events_of V t.store owner ≡ some (ms ++ second_event ∷ []))
  update_can_be_lost f g s ms hf hg known =
      let written = write_events V s f (ms ++ f ∷ []) exp in
      let last = write_events V written g (ms ++ g ∷ []) exp in
      (
        record { store = last; one = over; two = over },
        next
            (next
              (next
                (next here (
                  step_first s s (reading f) (writing f (ms ++ f ∷ [])) (reading g)
                    (advance-reading s f ms hf known)))
                (step_second s s (writing f (ms ++ f ∷ [])) (reading g) (writing g (ms ++ g ∷ []))
                  (advance-reading s g ms hg known)))
              (step_first s written (writing f (ms ++ f ∷ [])) over (writing g (ms ++ g ∷ []))
                (advance-writing s f (ms ++ f ∷ []))))
            (step_second written last over (writing g (ms ++ g ∷ [])) over
              (advance-writing written g (ms ++ g ∷ []))),
        refl,
        refl,
        ground (
          arith,
          events_of-write_events V written g (ms ++ g ∷ []) exp pos small owner,
          text_eq_refl owner,
        ),
      )
