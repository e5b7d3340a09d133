-- ===== src/Broker/Commit.antt =====
-- When the offset of a message is committed by the consumer of Kafka in src/workers/notif/mod.rs: by
-- the code itself, and by the client.
use mathlib.Core.Path.{subst, sym}
use hoopoe.Base.{
  ℕ, suc, Text, Bool, true, false, some, ◌≡◌, ◌≢◌, ◌⊎◌, refl, arith, inl, inr, Bool-cases, Outcome,
  done, panic, Outcome-cases, is_utf8,
}
use hoopoe.Models.{SecureCellConfig}
use hoopoe.Service.{Services}
use hoopoe.Broker.{World, kafka}
use hoopoe.Broker.Process.{check_channel, process_kafka}
use hoopoe.Broker.Consume.{
  Status, running, returned, panicked, Run, Message, stop, close, checked, commit, kafka_round,
  kafka_step,
}

module _ (V : Services) (exp : ℕ) (config : SecureCellConfig) (unique_key : Text) (m : Message)
    (r : Run V.Store) where
  -- The state with the message received.
  abbrev got : Run V.Store
  got = record r { received = suc r.received }

  abbrev processed : Text → Outcome (World V.Store × Bool)
  processed bytes = process_kafka V exp config m.env bytes r.world

  -- The message was processed to its end and committed by the code, which goes on; or the code has
  -- not committed it, and has come to its end.
  abbrev Handled : Text → Run V.Store → Type 0
  Handled bytes r' =
      ((r'.status ≡ running)
        × (r'.acks ≡ suc r.acks)
        × (check_channel V kafka r.world.store config unique_key ≡ done true)
        × (processed bytes ≡ done (r'.world, true)))
      ⊎ ((r'.status ≢ running) × (r'.acks ≡ r.acks))

  abbrev Offsets : Text → Run V.Store → Type 0
  Offsets bytes r' =
      (r'.received ≡ suc r.received) × (r'.committed ≡ suc r.received) × Handled bytes r'

  ended-Offsets :
      (bytes : Text) (status : Status) (w : World V.Store)
      → status ≢ running
      → Offsets bytes (close V (record got { status = status; world = w }))
  unfolding close
  ended-Offsets bytes running w ne = absurd (ne refl)
  ended-Offsets bytes returned w ne = (refl, refl, inr (ne, refl))
  ended-Offsets bytes panicked w ne = (refl, refl, inr (ne, refl))

  -- A state is judged by an equal one.
  by_equal :
      (bytes : Text) (x : Run V.Store) {y : Run V.Store} → Offsets bytes x → y ≡ x → Offsets bytes y
  by_equal bytes x o e = subst (Offsets bytes) (sym e) o

  committed-Offsets :
      (bytes : Text) (o : Outcome (World V.Store × Bool))
      → r.status ≡ running
      → check_channel V kafka r.world.store config unique_key ≡ done true
      → processed bytes ≡ o
      → Offsets bytes (close V (commit V m got o))
  unfolding commit stop close
  committed-Offsets bytes panic up c e = ended-Offsets bytes panicked r.world (λ x. cc)
  committed-Offsets bytes (done (w, false)) up c e = ended-Offsets bytes returned w (λ x. cc)
  committed-Offsets bytes (done (w, true)) up c e = elim (Bool-cases m.ack_ok) [
    | inr refused ↦
        by_equal bytes _ (ended-Offsets bytes panicked w (λ x. cc)) (ground (arith, refused))
    | inl ok ↦
        by_equal bytes
          (record got {
            world = w;
            acks = suc r.acks;
            committed = suc r.received;
            status = running;
          })
          (refl, refl, inl (refl, refl, c, e)) (ground (arith, ok, up))
  ]

  -- A consumer of Kafka that is running receives a message. Its code commits the message only if the
  -- message is one of its own channel and its processing has run to its end; the state is then what
  -- the processing left, and the loop goes on. In all other cases, an early return or a panic, the
  -- loop is over without a commit of the code. But the offset is committed in each case, if not by
  -- the code then by the client as it is closed.
  pub kafka_commit_after_processing :
      (bytes : Text)
      → r.status ≡ running
      → m.body ≡ some bytes
      → let after = kafka_step V exp (config, unique_key) m r in
        (after.received ≡ suc r.received)
        × (after.committed ≡ suc r.received)
        × (((after.status ≡ running)
              × (after.acks ≡ suc r.acks)
              × (check_channel V kafka r.world.store config unique_key ≡ done true)
              × (process_kafka V exp config m.env bytes r.world ≡ done (after.world, true)))
            ⊎ ((after.status ≢ running) × (after.acks ≡ r.acks)))
  unfolding kafka_step kafka_round checked stop
  kafka_commit_after_processing bytes up e = elim (Bool-cases m.conn_ok) [
    | inr down ↦
        by_equal bytes _ (ended-Offsets bytes panicked r.world (λ x. cc)) (ground (arith, e, down))
    | inl there ↦ elim (Outcome-cases (check_channel V kafka r.world.store config unique_key)) [
      | inl c ↦
          by_equal bytes _ (ended-Offsets bytes panicked r.world (λ x. cc))
            (ground (arith, e, there, c))
      | inr (false, c) ↦
          by_equal bytes _ (ended-Offsets bytes returned r.world (λ x. cc))
            (ground (arith, e, there, c))
      | inr (true, c) ↦ elim (Bool-cases (is_utf8 bytes)) [
        | inr bad ↦
            by_equal bytes _ (ended-Offsets bytes panicked r.world (λ x. cc))
              (ground (arith, e, there, c, bad))
        | inl u ↦
            by_equal bytes _ (committed-Offsets bytes (processed bytes) up c refl)
              (ground (arith, e, there, c, u))
      ]
    ]
  ]
