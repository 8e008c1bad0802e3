-- ===== src/Tests/Listeners.antt =====
-- Examples for the listeners of src/server.rs.
use herbert.Prelude.{ℕ, ◌≡◌, refl, none, some, inr, [], if◌then◌else◌, bytes_eq, pair_eq, codes}
use herbert.HashMap.{lookup}
use herbert.Outcome.{ok}
use herbert.Config.{from_env}
use herbert.Storage.InMemoryLog.{InMemoryLog, log_storage}
use herbert.Storage.InMemoryLog.Contents.{contents}
use herbert.TopicManager.Operations.{TopicManager, new_metadata}
use herbert.TopicManager.Restart.{Restored}
use herbert.OffsetManager.Operations.{OffsetManager}
use herbert.OffsetManager.Operations as Offsets
use herbert.Server.Listeners.{Machine, Running, serve, run}
use herbert.Server.Runs.{Finds, HasSameOffsets, run-IsServed}
use herbert.Tests.Toy.{Batch, arrow, arrow_laws, os, os_takes, disk, json, json_laws}
use herbert.Tests.Topics as Topics_tests
use herbert.Server.Listeners.Topics.{lookup-serve}
use herbert.Tests.Schedule.{
  protocol, link, from_slice, events, config, first, Serving, after_events, after_events-Serving,
}

abbrev machine : Machine
machine = record {
  var = λ _. none;
  open_append = λ _. inr after_events.0.wal.file.inner.file;
  read_file = λ path.
      if bytes_eq.beq path config.wal_path
      then some after_events.0.wal.file.inner.file
      else after_events.1.1;
  bind = λ _. none;
}

machine-Finds :
    Finds {Fault = ℕ} arrow arrow_laws os os_takes json json_laws disk
      (λ file text. refl)
      protocol
      link
      from_slice
      config
      machine
      after_events
unfolding from_env
machine-Finds = record {
  configured = refl;
  wal_opened = refl;
  wal_there = refl;
  offsets_there = refl;
  kafka_free = refl;
  herbert_free = refl;
}

run-IsServed_example :
    (tm : TopicManager ℕ Batch (InMemoryLog Batch)) × (om : OffsetManager) × (run {Fault = ℕ} arrow
        os json disk protocol link from_slice machine events
      ≡ ok (
          serve arrow os
            (log_storage arrow)
            json
            disk
            protocol
            link
            from_slice
            events
            (record { state = (tm, (om, after_events.1.1)); kafka = []; herbert = [] })))
    × Restored {Fault = ℕ} arrow os (log_storage arrow) contents after_events.0 tm
    × HasSameOffsets {Fault = ℕ} arrow arrow_laws os os_takes json json_laws disk
        (λ file text. refl)
        protocol
        link
        from_slice
        config
        after_events.1.0
        om
    × Serving (tm, (om, after_events.1.1))
run-IsServed_example =
    run-IsServed arrow arrow_laws os os_takes json json_laws disk (λ file text. refl) protocol link
      from_slice config machine events after_events-Serving machine-Finds

abbrev begun :
    Running {Schema = ℕ} {Fault = ℕ} arrow os (log_storage arrow) json disk protocol link from_slice
begun = record { state = first; kafka = []; herbert = [] }

-- A server that knows the topic `b`.
abbrev knowing :
    Running {Schema = ℕ} {Fault = ℕ} arrow os (log_storage arrow) json disk protocol link from_slice
knowing = record begun { state = (Topics_tests.tm, (Offsets.new config, none)) }

lookup-serve_example :
    lookup
      (codes "b")
      (serve arrow os
        (log_storage arrow)
        json
        disk
        protocol
        link
        from_slice
        events
        knowing).1.state.0.topic_metadatas.inner
    ≡ some (new_metadata (codes "b") (some 7))
unfolding lookup
lookup-serve_example =
    lookup-serve arrow os (log_storage arrow) json disk protocol link from_slice (codes "b")
      (new_metadata (codes "b") (some 7)) events knowing refl
