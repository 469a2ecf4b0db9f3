-- ===== src/Tests/Stream.antt =====
-- A stream of native/src/ir_stream.cpp with two buffers and a queue of one frame, from a callback to
-- the end of its teardown.
use ams_gra_mel_bridge.Prelude.{
  ◌+◌, ◌≤◌, ◌≡◌, refl, ◌⊎◌, inr, true, false, some, [], ◌∷◌, ◌++◌, length, is_some, All, arith,
  replicate,
}
use ams_gra_mel_bridge.IrStream.Callback.{
  Held, arrive_frame, store_frame, begin_external_release, admit_release, release_succeeded,
  retire_release, next_release,
}
use ams_gra_mel_bridge.IrStream.Stream.{logical_stop, claim_cleanup, free_storage}
use ams_gra_mel_bridge.IrStream.Interleaving.{
  System, idle, calling, freed, with_state, checked_out, views, holds, enter, arrive, store, leave,
  succeed, retire, consume, release_lease, stop, gate, detach, drain, free_bytes, provider,
  executing, consumer,
}
use ams_gra_mel_bridge.IrStream.Start.{grow, free_indices, fill_pools, enabling, Runs, start, next}
use ams_gra_mel_bridge.IrStream.Accounts.{owed_by, obliged, freed_is_clear}
use ams_gra_mel_bridge.IrStream.Pool.{Distinct}
use ams_gra_mel_bridge.IrStream.Slots.{OwnedBy, uncertain_owned}
use ams_gra_mel_bridge.IrStream.Owned.{operating}
use ams_gra_mel_bridge.IrStream.Once.{count, tally, waits, released_once}
use ams_gra_mel_bridge.IrStream.Healthy.{healthy_served}
use ams_gra_mel_bridge.IrStream.Join.{join_ends, Executes}
use ams_gra_mel_bridge.IrStream.Frames.{frames_fifo}
use ams_gra_mel_bridge.Tests.Frames.{view, queued_view}

abbrev taken : Held
taken = record { buffer = 7; slot = 0 }

abbrev entered : System
entered = record (enabling 2 1) { in_flight = 1; entering = 1 }

-- A callback has brought wrapper 7.
abbrev arrived : System
arrived = record entered {
  stream = with_state (arrive_frame entered.callback).1 entered.stream;
  entering = 0;
  bodies = taken ∷ [];
  handed = 7 ∷ [];
}

arrived-Runs : Runs 2 1 arrived
unfolding arrive_frame fill_pools free_indices grow replicate
arrived-Runs =
    next (next start (provider (enter refl refl))) (provider (arrive 7 0 (omega arith) refl refl))

-- Its frame is queued.
abbrev stored_now : System
stored_now = record arrived {
  stream = with_state (store_frame (some view) taken arrived.callback).1 arrived.stream;
  bodies = [];
  stored = view ∷ [];
}

stored_now-Runs : Runs 2 1 stored_now
unfolding arrive_frame store_frame fill_pools free_indices grow replicate
stored_now-Runs = next arrived-Runs (provider (store view taken [] [] refl refl refl))

-- A consumer has taken it.
abbrev consumed : System
consumed = record stored_now {
  stream = with_state (record stored_now.callback { queue = [] }) stored_now.stream;
  leases = taken ∷ [];
  delivered = view ∷ [];
}

consumed-Runs : Runs 2 1 consumed
unfolding arrive_frame store_frame fill_pools free_indices grow replicate
consumed-Runs = next stored_now-Runs (consumer (consume queued_view [] refl refl))

-- Its `release()` runs.
abbrev releasing : System
releasing = record consumed {
  stream = with_state (begin_external_release false taken consumed.callback).1 consumed.stream;
  leases = [];
  executor = calling taken true;
  called = 7 ∷ [];
}

releasing-Runs : Runs 2 1 releasing
unfolding begin_external_release admit_release arrive_frame store_frame fill_pools free_indices grow
    replicate
releasing-Runs = next consumed-Runs (consumer (release_lease false taken [] [] refl refl refl))

-- Wrapper 7 is destroyed, and its callback has returned.
abbrev released : System
released = record releasing {
  stream =
      with_state
        (next_release true (retire_release true (release_succeeded 0 releasing.callback))).1
        releasing.stream;
  executor = idle;
  in_flight = 0;
}

released-Runs : Runs 2 1 released
unfolding next_release retire_release release_succeeded begin_external_release admit_release
    arrive_frame store_frame fill_pools free_indices grow replicate
released-Runs =
    next
      (next (next releasing-Runs (executing (succeed taken true refl refl)))
        (executing (retire taken true true refl refl)))
      (provider (leave (omega arith) refl))

-- The stream is torn down.
abbrev torn_down : System
torn_down = record released {
  stream = free_storage false (claim_cleanup (logical_stop false released.stream));
  teardown = freed;
}

torn_down-Runs : Runs 2 1 torn_down
unfolding free_storage claim_cleanup logical_stop next_release retire_release release_succeeded
    begin_external_release admit_release arrive_frame store_frame fill_pools free_indices grow
    replicate
torn_down-Runs =
    next
      (next
        (next
          (next (next released-Runs (consumer (stop false refl)))
            (consumer (gate false (inr refl) refl refl refl)))
          (consumer (detach refl refl)))
        (consumer (drain refl refl refl)))
      (consumer (free_bytes false refl refl refl))

one_release : count 7 releasing.handed ≤ 1
one_release = omega arith

released_once_example :
    (count 7 releasing.unslotted
        + tally 7 releasing.bodies
        + tally 7 releasing.refused
        + tally 7 (holds releasing.queue)
        + tally 7 releasing.leases
        + waits 7 releasing.deferred_releases releasing.pending_deferred_releases
        + count 7 releasing.called
        + count 7 releasing.withheld
      ≡ count 7 releasing.handed)
    × (count 7 releasing.called + count 7 releasing.withheld ≤ 1)
released_once_example = released_once releasing-Runs 7 one_release

freed_is_clear_example :
    (torn_down.in_flight ≡ 0)
    × (torn_down.unslotted ≡ [])
    × (torn_down.bodies ≡ [])
    × (torn_down.refused ≡ [])
    × (torn_down.queue ≡ [])
    × (torn_down.leases ≡ [])
    × (torn_down.pending_deferred_releases ≡ [])
    × (torn_down.executor ≡ idle)
    × (torn_down.uncertain ≡ [])
    × (torn_down.unattempted ≡ [])
    × (torn_down.channel ≡ false)
unfolding free_storage
freed_is_clear_example = freed_is_clear torn_down-Runs refl

uncertain_owned_example :
    All (OwnedBy releasing) (operating releasing.executor ++ releasing.uncertain)
    × Distinct (λ (held : Held). held.slot) (operating releasing.executor ++ releasing.uncertain)
uncertain_owned_example = uncertain_owned releasing-Runs

healthy_served_example :
    (releasing.withheld ≡ [])
    × (releasing.unslotted ≡ [])
    × (releasing.uncertain ≡ [])
    × (releasing.retained_frames
        ≡ length releasing.queue + length releasing.leases + owed_by releasing.executor)
    × (releasing.release_obligations
        ≡ length releasing.pending_deferred_releases + obliged releasing.executor)
    × ((2 ≤ checked_out releasing) ⊎ (is_some (arrive_frame releasing.callback).0 ≡ true))
unfolding begin_external_release admit_release arrive_frame store_frame fill_pools free_indices grow
    replicate
healthy_served_example = healthy_served releasing-Runs refl refl

join_ends_example :
    (t : System) × Executes (λ wrapper. false) true releasing t
    × (t.release_executor_owned ≡ false)
    × ((t.release_obligations ≡ 0) ⊎ (t.uncertain_release ≡ true))
    × (t.queue ≡ releasing.queue)
    × (t.leases ≡ releasing.leases)
    × (t.in_flight ≡ releasing.in_flight)
join_ends_example = join_ends (λ wrapper. false) true releasing-Runs

frames_fifo_example :
    (consumed.delivered ++ (consumed.discarded ++ views consumed.queue) ≡ consumed.stored)
    × (length consumed.queue ≤ 1)
    × ((consumed.discarded ≡ []) ⊎ ((consumed.accepting ≡ false) × (consumed.queue ≡ [])))
frames_fifo_example = frames_fifo consumed-Runs
