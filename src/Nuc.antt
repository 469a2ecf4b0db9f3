-- ===== src/Nuc.antt =====
-- native/src/ir_nuc.cpp and native/src/internal/ir_nuc.hpp, NucState: the queue of NUC temperature
-- events, and what each critical section does to it. An event is what `copy_nuc_temp_data` makes.
pub mod Copy
pub mod Interleaving
pub mod Events
pub mod Drain
pub mod Entry
use ams_gra_mel_bridge.Prelude.{
  ℕ, ◌+◌, ◌-◌, Bool, true, false, ◌&&◌, Option, none, some, List, [], ◌∷◌, ◌++◌, length, leb,
  if◌then◌else◌,
}
use ams_gra_mel_bridge.IrStream.Callback.{increment}
use ams_gra_mel_bridge.Health.{MetadataCounters}

pub data NucLifecycle : Type 0 where
  active inactive stopped failed : NucLifecycle

-- `callbacks` counts the calls of `receive` between their two critical sections.
pub record NucState (A : Type 0) : Type 0 where
  pub queue : List A
  pub capacity : ℕ
  pub counters : MetadataCounters
  pub lifecycle : NucLifecycle
  pub callbacks : ℕ

abbrev pub is_active : NucLifecycle → Bool
is_active active = true
is_active _ = false

module _ {A : Type 0} where
  abbrev pub nuc_opened : ℕ → NucState A
  nuc_opened queue_capacity = record {
    queue = [];
    capacity = queue_capacity;
    counters = record {
      events_received = 0;
      events_dropped_queue_full = 0;
      malformed_or_unsupported = 0;
    };
    lifecycle = active;
    callbacks = 0;
  }

  abbrev count_malformed : NucState A → NucState A
  count_malformed s = record s {
    counters = record s.counters {
      malformed_or_unsupported = increment s.counters.malformed_or_unsupported;
    };
  }

  -- The first critical section of `receive`: whether the state is active.
  unfoldable pub receive_arrives : NucState A → Bool × NucState A
  receive_arrives s = (
    is_active s.lifecycle,
    record s {
      callbacks = s.callbacks + 1;
      counters = record s.counters { events_received = increment s.counters.events_received };
    },
  )

  -- What becomes of the event, `none` when it could not be copied: whether it is queued.
  unfoldable pub receive_queues : Option A → NucState A → Bool × NucState A
  receive_queues none s = (false, count_malformed s)
  receive_queues (some event) s =
      if leb s.capacity (length s.queue)
      then (
        false,
        record s {
          counters = record s.counters {
            events_dropped_queue_full = increment s.counters.events_dropped_queue_full;
          };
        },
      )
      else (true, record s { queue = s.queue ++ event ∷ [] })

  -- The second critical section, of a call that found the state `was_active`.
  unfoldable pub receive_stores : Bool → Option A → NucState A → Bool × NucState A
  unfolding receive_queues
  receive_stores was_active event s =
      let (queued, s') = receive_queues event s in
      if was_active && is_active s.lifecycle
      then (queued, record s' { callbacks = s'.callbacks - 1 })
      else (false, record s { callbacks = s.callbacks - 1 })

  -- The handler's critical section, of a call that was `counted` or not.
  unfoldable pub receive_fails : Bool → NucState A → NucState A
  receive_fails counted s =
      let s' = count_malformed s in
      if counted then record s' { callbacks = s'.callbacks - 1 } else s'

  unfoldable pub deactivate : NucState A → NucState A
  deactivate s = if is_active s.lifecycle then record s { lifecycle = inactive } else s

  unfoldable pub stop : NucState A → NucState A
  stop s = if is_active s.lifecycle then record s { lifecycle = stopped } else s

  unfoldable pub fail : NucState A → NucState A
  fail s = record s { lifecycle = failed }
