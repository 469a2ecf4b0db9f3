-- ===== src/Health.antt =====
-- native/src/ir_health.cpp, MetadataState: the queue of health events, and what each critical
-- section of a callback, a Receive, a close and the teardown does to it. An event is what `build`
-- makes.
pub mod Interleaving
pub mod Events
pub mod Drain
pub mod Channel
use ams_gra_mel_bridge.Prelude.{
  ℕ, ◌+◌, ◌-◌, Bool, true, false, Option, none, some, List, [], ◌∷◌, ◌++◌, length, leb,
  if◌then◌else◌,
}
use ams_gra_mel_bridge.Provider.{Status, ok, timeout, stream_stopped, provider_failed}
use ams_gra_mel_bridge.IrStream.Callback.{increment}

pub data MetadataLifecycle : Type 0 where
  active inactive stopped failed : MetadataLifecycle

-- `ams_mel_ir_metadata_counters_v1`, all of `std::uint64_t`.
pub record MetadataCounters : Type 0 where
  pub events_received : ℕ
  pub events_dropped_queue_full : ℕ
  pub malformed_or_unsupported : ℕ

-- `callbacks` counts the callbacks that have not returned.
pub record MetadataState (A : Type 0) : Type 0 where
  pub queue : List A
  pub capacity : ℕ
  pub counters : MetadataCounters
  pub lifecycle : MetadataLifecycle
  pub callbacks : ℕ

abbrev pub is_active : MetadataLifecycle → Bool
is_active active = true
is_active _ = false

-- What becomes of an event: `build` or the push throws, the event cannot be copied, or it can.
pub data Built (A : Type 0) : Type 0 where
  threw malformed : Built A
  built : A → Built A

module _ {A : Type 0} where
  -- As `ams_mel_ir_health_metadata_open` makes it.
  abbrev pub metadata_opened : ℕ → MetadataState A
  metadata_opened queue_capacity = record {
    queue = [];
    capacity = queue_capacity;
    counters = record {
      events_received = 0;
      events_dropped_queue_full = 0;
      malformed_or_unsupported = 0;
    };
    lifecycle = active;
    callbacks = 0;
  }

  -- `fail`
  unfoldable pub fail : MetadataState A → MetadataState A
  fail s = record s { lifecycle = failed }

  -- The first critical section of `callback`: whether it goes on.
  unfoldable pub callback_arrives : MetadataState A → Bool × MetadataState A
  callback_arrives s = (
    is_active s.lifecycle,
    record s {
      counters = record s.counters { events_received = increment s.counters.events_received };
    },
  )

  -- Its second: whether the event is queued.
  unfoldable pub callback_stores : Built A → MetadataState A → Bool × MetadataState A
  unfolding fail
  callback_stores threw s = (false, fail s)
  callback_stores malformed s =
      if is_active s.lifecycle
      then (
        false,
        record s {
          counters = record s.counters {
            malformed_or_unsupported = increment s.counters.malformed_or_unsupported;
          };
        },
      )
      else (false, s)
  callback_stores (built event) s =
      if is_active s.lifecycle
      then if leb s.capacity (length s.queue)
        then (
          false,
          record s {
            counters = record s.counters {
              events_dropped_queue_full = increment s.counters.events_dropped_queue_full;
            };
          },
        )
        else (true, record s { queue = s.queue ++ event ∷ [] })
      else (false, s)

  -- `ams_mel_ir_health_metadata_receive` from the end of its wait on.
  unfoldable pub metadata_receive : MetadataState A → Status × Option A × MetadataState A
  metadata_receive s = elim s.queue [
    | event ∷ rest ↦ (ok, some event, record s { queue = rest })
    | [] ↦ elim s.lifecycle [
      | failed ↦ (provider_failed, none, s)
      | active ↦ (timeout, none, s)
      | inactive ↦ (stream_stopped, none, s)
      | stopped ↦ (stream_stopped, none, s)
    ]
  ]

  -- What the close of the metadata, the close of the channel, and `cleanup` do first.
  unfoldable pub deactivate : MetadataState A → MetadataState A
  deactivate s = if is_active s.lifecycle then record s { lifecycle = inactive } else s

  -- The end of `cleanup`, once no callback is left.
  unfoldable pub stop_metadata : MetadataState A → MetadataState A
  stop_metadata s = elim s.lifecycle [ failed ↦ s | other ↦ record s { lifecycle = stopped } ]
