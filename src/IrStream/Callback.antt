-- ===== src/IrStream/Callback.antt =====
-- native/src/ir_stream.cpp, CallbackState: the queue of frames, the counters, and the pools of slots
-- with what a thread does to them in one critical section. A vector used as a stack is a list
-- whose head is the `back()`. A number names one wrapper of a provider's buffer, the object of one
-- callback.
use ams_gra_mel_bridge.Prelude.{
  ℕ, ◌+◌, ◌-◌, ◌^◌, Bool, true, false, ◌&&◌, not, Option, none, some, List, [], ◌∷◌, ◌++◌, length,
  get_elem?, set, ltb, leb, ◌==◌, if◌then◌else◌,
}
use ams_gra_mel_bridge.IrStream.Frame.{FrameView}

pub data Lifecycle : Type 0 where
  attached starting running stopping stopped failed : Lifecycle

abbrev pub is_failed : Lifecycle → Bool
is_failed failed = true
is_failed _ = false

-- A logical Stop has begun, or the stream is poisoned.
abbrev pub terminal : Lifecycle → Bool
terminal attached = false
terminal starting = false
terminal running = false
terminal _ = true

-- `ams_mel_ir_stream_counters_v1`, all of `std::uint64_t`.
pub record Counters : Type 0 where
  pub frames_received : ℕ
  pub frames_dropped_queue_full : ℕ
  pub malformed_or_unsupported_frames : ℕ

abbrev pub counter_max : ℕ
counter_max = 2 ^ 64 - 1

abbrev pub increment : ℕ → ℕ
increment value = if value == counter_max then value else value + 1

-- A wrapper, and the HOLD slot that it was given in its callback, or the uncertain slot that keeps it.
pub record Held : Type 0 where
  pub buffer : ℕ
  pub slot : ℕ

-- A frame of the queue keeps its wrapper and its HOLD slot, and what it shows of the header.
pub record QueuedFrame : Type 0 where
  pub held : Held
  pub view : FrameView

pub record DeferredRelease : Type 0 where
  pub buffer : Option ℕ
  pub already_counted : Bool

-- No HOLD slot ever owns a wrapper in the code, so `retention_slots` is the size of that vector.
pub record CallbackState : Type 0 where
  pub queue : List QueuedFrame
  pub capacity : ℕ
  pub accepting : Bool
  pub lifecycle : Lifecycle
  pub counters : Counters
  pub retained_frames : ℕ
  pub retention_slots : ℕ
  pub free_retention_slots : List ℕ
  pub release_executor_owned : Bool
  pub uncertain_slots : List (Option ℕ)
  pub free_uncertain_slots : List ℕ
  pub deferred_releases : List DeferredRelease
  pub free_deferred_releases : List ℕ
  pub pending_deferred_releases : List ℕ
  pub release_obligations : ℕ
  pub uncertain_release : Bool

abbrev pub count_received : CallbackState → CallbackState
count_received s = record s {
  counters = record s.counters { frames_received = increment s.counters.frames_received };
}

abbrev pub count_malformed : CallbackState → CallbackState
count_malformed s = record s {
  counters = record s.counters {
    malformed_or_unsupported_frames = increment s.counters.malformed_or_unsupported_frames;
  };
}

abbrev pub count_dropped : CallbackState → CallbackState
count_dropped s = record s {
  counters = record s.counters {
    frames_dropped_queue_full = increment s.counters.frames_dropped_queue_full;
  };
}

abbrev pub acquire_retention_slot : CallbackState → Option ℕ × CallbackState
acquire_retention_slot s = elim s.free_retention_slots [
  | [] ↦ (none, s)
  | index ∷ rest ↦ (some index, record s { free_retention_slots = rest })
]

-- The capacity that Start has reserved is the number of slots.
abbrev pub return_retention_slot : ℕ → CallbackState → CallbackState
return_retention_slot index s =
    if ltb index s.retention_slots && ltb (length s.free_retention_slots) s.retention_slots
    then record s { free_retention_slots = index ∷ s.free_retention_slots }
    else s

-- The first critical section of `image` for a wrapper: the slot that it gets.
unfoldable pub arrive_frame : CallbackState → Option ℕ × CallbackState
arrive_frame s = acquire_retention_slot (count_received s)

-- That of a null wrapper.
unfoldable pub arrive_null : CallbackState → CallbackState
arrive_null s = count_malformed (count_received s)

-- What becomes of a frame at the end of `image`: it is queued, or its wrapper goes back at once.
pub data Verdict : Type 0 where
  queued rejected : Verdict

-- The last critical section of `image`, of a frame that the checks and the copy of its metadata have
-- let through, and where `push_back` finds memory; or else that of a malformed one.
unfoldable pub store_frame : Option FrameView → Held → CallbackState → Verdict × CallbackState
store_frame none held s = (rejected, count_malformed s)
store_frame (some view) held s =
    if not s.accepting
    then (rejected, s)
    else if leb s.capacity (length s.queue)
    then (rejected, count_dropped s)
    else (
      queued,
      record s {
        queue = s.queue ++ (record { held = held; view = view }) ∷ [];
        retained_frames = s.retained_frames + 1;
      },
    )

-- Whether the wrapper has been put aside for the executor.
unfoldable pub defer_release : Held → Bool → CallbackState → Bool × CallbackState
defer_release held already_counted s = elim s.free_deferred_releases [
  | [] ↦ (false, s)
  | index ∷ rest ↦ (
    true,
    return_retention_slot held.slot (record s {
      free_deferred_releases = rest;
      deferred_releases =
          set s.deferred_releases index
            (record { buffer = some held.buffer; already_counted = already_counted });
      pending_deferred_releases = index ∷ s.pending_deferred_releases;
      release_obligations = s.release_obligations + 1;
    }),
  )
]

-- The first critical section of `release_buffer` once no executor is active: the uncertain slot that
-- owns the wrapper before the provider is called; without one the wrapper is parked and the call
-- refused.
unfoldable pub admit_release : Held → CallbackState → Option ℕ × CallbackState
admit_release held s = elim s.free_uncertain_slots [
  | [] ↦ (none, s)
  | slot ∷ rest ↦ (
    some slot,
    return_retention_slot held.slot (record s {
      free_uncertain_slots = rest;
      uncertain_slots = set s.uncertain_slots slot (some held.buffer);
      release_executor_owned = true;
      release_obligations = s.release_obligations + 1;
    }),
  )
]

-- What `release_buffer` does in its first critical section. The call that is admitted runs with
-- this uncertain slot.
pub data Begun : Type 0 where
  admitted : ℕ → Begun
  deferred turned_away : Begun

abbrev pub admission : Option ℕ → Begun
admission none = turned_away
admission (some slot) = admitted slot

abbrev pub deferral : Bool → Begun
deferral true = deferred
deferral false = turned_away

-- In a callback, which never waits.
unfoldable pub begin_callback_release : Held → CallbackState → Begun × CallbackState
unfolding defer_release admit_release
begin_callback_release held s =
    if s.release_executor_owned
    then (let (done, s') = defer_release held false s in (deferral done, s'))
    else let (slot, s') = admit_release held s in (admission slot, s')

-- Elsewhere, from the end of the wait for the executor on; `waited` is whether there was one.
unfoldable pub begin_external_release : Bool → Held → CallbackState → Begun × CallbackState
unfolding admit_release
begin_external_release waited held s =
    if waited && s.uncertain_release
    then (turned_away, s)
    else let (slot, s') = admit_release held s in (admission slot, s')

-- After a `release()` that returned Success: the slot is free again, and the wrapper is
-- destroyed outside the lock.
unfoldable pub release_succeeded : ℕ → CallbackState → CallbackState
release_succeeded slot s = record s {
  uncertain_slots = set s.uncertain_slots slot none;
  free_uncertain_slots = slot ∷ s.free_uncertain_slots;
}

-- After the destruction.
unfoldable pub retire_release : Bool → CallbackState → CallbackState
retire_release already_counted s = record s {
  retained_frames = if already_counted then s.retained_frames - 1 else s.retained_frames;
  release_obligations = s.release_obligations - 1;
}

-- After a `release()` that did not return Success: the first critical section.
unfoldable pub release_failed : CallbackState → CallbackState
release_failed s = record s {
  uncertain_release = true;
  release_obligations = s.release_obligations - 1;
}

-- What `retain_uncertain_buffer` does to the state; `none` is the wrapper without a slot.
unfoldable pub retain_uncertain_buffer : ℕ → Option ℕ → Bool → CallbackState → CallbackState
retain_uncertain_buffer buffer slot already_counted s = record s {
  uncertain_release = true;
  uncertain_slots = elim slot [
    | none ↦ s.uncertain_slots
    | some index ↦ set s.uncertain_slots index (some buffer)
  ];
  retained_frames = if already_counted then s.retained_frames else s.retained_frames + 1;
  lifecycle = failed;
  accepting = false;
}

-- What the executor does next: nothing more; the release of this wrapper, with its uncertain slot and
-- whether it is counted in `retained_frames`; or it gives up, with this wrapper parked or left.
pub data Next : Type 0 where
  ended : Next
  continues : Held → Bool → Next
  surrendered : ℕ → Next

abbrev pub no_release : DeferredRelease
no_release = record { buffer = none; already_counted = false }

abbrev pub slot_at : List DeferredRelease → ℕ → DeferredRelease
slot_at slots index = elim (get_elem? slots index) [ none ↦ no_release | some release ↦ release ]

abbrev pub wrapper : DeferredRelease → ℕ
wrapper release = elim release.buffer [ none ↦ 0 | some buffer ↦ buffer ]

-- The end of a round of the loop of `release_buffer`, where `parks` is whether
-- `park_pre_release_buffer` finds a node.
unfoldable pub next_release : Bool → CallbackState → Next × CallbackState
next_release parks s = elim s.pending_deferred_releases [
  | [] ↦ (ended, record s { release_executor_owned = false })
  | index ∷ rest ↦ elim s.free_uncertain_slots [
    | [] ↦
        if parks
        then (
          surrendered (wrapper (slot_at s.deferred_releases index)),
          record s {
            pending_deferred_releases = rest;
            deferred_releases = set s.deferred_releases index no_release;
            free_deferred_releases = index ∷ s.free_deferred_releases;
            release_obligations = s.release_obligations - 1;
            release_executor_owned = false;
          },
        )
        else (
          surrendered (wrapper (slot_at s.deferred_releases index)),
          record s { pending_deferred_releases = rest; release_executor_owned = false },
        )
    | slot ∷ slots ↦ (
      continues (record { buffer = wrapper (slot_at s.deferred_releases index); slot = slot })
          (slot_at s.deferred_releases index).already_counted,
      record s {
        pending_deferred_releases = rest;
        deferred_releases = set s.deferred_releases index no_release;
        free_deferred_releases = index ∷ s.free_deferred_releases;
        free_uncertain_slots = slots;
        uncertain_slots =
            set s.uncertain_slots slot (some (wrapper (slot_at s.deferred_releases index)));
      },
    )
  ]
]
