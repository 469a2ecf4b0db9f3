-- ===== src/IrStream/Interleaving.antt =====
-- native/src/ir_stream.cpp: a running image stream under every interleaving of the provider's
-- callbacks, the consumers of its frames, the executor of the releases and a teardown.
use ams_gra_mel_bridge.Prelude.{
  ℕ, ◌+◌, ◌-◌, ◌<◌, ◌≡◌, refl, Bool, true, false, ◌&&◌, not, Option, none, some, List, [], ◌∷◌,
  ◌++◌, length, bit, map, ltb, ◌⊎◌,
}
use ams_gra_mel_bridge.IrStream.Callback.{
  running, Held, QueuedFrame, CallbackState, queued, rejected, starting, terminal, arrive_frame,
  arrive_null, store_frame, count_malformed, Begun, admitted, deferred, turned_away,
  begin_callback_release, begin_external_release, release_succeeded, retire_release, release_failed,
  retain_uncertain_buffer, Next, ended, continues, surrendered, next_release,
}
use ams_gra_mel_bridge.IrStream.Frame.{FrameView}
use ams_gra_mel_bridge.IrStream.Stream.{
  ImageStreamState, logical_stop, image_stream_retain_failed, owes_release, cleanup_admitted,
  claim_cleanup, restore_channel, keep_storage, free_storage,
}

-- Where the executor of the releases stands, with its wrapper, the uncertain slot of that and
-- whether it is counted: none is active; the provider's `release()` runs; it has failed and the
-- wrapper is not yet retained; it is, or the wrapper of a success is being destroyed.
pub data Executor : Type 0 where
  idle : Executor
  calling : Held → Bool → Executor
  failing : Held → Bool → Executor
  retained : Executor
  destroying : Held → Bool → Executor

-- Where a teardown stands: none has passed its gate; the provider is called to detach the channel;
-- the channel object is destroyed; all callbacks have returned; the host bytes are freed; or kept
-- for ever.
pub data Teardown : Type 0 where
  untouched detaching channel_destroyed drained_out freed kept : Teardown

-- A provider makes no callback on a channel that is destroyed.
abbrev pub delivers : Teardown → Bool
delivers untouched = true
delivers detaching = true
delivers _ = false

-- `in_flight` counts the callbacks that have not returned. Of these, `entering` have not reached
-- their first critical section, `unslotted` are the wrappers that got no HOLD slot there, `bodies`
-- those whose frame is being checked, and `refused` those that go back at once. `leases` are the
-- wrappers of snapshots, and of frames that Receive has consumed or Close discarded, before their
-- release. `handed` lists the wrappers that the provider has handed out, `called` those whose
-- `release()` has been called, `withheld` those that the bridge will never release, of which `unattempted` came without a HOLD slot
-- and were retained, and `uncertain`
-- those whose release has failed, each with its slot. `conforms` is whether the provider has at no
-- time had more buffers checked out than are registered, where a buffer is checked out from its
-- callback to the call of `release()`. `stored`, `delivered` and `discarded` are the views of the
-- frames that were queued, consumed, and discarded by Close, oldest first; `late` counts the frames
-- that came when none were accepted.
pub record System : Type 0 where
  pub stream : ImageStreamState
  pub open stream use *
  pub in_flight : ℕ
  pub entering : ℕ
  pub unslotted : List ℕ
  pub bodies : List Held
  pub refused : List Held
  pub leases : List Held
  pub executor : Executor
  pub teardown : Teardown
  pub handed : List ℕ
  pub called : List ℕ
  pub withheld : List ℕ
  pub unattempted : List ℕ
  pub uncertain : List Held
  pub conforms : Bool
  pub stored : List FrameView
  pub delivered : List FrameView
  pub discarded : List FrameView
  pub late : ℕ

abbrev pub with_state : CallbackState → ImageStreamState → ImageStreamState
with_state c s = record s { callback = c }

-- The wrappers that are checked out.
abbrev pub checked_out : System → ℕ
checked_out s =
    length s.unslotted
    + length s.bodies
    + length s.refused
    + length s.queue
    + length s.leases
    + length s.pending_deferred_releases

abbrev pub conforming : System → Bool
conforming s = s.conforms && ltb (checked_out s) s.retention_slots

abbrev pub views : List QueuedFrame → List FrameView
views = map λ frame. frame.view

abbrev pub holds : List QueuedFrame → List Held
holds = map λ frame. frame.held

-- A frame that was refused although it was well formed and the queue had room.
abbrev pub lateness : Option FrameView → CallbackState → ℕ
lateness none s = 0
lateness (some view) s = bit (not s.accepting)

-- A release has begun: the executor takes the wrapper, or it waits among the deferred, or it is
-- withheld.
abbrev pub begun : Begun → Held → Bool → System → System
begun (admitted slot) held owed s = record s {
  executor = calling (record { buffer = held.buffer; slot = slot }) owed;
  called = held.buffer ∷ s.called;
}
begun deferred held owed s = s
begun turned_away held owed s = record s { withheld = held.buffer ∷ s.withheld }

abbrev pub next_begun : Next → System → System
next_begun ended s = record s { executor = idle }
next_begun (continues held owed) s = record s {
  executor = calling held owed;
  called = held.buffer ∷ s.called;
}
next_begun (surrendered buffer) s = record s { executor = idle; withheld = buffer ∷ s.withheld }

pub begun-stream :
    (b : Begun) (held : Held) (owed : Bool) (s : System) → (begun b held owed s).stream ≡ s.stream
begun-stream (admitted slot) held owed s = refl
begun-stream deferred held owed s = refl
begun-stream turned_away held owed s = refl

pub next_begun-stream : (n : Next) (s : System) → (next_begun n s).stream ≡ s.stream
next_begun-stream ended s = refl
next_begun-stream (continues held owed) s = refl
next_begun-stream (surrendered buffer) s = refl

-- The provider's callbacks.
pub data CallbackStep (s t : System) : Type 0 where
  enter :
      delivers s.teardown ≡ true
      → t ≡ record s { in_flight = s.in_flight + 1; entering = s.entering + 1 }
      → CallbackStep s t
  arrive_empty :
      0 < s.entering
      → t ≡ record s {
        stream = with_state (arrive_null s.callback) s.stream;
        entering = s.entering - 1;
      }
      → CallbackStep s t
  arrive :
      (buffer slot : ℕ)
      → 0 < s.entering
      → (arrive_frame s.callback).0 ≡ some slot
      → t ≡ record s {
        stream = with_state (arrive_frame s.callback).1 s.stream;
        entering = s.entering - 1;
        bodies = (record { buffer = buffer; slot = slot }) ∷ s.bodies;
        handed = buffer ∷ s.handed;
        conforms = conforming s;
      }
      → CallbackStep s t
  arrive_unslotted :
      (buffer : ℕ)
      → 0 < s.entering
      → (arrive_frame s.callback).0 ≡ none
      → t ≡ record s {
        stream = with_state (arrive_frame s.callback).1 s.stream;
        entering = s.entering - 1;
        unslotted = buffer ∷ s.unslotted;
        handed = buffer ∷ s.handed;
        conforms = conforming s;
      }
      → CallbackStep s t
  -- The last two critical sections of a wrapper without a slot, which only raise a counter and
  -- poison the stream, are one step.
  park :
      (buffer : ℕ) (before after : List ℕ)
      → s.unslotted ≡ before ++ buffer ∷ after
      → t ≡ record s {
        stream = image_stream_retain_failed (
            with_state
              (retain_uncertain_buffer buffer none false (count_malformed s.callback))
              s.stream);
        unslotted = before ++ after;
        withheld = buffer ∷ s.withheld;
        unattempted = buffer ∷ s.unattempted;
      }
      → CallbackStep s t
  store :
      (view : FrameView) (held : Held) (before after : List Held)
      → s.bodies ≡ before ++ held ∷ after
      → (store_frame (some view) held s.callback).0 ≡ queued
      → t ≡ record s {
        stream = with_state (store_frame (some view) held s.callback).1 s.stream;
        bodies = before ++ after;
        stored = s.stored ++ view ∷ [];
      }
      → CallbackStep s t
  refuse :
      (view : Option FrameView) (held : Held) (before after : List Held)
      → s.bodies ≡ before ++ held ∷ after
      → (store_frame view held s.callback).0 ≡ rejected
      → t ≡ record s {
        stream = with_state (store_frame view held s.callback).1 s.stream;
        bodies = before ++ after;
        refused = held ∷ s.refused;
        late = s.late + lateness view s.callback;
      }
      → CallbackStep s t
  release_refused :
      (held : Held) (before after : List Held)
      → s.refused ≡ before ++ held ∷ after
      → t
        ≡ begun (begin_callback_release held s.callback).0 held false (record s {
          stream = with_state (begin_callback_release held s.callback).1 s.stream;
          refused = before ++ after;
        })
      → CallbackStep s t
  leave :
      s.entering + length s.unslotted + length s.bodies + length s.refused < s.in_flight
      → t ≡ record s { in_flight = s.in_flight - 1 }
      → CallbackStep s t

-- The executor, from the return of the provider's `release()` on.
pub data ExecutorStep (s t : System) : Type 0 where
  succeed :
      (held : Held) (owed : Bool)
      → s.executor ≡ calling held owed
      → t ≡ record s {
        stream = with_state (release_succeeded held.slot s.callback) s.stream;
        executor = destroying held owed;
      }
      → ExecutorStep s t
  retire :
      (held : Held) (owed parks : Bool)
      → s.executor ≡ destroying held owed
      → t
        ≡ next_begun (next_release parks (retire_release owed s.callback)).0 (record s {
          stream = with_state (next_release parks (retire_release owed s.callback)).1 s.stream;
        })
      → ExecutorStep s t
  fail :
      (held : Held) (owed : Bool)
      → s.executor ≡ calling held owed
      → t ≡ record s {
        stream = with_state (release_failed s.callback) s.stream;
        executor = failing held owed;
      }
      → ExecutorStep s t
  retain :
      (held : Held) (owed : Bool)
      → s.executor ≡ failing held owed
      → t ≡ record s {
        stream = image_stream_retain_failed (
            with_state
              (retain_uncertain_buffer held.buffer (some held.slot) owed s.callback)
              s.stream);
        executor = retained;
        uncertain = held ∷ s.uncertain;
      }
      → ExecutorStep s t
  go_on :
      (parks : Bool)
      → s.executor ≡ retained
      → t
        ≡ next_begun
            (next_release parks s.callback).0
            (record s { stream = with_state (next_release parks s.callback).1 s.stream })
      → ExecutorStep s t

-- The application: what takes frames, gives them back, stops, closes and cleans up. Close stops
-- the stream first, and so does a Stop before the cleanup that is not deferred.
pub data ConsumerStep (s t : System) : Type 0 where
  run_now :
      s.lifecycle ≡ starting
      → t ≡ record s { stream = with_state (record s.callback { lifecycle = running }) s.stream }
      → ConsumerStep s t
  consume :
      (frame : QueuedFrame) (rest : List QueuedFrame)
      → s.queue ≡ frame ∷ rest
      → t ≡ record s {
        stream = with_state (record s.callback { queue = rest }) s.stream;
        leases = frame.held ∷ s.leases;
        delivered = s.delivered ++ frame.view ∷ [];
      }
      → ConsumerStep s t
  discard :
      s.public_owner_closed ≡ false
      → terminal s.lifecycle ≡ true
      → t ≡ record s {
        stream = with_state (record s.callback { queue = [] }) s.stream;
        leases = holds s.queue ++ s.leases;
        discarded = s.discarded ++ views s.queue;
      }
      → ConsumerStep s t
  release_lease :
      (waited : Bool) (held : Held) (before after : List Held)
      → s.leases ≡ before ++ held ∷ after
      → s.release_executor_owned ≡ false
      → t
        ≡ begun (begin_external_release waited held s.callback).0 held true (record s {
          stream = with_state (begin_external_release waited held s.callback).1 s.stream;
          leases = before ++ after;
        })
      → ConsumerStep s t
  request :
      s.channel ≡ true
      → t ≡ record s { stream = record s.stream { requests = s.requests + 1 } }
      → ConsumerStep s t
  finish :
      t ≡ record s { stream = record s.stream { requests = s.requests - 1 } } → ConsumerStep s t
  stop :
      (failure : Bool) → t ≡ record s { stream = logical_stop failure s.stream } → ConsumerStep s t
  close :
      terminal s.lifecycle ≡ true
      → t ≡ record s { stream = record s.stream { public_owner_closed = true } }
      → ConsumerStep s t
  gate :
      (deferred_call : Bool)
      → (deferred_call ≡ true) ⊎ (terminal s.lifecycle ≡ true)
      → s.cleanup_in_progress ≡ false
      → cleanup_admitted deferred_call s.stream ≡ true
      → t ≡ record s { stream = claim_cleanup s.stream; teardown = detaching }
      → ConsumerStep s t
  detach_fails :
      (owner_closed : Bool)
      → s.teardown ≡ detaching
      → t ≡ record s { stream = restore_channel owner_closed s.stream; teardown = untouched }
      → ConsumerStep s t
  detach : s.teardown ≡ detaching → t ≡ record s { teardown = channel_destroyed } → ConsumerStep s t
  drain :
      s.teardown ≡ channel_destroyed
      → s.in_flight ≡ 0
      → t ≡ record s { teardown = drained_out }
      → ConsumerStep s t
  keep :
      s.teardown ≡ drained_out
      → owes_release s.callback ≡ true
      → t ≡ record s { stream = keep_storage s.stream; teardown = kept }
      → ConsumerStep s t
  free_bytes :
      (failure : Bool)
      → s.teardown ≡ drained_out
      → owes_release s.callback ≡ false
      → t ≡ record s { stream = free_storage failure s.stream; teardown = freed }
      → ConsumerStep s t

pub data Step (s t : System) : Type 0 where
  provider : CallbackStep s t → Step s t
  executing : ExecutorStep s t → Step s t
  consumer : ConsumerStep s t → Step s t
