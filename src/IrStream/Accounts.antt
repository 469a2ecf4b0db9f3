-- ===== src/IrStream/Accounts.antt =====
-- native/src/ir_stream.cpp: what the counts of a stream say of the wrappers that are out.
use ams_gra_mel_bridge.Prelude.{
  ℕ, suc, ◌+◌, ◌≤◌, ◌≡◌, refl, ap, ◌⊎◌, Bool, true, false, List, [], ◌∷◌, arith, bit, length,
  length-append, length-middle,
}
use ams_gra_mel_bridge.IrStream.Callback.{
  Held, QueuedFrame, arrive_frame, arrive_null, store_frame, defer_release, admit_release,
  begin_callback_release, begin_external_release, release_succeeded, retire_release, release_failed,
  retain_uncertain_buffer, next_release,
}
use ams_gra_mel_bridge.IrStream.Stream.{
  logical_stop, owes_release, claim_cleanup, restore_channel, keep_storage, free_storage,
}
use ams_gra_mel_bridge.IrStream.Interleaving.{
  Executor, idle, calling, failing, retained, destroying, Teardown, untouched, detaching,
  channel_destroyed, drained_out, freed, kept, System, with_state, holds, next_begun, consume,
  CallbackStep, enter, arrive_empty, arrive, arrive_unslotted, park, store, refuse, release_refused,
  leave, ExecutorStep, succeed, retire, fail, retain, go_on, ConsumerStep, run_now, discard,
  release_lease, request, finish, stop, close, gate, detach_fails, detach, drain, keep, free_bytes,
  Step, provider, executing, consumer, consume,
}
use ams_gra_mel_bridge.IrStream.Start.{fill_pools, enabling, Runs, start, next, fill_pools-Filled}
use ams_gra_mel_bridge.IrStream.Deferred.{Deferred, slot_at-Uncounted, Runs-Deferred}

abbrev pub active : Executor → Bool
active idle = false
active _ = true

-- The executor's wrapper is counted in `retained_frames`.
abbrev pub owed_by : Executor → ℕ
owed_by (calling held owed) = bit owed
owed_by (failing held owed) = bit owed
owed_by (destroying held owed) = bit owed
owed_by _ = 0

-- It is counted in `release_obligations`.
abbrev pub obliged : Executor → ℕ
obliged (calling held owed) = 1
obliged (destroying held owed) = 1
obliged _ = 0

abbrev pub troubled : Executor → Bool
troubled (failing held owed) = true
troubled retained = true
troubled _ = false

abbrev pub tearing : Teardown → Bool
tearing detaching = true
tearing channel_destroyed = true
tearing drained_out = true
tearing _ = false

abbrev pub past_drain : Teardown → Bool
past_drain drained_out = true
past_drain freed = true
past_drain kept = true
past_drain _ = false

pub record Inv (s : System) : Type 0 where
  pub owned : s.release_executor_owned ≡ active s.executor
  pub poisoned : (troubled s.executor ≡ false) ⊎ (s.uncertain_release ≡ true)
  pub failures : (s.uncertain ≡ []) ⊎ (s.uncertain_release ≡ true)
  pub slotless : (s.unattempted ≡ []) ⊎ (s.uncertain_release ≡ true)
  pub retained_enough :
      length s.queue
        + length s.leases
        + owed_by s.executor
        + length s.uncertain
        + length s.unattempted
      ≤ s.retained_frames
  pub obliged_enough :
      length s.pending_deferred_releases + obliged s.executor ≤ s.release_obligations
  pub counted_in :
      s.entering + length s.unslotted + length s.bodies + length s.refused ≤ s.in_flight
  pub claimed : s.cleanup_in_progress ≡ tearing s.teardown
  pub gone : (s.teardown ≡ untouched) ⊎ (s.channel ≡ false)
  pub quiet : (past_drain s.teardown ≡ false) ⊎ (s.in_flight ≡ 0)
  pub owing : (s.storage ≡ true) ⊎ ((s.teardown ≡ freed) × (owes_release s.callback ≡ false))

enabling-Inv : (n q : ℕ) → Inv (enabling n q)
unfolding fill_pools
enabling-Inv n q = let f = fill_pools-Filled n q in ground arith

CallbackStep-Inv : {s t : System} → CallbackStep s t → Inv s → Inv t
unfolding arrive_null arrive_frame store_frame retain_uncertain_buffer begin_callback_release
    defer_release admit_release
CallbackStep-Inv (enter g e) v = ground arith
CallbackStep-Inv (arrive_empty g e) v = ground arith
CallbackStep-Inv (arrive buffer slot g h e) v = ground arith
CallbackStep-Inv (arrive_unslotted buffer g h e) v = ground arith
CallbackStep-Inv (park buffer before after g e) v =
    ground (arith, length-middle before buffer after)
CallbackStep-Inv {s = s} (store view held before after g h e) v = ground (
  arith,
  length-middle before held after,
  length-append s.queue (record { held = held; view = view } ∷ []),
)
CallbackStep-Inv (refuse view held before after g h e) v =
    ground (arith, length-middle before held after)
CallbackStep-Inv {s = s} (release_refused held before after g e) v =
    ground (arith, length-middle before held after)
CallbackStep-Inv (leave g e) v = ground arith

-- The end of a round of the executor, by the wrappers that wait.
retire-Inv :
    (held : Held) (owed parks : Bool) (pending : List ℕ) {s t : System}
    → s.pending_deferred_releases ≡ pending
    → s.executor ≡ destroying held owed
    → t
      ≡ next_begun (next_release parks (retire_release owed s.callback)).0 (record s {
        stream = with_state (next_release parks (retire_release owed s.callback)).1 s.stream;
      })
    → Deferred s.callback
    → Inv s
    → Inv t
unfolding retire_release next_release
retire-Inv held owed parks [] p g e d v = ground arith
retire-Inv held owed parks (index ∷ rest) {s = s} p g e d v =
    ground (arith, slot_at-Uncounted s.deferred_releases index d)

go_on-Inv :
    (parks : Bool) (pending : List ℕ) {s t : System}
    → s.pending_deferred_releases ≡ pending
    → s.executor ≡ retained
    → t
      ≡ next_begun
          (next_release parks s.callback).0
          (record s { stream = with_state (next_release parks s.callback).1 s.stream })
    → Deferred s.callback
    → Inv s
    → Inv t
unfolding next_release
go_on-Inv parks [] p g e d v = ground arith
go_on-Inv parks (index ∷ rest) {s = s} p g e d v =
    ground (arith, slot_at-Uncounted s.deferred_releases index d)

ExecutorStep-Inv : {s t : System} → ExecutorStep s t → Deferred s.callback → Inv s → Inv t
unfolding release_succeeded release_failed retain_uncertain_buffer
ExecutorStep-Inv (succeed held owed g e) d v = ground arith
ExecutorStep-Inv (retire held owed parks g e) d v = retire-Inv held owed parks _ refl g e d v
ExecutorStep-Inv (fail held owed g e) d v = ground arith
ExecutorStep-Inv (retain held owed g e) d v = ground arith
ExecutorStep-Inv (go_on parks g e) d v = go_on-Inv parks _ refl g e d v

pub length-holds : (frames : List QueuedFrame) → length (holds frames) ≡ length frames
length-holds [] = refl
length-holds (f ∷ fs) = ap suc (length-holds fs)

ConsumerStep-Inv : {s t : System} → ConsumerStep s t → Inv s → Inv t
unfolding begin_external_release admit_release logical_stop claim_cleanup restore_channel
    keep_storage free_storage
ConsumerStep-Inv (run_now g e) v = ground arith
ConsumerStep-Inv (consume frame rest g e) v = ground arith
ConsumerStep-Inv {s = s} (discard g h e) v =
    ground (arith, length-append (holds s.queue) s.leases, length-holds s.queue)
ConsumerStep-Inv (release_lease waited held before after g h e) v =
    ground (arith, length-middle before held after)
ConsumerStep-Inv (request g e) v = ground arith
ConsumerStep-Inv (finish e) v = ground arith
ConsumerStep-Inv (stop failure e) v = ground arith
ConsumerStep-Inv (close g e) v = ground arith
ConsumerStep-Inv (gate deferred_call first g h e) v = ground arith
ConsumerStep-Inv (detach_fails owner_closed g e) v = ground arith
ConsumerStep-Inv (detach g e) v = ground arith
ConsumerStep-Inv (drain g h e) v = ground arith
ConsumerStep-Inv (keep g h e) v = ground arith
ConsumerStep-Inv (free_bytes failure g h e) v = ground arith

Step-Inv : {s t : System} → Step s t → Deferred s.callback → Inv s → Inv t
Step-Inv (provider st) d v = CallbackStep-Inv st v
Step-Inv (executing st) d v = ExecutorStep-Inv st d v
Step-Inv (consumer st) d v = ConsumerStep-Inv st v

pub Runs-Inv : {n q : ℕ} {s : System} → Runs n q s → Inv s
Runs-Inv {n = n} {q = q} start = enabling-Inv n q
Runs-Inv (next r st) = Step-Inv st (Runs-Deferred r) (Runs-Inv r)

-- The host bytes outlive the wrappers of the stream: in every state that is reached, if the buffers and their
-- bytes have been freed, then no callback is left, no frame is queued or lent, no release is running or
-- waiting, none has failed, no wrapper has been kept because it came without a HOLD slot, and the
-- channel is gone. Not covered are wrappers whose release was turned away for want of a place.
pub freed_is_clear :
    {n q : ℕ} {s : System}
    → Runs n q s
    → s.storage ≡ false
    → (s.in_flight ≡ 0)
      × (s.unslotted ≡ [])
      × (s.bodies ≡ [])
      × (s.refused ≡ [])
      × (s.queue ≡ [])
      × (s.leases ≡ [])
      × (s.pending_deferred_releases ≡ [])
      × (s.executor ≡ idle)
      × (s.uncertain ≡ [])
      × (s.unattempted ≡ [])
      × (s.channel ≡ false)
freed_is_clear r h = let v = Runs-Inv r in ground arith
