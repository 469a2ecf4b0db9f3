-- ===== src/IrStream/Frames.antt =====
-- native/src/ir_stream.cpp: the order of the frames and the counters, under every interleaving.
use ams_gra_mel_bridge.Prelude.{
  ℕ, ◌+◌, ◌≤◌, ◌<◌, ◌≡◌, refl, ap, ◌⊎◌, true, false, none, some, List, [], ◌∷◌, ◌++◌, append_assoc,
  append-nil, arith, length, length-append, length-middle,
}
use ams_gra_mel_bridge.IrStream.Callback.{
  terminal, counter_max, QueuedFrame, arrive_frame, arrive_null, store_frame, defer_release,
  admit_release, begin_callback_release, begin_external_release, release_succeeded, retire_release,
  release_failed, retain_uncertain_buffer, next_release,
}
use ams_gra_mel_bridge.IrStream.Stream.{
  logical_stop, claim_cleanup, restore_channel, keep_storage, free_storage,
}
use ams_gra_mel_bridge.IrStream.Interleaving.{
  System, views, CallbackStep, enter, arrive_empty, arrive, arrive_unslotted, park, store, refuse,
  release_refused, leave, ExecutorStep, succeed, retire, fail, retain, go_on, ConsumerStep, run_now,
  consume, discard, release_lease, request, finish, stop, close, gate, detach_fails, detach, drain,
  keep, free_bytes, Step, provider, executing, consumer,
}
use ams_gra_mel_bridge.IrStream.Start.{fill_pools, enabling, Runs, start, next}
use ams_gra_mel_bridge.IrStream.Accounts.{tearing, Inv, Runs-Inv}

pub record Tidy (q : ℕ) (s : System) : Type 0 where
  pub limit : s.capacity ≡ q
  pub bounded : length s.queue ≤ q
  pub closed_once : (s.public_owner_closed ≡ false) ⊎ (terminal s.lifecycle ≡ true)
  pub torn : (tearing s.teardown ≡ false) ⊎ (terminal s.lifecycle ≡ true)
  pub deaf : (terminal s.lifecycle ≡ false) ⊎ (s.accepting ≡ false)
  pub emptied : (s.discarded ≡ []) ⊎ ((terminal s.lifecycle ≡ true) × (s.queue ≡ []))

CallbackStep-Tidy : {q : ℕ} {s t : System} → CallbackStep s t → Tidy q s → Tidy q t
unfolding arrive_null arrive_frame store_frame retain_uncertain_buffer begin_callback_release
    defer_release admit_release
CallbackStep-Tidy {s = s} (store view held before after g h e) v =
    let frame : QueuedFrame = record { held = held; view = view } in
    ground (arith, length-append s.queue (frame ∷ []))
CallbackStep-Tidy (enter g e) v = ground arith
CallbackStep-Tidy (arrive_empty g e) v = ground arith
CallbackStep-Tidy (arrive buffer slot g h e) v = ground arith
CallbackStep-Tidy (arrive_unslotted buffer g h e) v = ground arith
CallbackStep-Tidy (park buffer before after g e) v = ground arith
CallbackStep-Tidy (refuse view held before after g h e) v = ground arith
CallbackStep-Tidy (release_refused held before after g e) v = ground arith
CallbackStep-Tidy (leave g e) v = ground arith

ExecutorStep-Tidy : {q : ℕ} {s t : System} → ExecutorStep s t → Tidy q s → Tidy q t
unfolding release_succeeded release_failed retire_release retain_uncertain_buffer next_release
ExecutorStep-Tidy (succeed held owed g e) v = ground arith
ExecutorStep-Tidy (retire held owed parks g e) v = ground arith
ExecutorStep-Tidy (fail held owed g e) v = ground arith
ExecutorStep-Tidy (retain held owed g e) v = ground arith
ExecutorStep-Tidy (go_on parks g e) v = ground arith

ConsumerStep-Tidy : {q : ℕ} {s t : System} → ConsumerStep s t → Inv s → Tidy q s → Tidy q t
unfolding begin_external_release admit_release logical_stop claim_cleanup restore_channel
    keep_storage free_storage
ConsumerStep-Tidy (run_now g e) w v = ground arith
ConsumerStep-Tidy (consume frame rest g e) w v = ground arith
ConsumerStep-Tidy (discard g h e) w v = ground arith
ConsumerStep-Tidy (release_lease waited held before after g h e) w v = ground arith
ConsumerStep-Tidy (request g e) w v = ground arith
ConsumerStep-Tidy (finish e) w v = ground arith
ConsumerStep-Tidy (stop failure e) w v = ground arith
ConsumerStep-Tidy (close g e) w v = ground arith
ConsumerStep-Tidy (gate deferred_call first g h e) w v = ground arith
ConsumerStep-Tidy (detach_fails owner_closed g e) w v = ground arith
ConsumerStep-Tidy (detach g e) w v = ground arith
ConsumerStep-Tidy (drain g h e) w v = ground arith
ConsumerStep-Tidy (keep g h e) w v = ground arith
ConsumerStep-Tidy (free_bytes failure g h e) w v = ground arith

Step-Tidy : {q : ℕ} {s t : System} → Step s t → Inv s → Tidy q s → Tidy q t
Step-Tidy (provider st) w v = CallbackStep-Tidy st v
Step-Tidy (executing st) w v = ExecutorStep-Tidy st v
Step-Tidy (consumer st) w v = ConsumerStep-Tidy st w v

enabling-Tidy : (n q : ℕ) → Tidy q (enabling n q)
unfolding fill_pools
enabling-Tidy n q = ground arith

pub Runs-Tidy : {n q : ℕ} {s : System} → Runs n q s → Tidy q s
Runs-Tidy {n = n} {q = q} start = enabling-Tidy n q
Runs-Tidy (next r st) = Step-Tidy st (Runs-Inv r) (Runs-Tidy r)

abbrev Ordered : System → Type 0
Ordered s = s.delivered ++ (s.discarded ++ views s.queue) ≡ s.stored

views-push :
    (frames : List QueuedFrame) (f : QueuedFrame)
    → views (frames ++ f ∷ []) ≡ views frames ++ f.view ∷ []
views-push [] f = refl
views-push (g ∷ gs) f = ap (◌∷◌ g.view) (views-push gs f)

CallbackStep-Ordered : {s t : System} → CallbackStep s t → Ordered s → Ordered t
unfolding arrive_null arrive_frame store_frame retain_uncertain_buffer begin_callback_release
    defer_release admit_release
CallbackStep-Ordered {s = s} (store view held before after g h e) o =
    let frame : QueuedFrame = record { held = held; view = view } in
    ground (
      arith,
      views-push s.queue frame,
      append_assoc s.discarded (views s.queue) (view ∷ []),
      append_assoc s.delivered (s.discarded ++ views s.queue) (view ∷ []),
    )
CallbackStep-Ordered (enter g e) o = ground arith
CallbackStep-Ordered (arrive_empty g e) o = ground arith
CallbackStep-Ordered (arrive buffer slot g h e) o = ground arith
CallbackStep-Ordered (arrive_unslotted buffer g h e) o = ground arith
CallbackStep-Ordered (park buffer before after g e) o = ground arith
CallbackStep-Ordered (refuse view held before after g h e) o = ground arith
CallbackStep-Ordered (release_refused held before after g e) o = ground arith
CallbackStep-Ordered (leave g e) o = ground arith

ExecutorStep-Ordered : {s t : System} → ExecutorStep s t → Ordered s → Ordered t
unfolding release_succeeded release_failed retire_release retain_uncertain_buffer next_release
ExecutorStep-Ordered (succeed held owed g e) o = ground arith
ExecutorStep-Ordered (retire held owed parks g e) o = ground arith
ExecutorStep-Ordered (fail held owed g e) o = ground arith
ExecutorStep-Ordered (retain held owed g e) o = ground arith
ExecutorStep-Ordered (go_on parks g e) o = ground arith

ConsumerStep-Ordered : {q : ℕ} {s t : System} → ConsumerStep s t → Tidy q s → Ordered s → Ordered t
unfolding begin_external_release admit_release logical_stop claim_cleanup restore_channel
    keep_storage free_storage
ConsumerStep-Ordered {s = s} (consume frame rest g e) v o =
    ground (arith, append_assoc s.delivered (frame.view ∷ []) (views rest))
ConsumerStep-Ordered {s = s} (discard g h e) v o =
    ground (arith, append-nil (s.discarded ++ views s.queue))
ConsumerStep-Ordered (run_now g e) v o = ground arith
ConsumerStep-Ordered (release_lease waited held before after g h e) v o = ground arith
ConsumerStep-Ordered (request g e) v o = ground arith
ConsumerStep-Ordered (finish e) v o = ground arith
ConsumerStep-Ordered (stop failure e) v o = ground arith
ConsumerStep-Ordered (close g e) v o = ground arith
ConsumerStep-Ordered (gate deferred_call first g h e) v o = ground arith
ConsumerStep-Ordered (detach_fails owner_closed g e) v o = ground arith
ConsumerStep-Ordered (detach g e) v o = ground arith
ConsumerStep-Ordered (drain g h e) v o = ground arith
ConsumerStep-Ordered (keep g h e) v o = ground arith
ConsumerStep-Ordered (free_bytes failure g h e) v o = ground arith

Runs-Ordered : {n q : ℕ} {s : System} → Runs n q s → Ordered s
unfolding fill_pools
Runs-Ordered start = refl
Runs-Ordered (next r (provider st)) = CallbackStep-Ordered st (Runs-Ordered r)
Runs-Ordered (next r (executing st)) = ExecutorStep-Ordered st (Runs-Ordered r)
Runs-Ordered (next r (consumer st)) = ConsumerStep-Ordered st (Runs-Tidy r) (Runs-Ordered r)

-- What has become of the callbacks that were received.
abbrev accounted : System → ℕ
accounted s =
    length s.stored
    + s.counters.frames_dropped_queue_full
    + s.counters.malformed_or_unsupported_frames
    + s.late
    + length s.bodies
    + length s.unslotted

abbrev Counted : System → Type 0
Counted s =
    ((s.counters.frames_received ≡ counter_max) ⊎ (s.counters.frames_received ≡ accounted s))
    × (s.counters.frames_received ≤ counter_max)

CallbackStep-Counted : {s t : System} → CallbackStep s t → Counted s → Counted t
unfolding arrive_null arrive_frame store_frame retain_uncertain_buffer begin_callback_release
    defer_release admit_release
CallbackStep-Counted (park buffer before after g e) c =
    ground (arith, length-middle before buffer after)
CallbackStep-Counted {s = s} (store view held before after g h e) c =
    ground (arith, length-middle before held after, length-append s.stored (view ∷ []))
CallbackStep-Counted (refuse none held before after g h e) c =
    ground (arith, length-middle before held after)
CallbackStep-Counted (refuse (some view) held before after g h e) c =
    ground (arith, length-middle before held after)
CallbackStep-Counted (enter g e) c = ground arith
CallbackStep-Counted (arrive_empty g e) c = ground arith
CallbackStep-Counted (arrive buffer slot g h e) c = ground arith
CallbackStep-Counted (arrive_unslotted buffer g h e) c = ground arith
CallbackStep-Counted (release_refused held before after g e) c = ground arith
CallbackStep-Counted (leave g e) c = ground arith

ExecutorStep-Counted : {s t : System} → ExecutorStep s t → Counted s → Counted t
unfolding release_succeeded release_failed retire_release retain_uncertain_buffer next_release
ExecutorStep-Counted (succeed held owed g e) c = ground arith
ExecutorStep-Counted (retire held owed parks g e) c = ground arith
ExecutorStep-Counted (fail held owed g e) c = ground arith
ExecutorStep-Counted (retain held owed g e) c = ground arith
ExecutorStep-Counted (go_on parks g e) c = ground arith

ConsumerStep-Counted : {s t : System} → ConsumerStep s t → Counted s → Counted t
unfolding begin_external_release admit_release logical_stop claim_cleanup restore_channel
    keep_storage free_storage
ConsumerStep-Counted (run_now g e) c = ground arith
ConsumerStep-Counted (consume frame rest g e) c = ground arith
ConsumerStep-Counted (discard g h e) c = ground arith
ConsumerStep-Counted (release_lease waited held before after g h e) c = ground arith
ConsumerStep-Counted (request g e) c = ground arith
ConsumerStep-Counted (finish e) c = ground arith
ConsumerStep-Counted (stop failure e) c = ground arith
ConsumerStep-Counted (close g e) c = ground arith
ConsumerStep-Counted (gate deferred_call first g h e) c = ground arith
ConsumerStep-Counted (detach_fails owner_closed g e) c = ground arith
ConsumerStep-Counted (detach g e) c = ground arith
ConsumerStep-Counted (drain g h e) c = ground arith
ConsumerStep-Counted (keep g h e) c = ground arith
ConsumerStep-Counted (free_bytes failure g h e) c = ground arith

Runs-Counted : {n q : ℕ} {s : System} → Runs n q s → Counted s
unfolding fill_pools
Runs-Counted start = ground arith
Runs-Counted (next r (provider st)) = CallbackStep-Counted st (Runs-Counted r)
Runs-Counted (next r (executing st)) = ExecutorStep-Counted st (Runs-Counted r)
Runs-Counted (next r (consumer st)) = ConsumerStep-Counted st (Runs-Counted r)

-- Frames keep their order: under every interleaving, what the consumers have taken, followed by what
-- Close has discarded, followed by the queue, is what the callbacks have queued, oldest first; the
-- queue keeps within its capacity; and Close discards only after a logical Stop, once no
-- frame is accepted any more.
pub frames_fifo :
    {n q : ℕ} {s : System}
    → Runs n q s
    → (s.delivered ++ (s.discarded ++ views s.queue) ≡ s.stored)
      × (length s.queue ≤ q)
      × ((s.discarded ≡ []) ⊎ ((s.accepting ≡ false) × (s.queue ≡ [])))
frames_fifo r = let v = Runs-Tidy r in let o = Runs-Ordered r in (o, v.bounded, ground arith)

-- Until 2^64 - 1 callbacks have come, each callback that was received is accounted for once: its frame
-- was queued, dropped at a full queue, malformed, or late, or it is still being checked.
pub frames_account :
    {n q : ℕ} {s : System}
    → Runs n q s
    → s.counters.frames_received < counter_max
    → s.counters.frames_received
      ≡ length s.stored
        + s.counters.frames_dropped_queue_full
        + s.counters.malformed_or_unsupported_frames
        + s.late
        + length s.bodies
        + length s.unslotted
frames_account r h = let c = Runs-Counted r in ground arith
