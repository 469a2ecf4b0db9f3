-- ===== src/IrStream/Healthy.antt =====
-- native/src/ir_stream.cpp: a provider that keeps to its buffers, and whose releases succeed, always
-- finds a slot.
use ams_gra_mel_bridge.Prelude.{
  ℕ, ◌+◌, ◌≤◌, ◌<◌, ◌≡◌, refl, ap, subst, ◌⊎◌, inl, inr, Bool, true, false, List, [], ◌∷◌, ◌++◌,
  arith, is_some, length, length-append, length-numbers, length-middle, All,
}
use ams_gra_mel_bridge.IrStream.Callback.{
  Held, QueuedFrame, arrive_frame, arrive_null, store_frame, defer_release, admit_release,
  begin_callback_release, begin_external_release, release_succeeded, retire_release, release_failed,
  retain_uncertain_buffer, next_release,
}
use ams_gra_mel_bridge.IrStream.Stream.{
  logical_stop, claim_cleanup, restore_channel, keep_storage, free_storage,
}
use ams_gra_mel_bridge.IrStream.Interleaving.{
  Executor, calling, destroying, System, with_state, checked_out, holds, begun, next_begun,
  CallbackStep, enter, arrive_empty, arrive, arrive_unslotted, park, store, refuse, release_refused,
  leave, ExecutorStep, succeed, retire, fail, retain, go_on, ConsumerStep, run_now, consume,
  discard, release_lease, request, finish, stop, close, gate, detach_fails, detach, drain, keep,
  free_bytes, Step, provider, executing, consumer,
}
use ams_gra_mel_bridge.IrStream.Start.{fill_pools, enabling, Runs, start, next, fill_pools-Filled}
use ams_gra_mel_bridge.IrStream.Accounts.{active, owed_by, obliged, Inv, Runs-Inv, length-holds}
use ams_gra_mel_bridge.IrStream.Deferred.{Runs-Deferred, Deferred, slot_at-Uncounted}
use ams_gra_mel_bridge.IrStream.Bounds.{Bounded, Runs-Bounded, Inside}
use ams_gra_mel_bridge.IrStream.Pool.{All-middle}

-- The executor has an uncertain slot in use.
abbrev busy : Executor → ℕ
busy (calling held owed) = 1
busy _ = 0

-- The pools hold exactly what is out, and the counts are exact.
abbrev Sound : ℕ → System → Type 0
Sound n s =
    (length s.free_retention_slots
        + length s.bodies
        + length s.refused
        + length s.queue
        + length s.leases
      ≡ n)
    × (length s.bodies
          + length s.refused
          + length s.queue
          + length s.leases
          + length s.pending_deferred_releases
        ≤ n)
    × (length s.free_deferred_releases + length s.pending_deferred_releases ≡ n)
    × (length s.free_uncertain_slots + busy s.executor ≡ n)
    × (s.unslotted ≡ [])
    × (s.withheld ≡ [])
    × (length s.queue + length s.leases + owed_by s.executor ≡ s.retained_frames)
    × (length s.pending_deferred_releases + obliged s.executor ≡ s.release_obligations)
    × ((active s.executor ≡ true) ⊎ (s.pending_deferred_releases ≡ []))

-- As long as the provider has not exceeded its buffers and no release has failed.
abbrev Healthy : ℕ → System → Type 0
Healthy n s = (s.conforms ≡ false) ⊎ (s.uncertain_release ≡ true) ⊎ Sound n s

release_refused-Healthy :
    {n : ℕ} (held : Held) (owned : Bool) (unused free_waiting : List ℕ) (before after : List Held)
    {s t : System}
    → s.release_executor_owned ≡ owned
    → s.free_uncertain_slots ≡ unused
    → s.free_deferred_releases ≡ free_waiting
    → s.refused ≡ before ++ held ∷ after
    → t
      ≡ begun (begin_callback_release held s.callback).0 held false (record s {
        stream = with_state (begin_callback_release held s.callback).1 s.stream;
        refused = before ++ after;
      })
    → Inv s
    → s.retention_slots ≡ n
    → held.slot < n
    → Healthy n s
    → Healthy n t
unfolding begin_callback_release defer_release admit_release
release_refused-Healthy held true unused [] before after x f w g e v size mine h =
    ground (arith, length-middle before held after)
release_refused-Healthy held true unused (index ∷ rest) before after x f w g e v size mine h =
    ground (arith, length-middle before held after)
release_refused-Healthy held false [] free_waiting before after x f w g e v size mine h =
    ground (arith, length-middle before held after)
release_refused-Healthy held false (slot ∷ rest) free_waiting before after x f w g e v size mine h =
    ground (arith, length-middle before held after)

release_lease-Healthy :
    {n : ℕ} (waited : Bool) (held : Held) (unused : List ℕ) (before after : List Held)
    (s t : System)
    → s.release_executor_owned ≡ false
    → s.free_uncertain_slots ≡ unused
    → s.leases ≡ before ++ held ∷ after
    → t
      ≡ begun (begin_external_release waited held s.callback).0 held true (record s {
        stream = with_state (begin_external_release waited held s.callback).1 s.stream;
        leases = before ++ after;
      })
    → Inv s
    → s.retention_slots ≡ n
    → held.slot < n
    → Healthy n s
    → Healthy n t
unfolding begin_external_release admit_release
release_lease-Healthy waited held [] before after s t x f g e v size mine h =
    ground (arith, length-middle before held after)
release_lease-Healthy waited held (slot ∷ rest) before after s t x f g e v size mine h =
    ground (arith, length-middle before held after)

CallbackStep-Healthy :
    {n : ℕ} {s t : System} → CallbackStep s t → Inv s → Bounded n s → Healthy n s → Healthy n t
unfolding arrive_null arrive_frame store_frame retain_uncertain_buffer
CallbackStep-Healthy (enter g e) v b h = ground arith
CallbackStep-Healthy (arrive_empty g e) v b h = ground arith
CallbackStep-Healthy (arrive buffer slot g k e) v b h = let size = b.size in ground arith
CallbackStep-Healthy (arrive_unslotted buffer g k e) v b h = let size = b.size in ground arith
CallbackStep-Healthy (park buffer before after g e) v b h = ground arith
CallbackStep-Healthy {s = s} (store view held before after g k e) v b h =
    let frame : QueuedFrame = record { held = held; view = view } in
    ground (arith, length-middle before held after, length-append s.queue (frame ∷ []))
CallbackStep-Healthy (refuse view held before after g k e) v b h =
    ground (arith, length-middle before held after)
CallbackStep-Healthy {n = n} (release_refused held before after g e) v b h =
    release_refused-Healthy held _ _ _ before after refl refl refl g e v b.size
      (All-middle (Inside n) before held after (subst (All (Inside n)) g b.in_refused)).0 h
CallbackStep-Healthy (leave g e) v b h = ground arith

retire-Healthy :
    {n : ℕ} (held : Held) (owed parks : Bool) (pending : List ℕ) (s t : System)
    → s.pending_deferred_releases ≡ pending
    → s.executor ≡ destroying held owed
    → t
      ≡ next_begun (next_release parks (retire_release owed s.callback)).0 (record s {
        stream = with_state (next_release parks (retire_release owed s.callback)).1 s.stream;
      })
    → Deferred s.callback
    → Healthy n s
    → Healthy n t
unfolding retire_release next_release
retire-Healthy held owed parks [] s t p g e d h = ground arith
retire-Healthy held owed parks (index ∷ rest) s t p g e d h =
    ground (arith, slot_at-Uncounted s.deferred_releases index d)

ExecutorStep-Healthy :
    {n : ℕ} {s t : System}
    → ExecutorStep s t
    → Deferred s.callback
    → Inv s
    → Healthy n s
    → Healthy n t
unfolding release_succeeded release_failed retain_uncertain_buffer next_release
ExecutorStep-Healthy (succeed held owed g e) d v h = ground arith
ExecutorStep-Healthy {s = s} {t = t} (retire held owed parks g e) d v h =
    retire-Healthy held owed parks _ s t refl g e d h
ExecutorStep-Healthy (fail held owed g e) d v h = inr (inl (ground arith))
ExecutorStep-Healthy (retain held owed g e) d v h = inr (inl (ground arith))
ExecutorStep-Healthy (go_on parks g e) d v h = inr (inl (ground arith))

ConsumerStep-Healthy :
    {n : ℕ} {s t : System} → ConsumerStep s t → Inv s → Bounded n s → Healthy n s → Healthy n t
unfolding logical_stop claim_cleanup restore_channel keep_storage free_storage
ConsumerStep-Healthy (consume frame rest g e) v b h = ground arith
ConsumerStep-Healthy {s = s} (discard g k e) v b h =
    ground (arith, length-append (holds s.queue) s.leases, length-holds s.queue)
ConsumerStep-Healthy {n = n} {s = s} {t = t} (release_lease waited held before after g k e) v b h =
    release_lease-Healthy waited held _ before after s t k refl g e v b.size
      (All-middle (Inside n) before held after (subst (All (Inside n)) g b.in_leases)).0 h
ConsumerStep-Healthy (run_now g e) v b h = ground arith
ConsumerStep-Healthy (request g e) v b h = ground arith
ConsumerStep-Healthy (finish e) v b h = ground arith
ConsumerStep-Healthy (stop failure e) v b h = ground arith
ConsumerStep-Healthy (close g e) v b h = ground arith
ConsumerStep-Healthy (gate deferred_call first g k e) v b h = ground arith
ConsumerStep-Healthy (detach_fails owner_closed g e) v b h = ground arith
ConsumerStep-Healthy (detach g e) v b h = ground arith
ConsumerStep-Healthy (drain g k e) v b h = ground arith
ConsumerStep-Healthy (keep g k e) v b h = ground arith
ConsumerStep-Healthy (free_bytes failure g k e) v b h = ground arith

Step-Healthy :
    {n : ℕ} {s t : System}
    → Step s t
    → Deferred s.callback
    → Inv s
    → Bounded n s
    → Healthy n s
    → Healthy n t
Step-Healthy (provider st) d v b h = CallbackStep-Healthy st v b h
Step-Healthy (executing st) d v b h = ExecutorStep-Healthy st d v h
Step-Healthy (consumer st) d v b h = ConsumerStep-Healthy st v b h

enabling-Healthy : (n q : ℕ) → Healthy n (enabling n q)
unfolding fill_pools
enabling-Healthy n q =
    let f = fill_pools-Filled n q in
    ground (
      arith,
      length-numbers 0 n,
      ap length f.free_slots,
      ap length f.free_owners,
      ap length f.free_waiting,
    )

pub Runs-Healthy : {n q : ℕ} {s : System} → Runs n q s → Healthy n s
Runs-Healthy {n = n} {q = q} start = enabling-Healthy n q
Runs-Healthy (next r st) =
    Step-Healthy st (Runs-Deferred r) (Runs-Inv r) (Runs-Bounded r) (Runs-Healthy r)

-- A provider that keeps to its buffers, and whose releases succeed, is never turned away: while it
-- has at no time had more buffers checked out than are registered, and no release has failed, no
-- wrapper has been withheld or has come without a HOLD slot, though new wrappers of a buffer come
-- while its old release is still running. `retained_frames` is then exactly the frames queued and
-- lent and that of the executor, `release_obligations` the releases running and waiting; and if
-- fewer buffers are checked out than are registered, the next callback gets a slot.
pub healthy_served :
    {n q : ℕ} {s : System}
    → Runs n q s
    → s.conforms ≡ true
    → s.uncertain_release ≡ false
    → (s.withheld ≡ [])
      × (s.unslotted ≡ [])
      × (s.uncertain ≡ [])
      × (s.retained_frames ≡ length s.queue + length s.leases + owed_by s.executor)
      × (s.release_obligations ≡ length s.pending_deferred_releases + obliged s.executor)
      × ((n ≤ checked_out s) ⊎ (is_some (arrive_frame s.callback).0 ≡ true))
unfolding arrive_frame
healthy_served r c u = let h = Runs-Healthy r in let v = Runs-Inv r in ground arith
