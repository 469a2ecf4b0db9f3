-- ===== src/IrStream/Entry.antt =====
-- native/src/ir_stream.cpp: the release of a wrapper, the teardown, Stop, Close and the close of a
-- snapshot, each from its start to its return when no other thread and no callback comes between.
-- Their texts are those of `diagnostic`; an empty one is left where none is written.
use ams_gra_mel_bridge.Prelude.{
  ℕ, zero, suc, Bool, true, false, ◌&&◌, ◌||◌, not, some, List, [], ◌∷◌, length, ◌==◌,
  if◌then◌else◌, codes,
}
use ams_gra_mel_bridge.Provider.{Status, ok, provider_failed}
use ams_gra_mel_bridge.IrStream.Callback.{
  Lifecycle, stopped, is_failed, terminal, Held, QueuedFrame, CallbackState, admitted,
  begin_external_release, release_succeeded, retire_release, release_failed,
  retain_uncertain_buffer, ended, continues, surrendered, next_release,
}
use ams_gra_mel_bridge.IrStream.Stream.{
  ImageStreamState, logical_stop, image_stream_retain_failed, owes_release, claim_cleanup,
  restore_channel, keep_storage, free_storage,
}

-- What the provider answers: whether the `release()` of a wrapper, `disable()` and `detachChannel()`
-- return Success; and whether a wrapper that is not released finds a node to be parked in.
pub record Answers : Type 0 where
  pub releases : ℕ → Bool
  pub disables : Bool
  pub detaches : Bool
  pub parks : Bool

abbrev pub with_callback : CallbackState → ImageStreamState → ImageStreamState
with_callback c s = record s { callback = c }

-- A round of the executor, from the provider's answer on.
unfoldable pub after_release : Answers → Held → Bool → ImageStreamState → ImageStreamState
after_release w held owed s =
    if w.releases held.buffer
    then with_callback (retire_release owed (release_succeeded held.slot s.callback)) s
    else image_stream_retain_failed (
        with_callback
          (retain_uncertain_buffer held.buffer (some held.slot) owed (release_failed s.callback)) s)

-- Its loop, which ends after the wrappers that wait.
unfoldable pub execute : ℕ → Answers → Held → Bool → ImageStreamState → ImageStreamState
unfolding after_release next_release
execute zero w held owed s = s
execute (suc fuel) w held owed s =
    let done = after_release w held owed s in
    let c = (next_release w.parks done.callback).1 in
    elim (next_release w.parks done.callback).0 [
      | ended ↦ with_callback c done
      | surrendered buffer ↦ with_callback c done
      | continues held' owed' ↦ execute fuel w held' owed' (with_callback c done)
    ]

-- `release_retained_buffer`: whether the provider has taken the wrapper back.
unfoldable pub release_retained_buffer : Answers → Held → ImageStreamState → Bool × ImageStreamState
unfolding execute
release_retained_buffer w held s =
    let c = (begin_external_release false held s.callback).1 in
    elim (begin_external_release false held s.callback).0 [
      | admitted slot ↦ (
        w.releases held.buffer,
        execute (suc (length c.pending_deferred_releases)) w
            (record { buffer = held.buffer; slot = slot }) true (with_callback c s),
      )
      | _ ↦ (false, with_callback c s)
    ]

unfoldable pub release_frames :
    Answers → List QueuedFrame → ImageStreamState → Bool × ImageStreamState
unfolding release_retained_buffer
release_frames w [] s = (true, s)
release_frames w (frame ∷ rest) s =
    let (done, s') = release_retained_buffer w frame.held s in
    let (others, s'') = release_frames w rest s' in (done && others, s'')

unfoldable pub discard_queued_frames : Answers → ImageStreamState → Bool × ImageStreamState
unfolding release_frames
discard_queued_frames w s =
    release_frames w s.queue (with_callback (record s.callback { queue = [] }) s)

pub data CleanupOutcome : Type 0 where
  not_required succeeded cleanup_failed : CleanupOutcome

abbrev pub adopted : ImageStreamState → CleanupOutcome
adopted s = if s.cleanup_ok then succeeded else cleanup_failed

-- The end of `image_stream_cleanup`, after the channel is detached and destroyed and no callback is
-- left.
unfoldable pub settle_storage : Bool → ImageStreamState → CleanupOutcome × ImageStreamState
settle_storage failure s =
    if owes_release s.callback
    then (cleanup_failed, keep_storage s)
    else if failure || is_failed s.lifecycle
    then (cleanup_failed, free_storage true s)
    else (succeeded, free_storage false s)

unfoldable pub image_stream_cleanup :
    Answers → Bool → ImageStreamState → CleanupOutcome × ImageStreamState
unfolding settle_storage
image_stream_cleanup w deferred s =
    if not (s.requests == 0) || owes_release s.callback
    then (not_required, s)
    else if s.cleanup_complete
    then (adopted s, s)
    else if deferred && not (terminal s.lifecycle) && not s.public_owner_closed
    then (not_required, s)
    else if not s.channel
    then (not_required, s)
    else if not w.detaches
    then (cleanup_failed, restore_channel s.public_owner_closed (claim_cleanup s))
    else settle_storage (is_failed s.lifecycle || (s.enable_attempted && not w.disables))
        (claim_cleanup s)

abbrev pub retain_if : Bool → ImageStreamState → ImageStreamState
retain_if closed s = if closed then image_stream_retain_failed s else s

-- A failed cleanup after Close roots the graph.
abbrev pub conclude : CleanupOutcome × ImageStreamState → CleanupOutcome × ImageStreamState
conclude (cleanup_failed, s) = (cleanup_failed, retain_if s.public_owner_closed s)
conclude (outcome, s) = (outcome, s)

-- Its loop ends after one round when nobody disturbs it, since it has tested what the cleanup tests.
unfoldable pub finish_deferred_cleanup :
    Answers → Bool → ImageStreamState → CleanupOutcome × ImageStreamState
unfolding image_stream_cleanup
finish_deferred_cleanup w close_public_owner s =
    if s.cleanup_complete
    then (adopted s, s)
    else if not (terminal s.lifecycle || s.public_owner_closed)
    then (not_required, s)
    else if not (s.requests == 0) || not (s.retained_frames == 0)
    then (
      not_required,
      record s { public_owner_closed = close_public_owner || s.public_owner_closed },
    )
    else if s.uncertain_release
    then (cleanup_failed, s)
    else if s.cleanup_failed
    then (cleanup_failed, retain_if s.public_owner_closed s)
    else if not s.channel
    then (not_required, s)
    else conclude (image_stream_cleanup w true s)

abbrev pub Reply : Type 0
Reply = Status × List ℕ

abbrev poisoned_reply : Reply
poisoned_reply = (provider_failed, codes "provider stream operation or cleanup failed")

abbrev detach_reply : Reply
detach_reply = (provider_failed, codes "channel detach failed; callback resources retained")

abbrev release_reply : Reply
release_reply = (provider_failed, codes "provider buffer release failed; provider graph retained")

unfoldable pub teardown : Answers → Bool → ImageStreamState → Reply × ImageStreamState
unfolding image_stream_cleanup
teardown w failure s =
    let s' = logical_stop failure s in
    if not (s'.requests == 0) || owes_release s'.callback
    then (if is_failed s'.lifecycle then poisoned_reply else (ok, []), s')
    else (let (outcome, s'') = image_stream_cleanup w false s' in
        elim outcome [
          | cleanup_failed ↦ (detach_reply, s'')
          | other ↦ (if is_failed s''.lifecycle then poisoned_reply else (ok, []), s'')
        ])

abbrev is_stopped : Lifecycle → Bool
is_stopped stopped = true
is_stopped _ = false

-- `ams_mel_ir_stream_stop`, of valid arguments.
unfoldable pub stream_stop : Answers → ImageStreamState → Reply × ImageStreamState
unfolding teardown
stream_stop w s =
    if is_stopped s.lifecycle
    then ((if s.uncertain_release then provider_failed else ok, []), s)
    else if not s.channel
    then ((if is_failed s.lifecycle then provider_failed else ok, []), s)
    else teardown w (is_failed s.lifecycle) s

abbrev worse : Bool → Reply → Reply
worse bad (status, text) = (if bad then provider_failed else status, text)

abbrev pub is_cleanup_failed : CleanupOutcome → Bool
is_cleanup_failed cleanup_failed = true
is_cleanup_failed _ = false

-- `ams_mel_ir_stream_close` of an open stream: the reply, whether the caller's handle is cleared, and
-- the state.
unfoldable pub stream_close : Answers → ImageStreamState → Reply × Bool × ImageStreamState
unfolding stream_stop discard_queued_frames finish_deferred_cleanup
stream_close w s =
    let (reply, stopped_now) = stream_stop w s in
    let (discarded, s') = discard_queued_frames w stopped_now in
    let (outcome, t) = finish_deferred_cleanup w true s' in
    let bad = not discarded || s'.uncertain_release || is_cleanup_failed outcome in
    if t.public_owner_closed || t.cleanup_complete || t.uncertain_release
    then (
      worse (bad || (t.cleanup_complete && not t.cleanup_ok) || t.uncertain_release) reply,
      true,
      record t { public_owner_closed = true },
    )
    else (detach_reply, false, t)

-- `ams_mel_ir_frame_snapshot_close` of a snapshot with this wrapper.
unfoldable pub snapshot_close : Answers → Held → ImageStreamState → Reply × ImageStreamState
unfolding release_retained_buffer finish_deferred_cleanup
snapshot_close w held s =
    let (done, s') = release_retained_buffer w held s in
    let (outcome, t) = finish_deferred_cleanup w false s' in
    if not done || is_cleanup_failed outcome then (release_reply, t) else ((ok, []), t)
