-- ===== src/IrStream/Untouched.antt =====
-- native/src/ir_stream.cpp: no release of a wrapper and no cleanup takes a frame from the queue.
use ams_gra_mel_bridge.Prelude.{
  ℕ, zero, suc, ◌≡◌, refl, ◌∙◌, Bool, true, false, List, [], ◌∷◌, length, arith, not, ◌||◌, ◌&&◌,
  ◌==◌, if◌then◌else◌,
}
use ams_gra_mel_bridge.IrStream.Callback.{
  Held, CallbackState, begin_external_release, admit_release, release_succeeded, retire_release,
  release_failed, retain_uncertain_buffer, next_release, Next, ended, continues, surrendered, Begun,
  admitted, deferred, turned_away, QueuedFrame, is_failed, terminal,
}
use ams_gra_mel_bridge.IrStream.Stream.{
  ImageStreamState, claim_cleanup, restore_channel, keep_storage, free_storage, owes_release,
}
use ams_gra_mel_bridge.IrStream.Entry.{
  Answers, with_callback, after_release, execute, release_retained_buffer, settle_storage,
  image_stream_cleanup, finish_deferred_cleanup, CleanupOutcome, retain_if, adopted, conclude,
  not_required, succeeded,
}

-- No release and no cleanup touches the queue.
next_release-queue :
    (parks : Bool) (c : CallbackState) (pending slots : List ℕ)
    → c.pending_deferred_releases ≡ pending
    → c.free_uncertain_slots ≡ slots
    → (next_release parks c).1.queue ≡ c.queue
unfolding next_release
next_release-queue parks c [] slots p f = ground arith
next_release-queue parks c (index ∷ rest) [] p f = ground arith
next_release-queue parks c (index ∷ rest) (slot ∷ slots) p f = ground arith

after_release-queue :
    (w : Answers) (held : Held) (owed : Bool) (s : ImageStreamState)
    → (after_release w held owed s).queue ≡ s.queue
unfolding after_release release_succeeded retire_release release_failed retain_uncertain_buffer
after_release-queue w held owed s = ground arith

next-queue :
    (w : Answers) (held : Held) (owed : Bool) (s : ImageStreamState)
    → (next_release w.parks (after_release w held owed s).callback).1.queue ≡ s.queue
next-queue w held owed s =
    let done = after_release w held owed s in
    next_release-queue w.parks done.callback done.pending_deferred_releases
      done.free_uncertain_slots refl refl
    ∙ after_release-queue w held owed s

-- A round of the loop, given the rest of it.
round-queue :
    (fuel : ℕ) (w : Answers) (held : Held) (owed : Bool) (s : ImageStreamState)
    → ((h : Held) (o : Bool) (t : ImageStreamState) → (execute fuel w h o t).queue ≡ t.queue)
    → (n : Next) → (next_release w.parks (after_release w held owed s).callback).0 ≡ n
    → (execute (suc fuel) w held owed s).queue ≡ s.queue
unfolding execute
round-queue fuel w held owed s later ended e = rw (execute, e) (next-queue w held owed s)
round-queue fuel w held owed s later (surrendered buffer) e =
    rw (execute, e) (next-queue w held owed s)
round-queue fuel w held owed s later (continues held' owed') e =
    let done = after_release w held owed s in
    rw (execute, e)
      (later held' owed' (with_callback (next_release w.parks done.callback).1 done)
        ∙ next-queue w held owed s)

execute-queue :
    (fuel : ℕ) (w : Answers) (held : Held) (owed : Bool) (s : ImageStreamState)
    → (execute fuel w held owed s).queue ≡ s.queue
unfolding execute
execute-queue zero w held owed s = refl
execute-queue (suc fuel) w held owed s =
    round-queue fuel w held owed s (execute-queue fuel w)
      (next_release w.parks (after_release w held owed s).callback).0 refl

begin-queue :
    (held : Held) (c : CallbackState) → (begin_external_release false held c).1.queue ≡ c.queue
unfolding begin_external_release admit_release
begin-queue held c = ground arith

pub release-queue :
    (w : Answers) (held : Held) (s : ImageStreamState) (b : Begun)
    → (begin_external_release false held s.callback).0 ≡ b
    → (release_retained_buffer w held s).1.queue ≡ s.queue
unfolding release_retained_buffer
release-queue w held s (admitted slot) e =
    let c = (begin_external_release false held s.callback).1 in
    rw (release_retained_buffer, e)
      (execute-queue (suc (length c.pending_deferred_releases)) w
          (record { buffer = held.buffer; slot = slot }) true (with_callback c s)
        ∙ begin-queue held s.callback)
release-queue w held s deferred e = rw (release_retained_buffer, e) (begin-queue held s.callback)
release-queue w held s turned_away e = rw (release_retained_buffer, e) (begin-queue held s.callback)

-- A test between two ends of a cleanup.
if-queue :
    (b : Bool) (q : List QueuedFrame) (x y : CleanupOutcome × ImageStreamState)
    → x.1.queue ≡ q
    → y.1.queue ≡ q
    → (if b then x else y).1.queue ≡ q
if-queue true q x y e f = e
if-queue false q x y e f = f

retain_if-queue : (closed : Bool) (s : ImageStreamState) → (retain_if closed s).queue ≡ s.queue
retain_if-queue true s = refl
retain_if-queue false s = refl

settle_storage-queue :
    (failure : Bool) (s : ImageStreamState) → (settle_storage failure s).1.queue ≡ s.queue
unfolding settle_storage keep_storage free_storage
settle_storage-queue failure s =
    if-queue (owes_release s.callback) s.queue (CleanupOutcome.cleanup_failed, keep_storage s) _
      refl
      (if-queue (failure || is_failed s.lifecycle) s.queue
        (CleanupOutcome.cleanup_failed, free_storage true s) (succeeded, free_storage false s) refl
        refl)

cleanup-queue :
    (w : Answers) (late : Bool) (s : ImageStreamState)
    → (image_stream_cleanup w late s).1.queue ≡ s.queue
unfolding image_stream_cleanup claim_cleanup restore_channel
cleanup-queue w late s =
    let q = s.queue in
    let claimed = claim_cleanup s in
    if-queue (not (s.requests == 0) || owes_release s.callback) q (not_required, s) _ refl
      (if-queue s.cleanup_complete q (adopted s, s) _ refl
        (if-queue (late && not (terminal s.lifecycle) && not s.public_owner_closed) q
          (not_required, s) _ refl
          (if-queue (not s.channel) q (not_required, s) _ refl
            (if-queue (not w.detaches) q
              (CleanupOutcome.cleanup_failed, restore_channel s.public_owner_closed claimed) _ refl
              (settle_storage-queue
                (is_failed s.lifecycle || (s.enable_attempted && not w.disables)) claimed)))))

conclude-queue : (r : CleanupOutcome × ImageStreamState) → (conclude r).1.queue ≡ r.1.queue
conclude-queue (CleanupOutcome.cleanup_failed, s) = retain_if-queue s.public_owner_closed s
conclude-queue (not_required, s) = refl
conclude-queue (succeeded, s) = refl

pub finish-queue :
    (w : Answers) (s : ImageStreamState) → (finish_deferred_cleanup w false s).1.queue ≡ s.queue
unfolding finish_deferred_cleanup
finish-queue w s =
    let q = s.queue in
    let failed_now = CleanupOutcome.cleanup_failed in
    if-queue s.cleanup_complete q (adopted s, s) _ refl
      (if-queue (not (terminal s.lifecycle || s.public_owner_closed)) q (not_required, s) _ refl
        (if-queue (not (s.requests == 0) || not (s.retained_frames == 0)) q
          (not_required, record s { public_owner_closed = s.public_owner_closed }) _ refl
          (if-queue s.uncertain_release q (failed_now, s) _ refl
            (if-queue s.cleanup_failed q (failed_now, retain_if s.public_owner_closed s) _
              (retain_if-queue s.public_owner_closed s)
              (if-queue (not s.channel) q (not_required, s) _ refl
                (conclude-queue (image_stream_cleanup w true s) ∙ cleanup-queue w true s))))))
