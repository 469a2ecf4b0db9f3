-- ===== src/IrStream/Closing.antt =====
-- native/src/ir_stream.cpp: how Close, and the close of the last snapshot after it, end.
use ams_gra_mel_bridge.Prelude.{
  ℕ, suc, ◌+◌, ◌<◌, ◌≡◌, refl, sym, ap, ◌∙◌, subst, ◌⊎◌, inl, inr, Bool, true, false, ◌||◌, List,
  [], ◌∷◌, arith, length, All,
}
use ams_gra_mel_bridge.Provider.{ok}
use ams_gra_mel_bridge.IrStream.Callback.{
  Lifecycle, running, stopping, stopped, Held, QueuedFrame, admit_release, begin_external_release,
  release_succeeded, retire_release, next_release,
}
use ams_gra_mel_bridge.IrStream.Stream.{ImageStreamState, logical_stop, claim_cleanup, free_storage}
use ams_gra_mel_bridge.IrStream.Interleaving.{holds}
use ams_gra_mel_bridge.IrStream.Entry.{
  Answers, with_callback, after_release, execute, release_retained_buffer, release_frames,
  discard_queued_frames, not_required, succeeded, settle_storage, image_stream_cleanup,
  finish_deferred_cleanup, Reply, teardown, stream_stop, stream_close, snapshot_close,
}

-- No release is running, and none has failed; `k` wrappers are queued or lent.
pub record Calm (k : ℕ) (l : Lifecycle) (s : ImageStreamState) : Type 0 where
  pub sound : s.uncertain_release ≡ false
  pub nobody : s.release_executor_owned ≡ false
  pub none_waits : s.pending_deferred_releases ≡ []
  pub none_owed : s.release_obligations ≡ 0
  pub out : s.retained_frames ≡ k
  pub room : 0 < length s.free_uncertain_slots
  pub life : s.lifecycle ≡ l
  pub there : s.channel ≡ true
  pub bytes : s.storage ≡ true
  pub unasked : s.requests ≡ 0
  pub incomplete : s.cleanup_complete ≡ false
  pub unfailed : s.cleanup_failed ≡ false

abbrev pub SameOwner : ImageStreamState → ImageStreamState → Type 0
SameOwner s t =
    (t.public_owner_closed ≡ s.public_owner_closed) × (t.enable_attempted ≡ s.enable_attempted)

pub release-Calm :
    (w : Answers) (held : Held) (unused : List ℕ) (k : ℕ) (l : Lifecycle) (s : ImageStreamState)
    → s.free_uncertain_slots ≡ unused
    → w.releases held.buffer ≡ true
    → Calm (suc k) l s
    → ((release_retained_buffer w held s).0 ≡ true)
      × Calm k l (release_retained_buffer w held s).1
      × SameOwner s (release_retained_buffer w held s).1
unfolding release_retained_buffer execute after_release begin_external_release admit_release
    release_succeeded retire_release next_release
release-Calm w held [] k l s f g c = absurd (ground arith)
release-Calm w held (slot ∷ rest) k l s f g c = (ground arith, ground arith, ground arith)

abbrev Good : Answers → Held → Type 0
Good w held = w.releases held.buffer ≡ true

frames-Calm :
    (w : Answers) (frames : List QueuedFrame) (k : ℕ) (l : Lifecycle) (s : ImageStreamState)
    → All (Good w) (holds frames)
    → Calm (length frames + k) l s
    → ((release_frames w frames s).0 ≡ true)
      × Calm k l (release_frames w frames s).1
      × SameOwner s (release_frames w frames s).1
unfolding release_frames
frames-Calm w [] k l s g c = (refl, subst (λ n. Calm n l s) (omega arith) c, (refl, refl))
frames-Calm w (frame ∷ rest) k l s g c =
    let (done, calm, same) =
      release-Calm w frame.held s.free_uncertain_slots (length rest + k) l s refl g.0
        (subst (λ n. Calm n l s) (omega arith) c) in
    let (others, calm', same') =
      frames-Calm w rest k l (release_retained_buffer w frame.held s).1 g.1 calm in
    (ground arith, calm', (ground arith, ground arith))

-- The stream is torn down, and the buffers and the host bytes are freed.
pub record Freed (s : ImageStreamState) : Type 0 where
  pub no_bytes : s.storage ≡ false
  pub no_channel : s.channel ≡ false
  pub at_rest : s.lifecycle ≡ stopped
  pub complete : s.cleanup_complete ≡ true
  pub fine : s.cleanup_ok ≡ true
  pub certain : s.uncertain_release ≡ false

discard_nothing :
    (w : Answers) (s : ImageStreamState)
    → s.queue ≡ []
    → Freed s
    → ((discard_queued_frames w s).0 ≡ true) × Freed (discard_queued_frames w s).1
unfolding discard_queued_frames release_frames
discard_nothing w s q f = (ground arith, ground arith)

-- The snapshots are closed one after the other.
pub close_snapshots : Answers → List Held → ImageStreamState → List Reply × ImageStreamState
close_snapshots w [] s = ([], s)
close_snapshots w (held ∷ rest) s =
    let (reply, s') = snapshot_close w held s in
    let (replies, t) = close_snapshots w rest s' in (reply ∷ replies, t)

pub stop-Calm :
    (w : Answers) (k : ℕ) (s : ImageStreamState)
    → Calm (suc k) running s
    → ((stream_stop w s).0 ≡ (ok, []))
      × Calm (suc k) stopping (stream_stop w s).1
      × ((stream_stop w s).1.queue ≡ s.queue)
      × SameOwner s (stream_stop w s).1
unfolding stream_stop teardown logical_stop
stop-Calm w k s c = (ground arith, ground arith, ground arith, (ground arith, ground arith))

module _ (w : Answers) (disables : w.disables ≡ true) (detaches : w.detaches ≡ true) where
  cleanup-Freed :
      (late : Bool) (s : ImageStreamState)
      → Calm 0 stopping s
      → ((image_stream_cleanup w late s).0 ≡ succeeded)
        × Freed (image_stream_cleanup w late s).1
        × ((image_stream_cleanup w late s).1.queue ≡ s.queue)
  unfolding image_stream_cleanup settle_storage claim_cleanup free_storage
  cleanup-Freed late s c = (ground arith, ground arith, ground arith)

  pub finish-Freed :
      (close : Bool) (s : ImageStreamState)
      → Calm 0 stopping s
      → ((finish_deferred_cleanup w close s).0 ≡ succeeded)
        × Freed (finish_deferred_cleanup w close s).1
  unfolding finish_deferred_cleanup
  finish-Freed close s c =
      let (good, gone, same) = cleanup-Freed true s c in (ground arith, ground arith)

  finish_again-Freed :
      (close : Bool) (s : ImageStreamState)
      → Freed s
      → ((finish_deferred_cleanup w close s).0 ≡ succeeded)
        × ((finish_deferred_cleanup w close s).1 ≡ s)
  unfolding finish_deferred_cleanup
  finish_again-Freed close s f = (ground arith, ground arith)

  finish-Calm :
      (close : Bool) (k : ℕ) (s : ImageStreamState)
      → Calm (suc k) stopping s
      → ((finish_deferred_cleanup w close s).0 ≡ not_required)
        × Calm (suc k) stopping (finish_deferred_cleanup w close s).1
        × ((finish_deferred_cleanup w close s).1.public_owner_closed
            ≡ (close || s.public_owner_closed))
  unfolding finish_deferred_cleanup
  finish-Calm close k s c = (ground arith, ground arith, ground arith)

  stop-Freed :
      (s : ImageStreamState)
      → Calm 0 running s
      → ((stream_stop w s).0 ≡ (ok, []))
        × Freed (stream_stop w s).1
        × ((stream_stop w s).1.queue ≡ s.queue)
  unfolding stream_stop teardown logical_stop
  stop-Freed s c =
      let s' = logical_stop false s in
      let calm : Calm 0 stopping s' = ground arith in
      let (good, gone, same) = cleanup-Freed false s' calm in
      (ground arith, ground arith, ground arith)

  -- Close after a Stop that has left wrappers out.
  discarded-Calm :
      (k : ℕ) (s : ImageStreamState)
      → All (Good w) (holds s.queue)
      → Calm (length s.queue + k) stopping s
      → ((discard_queued_frames w s).0 ≡ true) × Calm k stopping (discard_queued_frames w s).1
  unfolding discard_queued_frames
  discarded-Calm k s g c =
      let emptied = with_callback (record s.callback { queue = [] }) s in
      let calm : Calm (length s.queue + k) stopping emptied = ground arith in
      let (done, calm', same) = frames-Calm w s.queue k stopping emptied g calm in (done, calm')

  close-Freed :
      (frames : List QueuedFrame) (s : ImageStreamState)
      → s.queue ≡ frames
      → All (Good w) (holds frames)
      → Calm (length frames) running s
      → ((stream_close w s).0 ≡ (ok, []))
        × ((stream_close w s).1 ≡ true)
        × Freed (stream_close w s).2
  unfolding stream_close
  close-Freed [] s q g c =
      let (replied, gone, same) = stop-Freed s c in
      let s1 = (stream_stop w s).1 in
      let (done, gone2) : ((discard_queued_frames w s1).0 ≡ true)
          × Freed (discard_queued_frames w s1).1 =
        discard_nothing w s1 (same ∙ q) gone in
      let (out, still) = finish_again-Freed true (discard_queued_frames w s1).1 gone2 in
      (ground arith, ground arith, ground arith)
  close-Freed (frame ∷ rest) s q g c =
      let (replied, calm, same, kept) = stop-Calm w (length rest) s c in
      let s1 = (stream_stop w s).1 in
      let all_good : All (Good w) (holds s1.queue) =
        subst (λ fs. All (Good w) (holds fs)) (sym (same ∙ q)) g in
      let calm1 : Calm (length s1.queue + 0) stopping s1 = ground (arith, ap length (same ∙ q)) in
      let (done, calm2) = discarded-Calm 0 s1 all_good calm1 in
      let (out, gone) = finish-Freed true (discard_queued_frames w s1).1 calm2 in
      (ground arith, ground arith, ground arith)

  close-Calm :
      (k : ℕ) (s : ImageStreamState)
      → All (Good w) (holds s.queue)
      → Calm (length s.queue + suc k) running s
      → ((stream_close w s).0 ≡ (ok, []))
        × ((stream_close w s).1 ≡ true)
        × Calm (suc k) stopping (stream_close w s).2
        × ((stream_close w s).2.public_owner_closed ≡ true)
  unfolding stream_close
  close-Calm k s g c =
      let (replied, calm, same, kept) =
        stop-Calm w (length s.queue + k) s (subst (λ n. Calm n running s) (omega arith) c) in
      let s1 = (stream_stop w s).1 in
      let all_good : All (Good w) (holds s1.queue) =
        subst (λ fs. All (Good w) (holds fs)) (sym same) g in
      let calm1 : Calm (length s1.queue + suc k) stopping s1 = ground (arith, ap length same) in
      let (done, calm2) = discarded-Calm (suc k) s1 all_good calm1 in
      let (out, calm3, closed) = finish-Calm true k (discard_queued_frames w s1).1 calm2 in
      (ground arith, ground arith, ground arith, ground arith)

  -- A snapshot is closed while others are open; and the last one.
  snapshot-Calm :
      (held : Held) (k : ℕ) (s : ImageStreamState)
      → Good w held
      → Calm (suc (suc k)) stopping s
      → ((snapshot_close w held s).0 ≡ (ok, [])) × Calm (suc k) stopping (snapshot_close w held s).1
  unfolding snapshot_close
  snapshot-Calm held k s g c =
      let (done, calm, same) =
        release-Calm w held s.free_uncertain_slots (suc k) stopping s refl g c in
      let (out, calm', closed) = finish-Calm false k (release_retained_buffer w held s).1 calm in
      (ground arith, ground arith)

  snapshot-Freed :
      (held : Held) (s : ImageStreamState)
      → Good w held
      → Calm 1 stopping s
      → ((snapshot_close w held s).0 ≡ (ok, [])) × Freed (snapshot_close w held s).1
  unfolding snapshot_close
  snapshot-Freed held s g c =
      let (done, calm, same) = release-Calm w held s.free_uncertain_slots 0 stopping s refl g c in
      let (out, gone) = finish-Freed false (release_retained_buffer w held s).1 calm in
      (ground arith, ground arith)

  snapshots-Freed :
      (first : Held) (rest : List Held) (s : ImageStreamState)
      → All (Good w) (first ∷ rest)
      → Calm (length (first ∷ rest)) stopping s
      → All (λ reply. reply ≡ (ok, [])) (close_snapshots w (first ∷ rest) s).0
        × Freed (close_snapshots w (first ∷ rest) s).1
  unfolding close_snapshots
  snapshots-Freed first [] s g c =
      let (replied, gone) = snapshot-Freed first s g.0 c in ((replied, tt), gone)
  snapshots-Freed first (second ∷ rest) s g c =
      let (replied, calm) = snapshot-Calm first (length rest) s g.0 c in
      let (others, gone) = snapshots-Freed second rest (snapshot_close w first s).1 g.1 calm in
      ((replied, others), gone)

-- Close with nothing in its way ends in a teardown, at once or with the last snapshot: from a
-- running stream on which no release is running, none has failed and no request is out, whose
-- queued frames and open snapshots are all the wrappers that are out, and with a provider whose
-- releases, `disable` and `detachChannel` succeed, Close returns `ok` and clears the caller's
-- handle; if there are snapshots it keeps the channel and the host bytes; and then the snapshots
-- close, each with `ok`, and after the last the channel is gone, the host bytes are freed, and the
-- stream is stopped, with no failure.
pub close-close_snapshots :
    (w : Answers) (lent : List Held) (s : ImageStreamState)
    → w.disables ≡ true
    → w.detaches ≡ true
    → All (Good w) (holds s.queue)
    → All (Good w) lent
    → Calm (length s.queue + length lent) running s
    → ((stream_close w s).0 ≡ (ok, []))
      × ((stream_close w s).1 ≡ true)
      × ((lent ≡ [])
          ⊎ (((stream_close w s).2.storage ≡ true) × ((stream_close w s).2.channel ≡ true)))
      × All (λ reply. reply ≡ (ok, [])) (close_snapshots w lent (stream_close w s).2).0
      × Freed (close_snapshots w lent (stream_close w s).2).1
unfolding close_snapshots
close-close_snapshots w [] s d e g h c =
    let (replied, cleared, gone) =
      close-Freed w d e s.queue s refl g (subst (λ n. Calm n running s) (omega arith) c) in
    (replied, cleared, inl refl, tt, gone)
close-close_snapshots w (first ∷ rest) s d e g h c =
    let (replied, cleared, calm, closed) = close-Calm w d e (length rest) s g c in
    let (others, gone) = snapshots-Freed w d e first rest (stream_close w s).2 h calm in
    (replied, cleared, inr (calm.bytes, calm.there), others, gone)
