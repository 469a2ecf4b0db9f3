-- ===== src/IrStream/Failing.antt =====
-- native/src/ir_stream.cpp: how Close ends when the provider does not take a wrapper back.
use ams_gra_mel_bridge.Prelude.{
  ℕ, zero, suc, ◌+◌, ◌≡◌, refl, sym, ap, ◌∙◌, subst, inl, inr, Bool, true, false, ◌&&◌, List, [],
  ◌∷◌, arith, Bool-cases, length,
}
use ams_gra_mel_bridge.Provider.{provider_failed}
use ams_gra_mel_bridge.IrStream.Callback.{
  Lifecycle, running, stopping, failed, Held, QueuedFrame, admit_release, admitted,
  begin_external_release, release_succeeded, retire_release, release_failed,
  retain_uncertain_buffer, ended, continues, surrendered, next_release,
}
use ams_gra_mel_bridge.IrStream.Stream.{ImageStreamState}
use ams_gra_mel_bridge.IrStream.Entry.{
  Answers, with_callback, after_release, execute, release_retained_buffer, release_frames,
  discard_queued_frames, finish_deferred_cleanup, stream_stop, stream_close,
}
use ams_gra_mel_bridge.IrStream.Closing.{Calm, release-Calm, stop-Calm}

-- A release has failed: the stream is poisoned, and all that the wrapper may need is kept.
pub record Poisoned (s : ImageStreamState) : Type 0 where
  pub uncertain_now : s.uncertain_release ≡ true
  pub rooted : s.emergency_retained ≡ true
  pub dead : s.lifecycle ≡ failed
  pub attached_still : s.channel ≡ true
  pub bytes_still : s.storage ≡ true
  pub not_torn : s.cleanup_complete ≡ false

after_release-Poisoned :
    (w : Answers) (held : Held) (owed : Bool) (s : ImageStreamState)
    → Poisoned s
    → Poisoned (after_release w held owed s)
unfolding after_release retire_release release_succeeded retain_uncertain_buffer release_failed
after_release-Poisoned w held owed s p = ground arith

next_release-Poisoned :
    (parks : Bool) (s : ImageStreamState)
    → Poisoned s
    → Poisoned (with_callback (next_release parks s.callback).1 s)
unfolding next_release
next_release-Poisoned parks s p = ground arith

execute-Poisoned :
    (fuel : ℕ) (w : Answers) (held : Held) (owed : Bool) (s : ImageStreamState)
    → Poisoned s
    → Poisoned (execute fuel w held owed s)
unfolding execute
execute-Poisoned zero w held owed s p = p
execute-Poisoned (suc fuel) w held owed s p =
    let done = after_release w held owed s in
    let after = next_release-Poisoned w.parks done (after_release-Poisoned w held owed s p) in
    elim (next_release w.parks done.callback).0
      as (λ n. Poisoned (elim n [
        | ended ↦ with_callback (next_release w.parks done.callback).1 done
        | surrendered buffer ↦ with_callback (next_release w.parks done.callback).1 done
        | continues held' owed' ↦
            execute fuel w held' owed' (with_callback (next_release w.parks done.callback).1 done)
      ])) [
        | ended ↦ after
        | surrendered buffer ↦ after
        | continues held' owed' ↦ execute-Poisoned fuel w held' owed' _ after
      ]

begin-Poisoned :
    (held : Held) (s : ImageStreamState)
    → Poisoned s
    → Poisoned (with_callback (begin_external_release false held s.callback).1 s)
unfolding begin_external_release admit_release
begin-Poisoned held s p = ground arith

release-Poisoned :
    (w : Answers) (held : Held) (unused : List ℕ) (s : ImageStreamState)
    → s.free_uncertain_slots ≡ unused
    → Poisoned s
    → Poisoned (release_retained_buffer w held s).1
unfolding release_retained_buffer
release-Poisoned w held unused s f p =
    let begun_now = begin-Poisoned held s p in
    elim (begin_external_release false held s.callback).0
      as (λ b.
        Poisoned
          (elim b as (λ _. Bool × ImageStreamState) [
            | admitted slot ↦ (
              w.releases held.buffer,
              execute
                  (suc (
                    length
                      (begin_external_release false held s.callback).1.pending_deferred_releases))
                  w (record { buffer = held.buffer; slot = slot }) true
                  (with_callback (begin_external_release false held s.callback).1 s),
            )
            | _ ↦ (false, with_callback (begin_external_release false held s.callback).1 s)
          ]).1) [
            | admitted slot ↦
                execute-Poisoned
                  (suc (
                    length
                      (begin_external_release false held s.callback).1.pending_deferred_releases))
                  w (record { buffer = held.buffer; slot = slot }) true _ begun_now
            | _ ↦ begun_now
          ]

frames-Poisoned :
    (w : Answers) (frames : List QueuedFrame) (s : ImageStreamState)
    → Poisoned s
    → Poisoned (release_frames w frames s).1
unfolding release_frames
frames-Poisoned w [] s p = p
frames-Poisoned w (frame ∷ rest) s p =
    frames-Poisoned w rest (release_retained_buffer w frame.held s).1
      (release-Poisoned w frame.held s.free_uncertain_slots s refl p)

-- The first release that fails.
failed_release-Poisoned :
    (w : Answers) (held : Held) (unused : List ℕ) (k : ℕ) (l : Lifecycle) (s : ImageStreamState)
    → s.free_uncertain_slots ≡ unused
    → w.releases held.buffer ≡ false
    → Calm k l s
    → ((release_retained_buffer w held s).0 ≡ false) × Poisoned (release_retained_buffer w held s).1
unfolding release_retained_buffer execute after_release begin_external_release admit_release
    release_failed retain_uncertain_buffer next_release
failed_release-Poisoned w held [] k l s f g c = absurd (ground arith)
failed_release-Poisoned w held (slot ∷ rest) k l s f g c = (ground arith, ground arith)

-- Whether the provider takes all of these wrappers back.
abbrev pub all_taken : Answers → List QueuedFrame → Bool
all_taken w [] = true
all_taken w (frame ∷ rest) = w.releases frame.held.buffer && all_taken w rest

frames-fail :
    (w : Answers) (frames : List QueuedFrame) (k : ℕ) (l : Lifecycle) (s : ImageStreamState)
    → all_taken w frames ≡ false
    → Calm (length frames + k) l s
    → ((release_frames w frames s).0 ≡ false) × Poisoned (release_frames w frames s).1
unfolding release_frames
frames-fail w [] k l s g c = absurd (ground arith)
frames-fail w (frame ∷ rest) k l s g c = elim (Bool-cases (w.releases frame.held.buffer)) [
  | inl good ↦
      let (done, calm, same) =
        release-Calm w frame.held s.free_uncertain_slots (length rest + k) l s refl good
          (subst (λ n. Calm n l s) (omega arith) c) in
      let (not_all, p) =
        frames-fail w rest k l (release_retained_buffer w frame.held s).1 (ground arith) calm in
      (ground arith, p)
  | inr bad ↦
      let (refused, p) =
        failed_release-Poisoned w frame.held s.free_uncertain_slots _ l s refl bad c in
      (ground arith, frames-Poisoned w rest (release_retained_buffer w frame.held s).1 p)
]

discard-Poisoned :
    (w : Answers) (k : ℕ) (s : ImageStreamState)
    → all_taken w s.queue ≡ false
    → Calm (length s.queue + k) stopping s
    → ((discard_queued_frames w s).0 ≡ false) × Poisoned (discard_queued_frames w s).1
unfolding discard_queued_frames
discard-Poisoned w k s g c =
    let emptied = with_callback (record s.callback { queue = [] }) s in
    let calm : Calm (length s.queue + k) stopping emptied = ground arith in
    frames-fail w s.queue k stopping emptied g calm

finish-Poisoned :
    (w : Answers) (s : ImageStreamState)
    → Poisoned s
    → Poisoned (finish_deferred_cleanup w true s).1
unfolding finish_deferred_cleanup
finish-Poisoned w s p = ground arith

some_queued :
    (w : Answers) (frames : List QueuedFrame)
    → all_taken w frames ≡ false
    → (n : ℕ) × (length frames ≡ suc n)
some_queued w [] g = absurd (ground arith)
some_queued w (frame ∷ rest) g = (length rest, refl)

-- What Close makes of a discard that has failed.
close_failed :
    (w : Answers) (s t : ImageStreamState)
    → (finish_deferred_cleanup w true (discard_queued_frames w (stream_stop w s).1).1).1 ≡ t
    → (discard_queued_frames w (stream_stop w s).1).0 ≡ false
    → t.uncertain_release ≡ true
    → ((stream_close w s).0.0 ≡ provider_failed)
      × ((stream_close w s).1 ≡ true)
      × ((stream_close w s).2 ≡ record t { public_owner_closed = true })
unfolding stream_close
close_failed w s t e d u = (ground arith, ground arith, ground arith)

-- A failure is told, and nothing that the provider may still use is freed. The stream runs, with its
-- channel and its host bytes; its frames in the queue and `k` that are lent are all that are counted;
-- no release has failed, runs or waits, and an uncertain slot is free; no request is out and no
-- cleanup has been done or has failed. If the provider then does not take back every wrapper that
-- Close discards, Close returns `provider_failed` and clears the caller's handle; the stream is
-- poisoned and retained for ever, with its channel, its buffers and their host bytes.
pub close-Poisoned :
    (w : Answers) (k : ℕ) (s : ImageStreamState)
    → all_taken w s.queue ≡ false
    → Calm (length s.queue + k) running s
    → ((stream_close w s).0.0 ≡ provider_failed)
      × ((stream_close w s).1 ≡ true)
      × ((stream_close w s).2.uncertain_release ≡ true)
      × ((stream_close w s).2.emergency_retained ≡ true)
      × ((stream_close w s).2.lifecycle ≡ failed)
      × ((stream_close w s).2.channel ≡ true)
      × ((stream_close w s).2.storage ≡ true)
close-Poisoned w k s g c =
    let (one, more) = some_queued w s.queue g in
    let (replied, calm, same, kept) =
      stop-Calm w (one + k) s (subst (λ n. Calm n running s) (ground arith) c) in
    let s1 = (stream_stop w s).1 in
    let calm1 : Calm (length s1.queue + k) stopping s1 = ground (arith, ap length same) in
    let (refused, p) =
      discard-Poisoned w k s1 (subst (λ fs. all_taken w fs ≡ false) (sym same) g) calm1 in
    let q = finish-Poisoned w (discard_queued_frames w s1).1 p in
    let (told, cleared, left) = close_failed w s _ refl refused q.uncertain_now in
    (
      told,
      cleared,
      ap (λ (t : ImageStreamState). t.uncertain_release) left ∙ q.uncertain_now,
      ap (λ (t : ImageStreamState). t.emergency_retained) left ∙ q.rooted,
      ap (λ (t : ImageStreamState). t.lifecycle) left ∙ q.dead,
      ap (λ (t : ImageStreamState). t.channel) left ∙ q.attached_still,
      ap (λ (t : ImageStreamState). t.storage) left ∙ q.bytes_still,
    )
