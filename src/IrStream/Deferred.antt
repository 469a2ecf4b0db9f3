-- ===== src/IrStream/Deferred.antt =====
-- native/src/ir_stream.cpp: the wrappers that wait for the executor, which are those of callbacks.
use ams_gra_mel_bridge.Prelude.{
  ℕ, zero, suc, ◌≡◌, refl, sym, subst, inl, inr, Bool, false, some, List, [], ◌∷◌, arith,
  Option-cases, get_elem?, replicate, All, All-set, All-get_elem?,
}
use ams_gra_mel_bridge.IrStream.Callback.{
  Held, DeferredRelease, CallbackState, arrive_frame, arrive_null, store_frame, defer_release,
  admit_release, begin_callback_release, begin_external_release, release_succeeded, retire_release,
  release_failed, retain_uncertain_buffer, no_release, slot_at, next_release,
}
use ams_gra_mel_bridge.IrStream.Stream.{
  logical_stop, claim_cleanup, restore_channel, keep_storage, free_storage,
}
use ams_gra_mel_bridge.IrStream.Interleaving.{
  System, begun-stream, next_begun-stream, consume, CallbackStep, enter, arrive_empty, arrive,
  arrive_unslotted, park, store, refuse, release_refused, leave, ExecutorStep, succeed, retire,
  fail, retain, go_on, ConsumerStep, run_now, discard, release_lease, request, finish, stop, close,
  gate, detach_fails, detach, drain, keep, free_bytes, Step, provider, executing, consumer,
  begun-stream, next_begun-stream, consume,
}
use ams_gra_mel_bridge.IrStream.Start.{Runs, start, next, fill_pools-Filled}

abbrev pub Uncounted : DeferredRelease → Type 0
Uncounted release = release.already_counted ≡ false

-- No wrapper that waits for the executor is counted in `retained_frames`.
abbrev pub Deferred : CallbackState → Type 0
Deferred c = All Uncounted c.deferred_releases

defer_release-Deferred :
    (held : Held) (c : CallbackState) (free : List ℕ)
    → c.free_deferred_releases ≡ free
    → Deferred c
    → Deferred (defer_release held false c).1
unfolding defer_release
defer_release-Deferred held c [] e d = ground arith
defer_release-Deferred held c (index ∷ rest) e d = ground (
  arith,
  All-set Uncounted c.deferred_releases index
      (record { buffer = some held.buffer; already_counted = false }) d refl,
)

begin_callback_release-Deferred :
    (held : Held) (c : CallbackState) → Deferred c → Deferred (begin_callback_release held c).1
unfolding begin_callback_release admit_release
begin_callback_release-Deferred held c d =
    ground (arith, defer_release-Deferred held c c.free_deferred_releases refl d)

begin_external_release-Deferred :
    (waited : Bool) (held : Held) (c : CallbackState)
    → Deferred c
    → Deferred (begin_external_release waited held c).1
unfolding begin_external_release admit_release
begin_external_release-Deferred waited held c d = ground arith

next_release-Deferred :
    (parks : Bool) (c : CallbackState) (pending : List ℕ)
    → c.pending_deferred_releases ≡ pending
    → Deferred c
    → Deferred (next_release parks c).1
unfolding next_release
next_release-Deferred parks c [] e d = ground arith
next_release-Deferred parks c (index ∷ rest) e d =
    ground (arith, All-set Uncounted c.deferred_releases index no_release d refl)

pub slot_at-Uncounted :
    (slots : List DeferredRelease) (index : ℕ)
    → All Uncounted slots
    → Uncounted (slot_at slots index)
slot_at-Uncounted slots index d = elim (Option-cases (get_elem? slots index)) [
  | inl e ↦ rw (slot_at, e) refl
  | inr (release, e) ↦ rw (slot_at, e) (All-get_elem? Uncounted slots index d e)
]

-- Most steps leave these wrappers alone.
stays-Deferred :
    (s t : System)
    → t.deferred_releases ≡ s.deferred_releases
    → Deferred s.callback
    → Deferred t.callback
stays-Deferred s t e d = subst (All Uncounted) (sym e) d

CallbackStep-Deferred :
    {s t : System} → CallbackStep s t → Deferred s.callback → Deferred t.callback
unfolding arrive_null arrive_frame store_frame retain_uncertain_buffer
CallbackStep-Deferred {s = s} {t = t} (release_refused held before after g e) d =
    rw (e, begun-stream) (begin_callback_release-Deferred held s.callback d)
CallbackStep-Deferred {s = s} {t = t} (enter g e) d = stays-Deferred s t (ground arith) d
CallbackStep-Deferred {s = s} {t = t} (arrive_empty g e) d = stays-Deferred s t (ground arith) d
CallbackStep-Deferred {s = s} {t = t} (arrive buffer slot g h e) d =
    stays-Deferred s t (ground arith) d
CallbackStep-Deferred {s = s} {t = t} (arrive_unslotted buffer g h e) d =
    stays-Deferred s t (ground arith) d
CallbackStep-Deferred {s = s} {t = t} (park buffer before after g e) d =
    stays-Deferred s t (ground arith) d
CallbackStep-Deferred {s = s} {t = t} (store view held before after g h e) d =
    stays-Deferred s t (ground arith) d
CallbackStep-Deferred {s = s} {t = t} (refuse view held before after g h e) d =
    stays-Deferred s t (ground arith) d
CallbackStep-Deferred {s = s} {t = t} (leave g e) d = stays-Deferred s t (ground arith) d

pub ExecutorStep-Deferred :
    {s t : System} → ExecutorStep s t → Deferred s.callback → Deferred t.callback
unfolding retain_uncertain_buffer release_succeeded release_failed retire_release
ExecutorStep-Deferred {s = s} {t = t} (retire held owed parks g e) d =
    rw (e, next_begun-stream)
      (next_release-Deferred parks (retire_release owed s.callback) _ refl d)
ExecutorStep-Deferred {s = s} {t = t} (go_on parks g e) d =
    rw (e, next_begun-stream) (next_release-Deferred parks s.callback _ refl d)
ExecutorStep-Deferred {s = s} {t = t} (succeed held owed g e) d =
    stays-Deferred s t (ground arith) d
ExecutorStep-Deferred {s = s} {t = t} (fail held owed g e) d = stays-Deferred s t (ground arith) d
ExecutorStep-Deferred {s = s} {t = t} (retain held owed g e) d = stays-Deferred s t (ground arith) d

ConsumerStep-Deferred :
    {s t : System} → ConsumerStep s t → Deferred s.callback → Deferred t.callback
unfolding logical_stop claim_cleanup restore_channel keep_storage free_storage
ConsumerStep-Deferred {s = s} {t = t} (release_lease waited held before after g h e) d =
    rw (e, begun-stream) (begin_external_release-Deferred waited held s.callback d)
ConsumerStep-Deferred {s = s} {t = t} (run_now g e) d = stays-Deferred s t (ground arith) d
ConsumerStep-Deferred {s = s} {t = t} (consume frame rest g e) d =
    stays-Deferred s t (ground arith) d
ConsumerStep-Deferred {s = s} {t = t} (discard g h e) d = stays-Deferred s t (ground arith) d
ConsumerStep-Deferred {s = s} {t = t} (request g e) d = stays-Deferred s t (ground arith) d
ConsumerStep-Deferred {s = s} {t = t} (finish e) d = stays-Deferred s t (ground arith) d
ConsumerStep-Deferred {s = s} {t = t} (stop failure e) d = stays-Deferred s t (ground arith) d
ConsumerStep-Deferred {s = s} {t = t} (close g e) d = stays-Deferred s t (ground arith) d
ConsumerStep-Deferred {s = s} {t = t} (gate deferred_call first g h e) d =
    stays-Deferred s t (ground arith) d
ConsumerStep-Deferred {s = s} {t = t} (detach_fails owner_closed g e) d =
    stays-Deferred s t (ground arith) d
ConsumerStep-Deferred {s = s} {t = t} (detach g e) d = stays-Deferred s t (ground arith) d
ConsumerStep-Deferred {s = s} {t = t} (drain g h e) d = stays-Deferred s t (ground arith) d
ConsumerStep-Deferred {s = s} {t = t} (keep g h e) d = stays-Deferred s t (ground arith) d
ConsumerStep-Deferred {s = s} {t = t} (free_bytes failure g h e) d =
    stays-Deferred s t (ground arith) d

pub Step-Deferred : {s t : System} → Step s t → Deferred s.callback → Deferred t.callback
Step-Deferred (provider st) d = CallbackStep-Deferred st d
Step-Deferred (executing st) d = ExecutorStep-Deferred st d
Step-Deferred (consumer st) d = ConsumerStep-Deferred st d

replicate-Uncounted : (n : ℕ) → All Uncounted (replicate n no_release)
unfolding replicate
replicate-Uncounted zero = tt
replicate-Uncounted (suc n) = (refl, replicate-Uncounted n)

pub Runs-Deferred : {n q : ℕ} {s : System} → Runs n q s → Deferred s.callback
Runs-Deferred {n = n} {q = q} start = rw ((fill_pools-Filled n q).waiting) (replicate-Uncounted n)
Runs-Deferred (next r st) = Step-Deferred st (Runs-Deferred r)
