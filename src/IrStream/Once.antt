-- ===== src/IrStream/Once.antt =====
-- native/src/ir_stream.cpp: where each wrapper of a provider's buffer is, under every interleaving.
use ams_gra_mel_bridge.Prelude.{
  ℕ, ◌+◌, ◌≤◌, ◌≡◌, refl, ap, ◌≢◌, Bool, true, false, some, List, [], ◌∷◌, ◌++◌, arith, bit, ◌==◌,
  get_elem?, set, get_elem?-set_ne, get_elem?-set_self, All,
}
use ams_gra_mel_bridge.IrStream.Callback.{
  Held, QueuedFrame, DeferredRelease, CallbackState, arrive_frame, arrive_null, store_frame,
  defer_release, admit_release, begin_callback_release, begin_external_release, release_succeeded,
  retire_release, release_failed, retain_uncertain_buffer, no_release, slot_at, wrapper,
  next_release,
}
use ams_gra_mel_bridge.IrStream.Stream.{
  logical_stop, claim_cleanup, restore_channel, keep_storage, free_storage,
}
use ams_gra_mel_bridge.IrStream.Interleaving.{
  System, with_state, holds, begun, next_begun, CallbackStep, enter, arrive_empty, arrive,
  arrive_unslotted, park, store, refuse, release_refused, leave, ExecutorStep, succeed, retire,
  fail, retain, go_on, ConsumerStep, run_now, consume, discard, release_lease, request, finish,
  stop, close, gate, detach_fails, detach, drain, keep, free_bytes, Step, provider, executing,
  consumer,
}
use ams_gra_mel_bridge.IrStream.Start.{fill_pools, enabling, Runs, start, next}
use ams_gra_mel_bridge.IrStream.Slots.{Runs-Owned}
use ams_gra_mel_bridge.IrStream.Owned.{Waits, Waits-ne, WaitingPool, Owned}
use ams_gra_mel_bridge.IrStream.Pool.{acquire}

-- How often a wrapper is in a list.
abbrev pub count : ℕ → List ℕ → ℕ
count b [] = 0
count b (x ∷ xs) = bit (x == b) + count b xs

abbrev pub tally : ℕ → List Held → ℕ
tally b [] = 0
tally b (x ∷ xs) = bit (x.buffer == b) + tally b xs

-- How often it waits behind the executor.
abbrev pub waits : ℕ → List DeferredRelease → List ℕ → ℕ
waits b slots [] = 0
waits b slots (index ∷ rest) = bit (wrapper (slot_at slots index) == b) + waits b slots rest

-- How often it is anywhere.
abbrev pub places : ℕ → System → ℕ
places b s =
    count b s.unslotted
    + tally b s.bodies
    + tally b s.refused
    + tally b (holds s.queue)
    + tally b s.leases
    + waits b s.deferred_releases s.pending_deferred_releases
    + count b s.called
    + count b s.withheld

count-middle :
    (b : ℕ) (xs : List ℕ) (y : ℕ) (ys : List ℕ)
    → count b (xs ++ y ∷ ys) ≡ bit (y == b) + count b (xs ++ ys)
count-middle b [] y ys = refl
count-middle b (x ∷ xs) y ys = omega (arith, count-middle b xs y ys)

tally-middle :
    (b : ℕ) (xs : List Held) (y : Held) (ys : List Held)
    → tally b (xs ++ y ∷ ys) ≡ bit (y.buffer == b) + tally b (xs ++ ys)
tally-middle b [] y ys = refl
tally-middle b (x ∷ xs) y ys = omega (arith, tally-middle b xs y ys)

tally-append : (b : ℕ) (xs ys : List Held) → tally b (xs ++ ys) ≡ tally b xs + tally b ys
tally-append b [] ys = omega arith
tally-append b (x ∷ xs) ys = omega (arith, tally-append b xs ys)

holds-push :
    (frames : List QueuedFrame) (f : QueuedFrame)
    → holds (frames ++ f ∷ []) ≡ holds frames ++ f.held ∷ []
holds-push [] f = refl
holds-push (g ∷ gs) f = ap (◌∷◌ g.held) (holds-push gs f)

slot_at-set_ne :
    (slots : List DeferredRelease) (i j : ℕ) (v : DeferredRelease)
    → j ≢ i
    → slot_at (set slots i v) j ≡ slot_at slots j
slot_at-set_ne slots i j v h = rw (slot_at, get_elem?-set_ne slots i j v h) refl

slot_at-set_self :
    (slots : List DeferredRelease) (i : ℕ) (v : DeferredRelease) {x : DeferredRelease}
    → get_elem? slots i ≡ some x
    → slot_at (set slots i v) i ≡ v
slot_at-set_self slots i v h = rw (slot_at, get_elem?-set_self slots i v h) refl

waits-set :
    (b : ℕ) (slots : List DeferredRelease) (i : ℕ) (v : DeferredRelease) (js : List ℕ)
    → All (λ j. j ≢ i) js
    → waits b (set slots i v) js ≡ waits b slots js
waits-set b slots i v [] h = refl
waits-set b slots i v (j ∷ js) h = omega (
  arith,
  ap (λ (r : DeferredRelease). bit (wrapper r == b)) (slot_at-set_ne slots i j v h.0),
  waits-set b slots i v js h.1,
)

abbrev Conserved : ℕ → System → Type 0
Conserved b s = places b s ≡ count b s.handed

release_refused-Conserved :
    (b : ℕ) (held : Held) (busy : Bool) (unused free_waiting : List ℕ) (before after : List Held)
    {s t : System}
    → s.release_executor_owned ≡ busy
    → s.free_uncertain_slots ≡ unused
    → s.free_deferred_releases ≡ free_waiting
    → s.refused ≡ before ++ held ∷ after
    → t
      ≡ begun (begin_callback_release held s.callback).0 held false (record s {
        stream = with_state (begin_callback_release held s.callback).1 s.stream;
        refused = before ++ after;
      })
    → Owned s
    → Conserved b s
    → Conserved b t
unfolding begin_callback_release defer_release admit_release
release_refused-Conserved b held true unused [] before after x f w g e o c =
    ground (arith, tally-middle b before held after)
release_refused-Conserved b held true unused (index ∷ rest) before after {s = s} x f w g e o c =
    let waiting : WaitingPool s.deferred_releases (index ∷ rest) s.pending_deferred_releases =
      rw (← w) o.waiting in
    let put : DeferredRelease = record { buffer = some held.buffer; already_counted = false } in
    let now =
      acquire no_release (λ (i : ℕ). i) Waits Waits-ne index put refl (held.buffer, refl) waiting in
    ground (
      arith,
      tally-middle b before held after,
      waits-set b s.deferred_releases index put s.pending_deferred_releases now.used_distinct.0,
      slot_at-set_self s.deferred_releases index put waiting.free_vacant.0,
    )
release_refused-Conserved b held false [] free_waiting before after x f w g e o c =
    ground (arith, tally-middle b before held after)
release_refused-Conserved b held false (slot ∷ rest) free_waiting before after x f w g e o c =
    ground (arith, tally-middle b before held after)

release_lease-Conserved :
    (b : ℕ) (waited : Bool) (held : Held) (unused : List ℕ) (before after : List Held)
    (s t : System)
    → s.free_uncertain_slots ≡ unused
    → s.leases ≡ before ++ held ∷ after
    → t
      ≡ begun (begin_external_release waited held s.callback).0 held true (record s {
        stream = with_state (begin_external_release waited held s.callback).1 s.stream;
        leases = before ++ after;
      })
    → Conserved b s
    → Conserved b t
unfolding begin_external_release admit_release
release_lease-Conserved b waited held [] before after s t f g e c =
    ground (arith, tally-middle b before held after)
release_lease-Conserved b waited held (slot ∷ rest) before after s t f g e c =
    ground (arith, tally-middle b before held after)

CallbackStep-Conserved :
    {s t : System} → CallbackStep s t → (b : ℕ) → Owned s → Conserved b s → Conserved b t
unfolding arrive_null arrive_frame store_frame retain_uncertain_buffer
CallbackStep-Conserved (enter g e) b o c = ground arith
CallbackStep-Conserved (arrive_empty g e) b o c = ground arith
CallbackStep-Conserved (arrive buffer slot g h e) b o c = ground arith
CallbackStep-Conserved (arrive_unslotted buffer g h e) b o c = ground arith
CallbackStep-Conserved (park buffer before after g e) b o c =
    ground (arith, count-middle b before buffer after)
CallbackStep-Conserved {s = s} (store view held before after g h e) b o c =
    let frame : QueuedFrame = record { held = held; view = view } in
    ground (
      arith,
      tally-middle b before held after,
      holds-push s.queue frame,
      tally-append b (holds s.queue) (held ∷ []),
    )
CallbackStep-Conserved (refuse view held before after g h e) b o c =
    ground (arith, tally-middle b before held after)
CallbackStep-Conserved (release_refused held before after g e) b o c =
    release_refused-Conserved b held _ _ _ before after refl refl refl g e o c
CallbackStep-Conserved (leave g e) b o c = ground arith

round-Conserved :
    (b : ℕ) (parks : Bool) (pending unused : List ℕ) (x : CallbackState) {s t : System}
    → s.deferred_releases ≡ x.deferred_releases
    → s.pending_deferred_releases ≡ x.pending_deferred_releases
    → x.queue ≡ s.queue
    → x.pending_deferred_releases ≡ pending
    → x.free_uncertain_slots ≡ unused
    → t
      ≡ next_begun
          (next_release parks x).0
          (record s { stream = with_state (next_release parks x).1 s.stream })
    → Owned s
    → Conserved b s
    → Conserved b t
unfolding next_release
round-Conserved b parks [] unused x d d' q p f e o c = ground arith
round-Conserved b parks (index ∷ rest) unused x {s = s} d d' q p f e o c =
    let waiting : WaitingPool s.deferred_releases s.free_deferred_releases (index ∷ rest) =
      rw (← p, ← d') o.waiting in
    ground (arith, waits-set b s.deferred_releases index no_release rest waiting.used_distinct.0)

ExecutorStep-Conserved :
    {s t : System} → ExecutorStep s t → (b : ℕ) → Owned s → Conserved b s → Conserved b t
unfolding release_succeeded release_failed retire_release retain_uncertain_buffer
ExecutorStep-Conserved (succeed held owed g e) b o c = ground arith
ExecutorStep-Conserved {s = s} (retire held owed parks g e) b o c =
    round-Conserved b parks _ _ (retire_release owed s.callback) refl refl refl refl refl e o c
ExecutorStep-Conserved (fail held owed g e) b o c = ground arith
ExecutorStep-Conserved (retain held owed g e) b o c = ground arith
ExecutorStep-Conserved {s = s} (go_on parks g e) b o c =
    round-Conserved b parks _ _ s.callback refl refl refl refl refl e o c

ConsumerStep-Conserved : {s t : System} → ConsumerStep s t → (b : ℕ) → Conserved b s → Conserved b t
unfolding logical_stop claim_cleanup restore_channel keep_storage free_storage
ConsumerStep-Conserved (run_now g e) b c = ground arith
ConsumerStep-Conserved (consume frame rest g e) b c = ground arith
ConsumerStep-Conserved {s = s} (discard g h e) b c =
    ground (arith, tally-append b (holds s.queue) s.leases)
ConsumerStep-Conserved {s = s} {t = t} (release_lease waited held before after g h e) b c =
    release_lease-Conserved b waited held _ before after s t refl g e c
ConsumerStep-Conserved (request g e) b c = ground arith
ConsumerStep-Conserved (finish e) b c = ground arith
ConsumerStep-Conserved (stop failure e) b c = ground arith
ConsumerStep-Conserved (close g e) b c = ground arith
ConsumerStep-Conserved (gate deferred_call first g h e) b c = ground arith
ConsumerStep-Conserved (detach_fails owner_closed g e) b c = ground arith
ConsumerStep-Conserved (detach g e) b c = ground arith
ConsumerStep-Conserved (drain g h e) b c = ground arith
ConsumerStep-Conserved (keep g h e) b c = ground arith
ConsumerStep-Conserved (free_bytes failure g h e) b c = ground arith

Step-Conserved : {s t : System} → Step s t → (b : ℕ) → Owned s → Conserved b s → Conserved b t
Step-Conserved (provider st) b o c = CallbackStep-Conserved st b o c
Step-Conserved (executing st) b o c = ExecutorStep-Conserved st b o c
Step-Conserved (consumer st) b o c = ConsumerStep-Conserved st b c

enabling-Conserved : (n q b : ℕ) → Conserved b (enabling n q)
unfolding fill_pools
enabling-Conserved n q b = refl

Runs-Conserved : {n q : ℕ} {s : System} → Runs n q s → (b : ℕ) → Conserved b s
Runs-Conserved {n = n} {q = q} start b = enabling-Conserved n q b
Runs-Conserved (next r st) b = Step-Conserved st b (Runs-Owned r) (Runs-Conserved r b)

-- No wrapper is lost or doubled, and none is released twice: under every interleaving, a wrapper that
-- the provider has handed out once is in exactly one place, once: in a callback, in the queue, lent
-- to the application, waiting behind the executor, among those whose `release()` has been called, or
-- among those that are withheld for ever. So `release()` is called on it at most once, and not after
-- it was withheld.
pub released_once :
    {n q : ℕ} {s : System}
    → Runs n q s
    → (b : ℕ) → count b s.handed ≤ 1
    → (count b s.unslotted
          + tally b s.bodies
          + tally b s.refused
          + tally b (holds s.queue)
          + tally b s.leases
          + waits b s.deferred_releases s.pending_deferred_releases
          + count b s.called
          + count b s.withheld
        ≡ count b s.handed)
      × (count b s.called + count b s.withheld ≤ 1)
released_once r b h = let c = Runs-Conserved r b in (c, omega arith)
