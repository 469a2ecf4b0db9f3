-- ===== src/IrStream/Slots.antt =====
-- native/src/ir_stream.cpp: which wrapper each slot of a stream owns, under every interleaving.
use ams_gra_mel_bridge.Prelude.{
  ℕ, ◌≡◌, refl, ap, ◌∙◌, inl, inr, Bool, true, false, ◌&&◌, none, some, List, [], ◌∷◌, ◌++◌, arith,
  Bool-cases, get_elem?, set, set-get_elem?, All,
}
use ams_gra_mel_bridge.IrStream.Callback.{
  Held, CallbackState, arrive_frame, arrive_null, store_frame, defer_release, admit_release,
  begin_callback_release, begin_external_release, release_succeeded, retire_release, release_failed,
  retain_uncertain_buffer, no_release, slot_at, wrapper, next_release,
}
use ams_gra_mel_bridge.IrStream.Stream.{
  logical_stop, claim_cleanup, restore_channel, keep_storage, free_storage,
}
use ams_gra_mel_bridge.IrStream.Interleaving.{
  System, with_state, begun, next_begun, CallbackStep, enter, arrive_empty, arrive,
  arrive_unslotted, park, store, refuse, release_refused, leave, ExecutorStep, succeed, retire,
  fail, retain, go_on, ConsumerStep, run_now, consume, discard, release_lease, request, finish,
  stop, close, gate, detach_fails, detach, drain, keep, free_bytes, Step, provider, executing,
  consumer,
}
use ams_gra_mel_bridge.IrStream.Start.{enabling, Runs, start, next, fill_pools-Filled}
use ams_gra_mel_bridge.IrStream.Accounts.{Inv, Runs-Inv}
use ams_gra_mel_bridge.IrStream.Pool.{Distinct, All-map, Used, fresh, acquire, release}
use ams_gra_mel_bridge.IrStream.Owned.{
  Keeps, Waits, Keeps-ne, Waits-ne, OwnerPool, WaitingPool, operating, Owned, transport-owners,
  transport-waiting, SameOwners, SameWaiting, stays-Owned, admit-owners, unused_owners,
  transport-list, waiting_done, left,
}

release_refused-Owned :
    (held : Held) (busy : Bool) (free waiting : List ℕ) {s t : System} (before after : List Held)
    → s.release_executor_owned ≡ busy
    → s.free_uncertain_slots ≡ free
    → s.free_deferred_releases ≡ waiting
    → t
      ≡ begun (begin_callback_release held s.callback).0 held false (record s {
        stream = with_state (begin_callback_release held s.callback).1 s.stream;
        refused = before ++ after;
      })
    → Inv s
    → Owned s
    → Owned t
unfolding begin_callback_release defer_release admit_release
release_refused-Owned held true free [] {s = s} {t = t} before after b f w e v o =
    stays-Owned s t (ground arith) (ground arith) o
release_refused-Owned held true free (index ∷ rest) {s = s} {t = t} before after b f w e v o =
    record {
      owners = transport-owners t _ _ _ (let same : SameOwners s t = ground arith in same) o.owners;
      waiting =
          transport-waiting t _ _ _
            (let moved : (t.deferred_releases
                    ≡ set s.deferred_releases index
                        (record { buffer = some held.buffer; already_counted = false }))
                  × (t.free_deferred_releases ≡ rest)
                  × (t.pending_deferred_releases ≡ index ∷ s.pending_deferred_releases) =
                ground arith in
              moved)
            (acquire no_release (λ (i : ℕ). i) Waits Waits-ne index _ refl (held.buffer, refl)
              (rw (← w) o.waiting));
    }
release_refused-Owned held false [] waiting {s = s} {t = t} before after b f w e v o =
    stays-Owned s t (ground arith) (ground arith) o
release_refused-Owned held false (slot ∷ rest) waiting {s = s} {t = t} before after b f w e v o =
    record {
      owners =
          transport-owners t _ _ _
            (let moved : (t.uncertain_slots ≡ set s.uncertain_slots slot (some held.buffer))
                  × (t.free_uncertain_slots ≡ rest)
                  × (operating t.executor ++ t.uncertain
                      ≡ (record { buffer = held.buffer; slot = slot }) ∷ s.uncertain) =
                ground arith in
              moved)
            (admit-owners held.buffer (
              let unused : OwnerPool s.uncertain_slots (slot ∷ rest) s.uncertain =
                rw (← f, ← unused_owners s v b) o.owners in
              unused));
      waiting =
          transport-waiting t _ _ _ (let same : SameWaiting s t = ground arith in same) o.waiting;
    }

release_lease-Owned :
    (waited : Bool) (held : Held) (free : List ℕ) {s t : System} (before after : List Held)
    → s.release_executor_owned ≡ false
    → s.free_uncertain_slots ≡ free
    → t
      ≡ begun (begin_external_release waited held s.callback).0 held true (record s {
        stream = with_state (begin_external_release waited held s.callback).1 s.stream;
        leases = before ++ after;
      })
    → Inv s
    → Owned s
    → Owned t
unfolding begin_external_release admit_release
release_lease-Owned waited held [] {s = s} {t = t} before after b f e v o =
    stays-Owned s t (ground arith) (ground arith) o
release_lease-Owned waited held (slot ∷ rest) {s = s} {t = t} before after b f e v o =
    elim (Bool-cases (waited && s.uncertain_release)) [
      | inl poisoned ↦ stays-Owned s t (ground arith) (ground arith) o
      | inr sound ↦ record {
        owners =
            transport-owners t _ _ _
              (let moved : (t.uncertain_slots ≡ set s.uncertain_slots slot (some held.buffer))
                    × (t.free_uncertain_slots ≡ rest)
                    × (operating t.executor ++ t.uncertain
                        ≡ (record { buffer = held.buffer; slot = slot }) ∷ s.uncertain) =
                  ground arith in
                moved)
              (admit-owners held.buffer (
                let unused : OwnerPool s.uncertain_slots (slot ∷ rest) s.uncertain =
                  rw (← f, ← unused_owners s v b) o.owners in
                unused));
        waiting =
            transport-waiting t _ _ _ (let same : SameWaiting s t = ground arith in same) o.waiting;
      }
    ]

CallbackStep-Owned : {s t : System} → CallbackStep s t → Inv s → Owned s → Owned t
unfolding arrive_null arrive_frame store_frame retain_uncertain_buffer
CallbackStep-Owned {s = s} {t = t} (enter g e) v o = stays-Owned s t (ground arith) (ground arith) o
CallbackStep-Owned {s = s} {t = t} (arrive_empty g e) v o =
    stays-Owned s t (ground arith) (ground arith) o
CallbackStep-Owned {s = s} {t = t} (arrive buffer slot g h e) v o =
    stays-Owned s t (ground arith) (ground arith) o
CallbackStep-Owned {s = s} {t = t} (arrive_unslotted buffer g h e) v o =
    stays-Owned s t (ground arith) (ground arith) o
CallbackStep-Owned {s = s} {t = t} (park buffer before after g e) v o =
    stays-Owned s t (ground arith) (ground arith) o
CallbackStep-Owned {s = s} {t = t} (store view held before after g h e) v o =
    stays-Owned s t (ground arith) (ground arith) o
CallbackStep-Owned {s = s} {t = t} (refuse view held before after g h e) v o =
    stays-Owned s t (ground arith) (ground arith) o
CallbackStep-Owned (release_refused held before after g e) v o =
    release_refused-Owned held _ _ _ before after refl refl refl e v o
CallbackStep-Owned {s = s} {t = t} (leave g e) v o = stays-Owned s t (ground arith) (ground arith) o

ConsumerStep-Owned : {s t : System} → ConsumerStep s t → Inv s → Owned s → Owned t
unfolding logical_stop claim_cleanup restore_channel keep_storage free_storage
ConsumerStep-Owned (release_lease waited held before after g h e) v o =
    release_lease-Owned waited held _ before after h refl e v o
ConsumerStep-Owned {s = s} {t = t} (run_now g e) v o =
    stays-Owned s t (ground arith) (ground arith) o
ConsumerStep-Owned {s = s} {t = t} (consume frame rest g e) v o =
    stays-Owned s t (ground arith) (ground arith) o
ConsumerStep-Owned {s = s} {t = t} (discard g h e) v o =
    stays-Owned s t (ground arith) (ground arith) o
ConsumerStep-Owned {s = s} {t = t} (request g e) v o =
    stays-Owned s t (ground arith) (ground arith) o
ConsumerStep-Owned {s = s} {t = t} (finish e) v o = stays-Owned s t (ground arith) (ground arith) o
ConsumerStep-Owned {s = s} {t = t} (stop failure e) v o =
    stays-Owned s t (ground arith) (ground arith) o
ConsumerStep-Owned {s = s} {t = t} (close g e) v o = stays-Owned s t (ground arith) (ground arith) o
ConsumerStep-Owned {s = s} {t = t} (gate deferred_call first g h e) v o =
    stays-Owned s t (ground arith) (ground arith) o
ConsumerStep-Owned {s = s} {t = t} (detach_fails owner_closed g e) v o =
    stays-Owned s t (ground arith) (ground arith) o
ConsumerStep-Owned {s = s} {t = t} (detach g e) v o =
    stays-Owned s t (ground arith) (ground arith) o
ConsumerStep-Owned {s = s} {t = t} (drain g h e) v o =
    stays-Owned s t (ground arith) (ground arith) o
ConsumerStep-Owned {s = s} {t = t} (keep g h e) v o =
    stays-Owned s t (ground arith) (ground arith) o
ConsumerStep-Owned {s = s} {t = t} (free_bytes failure g h e) v o =
    stays-Owned s t (ground arith) (ground arith) o

-- The end of a round of the executor, whose own uncertain slot is no longer in use.
round-Owned :
    (parks : Bool) (pending free : List ℕ) (c : CallbackState) (s t : System)
    → c.pending_deferred_releases ≡ pending
    → c.free_uncertain_slots ≡ free
    → t
      ≡ next_begun
          (next_release parks c).0
          (record s { stream = with_state (next_release parks c).1 s.stream })
    → OwnerPool c.uncertain_slots c.free_uncertain_slots s.uncertain
    → WaitingPool c.deferred_releases c.free_deferred_releases c.pending_deferred_releases
    → Owned t
unfolding next_release
round-Owned parks [] free c s t p f e owners waiting = record {
  owners =
      transport-owners t c.uncertain_slots c.free_uncertain_slots s.uncertain (ground arith) owners;
  waiting =
      transport-waiting t c.deferred_releases c.free_deferred_releases c.pending_deferred_releases
        (ground arith) waiting;
}
round-Owned true (index ∷ rest) [] c s t p f e owners waiting = record {
  owners =
      transport-owners t c.uncertain_slots c.free_uncertain_slots s.uncertain (ground arith) owners;
  waiting =
      transport-waiting t (set c.deferred_releases index no_release)
        (index ∷ c.free_deferred_releases) rest (ground arith) (waiting_done c p waiting);
}
round-Owned false (index ∷ rest) [] c s t p f e owners waiting = record {
  owners =
      transport-owners t c.uncertain_slots c.free_uncertain_slots s.uncertain (ground arith) owners;
  waiting =
      transport-waiting t c.deferred_releases c.free_deferred_releases rest (ground arith)
        (left c p waiting);
}
round-Owned parks (index ∷ rest) (slot ∷ slots) c s t p f e owners waiting =
    let buffer = wrapper (slot_at c.deferred_releases index) in
    record {
      owners =
          transport-owners t (set c.uncertain_slots slot (some buffer)) slots
            ((record { buffer = buffer; slot = slot }) ∷ s.uncertain) (ground arith)
            (admit-owners buffer (rw (← f) owners));
      waiting =
          transport-waiting t (set c.deferred_releases index no_release)
            (index ∷ c.free_deferred_releases) rest (ground arith) (waiting_done c p waiting);
    }

ExecutorStep-Owned : {s t : System} → ExecutorStep s t → Inv s → Owned s → Owned t
unfolding release_succeeded release_failed retire_release retain_uncertain_buffer
ExecutorStep-Owned {s = s} {t = t} (succeed held owed g e) v o = record {
  owners =
      transport-owners t (set s.uncertain_slots held.slot none) (held.slot ∷ s.free_uncertain_slots)
        s.uncertain (ground arith)
        (release none (λ (h : Held). h.slot) Keeps Keeps-ne {u = held} {used = s.uncertain}
          (transport-list (ground arith) o.owners));
  waiting = transport-waiting t _ _ _ (let same : SameWaiting s t = ground arith in same) o.waiting;
}
ExecutorStep-Owned {s = s} {t = t} (retire held owed parks g e) v o =
    round-Owned parks _ _ (retire_release owed s.callback) s t refl refl e
      (transport-list (ground arith) o.owners) o.waiting
ExecutorStep-Owned {s = s} {t = t} (fail held owed g e) v o =
    stays-Owned s t (ground arith) (ground arith) o
ExecutorStep-Owned {s = s} {t = t} (retain held owed g e) v o =
    let mine : OwnerPool s.uncertain_slots s.free_uncertain_slots (held ∷ s.uncertain) =
      transport-list (ground arith) o.owners in
    let (kept_there, at, k) = mine.used_taken.0 in
    let same = set-get_elem? s.uncertain_slots held.slot (at ∙ ap some k) in
    record {
      owners =
          transport-owners t s.uncertain_slots s.free_uncertain_slots (held ∷ s.uncertain)
            (ground (arith, same)) mine;
      waiting =
          transport-waiting t _ _ _ (let unmoved : SameWaiting s t = ground arith in unmoved)
            o.waiting;
    }
ExecutorStep-Owned {s = s} {t = t} (go_on parks g e) v o =
    round-Owned parks _ _ s.callback s t refl refl e (transport-list (ground arith) o.owners)
      o.waiting

Step-Owned : {s t : System} → Step s t → Inv s → Owned s → Owned t
Step-Owned (provider st) v o = CallbackStep-Owned st v o
Step-Owned (executing st) v o = ExecutorStep-Owned st v o
Step-Owned (consumer st) v o = ConsumerStep-Owned st v o

enabling-Owned : (n q : ℕ) → Owned (enabling n q)
enabling-Owned n q =
    let f = fill_pools-Filled n q in
    record {
      owners = rw (f.owners, f.free_owners) (fresh none (λ (h : Held). h.slot) Keeps Keeps-ne n);
      waiting =
          rw (f.waiting, f.free_waiting, f.nothing_pending)
            (fresh no_release (λ (i : ℕ). i) Waits Waits-ne n);
    }

pub Runs-Owned : {n q : ℕ} {s : System} → Runs n q s → Owned s
Runs-Owned {n = n} {q = q} start = enabling-Owned n q
Runs-Owned (next r st) = Step-Owned st (Runs-Inv r) (Runs-Owned r)

abbrev pub OwnedBy : System → Held → Type 0
OwnedBy s held = get_elem? s.uncertain_slots held.slot ≡ some (some held.buffer)

-- The bridge calls `release()` only on a wrapper that a slot of the stream owns already, and a
-- failed one stays in its slot: under every interleaving, the wrapper whose release the executor
-- has begun, until it is known to have succeeded, and all wrappers whose release has failed, are
-- each in their own uncertain slot.
pub uncertain_owned :
    {n q : ℕ} {s : System}
    → Runs n q s
    → All (OwnedBy s) (operating s.executor ++ s.uncertain)
      × Distinct (λ (held : Held). held.slot) (operating s.executor ++ s.uncertain)
uncertain_owned {s = s} r =
    let o = (Runs-Owned r).owners in
    (
      All-map (Used none (λ (h : Held). h.slot) Keeps Keeps-ne s.uncertain_slots) (OwnedBy s)
          (operating s.executor ++ s.uncertain) (λ h u. u.1 ∙ ap some u.2) o.used_taken,
      o.used_distinct,
    )
