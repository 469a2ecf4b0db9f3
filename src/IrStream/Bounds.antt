-- ===== src/IrStream/Bounds.antt =====
-- native/src/ir_stream.cpp: the HOLD slots that a stream hands out are slots that it has.
use ams_gra_mel_bridge.Prelude.{
  ℕ, ◌<◌, ◌≡◌, refl, sym, ap, ◌∙◌, subst, ◌⊎◌, inl, inr, Bool, true, false, List, [], ◌∷◌, ◌++◌,
  arith, All-numbers, All, All-append,
}
use ams_gra_mel_bridge.IrStream.Callback.{
  Held, QueuedFrame, CallbackState, arrive_frame, arrive_null, store_frame, defer_release,
  admit_release, Begun, admitted, deferred, turned_away, begin_callback_release,
  begin_external_release, release_succeeded, retire_release, release_failed,
  retain_uncertain_buffer, next_release,
}
use ams_gra_mel_bridge.IrStream.Stream.{
  logical_stop, claim_cleanup, restore_channel, keep_storage, free_storage,
}
use ams_gra_mel_bridge.IrStream.Interleaving.{
  System, with_state, holds, begun, begun-stream, CallbackStep, enter, arrive_empty, arrive,
  arrive_unslotted, park, store, refuse, release_refused, leave, ExecutorStep, succeed, retire,
  fail, retain, go_on, ConsumerStep, run_now, consume, discard, release_lease, request, finish,
  stop, close, gate, detach_fails, detach, drain, keep, free_bytes, Step, provider, executing,
  consumer,
}
use ams_gra_mel_bridge.IrStream.Start.{fill_pools, enabling, Runs, start, next, fill_pools-Filled}
use ams_gra_mel_bridge.IrStream.Pool.{All-middle}

abbrev pub Below : ℕ → ℕ → Type 0
Below n i = i < n

abbrev pub Inside : ℕ → Held → Type 0
Inside n held = held.slot < n

pub record Bounded (n : ℕ) (s : System) : Type 0 where
  pub size : s.retention_slots ≡ n
  pub available : All (Below n) s.free_retention_slots
  pub in_bodies : All (Inside n) s.bodies
  pub in_refused : All (Inside n) s.refused
  pub in_queue : All (Inside n) (holds s.queue)
  pub in_leases : All (Inside n) s.leases

-- A step that changes only some of the lists.
moves :
    {n : ℕ} (t : System) (size : ℕ) (available : List ℕ)
    (bodies back waiting_frames leases : List Held)
    → (t.retention_slots ≡ size)
      × (t.free_retention_slots ≡ available)
      × (t.bodies ≡ bodies)
      × (t.refused ≡ back)
      × (holds t.queue ≡ waiting_frames)
      × (t.leases ≡ leases)
    → size ≡ n
    → All (Below n) available
    → All (Inside n) bodies
    → All (Inside n) back
    → All (Inside n) waiting_frames
    → All (Inside n) leases
    → Bounded n t
moves {n} t size available bodies back waiting_frames leases (a, b, c, d, e, f) v w x y z u =
    record {
      size = a ∙ v;
      available = subst (All (Below n)) (sym b) w;
      in_bodies = subst (All (Inside n)) (sym c) x;
      in_refused = subst (All (Inside n)) (sym d) y;
      in_queue = subst (All (Inside n)) (sym e) z;
      in_leases = subst (All (Inside n)) (sym f) u;
    }

stays :
    {n : ℕ} (s t : System)
    → (t.retention_slots ≡ s.retention_slots)
      × (t.free_retention_slots ≡ s.free_retention_slots)
      × (t.bodies ≡ s.bodies)
      × (t.refused ≡ s.refused)
      × (holds t.queue ≡ holds s.queue)
      × (t.leases ≡ s.leases)
    → Bounded n s
    → Bounded n t
stays s t e v =
    moves t _ _ _ _ _ _ e v.size v.available v.in_bodies v.in_refused v.in_queue v.in_leases

-- The HOLD slots after a release has begun: as before, or with this one given back.
returned-Below :
    {n : ℕ} (slot : ℕ) (c d : CallbackState)
    → (d.free_retention_slots ≡ c.free_retention_slots)
      ⊎ (d.free_retention_slots ≡ slot ∷ c.free_retention_slots)
    → slot < n
    → All (Below n) c.free_retention_slots
    → All (Below n) d.free_retention_slots
returned-Below {n} slot c d (inl same) h v = subst (All (Below n)) (sym same) v
returned-Below {n} slot c d (inr more) h v = subst (All (Below n)) (sym more) (h, v)

callback-returns :
    (held : Held) (c : CallbackState)
    → ((begin_callback_release held c).1.free_retention_slots ≡ c.free_retention_slots)
      ⊎ ((begin_callback_release held c).1.free_retention_slots
          ≡ held.slot ∷ c.free_retention_slots)
unfolding begin_callback_release defer_release admit_release
callback-returns held c = ground arith

external-returns :
    (waited : Bool) (held : Held) (c : CallbackState)
    → ((begin_external_release waited held c).1.free_retention_slots ≡ c.free_retention_slots)
      ⊎ ((begin_external_release waited held c).1.free_retention_slots
          ≡ held.slot ∷ c.free_retention_slots)
unfolding begin_external_release admit_release
external-returns waited held c = ground arith

callback-keeps :
    (held : Held) (c : CallbackState)
    → ((begin_callback_release held c).1.retention_slots ≡ c.retention_slots)
      × ((begin_callback_release held c).1.queue ≡ c.queue)
unfolding begin_callback_release defer_release admit_release
callback-keeps held c = ground arith

external-keeps :
    (waited : Bool) (held : Held) (c : CallbackState)
    → ((begin_external_release waited held c).1.retention_slots ≡ c.retention_slots)
      × ((begin_external_release waited held c).1.queue ≡ c.queue)
unfolding begin_external_release admit_release
external-keeps waited held c = ground arith

begun-lists :
    (b : Begun) (held : Held) (owed : Bool) (s : System)
    → ((begun b held owed s).bodies ≡ s.bodies)
      × ((begun b held owed s).refused ≡ s.refused)
      × ((begun b held owed s).leases ≡ s.leases)
begun-lists (admitted slot) held owed s = (refl, refl, refl)
begun-lists deferred held owed s = (refl, refl, refl)
begun-lists turned_away held owed s = (refl, refl, refl)

holds-append : (xs ys : List QueuedFrame) → holds (xs ++ ys) ≡ holds xs ++ holds ys
holds-append [] ys = refl
holds-append (x ∷ xs) ys = ap (◌∷◌ x.held) (holds-append xs ys)

CallbackStep-Bounded : {n : ℕ} {s t : System} → CallbackStep s t → Bounded n s → Bounded n t
unfolding arrive_null arrive_frame store_frame retain_uncertain_buffer
CallbackStep-Bounded {s = s} {t = t} (enter g e) v = stays s t (ground arith) v
CallbackStep-Bounded {s = s} {t = t} (arrive_empty g e) v = stays s t (ground arith) v
CallbackStep-Bounded {n = n} {s = s} {t = t} (arrive buffer slot g h e) v =
    let popped : s.free_retention_slots ≡ slot ∷ t.free_retention_slots = ground arith in
    let free_slots : All (Below n) (slot ∷ t.free_retention_slots) =
      subst (All (Below n)) popped v.available in
    moves t s.retention_slots t.free_retention_slots
      ((record { buffer = buffer; slot = slot }) ∷ s.bodies) s.refused (holds s.queue) s.leases
      (ground arith) v.size free_slots.1 (free_slots.0, v.in_bodies) v.in_refused v.in_queue
      v.in_leases
CallbackStep-Bounded {s = s} {t = t} (arrive_unslotted buffer g h e) v = stays s t (ground arith) v
CallbackStep-Bounded {s = s} {t = t} (park buffer before after g e) v = stays s t (ground arith) v
CallbackStep-Bounded {n = n} {s = s} {t = t} (store view held before after g h e) v =
    let (mine, others) =
      All-middle (Inside n) before held after (subst (All (Inside n)) g v.in_bodies) in
    let frame : QueuedFrame = record { held = held; view = view } in
    moves t s.retention_slots s.free_retention_slots (before ++ after) s.refused
      (holds s.queue ++ held ∷ []) s.leases (ground (arith, holds-append s.queue (frame ∷ [])))
      v.size v.available others v.in_refused
      (All-append (Inside n) (holds s.queue) (held ∷ []) v.in_queue (mine, tt)) v.in_leases
CallbackStep-Bounded {n = n} {s = s} {t = t} (refuse view held before after g h e) v =
    let (mine, others) =
      All-middle (Inside n) before held after (subst (All (Inside n)) g v.in_bodies) in
    moves t s.retention_slots s.free_retention_slots (before ++ after) (held ∷ s.refused)
      (holds s.queue) s.leases (ground arith) v.size v.available others (mine, v.in_refused)
      v.in_queue v.in_leases
CallbackStep-Bounded {n = n} {s = s} {t = t} (release_refused held before after g e) v =
    let (mine, others) =
      All-middle (Inside n) before held after (subst (All (Inside n)) g v.in_refused) in
    let same = begun-lists (begin_callback_release held s.callback).0 held false (record s {
      stream = with_state (begin_callback_release held s.callback).1 s.stream;
      refused = before ++ after;
    }) in
    moves t s.retention_slots (begin_callback_release held s.callback).1.free_retention_slots
      s.bodies (before ++ after) (holds s.queue) s.leases
      (rw (e, begun-stream)
        (
          (callback-keeps held s.callback).0,
          refl,
          same.0,
          same.1,
          ap holds (callback-keeps held s.callback).1,
          same.2,
        ))
      v.size
      (returned-Below held.slot s.callback (begin_callback_release held s.callback).1
        (callback-returns held s.callback) mine v.available)
      v.in_bodies others v.in_queue v.in_leases
CallbackStep-Bounded {s = s} {t = t} (leave g e) v = stays s t (ground arith) v

ConsumerStep-Bounded : {n : ℕ} {s t : System} → ConsumerStep s t → Bounded n s → Bounded n t
unfolding logical_stop claim_cleanup restore_channel keep_storage free_storage
ConsumerStep-Bounded {n = n} {s = s} {t = t} (consume frame rest g e) v =
    let front : All (Inside n) (frame.held ∷ holds rest) =
      subst (λ q. All (Inside n) (holds q)) g v.in_queue in
    moves t s.retention_slots s.free_retention_slots s.bodies s.refused (holds rest)
      (frame.held ∷ s.leases) (ground arith) v.size v.available v.in_bodies v.in_refused front.1
      (front.0, v.in_leases)
ConsumerStep-Bounded {n = n} {s = s} {t = t} (discard g h e) v =
    moves t s.retention_slots s.free_retention_slots s.bodies s.refused []
      (holds s.queue ++ s.leases) (ground arith) v.size v.available v.in_bodies v.in_refused tt
      (All-append (Inside n) (holds s.queue) s.leases v.in_queue v.in_leases)
ConsumerStep-Bounded {n = n} {s = s} {t = t} (release_lease waited held before after g h e) v =
    let (mine, others) =
      All-middle (Inside n) before held after (subst (All (Inside n)) g v.in_leases) in
    let same = begun-lists (begin_external_release waited held s.callback).0 held true (record s {
      stream = with_state (begin_external_release waited held s.callback).1 s.stream;
      leases = before ++ after;
    }) in
    moves t s.retention_slots (begin_external_release waited held s.callback).1.free_retention_slots
      s.bodies s.refused (holds s.queue) (before ++ after)
      (rw (e, begun-stream)
        (
          (external-keeps waited held s.callback).0,
          refl,
          same.0,
          same.1,
          ap holds (external-keeps waited held s.callback).1,
          same.2,
        ))
      v.size
      (returned-Below held.slot s.callback (begin_external_release waited held s.callback).1
        (external-returns waited held s.callback) mine v.available)
      v.in_bodies v.in_refused v.in_queue others
ConsumerStep-Bounded {s = s} {t = t} (run_now g e) v = stays s t (ground arith) v
ConsumerStep-Bounded {s = s} {t = t} (request g e) v = stays s t (ground arith) v
ConsumerStep-Bounded {s = s} {t = t} (finish e) v = stays s t (ground arith) v
ConsumerStep-Bounded {s = s} {t = t} (stop failure e) v = stays s t (ground arith) v
ConsumerStep-Bounded {s = s} {t = t} (close g e) v = stays s t (ground arith) v
ConsumerStep-Bounded {s = s} {t = t} (gate deferred_call first g h e) v = stays s t (ground arith) v
ConsumerStep-Bounded {s = s} {t = t} (detach_fails owner_closed g e) v = stays s t (ground arith) v
ConsumerStep-Bounded {s = s} {t = t} (detach g e) v = stays s t (ground arith) v
ConsumerStep-Bounded {s = s} {t = t} (drain g h e) v = stays s t (ground arith) v
ConsumerStep-Bounded {s = s} {t = t} (keep g h e) v = stays s t (ground arith) v
ConsumerStep-Bounded {s = s} {t = t} (free_bytes failure g h e) v = stays s t (ground arith) v

ExecutorStep-Bounded : {n : ℕ} {s t : System} → ExecutorStep s t → Bounded n s → Bounded n t
unfolding release_succeeded release_failed retire_release retain_uncertain_buffer next_release
ExecutorStep-Bounded {s = s} {t = t} (succeed held owed g e) v = stays s t (ground arith) v
ExecutorStep-Bounded {s = s} {t = t} (retire held owed parks g e) v = stays s t (ground arith) v
ExecutorStep-Bounded {s = s} {t = t} (fail held owed g e) v = stays s t (ground arith) v
ExecutorStep-Bounded {s = s} {t = t} (retain held owed g e) v = stays s t (ground arith) v
ExecutorStep-Bounded {s = s} {t = t} (go_on parks g e) v = stays s t (ground arith) v

pub Step-Bounded : {n : ℕ} {s t : System} → Step s t → Bounded n s → Bounded n t
Step-Bounded (provider st) v = CallbackStep-Bounded st v
Step-Bounded (executing st) v = ExecutorStep-Bounded st v
Step-Bounded (consumer st) v = ConsumerStep-Bounded st v

enabling-Bounded : (n q : ℕ) → Bounded n (enabling n q)
unfolding fill_pools
enabling-Bounded n q =
    let f = fill_pools-Filled n q in
    record {
      size = f.slots;
      available =
          subst (All (Below n)) (sym f.free_slots)
            (All-numbers (Below n) 0 n (λ i h k. omega arith));
      in_bodies = tt;
      in_refused = tt;
      in_queue = tt;
      in_leases = tt;
    }

pub Runs-Bounded : {n q : ℕ} {s : System} → Runs n q s → Bounded n s
Runs-Bounded {n = n} {q = q} start = enabling-Bounded n q
Runs-Bounded (next r st) = Step-Bounded st (Runs-Bounded r)
