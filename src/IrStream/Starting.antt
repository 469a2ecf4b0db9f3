-- ===== src/IrStream/Starting.antt =====
-- native/src/ir_stream.cpp: `ams_mel_ir_stream_start` when no callback and no other call comes
-- between, but for a callback that gets no HOLD slot while the channel is being enabled.
use ams_gra_mel_bridge.Prelude.{
  ℕ, ◌≡◌, refl, sym, subst, ◌≢◌, ◌↔◌, ◌⊎◌, inl, inr, Bool, true, false, not, ◌&&◌, Option, none,
  some, List, [], ◌∷◌, arith, if◌then◌else◌, Bool-cases, Option-cases, is_some, codes, length, All,
}
use ams_gra_mel_bridge.Provider.{
  ok, provider_failed, internal_error, stream_stopped, Call, returned, threw, Fault,
}
use ams_gra_mel_bridge.IrStream.Callback.{
  attached, starting, running, stopping, stopped, failed, retain_uncertain_buffer,
}
use ams_gra_mel_bridge.IrStream.Stream.{
  ImageStreamState, logical_stop, image_stream_retain_failed, claim_cleanup, restore_channel,
  keep_storage, free_storage,
}
use ams_gra_mel_bridge.IrStream.Start.{fill_pools, opened, Filled, fill_pools-Filled}
use ams_gra_mel_bridge.IrStream.Entry.{
  Answers, with_callback, settle_storage, image_stream_cleanup, Reply, teardown,
}
use ams_gra_mel_bridge.IrStream.Opening.{answers_true, fresh_stream}

-- What the provider does for one buffer: `getBuffer` and the allocation of the host bytes, which give
-- null, a buffer, or a fault; `init`; and `registerBuffer`.
pub record BufferWorld : Type 0 where
  pub gets : Call Bool
  pub inits : Call Bool
  pub registers : Call Bool

abbrev pub Stage : Type 0
Stage = Option Fault

abbrev runtime_error : Fault
runtime_error = Fault.exception none

-- A call that must return true.
abbrev demand : Call Bool → Stage → Stage
demand (threw f) later = some f
demand (returned false) later = some runtime_error
demand (returned true) later = later

-- The loop over the buffers: the fault that ends it, or none.
unfoldable pub register_buffers : List BufferWorld → Stage
register_buffers [] = none
register_buffers (b ∷ rest) =
    let later = register_buffers rest in demand b.gets (demand b.inits (demand b.registers later))

-- What Start meets besides: whether the pools find memory, what `enable` does, and the wrapper of a
-- callback that poisons the stream in the meantime.
pub record StartWorld : Type 0 where
  pub buffers : List BufferWorld
  pub reserves : Bool
  pub enables : Call Bool
  pub poisoned_meanwhile : Option ℕ

-- `fail()` and the teardown after it.
unfoldable pub start_failed : Answers → Fault → ImageStreamState → Reply × ImageStreamState
unfolding teardown
start_failed w f s =
    let t =
      (teardown w true
        (with_callback (record s.callback { accepting = false; lifecycle = failed }) s)).1 in
    elim f [
      | Fault.bad_alloc ↦ ((internal_error, codes "allocation failed during stream start"), t)
      | other ↦ ((provider_failed, codes "provider failure during stream start"), t)
    ]

-- From the registered buffers on.
unfoldable pub start_registered : Answers → StartWorld → ImageStreamState → Reply × ImageStreamState
unfolding start_failed fill_pools teardown retain_uncertain_buffer
start_registered a w s =
    let filled = record (with_callback (fill_pools (length w.buffers) s.callback) s) {
      enable_attempted = true;
    } in
    if not w.reserves then start_failed a Fault.bad_alloc s else elim (demand w.enables none) [
      | some f ↦ start_failed a f filled
      | none ↦ elim w.poisoned_meanwhile [
        | some buffer ↦ teardown a true (
            image_stream_retain_failed
              (with_callback (retain_uncertain_buffer buffer none false filled.callback) filled))
        | none ↦ ((ok, []), with_callback (record filled.callback { lifecycle = running }) filled)
      ]
    ]

-- Start of a stream whose configuration has as many buffers as `w` answers for.
unfoldable pub stream_start : Answers → StartWorld → ImageStreamState → Reply × ImageStreamState
unfolding start_registered register_buffers
stream_start a w s =
    let starting_now = with_callback (record s.callback { lifecycle = starting }) s in
    elim s.lifecycle [
      | running ↦ ((ok, []), s)
      | stopped ↦ ((stream_stopped, []), s)
      | failed ↦ ((provider_failed, []), s)
      | starting ↦ ((provider_failed, []), s)
      | stopping ↦ ((stream_stopped, []), s)
      | attached ↦
          if not s.channel
          then start_failed a runtime_error starting_now
          else elim (register_buffers w.buffers) [
            | some f ↦ start_failed a f starting_now
            | none ↦ start_registered a w starting_now
          ]
    ]

-- What Start needs of one buffer.
abbrev pub IsReady : BufferWorld → Type 0
IsReady b = (b.gets ≡ returned true) × (b.inits ≡ returned true) × (b.registers ≡ returned true)

-- What it needs in all.
pub record Starts (w : StartWorld) : Type 0 where
  pub ready : All IsReady w.buffers
  pub reserved : w.reserves ≡ true
  pub enabled : w.enables ≡ returned true
  pub unpoisoned : w.poisoned_meanwhile ≡ none

all-registered : (bs : List BufferWorld) → All IsReady bs → register_buffers bs ≡ none
unfolding register_buffers
all-registered [] v = refl
all-registered (b ∷ bs) (v, vs) = let e = all-registered bs vs in ground arith

registered-all : (bs : List BufferWorld) → register_buffers bs ≡ none → All IsReady bs
unfolding register_buffers
registered-all [] e = tt
registered-all (b ∷ bs) e =
    let rest : register_buffers bs ≡ none = ground arith in
    ((ground arith, ground arith, ground arith), registered-all bs rest)

abbrev starts : StartWorld → Bool
starts w =
    not (is_some (register_buffers w.buffers))
    && w.reserves
    && answers_true w.enables
    && not (is_some w.poisoned_meanwhile)

started :
    (a : Answers) (w : StartWorld) (q : ℕ)
    → starts w ≡ true
    → ((stream_start a w (fresh_stream q)).0.0 ≡ ok)
      × ((stream_start a w (fresh_stream q)).1.lifecycle ≡ running)
      × ((stream_start a w (fresh_stream q)).1.accepting ≡ true)
      × Filled (length w.buffers) (stream_start a w (fresh_stream q)).1.callback
unfolding stream_start start_registered fill_pools
started a w q g =
    let n = length w.buffers in
    let f = fill_pools-Filled n q in
    let c = fill_pools n (record (opened q) { lifecycle = starting }) in
    let filled : Filled n (record c { lifecycle = running }) = record {
      slots = f.slots;
      free_slots = f.free_slots;
      owners = f.owners;
      free_owners = f.free_owners;
      waiting = f.waiting;
      free_waiting = f.free_waiting;
      nothing_pending = refl;
    } in
    let state : (stream_start a w (fresh_stream q)).1.callback ≡ record c { lifecycle = running } =
      ground arith in
    (ground arith, ground arith, ground arith, subst (Filled n) (sym state) filled)

start_again :
    (a : Answers) (w : StartWorld) (s : ImageStreamState)
    → s.lifecycle ≡ running
    → ((stream_start a w s).0.0 ≡ ok) × ((stream_start a w s).1 ≡ s)
unfolding stream_start
start_again a w s r = (ground arith, ground arith)

start_dead :
    (a : Answers) (w : StartWorld) (s : ImageStreamState)
    → s.lifecycle ≡ failed
    → ((stream_start a w s).0.0 ≡ provider_failed) × ((stream_start a w s).1 ≡ s)
unfolding stream_start
start_dead a w s r = (ground arith, ground arith)

-- A teardown of a failed stream leaves it failed.
teardown-failed :
    (a : Answers) (s : ImageStreamState)
    → s.lifecycle ≡ failed
    → s.cleanup_complete ≡ false
    → ((teardown a true s).0.0 ≡ provider_failed)
      × ((teardown a true s).1.lifecycle ≡ failed)
      × ((teardown a true s).1.accepting ≡ false)
unfolding teardown logical_stop image_stream_cleanup settle_storage claim_cleanup restore_channel
    keep_storage free_storage
teardown-failed a s l c = (ground arith, ground arith, ground arith)

start_failed-failed :
    (a : Answers) (f : Fault) (s : ImageStreamState)
    → s.cleanup_complete ≡ false
    → ((start_failed a f s).0.0 ≢ ok)
      × ((start_failed a f s).1.lifecycle ≡ failed)
      × ((start_failed a f s).1.accepting ≡ false)
unfolding start_failed
start_failed-failed a f s c =
    let t =
      teardown-failed a
        (with_callback (record s.callback { accepting = false; lifecycle = failed }) s) refl c in
    (λ e. ground arith, ground (arith, t.1), ground (arith, t.2))

-- Once the buffers are registered.
start_registered-failed :
    (a : Answers) (w : StartWorld) (s : ImageStreamState)
    → s.cleanup_complete ≡ false
    → w.reserves && answers_true w.enables && not (is_some w.poisoned_meanwhile) ≡ false
    → ((start_registered a w s).0.0 ≢ ok)
      × ((start_registered a w s).1.lifecycle ≡ failed)
      × ((start_registered a w s).1.accepting ≡ false)
unfolding start_registered retain_uncertain_buffer
start_registered-failed a w s c b =
    let filled = record (with_callback (fill_pools (length w.buffers) s.callback) s) {
      enable_attempted = true;
    } in
    elim (Bool-cases w.reserves) [
      | inr no_memory ↦ ground (arith, start_failed-failed a Fault.bad_alloc s c)
      | inl reserved ↦ elim (Option-cases (demand w.enables none)) [
        | inr (f, e) ↦ ground (arith, start_failed-failed a f filled c)
        | inl e ↦ elim (Option-cases w.poisoned_meanwhile) [
          | inl nobody ↦ absurd (ground arith)
          | inr (buffer, p) ↦ ground (
            arith,
            teardown-failed a
                (image_stream_retain_failed (
                  with_callback (retain_uncertain_buffer buffer none false filled.callback) filled))
                refl c,
          )
        ]
      ]
    ]

not_started :
    (a : Answers) (w : StartWorld) (q : ℕ)
    → starts w ≡ false
    → ((stream_start a w (fresh_stream q)).0.0 ≢ ok)
      × ((stream_start a w (fresh_stream q)).1.lifecycle ≡ failed)
      × ((stream_start a w (fresh_stream q)).1.accepting ≡ false)
unfolding stream_start
not_started a w q b =
    let s = with_callback (record (opened q) { lifecycle = starting }) (fresh_stream q) in
    elim (Option-cases (register_buffers w.buffers)) [
      | inr (f, e) ↦ ground (arith, start_failed-failed a f s refl)
      | inl e ↦ ground (arith, start_registered-failed a w s refl (ground arith))
    ]

starts-Starts : (w : StartWorld) → starts w ≡ true → Starts w
starts-Starts w g = record {
  ready = registered-all w.buffers (ground arith);
  reserved = ground arith;
  enabled = ground arith;
  unpoisoned = ground arith;
}

Starts-starts : (w : StartWorld) → Starts w → starts w ≡ true
Starts-starts w v = let e = all-registered w.buffers v.ready in ground arith

-- Start either runs the stream or spends it: from a stream that Open has handed out, it returns
-- `ok` exactly when every buffer is made, initialized and registered, the pools are allocated, the
-- channel is enabled and no callback has poisoned the stream meanwhile; frames are then accepted,
-- with all slots free, and a second Start changes nothing. Else the stream has failed, accepts no
-- frame, and no Start runs it again, whatever the provider then does.
pub stream_start-settles :
    (a : Answers) (w again : StartWorld) (q : ℕ)
    → (((stream_start a w (fresh_stream q)).0.0 ≡ ok) ↔ Starts w)
      × ((Starts w
            × ((stream_start a w (fresh_stream q)).1.lifecycle ≡ running)
            × ((stream_start a w (fresh_stream q)).1.accepting ≡ true)
            × Filled (length w.buffers) (stream_start a w (fresh_stream q)).1.callback
            × ((stream_start a again (stream_start a w (fresh_stream q)).1).0.0 ≡ ok))
          ⊎ ((Starts w → ⊥)
              × ((stream_start a w (fresh_stream q)).1.lifecycle ≡ failed)
              × ((stream_start a w (fresh_stream q)).1.accepting ≡ false)
              × ((stream_start a again (stream_start a w (fresh_stream q)).1).0.0
                  ≡ provider_failed)))
      × ((stream_start a again (stream_start a w (fresh_stream q)).1).1
          ≡ (stream_start a w (fresh_stream q)).1)
stream_start-settles a w again q = elim (Bool-cases (starts w)) [
  | inl good ↦
      let (replied, run_now, open_now, filled) = started a w q good in
      let (second, same) = start_again a again (stream_start a w (fresh_stream q)).1 run_now in
      let v = starts-Starts w good in
      ((λ _. v, λ _. replied), inl (v, run_now, open_now, filled, second), same)
  | inr bad ↦
      let (not_ok, dead, closed) = not_started a w q bad in
      let (second, same) = start_dead a again (stream_start a w (fresh_stream q)).1 dead in
      let never : Starts w → ⊥ = λ v. let good = Starts-starts w v in cc in
      ((λ e. absurd (not_ok e), λ v. absurd (never v)), inr (never, dead, closed, second), same)
]
