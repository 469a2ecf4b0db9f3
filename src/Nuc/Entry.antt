-- ===== src/Nuc/Entry.antt =====
-- native/src/ir_nuc.cpp and native/src/internal/ir_nuc.hpp: the registration of the callback, and
-- the entry points.
use ams_gra_mel_bridge.Prelude.{
  ℕ, zero, suc, map, ◌++◌, ◌+◌, ◌-◌, Bool, true, false, ◌||◌, not, Option, none, some, List, [],
  ◌∷◌, length, min, ◌==◌, if◌then◌else◌, is_some, codes, ◌≡◌, ◌≢◌, ◌↔◌, ◌⊎◌, refl, ap, ◌∙◌, arith,
}
use mathlib.Core.Option
use ams_gra_mel_bridge.Diagnostic.{Diagnostic, store, bad_diagnostic}
use ams_gra_mel_bridge.Provider.{
  Status, ok, invalid_argument, timeout, stream_stopped, provider_failed, provider_exception,
  internal_error, Call, returned, threw,
}
use ams_gra_mel_bridge.CommonRequests.Complete.{
  IrReturn, return_success, not_supported, ProviderReturn, known_return, other_return,
}
use ams_gra_mel_bridge.Health.{MetadataCounters}
use ams_gra_mel_bridge.Nuc.{NucState, active, failed, stopped, inactive, is_active, deactivate}

-- `nuc_diagnostic`, which cuts a text wherever the buffer ends.
unfoldable pub nuc_diagnostic : List ℕ → Diagnostic → Diagnostic
nuc_diagnostic text d = record d {
  buffer =
      Option.map
        (λ old.
          if d.capacity == 0 then old else store text (min (length text) (d.capacity - 1)) old)
        d.buffer;
  required = Option.map (λ _. length text + 1) d.required;
}

-- `nuc_map_return`
abbrev pub nuc_map_return : ProviderReturn → Option IrReturn
nuc_map_return (known_return value) = some value
nuc_map_return (other_return n) = none

-- What Open leaves: the status, whether it has published an owner, `registration`, and the text.
pub record Opened (A : Type 0) : Type 0 where
  pub status : Status
  pub published : Bool
  pub registration : Option IrReturn
  pub state : NucState A
  pub diagnostic : Diagnostic

abbrev is_not_supported : IrReturn → Bool
is_not_supported not_supported = true
is_not_supported _ = false

-- `registration` is written when the caller wants it.
abbrev pub written : Option IrReturn → IrReturn → Option IrReturn
written none value = none
written (some old) value = some value

module _ {A : Type 0} where
  abbrev pub refused : Status → List ℕ → Option IrReturn → NucState A → Diagnostic → Opened A
  refused status text registration s d = record {
    status = status;
    published = false;
    registration = registration;
    state = deactivate s;
    diagnostic = nuc_diagnostic text d;
  }

  -- From the end of the registration on, which `s` is the state at: the provider may call back
  -- meanwhile.
  unfoldable pub open_nuc_owner :
      Bool → Call ProviderReturn → Option IrReturn → NucState A → Diagnostic → Opened A
  open_nuc_owner allocates register registration s d =
      if not allocates
      then refused internal_error (codes "NUC_TempData metadata allocation failed") registration s d
      else elim register [
        | threw f ↦
            refused provider_exception (codes "provider exception during NUC_TempData registration")
              registration s d
        | returned result ↦ elim (nuc_map_return result) [
          | some return_success ↦ record {
            status = ok;
            published = true;
            registration = written registration return_success;
            state = s;
            diagnostic = d;
          }
          | some value ↦
              refused provider_failed
                (if is_not_supported value
                  then codes "provider does not support optional NUC_TempData callback"
                  else codes "NUC_TempData callback registration failed")
                (written registration value) s d
          | none ↦
              refused provider_failed (codes "NUC_TempData callback registration failed")
                registration s d
        ]
      ]

  -- `ams_mel_ir_nuc_receive` from the end of its wait on: the event is taken once its owner is
  -- allocated.
  unfoldable pub take_event :
      Bool → NucState A → Diagnostic → Status × Option A × NucState A × Diagnostic
  take_event allocates s d = elim s.queue [
    | event ∷ rest ↦ if allocates then (ok, some event, record s { queue = rest }, d) else (
      internal_error,
      none,
      s,
      nuc_diagnostic (codes "NUC_TempData metadata receive failed") d,
    )
    | [] ↦ elim s.lifecycle [
      | failed ↦
          (provider_failed, none, s, nuc_diagnostic (codes "NUC_TempData channel cleanup failed") d)
      | active ↦ (timeout, none, s, d)
      | inactive ↦ (stream_stopped, none, s, d)
      | stopped ↦ (stream_stopped, none, s, d)
    ]
  ]

  -- Whether the wait is over: it waits only on an active, empty queue, and only when it has the time.
  abbrev pub wait_over : NucState A → Bool
  wait_over s = not (length s.queue == 0) || not (is_active s.lifecycle)

  -- `ams_mel_ir_nuc_receive`. `owner` is the state when the wait is over, `none` without a metadata
  -- or its state; `slot` is what the caller's output holds, `none` for a null pointer.
  unfoldable pub nuc_receive :
      Bool
      → Option (NucState A)
      → Option (Option A)
      → Diagnostic
      → Status × Option A × Option (NucState A) × Diagnostic
  unfolding take_event
  nuc_receive allocates owner slot d0 =
      let d = nuc_diagnostic [] d0 in
      elim slot [
        | none ↦ (invalid_argument, none, owner, d)
        | some (some taken) ↦ (invalid_argument, some taken, owner, d)
        | some none ↦ elim owner [
          | none ↦ (invalid_argument, none, none, d)
          | some s ↦
              let (status, event, s', d') = take_event allocates s d in
              if bad_diagnostic d0
              then (invalid_argument, none, some s, d)
              else (status, event, some s', d')
        ]
      ]

  -- `ams_mel_ir_nuc_get_counters`: `locks` is whether the mutex can be locked.
  unfoldable pub nuc_get_counters :
      Bool
      → Option (NucState A)
      → Option MetadataCounters
      → Diagnostic
      → Status × Option MetadataCounters × Diagnostic
  nuc_get_counters locks owner out d0 =
      let d = nuc_diagnostic [] d0 in
      elim owner [
        | none ↦ (invalid_argument, out, d)
        | some s ↦
            if not (is_some out) || bad_diagnostic d0
            then (invalid_argument, out, d)
            else if locks
            then (ok, some s.counters, d)
            else (internal_error, out, d)
      ]

  -- `ams_mel_ir_nuc_close`: the slot, `none` for a null pointer, and the state, which the callback
  -- keeps.
  unfoldable pub nuc_close :
      Option (Option (NucState A))
      → Diagnostic
      → Status × Option (Option (NucState A)) × Option (NucState A) × Diagnostic
  nuc_close slot d0 =
      let d = nuc_diagnostic [] d0 in
      elim slot [
        | none ↦ (invalid_argument, none, none, d)
        | some owner ↦
            if bad_diagnostic d0
            then (invalid_argument, some owner, owner, d)
            else (ok, some none, Option.map deactivate owner, d)
      ]

  -- `ams_mel_ir_nuc_event_view`: the event's data, null after no Receive.
  unfoldable pub nuc_event_view :
      Option A → Option (Option A) → Diagnostic → Status × Option (Option A) × Diagnostic
  nuc_event_view event out d0 =
      let d = nuc_diagnostic [] d0 in
      if not (is_some event) || (not (is_some out) || bad_diagnostic d0)
      then (invalid_argument, out, d)
      else (ok, some event, d)

  -- `ams_mel_ir_nuc_event_close`
  unfoldable pub nuc_event_close :
      Option (Option A) → Diagnostic → Status × Option (Option A) × Diagnostic
  nuc_event_close slot d0 =
      let d = nuc_diagnostic [] d0 in
      if not (is_some slot) || bad_diagnostic d0
      then (invalid_argument, slot, d)
      else (ok, some none, d)

  -- Open publishes an owner exactly when it returns `ok`, exactly when its objects are allocated
  -- and the registration returns Success; it then leaves the state as the registration left it, and
  -- otherwise the state is not active, so that no later callback queues an event.
  pub open_nuc_owner-published_iff :
      (allocates : Bool) (register : Call ProviderReturn) (registration : Option IrReturn)
      (s : NucState A) (d : Diagnostic)
      → let o = open_nuc_owner allocates register registration s d in
        ((o.published ≡ true) ↔ (o.status ≡ ok))
        × ((o.published ≡ true)
            ↔ ((allocates ≡ true) × (register ≡ returned (known_return return_success))))
        × ((o.published ≡ true) × (o.state ≡ s)
            ⊎ (o.published ≡ false) × (o.state ≡ deactivate s) × (o.state.lifecycle ≢ active))
  unfolding open_nuc_owner deactivate
  open_nuc_owner-published_iff allocates register registration s d =
      ((λ e. ground arith, λ e. ground arith), (λ e. ground arith, λ e. ground arith), ground arith)

  -- The results of `n` Receives with valid arguments, one after the other, nothing else coming between.
  unfoldable pub receives : ℕ → NucState A → Diagnostic → List (Status × Option A)
  unfolding nuc_receive take_event
  receives zero s d = []
  receives (suc n) s d =
      let r = nuc_receive true (some s) (some none) d in
      elim r.2 [ none ↦ [] | some s' ↦ (r.0, r.1) ∷ receives n s' d ]

  -- What a Receive reports at the end of a queue that nothing fills any more.
  abbrev pub end_status : NucState A → Status
  end_status s = elim s.lifecycle [ failed ↦ provider_failed | _ ↦ stream_stopped ]

  empty-receives :
      (s : NucState A) (d : Diagnostic)
      → s.queue ≡ []
      → s.lifecycle ≢ active
      → bad_diagnostic d ≡ false
      → receives 1 s d ≡ (end_status s, none) ∷ []
  unfolding receives nuc_receive take_event
  empty-receives s d e l g = ground arith

  receives-front :
      (event : A) (rest : List A) (n : ℕ) (s : NucState A) (d : Diagnostic)
      → s.queue ≡ event ∷ rest
      → bad_diagnostic d ≡ false
      → receives (suc n) s d ≡ (ok, some event) ∷ receives n (record s { queue = rest }) d
  unfolding receives nuc_receive take_event
  receives-front event rest n s d e g = ground arith

  -- A Receive that finds memory times out exactly when what it waits for has not come.
  pub take_event-timeout_iff :
      (s : NucState A) (d : Diagnostic)
      → ((take_event true s d).0 ≡ timeout) ↔ (wait_over s ≡ false)
  unfolding take_event
  take_event-timeout_iff s d = (λ e. ground arith, λ e. ground arith)

  -- Events outlive the channel: once the state is not active, Receives with valid arguments that find
  -- memory give each event that was queued, oldest first, and then, instead of waiting, that the stream has
  -- stopped, or that the provider has failed.
  pub queue-receives :
      (events : List A) (s : NucState A) (d : Diagnostic)
      → s.queue ≡ events
      → s.lifecycle ≢ active
      → bad_diagnostic d ≡ false
      → receives (suc (length events)) s d
        ≡ map (λ event. (ok, some event)) events ++ (end_status s, none) ∷ []
  queue-receives [] s d e l g = empty-receives s d e l g
  queue-receives (event ∷ rest) s d e l g =
      receives-front event rest (suc (length rest)) s d e g
      ∙ ap (◌∷◌ (ok, some event)) (queue-receives rest (record s { queue = rest }) d refl l g)
