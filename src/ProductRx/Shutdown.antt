-- ===== src/ProductRx/Shutdown.antt =====
-- The close of an endpoint of native/src/rf_product_rx.cpp: the provider's endpoint object outlives
-- the callbacks that may read from it, and the close comes to its end.
use ams_gra_mel_bridge.Prelude.{
  ℕ, zero, suc, ◌-◌, ◌<◌, ◌≡◌, refl, ◌∙◌, ◌⊎◌, Bool, true, false, none, [], ◌++◌, arith, append-nil,
}
use ams_gra_mel_bridge.Provider.{stream_stopped}
use ams_gra_mel_bridge.ProductRx.Callback.{
  closed, CallbackState, Built, callback_enters, callback_leaves, logical_close, receive,
}
use ams_gra_mel_bridge.ProductRx.Interleaving.{
  ClosePhase, unclosed, draining, drained_out, destroyed, claim_released, retained, System, Step,
  enter, leave, take, close, drain, destroy_endpoint, release_claim, close_lock_fails,
  drain_lock_fails, Reach, start, next,
}
use ams_gra_mel_bridge.ProductRx.Queue.{Inv, Reach-Inv}

-- Whether the provider's endpoint object is still there, and whether the child claim is still held.
abbrev pub endpoint_alive : ClosePhase → Bool
endpoint_alive destroyed = false
endpoint_alive claim_released = false
endpoint_alive _ = true

abbrev pub claim_held : ClosePhase → Bool
claim_held claim_released = false
claim_held _ = true

-- Whether Close has set the lifecycle, and whether it has come out of the drain.
abbrev past_close : ClosePhase → Bool
past_close unclosed = false
past_close retained = false
past_close _ = true

abbrev past_drain : ClosePhase → Bool
past_drain drained_out = true
past_drain destroyed = true
past_drain claim_released = true
past_drain _ = false

-- No such step.
pub data Never {ℓ} : Type ℓ where

module _ {ℓ} {A : Type ℓ} where
  record Closing (s : System A) : Type ℓ where
    pub shut : (past_close s.phase ≡ false) ⊎ (s.lifecycle ≡ closed)
    pub quiet : (past_drain s.phase ≡ false) ⊎ (s.bodies ≡ 0)

  Step-Closing : {capacity : ℕ} {s t : System A} → Step s t → Inv capacity s → Closing s → Closing t
  unfolding callback_enters callback_leaves logical_close receive
  Step-Closing (enter e) v c = ground arith
  Step-Closing (leave pushes built new g a e) v c = ground arith
  Step-Closing (take e) v c = ground arith
  Step-Closing (close g e) v c = ground arith
  Step-Closing (drain g h e) v c = ground arith
  Step-Closing (destroy_endpoint g e) v c = ground arith
  Step-Closing (release_claim g e) v c = ground arith
  Step-Closing (close_lock_fails g e) v c = ground arith
  Step-Closing (drain_lock_fails g e) v c = ground arith

  Reach-Closing : {capacity : ℕ} {s : System A} → Reach capacity s → Closing s
  Reach-Closing start = ground arith
  Reach-Closing (next r st) = Step-Closing st (Reach-Inv r) (Reach-Closing r)

  -- While a callback is between its two critical sections, and so may read the provider's data, the
  -- provider's endpoint object is alive and the child claim that keeps the provider is held.
  pub body_keeps_endpoint :
      {capacity : ℕ} {s : System A}
      → Reach capacity s
      → 0 < s.bodies
      → (endpoint_alive s.phase ≡ true) × (claim_held s.phase ≡ true)
  body_keeps_endpoint r h = let c = Reach-Closing r in ground arith

  -- Once the endpoint object is destroyed, a callback that the provider still makes turns back at
  -- its first critical section, before it reads any data, the queue holds no product, and Receive
  -- reports that the stream has stopped and changes nothing.
  pub destroyed_is_deaf :
      {capacity : ℕ} {s : System A}
      → Reach capacity s
      → endpoint_alive s.phase ≡ false
      → ((callback_enters s.state).0 ≡ false)
        × ((callback_enters s.state).1.in_flight ≡ s.in_flight)
        × (s.queue ≡ [])
        × (receive s.state ≡ (stream_stopped, none, s.state))
  unfolding callback_enters receive
  destroyed_is_deaf r h = let c = Reach-Closing r in let v = Reach-Inv r in ground arith

  callback_leaves-closed :
      (pushes : Bool) (built : Built A) (s : CallbackState A)
      → s.lifecycle ≡ closed
      → s.queue ≡ []
      → ((callback_leaves pushes built s).queue ≡ s.queue ++ [])
        × ((callback_leaves pushes built s).in_flight ≡ s.in_flight - 1)
        × ((callback_leaves pushes built s).lifecycle ≡ closed)
  unfolding callback_leaves
  callback_leaves-closed pushes built s c e = ground arith

  -- The steps that a close waits for and takes: a callback that leaves, of which `outcomes` says what
  -- it has built when that many others are left, and the closing thread.
  abbrev pub Unwinding : (ℕ → Bool × Built A) → {s t : System A} → Step s t → Type ℓ
  Unwinding outcomes {s} (leave pushes built new g a e) = (pushes, built) ≡ outcomes (s.bodies - 1)
  Unwinding outcomes (drain g h e) = Unit
  Unwinding outcomes (destroy_endpoint g e) = Unit
  Unwinding outcomes (release_claim g e) = Unit
  Unwinding outcomes _ = Never

  -- A run of such steps.
  pub data Unwinds (outcomes : ℕ → Bool × Built A) (s : System A) : System A → Type ℓ where
    stay : Unwinds outcomes s s
    unwind :
        {t u : System A}
        → Unwinds outcomes s t
        → (st : Step t u) → Unwinding outcomes st
        → Unwinds outcomes s u

  abbrev Released : (ℕ → Bool × Built A) → System A → System A → Type ℓ
  Released outcomes o s =
      (t : System A) × Unwinds outcomes o t
      × (t.phase ≡ claim_released)
      × (t.bodies ≡ 0)
      × (t.stored ≡ s.stored)
      × (t.delivered ≡ s.delivered)

  -- The bodies leave one after the other.
  leave_all :
      {capacity : ℕ} (outcomes : ℕ → Bool × Built A) (n : ℕ) {o : System A} (s : System A)
      → Unwinds outcomes o s
      → Reach capacity s
      → s.phase ≡ draining
      → s.bodies ≡ n
      → Released outcomes o s
  leave_all outcomes zero s d r p b =
      let v = Reach-Inv r in
      let d₁ = unwind d (drain p (ground arith) refl) tt in
      let d₂ = unwind d₁ (destroy_endpoint refl refl) tt in
      (_, unwind d₂ (release_claim refl refl) tt, refl, b, refl, refl)
  leave_all outcomes (suc n) s d r p b =
      let v = Reach-Inv r in
      let c = Reach-Closing r in
      let pushes = (outcomes (s.bodies - 1)).0 in
      let built = (outcomes (s.bodies - 1)).1 in
      let (same, less, still) =
        callback_leaves-closed pushes built s.state (ground arith) (ground arith) in
      let st : Step s _ = leave pushes built [] (omega arith) same refl in
      let (t, d', ph, quiet, kept, dl) =
        leave_all outcomes n _ (unwind d st refl) (next r st) p (omega arith) in
      (t, d', ph, quiet, kept ∙ append-nil s.stored, dl)

  -- A close never waits for ever on the callbacks in their bodies: from every reachable state in which
  -- it drains, as each of them leaves, whatever it has built, and with no other step but its own, the
  -- drain ends, the endpoint is destroyed and the child claim released, without a product queued or
  -- delivered after Close.
  pub close_completes :
      {capacity : ℕ} {s : System A} (outcomes : ℕ → Bool × Built A)
      → Reach capacity s
      → s.phase ≡ draining
      → (t : System A) × Unwinds outcomes s t
        × (t.phase ≡ claim_released)
        × (t.bodies ≡ 0)
        × (t.stored ≡ s.stored)
        × (t.delivered ≡ s.delivered)
  close_completes {s = s} outcomes r p = leave_all outcomes s.bodies s stay r p refl
