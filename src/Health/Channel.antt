-- ===== src/Health/Channel.antt =====
-- native/src/ir_health.cpp, HealthState: the health channel with its requests and its cleanup, each
-- call from its start to its return when no other thread comes between and no callback is running.
-- The owner of NUC temperatures is not modelled.
use ams_gra_mel_bridge.Prelude.{
  ℕ, zero, suc, ◌+◌, ◌-◌, ◌≡◌, refl, ◌↔◌, Bool, true, false, not, ◌&&◌, ◌||◌, Option, List, [],
  ◌==◌, if◌then◌else◌, codes, arith,
}
use mathlib.Core.Option
use ams_gra_mel_bridge.Provider.{
  Status, ok, provider_failed, provider_exception, Call, returned, threw,
}
use ams_gra_mel_bridge.Health.{MetadataState, fail, deactivate, stop_metadata}

pub data HealthLifecycle : Type 0 where
  attached enabled failed closed : HealthLifecycle

-- `metadata` is the state of the events, where one has been opened.
pub record HealthState (A : Type 0) : Type 0 where
  pub channel : Bool
  pub metadata : Option (MetadataState A)
  pub lifecycle : HealthLifecycle
  pub requests : ℕ
  pub enable_attempted : Bool
  pub cleanup_started : Bool
  pub retained : Bool

-- Whether `disable` and `detachChannel` return Success.
pub record HealthAnswers : Type 0 where
  pub disables : Bool
  pub detaches : Bool

abbrev usable : HealthLifecycle → Bool
usable attached = true
usable enabled = true
usable _ = false

abbrev is_closed : HealthLifecycle → Bool
is_closed closed = true
is_closed _ = false

abbrev pub HealthReply : Type 0
HealthReply = Status × List ℕ

module _ {A : Type 0} where
  -- `ams_mel_ir_health_enable`
  unfoldable pub health_enable : Call Bool → HealthState A → HealthReply × HealthState A
  health_enable enables s = elim s.lifecycle [
    | enabled ↦ ((ok, []), s)
    | failed ↦ ((provider_failed, []), s)
    | closed ↦ ((provider_failed, []), s)
    | attached ↦
        let tried = record s { enable_attempted = true } in
        elim enables [
          | returned true ↦ ((ok, []), record tried { lifecycle = enabled })
          | returned false ↦
              ((provider_failed, codes "Health enable failed"), record tried { lifecycle = failed })
          | threw f ↦ (
            (provider_exception, codes "provider exception during Health enable"),
            record tried { lifecycle = failed },
          )
        ]
  ]

  -- The claim of a request, in `common_from_health`.
  unfoldable pub claim_health_request : HealthState A → Bool × HealthState A
  claim_health_request s =
      if usable s.lifecycle && s.channel
      then (true, record s { requests = s.requests + 1 })
      else (false, s)

  -- What `cleanup` has set when it calls the provider.
  abbrev cleaning : HealthState A → HealthState A
  cleaning s = record s { cleanup_started = true; metadata = Option.map deactivate s.metadata }

  unfoldable pub cleanup : HealthAnswers → Bool → HealthState A → Bool × HealthState A
  cleanup w retain_orphan s =
      if not (s.requests == 0)
      then (false, s)
      else if s.cleanup_started
      then (not s.channel, s)
      else if s.channel && not w.detaches
      then (
        false,
        record (cleaning s) {
          cleanup_started = false;
          metadata = Option.map fail (Option.map deactivate s.metadata);
          retained = retain_orphan || s.retained;
        },
      )
      else (
        not (s.enable_attempted && s.channel) || w.disables,
        record (cleaning s) {
          channel = false;
          lifecycle = closed;
          enable_attempted = false;
          metadata = Option.map stop_metadata (Option.map deactivate s.metadata);
        },
      )

  -- Of a request that was claimed.
  unfoldable pub finish_health_request : HealthAnswers → HealthState A → Bool × HealthState A
  unfolding cleanup
  finish_health_request w s =
      let fewer = record s { requests = s.requests - 1 } in
      if fewer.requests == 0 && is_closed fewer.lifecycle
      then cleanup w true fewer
      else (true, fewer)

  -- `ams_mel_ir_health_close` of an open channel: the reply, whether the caller's handle is
  -- cleared, and the state.
  unfoldable pub health_close : HealthAnswers → HealthState A → HealthReply × Bool × HealthState A
  unfolding cleanup
  health_close w s =
      let closing = record s { lifecycle = closed; metadata = Option.map deactivate s.metadata } in
      if not (s.requests == 0)
      then ((ok, []), true, closing)
      else (let (done, t) = cleanup w false closing in
          if t.channel
          then ((provider_failed, codes "Health detach failed; provider state retained"), false, t)
          else if not done
          then ((provider_failed, codes "Health disable failed"), true, t)
          else ((ok, []), true, t))

  -- So many requests end, one after the other: whether each ended well.
  pub finish_health_requests : HealthAnswers → ℕ → HealthState A → Bool × HealthState A
  finish_health_requests w zero s = (true, s)
  finish_health_requests w (suc n) s =
      let (done, s') = finish_health_request w s in
      let (others, t) = finish_health_requests w n s' in (done && others, t)

  -- A Close that could not detach can be made again: with no request out, a Close whose
  -- `detachChannel` fails returns `provider_failed`, and keeps the caller's handle and the channel;
  -- a second Close, when the provider detaches, clears the handle, and the channel is gone; it
  -- returns `ok` exactly when the channel was never to be enabled or `disable` succeeds.
  pub health_close_twice :
      (first second : HealthAnswers) (s : HealthState A)
      → s.requests ≡ 0
      → s.channel ≡ true
      → s.cleanup_started ≡ false
      → first.detaches ≡ false
      → second.detaches ≡ true
      → let one = health_close first s in
        let two = health_close second one.2 in
        (one.0.0 ≡ provider_failed)
        × (one.1 ≡ false)
        × (one.2.channel ≡ true)
        × (two.1 ≡ true)
        × (two.2.channel ≡ false)
        × (two.2.retained ≡ s.retained)
        × ((two.0.0 ≡ ok) ↔ ((not s.enable_attempted || second.disables) ≡ true))
  unfolding health_close cleanup
  health_close_twice first second s r c n f g = (
    ground arith,
    ground arith,
    ground arith,
    ground arith,
    ground arith,
    ground arith,
    (λ e. ground arith, λ e. ground arith),
  )

  -- Close has been called, and `r` requests are out.
  record Deferred (r : ℕ) (s t : HealthState A) : Type 0 where
    asked : t.requests ≡ r
    there : t.channel ≡ true
    idle : t.cleanup_started ≡ false
    over : t.lifecycle ≡ closed
    owed : t.enable_attempted ≡ s.enable_attempted
    kept : t.retained ≡ s.retained

  finish-Deferred :
      (w : HealthAnswers) (r : ℕ) (s t : HealthState A)
      → Deferred (suc (suc r)) s t
      → ((finish_health_request w t).0 ≡ true) × Deferred (suc r) s (finish_health_request w t).1
  unfolding finish_health_request
  finish-Deferred w r s t d = (ground arith, ground arith)

  finishes-Deferred :
      (w : HealthAnswers) (n : ℕ) (s t : HealthState A)
      → Deferred (suc n) s t
      → ((finish_health_requests w n t).0 ≡ true) × Deferred 1 s (finish_health_requests w n t).1
  unfolding finish_health_requests
  finishes-Deferred w zero s t d = (refl, d)
  finishes-Deferred w (suc n) s t d =
      let (done, fewer) = finish-Deferred w n s t d in
      let (others, last) = finishes-Deferred w n s (finish_health_request w t).1 fewer in
      (ground arith, last)

  close-Deferred :
      (w : HealthAnswers) (r : ℕ) (s : HealthState A)
      → s.requests ≡ suc r
      → s.channel ≡ true
      → s.cleanup_started ≡ false
      → ((health_close w s).0 ≡ (ok, []))
        × ((health_close w s).1 ≡ true)
        × Deferred (suc r) s (health_close w s).2
  unfolding health_close
  close-Deferred w r s a c n = (ground arith, ground arith, ground arith)

  last-Deferred :
      (w : HealthAnswers) (s t : HealthState A)
      → Deferred 1 s t
      → ((finish_health_request w t).1.channel ≡ not w.detaches)
        × ((finish_health_request w t).1.retained ≡ (not w.detaches || s.retained))
        × ((finish_health_request w t).0 ≡ (w.detaches && (not s.enable_attempted || w.disables)))
  unfolding finish_health_request cleanup
  last-Deferred w s t d = (ground arith, ground arith, ground arith)

  -- Requests outlive the Close of a health channel: a Close with at least one request out returns
  -- `ok`, clears the caller's handle and keeps the channel, and no request is claimed any more; all
  -- requests but the last end well and keep the channel; the last one detaches it, which goes well
  -- exactly when `detachChannel` succeeds, and `disable` where the channel was to be enabled; and a
  -- channel that is not detached is retained for ever.
  pub close-finish_health_requests :
      (w : HealthAnswers) (r : ℕ) (s : HealthState A)
      → s.requests ≡ suc r
      → s.channel ≡ true
      → s.cleanup_started ≡ false
      → let shut = health_close w s in
        let early = finish_health_requests w r shut.2 in
        let last = finish_health_request w early.1 in
        (shut.0 ≡ (ok, []))
        × (shut.1 ≡ true)
        × ((claim_health_request shut.2).0 ≡ false)
        × (early.0 ≡ true)
        × (early.1.channel ≡ true)
        × (last.1.channel ≡ not w.detaches)
        × (last.1.retained ≡ (not w.detaches || s.retained))
        × (last.0 ≡ (w.detaches && (not s.enable_attempted || w.disables)))
  unfolding claim_health_request
  close-finish_health_requests w r s a c n =
      let (replied, cleared, quiet) = close-Deferred w r s a c n in
      let (early, one) = finishes-Deferred w r s (health_close w s).2 quiet in
      let (gone, kept, well) =
        last-Deferred w s (finish_health_requests w r (health_close w s).2).1 one in
      (replied, cleared, ground arith, early, ground arith, gone, kept, well)
