-- ===== src/IrStream/Requests.antt =====
-- native/src/ir_stream.cpp: the requests that use an image stream's channel, and the claims of its
-- metadata owners.
use ams_gra_mel_bridge.Prelude.{
  ℕ, zero, suc, ◌+◌, ◌-◌, ◌≡◌, refl, ◌∙◌, ap, subst, Bool, true, false, not, ◌&&◌, ◌||◌, Option,
  some, [], ◌==◌, if◌then◌else◌, arith,
}
use ams_gra_mel_bridge.Provider.{ok}
use ams_gra_mel_bridge.IrStream.Callback.{Lifecycle, attached, running, stopping, terminal}
use ams_gra_mel_bridge.IrStream.Stream.{ImageStreamState, image_stream_retain_failed, logical_stop}
use ams_gra_mel_bridge.IrStream.Entry.{
  Answers, is_cleanup_failed, finish_deferred_cleanup, release_frames, discard_queued_frames,
  teardown, stream_stop, stream_close,
}
use ams_gra_mel_bridge.IrStream.Closing.{Calm, Freed, finish-Freed}

abbrev takes_requests : Lifecycle → Bool
takes_requests attached = true
takes_requests running = true
takes_requests _ = false

-- `claim_navigation_submission`, and the same in `common_from_stream`.
unfoldable pub claim_navigation_submission : ImageStreamState → Bool × ImageStreamState
claim_navigation_submission s =
    if s.channel && takes_requests s.lifecycle
    then (true, record s { requests = s.requests + 1 })
    else (false, s)

-- A request that could not be sent after all.
unfoldable pub release_navigation_submission : ImageStreamState → ImageStreamState
release_navigation_submission s = record s { requests = s.requests - 1 }

-- `finish_image_request`: whether a cleanup that it has done did not fail.
unfoldable pub finish_image_request : Answers → ImageStreamState → Bool × ImageStreamState
unfolding finish_deferred_cleanup
finish_image_request w s =
    if s.requests == 0
    then (false, image_stream_retain_failed s)
    else (let (outcome, t) =
          finish_deferred_cleanup w false (record s { requests = s.requests - 1 }) in
        (not (is_cleanup_failed outcome), t))

-- The place of one of the three metadata owners, each a number.
pub record OwnerPlace : Type 0 where
  pub attempted : Bool
  pub owner : Option ℕ

-- `claim_image_metadata`, `claim_image_nuc` and `claim_image_camera_response`, each on its place.
unfoldable pub claim_image_owner : ImageStreamState → ℕ → OwnerPlace → Bool × OwnerPlace
claim_image_owner s owner place =
    if not s.channel || terminal s.lifecycle || place.attempted
    then (false, place)
    else (true, record { attempted = true; owner = some owner })

-- So many requests are claimed, or finished, one after the other: whether each went well.
pub claim_requests : ℕ → ImageStreamState → Bool × ImageStreamState
claim_requests zero s = (true, s)
claim_requests (suc n) s =
    let (done, s') = claim_navigation_submission s in
    let (others, t) = claim_requests n s' in (done && others, t)

pub finish_requests : Answers → ℕ → ImageStreamState → Bool × ImageStreamState
finish_requests w zero s = (true, s)
finish_requests w (suc n) s =
    let (done, s') = finish_image_request w s in
    let (others, t) = finish_requests w n s' in (done && others, t)

-- Nothing is in the way but `r` requests.
record Asked (r : ℕ) (l : Lifecycle) (s : ImageStreamState) : Type 0 where
  calm : Calm 0 l (record s { requests = 0 })
  asked : s.requests ≡ r

claim-Asked :
    (r : ℕ) (s : ImageStreamState)
    → Asked r running s
    → ((claim_navigation_submission s).0 ≡ true)
      × Asked (suc r) running (claim_navigation_submission s).1
      × ((claim_navigation_submission s).1.queue ≡ s.queue)
unfolding claim_navigation_submission
claim-Asked r s a = (ground arith, ground arith, ground arith)

claims-Asked :
    (n r : ℕ) (s : ImageStreamState)
    → Asked r running s
    → ((claim_requests n s).0 ≡ true)
      × Asked (n + r) running (claim_requests n s).1
      × ((claim_requests n s).1.queue ≡ s.queue)
unfolding claim_requests
claims-Asked zero r s a = (refl, subst (λ k. Asked k running s) (omega arith) a, refl)
claims-Asked (suc n) r s a =
    let (done, more, same) = claim-Asked r s a in
    let (others, all, kept) = claims-Asked n (suc r) (claim_navigation_submission s).1 more in
    (
      ground arith,
      subst (λ k. Asked k running (claim_requests n (claim_navigation_submission s).1).1)
          (omega arith) all,
      ground arith,
    )

close-Asked :
    (w : Answers) (r : ℕ) (s : ImageStreamState)
    → s.queue ≡ []
    → Asked (suc r) running s
    → ((stream_close w s).0 ≡ (ok, []))
      × ((stream_close w s).1 ≡ true)
      × Asked (suc r) stopping (stream_close w s).2
unfolding stream_close stream_stop teardown logical_stop discard_queued_frames release_frames
    finish_deferred_cleanup
close-Asked w r s q a = (ground arith, ground arith, ground arith)

finish-Asked :
    (w : Answers) (r : ℕ) (s : ImageStreamState)
    → Asked (suc (suc r)) stopping s
    → ((finish_image_request w s).0 ≡ true)
      × Asked (suc r) stopping (finish_image_request w s).1
      × ((finish_image_request w s).1 ≡ record s { requests = s.requests - 1 })
unfolding finish_image_request finish_deferred_cleanup
finish-Asked w r s a = (ground arith, ground arith, ground arith)

finishes-Asked :
    (w : Answers) (n : ℕ) (s : ImageStreamState)
    → Asked (suc n) stopping s
    → ((finish_requests w n s).0 ≡ true)
      × Asked 1 stopping (finish_requests w n s).1
      × ((finish_requests w n s).1 ≡ record s { requests = 1 })
unfolding finish_requests
finishes-Asked w zero s a = (refl, a, ap (λ k. record s { requests = k }) a.asked)
finishes-Asked w (suc n) s a =
    let (done, fewer, less) = finish-Asked w n s a in
    let (others, last, same) = finishes-Asked w n (finish_image_request w s).1 fewer in
    (ground arith, last, same ∙ ap (λ (t : ImageStreamState). record t { requests = 1 }) less)

last-Freed :
    (w : Answers) (s : ImageStreamState)
    → w.disables ≡ true
    → w.detaches ≡ true
    → Asked 1 stopping s
    → ((finish_image_request w s).0 ≡ true) × Freed (finish_image_request w s).1
unfolding finish_image_request
last-Freed w s d e a =
    let fewer : Calm 0 stopping (record s { requests = s.requests - 1 }) =
      subst (λ n. Calm 0 stopping (record s { requests = n })) (omega (arith, a.asked)) a.calm in
    let (good, gone) = finish-Freed w d e false (record s { requests = s.requests - 1 }) fewer in
    (ground arith, ground arith)

-- Requests outlive Close, and the last one tears the stream down: from a running stream on which no
-- wrapper is out, no release has failed or is running, and no request is out, any number of
-- requests, at least one, can be claimed; Close then returns `ok`, clears the caller's handle, and
-- keeps the channel and the host bytes; no request is claimed any more; all requests but the last
-- end well and change nothing of the stream but its count of requests, which is then 1; and the last
-- ends well, and the channel is gone and the host bytes are freed, with a provider whose `disable`
-- and `detachChannel` succeed.
pub close-finish_requests :
    (w : Answers) (r : ℕ) (s : ImageStreamState)
    → w.disables ≡ true
    → w.detaches ≡ true
    → s.queue ≡ []
    → Calm 0 running s
    → let claimed = claim_requests (suc r) s in
      let closed = stream_close w claimed.1 in
      let early = finish_requests w r closed.2 in
      (claimed.0 ≡ true)
      × (closed.0 ≡ (ok, []))
      × (closed.1 ≡ true)
      × ((claim_navigation_submission closed.2).0 ≡ false)
      × (early.0 ≡ true)
      × (early.1 ≡ record closed.2 { requests = 1 })
      × (early.1.channel ≡ true)
      × (early.1.storage ≡ true)
      × ((finish_image_request w early.1).0 ≡ true)
      × Freed (finish_image_request w early.1).1
unfolding claim_navigation_submission
close-finish_requests w r s d e q c =
    let (all, more, kept) =
      claims-Asked (suc r) 0 s (record { calm = ground arith; asked = c.unasked }) in
    let claimed = (claim_requests (suc r) s).1 in
    let (replied, cleared, quiet) =
      close-Asked w r claimed (ground arith)
        (subst (λ k. Asked k running claimed) (omega arith) more) in
    let (early, last, same) = finishes-Asked w r (stream_close w claimed).2 quiet in
    let (done, gone) = last-Freed w (finish_requests w r (stream_close w claimed).2).1 d e last in
    (all, replied, cleared, ground arith, early, same, ground arith, ground arith, done, gone)
