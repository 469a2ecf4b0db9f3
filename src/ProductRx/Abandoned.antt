-- ===== src/ProductRx/Abandoned.antt =====
-- The end of a create request of native/src/rf_product_rx.cpp that is closed without a claim.
use ams_gra_mel_bridge.Prelude.{ℕ, ◌≡◌, refl, ◌∙◌, inl, inr, true, false, arith, Bool-cases}
use ams_gra_mel_bridge.ProductRx.Create.{CreateProvider, WorkerOutcome, settle}
use ams_gra_mel_bridge.ProductRx.Request.{is_succeeded, take_claim, publish_outcome, take_abandoned}
use ams_gra_mel_bridge.ProductRx.Ownership.{
  WorkerPhase, settling, waiting, dropping, dropped, finished, releasing, publishing, System, Reach,
  next, Step, settle_fails, release_failed, publish_failure, settle_succeeds, wake, drop_endpoint,
  release_abandoned,
}
use ams_gra_mel_bridge.ProductRx.Claims.{Reach-Inv}

module _ {ℓ} {E : Type ℓ} (p : CreateProvider E) (format : ℕ) where
  -- The steps of the worker.
  abbrev pub Working : {s t : System E} → Step p format s t → Type 0
  Working (settle_fails w k e) = Unit
  Working (release_failed w e) = Unit
  Working (publish_failure w e) = Unit
  Working (settle_succeeds w k e) = Unit
  Working (wake w k e) = Unit
  Working (drop_endpoint w e) = Unit
  Working (release_abandoned w e) = Unit
  Working _ = ⊥

  -- A run of the worker alone.
  pub data Works (s : System E) : System E → Type ℓ where
    stay : Works s s
    work : {t u : System E} → Works s t → (st : Step p format t u) → Working st → Works s u

  abbrev Ends : System E → Type ℓ
  Ends o = (t : System E) × Works o t × (t.released ≡ 1) × (t.registrations ≡ 0)

  end_dropped :
      {o : System E} (s : System E)
      → Works o s
      → Reach p format s
      → s.worker ≡ dropped
      → s.claimed ≡ false
      → Ends o
  end_dropped s d r w u =
      let v = Reach-Inv r in (_, work d (release_abandoned w refl) tt, ground arith, ground arith)

  end_dropping :
      {o : System E} (s : System E)
      → Works o s
      → Reach p format s
      → s.worker ≡ dropping
      → s.claimed ≡ false
      → Ends o
  end_dropping s d r w u =
      let st : Step p format s _ = drop_endpoint w refl in
      end_dropped _ (work d st tt) (next r st) refl u

  take_abandoned-claimed :
      (s : System E) → s.claimed ≡ false → (take_abandoned s.completion).2.claimed ≡ false
  unfolding take_abandoned
  take_abandoned-claimed s u = ground arith

  end_waiting :
      {o : System E} (s : System E)
      → Works o s
      → Reach p format s
      → s.worker ≡ waiting
      → s.claimed ≡ false
      → s.abandoned ≡ true
      → Ends o
  end_waiting s d r w u a =
      let st : Step p format s _ = wake w (ground arith) refl in
      end_dropping _ (work d st tt) (next r st) refl (take_abandoned-claimed s u)

  end_releasing :
      {b : System E} (s : System E) (o : WorkerOutcome E)
      → Works b s
      → Reach p format s
      → s.worker ≡ releasing o
      → s.claimed ≡ false
      → Ends b
  end_releasing s o d r w u =
      let v = Reach-Inv r in (_, work d (release_failed w refl) tt, ground arith, ground arith)

  publish_outcome-marks :
      (o : WorkerOutcome E) (s : System E)
      → ((publish_outcome o s.completion).claimed ≡ s.claimed)
        × ((publish_outcome o s.completion).abandoned ≡ s.abandoned)
  unfolding publish_outcome
  publish_outcome-marks o s = ground arith

  take_claim-claimed : (s : System E) → (take_claim s.completion).1.claimed ≡ s.claimed
  unfolding take_claim
  take_claim-claimed s = refl

  end_settling :
      {o : System E} (s : System E)
      → Works o s
      → Reach p format s
      → s.worker ≡ settling
      → s.claimed ≡ false
      → s.abandoned ≡ true
      → Ends o
  end_settling s d r w u a = elim (Bool-cases (is_succeeded (settle p format).kind)) [
    | inl good ↦
        let (c, b) = publish_outcome-marks (settle p format) s in
        let st : Step p format s _ = settle_succeeds w good refl in
        end_waiting _ (work d st tt) (next r st) refl (c ∙ u) (b ∙ a)
    | inr bad ↦
        let st : Step p format s _ = settle_fails w bad refl in
        end_releasing _ (settle p format) (work d st tt) (next r st) refl (take_claim-claimed s ∙ u)
  ]

  end_by_phase :
      (w : WorkerPhase E) {o : System E} (s : System E)
      → Works o s
      → Reach p format s
      → s.worker ≡ w
      → s.claimed ≡ false
      → s.abandoned ≡ true
      → Ends o
  end_by_phase settling s d r w u a = end_settling s d r w u a
  end_by_phase waiting s d r w u a = end_waiting s d r w u a
  end_by_phase dropping s d r w u a = end_dropping s d r w u
  end_by_phase dropped s d r w u a = end_dropped s d r w u
  end_by_phase (releasing o) s d r w u a = end_releasing s o d r w u
  end_by_phase (publishing o) s d r w u a =
      let v = Reach-Inv r in (s, d, ground arith, ground arith)
  end_by_phase finished s d r w u a = let v = Reach-Inv r in (s, d, ground arith, ground arith)

-- A request that is closed before it is claimed does not keep its child claim: in whatever state the
-- worker is, its own next steps, and no others, lead to the release of the claim, once, and no callback
-- is registered.
pub abandoned_ends {ℓ} :
    {E : Type ℓ} {p : CreateProvider E} {format : ℕ} {s : System E}
    → Reach p format s
    → s.claimed ≡ false
    → s.abandoned ≡ true
    → (t : System E) × Works p format s t × (t.released ≡ 1) × (t.registrations ≡ 0)
abandoned_ends {p = p} {format = format} {s = s} r u a =
    end_by_phase p format s.worker s stay r refl u a
