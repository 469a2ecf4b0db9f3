-- ===== src/ProductRx/Settle.antt =====
-- When `settle` of native/src/rf_product_rx.cpp accepts an endpoint of the provider.
use ams_gra_mel_bridge.Prelude.{ℕ, ◌≡◌, ◌≢◌, ◌↔◌, none, some, is_some, refl, arith}
use ams_gra_mel_bridge.Provider.{Call, returned, threw}
use ams_gra_mel_bridge.ProductRx.Create.{
  pending, succeeded, CreateProvider, Result, error, value, settle,
}
use ams_gra_mel_bridge.ProductRx.Request.{is_succeeded}

module _ {ℓ} {E : Type ℓ} where
  pub settle-kind : (p : CreateProvider E) (format : ℕ) → (settle p format).kind ≢ pending
  unfolding settle
  settle-kind p format e = ground arith

  pub settle-endpoint :
      (p : CreateProvider E) (format : ℕ)
      → is_some (settle p format).endpoint ≡ is_succeeded (settle p format).kind
  unfolding settle
  settle-endpoint p format = ground arith

  abbrev Accepts : CreateProvider E → ℕ → Type ℓ
  Accepts p format =
      (endpoint : E) × (id : ℕ) × (p.future ≡ returned (value (some endpoint)))
      × (p.getters endpoint ≡ returned (id, format))
      × ((settle p format).endpoint ≡ some endpoint)
      × ((settle p format).info ≡ (id, format))

  Accepts-got :
      (p : CreateProvider E) (format : ℕ) (endpoint : E) (got : Call (ℕ × ℕ))
      → p.future ≡ returned (value (some endpoint))
      → p.getters endpoint ≡ got
      → (settle p format).kind ≡ succeeded
      → Accepts p format
  unfolding settle
  Accepts-got p format endpoint (threw f) e g k = absurd (ground arith)
  Accepts-got p format endpoint (returned (id, given)) e g k =
      (endpoint, id, ground arith, ground arith, ground arith, ground arith)

  accepts :
      (p : CreateProvider E) (format : ℕ) (got : Call (Result E))
      → p.future ≡ got
      → (settle p format).kind ≡ succeeded
      → Accepts p format
  unfolding settle
  accepts p format (threw f) e k = absurd (ground arith)
  accepts p format (returned (error code text)) e k = absurd (ground arith)
  accepts p format (returned (value none)) e k = absurd (ground arith)
  accepts p format (returned (value (some endpoint))) e k =
      Accepts-got p format endpoint (p.getters endpoint) e refl k

  -- The worker always comes to an outcome; it is a success exactly when the future gives an endpoint
  -- that is not null, both getters return, and the format is the requested one. The endpoint is kept
  -- exactly then, with the identifier and the format that the getters gave.
  pub settle-Succeeds :
      (p : CreateProvider E) (format : ℕ)
      → ((settle p format).kind ≢ pending)
        × (((settle p format).kind ≡ succeeded) ↔ (
            (endpoint : E) × (id : ℕ) × (p.future ≡ returned (value (some endpoint)))
            × (p.getters endpoint ≡ returned (id, format))
            × ((settle p format).endpoint ≡ some endpoint)
            × ((settle p format).info ≡ (id, format))))
        × (((settle p format).kind ≢ succeeded) ↔ ((settle p format).endpoint ≡ none))
  unfolding settle
  settle-Succeeds p format = (
    settle-kind p format,
    (accepts p format p.future refl, λ (endpoint, id, e, g, _, _). ground arith),
    (λ e. ground arith, λ e. ground arith),
  )
