-- ===== src/ProductRx/Admit.antt =====
-- What `submit_product_rx` of native/src/rf_product_rx.cpp accepts, and what it leaves of its parent.
use ams_gra_mel_bridge.Prelude.{
  size_max, ℕ, ◌+◌, ◌≡◌, ◌≤◌, ◌<◌, ◌⊎◌, ◌↔◌, Bool, true, false, Option, some, arith,
}
use ams_gra_mel_bridge.Diagnostic.{Diagnostic, bad_diagnostic}
use ams_gra_mel_bridge.Provider.{ok, returned, translate_provider_exception}
use ams_gra_mel_bridge.RfParent.{Parent, release_locked}
use ams_gra_mel_bridge.RfData.{acquire_locked, acquire_child, release_child}
use ams_gra_mel_bridge.ProductRx.Submit.{Config, Circumstances, submit_product_rx}

-- Each version of the entry point adds formats to the one before it: at first only ComplexINT16,
-- then ComplexINT8, the direct ones, and from version 4 to 7 the four sizes of VITA packets.
abbrev pub Allowed : ℕ → ℕ → Type 0
Allowed version format =
    ((version ≡ 1) × (format ≡ 3))
    ⊎ (((version ≡ 2) × (2 ≤ format) × (format ≤ 3))
        ⊎ (((version ≡ 3) × (format ≤ 3))
            ⊎ (((4 ≤ version) × (version ≤ 6) × (format ≤ version))
                ⊎ ((7 ≤ version) × (format ≤ 7)))))

-- All that a submission needs.
pub record Admits (w : Circumstances) (p : Parent) (config : Config) (version : ℕ) : Type 0 where
  pub format : Allowed version config.data_format
  pub queue : 0 < config.queue_capacity
  pub samples : 0 < config.max_samples_per_event
  pub region : config.region_size_bytes ≤ size_max
  pub provider : p.provider ≡ true
  pub allocates : w.allocates ≡ true
  pub locks : w.acquire_locks ≡ true
  pub not_closing : p.close_requested ≡ false
  pub not_started : p.shutdown_started ≡ false
  pub created : w.create ≡ returned true
  pub launched : w.launches ≡ true

-- A submission by any of the nine versions, with a free slot and a valid diagnostic, succeeds exactly
-- when the format is one that the version knows, the capacities are not 0, the region size fits
-- `size_t`, the parent has its provider and is not closing, the provider gives a valid future, and
-- no allocation, lock or thread fails; a request is published exactly then.
pub submit_product_rx-ok_iff :
    (w : Circumstances) (p : Parent) (config : Config) (d : Diagnostic) (version : ℕ)
    → 1 ≤ version
    → bad_diagnostic d ≡ false
    → let r = submit_product_rx w p (some config) true d version in
      ((r.status ≡ ok) ↔ Admits w p config version) × ((r.status ≡ ok) ↔ (r.published ≡ true))
unfolding submit_product_rx acquire_child acquire_locked translate_provider_exception
submit_product_rx-ok_iff w p config d version v b =
    ((λ e. ground arith, λ e. ground arith), (λ e. ground arith, λ e. ground arith))

-- However a submission ends, the parent counts one child more if a request is published, or if the
-- future of a failed launch is retained, and else it is as before; while the mutex can be locked
-- again at the release.
pub submit_product_rx-counts :
    (w : Circumstances) (p : Parent) (config : Option Config) (free : Bool) (d : Diagnostic)
    (version : ℕ)
    → w.release_locks ≡ true
    → let r = submit_product_rx w p config free d version in
      (((r.published ≡ true) ⊎ (r.retained ≡ true))
        × (r.parent ≡ record p { children = p.children + 1 }))
      ⊎ ((r.published ≡ false) × (r.retained ≡ false) × (r.parent ≡ p))
unfolding submit_product_rx acquire_child acquire_locked translate_provider_exception release_child
    release_locked
submit_product_rx-counts w p config free d version l = ground arith
