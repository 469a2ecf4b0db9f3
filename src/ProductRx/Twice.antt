-- ===== src/ProductRx/Twice.antt =====
-- A second Claim of one request of native/src/rf_product_rx.cpp.
use ams_gra_mel_bridge.Prelude.{◌≡◌, ◌≢◌, Bool, true, false, arith}
use ams_gra_mel_bridge.Diagnostic.{Diagnostic}
use ams_gra_mel_bridge.Provider.{ok}
use ams_gra_mel_bridge.ProductRx.Request.{Completion, claim_locked, cache_failure}
use ams_gra_mel_bridge.ProductRx.Entry.{Registration, nothing, request_claim}

-- After a Claim that has reached the provider's registration, whether that returned or threw, every
-- further Claim of the request fails, without a registration, takes nothing and changes nothing.
pub claim_registers_once {ℓ} :
    {E : Type ℓ} (first second : Registration) (c : Completion E) (slots slots' : Bool)
    (d d' : Diagnostic)
    → (request_claim first c slots d).registered ≡ true
    → let again = request_claim second (request_claim first c slots d).completion slots' d' in
      (again.status ≢ ok)
      × (again.registered ≡ false)
      × (again.fate ≡ nothing)
      × (again.completion ≡ (request_claim first c slots d).completion)
unfolding request_claim claim_locked cache_failure
claim_registers_once first second c slots slots' d d' r = ground arith
