-- ===== src/ProductRx/Submit.antt =====
-- native/src/rf_product_rx.cpp, `submit_product_rx`, which the nine entry points
-- `ams_mel_rf_data_submit_product_rx` to `..._v9` call with their version.
use ams_gra_mel_bridge.Prelude.{
  size_max, ℕ, Bool, true, false, ◌||◌, not, Option, none, some, List, ltb, leb, ◌==◌,
  if◌then◌else◌, codes,
}
use ams_gra_mel_bridge.Diagnostic.{Diagnostic, write_diagnostic, clear_diagnostic, bad_diagnostic}
use ams_gra_mel_bridge.Provider.{
  Status, ok, invalid_argument, provider_failed, internal_error, Call, returned, threw,
  translate_provider_exception,
}
use ams_gra_mel_bridge.RfParent.{Parent}
use ams_gra_mel_bridge.RfData.{acquire_child, release_child}

-- `ams_mel_rf_product_rx_config_v1`
pub record Config : Type 0 where
  pub data_format : ℕ
  pub region_size_bytes : ℕ
  pub queue_capacity : ℕ
  pub max_samples_per_event : ℕ

-- What the call meets: whether the bridge's own objects can be allocated, whether the parent's mutex
-- can be locked at the acquire and at a release, what `createProductRxEndpoint` does (it returns
-- whether the future is valid), and whether the worker can be launched. The two last fields are for
-- a shutdown at the release.
pub record Circumstances : Type 0 where
  pub allocates : Bool
  pub acquire_locks : Bool
  pub release_locks : Bool
  pub create : Call Bool
  pub launches : Bool
  pub shutdown : Call (Unit {0})
  pub bad_alloc_what : List ℕ

-- `retained` is whether the future is retained with the child claim, for ever.
pub record Submitted : Type 0 where
  pub status : Status
  pub published : Bool
  pub retained : Bool
  pub parent : Parent
  pub diagnostic : Diagnostic

abbrev minimum_format : ℕ → ℕ
minimum_format version = if version == 1 then 3 else if version == 2 then 2 else 0

abbrev maximum_format : ℕ → ℕ
maximum_format version = if leb 7 version then 7 else if leb 4 version then version else 3

abbrev refused : Parent → Status → Diagnostic → Submitted
refused p status d = record {
  status = status;
  published = false;
  retained = false;
  parent = p;
  diagnostic = d;
}

-- From the provider call on, with the child claim held.
pub submit_acquired : Circumstances → Parent → Diagnostic → Submitted
submit_acquired w p d =
    let back = (release_child w.bad_alloc_what true w.release_locks w.shutdown p).1 in
    elim w.create [
      | threw f ↦
          let (status, told) =
            translate_provider_exception (codes "provider createProductRxEndpoint exception")
              (codes "unknown provider createProductRxEndpoint exception") f d in
          refused back status told
      | returned false ↦
          refused back provider_failed (
            write_diagnostic (codes "malformed provider result: invalid ProductRxEndpoint future")
              d)
      | returned true ↦
          if w.launches
          then record {
            status = ok;
            published = true;
            retained = false;
            parent = p;
            diagnostic = d;
          }
          else record {
            status = internal_error;
            published = false;
            retained = true;
            parent = p;
            diagnostic =
                write_diagnostic
                  (codes "RF ProductRx create worker launch failed; provider future retained") d;
          }
    ]

-- For the state of an owner that is there. A null configuration, a slot that is null or taken, and
-- a parent without its provider are refused without a text, as is an owner that is not there.
unfoldable pub submit_product_rx :
    Circumstances → Parent → Option Config → Bool → Diagnostic → ℕ → Submitted
unfolding submit_acquired
submit_product_rx w p none slot_free d version = refused p invalid_argument (clear_diagnostic d)
submit_product_rx w p (some config) slot_free d0 version =
    let d = clear_diagnostic d0 in
    let (granted, _, p') = acquire_child false w.acquire_locks p in
    if bad_diagnostic d0 || not slot_free
    then refused p invalid_argument d
    else if ltb config.data_format (minimum_format version)
        || ltb (maximum_format version) config.data_format
    then refused p invalid_argument
        (write_diagnostic (codes "unsupported ProductRx format for submit version") d)
    else if (config.queue_capacity == 0)
        || ((config.max_samples_per_event == 0) || not (leb config.region_size_bytes size_max))
    then refused p invalid_argument
        (write_diagnostic (codes "invalid RF ProductRx configuration") d)
    else if not p.provider
    then refused p invalid_argument d
    else if not w.allocates
    then refused p internal_error
        (write_diagnostic (codes "allocation failed before provider create") d)
    else if not granted
    then refused p' internal_error (write_diagnostic (codes "RF DataMEL is closing") d)
    else submit_acquired w p' d
