-- ===== src/Tests/Shutdown.antt =====
-- The shutdown of an RF parent, as native/src/rf_data.cpp and native/src/rf_c2.cpp run it.
use ams_gra_mel_bridge.Prelude.{ℕ, ◌+◌, ◌≡◌, refl, ◌⊎◌, true, false, some, none, List, arith, codes}
use ams_gra_mel_bridge.Diagnostic.{Diagnostic}
use ams_gra_mel_bridge.Provider.{returned, threw, unknown}
use ams_gra_mel_bridge.RfParent.{
  Parent, opened_parent, retain_forever, release_locked, close_locked, Family,
}
use ams_gra_mel_bridge.RfParent.Lifecycle.{
  System, Reach, start, next, acquire_granted, release, release_lock_fails, close, finish,
}
use ams_gra_mel_bridge.RfParent.Once.{
  Ended, shutdown_once, claim_keeps_provider, shutdown_reachable, Unwinds,
}
use ams_gra_mel_bridge.RfParent.Open.{RfProvider, OpenArguments}
use ams_gra_mel_bridge.RfData.{acquire_locked, rf_finish_shutdown, data_family, close_parent}
use ams_gra_mel_bridge.RfData.Laws.{
  data_family-IsFamily, Closes, closed_state, Within, close_parent-Closes,
}

abbrev bad_alloc_what : List ℕ
bad_alloc_what = codes "std::bad_alloc"

abbrev rf_data : Family
rf_data = data_family bad_alloc_what

abbrev no_text : Diagnostic
no_text = record { buffer = none; capacity = 0; required = none }

abbrev parent_with : ℕ → Parent
parent_with n = record opened_parent { children = n }

-- One child holds a claim and the owner is open.
abbrev one_claim : System
one_claim = record {
  parent = parent_with 1;
  owner = true;
  claims = 1;
  lost = 0;
  finishers = 0;
  close_failed = false;
}

one_claim-Reach : Reach rf_data one_claim
unfolding acquire_locked
one_claim-Reach = next start (acquire_granted refl refl)

-- The owner is closed while the child still holds its claim.
abbrev closing : System
closing = record one_claim {
  parent = record (parent_with 1) { close_requested = true };
  owner = false;
}

closing-Reach : Reach rf_data closing
unfolding close_locked
closing-Reach = next one_claim-Reach (close refl refl)

-- The child has released its claim and run the shutdown.
abbrev ended : System
ended = record closing {
  parent = record opened_parent {
    close_requested = true;
    shutdown_started = true;
    provider = false;
    library = false;
    shutdowns = 1;
  };
  claims = 0;
}

ended-Reach : Reach rf_data ended
unfolding release_locked rf_finish_shutdown
ended-Reach =
    next (next closing-Reach (release (omega arith) refl)) (finish (returned tt) (omega arith) refl)

-- The child's release could not lock the mutex.
abbrev stuck : System
stuck = record one_claim {
  parent = record (parent_with 1) { retained = true };
  claims = 0;
  lost = 1;
}

stuck-Reach : Reach rf_data stuck
unfolding retain_forever
stuck-Reach = next one_claim-Reach (release_lock_fails (omega arith) refl)

shutdown_once_example :
    (ended.finishers + ended.shutdowns ≡ 0)
    ⊎ ((ended.finishers + ended.shutdowns ≡ 1)
        × (ended.owner ≡ false)
        × (ended.close_requested ≡ true)
        × (ended.claims ≡ 0))
shutdown_once_example = shutdown_once (data_family-IsFamily bad_alloc_what) ended-Reach

claim_keeps_provider_example :
    (closing.provider ≡ true)
    × (closing.library ≡ true)
    × (closing.shutdowns ≡ 0)
    × (closing.finishers ≡ 0)
claim_keeps_provider_example =
    claim_keeps_provider (data_family-IsFamily bad_alloc_what) closing-Reach (omega arith)

shutdown_reachable_example :
    (t : System) × Unwinds (returned tt) rf_data closing t
    × (t.owner ≡ false)
    × (t.claims ≡ 0)
    × (t.finishers ≡ 0)
    × Ended t
shutdown_reachable_example =
    shutdown_reachable (returned tt) (data_family-IsFamily bad_alloc_what) closing-Reach refl refl
      refl

close_parent-Closes_example :
    let r = close_parent bad_alloc_what true (threw unknown) one_claim.parent no_text in
    Within bad_alloc_what one_claim (closed_state r.1 true one_claim)
    × Closes true (threw unknown) one_claim r.0 r.1
close_parent-Closes_example =
    close_parent-Closes bad_alloc_what true (threw unknown) no_text one_claim one_claim-Reach refl

abbrev working : RfProvider
working = record {
  loader = record {
    allocates = true;
    handle = true;
    load_error = none;
    symbol_error = λ _. none;
    address = λ _. true;
  };
  allocates = true;
  factory = returned true;
}

abbrev arguments : OpenArguments Parent
arguments = record {
  library_path = some (codes "libdata.so");
  configuration = some (codes "default");
  out_owner = some none;
}
