-- ===== src/RfParent.antt =====
-- native/src/internal/rf_product_rx.hpp, RfDataState, and native/src/internal/rf_c2.hpp, RfC2State:
-- the provider object of an RF factory, which is shut down once, when its public owner is closed
-- and its last child is gone. What a thread does under the parent's mutex is one step.
pub mod Lifecycle
pub mod Once
pub mod Open
use ams_gra_mel_bridge.Prelude.{
  ℕ, ◌+◌, ◌-◌, ◌<◌, ◌≡◌, ◌⊎◌, Bool, true, false, ◌&&◌, not, List, [], ◌==◌, if◌then◌else◌,
}
use ams_gra_mel_bridge.Provider.{Status, Call, returned, threw, Fault}

-- `provider` and `library`: whether the state still holds DataMEL (or C2MEL) and its reference to
-- the shared library. `retained`: `emergency_self` is set, so the state is never destroyed.
-- `shutdowns` counts the calls of the provider's `shutdown()`; the code keeps no such count.
pub record Parent : Type 0 where
  pub provider : Bool
  pub library : Bool
  pub children : ℕ
  pub close_requested : Bool
  pub shutdown_started : Bool
  pub retained : Bool
  pub shutdowns : ℕ

-- `RfShutdownOutcome` and `C2ShutdownOutcome`.
pub record ShutdownOutcome : Type 0 where
  pub status : Status
  pub message : List ℕ

abbrev pub no_outcome : ShutdownOutcome
no_outcome = record { status = Status.ok; message = [] }

abbrev pub opened_parent : Parent
opened_parent = record {
  provider = true;
  library = true;
  children = 0;
  close_requested = false;
  shutdown_started = false;
  retained = false;
  shutdowns = 0;
}

unfoldable pub retain_forever : Parent → Parent
retain_forever p = record p { retained = true }

-- Starts the shutdown if it is due: the result says whether this thread is to run it.
abbrev claim_shutdown : Parent → Bool → Bool × Parent
claim_shutdown p due = if due then (true, record p { shutdown_started = true }) else (false, p)

-- The critical section of `release`. The count is a `size_t` of a live claim, so it is not 0.
unfoldable pub release_locked : Parent → Bool × Parent
release_locked p =
    let rest = record p { children = p.children - 1 } in
    claim_shutdown rest
      ((rest.children == 0) && (rest.close_requested && not rest.shutdown_started))

-- The critical section of Close.
unfoldable pub close_locked : Parent → Bool × Parent
close_locked p =
    let closing = record p { close_requested = true } in
    claim_shutdown closing ((closing.children == 0) && not closing.shutdown_started)

-- What differs between the two families.
pub record Family : Type 0 where
  pub acquire : Parent → Bool × Parent
  pub finish : Call (Unit {0}) → Parent → ShutdownOutcome × Parent

-- A refused child changes nothing; a granted one is counted, and only while nothing is closing. The
-- shutdown drops the provider and then the library, or retains the whole state.
pub record IsFamily (f : Family) : Type 0 where
  pub acquire_law :
      (p : Parent)
      → (((f.acquire p).0 ≡ false) × ((f.acquire p).1 ≡ p))
        ⊎ (((f.acquire p).0 ≡ true)
            × (p.close_requested ≡ false)
            × (p.shutdown_started ≡ false)
            × ((f.acquire p).1 ≡ record p { children = p.children + 1 }))
  pub finish_returned :
      (p : Parent)
      → p.provider ≡ true
      → (f.finish (returned tt) p).1
        ≡ record p { shutdowns = p.shutdowns + 1; provider = false; library = false }
  pub finish_threw :
      (p : Parent) (fault : Fault)
      → p.provider ≡ true
      → (f.finish (threw fault) p).1 ≡ record p { shutdowns = p.shutdowns + 1; retained = true }
