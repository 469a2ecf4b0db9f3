-- ===== src/RfC2.antt =====
-- native/src/rf_c2.cpp: the RF C2MEL owner and RfC2ChildClaim. A claim may also count a sibling, and
-- the count of the children may not pass the range of `size_t`.
pub mod Laws
use ams_gra_mel_bridge.Prelude.{
  ℕ, ◌+◌, ◌-◌, ◌^◌, Bool, true, false, ◌&&◌, ◌||◌, not, Option, none, some, List, [], ◌==◌,
  if◌then◌else◌, is_some, codes, size_max,
}
use ams_gra_mel_bridge.Utf8.{valid_utf8}
use ams_gra_mel_bridge.Diagnostic.{Diagnostic, write_diagnostic, clear_diagnostic, bad_diagnostic}
use ams_gra_mel_bridge.Provider.{
  Status, ok, invalid_argument, internal_error, provider_exception, Fault, Call, returned, threw,
}
use ams_gra_mel_bridge.RfParent.{
  Parent, opened_parent, ShutdownOutcome, no_outcome, retain_forever, release_locked, close_locked,
  Family,
}
use ams_gra_mel_bridge.RfParent.Open.{RfProvider, OpenArguments, open_family}

-- The text kept of a throwing `shutdown()`: an empty `what()` is valid, and is kept.
abbrev shutdown_what : Option (List ℕ) → List ℕ
shutdown_what none = codes "provider shutdown exception"
shutdown_what (some what) =
    if valid_utf8 what true then what else codes "provider shutdown exception"

pub c2_shutdown_outcome : List ℕ → Fault → ShutdownOutcome
c2_shutdown_outcome bad_alloc_what Fault.bad_alloc = record {
  status = internal_error;
  message = shutdown_what (some bad_alloc_what);
}
c2_shutdown_outcome bad_alloc_what (Fault.exception what) = record {
  status = provider_exception;
  message = shutdown_what what;
}
c2_shutdown_outcome bad_alloc_what Fault.unknown = record {
  status = provider_exception;
  message = codes "unknown provider shutdown exception";
}

pub finish_c2_shutdown : List ℕ → Call (Unit {0}) → Parent → ShutdownOutcome × Parent
unfolding c2_shutdown_outcome
finish_c2_shutdown bad_alloc_what shutdown p = elim shutdown [
  | returned _ ↦
      (no_outcome, record p { shutdowns = p.shutdowns + 1; provider = false; library = false })
  | threw f ↦ (
    c2_shutdown_outcome bad_alloc_what f,
    record (retain_forever p) { shutdowns = p.shutdowns + 1 },
  )
]

-- `RfC2ChildClaim::acquire` under the parent's mutex.
pub acquire_locked : Parent → Bool × Parent
acquire_locked p =
    if p.close_requested || (p.shutdown_started || (p.children == size_max))
    then (false, p)
    else (true, record p { children = p.children + 1 })

abbrev pub c2_family : List ℕ → Family
c2_family bad_alloc_what = record {
  acquire = acquire_locked;
  finish = finish_c2_shutdown bad_alloc_what;
}

-- `RfC2ChildClaim::acquire` into a claim that may be held, and whose parent may be null.
pub acquire_child : Bool → Bool → Option Parent → Bool × Bool × Option Parent
unfolding acquire_locked
acquire_child held locks none = (false, held, none)
acquire_child held locks (some p) =
    let (granted, p') = acquire_locked p in
    if held || not locks then (false, held, some p) else (granted, granted, some p')

-- `acquire_sibling`: a claim counts one more on its own parent, if it holds one.
pub acquire_sibling : Bool → Bool → Bool → Parent → Bool × Bool × Option Parent
unfolding acquire_child
acquire_sibling held output_held locks p =
    acquire_child output_held locks (if held then some p else none)

pub release_child : List ℕ → Bool → Bool → Call (Unit {0}) → Parent → ShutdownOutcome × Parent
unfolding finish_c2_shutdown
release_child bad_alloc_what held locks shutdown p =
    let (now, p') = release_locked p in
    if not held
    then (no_outcome, p)
    else if not locks
    then (record { status = internal_error; message = [] }, retain_forever p)
    else if now
    then finish_c2_shutdown bad_alloc_what shutdown p'
    else (no_outcome, p')

pub rf_c2_open :
    RfProvider → OpenArguments Parent → Diagnostic → Status × Option Parent × Diagnostic
rf_c2_open = open_family opened_parent (codes "createC2MEL") (codes "createC2MEL returned null")

-- What Close does with the state it has taken out of the owner.
pub close_parent :
    List ℕ → Bool → Call (Unit {0}) → Parent → Diagnostic → Status × Parent × Diagnostic
unfolding finish_c2_shutdown
close_parent bad_alloc_what locks shutdown p d =
    let (now, p') = close_locked p in
    let (outcome, done) = finish_c2_shutdown bad_alloc_what shutdown p' in
    if not p.provider
    then (ok, p, d)
    else if not locks
    then (
      internal_error,
      retain_forever p,
      write_diagnostic (codes "C2 close lock failed; provider retained") d,
    )
    else if now
    then (outcome.status, done, write_diagnostic outcome.message d)
    else (ok, p', d)

-- `ams_mel_rf_c2_close`, with the slot as in RfData.
pub rf_c2_close :
    List ℕ
    → Bool
    → Call (Unit {0})
    → Option (Option Parent)
    → Diagnostic
    → Status × Option (Option Parent) × Option Parent × Diagnostic
unfolding close_parent
rf_c2_close bad_alloc_what locks shutdown none d =
    (invalid_argument, none, none, write_diagnostic (codes "invalid argument") (clear_diagnostic d))
rf_c2_close bad_alloc_what locks shutdown (some none) d =
    if bad_diagnostic d
    then (
      invalid_argument,
      some none,
      none,
      write_diagnostic (codes "invalid argument") (clear_diagnostic d),
    )
    else (ok, some none, none, clear_diagnostic d)
rf_c2_close bad_alloc_what locks shutdown (some (some p)) d =
    let (s, p', d') = close_parent bad_alloc_what locks shutdown p (clear_diagnostic d) in
    if bad_diagnostic d
    then (
      invalid_argument,
      some (some p),
      some p,
      write_diagnostic (codes "invalid argument") (clear_diagnostic d),
    )
    else (s, some none, some p', d')
