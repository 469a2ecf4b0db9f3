-- ===== src/RfParent/Lifecycle.antt =====
-- A parent of native/src/rf_data.cpp or native/src/rf_c2.cpp, its public owner, and the claims of
-- its children, under every interleaving of the threads that use them.
use ams_gra_mel_bridge.Prelude.{ℕ, ◌+◌, ◌-◌, ◌<◌, ◌≡◌, ◌⊎◌, Bool, true, false, arith, bit}
use ams_gra_mel_bridge.Provider.{Call, returned, threw}
use ams_gra_mel_bridge.RfParent.{
  Parent, opened_parent, retain_forever, release_locked, close_locked, Family, IsFamily,
}

-- `claims` counts the live claims, `lost` those that a failed lock left counted for ever, and
-- `finishers` the threads between the end of a critical section and `finish`.
pub record System : Type 0 where
  pub parent : Parent
  pub open parent use *
  pub owner : Bool
  pub claims : ℕ
  pub lost : ℕ
  pub finishers : ℕ
  pub close_failed : Bool

abbrev pub opened : System
opened = record {
  parent = opened_parent;
  owner = true;
  claims = 0;
  lost = 0;
  finishers = 0;
  close_failed = false;
}

-- `lost` of a lock that throws is the code's `catch (...)`.
pub data Step (f : Family) (s t : System) : Type 0 where
  acquire_granted :
      (f.acquire s.parent).0 ≡ true
      → t ≡ record s { parent = (f.acquire s.parent).1; claims = s.claims + 1 }
      → Step f s t
  acquire_refused :
      (f.acquire s.parent).0 ≡ false → t ≡ record s { parent = (f.acquire s.parent).1 } → Step f s t
  release :
      0 < s.claims
      → t ≡ record s {
        parent = (release_locked s.parent).1;
        claims = s.claims - 1;
        finishers = s.finishers + bit (release_locked s.parent).0;
      }
      → Step f s t
  release_lock_fails :
      0 < s.claims
      → t ≡ record s { parent = retain_forever s.parent; claims = s.claims - 1; lost = s.lost + 1 }
      → Step f s t
  close :
      s.owner ≡ true
      → t ≡ record s {
        parent = (close_locked s.parent).1;
        owner = false;
        finishers = s.finishers + bit (close_locked s.parent).0;
      }
      → Step f s t
  close_lock_fails :
      s.owner ≡ true
      → t ≡ record s { parent = retain_forever s.parent; owner = false; close_failed = true }
      → Step f s t
  finish :
      (shutdown : Call (Unit {0}))
      → 0 < s.finishers
      → t ≡ record s { parent = (f.finish shutdown s.parent).1; finishers = s.finishers - 1 }
      → Step f s t

pub data Reach (f : Family) : System → Type 0 where
  start : Reach f opened
  next : {s t : System} → Reach f s → Step f s t → Reach f t

pub record Inv (s : System) : Type 0 where
  pub counted : s.children ≡ s.claims + s.lost
  pub once : s.finishers + s.shutdowns ≡ bit s.shutdown_started
  pub started : s.shutdown_started ≡ true → (s.close_requested ≡ true) × (s.children ≡ 0)
  pub together : s.library ≡ s.provider
  pub alive : s.shutdowns ≡ 0 → s.provider ≡ true
  pub dropped : s.provider ≡ false → s.retained ≡ false
  pub kept : s.shutdowns ≡ 1 → s.provider ≡ true → s.retained ≡ true
  pub unclosed : s.owner ≡ true → (s.close_requested ≡ false) × (s.close_failed ≡ false)
  pub failed : s.close_failed ≡ true → s.close_requested ≡ false
  pub settled : s.owner ≡ false → (s.close_requested ≡ true) ⊎ (s.close_failed ≡ true)
  pub cause : s.retained ≡ true → (s.shutdowns ≡ 1) ⊎ ((0 < s.lost) ⊎ (s.close_failed ≡ true))
  pub lost_retained : 0 < s.lost → s.retained ≡ true
  pub failed_retained : s.close_failed ≡ true → s.retained ≡ true
  pub due : s.close_requested ≡ true → s.children ≡ 0 → s.shutdown_started ≡ true

opened-Inv : Inv opened
opened-Inv = ground arith

Step-Inv : {f : Family} {s t : System} → IsFamily f → Step f s t → Inv s → Inv t
unfolding release_locked close_locked retain_forever
Step-Inv {f} {s} {t} law (acquire_granted g e) v = ground (arith, law.acquire_law s.parent)
Step-Inv {f} {s} {t} law (acquire_refused g e) v = ground (arith, law.acquire_law s.parent)
Step-Inv {f} {s} {t} law (release g e) v = ground arith
Step-Inv {f} {s} {t} law (release_lock_fails g e) v = ground arith
Step-Inv {f} {s} {t} law (close g e) v = ground arith
Step-Inv {f} {s} {t} law (close_lock_fails g e) v = ground arith
Step-Inv {f} {s} {t} law (finish (returned u) g e) v = ground (arith, law.finish_returned s.parent)
Step-Inv {f} {s} {t} law (finish (threw x) g e) v = ground (arith, law.finish_threw s.parent x)

pub Reach-Inv : {f : Family} {s : System} → IsFamily f → Reach f s → Inv s
Reach-Inv law start = opened-Inv
Reach-Inv law (next r st) = Step-Inv law st (Reach-Inv law r)
