-- ===== src/RfParent/Once.antt =====
-- The shutdown of a parent of native/src/rf_data.cpp or native/src/rf_c2.cpp: once, last, and always.
use ams_gra_mel_bridge.Prelude.{
  ℕ, zero, suc, ◌+◌, ◌-◌, ◌<◌, ◌≡◌, refl, ◌⊎◌, inl, inr, true, false, arith, Bool-cases,
}
use native.Mathlib.Decide.{dec_lt}
use ams_gra_mel_bridge.Provider.{Call}
use ams_gra_mel_bridge.RfParent.{Family, IsFamily}
use ams_gra_mel_bridge.RfParent.Lifecycle.{System, Reach, next, Step, release, finish, Reach-Inv}

-- `shutdown()` is called at most once, and if it is called, or about to be, the public owner is
-- gone, Close is recorded, and no child holds a claim.
pub shutdown_once :
    {f : Family} {s : System}
    → IsFamily f
    → Reach f s
    → (s.finishers + s.shutdowns ≡ 0)
      ⊎ ((s.finishers + s.shutdowns ≡ 1)
          × (s.owner ≡ false)
          × (s.close_requested ≡ true)
          × (s.claims ≡ 0))
shutdown_once {s = s} law r =
    let v = Reach-Inv law r in
    elim (Bool-cases s.shutdown_started) [ inl e ↦ inr (ground arith) | inr e ↦ inl (ground arith) ]

-- While a child holds its claim, the provider object and its library are alive and `shutdown()` has
-- not been called, so the child may use them.
pub claim_keeps_provider :
    {f : Family} {s : System}
    → IsFamily f
    → Reach f s
    → 0 < s.claims
    → (s.provider ≡ true) × (s.library ≡ true) × (s.shutdowns ≡ 0) × (s.finishers ≡ 0)
claim_keeps_provider law r h = let v = Reach-Inv law r in ground arith

-- A lock that failed, in a release or in Close, keeps the provider and its library for ever: they
-- are alive, retained, and never shut down.
pub lost_is_retained :
    {f : Family} {s : System}
    → IsFamily f
    → Reach f s
    → (0 < s.lost) ⊎ (s.close_failed ≡ true)
    → (s.provider ≡ true) × (s.library ≡ true) × (s.retained ≡ true) × (s.shutdowns ≡ 0)
lost_is_retained law r (inl h) = let v = Reach-Inv law r in ground arith
lost_is_retained law r (inr h) = let v = Reach-Inv law r in ground arith

abbrev pub Ended : System → Type 0
Ended s =
    (s.shutdowns ≡ 1)
    × (((s.provider ≡ false) × (s.library ≡ false))
        ⊎ ((s.provider ≡ true) × (s.library ≡ true) × (s.retained ≡ true)))

-- Once the owner is closed, no lock has failed, no claim is left and no thread is still finishing,
-- `shutdown()` has been called, and either both the provider and its library reference are dropped
-- or, after a throw, both are alive and retained.
pub quiet-Ended :
    {f : Family} {s : System}
    → IsFamily f
    → Reach f s
    → s.owner ≡ false
    → s.close_failed ≡ false
    → s.claims ≡ 0
    → s.lost ≡ 0
    → s.finishers ≡ 0
    → Ended s
quiet-Ended {s = s} law r o c k l q =
    let v = Reach-Inv law r in
    (
      ground arith,
      elim (Bool-cases s.provider) [ inl e ↦ inr (ground arith) | inr e ↦ inl (ground arith) ],
    )

-- The steps of threads that give up what they hold: the release of a claim, whose lock can be
-- taken, and the shutdown, of which the provider makes `shutdown`.
abbrev pub Unwinding : Call (Unit {0}) → {f : Family} {s t : System} → Step f s t → Type 0
Unwinding shutdown (release g e) = Unit
Unwinding shutdown (finish answer g e) = answer ≡ shutdown
Unwinding shutdown _ = ⊥

-- A run of such steps.
pub data Unwinds (shutdown : Call (Unit {0})) (f : Family) (s : System) : System → Type 0 where
  stay : Unwinds shutdown f s s
  unwind :
      {t u : System}
      → Unwinds shutdown f s t
      → (st : Step f t u) → Unwinding shutdown st
      → Unwinds shutdown f s u

abbrev Drained : Call (Unit {0}) → Family → System → Type 0
Drained shutdown f o =
    (t : System) × Unwinds shutdown f o t
    × (t.owner ≡ false)
    × (t.claims ≡ 0)
    × (t.finishers ≡ 0)
    × Ended t

module _ {f : Family} (law : IsFamily f) (shutdown : Call (Unit {0})) where
  -- The pending shutdown runs.
  finish_pending :
      {o s : System}
      → Unwinds shutdown f o s
      → Reach f s
      → s.owner ≡ false
      → s.close_failed ≡ false
      → s.claims ≡ 0
      → s.lost ≡ 0
      → Drained shutdown f o
  finish_pending {s = s} d r o c k l = elim (dec_lt 0 s.finishers) [
    | yes some_left ↦
        let r' = next r (finish shutdown some_left refl) in
        let quiet : s.finishers - 1 ≡ 0 = omega (arith, shutdown_once law r) in
        (
          _,
          unwind d (finish shutdown some_left refl) refl,
          o,
          k,
          quiet,
          quiet-Ended law r' o c k l quiet,
        )
    | no none_left ↦
        let quiet : s.finishers ≡ 0 = omega arith in
        (s, d, o, k, quiet, quiet-Ended law r o c k l quiet)
  ]

  drain :
      (n : ℕ) {o : System} (s : System)
      → Unwinds shutdown f o s
      → Reach f s
      → s.owner ≡ false
      → s.close_failed ≡ false
      → s.claims ≡ n
      → s.lost ≡ 0
      → Drained shutdown f o
  drain zero s d r o c k l = finish_pending d r o c k l
  drain (suc n) s d r o c k l =
      let st : Step f s _ = release (omega arith) refl in
      drain n _ (unwind d st tt) (next r st) o c (ground arith) l

-- Nothing can block the shutdown: from every reachable state in which the owner is closed and no
-- lock has failed, whatever `shutdown()` then makes of its call, the releases of the claims that are
-- left, and the shutdown, and no other steps, lead from that state to one with no claim in which
-- `shutdown()` has been called.
pub shutdown_reachable :
    {f : Family} {s : System} (shutdown : Call (Unit {0}))
    → IsFamily f
    → Reach f s
    → s.owner ≡ false
    → s.close_failed ≡ false
    → s.lost ≡ 0
    → (t : System) × Unwinds shutdown f s t
      × (t.owner ≡ false)
      × (t.claims ≡ 0)
      × (t.finishers ≡ 0)
      × Ended t
shutdown_reachable {s = s} shutdown law r o c l = drain law shutdown s.claims s stay r o c refl l
