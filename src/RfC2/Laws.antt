-- ===== src/RfC2/Laws.antt =====
-- The C2MEL owner of native/src/rf_c2.cpp as a parent of RfParent.
use ams_gra_mel_bridge.Prelude.{
  size_max, ℕ, ◌≤◌, ◌≡◌, ◌+◌, ◌↔◌, ◌⊎◌, inl, inr, true, false, some, List, arith, Bool-cases, ◌==◌,
}
use ams_gra_mel_bridge.RfParent.{Parent, IsFamily, retain_forever}
use ams_gra_mel_bridge.RfC2.{acquire_locked, finish_c2_shutdown, c2_family, acquire_sibling}

-- The C2MEL functions are a family of RfParent, so all that RfParent proves of the shutdown holds of
-- them.
pub c2_family-IsFamily : (bad_alloc_what : List ℕ) → IsFamily (c2_family bad_alloc_what)
unfolding acquire_locked finish_c2_shutdown retain_forever
c2_family-IsFamily bad_alloc_what = record {
  acquire_law = λ p. elim (Bool-cases p.close_requested) [
    | inl e ↦ inl (ground arith, ground arith)
    | inr e ↦ elim (Bool-cases p.shutdown_started) [
      | inl e' ↦ inl (ground arith, ground arith)
      | inr e' ↦ elim (Bool-cases (p.children == size_max)) [
        | inl full ↦ inl (ground arith, ground arith)
        | inr room ↦ inr (ground arith)
      ]
    ]
  ];
  finish_returned = λ p h. ground arith;
  finish_threw = λ p fault h. ground arith;
}

-- `acquire_sibling` on a claim that is held, into one that is not: it succeeds exactly when the
-- parent is neither closing nor shutting down and one more child fits a `size_t`; the new claim is
-- held exactly then, the parent counts exactly one child more, and on refusal nothing changes.
pub acquire_sibling-counts :
    (p : Parent)
    → p.children ≤ size_max
    → let r = acquire_sibling true false true p in
      ((r.0 ≡ true) ↔ (
        (p.close_requested ≡ false) × (p.shutdown_started ≡ false) × (p.children + 1 ≤ size_max)))
      × (r.1 ≡ r.0)
      × (((r.0 ≡ true) × (r.2 ≡ some (record p { children = p.children + 1 })))
          ⊎ ((r.0 ≡ false) × (r.2 ≡ some p)))
unfolding acquire_sibling
acquire_sibling-counts p h = (
  (λ e. ground arith, λ e. ground arith),
  ground arith,
  elim (Bool-cases (acquire_locked p).0) [
    | inl e ↦ inl (ground arith)
    | inr e ↦ inr (ground arith)
  ],
)
