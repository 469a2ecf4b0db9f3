-- ===== src/RfData/Laws.antt =====
-- The DataMEL owner of native/src/rf_data.cpp as a parent of RfParent, and its Close as a run.
use ams_gra_mel_bridge.Prelude.{
  ℕ, ◌+◌, ◌<◌, ◌≡◌, refl, ◌⊎◌, inl, inr, not, Bool, true, false, List, arith, Bool-cases,
}
use ams_gra_mel_bridge.Provider.{
  Status, ok, internal_error, provider_exception, Fault, Call, returned, threw,
}
use ams_gra_mel_bridge.Diagnostic.{Diagnostic}
use ams_gra_mel_bridge.RfParent.{Parent, IsFamily, retain_forever, close_locked}
use ams_gra_mel_bridge.RfParent.Lifecycle.{
  Step, Inv, System, Reach, close, close_lock_fails, finish, Reach-Inv,
}
use ams_gra_mel_bridge.RfData.{acquire_locked, rf_finish_shutdown, data_family, close_parent}

-- The DataMEL functions are a family of RfParent, so all that RfParent proves of the shutdown holds
-- of them.
pub data_family-IsFamily : (bad_alloc_what : List ℕ) → IsFamily (data_family bad_alloc_what)
unfolding acquire_locked rf_finish_shutdown retain_forever
data_family-IsFamily bad_alloc_what = record {
  acquire_law = λ p. elim (Bool-cases p.close_requested) [
    | inl e ↦ inl (ground arith, ground arith)
    | inr e ↦ elim (Bool-cases p.shutdown_started) [
      | inl e' ↦ inl (ground arith, ground arith)
      | inr e' ↦ inr (ground arith)
    ]
  ];
  finish_returned = λ p h. ground arith;
  finish_threw = λ p fault h. ground arith;
}

-- What a Close on the DataMEL owner, which returns `status` and leaves the parent `p`, has done in the
-- state `s`.
abbrev pub Closes : Bool → Call (Unit {0}) → System → Status → Parent → Type 0
Closes locks shutdown s status p =
    ((locks ≡ false) × (status ≡ internal_error) × (p ≡ record s.parent { retained = true }))
    ⊎ (((locks ≡ true)
          × (0 < s.claims + s.lost)
          × (status ≡ ok)
          × (p ≡ record s.parent { close_requested = true }))
        ⊎ (((locks ≡ true)
              × (s.claims + s.lost ≡ 0)
              × (shutdown ≡ returned tt)
              × (status ≡ ok)
              × (p ≡ record s.parent {
                close_requested = true;
                shutdown_started = true;
                shutdowns = 1;
                provider = false;
                library = false;
              }))
            ⊎ ((locks ≡ true)
                × (s.claims + s.lost ≡ 0)
                × ((fault : Fault) × (shutdown ≡ threw fault))
                × (status ≡ provider_exception)
                × (p ≡ record s.parent {
                  close_requested = true;
                  shutdown_started = true;
                  shutdowns = 1;
                  retained = true;
                }))))

-- The state after it, in which no other thread has moved.
abbrev pub closed_state : Parent → Bool → System → System
closed_state p locks s = record s { parent = p; owner = false; close_failed = not locks }

-- One step of the interleaved system, or two.
abbrev pub Within : List ℕ → System → System → Type 0
Within bad_alloc_what s t =
    Step (data_family bad_alloc_what) s t
    ⊎ ((between : System) × Step (data_family bad_alloc_what) s between
        × Step (data_family bad_alloc_what) between t)

close_parent-closing :
    (bad_alloc_what : List ℕ) (locks : Bool) (shutdown : Call (Unit {0})) (d : Diagnostic)
    (s : System)
    → Inv s
    → s.owner ≡ true
    → let r = close_parent bad_alloc_what locks shutdown s.parent d in
      Closes locks shutdown s r.0 r.1
unfolding close_parent close_locked rf_finish_shutdown retain_forever
close_parent-closing bad_alloc_what false shutdown d s v o = inl (refl, ground arith, ground arith)
close_parent-closing bad_alloc_what true (returned tt) d s v o = ground arith
close_parent-closing bad_alloc_what true (threw f) d s v o = ground arith

close_parent-stepping :
    (bad_alloc_what : List ℕ) (locks : Bool) (shutdown : Call (Unit {0})) (d : Diagnostic)
    (s : System)
    → Inv s
    → s.owner ≡ true
    → let r = close_parent bad_alloc_what locks shutdown s.parent d in
      Within bad_alloc_what s (closed_state r.1 locks s)
unfolding close_parent
close_parent-stepping bad_alloc_what false shutdown d s v o =
    inl (close_lock_fails o (ground arith))
close_parent-stepping bad_alloc_what true shutdown d s v o =
    elim (Bool-cases (close_locked s.parent).0) [
      | inl now ↦ inr (_, close o refl, finish shutdown (ground arith) (ground arith))
      | inr later ↦ inl (close o (ground arith))
    ]

-- Close on the DataMEL owner by a thread that nobody disturbs, in every state that is reached with the
-- owner there, is one step of the interleaved system or two, and moves no other thread. If the mutex
-- cannot be locked, it returns `internal_error` and retains the parent. While claims are held or lost,
-- it returns `ok` and only asks for the shutdown. Else it runs the shutdown, the only one: it returns
-- `ok` with the provider and the library gone, or, if the provider throws, `provider_exception` with
-- the parent retained.
pub close_parent-Closes :
    (bad_alloc_what : List ℕ) (locks : Bool) (shutdown : Call (Unit {0})) (d : Diagnostic)
    (s : System)
    → Reach (data_family bad_alloc_what) s
    → s.owner ≡ true
    → let r = close_parent bad_alloc_what locks shutdown s.parent d in
      Within bad_alloc_what s (closed_state r.1 locks s) × Closes locks shutdown s r.0 r.1
close_parent-Closes bad_alloc_what locks shutdown d s r o =
    let v = Reach-Inv (data_family-IsFamily bad_alloc_what) r in
    (
      close_parent-stepping bad_alloc_what locks shutdown d s v o,
      close_parent-closing bad_alloc_what locks shutdown d s v o,
    )
