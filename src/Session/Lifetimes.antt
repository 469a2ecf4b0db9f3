-- ===== src/Session/Lifetimes.antt =====
-- What `open_session_impl` and `ams_mel_session_close` of native/src/provider.cpp leave alive.
use ams_gra_mel_bridge.Prelude.{
  ℕ, suc, ◌≡◌, ◌≢◌, ◌↔◌, ◌⊎◌, inl, inr, Bool, true, false, Option, none, some, List, [], ◌∷◌, ◌++◌,
  if◌then◌else◌, is_some, codes, arith, Bool-cases,
}
use ams_gra_mel_bridge.Diagnostic.{Diagnostic, bad_diagnostic}
use ams_gra_mel_bridge.Provider.{ok, returned, caught}
use ams_gra_mel_bridge.Loader.{shared_library, symbol}
use ams_gra_mel_bridge.Session.{
  Object, library, manager, control, Event, built, destroyed, IrProvider, SessionState,
  OpenArguments, Opened, open_session_impl, session_close, destroy_members, invalid_open,
}

abbrev same : Object → Object → Bool
same library library = true
same manager manager = true
same control control = true
same _ _ = false

-- Runs a log over the objects that are alive, the youngest first. `none`: an object is destroyed
-- that is not the youngest one alive.
abbrev pub replay : List Event → List Object → Option (List Object)
replay [] alive = some alive
replay (built o ∷ es) alive = replay es (o ∷ alive)
replay (destroyed o ∷ es) [] = none
replay (destroyed o ∷ es) (top ∷ alive) =
    let rest = replay es alive in if same o top then rest else none

abbrev all_alive : List Object
all_alive = control ∷ manager ∷ library ∷ []

-- A successful Open leaves the three objects alive and publishes a session; any other leaves
-- nothing alive and publishes none.
abbrev pub IsSettled : Opened → Type 0
IsSettled r =
    ((r.status ≡ ok) × (is_some r.session ≡ true) × (replay r.log [] ≡ some all_alive))
    ⊎ ((r.status ≢ ok) × (r.session ≡ none) × (replay r.log [] ≡ some []))

-- From any arguments and any behaviour of the loader and the provider, Open either returns `ok`,
-- publishes a session and has built library, manager and control, or it returns another status,
-- publishes nothing and has destroyed all that it built, always the youngest object first.
pub open_session_impl-IsSettled :
    (p : IrProvider) (a : OpenArguments) (maximum : ℕ) (d : Diagnostic)
    → IsSettled (open_session_impl p a maximum d)
unfolding open_session_impl caught
open_session_impl-IsSettled p a maximum d = ground arith

-- Every stage of Open goes well.
pub record Succeeds (p : IrProvider) (a : OpenArguments) (d : Diagnostic) : Type 0 where
  pub arguments : invalid_open a d ≡ false
  pub loaded : shared_library p.loader ≡ returned tt
  pub manager_symbol : symbol p.loader (codes "getAPI_Manager") ≡ returned tt
  pub control_symbol : symbol p.loader (codes "getControl") ≡ returned tt
  pub made_manager : p.make_manager ≡ returned true
  pub made_control : p.make_control ≡ returned true
  pub initialized : p.init ≡ returned true
  pub allocated : p.allocation ≡ returned tt

-- Open returns `ok` exactly when the arguments are valid and every stage goes well: the library,
-- both symbols, both factories, `init` and the Session's own allocation.
pub open_session_impl-ok_iff :
    (p : IrProvider) (a : OpenArguments) (maximum : ℕ) (d : Diagnostic)
    → ((open_session_impl p a maximum d).status ≡ ok) ↔ Succeeds p a d
unfolding open_session_impl caught
open_session_impl-ok_iff p a maximum d = (λ e. ground arith, λ s. ground arith)

replay-append :
    (es fs : List Event) (xs : List Object) {ys : List Object}
    → replay es xs ≡ some ys
    → replay (es ++ fs) xs ≡ replay fs ys
replay-append [] fs xs e = ground arith
replay-append (built o ∷ es) fs xs e = replay-append es fs (o ∷ xs) e
replay-append (destroyed o ∷ es) fs [] e = cc
replay-append (destroyed o ∷ es) fs (top ∷ alive) e = elim (Bool-cases (same o top)) [
  | inl t ↦ rw t (replay-append es fs alive (rw t at e))
  | inr t ↦ cc (rw t at e)
]

session_close-owned :
    (owned : Option SessionState) (d : Diagnostic)
    → is_some owned ≡ true
    → bad_diagnostic d ≡ false
    → let closed = session_close (some owned) 0 d in
      (closed.3 ≡ destroyed control ∷ destroyed manager ∷ destroyed library ∷ [])
      × (closed.0 ≡ ok)
      × (closed.1 ≡ some none)
unfolding session_close destroy_members
session_close-owned owned d e valid = ground arith

session_close-shared :
    (owned : Option SessionState) (others : ℕ) (d : Diagnostic)
    → bad_diagnostic d ≡ false
    → let closed = session_close (some owned) (suc others) d in
      (closed.3 ≡ []) × (closed.0 ≡ ok) × (closed.1 ≡ some none)
unfolding session_close
session_close-shared owned others d valid = ground arith

session_close-empty :
    (d : Diagnostic)
    → let closed = session_close (some none) 0 d in (closed.3 ≡ []) × (closed.1 ≡ some none)
unfolding session_close
session_close-empty d = ground arith

-- After a successful Open, a Close with a valid diagnostic argument returns `ok` and clears the
-- caller's slot. If it is by the last owner of the state, the members are destroyed, always the
-- youngest object first, so that nothing is left alive; while other owners are left, nothing is
-- destroyed. A second Close destroys nothing.
pub open-close :
    (p : IrProvider) (a : OpenArguments) (maximum others : ℕ) (d d' : Diagnostic)
    → (open_session_impl p a maximum d).status ≡ ok
    → bad_diagnostic d' ≡ false
    → let opened = open_session_impl p a maximum d in
      let closed = session_close (some opened.session) 0 d' in
      let shared = session_close (some opened.session) (suc others) d' in
      let again = session_close closed.1 0 d' in
      (replay (opened.log ++ closed.3) [] ≡ some [])
      × (closed.0 ≡ ok)
      × (closed.1 ≡ some none)
      × (shared.3 ≡ [])
      × (shared.0 ≡ ok)
      × (shared.1 ≡ some none)
      × (again.3 ≡ [])
      × (again.1 ≡ some none)
open-close p a maximum others d d' e valid = elim (open_session_impl-IsSettled p a maximum d) [
  | inl (_, has, alive) ↦
      let opened = open_session_impl p a maximum d in
      let (log, told, slot) = session_close-owned opened.session d' has valid in
      let (log₁, told₁, slot₁) = session_close-shared opened.session others d' valid in
      let (log₂, slot₂) = session_close-empty d' in
      (
        rw log (replay-append opened.log _ [] alive),
        told,
        slot,
        log₁,
        told₁,
        slot₁,
        rw slot log₂,
        rw slot slot₂,
      )
  | inr (bad, _, _) ↦ absurd (bad e)
]
