-- ===== src/IrStream/Owned.antt =====
-- native/src/ir_stream.cpp: the two pools of slots and who is in them, with the lemmas that carry
-- this over a step.
use ams_gra_mel_bridge.Prelude.{
  ℕ, ◌≡◌, refl, ap, ◌≢◌, false, Option, none, some, List, [], ◌∷◌, ◌++◌, arith, set,
}
use ams_gra_mel_bridge.IrStream.Callback.{Held, DeferredRelease, CallbackState, no_release}
use ams_gra_mel_bridge.IrStream.Interleaving.{Executor, calling, failing, System}
use ams_gra_mel_bridge.IrStream.Accounts.{Inv}
use ams_gra_mel_bridge.IrStream.Pool.{Pool, acquire, release, forget}

abbrev pub Keeps : Held → Option ℕ → Type 0
Keeps held v = v ≡ some held.buffer

abbrev pub Waits : ℕ → DeferredRelease → Type 0
Waits i v = (buffer : ℕ) × (v.buffer ≡ some buffer)

pub Keeps-ne : (held : Held) (v : Option ℕ) → Keeps held v → v ≢ none
Keeps-ne held v k e = cc

pub Waits-ne : (i : ℕ) (v : DeferredRelease) → Waits i v → v ≢ no_release
Waits-ne i v (buffer, k) e = cc (ap (λ (r : DeferredRelease). r.buffer) e)

abbrev pub OwnerPool : List (Option ℕ) → List ℕ → List Held → Type 0
OwnerPool = Pool none (λ (held : Held). held.slot) Keeps Keeps-ne

abbrev pub WaitingPool : List DeferredRelease → List ℕ → List ℕ → Type 0
WaitingPool = Pool no_release (λ (i : ℕ). i) Waits Waits-ne

-- The wrapper that the executor has in its uncertain slot.
abbrev pub operating : Executor → List Held
operating (calling held owed) = held ∷ []
operating (failing held owed) = held ∷ []
operating _ = []

-- The uncertain slots own the wrapper of the executor and those whose release has failed; the
-- pending slots own the wrappers that wait.
pub record Owned (s : System) : Type 0 where
  pub owners :
      OwnerPool s.uncertain_slots s.free_uncertain_slots (operating s.executor ++ s.uncertain)
  pub waiting : WaitingPool s.deferred_releases s.free_deferred_releases s.pending_deferred_releases

pub transport-owners :
    (t : System) (slots : List (Option ℕ)) (free : List ℕ) (used : List Held)
    → (t.uncertain_slots ≡ slots)
      × (t.free_uncertain_slots ≡ free)
      × (operating t.executor ++ t.uncertain ≡ used)
    → OwnerPool slots free used
    → OwnerPool t.uncertain_slots t.free_uncertain_slots (operating t.executor ++ t.uncertain)
transport-owners t slots free used (e, f, g) p = rw (e, f, g) p

pub transport-waiting :
    (t : System) (slots : List DeferredRelease) (free pending : List ℕ)
    → (t.deferred_releases ≡ slots)
      × (t.free_deferred_releases ≡ free)
      × (t.pending_deferred_releases ≡ pending)
    → WaitingPool slots free pending
    → WaitingPool t.deferred_releases t.free_deferred_releases t.pending_deferred_releases
transport-waiting t slots free pending (e, f, g) p = rw (e, f, g) p

-- A step that leaves the slots alone.
abbrev pub SameOwners : System → System → Type 0
SameOwners s t =
    (t.uncertain_slots ≡ s.uncertain_slots)
    × (t.free_uncertain_slots ≡ s.free_uncertain_slots)
    × (operating t.executor ++ t.uncertain ≡ operating s.executor ++ s.uncertain)

abbrev pub SameWaiting : System → System → Type 0
SameWaiting s t =
    (t.deferred_releases ≡ s.deferred_releases)
    × (t.free_deferred_releases ≡ s.free_deferred_releases)
    × (t.pending_deferred_releases ≡ s.pending_deferred_releases)

pub stays-Owned : (s t : System) → SameOwners s t → SameWaiting s t → Owned s → Owned t
stays-Owned s t e f o = record {
  owners = transport-owners t _ _ _ e o.owners;
  waiting = transport-waiting t _ _ _ f o.waiting;
}

-- The executor's admission takes a free uncertain slot.
pub admit-owners :
    (buffer : ℕ) {slots : List (Option ℕ)} {slot : ℕ} {free : List ℕ} {used : List Held}
    → OwnerPool slots (slot ∷ free) used
    → OwnerPool
        (set slots slot (some buffer))
        free
        ((record { buffer = buffer; slot = slot }) ∷ used)
admit-owners buffer {slot = slot} p =
    acquire none (λ (held : Held). held.slot) Keeps Keeps-ne
      (record { buffer = buffer; slot = slot }) (some buffer) refl refl p

-- Without an executor only the failed wrappers are owned.
pub unused_owners :
    (s : System)
    → Inv s
    → s.release_executor_owned ≡ false
    → operating s.executor ++ s.uncertain ≡ s.uncertain
unused_owners s v b = ground arith

pub transport-list :
    {slots : List (Option ℕ)} {unused : List ℕ} {used used' : List Held}
    → used ≡ used'
    → OwnerPool slots unused used
    → OwnerPool slots unused used'
transport-list e p = rw (← e) p

-- The wrapper that was put aside last leaves its slot for the executor.
pub waiting_done :
    (c : CallbackState) {index : ℕ} {rest : List ℕ}
    → c.pending_deferred_releases ≡ index ∷ rest
    → WaitingPool c.deferred_releases c.free_deferred_releases c.pending_deferred_releases
    → WaitingPool (set c.deferred_releases index no_release) (index ∷ c.free_deferred_releases) rest
waiting_done c p w = release no_release (λ (i : ℕ). i) Waits Waits-ne (rw (← p) w)

-- It stays there for ever.
pub left :
    (c : CallbackState) {index : ℕ} {rest : List ℕ}
    → c.pending_deferred_releases ≡ index ∷ rest
    → WaitingPool c.deferred_releases c.free_deferred_releases c.pending_deferred_releases
    → WaitingPool c.deferred_releases c.free_deferred_releases rest
left c {index = index} p w =
    forget no_release (λ (i : ℕ). i) Waits Waits-ne {u = index} (rw (← p) w)
