-- ===== src/Admission.antt =====
-- native/src/internal.hpp: CompletionAdmission, CompletionPermit and `acquire_completion_permit`,
-- the limit on asynchronous requests of a Session. Any number of threads run at once, and each step
-- is one atomic access.
pub mod Slots
use ams_gra_mel_bridge.Prelude.{
  ℕ, zero, suc, ◌+◌, ◌-◌, ◌%◌, ◌^◌, ◌≤◌, ◌<◌, ◌≡◌, Bool, true, false, Option, none, some, List, [],
  ◌∷◌, ◌++◌, ltb, if◌then◌else◌,
}

-- Both fields are `std::uint32_t`.
pub record CompletionAdmission : Type 0 where
  pub maximum : ℕ
  pub active : ℕ

-- Where a thread stands: before `acquire_completion_permit`, in its loop with the local `count`,
-- after it returned false, and while a CompletionPermit of its own holds the admission.
pub data Thread : Type 0 where
  outside refused holding : Thread
  looping : (count : ℕ) → Thread

-- `fetch_sub(1)` on a 32-bit word.
abbrev pub fetch_sub : CompletionAdmission → CompletionAdmission
fetch_sub a = record a { active = (a.active + 2 ^ 32 - 1) % 2 ^ 32 }

-- The new value, `count + 1`, is computed in 32 bits.
abbrev pub exchanged : CompletionAdmission → ℕ → CompletionAdmission
exchanged a count = record a { active = (count + 1) % 2 ^ 32 }

-- One atomic step of one thread. The weak compare-exchange may fail although the value is as
-- expected, and then loads `count` afresh.
pub data Move (a : CompletionAdmission) : Thread → CompletionAdmission → Thread → Type 0 where
  load : Move a outside a (looping a.active)
  full : {count : ℕ} → a.maximum ≤ count → Move a (looping count) a refused
  win :
      {count : ℕ}
      → count < a.maximum
      → a.active ≡ count
      → Move a (looping count) (exchanged a count) holding
  lose : {count : ℕ} → count < a.maximum → Move a (looping count) a (looping a.active)
  release : Move a holding (fetch_sub a) outside
  again : Move a refused a outside

pub record System : Type 0 where
  pub admission : CompletionAdmission
  pub threads : List Thread

-- A step of some thread, or a new thread.
pub data Step (s t : System) : Type 0 where
  pick :
      (before after : List Thread) {p q : Thread} {a : CompletionAdmission}
      → s.threads ≡ before ++ p ∷ after
      → Move s.admission p a q
      → t ≡ record { admission = a; threads = before ++ q ∷ after }
      → Step s t
  spawn : t ≡ record s { threads = outside ∷ s.threads } → Step s t

pub data Reach (maximum : ℕ) : System → Type 0 where
  start :
      Reach maximum (record { admission = record { maximum = maximum; active = 0 }; threads = [] })
  next : {s t : System} → Reach maximum s → Step s t → Reach maximum t

-- The permit class: an admission held, or none. Moving out leaves `none`; the destructor and the
-- assignment release what is held.
abbrev pub Permit : Type 0
Permit = Bool

unfoldable pub release_permit : Permit → CompletionAdmission → CompletionAdmission
release_permit true a = fetch_sub a
release_permit false a = a

-- `operator=(CompletionPermit&& other)` between two permits of one admission: the target's permit
-- and the source's permit after it, and the admission.
pub move_assign : Permit → Permit → CompletionAdmission → Permit × Permit × CompletionAdmission
unfolding release_permit
move_assign target source a = (source, false, release_permit target a)

-- `acquire_completion_permit` when no other thread runs: the result, the permit, the admission. A
-- Session without a limit has no admission and hands out empty permits.
unfoldable pub acquire_completion_permit :
    Option CompletionAdmission → Permit → Bool × Permit × Option CompletionAdmission
unfolding move_assign
acquire_completion_permit none permit = (true, permit, none)
acquire_completion_permit (some a) permit =
    let (held, _, a') = move_assign permit true (exchanged a a.active) in
    if ltb a.active a.maximum then (true, held, some a') else (false, permit, some a)
