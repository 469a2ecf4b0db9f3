-- ===== src/Health/Interleaving.antt =====
-- native/src/ir_health.cpp: the callbacks of the provider, the Receives, and the teardown with its
-- wait for the callbacks; a step is a critical section, or a part of one.
use ams_gra_mel_bridge.Prelude.{
  ℕ, ◌+◌, ◌-◌, ◌<◌, ◌≡◌, ◌≢◌, Bool, true, false, List, [], ◌∷◌, ◌++◌, ◌==◌, if◌then◌else◌, bit, not,
}
use ams_gra_mel_bridge.Health.{
  MetadataState, metadata_opened, Built, threw, built, callback_arrives, callback_stores, fail,
  deactivate, stop_metadata, is_active,
}

-- Where the end of `cleanup` stands: the channel is not destroyed yet; it holds the mutex and will
-- test whether callbacks are left; it has found some, and will sleep; it sleeps on
-- `callbacks_done`; it has ended.
pub data Waiter : Type 0 where
  before testing found sleeping ended : Waiter

-- Nobody holds the mutex between two steps, but the waiter from its test to its sleep.
abbrev pub unlocked : Waiter → Bool
unlocked testing = false
unlocked found = false
unlocked _ = true

-- `notify_all` reaches a waiter that sleeps.
abbrev pub notified : Waiter → Waiter
notified sleeping = testing
notified w = w

-- Of the callbacks that have not returned, `entering` have not come to their first critical section,
-- and `building` copy their event. `stored` are the events that were queued, `taken` those that were
-- received, oldest first; `late` counts the callbacks that found the state not active, `thrown`
-- those that threw.
pub record System (A : Type 0) : Type 0 where
  pub state : MetadataState A
  pub open state use *
  pub entering : ℕ
  pub building : ℕ
  pub waiter : Waiter
  pub stored : List A
  pub taken : List A
  pub late : ℕ
  pub thrown : ℕ

module _ {A : Type 0} where
  abbrev pub fresh : ℕ → System A
  fresh queue_capacity = record {
    state = metadata_opened queue_capacity;
    entering = 0;
    building = 0;
    waiter = before;
    stored = [];
    taken = [];
    late = 0;
    thrown = 0;
  }

  abbrev pub kept : Bool → Built A → List A
  kept true (built event) = event ∷ []
  kept _ _ = []

  abbrev pub lateness : Built A → MetadataState A → ℕ
  lateness threw s = 0
  lateness _ s = bit (not (is_active s.lifecycle))

  abbrev pub throws : Built A → ℕ
  throws threw = 1
  throws _ = 0

-- A waiter wakes only when it is notified. `leave` is the end of CallbackGuard, which takes no
-- lock: its decrement, and its notification if it was the last, are one step.
pub data Step {A : Type 0} (s t : System A) : Type 0 where
  enter :
      s.waiter ≡ before
      → t ≡ record s {
        state = record s.state { callbacks = s.callbacks + 1 };
        entering = s.entering + 1;
      }
      → Step s t
  arrive :
      0 < s.entering
      → unlocked s.waiter ≡ true
      → t ≡ record s {
        state = (callback_arrives s.state).1;
        entering = s.entering - 1;
        building = s.building + bit (callback_arrives s.state).0;
        late = s.late + bit (not (callback_arrives s.state).0);
      }
      → Step s t
  store :
      (event : Built A)
      → 0 < s.building
      → unlocked s.waiter ≡ true
      → t ≡ record s {
        state = (callback_stores event s.state).1;
        building = s.building - 1;
        stored = s.stored ++ kept (callback_stores event s.state).0 event;
        late = s.late + lateness event s.state;
        thrown = s.thrown + throws event;
      }
      → Step s t
  leave :
      s.entering + s.building < s.callbacks
      → t ≡ record s {
        state = record s.state { callbacks = s.callbacks - 1 };
        waiter = if s.callbacks == 1 then notified s.waiter else s.waiter;
      }
      → Step s t
  take :
      (event : A) (rest : List A)
      → s.queue ≡ event ∷ rest
      → unlocked s.waiter ≡ true
      → t ≡ record s { state = record s.state { queue = rest }; taken = s.taken ++ event ∷ [] }
      → Step s t
  deactivated : unlocked s.waiter ≡ true → t ≡ record s { state = deactivate s.state } → Step s t
  detach_failed : s.waiter ≡ before → t ≡ record s { state = fail s.state } → Step s t
  channel_destroyed : s.waiter ≡ before → t ≡ record s { waiter = testing } → Step s t
  finish :
      s.waiter ≡ testing
      → s.callbacks ≡ 0
      → t ≡ record s { state = stop_metadata s.state; waiter = ended }
      → Step s t
  find : s.waiter ≡ testing → s.callbacks ≢ 0 → t ≡ record s { waiter = found } → Step s t
  sleep : s.waiter ≡ found → t ≡ record s { waiter = sleeping } → Step s t

pub data Reach {A : Type 0} (from : System A) : System A → Type 0 where
  start : Reach from from
  next : {s t : System A} → Reach from s → Step s t → Reach from t
