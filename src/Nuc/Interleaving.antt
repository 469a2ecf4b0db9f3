-- ===== src/Nuc/Interleaving.antt =====
-- native/src/ir_nuc.cpp: the calls of `receive`, the Receives, and `drain_and_stop`, which waits
-- for the calls; a step is a critical section.
use ams_gra_mel_bridge.Prelude.{
  ℕ, ◌+◌, ◌-◌, ◌<◌, ◌≡◌, ◌≢◌, ◌⊎◌, Bool, true, false, Option, none, some, List, [], ◌∷◌, ◌++◌, ◌==◌,
  if◌then◌else◌, bit, not,
}
use ams_gra_mel_bridge.Nuc.{
  NucState, nuc_opened, receive_arrives, receive_stores, receive_fails, deactivate, stop, fail,
  is_active,
}

-- Where `drain_and_stop` stands: not called yet; it sleeps on `callbacks_done`; it is awake and
-- will lock the mutex and test again; it has ended.
pub data Drainer : Type 0 where
  before sleeping woken ended : Drainer

-- `notify_all` reaches a drainer that sleeps.
abbrev pub notified : Drainer → Drainer
notified sleeping = woken
notified w = w

-- The last call of `receive` notifies.
abbrev pub after_call : ℕ → Drainer → Drainer
after_call callbacks w = if callbacks == 1 then notified w else w

-- Of the calls that are counted, `copying` found the state active, `passing` did not, and `lost`
-- have ended uncounted, since no lock could be taken. `stored` are the events that were queued,
-- `taken` those that were received, oldest first; `late` counts the calls that found the state not
-- active in either section, and `uncounted` those that could not take the first lock.
pub record System (A : Type 0) : Type 0 where
  pub state : NucState A
  pub open state use *
  pub copying : ℕ
  pub passing : ℕ
  pub lost : ℕ
  pub drainer : Drainer
  pub stored : List A
  pub taken : List A
  pub late : ℕ
  pub uncounted : ℕ

module _ {A : Type 0} where
  abbrev pub fresh : ℕ → System A
  fresh queue_capacity = record {
    state = nuc_opened queue_capacity;
    copying = 0;
    passing = 0;
    lost = 0;
    drainer = before;
    stored = [];
    taken = [];
    late = 0;
    uncounted = 0;
  }

  abbrev pub kept : Bool → Option A → List A
  kept true (some event) = event ∷ []
  kept _ _ = []

-- Calls of `receive` may come at any time, also after the drain. A thread that waits may wake unasked.
-- `drain_and_stop` can lock the mutex.
pub data Step {A : Type 0} (s t : System A) : Type 0 where
  arrive :
      t ≡ record s {
        state = (receive_arrives s.state).1;
        copying = s.copying + bit (receive_arrives s.state).0;
        passing = s.passing + bit (not (receive_arrives s.state).0);
      }
      → Step s t
  store :
      (event : Option A)
      → 0 < s.copying
      → t ≡ record s {
        state = (receive_stores true event s.state).1;
        copying = s.copying - 1;
        drainer = after_call s.callbacks s.drainer;
        stored = s.stored ++ kept (receive_stores true event s.state).0 event;
        late = s.late + bit (not (is_active s.lifecycle));
      }
      → Step s t
  pass :
      0 < s.passing
      → t ≡ record s {
        state = (receive_stores false none s.state).1;
        passing = s.passing - 1;
        drainer = after_call s.callbacks s.drainer;
        late = s.late + 1;
      }
      → Step s t
  copy_fails :
      0 < s.copying
      → t ≡ record s {
        state = receive_fails true s.state;
        copying = s.copying - 1;
        drainer = after_call s.callbacks s.drainer;
      }
      → Step s t
  pass_fails :
      0 < s.passing
      → t ≡ record s {
        state = receive_fails true s.state;
        passing = s.passing - 1;
        drainer = after_call s.callbacks s.drainer;
      }
      → Step s t
  first_lock_fails :
      t ≡ record s { state = receive_fails false s.state; uncounted = s.uncounted + 1 } → Step s t
  copy_locks_fail :
      0 < s.copying → t ≡ record s { copying = s.copying - 1; lost = s.lost + 1 } → Step s t
  pass_locks_fail :
      0 < s.passing → t ≡ record s { passing = s.passing - 1; lost = s.lost + 1 } → Step s t
  take :
      (event : A) (rest : List A)
      → s.queue ≡ event ∷ rest
      → t ≡ record s { state = record s.state { queue = rest }; taken = s.taken ++ event ∷ [] }
      → Step s t
  deactivated : t ≡ record s { state = deactivate s.state } → Step s t
  stopped : t ≡ record s { state = stop s.state } → Step s t
  detach_failed : t ≡ record s { state = fail s.state } → Step s t
  drain_ends :
      (s.drainer ≡ before) ⊎ (s.drainer ≡ woken)
      → s.callbacks ≡ 0
      → t ≡ record s { state = stop s.state; drainer = ended }
      → Step s t
  drain_sleeps :
      (s.drainer ≡ before) ⊎ (s.drainer ≡ woken)
      → s.callbacks ≢ 0
      → t ≡ record s { drainer = sleeping }
      → Step s t
  drain_wakes : s.drainer ≡ sleeping → t ≡ record s { drainer = woken } → Step s t

pub data Reach {A : Type 0} (from : System A) : System A → Type 0 where
  start : Reach from from
  next : {s t : System A} → Reach from s → Step s t → Reach from t
