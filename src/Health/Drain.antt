-- ===== src/Health/Drain.antt =====
-- native/src/ir_health.cpp: the wait of `cleanup` for the callbacks, which `callbacks_done` ends.
use ams_gra_mel_bridge.Prelude.{ℕ, ◌+◌, ◌≡◌, refl, arith}
use ams_gra_mel_bridge.Health.{deactivate}
use ams_gra_mel_bridge.Health.Interleaving.{
  before, sleeping, System, fresh, Step, enter, arrive, store, leave, take, deactivated,
  detach_failed, channel_destroyed, finish, find, sleep, Reach, start, next,
}

module _ {A : Type 0} where
  -- The waiter sleeps, and no callback is left.
  abbrev pub asleep : System A → System A
  asleep s = record s { state = record s.state { callbacks = 0 }; waiter = sleeping }

  record Lost (s : System A) : Type 0 where
    sleeps : s.waiter ≡ sleeping
    nobody : s.callbacks ≡ 0
    outside : s.entering + s.building ≡ 0

  Step-Lost : {s t : System A} → Step s t → Lost s → Lost t
  unfolding deactivate
  Step-Lost (enter g e) v = ground arith
  Step-Lost (arrive g h e) v = absurd (ground arith)
  Step-Lost (store event g h e) v = absurd (ground arith)
  Step-Lost (leave g e) v = absurd (ground arith)
  Step-Lost (take event rest g h e) v = ground arith
  Step-Lost (deactivated g e) v = ground arith
  Step-Lost (detach_failed g e) v = ground arith
  Step-Lost (channel_destroyed g e) v = ground arith
  Step-Lost (finish g h e) v = ground arith
  Step-Lost (find g h e) v = ground arith
  Step-Lost (sleep g e) v = ground arith

  Reach-Lost : {s t : System A} → Reach s t → Lost s → Lost t
  Reach-Lost start v = v
  Reach-Lost (next r st) v = Step-Lost st (Reach-Lost r v)

  slept :
      {q : ℕ} {s : System A}
      → Reach (fresh q) s
      → s.waiter ≡ before
      → s.callbacks ≡ 1
      → s.entering + s.building ≡ 0
      → Reach (fresh q) (asleep s)
  slept {s = s} r w one none_inside =
      next
        (next (next (next r (channel_destroyed w refl)) (find refl (ground arith) refl))
          (leave (ground arith) (ground arith)))
        (sleep refl refl)

  -- The wake-up may be lost: from every state in which one callback has done its work and is about
  -- to return, a teardown may reach a state, when the callback returns between its test and its
  -- sleep, in which no callback is left and it sleeps; and it sleeps in every later state, since
  -- nothing is left that would notify it.
  pub lost_wakeup :
      {q : ℕ} {s t : System A}
      → Reach (fresh q) s
      → s.waiter ≡ before
      → s.callbacks ≡ 1
      → s.entering + s.building ≡ 0
      → Reach (asleep s) t
      → Reach (fresh q) (asleep s) × (t.waiter ≡ sleeping) × (t.callbacks ≡ 0)
  lost_wakeup {s = s} r w one none_inside later =
      let lost : Lost (asleep s) = ground arith in
      let v = Reach-Lost later lost in (slept r w one none_inside, v.sleeps, v.nobody)
