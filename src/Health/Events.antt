-- ===== src/Health/Events.antt =====
-- native/src/ir_health.cpp: the order and the account of the health events, and what the end of the
-- teardown means.
use ams_gra_mel_bridge.Prelude.{
  ℕ, ◌+◌, ◌≤◌, ◌≡◌, refl, ◌⊎◌, [], ◌∷◌, ◌++◌, append_assoc, append-nil, arith, length,
  length-append,
}
use ams_gra_mel_bridge.IrStream.Callback.{counter_max}
use ams_gra_mel_bridge.Health.{
  stopped, failed, threw, malformed, built, callback_arrives, callback_stores, fail, deactivate,
  stop_metadata,
}
use ams_gra_mel_bridge.Health.Interleaving.{
  ended, System, fresh, Step, enter, arrive, store, leave, take, deactivated, detach_failed,
  channel_destroyed, finish, find, sleep, Reach, start, next,
}

module _ {A : Type 0} where
  abbrev accounted : System A → ℕ
  accounted s =
      length s.stored
      + s.counters.events_dropped_queue_full
      + s.counters.malformed_or_unsupported
      + s.late
      + s.thrown
      + s.building

  record Inv (q : ℕ) (s : System A) : Type 0 where
    limit : s.capacity ≡ q
    bounded : length s.queue ≤ q
    conserved :
        (s.counters.events_received ≡ counter_max) ⊎ (s.counters.events_received ≡ accounted s)
    ranged : s.counters.events_received ≤ counter_max
    inside : s.entering + s.building ≤ s.callbacks
    final :
        (s.waiter ≡ ended) → (s.callbacks ≡ 0) × ((s.lifecycle ≡ stopped) ⊎ (s.lifecycle ≡ failed))

  Step-Inv : {q : ℕ} {s t : System A} → Step s t → Inv q s → Inv q t
  unfolding callback_arrives callback_stores fail deactivate stop_metadata
  Step-Inv {s = s} (store (built event) g h e) v = ground (
    arith,
    length-append s.queue (event ∷ []),
    length-append s.stored (event ∷ []),
    append-nil s.stored,
  )
  Step-Inv {s = s} (store threw g h e) v = ground (arith, append-nil s.stored)
  Step-Inv {s = s} (store malformed g h e) v = ground (arith, append-nil s.stored)
  Step-Inv (enter g e) v = ground arith
  Step-Inv (arrive g h e) v = ground arith
  Step-Inv (leave g e) v = ground arith
  Step-Inv (take event rest g h e) v = ground arith
  Step-Inv (deactivated g e) v = ground arith
  Step-Inv (detach_failed g e) v = ground arith
  Step-Inv (channel_destroyed g e) v = ground arith
  Step-Inv (finish g h e) v = ground arith
  Step-Inv (find g h e) v = ground arith
  Step-Inv (sleep g e) v = ground arith

  Reach-Inv : {q : ℕ} {s : System A} → Reach (fresh q) s → Inv q s
  Reach-Inv start = ground arith
  Reach-Inv (next r st) = Step-Inv st (Reach-Inv r)

  abbrev Ordered : System A → Type 0
  Ordered s = s.taken ++ s.queue ≡ s.stored

  Step-Ordered : {s t : System A} → Step s t → Ordered s → Ordered t
  unfolding callback_arrives callback_stores fail deactivate stop_metadata
  Step-Ordered {s = s} (store (built event) g h e) o =
      ground (arith, append_assoc s.taken s.queue (event ∷ []), append-nil s.stored)
  Step-Ordered {s = s} (store threw g h e) o = ground (arith, append-nil s.stored)
  Step-Ordered {s = s} (store malformed g h e) o = ground (arith, append-nil s.stored)
  Step-Ordered {s = s} (take event rest g h e) o =
      ground (arith, append_assoc s.taken (event ∷ []) rest)
  Step-Ordered (enter g e) o = ground arith
  Step-Ordered (arrive g h e) o = ground arith
  Step-Ordered (leave g e) o = ground arith
  Step-Ordered (deactivated g e) o = ground arith
  Step-Ordered (detach_failed g e) o = ground arith
  Step-Ordered (channel_destroyed g e) o = ground arith
  Step-Ordered (finish g h e) o = ground arith
  Step-Ordered (find g h e) o = ground arith
  Step-Ordered (sleep g e) o = ground arith

  Reach-Ordered : {q : ℕ} {s : System A} → Reach (fresh q) s → Ordered s
  Reach-Ordered start = refl
  Reach-Ordered (next r st) = Step-Ordered st (Reach-Ordered r)

  -- Health events keep their order, and each callback is accounted for once, under every
  -- interleaving of callbacks, Receives and a teardown: the events that were received, followed by
  -- the queue, are those that were queued, oldest first; the queue keeps within its capacity; and
  -- unless the counter of callbacks has come to its end, each callback that it counts has queued
  -- its event, was dropped at a full queue, malformed, or late, has thrown, or still copies its
  -- event.
  pub events_account :
      {q : ℕ} {s : System A}
      → Reach (fresh q) s
      → (s.taken ++ s.queue ≡ s.stored)
        × (length s.queue ≤ q)
        × ((s.counters.events_received ≡ counter_max)
            ⊎ (s.counters.events_received
                ≡ length s.stored
                  + s.counters.events_dropped_queue_full
                  + s.counters.malformed_or_unsupported
                  + s.late
                  + s.thrown
                  + s.building))
  events_account r = let v = Reach-Inv r in let o = Reach-Ordered r in (o, v.bounded, v.conserved)

  -- No callback is left, and none comes.
  record Quiet (s t : System A) : Type 0 where
    still : t.waiter ≡ ended
    nobody : t.callbacks ≡ 0
    outside : t.entering + t.building ≡ 0
    same_counters : t.counters ≡ s.counters
    same_stored : t.stored ≡ s.stored
    at_end : (t.lifecycle ≡ stopped) ⊎ (t.lifecycle ≡ failed)

  Step-Quiet : {s t u : System A} → Step t u → Quiet s t → Quiet s u
  unfolding deactivate
  Step-Quiet (enter g e) v = ground arith
  Step-Quiet (arrive g h e) v = absurd (ground arith)
  Step-Quiet (store event g h e) v = absurd (ground arith)
  Step-Quiet (leave g e) v = absurd (ground arith)
  Step-Quiet (take event rest g h e) v = ground arith
  Step-Quiet (deactivated g e) v = ground arith
  Step-Quiet (detach_failed g e) v = ground arith
  Step-Quiet (channel_destroyed g e) v = ground arith
  Step-Quiet (finish g h e) v = ground arith
  Step-Quiet (find g h e) v = ground arith
  Step-Quiet (sleep g e) v = ground arith

  Reach-Quiet : {s t : System A} → Reach s t → Quiet s s → Quiet s t
  Reach-Quiet start v = v
  Reach-Quiet (next r st) v = Step-Quiet st (Reach-Quiet r v)

  -- A teardown that ends leaves no callback behind: once its wait for the callbacks is over, whatever
  -- then happens, none is running, no event is queued or counted any more, and the metadata are
  -- stopped or failed.
  pub ended_is_quiet :
      {q : ℕ} {s t : System A}
      → Reach (fresh q) s
      → s.waiter ≡ ended
      → Reach s t
      → (t.callbacks ≡ 0)
        × (t.entering + t.building ≡ 0)
        × (t.counters ≡ s.counters)
        × (t.stored ≡ s.stored)
        × ((t.lifecycle ≡ stopped) ⊎ (t.lifecycle ≡ failed))
  ended_is_quiet {s = s} r w later =
      let v = Reach-Inv r in
      let (none_left, last) = v.final w in
      let quiet : Quiet s s = ground arith in
      let u = Reach-Quiet later quiet in
      (u.nobody, u.outside, u.same_counters, u.same_stored, u.at_end)
