-- ===== src/Nuc/Events.antt =====
-- native/src/ir_nuc.cpp: the order and the account of the NUC events, and what the end of the drain
-- means.
use ams_gra_mel_bridge.Prelude.{
  ℕ, ◌+◌, ◌≤◌, ◌≡◌, ◌≢◌, refl, ◌⊎◌, none, some, [], ◌∷◌, ◌++◌, append_assoc, append-nil, arith,
  length, length-append,
}
use ams_gra_mel_bridge.IrStream.Callback.{counter_max}
use ams_gra_mel_bridge.Nuc.{
  active, receive_arrives, receive_stores, receive_queues, receive_fails, deactivate, stop, fail,
}
use ams_gra_mel_bridge.Nuc.Drain.{Reach-Counted}
use ams_gra_mel_bridge.Nuc.Interleaving.{
  ended, System, fresh, Step, arrive, store, pass, copy_fails, pass_fails, first_lock_fails,
  copy_locks_fail, pass_locks_fail, take, deactivated, stopped, detach_failed, drain_ends,
  drain_sleeps, drain_wakes, Reach, start, next,
}

module _ {A : Type 0} where
  abbrev accounted : System A → ℕ
  accounted s =
      length s.stored
      + s.counters.events_dropped_queue_full
      + s.counters.malformed_or_unsupported
      + s.late
      + s.lost
      + s.copying
      + s.passing

  -- A counter that has come to its end no longer counts.
  abbrev Saturated : System A → Type 0
  Saturated s =
      (s.counters.events_received ≡ counter_max)
      ⊎ ((s.counters.events_dropped_queue_full ≡ counter_max)
          ⊎ (s.counters.malformed_or_unsupported ≡ counter_max))

  record Inv (q : ℕ) (s : System A) : Type 0 where
    limit : s.capacity ≡ q
    bounded : length s.queue ≤ q
    ranged :
        (s.counters.events_received ≤ counter_max)
        × (s.counters.events_dropped_queue_full ≤ counter_max)
        × (s.counters.malformed_or_unsupported ≤ counter_max)
    conserved : Saturated s ⊎ (s.counters.events_received + s.uncounted ≡ accounted s)

  Step-Inv : {q : ℕ} {s t : System A} → Step s t → Inv q s → Inv q t
  unfolding receive_arrives receive_stores receive_queues receive_fails deactivate stop fail
  Step-Inv (arrive e) v = ground arith
  Step-Inv {s = s} (store none g e) v = ground (arith, append-nil s.stored)
  Step-Inv {s = s} (store (some event) g e) v = ground (
    arith,
    length-append s.queue (event ∷ []),
    length-append s.stored (event ∷ []),
    append-nil s.stored,
  )
  Step-Inv (pass g e) v = ground arith
  Step-Inv (copy_fails g e) v = ground arith
  Step-Inv (pass_fails g e) v = ground arith
  Step-Inv (first_lock_fails e) v = ground arith
  Step-Inv (copy_locks_fail g e) v = ground arith
  Step-Inv (pass_locks_fail g e) v = ground arith
  Step-Inv (take event rest g e) v = ground arith
  Step-Inv (deactivated e) v = ground arith
  Step-Inv (stopped e) v = ground arith
  Step-Inv (detach_failed e) v = ground arith
  Step-Inv (drain_ends w g e) v = ground arith
  Step-Inv (drain_sleeps w g e) v = ground arith
  Step-Inv (drain_wakes w e) v = ground arith

  Reach-Inv : {q : ℕ} {s : System A} → Reach (fresh q) s → Inv q s
  Reach-Inv start = ground arith
  Reach-Inv (next r st) = Step-Inv st (Reach-Inv r)

  abbrev Ordered : System A → Type 0
  Ordered s = s.taken ++ s.queue ≡ s.stored

  Step-Ordered : {s t : System A} → Step s t → Ordered s → Ordered t
  unfolding receive_arrives receive_stores receive_queues receive_fails deactivate stop fail
  Step-Ordered {s = s} (store none g e) o = ground (arith, append-nil s.stored)
  Step-Ordered {s = s} (store (some event) g e) o =
      ground (arith, append_assoc s.taken s.queue (event ∷ []), append-nil s.stored)
  Step-Ordered {s = s} (take event rest g e) o =
      ground (arith, append_assoc s.taken (event ∷ []) rest)
  Step-Ordered (arrive e) o = ground arith
  Step-Ordered (pass g e) o = ground arith
  Step-Ordered (copy_fails g e) o = ground arith
  Step-Ordered (pass_fails g e) o = ground arith
  Step-Ordered (first_lock_fails e) o = ground arith
  Step-Ordered (copy_locks_fail g e) o = ground arith
  Step-Ordered (pass_locks_fail g e) o = ground arith
  Step-Ordered (deactivated e) o = ground arith
  Step-Ordered (stopped e) o = ground arith
  Step-Ordered (detach_failed e) o = ground arith
  Step-Ordered (drain_ends w g e) o = ground arith
  Step-Ordered (drain_sleeps w g e) o = ground arith
  Step-Ordered (drain_wakes w e) o = ground arith

  Reach-Ordered : {q : ℕ} {s : System A} → Reach (fresh q) s → Ordered s
  Reach-Ordered start = refl
  Reach-Ordered (next r st) = Step-Ordered st (Reach-Ordered r)

  -- NUC events keep their order, and each call of `receive` is accounted for once, under every
  -- interleaving of calls, Receives and a drain, whichever locks fail: the events that were
  -- received, followed by the queue, are those that were queued, oldest first; the queue keeps
  -- within its capacity; and unless a counter has come to its end, each call has queued its event,
  -- was dropped at a full queue, malformed or late, is lost, or is between its sections.
  pub nuc_account :
      {q : ℕ} {s : System A}
      → Reach (fresh q) s
      → (s.taken ++ s.queue ≡ s.stored)
        × (length s.queue ≤ q)
        × (((s.counters.events_received ≡ counter_max)
              ⊎ ((s.counters.events_dropped_queue_full ≡ counter_max)
                  ⊎ (s.counters.malformed_or_unsupported ≡ counter_max)))
            ⊎ (s.counters.events_received + s.uncounted
                ≡ length s.stored
                  + s.counters.events_dropped_queue_full
                  + s.counters.malformed_or_unsupported
                  + s.late
                  + s.lost
                  + s.copying
                  + s.passing))
  nuc_account r = let v = Reach-Inv r in (Reach-Ordered r, v.bounded, v.conserved)

  -- The drain has ended, and nothing was queued since.
  record Closed (s t : System A) : Type 0 where
    still : t.drainer ≡ ended
    same_stored : t.stored ≡ s.stored
    quiet : t.lifecycle ≡ active → ⊥

  Step-Closed : {s t u : System A} → Step t u → Closed s t → Closed s u
  unfolding receive_arrives receive_stores receive_queues receive_fails deactivate stop fail
  Step-Closed {t = t} (store none g e) v = ground (arith, append-nil t.stored)
  Step-Closed {t = t} (store (some event) g e) v = ground (arith, append-nil t.stored)
  Step-Closed (take event rest g e) v = ground arith
  Step-Closed (arrive e) v = ground arith
  Step-Closed (pass g e) v = ground arith
  Step-Closed (copy_fails g e) v = ground arith
  Step-Closed (pass_fails g e) v = ground arith
  Step-Closed (first_lock_fails e) v = ground arith
  Step-Closed (copy_locks_fail g e) v = ground arith
  Step-Closed (pass_locks_fail g e) v = ground arith
  Step-Closed (deactivated e) v = ground arith
  Step-Closed (stopped e) v = ground arith
  Step-Closed (detach_failed e) v = ground arith
  Step-Closed (drain_ends w g e) v = absurd (ground arith)
  Step-Closed (drain_sleeps w g e) v = absurd (ground arith)
  Step-Closed (drain_wakes w e) v = ground arith

  Reach-Closed : {s t : System A} → Reach s t → Closed s s → Closed s t
  Reach-Closed start v = v
  Reach-Closed (next r st) v = Step-Closed st (Reach-Closed r v)

  -- Once the drain has ended, the state is not active and stays so, and no event is queued any more,
  -- however many calls of `receive` the provider still makes.
  pub drained_closed :
      {q : ℕ} {s t : System A}
      → Reach (fresh q) s
      → s.drainer ≡ ended
      → Reach s t
      → (t.stored ≡ s.stored) × (t.lifecycle ≢ active)
  drained_closed {s = s} r w later =
      let v = Reach-Counted r in
      let c : Closed s s = ground (arith, v.closed w) in
      let u = Reach-Closed later c in (u.same_stored, u.quiet)
