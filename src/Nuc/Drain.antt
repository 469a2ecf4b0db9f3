-- ===== src/Nuc/Drain.antt =====
-- native/src/ir_nuc.cpp: the wait of `drain_and_stop` for the calls of `receive`.
use ams_gra_mel_bridge.Prelude.{
  ℕ, zero, suc, zero_or_pos, ◌+◌, ◌<◌, ◌≡◌, ◌≢◌, refl, ◌⊎◌, inl, inr, none, some, arith,
}
use ams_gra_mel_bridge.Nuc.{
  active, receive_arrives, receive_stores, receive_queues, receive_fails, deactivate, stop, fail,
}
use ams_gra_mel_bridge.Nuc.Interleaving.{
  Drainer, before, sleeping, woken, ended, System, fresh, Step, arrive, store, pass, copy_fails,
  pass_fails, first_lock_fails, copy_locks_fail, pass_locks_fail, take, deactivated, stopped,
  detach_failed, drain_ends, drain_sleeps, drain_wakes, Reach, start, next,
}

can_test : (w : Drainer) → (w ≡ sleeping → ⊥) → (w ≡ ended → ⊥) → (w ≡ before) ⊎ (w ≡ woken)
can_test before a b = inl refl
can_test woken a b = inr refl
can_test sleeping a b = absurd (a refl)
can_test ended a b = absurd (b refl)

sleeping_or_not : (w : Drainer) → (w ≢ sleeping) ⊎ (w ≡ sleeping)
sleeping_or_not before = inl (λ e. ground arith)
sleeping_or_not woken = inl (λ e. ground arith)
sleeping_or_not sleeping = inr refl
sleeping_or_not ended = inl (λ e. ground arith)

module _ {A : Type 0} where
  pub record Counted (s : System A) : Type 0 where
    pub counted : s.callbacks ≡ s.copying + s.passing + s.lost
    pub awake : s.drainer ≡ sleeping → 0 < s.callbacks
    pub closed : s.drainer ≡ ended → (s.lifecycle ≡ active) → ⊥

  Step-Counted : {s t : System A} → Step s t → Counted s → Counted t
  unfolding receive_arrives receive_stores receive_queues receive_fails deactivate stop fail
  Step-Counted (arrive e) v = ground arith
  Step-Counted (store none g e) v = ground arith
  Step-Counted (store (some event) g e) v = ground arith
  Step-Counted (pass g e) v = ground arith
  Step-Counted (copy_fails g e) v = ground arith
  Step-Counted (pass_fails g e) v = ground arith
  Step-Counted (first_lock_fails e) v = ground arith
  Step-Counted (copy_locks_fail g e) v = ground arith
  Step-Counted (pass_locks_fail g e) v = ground arith
  Step-Counted (take event rest g e) v = ground arith
  Step-Counted (deactivated e) v = ground arith
  Step-Counted (stopped e) v = ground arith
  Step-Counted (detach_failed e) v = ground arith
  Step-Counted (drain_ends w g e) v = ground arith
  Step-Counted (drain_sleeps w g e) v = ground arith
  Step-Counted (drain_wakes w e) v = ground arith

  pub Reach-Counted : {q : ℕ} {s : System A} → Reach (fresh q) s → Counted s
  Reach-Counted start = ground arith
  Reach-Counted (next r st) = Step-Counted st (Reach-Counted r)

  -- No call is counted any more, and none came meanwhile.
  record Settled (o t : System A) : Type 0 where
    calls : t.copying + t.passing ≡ 0
    none_lost : t.lost ≡ 0
    pending : t.drainer ≡ ended → ⊥
    invariant : Counted t
    same_taken : t.taken ≡ o.taken
    same_received : t.counters.events_received ≡ o.counters.events_received

  settle :
      (n : ℕ) {o s : System A}
      → Reach o s
      → Counted s
      → s.copying + s.passing ≡ n
      → s.lost ≡ 0
      → s.drainer ≢ ended
      → s.taken ≡ o.taken
      → s.counters.events_received ≡ o.counters.events_received
      → (t : System A) × Reach o t × Settled o t
  unfolding receive_stores receive_queues
  settle zero {s = s} r v c l p k m = (s, r, ground arith)
  settle (suc n) {s = s} r v c l p k m = elim (zero_or_pos s.copying) [
    | inl none_copies ↦
        let g : 0 < s.passing = ground arith in
        settle n (next r (pass g refl)) (Step-Counted (pass g refl) v) (ground arith) l
          (ground arith) (ground arith) (ground arith)
    | inr g ↦
        settle n (next r (store none g refl)) (Step-Counted (store none g refl) v) (ground arith) l
          (ground arith) (ground arith) (ground arith)
  ]

  -- Whoever has settled the calls can end the drain.
  end_drain :
      {o s : System A}
      → Reach o s
      → Settled o s
      → (t : System A) × Reach o t
        × (t.drainer ≡ ended)
        × (t.callbacks ≡ 0)
        × (t.taken ≡ o.taken)
        × (t.counters.events_received ≡ o.counters.events_received)
  unfolding stop
  end_drain {s = s} r v =
      let nobody : s.callbacks ≡ 0 = ground (arith, v.invariant.counted) in
      let asleep : (s.drainer ≡ before) ⊎ (s.drainer ≡ woken) =
        can_test s.drainer (λ e. ground (arith, v.invariant.awake e)) v.pending in
      (
        _,
        next r (drain_ends asleep nobody refl),
        refl,
        ground (arith, nobody),
        ground (arith, v.same_taken),
        ground (arith, v.same_received),
      )

  -- No wake-up of the drain is lost, under every interleaving of the calls of `receive` with it:
  -- while it sleeps, some call is still counted. So as long as every call could take one of its
  -- locks, the calls in flight and the drain alone come to the end of the drain from every
  -- reachable state in which it has not ended, with no other call arriving and no event received
  -- meanwhile.
  pub drain_completes :
      {q : ℕ} {s : System A}
      → Reach (fresh q) s
      → s.lost ≡ 0
      → s.drainer ≢ ended
      → ((s.drainer ≢ sleeping) ⊎ (0 < s.copying + s.passing))
        × ((t : System A) × Reach s t
            × (t.drainer ≡ ended)
            × (t.callbacks ≡ 0)
            × (t.taken ≡ s.taken)
            × (t.counters.events_received ≡ s.counters.events_received))
  drain_completes {s = s} r l p =
      let v = Reach-Counted r in
      let (t, r', settled) = settle (s.copying + s.passing) start v refl l p refl refl in
      (
        elim (sleeping_or_not s.drainer) [
          | inl n ↦ inl n
          | inr e ↦ inr (ground (arith, v.awake e, v.counted))
        ],
        end_drain r' settled,
      )
