-- ===== src/IrStream/Join.antt =====
-- native/src/ir_stream.cpp: the wait of Stop and Close for the releases that are running.
use ams_gra_mel_bridge.Prelude.{
  ℕ, zero, suc, ◌+◌, ◌≤◌, ◌≡◌, refl, ◌⊎◌, inl, inr, Bool, true, false, List, [], ◌∷◌, arith,
  Bool-cases, length,
}
use ams_gra_mel_bridge.IrStream.Callback.{
  Held, CallbackState, arrive_frame, arrive_null, store_frame, defer_release, admit_release,
  begin_callback_release, begin_external_release, release_succeeded, retire_release, release_failed,
  retain_uncertain_buffer, slot_at, wrapper, next_release,
}
use ams_gra_mel_bridge.IrStream.Stream.{
  logical_stop, claim_cleanup, restore_channel, keep_storage, free_storage,
}
use ams_gra_mel_bridge.IrStream.Interleaving.{
  Executor, idle, calling, failing, retained, destroying, System, with_state, next_begun,
  CallbackStep, ExecutorStep, succeed, retire, fail, retain, go_on, ConsumerStep, Step, provider,
  executing, consumer,
}
use ams_gra_mel_bridge.IrStream.Start.{fill_pools, enabling, Runs, start, next}
use ams_gra_mel_bridge.IrStream.Accounts.{active, obliged, Inv, Runs-Inv}

-- An uncertain slot is free for the next wrapper.
abbrev room : Executor → ℕ
room (destroying held owed) = 1
room _ = 0

abbrev Exact : System → Type 0
Exact s =
    (s.release_obligations ≡ length s.pending_deferred_releases + obliged s.executor)
    × ((active s.executor ≡ true) ⊎ (s.pending_deferred_releases ≡ []))
    × (room s.executor ≤ length s.free_uncertain_slots)

-- Until a release has failed, the obligations are exactly those of the executor.
abbrev Obliged : System → Type 0
Obliged s = (s.uncertain_release ≡ true) ⊎ Exact s

CallbackStep-Obliged : {s t : System} → CallbackStep s t → Inv s → Obliged s → Obliged t
unfolding arrive_null arrive_frame store_frame retain_uncertain_buffer begin_callback_release
    defer_release admit_release
CallbackStep-Obliged st v h = ground arith

ExecutorStep-Obliged : {s t : System} → ExecutorStep s t → Inv s → Obliged s → Obliged t
unfolding release_succeeded release_failed retire_release retain_uncertain_buffer next_release
ExecutorStep-Obliged st v h = ground arith

ConsumerStep-Obliged : {s t : System} → ConsumerStep s t → Inv s → Obliged s → Obliged t
unfolding begin_external_release admit_release logical_stop claim_cleanup restore_channel
    keep_storage free_storage
ConsumerStep-Obliged st v h = ground arith

Step-Obliged : {s t : System} → Step s t → Inv s → Obliged s → Obliged t
Step-Obliged (provider st) v h = CallbackStep-Obliged st v h
Step-Obliged (executing st) v h = ExecutorStep-Obliged st v h
Step-Obliged (consumer st) v h = ConsumerStep-Obliged st v h

enabling-Obliged : (n q : ℕ) → Obliged (enabling n q)
unfolding fill_pools
enabling-Obliged n q = inr (omega arith, inr refl, omega arith)

pub Runs-Obliged : {n q : ℕ} {s : System} → Runs n q s → Obliged s
Runs-Obliged {n = n} {q = q} start = enabling-Obliged n q
Runs-Obliged (next r st) = Step-Obliged st (Runs-Inv r) (Runs-Obliged r)

-- The application and the callbacks have done nothing.
abbrev Undisturbed : System → System → Type 0
Undisturbed s t =
    (t.leases ≡ s.leases)
    × (t.bodies ≡ s.bodies)
    × (t.refused ≡ s.refused)
    × (t.in_flight ≡ s.in_flight)
    × (t.queue ≡ s.queue)

-- After a round the executor has ended, or has one wrapper fewer to come.
abbrev Rounded : ℕ → System → Type 0
Rounded k t =
    (t.executor ≡ idle)
    ⊎ ((held : Held) × (owed : Bool) × (t.executor ≡ calling held owed)
        × (suc (length t.pending_deferred_releases) ≡ k))

round :
    (parks : Bool) (pending unused : List ℕ) (c : CallbackState) (s : System)
    → c.pending_deferred_releases ≡ pending
    → c.free_uncertain_slots ≡ unused
    → Rounded (length pending) (
        next_begun
          (next_release parks c).0
          (record s { stream = with_state (next_release parks c).1 s.stream }))
unfolding next_release
round parks [] unused c s p f = inl (ground arith)
round parks (index ∷ rest) [] c s p f = inl (ground arith)
round parks (index ∷ rest) (slot ∷ slots) c s p f = inr (
  record { buffer = wrapper (slot_at c.deferred_releases index); slot = slot },
  (slot_at c.deferred_releases index).already_counted,
  ground arith,
  ground arith,
)

round-Undisturbed :
    (parks : Bool) (c : CallbackState) (s : System)
    → c.queue ≡ s.queue
    → Undisturbed s (
        next_begun
          (next_release parks c).0
          (record s { stream = with_state (next_release parks c).1 s.stream }))
unfolding next_release
round-Undisturbed parks c s q = ground arith

-- The steps of the executor, when `answers` says of each wrapper whether its `release()` succeeds, and
-- `parks` whether a wrapper is kept that the executor surrenders.
abbrev pub Executing : (ℕ → Bool) → Bool → {s t : System} → ExecutorStep s t → Type 0
Executing answers parks (succeed held owed g e) = answers held.buffer ≡ true
Executing answers parks (fail held owed g e) = answers held.buffer ≡ false
Executing answers parks (retire held owed parked g e) = parked ≡ parks
Executing answers parks (go_on parked g e) = parked ≡ parks
Executing answers parks (retain held owed g e) = Unit

-- A run of the executor alone.
pub data Executes (answers : ℕ → Bool) (parks : Bool) (s : System) : System → Type 0 where
  stay : Executes answers parks s s
  execute_step :
      {t u : System}
      → Executes answers parks s t
      → (st : ExecutorStep t u) → Executing answers parks st
      → Executes answers parks s u

Undisturbed-trans : (s t u : System) → Undisturbed s t → Undisturbed t u → Undisturbed s u
Undisturbed-trans s t u h k = ground arith

Executes-Runs :
    {n q : ℕ} {answers : ℕ → Bool} {parks : Bool} {s t : System}
    → Runs n q s
    → Executes answers parks s t
    → Runs n q t
Executes-Runs r stay = r
Executes-Runs r (execute_step d st a) = next (Executes-Runs r d) (executing st)

-- The round that is running comes to its end, whatever the provider answers.
module _ (answers : ℕ → Bool) (parks : Bool) where
  abbrev Ends : System → System → Type 0
  Ends o s = (t : System) × Executes answers parks o t × (t.executor ≡ idle) × Undisturbed s t

  abbrev Progress : System → System → Type 0
  Progress o s =
      (t : System) × Executes answers parks o t
      × Rounded (length s.pending_deferred_releases) t
      × Undisturbed s t

  destroyed-Progress :
      (held : Held) (owed : Bool) {o s : System}
      → Executes answers parks o s
      → s.executor ≡ destroying held owed
      → Progress o s
  unfolding retire_release
  destroyed-Progress held owed {s = s} d e =
      let c = retire_release owed s.callback in
      (
        _,
        execute_step d (retire held owed parks e refl) refl,
        round parks s.pending_deferred_releases c.free_uncertain_slots c s refl refl,
        round-Undisturbed parks c s refl,
      )

  retained-Progress :
      {o s : System} → Executes answers parks o s → s.executor ≡ retained → Progress o s
  retained-Progress {s = s} d e = (
    _,
    execute_step d (go_on parks e refl) refl,
    round parks s.pending_deferred_releases s.free_uncertain_slots s.callback s refl refl,
    round-Undisturbed parks s.callback s refl,
  )

  failing-Progress :
      (held : Held) (owed : Bool) {o s : System}
      → Executes answers parks o s
      → s.executor ≡ failing held owed
      → Progress o s
  unfolding retain_uncertain_buffer
  failing-Progress held owed {s = s} d e =
      retained-Progress (execute_step d (retain held owed e refl) tt) refl

  one_round :
      (x : Executor) {o s : System} → Executes answers parks o s → s.executor ≡ x → Progress o s
  unfolding release_succeeded release_failed
  one_round idle {s = s} d e = (s, d, inl e, (refl, refl, refl, refl, refl))
  one_round (calling held owed) d e = elim (Bool-cases (answers held.buffer)) [
    | inl good ↦ destroyed-Progress held owed (execute_step d (succeed held owed e refl) good) refl
    | inr bad ↦ failing-Progress held owed (execute_step d (fail held owed e refl) bad) refl
  ]
  one_round (failing held owed) d e = failing-Progress held owed d e
  one_round retained d e = retained-Progress d e
  one_round (destroying held owed) d e = destroyed-Progress held owed d e

  rounds_end :
      (k : ℕ) {o s : System}
      → Executes answers parks o s
      → length s.pending_deferred_releases ≡ k
      → Ends o s
  rounds_end zero {s = s} d l =
      let (t, d', step, quiet) = one_round s.executor d refl in
      elim step [
        | inl done ↦ (t, d', done, quiet)
        | inr (held, owed, e, more) ↦ absurd (omega (arith, more, l))
      ]
  rounds_end (suc k) {s = s} d l =
      let (t, d', step, quiet) = one_round s.executor d refl in
      elim step [
        | inl done ↦ (t, d', done, quiet)
        | inr (held, owed, e, more) ↦
            let (u, d'', done, quiet') = rounds_end k d' (omega (arith, more, l)) in
            (u, d'', done, Undisturbed-trans s t u quiet quiet')
      ]

  -- The wait of Stop and Close for the running releases ends: from every reachable state, whatever
  -- the provider answers to the releases that are running and waiting, the executor's own steps, and no
  -- others, lead from that state to one in which the executor has ended, and either no release is owed or
  -- one has failed, which is the condition that they wait for; what is queued or lent, and the
  -- callbacks, are left alone.
  pub join_ends :
      {n q : ℕ} {s : System}
      → Runs n q s
      → (t : System) × Executes answers parks s t
        × (t.release_executor_owned ≡ false)
        × ((t.release_obligations ≡ 0) ⊎ (t.uncertain_release ≡ true))
        × (t.queue ≡ s.queue)
        × (t.leases ≡ s.leases)
        × (t.in_flight ≡ s.in_flight)
  join_ends {s = s} r =
      let (t, d, done, quiet) = rounds_end (length s.pending_deferred_releases) stay refl in
      let r' = Executes-Runs r d in
      let v = Runs-Inv r' in
      let o = Runs-Obliged r' in
      (t, d, ground arith, ground arith, ground arith, ground arith, ground arith)
