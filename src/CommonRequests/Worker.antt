-- ===== src/CommonRequests/Worker.antt =====
-- native/src/common_channel_requests.cpp: the input of a request's worker, between the thread that
-- submits the request and launches the worker, and the worker.
use ams_gra_mel_bridge.Prelude.{ℕ, ◌≡◌, refl, ◌⊎◌, inl, inr, ◌≢◌, Bool, true, false, arith}

-- Where the submitting thread stands: it has not sent the request; the send has thrown; the request
-- is sent and the input armed; the worker is created; it is detached; the input is disarmed; the
-- request is published; or the launch has failed.
pub data Launcher : Type 0 where
  sending send_failed armed created detached disarmed published launch_failed : Launcher

-- The worker spins on `launch_state` before it touches the input; `caught` is an exception that it
-- caught.
pub data Worker : Type 0 where
  absent spinning running finished caught : Worker

-- `ReturnWorkerInput` or `CommsWorkerInput`: `emergency_self` is whether it owns itself, `retained` its
-- `emergency_retained`.
pub record WorkerInput : Type 0 where
  pub launch_state : ℕ
  pub emergency_self : Bool
  pub retained : Bool

-- `arm_return_worker`, `arm_comms_worker`
abbrev pub arm : WorkerInput → WorkerInput
arm i = record i { emergency_self = true }

-- `retain_return_worker`, `retain_comms_worker`
abbrev pub retain : WorkerInput → WorkerInput
retain i = record i { retained = true }

pub record System : Type 0 where
  pub input : WorkerInput
  pub open input use *
  pub launcher : Launcher
  pub worker : Worker

abbrev pub prepared : System
prepared = record {
  input = record { launch_state = 0; emergency_self = false; retained = false };
  launcher = sending;
  worker = absent;
}

-- A lack of memory is told before the thread is created; what fails later may have created it.
pub data Step (s t : System) : Type 0 where
  send_throws : s.launcher ≡ sending → t ≡ record s { launcher = send_failed } → Step s t
  sent : s.launcher ≡ sending → t ≡ record s { input = arm s.input; launcher = armed } → Step s t
  no_memory :
      s.launcher ≡ armed
      → t ≡ record s { input = retain s.input; launcher = launch_failed }
      → Step s t
  create : s.launcher ≡ armed → t ≡ record s { launcher = created; worker = spinning } → Step s t
  create_throws :
      s.launcher ≡ armed
      → t ≡ record s {
        input = record (retain s.input) { launch_state = 2 };
        launcher = launch_failed;
      }
      → Step s t
  detach : s.launcher ≡ created → t ≡ record s { launcher = detached } → Step s t
  detach_throws :
      s.launcher ≡ created
      → t ≡ record s {
        input = record (retain s.input) { launch_state = 2 };
        launcher = launch_failed;
      }
      → Step s t
  disarm :
      s.launcher ≡ detached
      → t ≡ record s { input = record s.input { emergency_self = false }; launcher = disarmed }
      → Step s t
  publish :
      s.launcher ≡ disarmed
      → t ≡ record s { input = record s.input { launch_state = 1 }; launcher = published }
      → Step s t
  begin : s.worker ≡ spinning → s.launch_state ≢ 0 → t ≡ record s { worker = running } → Step s t
  complete : s.worker ≡ running → t ≡ record s { worker = finished } → Step s t
  complete_throws :
      s.worker ≡ running → t ≡ record s { input = retain (arm s.input); worker = caught } → Step s t

pub data Reach : System → Type 0 where
  start : Reach prepared
  next : {s t : System} → Reach s → Step s t → Reach t

-- Whether the submitting thread has let go of the input, and whether the worker has touched it.
abbrev pub launcher_done : Launcher → Bool
launcher_done published = true
launcher_done launch_failed = true
launcher_done send_failed = true
launcher_done _ = false

abbrev pub begun : Worker → Bool
begun absent = false
begun spinning = false
begun _ = true

abbrev pub is_caught : Worker → Bool
is_caught caught = true
is_caught _ = false

abbrev owns_itself : Launcher → Worker → Bool
owns_itself published w = is_caught w
owns_itself sending w = false
owns_itself send_failed w = false
owns_itself disarmed w = false
owns_itself _ w = true

abbrev is_retained : Launcher → Worker → Bool
is_retained published w = is_caught w
is_retained launch_failed w = true
is_retained _ w = false

-- What the launch state and the worker can be.
abbrev Launched : Launcher → ℕ → Worker → Type 0
Launched published n w = (n ≡ 1) × (w ≢ absent)
Launched launch_failed n w = (n ≢ 0) ⊎ (w ≡ absent)
Launched sending n w = (n ≡ 0) × (w ≡ absent)
Launched send_failed n w = (n ≡ 0) × (w ≡ absent)
Launched armed n w = (n ≡ 0) × (w ≡ absent)
Launched _ n w = (n ≡ 0) × (w ≡ spinning)

record Inv (s : System) : Type 0 where
  itself : s.emergency_self ≡ owns_itself s.launcher s.worker
  kept : s.retained ≡ is_retained s.launcher s.worker
  shape : Launched s.launcher s.launch_state s.worker

-- A worker that is past its spin, or may leave it, finds the launch over.
launch_over :
    (l : Launcher) (n : ℕ) (w : Worker)
    → Launched l n w
    → (w ≡ running) ⊎ ((w ≡ spinning) × (n ≢ 0))
    → (l ≡ published) ⊎ (l ≡ launch_failed)
launch_over published n w v r = inl refl
launch_over launch_failed n w v r = inr refl
launch_over sending n w v r = absurd (ground arith)
launch_over send_failed n w v r = absurd (ground arith)
launch_over armed n w v r = absurd (ground arith)
launch_over created n w v r = absurd (ground arith)
launch_over detached n w v r = absurd (ground arith)
launch_over disarmed n w v r = absurd (ground arith)

Step-Inv : {s t : System} → Step s t → Inv s → Inv t
Step-Inv (send_throws g e) v = ground arith
Step-Inv (sent g e) v = ground arith
Step-Inv (no_memory g e) v = ground arith
Step-Inv (create g e) v = ground arith
Step-Inv (create_throws g e) v = ground arith
Step-Inv (detach g e) v = ground arith
Step-Inv (detach_throws g e) v = ground arith
Step-Inv (disarm g e) v = ground arith
Step-Inv (publish g e) v = ground arith
Step-Inv {s = s} (begin g h e) v =
    elim (launch_over s.launcher s.launch_state s.worker v.shape (inr (g, h))) [
      | inl p ↦ ground arith
      | inr p ↦ ground arith
    ]
Step-Inv {s = s} (complete g e) v =
    elim (launch_over s.launcher s.launch_state s.worker v.shape (inl g)) [
      | inl p ↦ ground arith
      | inr p ↦ ground arith
    ]
Step-Inv {s = s} (complete_throws g e) v =
    elim (launch_over s.launcher s.launch_state s.worker v.shape (inl g)) [
      | inl p ↦ ground arith
      | inr p ↦ ground arith
    ]

Reach-Inv : {s : System} → Reach s → Inv s
Reach-Inv start = ground arith
Reach-Inv (next r st) = Step-Inv st (Reach-Inv r)

one_at_a_time :
    (l : Launcher) (n : ℕ) (w : Worker)
    → Launched l n w
    → (begun w ≡ false) ⊎ (launcher_done l ≡ true)
one_at_a_time published n w v = inr refl
one_at_a_time launch_failed n w v = inr refl
one_at_a_time send_failed n w v = inr refl
one_at_a_time sending n w v = inl (ground arith)
one_at_a_time armed n w v = inl (ground arith)
one_at_a_time created n w v = inl (ground arith)
one_at_a_time detached n w v = inl (ground arith)
one_at_a_time disarmed n w v = inl (ground arith)

published_or_not : (l : Launcher) → (l ≢ published) ⊎ (l ≡ published)
published_or_not published = inr refl
published_or_not launch_failed = inl (λ e. ground arith)
published_or_not send_failed = inl (λ e. ground arith)
published_or_not sending = inl (λ e. ground arith)
published_or_not armed = inl (λ e. ground arith)
published_or_not created = inl (λ e. ground arith)
published_or_not detached = inl (λ e. ground arith)
published_or_not disarmed = inl (λ e. ground arith)

failed_or_not : (l : Launcher) → (l ≢ launch_failed) ⊎ (l ≡ launch_failed)
failed_or_not launch_failed = inr refl
failed_or_not published = inl (λ e. ground arith)
failed_or_not send_failed = inl (λ e. ground arith)
failed_or_not sending = inl (λ e. ground arith)
failed_or_not armed = inl (λ e. ground arith)
failed_or_not created = inl (λ e. ground arith)
failed_or_not detached = inl (λ e. ground arith)
failed_or_not disarmed = inl (λ e. ground arith)

-- From the launch to the end of the worker, under every interleaving, the submitting thread and the
-- worker never touch the input at once: the worker begins when the launch has ended. Once the
-- request is published, the worker exists and may begin, and the input owns itself, and is
-- retained, exactly when the worker has caught an exception; so it goes with a worker that has
-- finished. Once a launch has failed, the input owns itself and is retained, whatever the worker
-- does, so it is never destroyed.
pub launch_settles :
    {s : System}
    → Reach s
    → ((begun s.worker ≡ false) ⊎ (launcher_done s.launcher ≡ true))
      × ((s.launcher ≢ published)
          ⊎ ((s.worker ≢ absent)
              × (s.launch_state ≡ 1)
              × (s.emergency_self ≡ is_caught s.worker)
              × (s.retained ≡ is_caught s.worker)))
      × ((s.launcher ≢ launch_failed) ⊎ ((s.emergency_self ≡ true) × (s.retained ≡ true)))
launch_settles {s} r =
    let v = Reach-Inv r in
    (
      one_at_a_time s.launcher s.launch_state s.worker v.shape,
      elim (published_or_not s.launcher) [
        | inl n ↦ inl n
        | inr e ↦ inr (ground (arith, v.itself, v.kept, v.shape))
      ],
      elim (failed_or_not s.launcher) [
        | inl n ↦ inl n
        | inr e ↦ inr (ground (arith, v.itself, v.kept))
      ],
    )
