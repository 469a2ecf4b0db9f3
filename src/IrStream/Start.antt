-- ===== src/IrStream/Start.antt =====
-- native/src/ir_stream.cpp, `ams_mel_ir_stream_start`: the pools that it fills before the channel is
-- enabled, and the stream from which the callbacks run.
use ams_gra_mel_bridge.Prelude.{
  ℕ, zero, suc, ◌-◌, Bool, true, false, Option, none, List, [], ◌∷◌, ◌++◌, length, replicate,
  numbers, ltb, map, is_some, ◌≡◌, refl, ap, if◌then◌else◌, arith,
}
use ams_gra_mel_bridge.IrStream.Callback.{attached, starting, Counters, no_release, CallbackState}
use ams_gra_mel_bridge.IrStream.Interleaving.{System, idle, untouched, Step}

module _ {ℓ} {A : Type ℓ} where
  -- `resize` to at least this size.
  unfoldable pub grow : ℕ → A → List A → List A
  unfolding replicate
  grow size x xs = xs ++ replicate (size - length xs) x

-- The loops that push the indices of the empty slots, the highest first; `from` is the index of
-- the first slot of the list.
unfoldable pub free_indices : ℕ → List Bool → List ℕ
free_indices from [] = []
free_indices from (true ∷ slots) = free_indices (suc from) slots
free_indices from (false ∷ slots) = from ∷ free_indices (suc from) slots

abbrev no_counters : Counters
no_counters = record {
  frames_received = 0;
  frames_dropped_queue_full = 0;
  malformed_or_unsupported_frames = 0;
}

-- As `ams_mel_ir_stream_open` makes it.
abbrev pub opened : ℕ → CallbackState
opened queue_capacity = record {
  queue = [];
  capacity = queue_capacity;
  accepting = false;
  lifecycle = attached;
  counters = no_counters;
  retained_frames = 0;
  retention_slots = 0;
  free_retention_slots = [];
  release_executor_owned = false;
  uncertain_slots = [];
  free_uncertain_slots = [];
  deferred_releases = [];
  free_deferred_releases = [];
  pending_deferred_releases = [];
  release_obligations = 0;
  uncertain_release = false;
}

abbrev larger : ℕ → ℕ → ℕ
larger m n = if ltb m n then n else m

-- The critical section before `enable`, less the ranges that it registers.
unfoldable pub fill_pools : ℕ → CallbackState → CallbackState
unfolding grow free_indices
fill_pools buffer_count s =
    let holds = larger s.retention_slots buffer_count in
    let uncertain = grow buffer_count none s.uncertain_slots in
    let deferred = grow buffer_count no_release s.deferred_releases in
    record s {
      retention_slots = holds;
      free_retention_slots = free_indices 0 (replicate holds false);
      uncertain_slots = uncertain;
      free_uncertain_slots = free_indices 0 (map is_some uncertain);
      deferred_releases = deferred;
      free_deferred_releases = free_indices 0 (map (λ release. is_some release.buffer) deferred);
      pending_deferred_releases = [];
      accepting = true;
    }

-- The stream at the call of `enable`.
abbrev pub enabling : ℕ → ℕ → System
enabling buffer_count queue_capacity = record {
  stream = record {
    callback = record (fill_pools buffer_count (opened queue_capacity)) { lifecycle = starting };
    channel = true;
    storage = true;
    enable_attempted = true;
    requests = 0;
    public_owner_closed = false;
    cleanup_in_progress = false;
    cleanup_complete = false;
    cleanup_ok = false;
    cleanup_failed = false;
    emergency_retained = false;
  };
  in_flight = 0;
  entering = 0;
  unslotted = [];
  bodies = [];
  refused = [];
  leases = [];
  executor = idle;
  teardown = untouched;
  handed = [];
  called = [];
  withheld = [];
  unattempted = [];
  uncertain = [];
  conforms = true;
  stored = [];
  delivered = [];
  discarded = [];
  late = 0;
}

-- The states that are reached from there.
pub data Runs (buffer_count queue_capacity : ℕ) : System → Type 0 where
  start : Runs buffer_count queue_capacity (enabling buffer_count queue_capacity)
  next :
      {s t : System}
      → Runs buffer_count queue_capacity s
      → Step s t
      → Runs buffer_count queue_capacity t

module _ {ℓ} {A : Type ℓ} where
  pub grow-nil : (size : ℕ) (x : A) → grow size x [] ≡ replicate size x
  unfolding grow
  grow-nil zero x = refl
  grow-nil (suc size) x = ap (λ n. replicate n x) {y = suc size} (omega arith)

pub map-replicate {ℓ κ} :
    {A : Type ℓ} {B : Type κ} (f : A → B) (n : ℕ) (x : A)
    → map f (replicate n x) ≡ replicate n (f x)
unfolding replicate
map-replicate f zero x = refl
map-replicate f (suc n) x = ap (◌∷◌ (f x)) (map-replicate f n x)

pub free_indices-replicate : (from n : ℕ) → free_indices from (replicate n false) ≡ numbers from n
unfolding free_indices replicate
free_indices-replicate from zero = refl
free_indices-replicate from (suc n) = ap (◌∷◌ from) (free_indices-replicate (suc from) n)

-- What Start makes of the pools of a stream that has just been opened.
pub record Filled (n : ℕ) (c : CallbackState) : Type 0 where
  pub slots : c.retention_slots ≡ n
  pub free_slots : c.free_retention_slots ≡ numbers 0 n
  pub owners : c.uncertain_slots ≡ replicate n none
  pub free_owners : c.free_uncertain_slots ≡ numbers 0 n
  pub waiting : c.deferred_releases ≡ replicate n no_release
  pub free_waiting : c.free_deferred_releases ≡ numbers 0 n
  pub nothing_pending : c.pending_deferred_releases ≡ []

larger-zero : (n : ℕ) → larger 0 n ≡ n
larger-zero n = ground arith

pub fill_pools-Filled : (n q : ℕ) → Filled n (fill_pools n (opened q))
unfolding fill_pools
fill_pools-Filled n q = record {
  slots = larger-zero n;
  free_slots = rw larger-zero (free_indices-replicate 0 n);
  owners = grow-nil n none;
  free_owners = rw (grow-nil {A = Option ℕ} n none, map-replicate) (free_indices-replicate 0 n);
  waiting = grow-nil n no_release;
  free_waiting = rw (grow-nil n no_release, map-replicate) (free_indices-replicate 0 n);
  nothing_pending = refl;
}
