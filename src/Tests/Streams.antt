-- ===== src/Tests/Streams.antt =====
-- Open, Start, Close and the close of a snapshot of native/src/ir_stream.cpp, with one frame queued
-- and one lent.
use ams_gra_mel_bridge.Prelude.{
  ◌≡◌, refl, ◌↔◌, ◌⊎◌, true, false, not, some, none, [], ◌∷◌, ◌==◌, All, arith, replicate,
}
use ams_gra_mel_bridge.Provider.{ok, provider_failed, returned}
use ams_gra_mel_bridge.IrStream.Callback.{Held, running, failed}
use ams_gra_mel_bridge.IrStream.Stream.{ImageStreamState}
use ams_gra_mel_bridge.IrStream.Start.{grow, free_indices, fill_pools, Filled}
use ams_gra_mel_bridge.IrStream.Entry.{Answers, Reply, stream_close}
use ams_gra_mel_bridge.IrStream.Closing.{Calm, Freed, close_snapshots, close-close_snapshots}
use ams_gra_mel_bridge.IrStream.Failing.{close-Poisoned}
use ams_gra_mel_bridge.IrStream.Opening.{StreamConfig, OpenWorld, fresh_stream}
use ams_gra_mel_bridge.IrStream.Starting.{
  BufferWorld, StartWorld, Starts, stream_start, stream_start-settles,
}
use ams_gra_mel_bridge.IrStream.Requests.{
  claim_navigation_submission, finish_image_request, claim_requests, finish_requests,
  close-finish_requests,
}
use ams_gra_mel_bridge.Tests.Frames.{queued_view}

abbrev good : Answers
good = record { releases = λ buffer. true; disables = true; detaches = true; parks = true }

-- The provider does not take wrapper 7 back.
abbrev stubborn : Answers
stubborn = record good { releases = λ buffer. not (buffer == 7) }

abbrev lent : Held
lent = record { buffer = 8; slot = 1 }

-- Two buffers: wrapper 7 is queued, wrapper 8 is in a snapshot.
abbrev two_out : ImageStreamState
two_out = record (fresh_stream 1) {
  callback = record (fill_pools 2 (fresh_stream 1).callback) {
    lifecycle = running;
    free_retention_slots = [];
    queue = queued_view ∷ [];
    retained_frames = 2;
  };
  enable_attempted = true;
}

two_out-Calm : Calm 2 running two_out
unfolding fill_pools free_indices grow replicate
two_out-Calm = record {
  sound = refl;
  nobody = refl;
  none_waits = refl;
  none_owed = refl;
  out = refl;
  room = omega arith;
  life = refl;
  there = refl;
  bytes = refl;
  unasked = refl;
  incomplete = refl;
  unfailed = refl;
}

close-close_snapshots_example :
    ((stream_close good two_out).0 ≡ (ok, []))
    × ((stream_close good two_out).1 ≡ true)
    × ((lent ∷ [] ≡ [])
        ⊎ (((stream_close good two_out).2.storage ≡ true)
            × ((stream_close good two_out).2.channel ≡ true)))
    × All
        (λ (reply : Reply). reply ≡ (ok, []))
        (close_snapshots good (lent ∷ []) (stream_close good two_out).2).0
    × Freed (close_snapshots good (lent ∷ []) (stream_close good two_out).2).1
close-close_snapshots_example =
    close-close_snapshots good (lent ∷ []) two_out refl refl (refl, tt) (refl, tt) two_out-Calm

close-Poisoned_example :
    ((stream_close stubborn two_out).0.0 ≡ provider_failed)
    × ((stream_close stubborn two_out).1 ≡ true)
    × ((stream_close stubborn two_out).2.uncertain_release ≡ true)
    × ((stream_close stubborn two_out).2.emergency_retained ≡ true)
    × ((stream_close stubborn two_out).2.lifecycle ≡ failed)
    × ((stream_close stubborn two_out).2.channel ≡ true)
    × ((stream_close stubborn two_out).2.storage ≡ true)
close-Poisoned_example = close-Poisoned stubborn 1 two_out refl two_out-Calm

abbrev config : StreamConfig
config = record {
  channel_type = 1;
  buffer_count = 1;
  buffer_size = 64;
  queue_capacity = 1;
  channel_label = some [];
  platform_label = some [];
  location_key = some [];
  location_system = some [];
}

-- The channel is attached, and lacks the capability.
abbrev incapable : OpenWorld
incapable = record {
  prepares = returned tt;
  attaches = returned true;
  is_image = true;
  capability = returned false;
  detaches = true;
}

abbrev works : BufferWorld
works = record { gets = returned true; inits = returned true; registers = returned true }

abbrev enabled : StartWorld
enabled = record {
  buffers = works ∷ [];
  reserves = true;
  enables = returned true;
  poisoned_meanwhile = none;
}

stream_start-settles_example :
    let t = stream_start good enabled (fresh_stream 1) in
    let again = stream_start good enabled t.1 in
    ((t.0.0 ≡ ok) ↔ Starts enabled)
    × ((Starts enabled
          × (t.1.lifecycle ≡ running)
          × (t.1.accepting ≡ true)
          × Filled 1 t.1.callback
          × (again.0.0 ≡ ok))
        ⊎ ((Starts enabled → ⊥)
            × (t.1.lifecycle ≡ failed)
            × (t.1.accepting ≡ false)
            × (again.0.0 ≡ provider_failed)))
    × (again.1 ≡ t.1)
stream_start-settles_example = stream_start-settles good enabled enabled 1

-- No wrapper is out.
abbrev at_rest : ImageStreamState
at_rest = record (fresh_stream 1) {
  callback = record (fill_pools 2 (fresh_stream 1).callback) { lifecycle = running };
  enable_attempted = true;
}

at_rest-Calm : Calm 0 running at_rest
unfolding fill_pools free_indices grow replicate
at_rest-Calm = record {
  sound = refl;
  nobody = refl;
  none_waits = refl;
  none_owed = refl;
  out = refl;
  room = omega arith;
  life = refl;
  there = refl;
  bytes = refl;
  unasked = refl;
  incomplete = refl;
  unfailed = refl;
}

nothing_queued : at_rest.queue ≡ []
unfolding fill_pools
nothing_queued = refl

close-finish_requests_example :
    let claimed = claim_requests 2 at_rest in
    let closed = stream_close good claimed.1 in
    let early = finish_requests good 1 closed.2 in
    (claimed.0 ≡ true)
    × (closed.0 ≡ (ok, []))
    × (closed.1 ≡ true)
    × ((claim_navigation_submission closed.2).0 ≡ false)
    × (early.0 ≡ true)
    × (early.1 ≡ record closed.2 { requests = 1 })
    × (early.1.channel ≡ true)
    × (early.1.storage ≡ true)
    × ((finish_image_request good early.1).0 ≡ true)
    × Freed (finish_image_request good early.1).1
close-finish_requests_example =
    close-finish_requests good 1 at_rest refl refl nothing_queued at_rest-Calm
