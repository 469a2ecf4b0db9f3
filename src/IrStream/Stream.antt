-- ===== src/IrStream/Stream.antt =====
-- native/src/internal/ir_stream.hpp, ImageStreamState, and the parts of its teardown in
-- native/src/ir_stream.cpp that run under the callback mutex.
use ams_gra_mel_bridge.Prelude.{ℕ, Bool, true, false, ◌&&◌, ◌||◌, not, ◌==◌, if◌then◌else◌}
use ams_gra_mel_bridge.IrStream.Callback.{
  stopping, stopped, failed, is_failed, terminal, CallbackState,
}

-- `channel` and `storage` are whether the provider's channel, and the buffers with the host bytes,
-- are still there.
pub record ImageStreamState : Type 0 where
  pub callback : CallbackState
  pub open callback use *
  pub channel : Bool
  pub storage : Bool
  pub enable_attempted : Bool
  pub requests : ℕ
  pub public_owner_closed : Bool
  pub cleanup_in_progress : Bool
  pub cleanup_complete : Bool
  pub cleanup_ok : Bool
  pub cleanup_failed : Bool
  pub emergency_retained : Bool

-- `logical_stop`, without the metadata owners that it tells.
unfoldable pub logical_stop : Bool → ImageStreamState → ImageStreamState
logical_stop failure s = record s {
  callback = record s.callback {
    accepting = false;
    lifecycle = if is_failed s.lifecycle then failed else if failure then failed else stopping;
  };
}

-- `image_stream_retain_failed`
abbrev pub image_stream_retain_failed : ImageStreamState → ImageStreamState
image_stream_retain_failed s = record s { emergency_retained = true }

-- A release that is not finished, or a wrapper that is out or withheld for ever.
abbrev pub owes_release : CallbackState → Bool
owes_release c =
    not (c.retained_frames == 0)
    || not (c.release_obligations == 0)
    || c.release_executor_owned
    || c.uncertain_release

-- Whether `image_stream_cleanup` goes on to the provider.
abbrev pub cleanup_admitted : Bool → ImageStreamState → Bool
cleanup_admitted deferred s =
    s.requests == 0
    && not (owes_release s.callback)
    && not s.cleanup_complete
    && (not deferred || terminal s.lifecycle || s.public_owner_closed)
    && s.channel

-- What it takes: the channel, and the right to clean up.
unfoldable pub claim_cleanup : ImageStreamState → ImageStreamState
claim_cleanup s = record s { cleanup_in_progress = true; channel = false }

-- The channel could not be detached, and is put back.
unfoldable pub restore_channel : Bool → ImageStreamState → ImageStreamState
restore_channel owner_closed s = record s {
  callback = record s.callback { lifecycle = failed };
  channel = true;
  cleanup_failed = true;
  cleanup_in_progress = false;
  emergency_retained = owner_closed || s.emergency_retained;
}

-- After the callbacks are drained: an ownership that has become uncertain keeps the buffers and the
-- host bytes for ever.
unfoldable pub keep_storage : ImageStreamState → ImageStreamState
keep_storage s = record s {
  callback = record s.callback { accepting = false; lifecycle = failed };
  enable_attempted = false;
  cleanup_ok = false;
  cleanup_complete = true;
  cleanup_failed = true;
  cleanup_in_progress = false;
  emergency_retained = true;
}

-- Else they are freed.
unfoldable pub free_storage : Bool → ImageStreamState → ImageStreamState
free_storage failure s = record s {
  callback = record s.callback { lifecycle = if failure then failed else stopped };
  storage = false;
  enable_attempted = false;
  cleanup_ok = not failure;
  cleanup_complete = true;
  cleanup_in_progress = false;
}
