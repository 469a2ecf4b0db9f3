-- ===== src/IrStream/Opening.antt =====
-- native/src/ir_stream.cpp: `ams_mel_ir_stream_open`, from valid handles on.
use ams_gra_mel_bridge.Prelude.{
  ℕ, ◌-◌, ◌^◌, ◌≡◌, ◌↔◌, ◌⊎◌, Bool, true, false, not, ◌&&◌, Option, none, some, List, [], arith,
  leb, ◌==◌, if◌then◌else◌, codes,
}
use ams_gra_mel_bridge.Utf8.{valid_utf8}
use ams_gra_mel_bridge.Provider.{
  ok, invalid_argument, factory_failed, initialization_failed, provider_failed, provider_exception,
  internal_error, Call, returned, threw, Fault,
}
use ams_gra_mel_bridge.IrStream.Stream.{ImageStreamState}
use ams_gra_mel_bridge.IrStream.Start.{opened}
use ams_gra_mel_bridge.IrStream.Entry.{Reply}

-- `ams_mel_ir_stream_config_v1`; a string view is `none` for a null pointer with a size above 0.
pub record StreamConfig : Type 0 where
  pub channel_type : ℕ
  pub buffer_count : ℕ
  pub buffer_size : ℕ
  pub queue_capacity : ℕ
  pub channel_label : Option (List ℕ)
  pub platform_label : Option (List ℕ)
  pub location_key : Option (List ℕ)
  pub location_system : Option (List ℕ)

abbrev pub valid_view : Option (List ℕ) → Bool
valid_view none = false
valid_view (some text) = valid_utf8 text true

-- `AMS_MEL_IR_CHANNEL_IRST_IMAGE`
abbrev pub irst_image : ℕ
irst_image = 1

abbrev pub int64_max : ℕ
int64_max = 2 ^ 63 - 1

unfoldable pub valid_config : StreamConfig → Bool
valid_config c =
    c.channel_type == irst_image
    && not (c.buffer_count == 0)
    && not (c.buffer_size == 0)
    && not (c.queue_capacity == 0)
    && leb c.buffer_size int64_max
    && leb (c.buffer_count - 1) int64_max
    && valid_view c.channel_label
    && valid_view c.platform_label
    && valid_view c.location_key
    && valid_view c.location_system

abbrev pub is_returned {ℓ} : {A : Type ℓ} → Call A → Bool
is_returned (returned a) = true
is_returned (threw f) = false

abbrev pub answers_true : Call Bool → Bool
answers_true (returned answer) = answer
answers_true (threw f) = false

-- What Open meets: what the allocations and the symbol of the buffer factory do before the channel
-- is attached, what `attachChannel` gives (`false` is null), whether the channel is an
-- ImageChannel, whether its capability is supported, and whether `detachChannel` returns Success.
pub record OpenWorld : Type 0 where
  pub prepares : Call (Unit {0})
  pub attaches : Call Bool
  pub is_image : Bool
  pub capability : Call Bool
  pub detaches : Bool

-- What Open leaves: the stream that it hands out; whether the provider may still have the channel;
-- and whether the owner is kept for ever.
pub record Opened : Type 0 where
  pub reply : Reply
  pub stream : Option ImageStreamState
  pub attached_still : Bool
  pub kept : Bool

abbrev failing_open : Reply → Opened
failing_open r = record { reply = r; stream = none; attached_still = false; kept = false }

unfoldable pub open_fault : Fault → Reply
open_fault Fault.bad_alloc = (internal_error, codes "allocation failed")
open_fault _ = (provider_exception, codes "provider exception during stream open")

abbrev pub fresh_stream : ℕ → ImageStreamState
fresh_stream queue_capacity = record {
  callback = opened queue_capacity;
  channel = true;
  storage = true;
  enable_attempted = false;
  requests = 0;
  public_owner_closed = false;
  cleanup_in_progress = false;
  cleanup_complete = false;
  cleanup_ok = false;
  cleanup_failed = false;
  emergency_retained = false;
}

abbrev unsupported_channel : Bool → Opened
unsupported_channel true =
    failing_open
      (initialization_failed, codes "provider does not advertise Mono8 single-band capability")
unsupported_channel false = record {
  reply = (provider_failed, codes "incompatible channel and detach failed");
  stream = none;
  attached_still = true;
  kept = true;
}

abbrev unanswered : Bool → Fault → Opened
unanswered true f = failing_open (open_fault f)
unanswered false f = record {
  reply = (provider_failed, codes "capability query and detach failed");
  stream = none;
  attached_still = true;
  kept = true;
}

-- After the channel is attached.
unfoldable pub open_attached : OpenWorld → ℕ → Opened
unfolding open_fault
open_attached w queue_capacity =
    if not w.is_image then unsupported_channel w.detaches else elim w.capability [
      | threw f ↦ unanswered w.detaches f
      | returned false ↦ unsupported_channel w.detaches
      | returned true ↦ record {
        reply = (ok, []);
        stream = some (fresh_stream queue_capacity);
        attached_still = true;
        kept = false;
      }
    ]

unfoldable pub stream_open : OpenWorld → StreamConfig → Opened
unfolding valid_config open_attached
stream_open w c =
    if not (valid_config c)
    then failing_open (invalid_argument, codes "invalid IR stream configuration")
    else elim w.prepares [
      | threw f ↦ failing_open (open_fault f)
      | returned done ↦ elim w.attaches [
        | threw f ↦ failing_open (open_fault f)
        | returned false ↦ failing_open (factory_failed, codes "attachChannel returned null")
        | returned true ↦ open_attached w c.queue_capacity
      ]
    ]

-- All goes well in Open.
abbrev pub opens : OpenWorld → StreamConfig → Bool
opens w c =
    valid_config c
    && is_returned w.prepares
    && answers_true w.attaches
    && w.is_image
    && answers_true w.capability

-- Open hands out a stream exactly when it returns `ok`, which is exactly when the configuration is
-- valid, the allocations and the factory's symbol are found, the channel is attached, is an image
-- channel and supports the format. The stream is then attached, with nothing queued. When Open
-- fails, the channel is not left attached, unless the provider has not detached it: then the
-- owner is kept for ever, and `provider_failed` is returned.
pub stream_open-settles :
    (w : OpenWorld) (c : StreamConfig)
    → (((stream_open w c).reply.0 ≡ ok) ↔ (opens w c ≡ true))
      × (((stream_open w c).stream ≡ some (fresh_stream c.queue_capacity)) ↔ (opens w c ≡ true))
      × ((opens w c ≡ true)
          ⊎ (((stream_open w c).stream ≡ none)
              × ((stream_open w c).attached_still ≡ (stream_open w c).kept)
              × (((stream_open w c).kept ≡ false)
                  ⊎ ((w.detaches ≡ false) × ((stream_open w c).reply.0 ≡ provider_failed)))))
unfolding stream_open open_attached open_fault
stream_open-settles w c =
    ((λ e. ground arith, λ e. ground arith), (λ e. ground arith, λ e. ground arith), ground arith)
