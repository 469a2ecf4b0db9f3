-- ===== src/Lib.antt =====
-- The native layer of the bridge (native/src), which wraps C++ providers of infrared and radio
-- sensors, loaded at run time, behind a C interface: handles that are opened and closed, calls
-- that return a status and leave a text in a buffer of the caller, and threads of the provider
-- that call back. The modules model that layer as functions on explicit state, and its
-- interleavings as step relations.
--
-- Utf8 is `valid_utf8` of native/src/provider.cpp, and Diagnostic its `write_diagnostic` and
-- `clear_diagnostic`, which every entry point uses; texts are lists of bytes. Provider is the
-- status codes of native/include/ams_mel/abi.h and the `catch` ladders that turn a fault of a
-- provider into a status and a text. Version is `publish_provider_version`. Loader is the wrapper
-- of native/src/internal/shared_library.hpp around the dynamic loader.
--
-- Session is `open_session_impl`, `ams_mel_session_open`, `ams_mel_session_open_with_options`,
-- `ams_mel_session_get_provider_version` and `ams_mel_session_close` of native/src/provider.cpp.
-- The provider's calls are arguments, and a log records which object is built or destroyed when.
-- Destructors are `noexcept`, so what one throws ends the process; the handlers around the
-- `delete` of Close are not modelled. Admission is CompletionAdmission, CompletionPermit and
-- `acquire_completion_permit` of native/src/internal.hpp, the limit on the requests of a Session:
-- one atomic access is one step of one thread, and there may be any number of threads.
--
-- RfParent is what the owners of native/src/rf_data.cpp and native/src/rf_c2.cpp share: a provider
-- object that is shut down once, when its public owner is closed and its last child is gone.
-- RfParent/Lifecycle is the step relation over a parent, its owner and its children's claims, for
-- any Family: the functions in which the two files differ and the laws they obey. RfData and RfC2
-- are the functions of the two files; they fill that interface. RfParent/Open is their Open, and
-- that of RfAdmin. RfData/Snapshots and RfData/Modes are the snapshots that native/src/rf_data.cpp
-- makes of a provider's array, transmit power modes and geometry: a copy of what every getter
-- returns, of which a span is the storage that it points to; RfData/Copied proves the first of
-- them.
--
-- RfAdmin is native/src/rf_admin.cpp, an owner without children, whose Close shuts the provider
-- down at once; RfAdmin/Calls is a client's calls one after the other, and what the provider sees
-- of them.
--
-- ProductRx is native/src/rf_product_rx.cpp. Callback is RfRxCallbackState and its critical
-- sections, and Interleaving the step relation over an endpoint: callbacks of the provider,
-- Receives, and the thread that closes it; Queue, Counters, Shutdown and Body prove it. Create is
-- `settle`, Request the CreateCompletion and what Wait, Claim and Close do to it, Submit
-- `submit_product_rx`, Entry the entry points as wholes. Ownership is the step relation over a
-- request, its worker and the owner of the claimed endpoint; Claims, Abandoned, Settle, Admit and
-- Twice prove it. Event is `build_event` and Pointing `copy_pointing`, Views the nine views of an
-- event, by the storage that each shows; Points, Copies and Visible prove them. An endpoint and a
-- request hold a claim of RfData on their parent, and Submit calls its acquire and its release.
--
-- CommonRequests is `submit_common` of native/src/common_channel_requests.cpp, which takes a
-- permit of Admission and a claim of its channel's family for each request;
-- CommonRequests/Complete is `complete_return` and the Wait of a Return request,
-- CommonRequests/Comms the same for a CommsTest request. CommonRequests/Worker is the step
-- relation of the thread that launches a worker with that worker, and CommonRequests/Channel the
-- weak view `ams_mel_ir_channel` and the requests through it.
--
-- VaStatus is the status signal of native/src/rf_va_status.cpp: a callback of the provider raises
-- it, a subscriber's Wait lowers it, and a stop ends it; VaStatus/Signal has its interleavings.
--
-- IrStream is native/src/ir_stream.cpp, the image stream: a provider calls back with frames, each
-- in a buffer that must be given back to it once. Frame is `snapshot_frame`, of which Copied says
-- what it keeps, and Image the checks of `CallbackState::image`; Callback is CallbackState and its
-- critical sections, among them those of `release_buffer`; Stream is ImageStreamState of
-- native/src/internal/ir_stream.hpp and the parts of `image_stream_cleanup` that run under the
-- mutex. Interleaving is the step relation over a stream: the callbacks of Listener, the executor
-- that calls the buffers' `release()` one after the other, and the application, which takes
-- frames, gives them back, stops, closes and tears down. Start is what `ams_mel_ir_stream_start`
-- prepares, and the states that are reached from there; Deferred, Accounts, Pool, Owned, Slots,
-- Once, Bounds, Healthy, Join and Frames prove them. Entry is `release_buffer`, `teardown`,
-- `image_stream_cleanup`, `finish_deferred_cleanup_from_external_owner`, Stop, Close and the close
-- of a snapshot as calls that nothing disturbs, with Closing and Failing about them; Receive is
-- the critical sections of the two Receives from the end of their wait on, Consume the owned-copy
-- Receive as a whole, with the release that Untouched is about, and Opening and Starting are Open
-- and Start.
--
-- In IrStream a number names a wrapper: the object that one callback brings, of which a provider
-- may make several for one buffer. No slot of `retention_slots` ever holds a wrapper in the code,
-- so that vector is its size; a vector that is used as a stack is a list whose head is the
-- `back()`. A provider makes no callback on a channel that is destroyed. Start and Stop are not
-- called at once, as the interface asks. The executor's loop in Entry runs on as much fuel as
-- wrappers wait, and one more: each round takes one off, and none comes when nothing disturbs it.
-- The owners of metadata that a Stop tells, what happens when a mutex cannot be locked, and the
-- failpoints of tests are not modelled there.
--
-- IrStream/Queries is the calls that only read, and IrStream/Requests the claims of the stream's
-- channel by requests and by metadata owners, and the end of a request.
--
-- Health is the MetadataState of native/src/ir_health.cpp, the queue of the events of a health
-- channel, by its critical sections. Health/Interleaving is the step relation over the callbacks,
-- the Receives and the end of `cleanup`, which waits on a condition variable for the callbacks:
-- there a test, the sleep after it and the wake-up are steps of their own, and a waiter wakes only
-- when it is notified. Health/Events and Health/Drain prove it. Health/Channel is the HealthState
-- with its requests, its `cleanup` and its Close, each as a call that nothing disturbs. The copies
-- of the events and Open are not modelled there.
--
-- Nuc is the NucState of native/src/ir_nuc.cpp, a queue of events like that of Health, whose calls
-- are counted under the mutex. Nuc/Interleaving is the step relation over the calls of `receive`,
-- the Receives and `drain_and_stop`, a critical section at a time, with the locks that fail but
-- that of the drain; Nuc/Drain and Nuc/Events prove it. Nuc/Copy is `copy_nuc_temp_data`, and
-- Nuc/Entry the entry points, Receive from the end of its wait on, and `open_nuc_owner` of
-- native/src/internal/ir_nuc.hpp.
--
-- `Loader`, `Call` and the provider records stand for the loader and the providers, which are not
-- part of the repository: any answer is possible in the theorems. Allocation failures are answers
-- too, where the code handles them. The memory orders of the atomics are not modelled: a step is a
-- single access in one order that all threads see. The `while` loop of `valid_utf8` runs on as
-- much fuel as the text is long, and each pass drops a byte. Machine words keep their width in
-- Admission (32 bits) and in RfC2 (64 bits); the required size of a diagnostic, the length of a
-- text in memory and one more, is a natural number. The counters of ProductRx keep 64 bits. A wait
-- on a condition variable is, but in Health and Nuc, modelled by what it waits for: the step that
-- follows it. The other files of native/src (jobs, virtual apertures, command and control, tracks,
-- calibration, camera, navigation), and the code that only tests reach, are not modelled.
--
-- Tests holds concrete runs, and each theorem below at a concrete input.
pub mod Prelude
pub mod Utf8
pub mod Diagnostic
pub mod Provider
pub mod Version
pub mod Loader
pub mod Session
pub mod Admission
pub mod RfParent
pub mod RfData
pub mod RfC2
pub mod RfAdmin
pub mod ProductRx
pub mod VaStatus
pub mod CommonRequests
pub mod IrStream
pub mod Health
pub mod Nuc
pub mod Tests
