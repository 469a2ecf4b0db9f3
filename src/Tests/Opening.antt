-- ===== src/Tests/Opening.antt =====
-- The Sessions of native/src/provider.cpp with a provider that works and with one that fails.
use ams_gra_mel_bridge.Prelude.{◌≡◌, refl, true, some, none, [], ◌++◌, codes}
use ams_gra_mel_bridge.Diagnostic.{Diagnostic}
use ams_gra_mel_bridge.Provider.{ok, returned}
use ams_gra_mel_bridge.Loader.{shared_library, symbol}
use ams_gra_mel_bridge.Session.{IrProvider, OpenArguments, open_session_impl, session_close}
use ams_gra_mel_bridge.Session.Lifetimes.{replay, open-close}

abbrev no_text : Diagnostic
no_text = record { buffer = none; capacity = 0; required = none }

abbrev working : IrProvider
working = record {
  loader = record {
    allocates = true;
    handle = true;
    load_error = none;
    symbol_error = λ _. none;
    address = λ _. true;
  };
  make_manager = returned true;
  make_control = returned true;
  init = returned true;
  allocation = returned tt;
  version = returned (record { api_version = 1; lib_version = 2; vendor = []; description = [] });
}

abbrev arguments : OpenArguments
arguments = record {
  library_path = some (codes "libir.so");
  instance_name = some (codes "ir");
  aperture_config_id = some (codes "a");
  out_session = some none;
}

working_opens : (open_session_impl working arguments 4 no_text).status ≡ ok
unfolding open_session_impl shared_library symbol
working_opens = refl

open-close_example :
    let opened = open_session_impl working arguments 4 no_text in
    let closed = session_close (some opened.session) 0 no_text in
    let shared = session_close (some opened.session) 3 no_text in
    let again = session_close closed.1 0 no_text in
    (replay (opened.log ++ closed.3) [] ≡ some [])
    × (closed.0 ≡ ok)
    × (closed.1 ≡ some none)
    × (shared.3 ≡ [])
    × (shared.0 ≡ ok)
    × (shared.1 ≡ some none)
    × (again.3 ≡ [])
    × (again.1 ≡ some none)
open-close_example = open-close working arguments 4 2 no_text no_text working_opens refl
