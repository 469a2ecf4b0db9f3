-- ===== src/Tests/Nuc.antt =====
-- The NUC events of native/src/ir_nuc.cpp, with a queue of two events.
use ams_gra_mel_bridge.Prelude.{
  ℕ, ◌+◌, ◌<◌, ◌≡◌, refl, ◌≢◌, none, some, List, [], ◌∷◌, pos, All, arith, inl, ◌⊎◌,
}
use ams_gra_mel_bridge.Diagnostic.{Diagnostic}
use ams_gra_mel_bridge.Provider.{ok, stream_stopped}
use ams_gra_mel_bridge.Nuc.{NucState, nuc_opened, receive_arrives, inactive}
use ams_gra_mel_bridge.Nuc.Interleaving.{
  System, fresh, sleeping, ended, arrive, drain_sleeps, Reach, start, next,
}
use ams_gra_mel_bridge.Nuc.Copy.{
  TempPoint, CopiedPoint, uint16, copy_nuc_temp_data, read_points, IsCopyable, copy-read,
}
use ams_gra_mel_bridge.Nuc.Drain.{drain_completes}
use ams_gra_mel_bridge.Nuc.Entry.{receives, queue-receives}

abbrev no_text : Diagnostic
no_text = record { buffer = none; capacity = 0; required = none }

-- One call has come, and the drain sleeps until it has ended.
abbrev one_inside : System ℕ
one_inside = record (fresh 2) {
  state = (receive_arrives (fresh 2).state).1;
  copying = 1;
  drainer = sleeping;
}

one_inside-Reach : Reach (fresh 2) one_inside
unfolding receive_arrives
one_inside-Reach =
    next (next start (arrive refl)) (drain_sleeps (inl refl) (λ e. ground arith) refl)

drain_completes_example :
    ((one_inside.drainer ≢ sleeping) ⊎ (0 < one_inside.copying + one_inside.passing))
    × ((t : System ℕ) × Reach one_inside t
        × (t.drainer ≡ ended)
        × (t.callbacks ≡ 0)
        × (t.taken ≡ one_inside.taken)
        × (t.counters.events_received ≡ one_inside.counters.events_received))
drain_completes_example = drain_completes one_inside-Reach refl (λ e. ground arith)

abbrev point : TempPoint ℕ
point = record {
  timestamp = pos 5;
  frame_band = record { band_type = 14; min_wavelength = 1; max_wavelength = 2 };
  pixel_value = uint16 300;
  temperature = 290;
  point_type = 1;
}

copy-read_example :
    (All IsCopyable (point ∷ [])
      × (cs : List (CopiedPoint ℕ)) × (copy_nuc_temp_data (some (point ∷ [])) ≡ some cs)
      × (read_points cs ≡ some (point ∷ [])))
    ⊎ ((All IsCopyable (point ∷ []) → ⊥) × (copy_nuc_temp_data (some (point ∷ [])) ≡ none))
copy-read_example = copy-read (point ∷ [])

-- Two events are queued and the metadata is closed.
abbrev two_queued : NucState ℕ
two_queued = record (nuc_opened 2) { queue = 5 ∷ 6 ∷ []; lifecycle = inactive }

queue-receives_example :
    receives 3 two_queued no_text ≡ (ok, some 5) ∷ (ok, some 6) ∷ (stream_stopped, none) ∷ []
queue-receives_example =
    queue-receives (5 ∷ 6 ∷ []) two_queued no_text refl (λ e. ground arith) refl
