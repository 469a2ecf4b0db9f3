-- ===== src/RfAdmin/Calls.antt =====
-- native/src/rf_admin.cpp: the calls that a client makes on one owner, one after the other, and what
-- the provider sees of them.
use ams_gra_mel_bridge.Prelude.{
  ℕ, true, ◌||◌, not, Option, none, some, List, [], ◌∷◌, ◌++◌, if◌then◌else◌, is_some, leb,
}
use ams_gra_mel_bridge.Diagnostic.{Diagnostic, bad_diagnostic}
use ams_gra_mel_bridge.Provider.{Call, returned, threw}
use ams_gra_mel_bridge.RfAdmin.{
  AdminState, Event, commanded, shut_down, admin_destroyed, library_unloaded, Controls,
  mfa_state_max_exclusive, rf_admin_command_state, rf_admin_close,
}

-- A call of `ams_mel_rf_admin_command_state` or of `ams_mel_rf_admin_close` on the client's slot, with
-- what the provider answers.
pub data Request : Type 0 where
  command : Controls → ℕ → Option ℕ → Diagnostic → Request
  close : Call (Unit {0}) → Diagnostic → Request

abbrev slot_after : Option (Option AdminState) → Option AdminState
slot_after none = none
slot_after (some owner) = owner

-- What a call leaves in the slot, and what the provider sees of it.
unfoldable pub serve : Request → Option AdminState → Option AdminState × List Event
unfolding rf_admin_command_state rf_admin_close
serve (command c state accepted d) owner =
    (owner, (rf_admin_command_state c owner state accepted d).3)
serve (close shutdown d) owner =
    let r = rf_admin_close shutdown (some owner) d in (slot_after r.1, r.4)

unfoldable pub seen : List Request → Option AdminState → List Event
unfolding serve
seen [] owner = []
seen (q ∷ qs) owner = (serve q owner).1 ++ seen qs (serve q owner).0

-- A command reaches `commandState` when its arguments are valid and the provider has both controls.
unfoldable pub reached : Controls → ℕ → Option ℕ → Diagnostic → List Event
reached c state accepted d =
    if not (is_some accepted) || (leb mfa_state_max_exclusive state || bad_diagnostic d)
    then []
    else elim c.get_uci_control [
      | returned true ↦ elim c.get_status_control [ returned true ↦ commanded state ∷ [] | _ ↦ [] ]
      | _ ↦ []
    ]

-- The provider's AdminMEL is destroyed, and the library unloaded after it, unless `shutdown` threw.
unfoldable pub torn_down : Call (Unit {0}) → List Event
torn_down (returned _) = shut_down ∷ admin_destroyed ∷ library_unloaded ∷ []
torn_down (threw _) = shut_down ∷ []

-- The calls that are due: the commands up to the first Close with valid arguments, then its teardown.
unfoldable pub due : List Request → List Event
unfolding reached torn_down
due [] = []
due (command c state accepted d ∷ qs) = reached c state accepted d ++ due qs
due (close shutdown d ∷ qs) = if bad_diagnostic d then due qs else torn_down shutdown
