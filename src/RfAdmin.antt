-- ===== src/RfAdmin.antt =====
-- native/src/rf_admin.cpp: the RF AdminMEL owner, which has no children: its Open, the command of a
-- state, and its Close.
pub mod Calls
use ams_gra_mel_bridge.Prelude.{
  ℕ, ◌+◌, Bool, true, false, ◌||◌, not, Option, none, some, List, [], ◌∷◌, if◌then◌else◌, is_some,
  codes, leb, bit,
}
use ams_gra_mel_bridge.Diagnostic.{Diagnostic, write_diagnostic, clear_diagnostic, bad_diagnostic}
use ams_gra_mel_bridge.Provider.{
  Status, ok, invalid_argument, provider_failed, Call, returned, threw,
  translate_provider_exception,
}
use ams_gra_mel_bridge.RfParent.Open.{RfProvider, OpenArguments, open_family}

-- `AdminState`: whether it holds the library and the provider's AdminMEL, and whether it is on the
-- list of the states that are retained for ever.
pub record AdminState : Type 0 where
  pub library : Bool
  pub admin : Bool
  pub retained : Bool

abbrev pub admin_opened : AdminState
admin_opened = record { library = true; admin = true; retained = false }

-- What the provider sees of an owner after Open.
pub data Event : Type 0 where
  commanded : ℕ → Event
  shut_down admin_destroyed library_unloaded : Event

-- `retain_forever`, which keeps a state that is retained already as it is.
unfoldable pub retain_forever : AdminState → AdminState
retain_forever s = if s.retained then s else record s { retained = true }

abbrev pub mfa_state_max_exclusive : ℕ
mfa_state_max_exclusive = 15

pub rf_admin_open :
    RfProvider → OpenArguments AdminState → Diagnostic → Status × Option AdminState × Diagnostic
rf_admin_open =
    open_family admin_opened (codes "createAdminMEL") (codes "createAdminMEL returned null")

-- The provider's calls behind the command: whether the two controls are not null, and what
-- `commandState` makes of a state.
pub record Controls : Type 0 where
  pub get_uci_control : Call Bool
  pub get_status_control : Call Bool
  pub command_state : ℕ → Call Bool

-- `admin == nullptr || !admin->state || !admin->state->admin`
abbrev no_admin : Option AdminState → Bool
no_admin none = true
no_admin (some s) = not s.admin

abbrev pub invalid_command : Option AdminState → ℕ → Option ℕ → Diagnostic → Bool
invalid_command owner state accepted d =
    no_admin owner
    || (not (is_some accepted) || (leb mfa_state_max_exclusive state || bad_diagnostic d))

-- The call of `commandState`: the status, what is written to `accepted`, the text, and what the
-- provider saw.
unfoldable pub command_controls :
    Controls → ℕ → Option ℕ → Diagnostic → Status × Option ℕ × Diagnostic × List Event
command_controls c state accepted d =
    let failed =
      translate_provider_exception (codes "provider commandState exception")
        (codes "unknown provider commandState exception") in
    elim c.get_uci_control [
      | threw f ↦ let (s, d') = failed f d in (s, accepted, d', [])
      | returned false ↦ (
        provider_failed,
        accepted,
        write_diagnostic (codes "AdminMEL::getUCIControl returned null") d,
        [],
      )
      | returned true ↦ elim c.get_status_control [
        | threw f ↦ let (s, d') = failed f d in (s, accepted, d', [])
        | returned false ↦ (
          provider_failed,
          accepted,
          write_diagnostic (codes "UCI_Control::getStatusControl returned null") d,
          [],
        )
        | returned true ↦ elim (c.command_state state) [
          | threw f ↦ let (s, d') = failed f d in (s, accepted, d', commanded state ∷ [])
          | returned accepts ↦ (ok, some (bit accepts), d, commanded state ∷ [])
        ]
      ]
    ]

unfoldable pub rf_admin_command_state :
    Controls
    → Option AdminState
    → ℕ
    → Option ℕ
    → Diagnostic
    → Status × Option ℕ × Diagnostic × List Event
unfolding command_controls
rf_admin_command_state c owner state accepted d0 =
    let d = clear_diagnostic d0 in
    if invalid_command owner state accepted d0
    then (invalid_argument, accepted, write_diagnostic (codes "invalid argument") d, [])
    else command_controls c state accepted d

-- Close with the state it has taken out of the owner: the status, the state, the text and what the
-- provider saw.
unfoldable pub close_state :
    Call (Unit {0}) → AdminState → Diagnostic → Status × AdminState × Diagnostic × List Event
unfolding retain_forever
close_state shutdown s d = if not s.admin then (ok, s, d, []) else elim shutdown [
  | threw f ↦
      let (status, d') =
        translate_provider_exception (codes "provider shutdown exception")
          (codes "unknown provider shutdown exception") f d in
      (status, retain_forever s, d', shut_down ∷ [])
  | returned _ ↦ (
    ok,
    record s { admin = false; library = false },
    d,
    shut_down ∷ admin_destroyed ∷ library_unloaded ∷ [],
  )
]

-- `ams_mel_rf_admin_close`. The slot is `none` for a null pointer, and `some none` once it is cleared.
unfoldable pub rf_admin_close :
    Call (Unit {0})
    → Option (Option AdminState)
    → Diagnostic
    → Status × Option (Option AdminState) × Option AdminState × Diagnostic × List Event
unfolding close_state
rf_admin_close shutdown slot d0 =
    let d = clear_diagnostic d0 in
    elim slot [
      | none ↦ (invalid_argument, none, none, write_diagnostic (codes "invalid argument") d, [])
      | some owner ↦
          if bad_diagnostic d0
          then (
            invalid_argument,
            some owner,
            owner,
            write_diagnostic (codes "invalid argument") d,
            [],
          )
          else elim owner [
            | none ↦ (ok, some none, none, d, [])
            | some s ↦
                let (status, s', d', seen) = close_state shutdown s d in
                (status, some none, some s', d', seen)
          ]
    ]
