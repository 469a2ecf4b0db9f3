-- ===== src/Tests/Slots.antt =====
-- The admission of native/src/internal.hpp with two threads and one slot.
use ams_gra_mel_bridge.Prelude.{◌<◌, ◌≤◌, ◌≡◌, ◌↔◌, refl, true, false, some, [], ◌∷◌, ◌++◌, arith}
use ams_gra_mel_bridge.Admission.{
  CompletionAdmission, outside, looping, holding, System, Reach, start, next, pick, spawn, load,
  win, acquire_completion_permit,
}
use ams_gra_mel_bridge.Admission.Slots.{holders, Solo, Reach-active, acquire_completion_permit-Solo}

abbrev one_slot : CompletionAdmission
one_slot = record { maximum = 1; active = 0 }

abbrev taken : CompletionAdmission
taken = record { maximum = 1; active = 1 }

abbrev fresh_pair : System
fresh_pair = record { admission = one_slot; threads = outside ∷ outside ∷ [] }

fresh_pair-Reach : Reach 1 fresh_pair
fresh_pair-Reach = next (next start (spawn refl)) (spawn refl)

abbrev first_holds : System
first_holds = record { admission = taken; threads = holding ∷ outside ∷ [] }

first_holds-Reach : Reach 1 first_holds
first_holds-Reach =
    next (next fresh_pair-Reach (pick [] (outside ∷ []) refl load refl))
      (pick [] (outside ∷ []) refl (win (omega arith) refl) refl)

abbrev second_looks : System
second_looks = record { admission = taken; threads = holding ∷ looping 1 ∷ [] }

second_looks-Reach : Reach 1 second_looks
second_looks-Reach = next first_holds-Reach (pick (holding ∷ []) [] refl load refl)

Reach-active_example :
    (first_holds.admission.active ≡ holders first_holds.threads) × (holders first_holds.threads ≤ 1)
Reach-active_example = Reach-active (omega arith) first_holds-Reach

acquire_completion_permit-Solo_example :
    Solo [] (outside ∷ []) one_slot (acquire_completion_permit (some one_slot) false)
    × (((acquire_completion_permit (some one_slot) false).0 ≡ true)
        ↔ (holders ([] ++ outside ∷ []) < 1))
acquire_completion_permit-Solo_example =
    acquire_completion_permit-Solo one_slot [] (outside ∷ []) (omega arith) fresh_pair-Reach
