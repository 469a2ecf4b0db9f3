-- ===== src/Diagnostic.antt =====
-- native/src/provider.cpp, `write_diagnostic` and `clear_diagnostic`: the text that every entry point
-- leaves in a buffer of the caller. common_channel_requests.cpp has its own copy, `diagnostic`,
-- which differs in refusing NUL in the prefix.
pub mod Longest
pub mod Published
use ams_gra_mel_bridge.Prelude.{
  ℕ, zero, suc, ◌+◌, ◌-◌, ◌≡◌, Bool, true, false, ◌&&◌, not, Option, none, some, List, [], ◌∷◌,
  ◌++◌, min, length, take, drop, ◌==◌, if◌then◌else◌, is_some,
}
use mathlib.Core.Option
use ams_gra_mel_bridge.Utf8.{valid_utf8}

-- The three out-parameters `buffer`, `capacity` and `required`. `none` is a null pointer; a
-- buffer holds the bytes of its storage.
pub record Diagnostic : Type 0 where
  pub buffer : Option (List ℕ)
  pub capacity : ℕ
  pub required : Option ℕ

-- `while (copied != 0 && !valid_utf8(message.substr(0, copied))) --copied;`
unfoldable pub back_off : Bool → List ℕ → ℕ → ℕ
back_off reject_nul message zero = zero
back_off reject_nul message (suc copied) =
    let shorter = back_off reject_nul message copied in
    if valid_utf8 (take (suc copied) message) reject_nul then suc copied else shorter

-- The `memcpy` of `copied` bytes and the NUL after them, over the old storage.
abbrev pub store : List ℕ → ℕ → List ℕ → List ℕ
store message copied old = take copied message ++ (0 ∷ drop (suc copied) old)

unfoldable pub fill : Bool → List ℕ → ℕ → List ℕ → List ℕ
fill reject_nul message capacity old =
    if capacity == 0
    then old
    else store message (back_off reject_nul message (min (length message) (capacity - 1))) old

abbrev pub write_text : Bool → List ℕ → Diagnostic → Diagnostic
write_text reject_nul message d = record d {
  buffer = Option.map (fill reject_nul message d.capacity) d.buffer;
  required = Option.map (λ _. length message + 1) d.required;
}

unfoldable pub write_diagnostic : List ℕ → Diagnostic → Diagnostic
write_diagnostic message d = write_text false message d

-- `diagnostic` of common_channel_requests.cpp.
pub diagnostic : List ℕ → Diagnostic → Diagnostic
diagnostic message d = write_text true message d

pub clear_diagnostic : Diagnostic → Diagnostic
clear_diagnostic d = record d {
  buffer = Option.map (λ (old : List ℕ). if d.capacity == 0 then old else 0 ∷ drop 1 old) d.buffer;
  required = Option.map (λ _. 1) d.required;
}

-- `diagnostic == nullptr && capacity != 0`, which every entry point refuses.
abbrev pub bad_diagnostic : Diagnostic → Bool
bad_diagnostic d = not (is_some d.buffer) && not (d.capacity == 0)

-- The storage behind the pointer is as long as the caller says.
abbrev pub Sized : Option (List ℕ) → ℕ → Type 0
Sized none capacity = Unit
Sized (some storage) capacity = length storage ≡ capacity

abbrev pub IsSized : Diagnostic → Type 0
IsSized d = Sized d.buffer d.capacity

-- The text that a C caller reads: the bytes before the first NUL.
abbrev pub c_string : List ℕ → List ℕ
c_string [] = []
c_string (b ∷ bs) = if b == 0 then [] else b ∷ c_string bs
