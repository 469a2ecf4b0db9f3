-- ===== src/Diagnostic/Published.antt =====
-- What a caller finds in the buffer after `write_diagnostic` of native/src/provider.cpp.
use ams_gra_mel_bridge.Prelude.{
  ℕ, suc, ◌+◌, ◌-◌, ◌≤◌, ◌<◌, ◌≡◌, refl, ap, ◌⊎◌, inl, inr, Bool, true, false, Option, none, some,
  List, [], ◌∷◌, ◌++◌, arith, All, All-take, min, length, length-append, length-take, length-drop,
  take, take-length, drop,
}
use mathlib.Core.Option
use native.Mathlib.Decide.{dec_lt}
use ams_gra_mel_bridge.Utf8.{valid_utf8}
use ams_gra_mel_bridge.Utf8.Correct.{
  IsByte, valid_utf8-pos, valid_utf8-weaken, valid_utf8-strengthen,
}
use ams_gra_mel_bridge.Diagnostic.{
  Diagnostic, back_off, store, fill, write_diagnostic, diagnostic, clear_diagnostic, IsSized, Sized,
  c_string,
}
use ams_gra_mel_bridge.Diagnostic.Longest.{
  back_off-le, back_off-longest, back_off-near, back_off-valid,
}

length-fill :
    (reject_nul : Bool) (message : List ℕ) (capacity : ℕ) (old : List ℕ)
    → length old ≡ capacity
    → length (fill reject_nul message capacity old) ≡ capacity
unfolding fill
length-fill reject_nul message capacity old h =
    let n = min (length message) (capacity - 1) in
    let k = back_off reject_nul message n in
    ground (
      arith,
      back_off-le reject_nul message n,
      length-append (take k message) (0 ∷ drop (suc k) old),
      length-take k message,
      length-drop (suc k) old,
    )

Sized-map :
    (f : List ℕ → List ℕ) (o : Option (List ℕ)) (capacity : ℕ)
    → ((old : List ℕ) → length old ≡ capacity → length (f old) ≡ capacity)
    → Sized o capacity
    → Sized (Option.map f o) capacity
Sized-map f none capacity keep h = tt
Sized-map f (some old) capacity keep h = keep old h

-- No write leaves the caller's storage: if the buffer is as long as `capacity` says, it still is
-- after `write_diagnostic`, after `diagnostic` and after `clear_diagnostic`, whatever the message.
pub write_diagnostic-IsSized :
    (message : List ℕ) (d : Diagnostic)
    → IsSized d
    → IsSized (write_diagnostic message d)
      × IsSized (diagnostic message d)
      × IsSized (clear_diagnostic d)
unfolding write_diagnostic diagnostic clear_diagnostic
write_diagnostic-IsSized message d h = (
  Sized-map _ d.buffer d.capacity (length-fill false message d.capacity) h,
  Sized-map _ d.buffer d.capacity (length-fill true message d.capacity) h,
  Sized-map _ d.buffer d.capacity (λ old e. ground (arith, length-drop 1 old)) h,
)

pub c_string-append : (xs ys : List ℕ) → All (λ b. 0 < b) xs → c_string (xs ++ (0 ∷ ys)) ≡ xs
c_string-append [] ys h = refl
c_string-append (x ∷ xs) ys h = ground (arith, c_string-append xs ys h.1)

-- What stands in a buffer of `capacity` bytes for a message: a prefix of it that is valid UTF-8,
-- ended by a NUL inside the storage, the whole message if it fits, and else at most three bytes
-- short of the room.
pub record Published (message : List ℕ) (capacity : ℕ) (new : List ℕ) : Type 0 where
  pub kept : ℕ
  pub reads : c_string new ≡ take kept message
  pub valid : valid_utf8 (take kept message) true ≡ true
  pub within : kept < capacity
  pub whole : (kept ≡ length message) ⊎ (capacity ≤ length message)
  pub near : min (length message) (capacity - 1) ≤ kept + 3

fill-eq-store :
    (reject_nul : Bool) (message : List ℕ) (capacity : ℕ) (old : List ℕ)
    → 0 < capacity
    → fill reject_nul message capacity old
      ≡ store message (back_off reject_nul message (min (length message) (capacity - 1))) old
unfolding fill
fill-eq-store reject_nul message capacity old h = ground arith

fill-Published :
    (reject_nul : Bool) (message : List ℕ) (capacity : ℕ) (old : List ℕ)
    → All IsByte message
    → valid_utf8 message true ≡ true
    → 0 < capacity
    → Published message capacity (fill reject_nul message capacity old)
fill-Published reject_nul message capacity old bs v h = record {
  kept = k;
  reads = rw (fill-eq-store reject_nul message capacity old h) (
      c_string-append (take k message) (drop (suc k) old)
        (All-take (λ b. 0 < b) k message nonzero));
  valid =
      valid_utf8-strengthen (take k message) reject_nul (All-take IsByte k message bs)
        (All-take (λ b. 0 < b) k message nonzero) (back_off-valid reject_nul message n);
  within = omega (arith, back_off-le reject_nul message n);
  whole = elim (dec_lt (length message) capacity) [
    | yes fits ↦ inl (whole_message fits)
    | no over ↦ inr (omega arith)
  ];
  near = back_off-near reject_nul message n bs weak (omega arith);
}
  where
    n : ℕ
    n = min (length message) (capacity - 1)

    k : ℕ
    k = back_off reject_nul message n

    nonzero : All (λ b. 0 < b) message
    nonzero = valid_utf8-pos message bs v

    weak : valid_utf8 message reject_nul ≡ true
    weak = valid_utf8-weaken message reject_nul bs v

    whole_message : length message < capacity → k ≡ length message
    whole_message fits = elim (dec_lt k (length message)) [
      | yes p ↦
          let bad = back_off-longest reject_nul message n (length message) p (omega arith) in
          cc (
            ap (λ m. valid_utf8 m reject_nul) (take-length (length message) message (omega arith)),
            weak,
          )
      | no p ↦ omega (arith, back_off-le reject_nul message n)
    ]

-- For a message that is valid UTF-8 without NUL, and a buffer of the caller with room for at least
-- one byte, `write_diagnostic` leaves a C string that is a prefix of the message and valid UTF-8,
-- ends inside the buffer, is the whole message if that fits with its NUL, and otherwise falls at
-- most three bytes short of filling the room; `required` is the size for which the message fits.
pub write_diagnostic-Published :
    (message : List ℕ) (d : Diagnostic) (old : List ℕ) (r : ℕ)
    → All IsByte message
    → valid_utf8 message true ≡ true
    → d.buffer ≡ some old
    → 0 < d.capacity
    → d.required ≡ some r
    → (new : List ℕ) × ((write_diagnostic message d).buffer ≡ some new)
      × Published message d.capacity new
      × ((write_diagnostic message d).required ≡ some (length message + 1))
unfolding write_diagnostic
write_diagnostic-Published message d old r bs v hb hc hr = (
  fill false message d.capacity old,
  ap (Option.map (fill false message d.capacity)) hb,
  fill-Published false message d.capacity old bs v hc,
  ap (Option.map (λ _. length message + 1)) hr,
)
