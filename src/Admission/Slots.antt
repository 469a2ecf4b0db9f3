-- ===== src/Admission/Slots.antt =====
-- The slots of a CompletionAdmission of native/src/internal.hpp, under every interleaving.
use ams_gra_mel_bridge.Prelude.{
  ℕ, suc, ◌+◌, ◌^◌, ◌≤◌, ◌<◌, ◌≡◌, refl, sym, ap, ◌∙◌, subst, Bool, true, false, Option, none, some,
  List, [], ◌∷◌, ◌++◌, arith, All, All-append, All-split, inl, inr, ◌↔◌, ltb, Bool-cases,
}
use ams_gra_mel_bridge.Admission.{
  CompletionAdmission, Thread, outside, refused, holding, looping, Move, load, full, win, lose,
  release, again, acquire_completion_permit, System, Step, pick, spawn, Reach, start, next,
}

abbrev pub holders : List Thread → ℕ
holders [] = 0
holders (holding ∷ ts) = suc (holders ts)
holders (_ ∷ ts) = holders ts

abbrev weight : Thread → ℕ
weight holding = 1
weight _ = 0

holders-split :
    (xs ys : List Thread) (t : Thread) → holders (xs ++ t ∷ ys) ≡ holders (xs ++ ys) + weight t
holders-split [] ys holding = omega arith
holders-split [] ys outside = omega arith
holders-split [] ys refused = omega arith
holders-split [] ys (looping c) = omega arith
holders-split (holding ∷ xs) ys t = omega (arith, holders-split xs ys t)
holders-split (outside ∷ xs) ys t = holders-split xs ys t
holders-split (refused ∷ xs) ys t = holders-split xs ys t
holders-split (looping c ∷ xs) ys t = holders-split xs ys t

-- A thread in the loop has read a value that `active` had.
abbrev pub IsFresh : ℕ → Thread → Type 0
IsFresh maximum (looping count) = count ≤ maximum
IsFresh maximum _ = Unit {0}

pub record Inv (maximum : ℕ) (s : System) : Type 0 where
  pub limit : s.admission.maximum ≡ maximum
  pub counted : s.admission.active ≡ holders s.threads
  pub within : s.admission.active ≤ maximum
  pub fresh : All (IsFresh maximum) s.threads

-- What one step does to the counter, and that a value read is in range.
abbrev Effect : CompletionAdmission → Thread → CompletionAdmission → Thread → Type 0
Effect a p a' q =
    (a'.maximum ≡ a.maximum)
    × (a'.active + weight p ≡ a.active + weight q)
    × (a'.active ≤ a.maximum)
    × IsFresh a.maximum q

Move-Effect :
    {a a' : CompletionAdmission} {p q : Thread}
    → Move a p a' q
    → a.maximum < 2 ^ 32
    → a.active ≤ a.maximum
    → weight p ≤ a.active
    → Effect a p a' q
Move-Effect load word w h = (refl, omega arith, w, w)
Move-Effect (full full_now) word w h = (refl, omega arith, w, tt)
Move-Effect (win below e) word w h = (refl, omega arith, omega arith, tt)
Move-Effect (lose below) word w h = (refl, omega arith, w, w)
Move-Effect release word w h = (refl, omega arith, omega arith, tt)
Move-Effect again word w h = (refl, omega arith, w, tt)

Move-Inv :
    {maximum : ℕ} {a a' : CompletionAdmission} {p q : Thread} (before after : List Thread)
    → maximum < 2 ^ 32
    → Move a p a' q
    → Inv maximum (record { admission = a; threads = before ++ p ∷ after })
    → Inv maximum (record { admission = a'; threads = before ++ q ∷ after })
Move-Inv {maximum} {a} {a'} {p} {q} before after word m inv = record {
  limit = effect.0 ∙ inv.limit;
  counted = omega (arith, inv.counted, here, there, effect.1);
  within = omega (arith, effect.2, inv.limit);
  fresh =
      let (old, rest) = All-split (IsFresh maximum) before (p ∷ after) inv.fresh in
      All-append (IsFresh maximum) before (q ∷ after) old
        (subst (λ m. IsFresh m q) inv.limit effect.3, rest.1);
}
  where
    here : holders (before ++ p ∷ after) ≡ holders (before ++ after) + weight p
    here = holders-split before after p

    there : holders (before ++ q ∷ after) ≡ holders (before ++ after) + weight q
    there = holders-split before after q

    effect : Effect a p a' q
    effect =
        Move-Effect m (omega (arith, inv.limit)) (omega (arith, inv.within, inv.limit))
          (omega (arith, inv.counted, here))

Step-Inv :
    {maximum : ℕ} {s t : System} → maximum < 2 ^ 32 → Step s t → Inv maximum s → Inv maximum t
Step-Inv {maximum} {s} word (pick before after e m e') inv = subst (Inv maximum) (sym e') (
    Move-Inv before after word m (record {
      limit = inv.limit;
      counted = inv.counted ∙ ap holders e;
      within = inv.within;
      fresh = subst (All (IsFresh maximum)) e inv.fresh;
    }))
Step-Inv {maximum} {s} word (spawn e) inv = subst (Inv maximum) (sym e) (record {
  limit = inv.limit;
  counted = inv.counted;
  within = inv.within;
  fresh = (tt, inv.fresh);
})

Reach-Inv : {maximum : ℕ} {s : System} → maximum < 2 ^ 32 → Reach maximum s → Inv maximum s
Reach-Inv word start = record { limit = refl; counted = refl; within = omega arith; fresh = tt }
Reach-Inv word (next r st) = Step-Inv word st (Reach-Inv word r)

-- In every state that any number of threads can reach, whatever compare-exchanges fail, `active` is
-- exactly the number of permits held, and at most the maximum: no slot is lost, none is given twice.
pub Reach-active :
    {maximum : ℕ} {s : System}
    → maximum < 2 ^ 32
    → Reach maximum s
    → (s.admission.active ≡ holders s.threads) × (holders s.threads ≤ maximum)
Reach-active word r =
    let inv = Reach-Inv word r in (inv.counted, omega (arith, inv.counted, inv.within))

-- A refusal is honest: a thread that is about to return false last read exactly the maximum, so
-- every slot was taken when it looked.
pub refusal_honest :
    {maximum count : ℕ} {s : System} (before after : List Thread)
    → maximum < 2 ^ 32
    → Reach maximum s
    → s.threads ≡ before ++ looping count ∷ after
    → s.admission.maximum ≤ count
    → count ≡ maximum
refusal_honest {maximum} {count} before after word r e h =
    let inv = Reach-Inv word r in
    let rest =
      All-split (IsFresh maximum) before (looping count ∷ after)
        (subst (All (IsFresh maximum)) e inv.fresh) in
    omega (arith, rest.1.0, inv.limit)

abbrev outcome : Bool → Thread
outcome true = holding
outcome false = refused

-- Two steps of the interleaved system, from the state with the admission `a` and the caller outside,
-- to that with the caller's result.
abbrev pub Solo :
    List Thread
    → List Thread
    → CompletionAdmission
    → Bool × Bool × Option CompletionAdmission
    → Type 0
Solo before after a (result, permit, none) = ⊥
Solo before after a (result, permit, some a') =
    (permit ≡ result)
    × (between : System) × Step (record { admission = a; threads = before ++ outside ∷ after })
        between
    × Step between (record { admission = a'; threads = before ++ outcome result ∷ after })

-- One caller of `acquire_completion_permit` that nobody disturbs gets a permit exactly when fewer
-- than the maximum are out, and its two atomic steps lead the interleaved system from the state
-- that it is called in to the state that the function returns; the permit is held exactly when the
-- result is true.
pub acquire_completion_permit-Solo :
    {maximum : ℕ} (a : CompletionAdmission) (before after : List Thread)
    → maximum < 2 ^ 32
    → Reach maximum (record { admission = a; threads = before ++ outside ∷ after })
    → Solo before after a (acquire_completion_permit (some a) false)
      × (((acquire_completion_permit (some a) false).0 ≡ true)
          ↔ (holders (before ++ after) < maximum))
unfolding acquire_completion_permit
acquire_completion_permit-Solo {maximum} a before after word r =
    elim (Bool-cases (ltb a.active a.maximum)) [
      | inl free ↦
          rw (free, acquire_completion_permit)
            (
              (refl, _, looped, pick before after refl (win (ground arith) refl) refl),
              ground (
                arith,
                Reach-active word r,
                holders-split before after outside,
                (Reach-Inv word r).limit,
              ),
            )
      | inr taken ↦
          rw (taken, acquire_completion_permit)
            (
              (refl, _, looped, pick before after refl (full (ground arith)) refl),
              ground (
                arith,
                Reach-active word r,
                holders-split before after outside,
                (Reach-Inv word r).limit,
              ),
            )
    ]
  where
    looped :
        Step
          (record { admission = a; threads = before ++ outside ∷ after })
          (record { admission = a; threads = before ++ looping a.active ∷ after })
    looped = pick before after refl load refl
