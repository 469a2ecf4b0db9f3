-- ===== src/IrStream/Pool.antt =====
-- native/src/ir_stream.cpp: a vector of slots with a stack of the indices that are free, as the
-- uncertain owners and the deferred releases are kept.
use ams_gra_mel_bridge.Prelude.{
  ℕ, zero, suc, ◌≡◌, sym, ap, ◌∙◌, ◌≢◌, some, List, [], ◌∷◌, ◌++◌, arith, get_elem?, set,
  get_elem?-set_ne, get_elem?-set_self, replicate, get_elem?-replicate, numbers, All-numbers, All,
}

-- No index occurs twice.
abbrev pub Distinct {ℓ} : {U : Type ℓ} → (U → ℕ) → List U → Type 0
Distinct index [] = Unit
Distinct index (x ∷ xs) = All (λ y. index y ≢ index x) xs × Distinct index xs

pub All-middle {ℓ κ} :
    {A : Type ℓ} (P : A → Type κ) (xs : List A) (y : A) (ys : List A)
    → All P (xs ++ y ∷ ys)
    → P y × All P (xs ++ ys)
All-middle P [] y ys h = h
All-middle P (x ∷ xs) y ys h = let (found, rest) = All-middle P xs y ys h.1 in (found, (h.0, rest))

pub All-map {ℓ κ μ} :
    {A : Type ℓ} (P : A → Type κ) (Q : A → Type μ) (xs : List A)
    → ((x : A) → P x → Q x)
    → All P xs
    → All Q xs
All-map P Q [] f h = tt
All-map P Q (x ∷ xs) f h = (f x h.0, All-map P Q xs f h.1)

Distinct-numbers : (from n : ℕ) → Distinct (λ i. i) (numbers from n)
Distinct-numbers from zero = tt
Distinct-numbers from (suc n) =
    (All-numbers (λ i. i ≢ from) (suc from) n (λ i h k. omega arith), Distinct-numbers (suc from) n)

-- `index` is the slot of a user, and `Owns` what its slot must hold, which is never `vacant`.
module _ {ℓ κ} {A : Type ℓ} {U : Type κ} (vacant : A) (index : U → ℕ) (Owns : U → A → Type 0)
    (taken : (u : U) (v : A) → Owns u v → v ≢ vacant) where
  abbrev pub Vacant : List A → ℕ → Type ℓ
  Vacant slots i = get_elem? slots i ≡ some vacant

  abbrev pub Used : List A → U → Type ℓ
  Used slots u = (v : A) × (get_elem? slots (index u) ≡ some v) × Owns u v

  pub record Pool (slots : List A) (free : List ℕ) (used : List U) : Type ℓ where
    pub free_vacant : All (Vacant slots) free
    pub free_distinct : Distinct (λ i. i) free
    pub used_taken : All (Used slots) used
    pub used_distinct : Distinct index used

  apart : (slots : List A) (i : ℕ) (u : U) → Vacant slots i → Used slots u → index u ≢ i
  apart slots i u h (v, e, o) same = taken u v o (some-inj (sym e ∙ ap (get_elem? slots) same ∙ h))
    where
      some-inj : {x y : A} → some x ≡ some y → x ≡ y
      some-inj e = cc

  set-Vacant :
      (slots : List A) (i : ℕ) (v : A) (js : List ℕ)
      → All (λ j. j ≢ i) js
      → All (Vacant slots) js
      → All (Vacant (set slots i v)) js
  set-Vacant slots i v [] n h = tt
  set-Vacant slots i v (j ∷ js) n h =
      (get_elem?-set_ne slots i j v n.0 ∙ h.0, set-Vacant slots i v js n.1 h.1)

  set-Used :
      (slots : List A) (i : ℕ) (v : A) (us : List U)
      → All (λ u. index u ≢ i) us
      → All (Used slots) us
      → All (Used (set slots i v)) us
  set-Used slots i v [] n h = tt
  set-Used slots i v (u ∷ us) n h =
      let (w, e, o) = h.0 in
      ((w, get_elem?-set_ne slots i (index u) v n.0 ∙ e, o), set-Used slots i v us n.1 h.1)

  -- A new vector is all free.
  pub fresh : (n : ℕ) → Pool (replicate n vacant) (numbers 0 n) []
  fresh n = record {
    free_vacant =
        All-numbers (Vacant (replicate n vacant)) 0 n
          (λ i h k. get_elem?-replicate n i vacant (omega arith));
    free_distinct = Distinct-numbers 0 n;
    used_taken = tt;
    used_distinct = tt;
  }

  -- The user takes the free slot on top.
  pub acquire :
      {slots : List A} {i : ℕ} {free : List ℕ} {used : List U} (u : U) (v : A)
      → index u ≡ i
      → Owns u v
      → Pool slots (i ∷ free) used
      → Pool (set slots i v) free (u ∷ used)
  acquire {slots} {i} {free} {used} u v e o p =
      let others : All (λ w. index w ≢ i) used =
        All-map (Used slots) _ used (λ w t. apart slots i w p.free_vacant.0 t) p.used_taken in
      record {
        free_vacant = set-Vacant slots i v free p.free_distinct.0 p.free_vacant.1;
        free_distinct = p.free_distinct.1;
        used_taken = (
          (v, ap (get_elem? (set slots i v)) e ∙ get_elem?-set_self slots i v p.free_vacant.0, o),
          set-Used slots i v used others p.used_taken,
        );
        used_distinct = (rw e others, p.used_distinct);
      }

  -- The youngest user gives its slot back.
  pub release :
      {slots : List A} {free : List ℕ} {u : U} {used : List U}
      → Pool slots free (u ∷ used)
      → Pool (set slots (index u) vacant) (index u ∷ free) used
  release {slots} {free} {u} {used} p =
      let others : All (λ j. j ≢ index u) free =
        All-map (Vacant slots) _ free (λ j t e. apart slots j u t p.used_taken.0 (sym e))
          p.free_vacant in
      record {
        free_vacant = (
          get_elem?-set_self slots (index u) vacant p.used_taken.0.1,
          set-Vacant slots (index u) vacant free others p.free_vacant,
        );
        free_distinct = (others, p.free_distinct);
        used_taken = set-Used slots (index u) vacant used p.used_distinct.0 p.used_taken.1;
        used_distinct = p.used_distinct.1;
      }

  -- It goes without giving the slot back.
  pub forget :
      {slots : List A} {free : List ℕ} {u : U} {used : List U}
      → Pool slots free (u ∷ used)
      → Pool slots free used
  forget p = record {
    free_vacant = p.free_vacant;
    free_distinct = p.free_distinct;
    used_taken = p.used_taken.1;
    used_distinct = p.used_distinct.1;
  }
