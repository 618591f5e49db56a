-- ===== src/Simulator/Expected/Steps.antt =====
-- The sets of steps and of keys, and the loop of the missing steps.
use metrics_pipeline_go.Prelude.{
  ℕ, zero, suc, ◌≡◌, refl, sym, ap, ◌∙◌, Bool, true, false, not, ◌&&◌, ◌||◌, Option, none, some,
  List, [], ◌∷◌, ◌++◌, Str, contains, add_unique, is_distinct, is_distinct-add_unique,
  contains-add_unique, ℤ, pos, pos_part, ltb_ℤ, leb_ℤ, eqb_ℤ, ◌+ℤ◌, ◌-ℤ◌, +ℤ_parts, -ℤ_parts,
  Bool-cases, inl, inr, arith,
}
use metrics_pipeline_go.Simulator.Expected.{
  has_step, add_step, add_keys, missing_from, missing_between,
}

has_step-snoc :
    (steps : List ℤ) (t s : ℤ) → has_step (steps ++ t ∷ []) s ≡ has_step steps s || eqb_ℤ t s
unfolding has_step
has_step-snoc [] t s = ground arith
has_step-snoc (u ∷ steps) t s = ground (arith, has_step-snoc steps t s)

has_step_same : (steps : List ℤ) (s t : ℤ) → eqb_ℤ s t ≡ true → has_step steps s ≡ has_step steps t
unfolding has_step
has_step_same [] s t h = refl
has_step_same (u ∷ steps) s t h = ground (arith, has_step_same steps s t)

pub has_step-add_step :
    (steps : List ℤ) (t s : ℤ) → has_step (add_step steps t) s ≡ has_step steps s || eqb_ℤ t s
unfolding add_step
has_step-add_step steps t s = ground (arith, has_step-snoc steps t s, has_step_same steps t s)

-- No step occurs twice.
unfoldable pub is_distinct_steps : List ℤ → Bool
unfolding has_step
is_distinct_steps [] = true
is_distinct_steps (s ∷ steps) = not (has_step steps s) && is_distinct_steps steps

is_distinct_steps-snoc :
    (steps : List ℤ) (t : ℤ)
    → is_distinct_steps steps ≡ true
    → has_step steps t ≡ false
    → is_distinct_steps (steps ++ t ∷ []) ≡ true
unfolding is_distinct_steps has_step
is_distinct_steps-snoc [] t h new = refl
is_distinct_steps-snoc (s ∷ steps) t h new =
    ground (arith, is_distinct_steps-snoc steps t, has_step-snoc steps t s)

pub is_distinct_steps-add_step :
    (steps : List ℤ) (t : ℤ)
    → is_distinct_steps steps ≡ true
    → is_distinct_steps (add_step steps t) ≡ true
unfolding add_step
is_distinct_steps-add_step steps t h = ground (arith, is_distinct_steps-snoc steps t)

pub contains-add_keys :
    (keys more : List Str) (k : Str)
    → contains (add_keys keys more) k ≡ contains keys k || contains more k
unfolding add_keys contains
contains-add_keys keys [] k = ground arith
contains-add_keys keys (s ∷ more) k =
    ground (arith, contains-add_keys (add_unique keys s) more k, contains-add_unique keys s k)

pub is_distinct-add_keys :
    (keys more : List Str) → is_distinct keys ≡ true → is_distinct (add_keys keys more) ≡ true
unfolding add_keys
is_distinct-add_keys keys [] h = h
is_distinct-add_keys keys (s ∷ more) h =
    is_distinct-add_keys (add_unique keys s) more (is_distinct-add_unique keys s h)

-- The `n` steps from `start` on.
unfoldable pub in_range : ℤ → ℕ → ℤ → Bool
unfolding ◌+ℤ◌
in_range start n s = not (ltb_ℤ s start) && ltb_ℤ s (start +ℤ pos n)

in_range-zero : (start s : ℤ) → in_range start 0 s ≡ false
unfolding in_range
in_range-zero start s = ground (arith, +ℤ_parts start (pos 0))

in_range-suc :
    (start : ℤ) (n : ℕ) (s : ℤ)
    → in_range start (suc n) s ≡ eqb_ℤ start s || in_range (start +ℤ pos 1) n s
unfolding in_range
in_range-suc start n s =
    ground (
      arith,
      +ℤ_parts start (pos 1),
      +ℤ_parts (start +ℤ pos 1) (pos n),
      +ℤ_parts start (pos (suc n)),
    )

-- The first step of a range, as a member of the steps or as a missing one.
first_found :
    (same range found : Bool)
    → (same ≡ true → found ≡ true)
    → (range && not found) ≡ ((same || range) && not found)
first_found same range found h = ground (arith, h)

first_missing :
    (same range found : Bool)
    → (same ≡ true → found ≡ false)
    → (same || (range && not found)) ≡ ((same || range) && not found)
first_missing same range found h = ground (arith, h)

has_step-missing_from :
    (steps : List ℤ) (start : ℤ) (n : ℕ) (s : ℤ)
    → has_step (missing_from steps start n) s ≡ (in_range start n s && not (has_step steps s))
unfolding has_step missing_from
has_step-missing_from steps start zero s = rw (in_range-zero start s) refl
has_step-missing_from steps start (suc n) s =
    let rest = has_step-missing_from steps (start +ℤ pos 1) n s in
    let same = has_step_same steps start s in
    rw (in_range-suc start n s) (elim (Bool-cases (has_step steps start)) [
      | inl there ↦ rw (missing_from, there) (rest ∙ first_found _ _ _ (λ e. sym (same e) ∙ there))
      | inr new ↦
          rw (missing_from, new)
            (ap (λ b. eqb_ℤ start s || b) rest ∙ first_missing _ _ _ (λ e. sym (same e) ∙ new))
    ])

-- The step lies between two steps that are there.
abbrev pub is_between : Option ℤ → Option ℤ → ℤ → Bool
is_between (some first) (some last) s = leb_ℤ first s && leb_ℤ s last
is_between (some first) none s = false
is_between none last s = false

in_range_between :
    (first last s : ℤ)
    → in_range first (pos_part ((last -ℤ first) +ℤ pos 1)) s ≡ (leb_ℤ first s && leb_ℤ s last)
unfolding in_range
in_range_between first last s = ground (
  arith,
  -ℤ_parts last first,
  +ℤ_parts (last -ℤ first) (pos 1),
  +ℤ_parts first (pos (pos_part ((last -ℤ first) +ℤ pos 1))),
)

pub has_step-missing_between :
    (steps : List ℤ) (first last : Option ℤ) (s : ℤ)
    → has_step (missing_between steps first last) s
      ≡ (is_between first last s && not (has_step steps s))
unfolding missing_between has_step
has_step-missing_between steps (some first) (some last) s = ground (
  arith,
  has_step-missing_from steps first (pos_part ((last -ℤ first) +ℤ pos 1)) s,
  in_range_between first last s,
)
has_step-missing_between steps (some first) none s = refl
has_step-missing_between steps none last s = refl
