-- ===== src/Resources/Memory.antt =====
-- The memory of the nodes (src/main/resources/web-data/js/util.js).
use dyn_dco.Base.{
  ℕ, zero, suc, ◌+◌, ◌-◌, ◌≤◌, arith, ◌≡◌, refl, ap, ◌∙◌, Option, none, some, List, [], ◌∷◌,
  get_elem?, leb, if◌then◌else◌,
}

-- What subtracting makes of two numbers: a number, one below zero by some amount, or NaN.
pub data Amount : Type 0 where
  amount : ℕ → Amount
  below_zero : ℕ → Amount
  nan : Amount

unfoldable pub difference : ℕ → ℕ → Amount
difference a b = if leb b a then amount (a - b) else below_zero (b - a)

-- A number, or undefined, minus an amount, or undefined.
abbrev pub minus : Option ℕ → Option Amount → Amount
minus none y = nan
minus (some a) none = nan
minus (some a) (some nan) = nan
minus (some a) (some (below_zero b)) = amount (a + b)
minus (some a) (some (amount b)) = difference a b

abbrev pub as_amount : Option ℕ → Option Amount
as_amount none = none
as_amount (some n) = some (amount n)

-- The loop from `i` on, over as many indices as the first array has left.
abbrev pub used_from : ℕ → List ℕ → List ℕ → List Amount
used_from i [] free = []
used_from i (t ∷ total) free =
    minus (some t) (as_amount (get_elem? free i)) ∷ used_from (suc i) total free

-- `getUsedMemory`: the arrays "runtime_mem_total" and "runtime_mem_free".
unfoldable pub get_used_memory : List ℕ → List ℕ → List Amount
get_used_memory total free = used_from 0 total free

abbrev pub free_from : ℕ → List ℕ → List ℕ → List Amount → List Amount
free_from i [] max used = []
free_from i (f ∷ free) max used =
    minus (get_elem? max i) (get_elem? used i) ∷ free_from (suc i) free max used

-- `getFreeMemory`: those two arrays, and "runtime_mem_max".
unfoldable pub get_free_memory : List ℕ → List ℕ → List ℕ → List Amount
unfolding get_used_memory
get_free_memory total free max = free_from 0 free max (get_used_memory total free)

used_from-at :
    (i j : ℕ) (total free : List ℕ) (t : ℕ)
    → get_elem? total j ≡ some t
    → get_elem? (used_from i total free) j
      ≡ some (minus (some t) (as_amount (get_elem? free (i + j))))
used_from-at i j [] free t e = absurd (cc e)
used_from-at i zero (u ∷ total) free t e =
    let z : i + 0 ≡ i = omega arith in
    rw z (ap (λ o. some (minus o (as_amount (get_elem? free i)))) e)
used_from-at i (suc j) (u ∷ total) free t e =
    let z : i + suc j ≡ suc i + j = omega arith in rw z (used_from-at (suc i) j total free t e)

free_from-at :
    (i j : ℕ) (free max : List ℕ) (used : List Amount) (f : ℕ)
    → get_elem? free j ≡ some f
    → get_elem? (free_from i free max used) j
      ≡ some (minus (get_elem? max (i + j)) (get_elem? used (i + j)))
free_from-at i j [] max used f e = absurd (cc e)
free_from-at i zero (g ∷ free) max used f e = let z : i + 0 ≡ i = omega arith in rw z refl
free_from-at i (suc j) (g ∷ free) max used f e =
    let z : i + suc j ≡ suc i + j = omega arith in rw z (free_from-at (suc i) j free max used f e)

difference-amount : (a b : ℕ) → b ≤ a → difference a b ≡ amount (a - b)
unfolding difference
difference-amount a b h = ground (arith, h)

-- On a node whose free memory is at most the allocated memory, and that at most the memory there may be:
-- what getUsedMemory and getFreeMemory give for it makes up the memory there may be, and neither is
-- negative.
memory-adds :
    (total free max : List ℕ) (i t f m : ℕ)
    → get_elem? total i ≡ some t
    → get_elem? free i ≡ some f
    → get_elem? max i ≡ some m
    → f ≤ t
    → t ≤ m
    → (get_elem? (get_used_memory total free) i ≡ some (amount (t - f)))
      × (get_elem? (get_free_memory total free max) i ≡ some (amount (m - (t - f))))
      × ((t - f) + (m - (t - f)) ≡ m)
unfolding get_used_memory get_free_memory
memory-adds total free max i t f m et ef em h k =
    let z : 0 + i ≡ i = omega arith in
    let used : get_elem? (used_from 0 total free) i ≡ some (amount (t - f)) =
      rw z at (used_from-at 0 i total free t et)
      ∙ ap (λ o. some (minus (some t) (as_amount o))) ef
      ∙ ap some (difference-amount t f h) in
    (
      used,
      rw z at (free_from-at 0 i free max (used_from 0 total free) f ef)
          ∙ ap (λ o. some (minus o (get_elem? (used_from 0 total free) i))) em
          ∙ ap (λ o. some (minus (some m) o)) used
          ∙ ap some (difference-amount m (t - f) (omega (arith, k))),
      omega (arith, h, k),
    )
