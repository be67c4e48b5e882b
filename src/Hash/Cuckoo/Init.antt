-- ===== src/Hash/Cuckoo/Init.antt =====
-- `isPrime`, `getMinPrime` and `initHashTable`.
use coding_demo.Base.{
  ℕ, zero, suc, ◌+◌, ◌*◌, ◌/◌, ◌%◌, ◌≤◌, ◌<◌, ◌≡◌, refl, sym, ◌∙◌, ◌≢◌, inl, inr, Bool-cases, true,
  false, arith, leb, ◌==◌, Returns, ◌↔◌, replicate,
}
use native.Mathlib.Nat.{mul-mod_right}
use native.Mathlib.Decide.{ℕ_discrete}
use coding_demo.Hash.Cuckoo.{Table, empty_entry, has_divisor, is_prime, get_min_prime}
use coding_demo.Hash.Cuckoo.Slots.{at}

-- No number from `i` on divides `value`, below `value`.
abbrev pub NoDivisor : ℕ → ℕ → Type 0
NoDivisor i value = (d : ℕ) → i ≤ d → d < value → value % d ≢ 0

-- Prime, but that 1 counts as well.
abbrev pub IsPrimeOrOne : ℕ → Type 0
IsPrimeOrOne value = (value ≢ 0) × NoDivisor 2 value

quotient : (d v : ℕ) → 0 < d → v % d ≡ 0 → (q : ℕ) × (v ≡ q * d)
quotient d v h z = (v / d, omega arith)

small : (q d i : ℕ) → q * d < i * i → i ≤ d → q < i
small q d i h k = grind arith

square : (i : ℕ) → 2 ≤ i → i < i * i
square i h = grind arith

-- With no divisor below the root, there is none above it.
above_root :
    (i value : ℕ)
    → 2 ≤ i
    → value < i * i
    → ((d : ℕ) → 2 ≤ d → d < i → value % d ≢ 0)
    → NoDivisor i value
above_root i value two_le root below d le lt z =
    let (q, eq) = quotient d value (omega arith) z in no_factor q d eq le lt
  where
    no_factor : (q d : ℕ) → value ≡ q * d → i ≤ d → d < value → ⊥
    no_factor zero d eq le lt = omega arith
    no_factor (suc zero) d eq le lt = omega arith
    no_factor (suc (suc q)) d eq le lt =
        let q_lt : suc (suc q) < i = small (suc (suc q)) d i (rw (sym eq) root) le in
        below (suc (suc q)) (omega arith) q_lt (rw (eq) (mul-mod_right (suc (suc q)) d))

has_divisor_lem :
    (fuel i value : ℕ)
    → 2 ≤ i
    → value < fuel + i
    → ((d : ℕ) → 2 ≤ d → d < i → value % d ≢ 0)
    → (has_divisor fuel i value ≡ false) ↔ NoDivisor i value
unfolding has_divisor
has_divisor_lem zero i value two_le enough below = ((λ _ d le lt _. omega arith), (λ _. refl))
has_divisor_lem (suc fuel) i value two_le enough below = elim (Bool-cases (leb (i * i) value)) [
  | inr above ↦ ((λ _. above_root i value two_le (ground arith) below), (λ _. rw above refl))
  | inl within ↦ elim (Bool-cases (value % i == 0)) [
    | inl divides ↦ (
      (λ h. absurd (clash (rw (within, divides) at h))),
      (λ none_from. absurd (none_from i (omega arith) (i_lt within) (ground arith))),
    )
    | inr not_i ↦
        let (to, from) =
          has_divisor_lem fuel (i + 1) value (omega arith) (omega arith) (skip_i not_i) in
        (
          (λ h. more_i not_i (to (rw (within, not_i) at h))),
          (λ none_from. rw (within, not_i) (from (λ d le. none_from d (omega arith)))),
        )
  ]
]
  where
    i_lt : leb (i * i) value ≡ true → i < value
    i_lt within = let more = square i two_le in ground (arith)

    skip_i : (value % i == 0) ≡ false → (d : ℕ) → 2 ≤ d → d < i + 1 → value % d ≢ 0
    skip_i not_i d two_le_d lt = elim (ℕ_discrete d i) [
      | yes same ↦ rw same (ground arith)
      | no ne ↦ below d two_le_d (omega arith)
    ]

    more_i : (value % i == 0) ≡ false → NoDivisor (i + 1) value → NoDivisor i value
    more_i not_i later d le lt = elim (ℕ_discrete d i) [
      | yes same ↦ rw same (ground arith)
      | no ne ↦ later d (omega arith) lt
    ]

    clash : ¬ (true ≡ false)
    clash h = cc

pub is_prime_lem : (value : ℕ) → (is_prime value ≡ true) ↔ IsPrimeOrOne value
unfolding is_prime
is_prime_lem zero = ((λ h. absurd (clash h)), (λ h. absurd (h.0 refl)))
  where
    clash : ¬ (false ≡ true)
    clash h = cc
is_prime_lem (suc n) =
    let nz : (suc n == 0) ≡ false = ground arith in
    let all =
      has_divisor_lem (suc n) 2 (suc n) (omega arith) (omega arith)
        (λ d a b. absurd (omega arith)) in
    elim (Bool-cases (has_divisor (suc n) 2 (suc n))) [
      | inl found ↦ (
        (λ h. absurd (clash (rw (nz, found) at h))),
        (λ (_, none_from). absurd (clash (sym (all.1 none_from) ∙ found))),
      )
      | inr none_found ↦
          ((λ _. ((λ h. omega arith), all.0 none_found)), (λ _. rw (nz, none_found) refl))
    ]
  where
    clash : ¬ (false ≡ true)
    clash h = cc

-- The least number from `value` on that passes for a prime.
abbrev pub IsLeast : ℕ → ℕ → Type 0
IsLeast value n = (value ≤ n) × IsPrimeOrOne n × ((d : ℕ) → value ≤ d → d < n → ¬ IsPrimeOrOne d)

pub get_min_prime_lem :
    (fuel value p : ℕ)
    → IsPrimeOrOne p
    → value ≤ p
    → p < value + fuel
    → Returns (get_min_prime fuel value) (IsLeast value)
unfolding get_min_prime
get_min_prime_lem zero value p prime le enough = absurd (omega arith)
get_min_prime_lem (suc fuel) value p prime le enough = elim (Bool-cases (is_prime value)) [
  | inl yes_p ↦
      (value, rw yes_p refl, (omega arith, (is_prime_lem value).0 yes_p, (λ d a b _. omega arith)))
  | inr no_p ↦ elim (ℕ_discrete value p) [
    | yes same ↦ absurd (clash (sym no_p ∙ (is_prime_lem value).1 (rw same prime)))
    | no ne ↦
        let (n, run, (ge, ok, least)) =
          get_min_prime_lem fuel (value + 1) p prime (omega arith) (omega arith) in
        (n, rw no_p run, (omega arith, ok, below no_p n least))
  ]
]
  where
    clash : ¬ (false ≡ true)
    clash h = cc

    below :
        is_prime value ≡ false
        → (n : ℕ) → ((d : ℕ) → value + 1 ≤ d → d < n → ¬ IsPrimeOrOne d)
        → (d : ℕ) → value ≤ d
        → d < n
        → ¬ IsPrimeOrOne d
    below no_p n least d ge lt ok = elim (ℕ_discrete d value) [
      | yes same ↦ clash (sym no_p ∙ (is_prime_lem value).1 (rw (sym same) ok))
      | no ne ↦ least d (omega arith) lt ok
    ]

abbrev empty_table : ℕ → Table
empty_table n = record {
  n_count = n;
  table1 = replicate n empty_entry;
  table2 = replicate n empty_entry;
}
