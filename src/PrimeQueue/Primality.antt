-- ===== src/PrimeQueue/Primality.antt =====
-- `is_prime` of Section2/L3/worker/src/main.c decides primality below the square of 3037000499.
use ciic.Common.{
  ℕ, zero, suc, ◌+◌, ◌-◌, ◌*◌, ◌/◌, ◌%◌, ◌^◌, ◌≤◌, ◌<◌, ◌≡◌, ◌≢◌, ◌⊎◌, inl, inr, subst, arith, leb,
  Bool-cases, ℕ_discrete, dec_lt,
}
use native.Mathlib.Nat.{div-add-mod, mul-mod_left, mul-le-mul, mul-le-mul_left}
use ciic.Common.Int.{pos}
use ciic.PrimeQueue.{Verdict, prime, composite, prime_loop, is_prime}

-- No number from 2 on and below `i` divides `n`.
abbrev pub NoDivisor : ℕ → ℕ → Type 0
NoDivisor i n = (d : ℕ) → 2 ≤ d → d < i → n % d ≢ 0

abbrev pub IsPrime : ℕ → Type 0
IsPrime n = (2 ≤ n) × NoDivisor n n

-- The least square that leaves no room for the next one is that of 3037000499.
abbrev pub safe_limit : ℕ
safe_limit = 3037000499 * 3037000499

-- If no number below `i` divides `n`, and `n` is below the square of `i`, then `n` is prime.
NoDivisor-square : (i n : ℕ) → NoDivisor i n → n < i * i → NoDivisor n n
NoDivisor-square i n none_below small d two below divides = elim (dec_lt d i) [
  | yes low ↦ none_below d two low divides
  | no high ↦
      none_below q cofactor_ge_two (cofactor_lt (omega arith))
        (subst (λ m. m % q ≡ 0) product (mul-mod_left d q))
]
  where
    q : ℕ
    q = n / d

    product : d * q ≡ n
    product = omega (arith, div-add-mod n d)

    cofactor_ge_two : 2 ≤ q
    cofactor_ge_two = elim (dec_lt 1 q) [
      | yes h ↦ h
      | no h ↦ absurd (omega (arith, product, mul-le-mul_left {m = q} {n = 1} d (omega arith)))
    ]

    cofactor_lt : i ≤ d → q < i
    cofactor_lt ge = elim (dec_lt q i) [
      | yes h ↦ h
      | no h ↦
          absurd (
            omega (arith, product, mul-le-mul {n₁ = i} {m₁ = i} {n₂ = d} {m₂ = q} ge (omega arith)))
    ]

-- How the loop ends, from a number below which there is no divisor.
abbrev Decides : Verdict → ℕ → Type 0
Decides v n = ((v ≡ prime) × IsPrime n) ⊎ ((v ≡ composite) × ¬ IsPrime n)

NoDivisor-suc : (i n : ℕ) → NoDivisor i n → n % i ≢ 0 → NoDivisor (i + 1) n
NoDivisor-suc i n h ne d two below = elim (ℕ_discrete d i) [
  | yes e ↦ rw e ne
  | no other ↦ h d two (omega arith)
]

-- Below the limit the square of a number that the loop reaches is below 2^63.
square_in_range : (i n : ℕ) → n < safe_limit → (i - 1) * (i - 1) ≤ n → i * i < 2 ^ 63
square_in_range i n small sq = elim (dec_lt i 3037000500) [
  | yes low ↦ omega (
    arith,
    mul-le-mul {n₁ = i} {m₁ = i} {n₂ = 3037000499} {m₂ = 3037000499} (omega arith) (omega arith),
  )
  | no high ↦ absurd (
      omega (
        arith,
        mul-le-mul {n₁ = 3037000499} {m₁ = 3037000499} {n₂ = i - 1} {m₂ = i - 1} (omega arith)
            (omega arith),
      ))
]

below_square : (i : ℕ) → 2 ≤ i → i < i * i
below_square i ge = omega (arith, mul-le-mul_left {m = 2} {n = i} i ge)

prime_loop-Decides :
    (fuel i n : ℕ)
    → 2 ≤ n
    → n < safe_limit
    → 2 ≤ i
    → (i - 1) * (i - 1) ≤ n
    → n + 2 ≤ fuel + i
    → NoDivisor i n
    → Decides (prime_loop fuel i n) n
unfolding prime_loop
prime_loop-Decides zero i n two small ge sq enough h =
    absurd (omega (arith, mul-le-mul_left {m = 1} {n = i - 1} (i - 1) (omega arith)))
prime_loop-Decides (suc fuel) i n two small ge sq enough h = elim (Bool-cases (leb (i * i) n)) [
  | inr above ↦ ground (arith, in_range, prime_here (ground arith))
  | inl within ↦ elim (ℕ_discrete (n % i) 0) [
    | yes divides ↦ ground (arith, in_range, composite_here divides (ground arith))
    | no ne ↦ ground (
      arith,
      in_range,
      prime_loop-Decides fuel (i + 1) n two small (omega arith) (next_square (ground arith))
          (omega arith) (NoDivisor-suc i n h ne),
    )
  ]
]
  where
    in_range : i * i < 2 ^ 63
    in_range = square_in_range i n small sq

    prime_here : n < i * i → IsPrime n
    prime_here above = (two, NoDivisor-square i n h above)

    composite_here : n % i ≡ 0 → i * i ≤ n → ¬ IsPrime n
    composite_here divides within p = p.1 i ge (omega (arith, below_square i ge)) divides

    next_square : i * i ≤ n → (i + 1 - 1) * (i + 1 - 1) ≤ n
    next_square within = let e : i ≡ i + 1 - 1 = omega arith in subst (λ k. k * k ≤ n) e within

-- For a number below the square of 3037000499, `is_prime` stops without overflow and returns 1
-- exactly if the number is a prime.
pub is_prime_correct :
    (n : ℕ)
    → n < safe_limit
    → ((is_prime (pos n) ≡ prime) × IsPrime n) ⊎ ((is_prime (pos n) ≡ composite) × ¬ IsPrime n)
unfolding is_prime
is_prime_correct n small = elim (dec_lt n 2) [
  | yes low ↦ inr (ground arith, λ p. omega arith)
  | no high ↦ ground (
    arith,
    prime_loop-Decides n 2 n (omega arith) small (omega arith) (omega arith) (omega arith)
        (λ d ge below e. omega arith),
  )
]
