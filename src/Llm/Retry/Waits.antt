-- ===== src/Llm/Retry/Waits.antt =====
-- llm/openai.go: how long backoff waits.
use agent_go.Prelude.{
  ℕ, zero, suc, ◌*◌, ◌^◌, ◌≤◌, ◌≡◌, ◌∙◌, ap, arith, min, Bool-cases, inl, inr, ltb, ltb→le,
}
use agent_go.Llm.Retry.{doubled, backoff, first_wait, longest_wait}
use native.Mathlib.Nat.{pow-suc, mul-le-mul_left}

pow-ge-one : (n : ℕ) → 1 ≤ 2 ^ n
pow-ge-one zero = omega arith
pow-ge-one (suc n) = rw (pow-suc) (omega (arith, pow-ge-one n))

times-ge : (d p : ℕ) → 1 ≤ p → d ≤ d * p
times-ge d p h = omega (arith, mul-le-mul_left d h)

min-doubled : (n d : ℕ) → min (doubled n d) longest_wait ≡ min (d * 2 ^ n) longest_wait
unfolding doubled
min-doubled zero d = omega arith
min-doubled (suc n) d = elim (Bool-cases (ltb d longest_wait)) [
  | inl e ↦ rw e (min-doubled n (d * 2) ∙ ap (λ (x : ℕ). min x longest_wait) (twice d n))
  | inr e ↦
      rw e (omega (arith, ltb→le d longest_wait e, times-ge d (2 ^ suc n) (pow-ge-one (suc n))))
]
  where
    twice : (d n : ℕ) → d * 2 * 2 ^ n ≡ d * 2 ^ suc n
    twice d n = rw (pow-suc) (grind arith)

pub backoff-min : (n : ℕ) → backoff n ≡ min (first_wait * 2 ^ n) longest_wait
unfolding backoff
backoff-min n = ground (arith, min-doubled n first_wait)
