-- ===== src/T2000/Cuts.antt =====
-- eink_t2000_proto.c: the pieces of a solid fill, and the sizes of the commands.
use mender_rt1180_zephyr.Prelude.{
  ℕ, zero, suc, ◌+◌, ◌-◌, ◌≤◌, ◌<◌, ◌≡◌, arith, Bool-cases, inl, inr, List, [], ◌∷◌, ◌==◌, ltb,
}
use mender_rt1180_zephyr.T2000.{cuts, stripe_bytes}

abbrev pub sum : List ℕ → ℕ
sum [] = 0
sum (n ∷ ns) = n + sum ns

-- Every piece has a byte at least, and fits the stripe.
abbrev pub Fit : List ℕ → Type 0
Fit [] = 0 ≤ 0
Fit (n ∷ ns) = (0 < n) × (n ≤ stripe_bytes) × Fit ns

-- With fuel for every byte, the pieces of a fill are not empty, fit the stripe, and add up to the
-- frame.
pub cuts_lem : (fuel rest : ℕ) → rest ≤ fuel → (sum (cuts fuel rest) ≡ rest) × Fit (cuts fuel rest)
unfolding cuts
cuts_lem zero rest h = (omega arith, omega arith)
cuts_lem (suc fuel) rest h = elim (Bool-cases (rest == 0)) [
  | inl none ↦ rw none (ground arith, omega arith)
  | inr some ↦ elim (Bool-cases (ltb rest stripe_bytes)) [
    | inl small ↦
        let more = cuts_lem fuel (rest - rest) (omega arith) in
        rw (some, small) (omega (arith, more.0), (ground arith, ground arith, more.1))
    | inr large ↦
        let more = cuts_lem fuel (rest - stripe_bytes) (omega arith) in
        rw (some, large) (ground (arith, more.0), (omega arith, omega arith, more.1))
  ]
]
