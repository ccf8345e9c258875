-- ===== src/Base/Ratio.antt =====
-- `round(a / b)` of Python: to the nearest whole number, to the even one halfway.
use Prim.Native.Nat.{ℕ, ◌+◌, ◌-◌, ◌*◌, ◌/◌, ◌%◌, ◌≤◌, ◌<◌}
use mathlib.Core.Path.{◌≡◌}
use mathlib.Core.Logic.{◌⊎◌, inl, inr}
use native.Mathlib.Nat.{div-add-mod}
use native.Mathlib.Omega.{arith}
use hamromentorback.Base.Tests.{Bool-cases, ltb→lt, ltb, ◌==◌, if◌then◌else◌}

unfoldable pub rounded : ℕ → ℕ → ℕ
rounded a b =
    let below = a / b in
    let twice = 2 * (a % b) in
    if ltb twice b
    then below
    else if ltb b twice
    then below + 1
    else if below % 2 == 0
    then below
    else below + 1

excess : (b d : ℕ) → 0 < b → d ≤ b * d
excess b d h = grind arith

at_most : (q r b n : ℕ) → 0 < b → b * q + r ≤ n * b → (q < n) ⊎ ((q ≡ n) × (r ≡ 0))
at_most q r b n h le = elim (Bool-cases (ltb q n)) [
  | inl less ↦ inl (ltb→lt q n less)
  | inr not_less ↦
      let d = q - n in
      let sum : q ≡ n + d = ground arith in
      let more = excess b d h in
      let room : b * (n + d) + r ≤ n * b = rw (← sum) le in inr (ground arith, ground arith)
]

-- A fraction that is at most a whole number rounds to at most that number.
pub rounded_bound : (a b n : ℕ) → 0 < b → a ≤ n * b → rounded a b ≤ n
unfolding rounded
rounded_bound a b n positive h =
    let parts = at_most (a / b) (a % b) b n positive (rw (div-add-mod a b) h) in ground arith
