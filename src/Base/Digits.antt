-- ===== src/Base/Digits.antt =====
-- The binary recursion behind `|` and `^`, for any operation on digits: the number of rounds, and a law
-- for the lowest digit.
use Prim.Native.Nat.{ℕ, zero, suc, ◌+◌, ◌*◌, ◌/◌, ◌%◌, ◌^◌, ◌≤◌, digits}
use mathlib.Core.Path.{◌≡◌, refl, sym, ap, ◌∙◌}
use native.Mathlib.Omega.{arith}
use native.Mathlib.Nat.{pow-suc}

module _ (op : ℕ → ℕ → ℕ) where
  abbrev pub rounds : ℕ → ℕ → ℕ → ℕ
  rounds = digits (λ b. b) op

  pub rounds-zero : (n b : ℕ) → rounds n 0 b ≡ b
  rounds-zero zero b = refl
  rounds-zero (suc n) b = refl

  pub rounds_enough : (m n a b : ℕ) → a ≤ m → a ≤ n → rounds m a b ≡ rounds n a b
  rounds_enough m n zero b hm hn = rounds-zero m b ∙ sym (rounds-zero n b)
  rounds_enough (suc m) (suc n) (suc a) b hm hn =
      ap (λ t. t * 2 + op (suc a % 2) (b % 2))
        (rounds_enough m n (suc a / 2) (b / 2) (omega arith) (omega arith))
  rounds_enough zero n (suc a) b hm hn = absurd (omega arith)
  rounds_enough (suc m) zero (suc a) b hm hn = absurd (omega arith)

  -- Rounds as many as the first number, as the native operations take.
  pub rounds_step :
      (a b : ℕ)
      → rounds (suc a) (suc a) b
        ≡ rounds (suc a / 2) (suc a / 2) (b / 2) * 2 + op (suc a % 2) (b % 2)
  rounds_step a b =
      ap (λ t. t * 2 + op (suc a % 2) (b % 2))
        (rounds_enough a (suc a / 2) (suc a / 2) (b / 2) (omega arith) (omega arith))

pub double_shift : (q k : ℕ) → q * 2 ^ suc k ≡ q * 2 ^ k * 2
double_shift q k = omega (arith, ap (λ (t : ℕ). q * t) (pow-suc 2 k))
