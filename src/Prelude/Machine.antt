-- ===== src/Prelude/Machine.antt =====
-- Arithmetic of the machine's 64-bit words: `+` and `*` wrap around as in a release build,
-- `saturating_sub` is `-` on ℕ.
use Prim.Native.Nat.{ℕ, ◌+◌, ◌%◌, ◌<◌, ◌≤◌}
use mathlib.Core.Path.{◌≡◌, refl}
use mathlib.Core.List.{List, [], ◌∷◌}
use native.Mathlib.Omega.{arith}
use hypura.Prelude.Sort.{total}

unfoldable pub u64 : ℕ → ℕ
u64 n = n % 18446744073709551616

pub u64_small : (n : ℕ) → n < 18446744073709551616 → u64 n ≡ n
unfolding u64
u64_small n h = omega arith

pub u64-le : (n : ℕ) → u64 n ≤ n
unfolding u64
u64-le n = omega arith

-- The sum of sizes as the program computes it.
unfoldable pub u64_total {ℓ} : {A : Type ℓ} → (A → ℕ) → List A → ℕ
unfolding u64
u64_total w [] = 0
u64_total w (x ∷ xs) = u64 (w x + u64_total w xs)

pub u64_total_small {ℓ} :
    {A : Type ℓ} (w : A → ℕ) (xs : List A)
    → total w xs < 18446744073709551616
    → u64_total w xs ≡ total w xs
unfolding u64_total u64
u64_total_small w [] h = refl
u64_total_small w (x ∷ xs) h = omega (arith, u64_total_small w xs (omega arith))
