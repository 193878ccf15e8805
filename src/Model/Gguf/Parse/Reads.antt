-- ===== src/Model/Gguf/Parse/Reads.antt =====
-- How reads compose, if none of them grows what is left to read.
use hypura.Prelude.{ℕ, zero, suc, ◌+◌, ◌-◌, ◌*◌, ◌≤◌, List, [], ◌∷◌, length, ◌≢◌, arith}
use hypura.Prelude.Text.{text_eq}
use hypura.Model.Gguf.{GgufError}
use hypura.Model.Gguf.Reader
use hypura.Model.Gguf.Reader.{
  Reader, Result, ok, err, Read, ◌>>=◌, return, fail, read_u8, read_le, read_exact, read_string,
  utf8_or_error, is_utf8_from,
}

-- The result leaves at least `k` bytes fewer, or is an error of the program's.
abbrev pub Good : {A : Type 0} → ℕ → ℕ → Result (A × Reader) → Type 0
Good k n (ok (a, r)) = length r.bytes + k ≤ n
Good k n (err e) = e ≢ GgufError.out_of_fuel

-- So it is for every reader with at most `n` bytes left.
abbrev pub Reads : {A : Type 0} → ℕ → ℕ → Read A → Type 0
Reads k n m = (r : Reader) → length r.bytes ≤ n → Good k (length r.bytes) (m r)

pub Good-le :
    {A : Type 0} (k j m n : ℕ) (x : Result (A × Reader)) → j + m ≤ k + n → Good k m x → Good j n x
Good-le k j m n (ok (a, r)) h g = omega arith
Good-le k j m n (err e) h g = g

pub Reads-bind :
    {A B : Type 0} (k i j n : ℕ) (m : Read A) (f : A → Read B)
    → j ≤ k + i
    → Reads k n m
    → ((a : A) → k ≤ n → Reads i (n - k) (f a))
    → Reads j n (m >>= f)
Reads-bind {A} {B} k i j n m f sum hm hf r le = by_result (m r) (hm r le)
  where
    by_result :
        (x : Result (A × Reader))
        → Good k (length r.bytes) x
        → Good j
            (length r.bytes)
            (elim x as (λ _. Result (B × Reader)) [ err e ↦ err e | ok (a, r') ↦ f a r' ])
    by_result (err e) g = g
    by_result (ok (a, r')) g =
        Good-le i j (length r'.bytes) (length r.bytes) (f a r') (omega arith)
          (hf a (omega arith) r' (omega arith))

-- The bind whose first part may take nothing.
pub Reads-then :
    {A B : Type 0} (n : ℕ) (m : Read A) (f : A → Read B)
    → Reads 0 n m
    → ((a : A) → Reads 0 n (f a))
    → Reads 0 n (m >>= f)
Reads-then n m f hm hf = Reads-bind 0 0 0 n m f (omega arith) hm (λ a h r le. hf a r (omega arith))

pub Reads-return : {A : Type 0} (n : ℕ) (a : A) → Reads 0 n (return a)
Reads-return n a r le = omega arith

pub Reads-fail :
    (A : Type 0) (n : ℕ) (e : GgufError) → e ≢ GgufError.out_of_fuel → Reads {A = A} 0 n (fail e)
Reads-fail A n e ne r le = ne

pub Reads-u8 : (n : ℕ) → Reads 1 n read_u8
unfolding read_u8
Reads-u8 n r le = by_bytes r.bytes
  where
    by_bytes : (bs : List ℕ) → Good 1 (length bs) (Reader.byte_of bs r.position)
    by_bytes [] = λ e. cc
    by_bytes (b ∷ bs) = omega arith

pub Reads-weaken : {A : Type 0} (k n : ℕ) (m : Read A) → Reads k n m → Reads 0 n m
Reads-weaken k n m h r le =
    Good-le k 0 (length r.bytes) (length r.bytes) (m r) (omega arith) (h r le)

pub Reads-le : (k n : ℕ) → Reads 0 n (read_le k)
unfolding read_le
Reads-le zero n = Reads-return {A = ℕ} n 0
Reads-le (suc k) n =
    Reads-then n read_u8 _ (Reads-weaken 1 n read_u8 (Reads-u8 n))
      (λ b. Reads-then n (read_le k) _ (Reads-le k n) (λ v. Reads-return n (b + 256 * v)))

-- A read of at least one byte is strict.
pub Reads-le_suc : (k n : ℕ) → Reads 1 n (read_le (suc k))
unfolding read_le
Reads-le_suc k n = Reads-bind 1 0 1 n read_u8 _ (omega arith) (Reads-u8 n) (λ b pos.
    Reads-then (n - 1) (read_le k) _ (Reads-le k (n - 1)) (λ v. Reads-return (n - 1) (b + 256 * v)))
