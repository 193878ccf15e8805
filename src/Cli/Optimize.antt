-- ===== src/Cli/Optimize.antt =====
-- src/cli/optimize.rs: the order in which experts are stored, and the rewriting of a tensor.
pub mod Order
mod Bytes
mod Tests
use package.hypura.Prelude.{
  ℕ, zero, suc, ◌+◌, ◌*◌, ◌/◌, ◌≤◌, ◌<◌, Bool, true, false, not, ◌&&◌, ◌||◌, Option, none, some,
  List, [], ◌∷◌, ◌++◌, if◌then◌else◌, ltb, leb, ◌==◌, length, get_elem?, get_or, set, replicate,
}
use package.hypura.Prelude.Keys.{nat_eq, retain}
use package.hypura.Prelude.Machine.{u64_total}

-- `reordered[dst..dst + n].copy_from_slice(&original[src..src + n])`, inside of both.
unfoldable pub copy_bytes : (n src dst : ℕ) → List ℕ → List ℕ → List ℕ
copy_bytes zero src dst original reordered = reordered
copy_bytes (suc n) src dst original reordered =
    copy_bytes n (suc src) (suc dst) original (set reordered dst (get_or original src 0))

-- The loop over `perm` at position `new_pos`; a slice that is out of range panics.
unfoldable pub reorder_from : List ℕ → (new_pos stride : ℕ) → List ℕ → List ℕ → Option (List ℕ)
unfolding copy_bytes
reorder_from [] new_pos stride original reordered = some reordered
reorder_from (old_expert ∷ perm) new_pos stride original reordered =
    let src = old_expert * stride in
    let dst = new_pos * stride in
    let later =
      reorder_from perm (suc new_pos) stride original
        (copy_bytes stride src dst original reordered) in
    if leb (dst + stride) (length reordered) && leb (src + stride) (length original)
    then later
    else none

pub data Rewrite : Type 0 where
  panicked checksum_mismatch : Rewrite
  rewritten : List ℕ → Rewrite

-- The sum of the bytes, each as a 64-bit word.
abbrev pub byte_sum : List ℕ → ℕ
byte_sum bytes = u64_total (λ b. b) bytes

-- One tensor: its bytes in the order of `perm`, after the check of the sums.
unfoldable pub rewrite_tensor : List ℕ → (num_experts : ℕ) → List ℕ → Rewrite
unfolding reorder_from u64_total
rewrite_tensor perm num_experts original =
    let stride = length original / num_experts in
    elim (reorder_from perm 0 stride original (replicate (length original) 0)) [
      | none ↦ panicked
      | some reordered ↦
          if byte_sum original == byte_sum reordered then rewritten reordered else checksum_mismatch
    ]
