-- ===== src/Compute/Prefetch/Whole.antt =====
-- A whole layer split across the workers, and a region read in rounds.
use package.hypura.Prelude.{
  ℕ, zero, suc, ◌+◌, ◌-◌, ◌*◌, ◌/◌, ◌<◌, ◌≤◌, List, [], ◌∷◌, ◌++◌, length, take, drop, length-drop,
  ◌≡◌, refl, ap, ◌∙◌, inl, inr, arith, ltb, leb, ◌&&◌, if◌then◌else◌, ltb→lt, Bool-cases,
}
use package.hypura.Prelude.Keys.{nat_eq}
use native.Mathlib.Nat.{lt-mul-div-succ}
use package.hypura.Compute.Prefetch.{Region, Read, pread_rounds, pread_region}
use package.hypura.Compute.Prefetch.Load.{chunks, whole_layer}

abbrev pub concat {ℓ} : {A : Type ℓ} → List (List A) → List A
concat [] = []
concat (xs ∷ xss) = xs ++ concat xss

module _ {ℓ} {A : Type ℓ} where
  take-drop : (n : ℕ) (xs : List A) → take n xs ++ drop n xs ≡ xs
  take-drop zero xs = refl
  take-drop (suc n) [] = refl
  take-drop (suc n) (x ∷ xs) = ap (λ ys. x ∷ ys) (take-drop n xs)

  concat-chunks :
      (fuel c : ℕ) (xs : List A) → length xs ≤ fuel → concat (chunks fuel (suc c) xs) ≡ xs
  unfolding chunks
  concat-chunks zero c [] h = refl
  concat-chunks zero c (x ∷ xs) h = absurd (omega arith)
  concat-chunks (suc fuel) c [] h = refl
  concat-chunks (suc fuel) c (x ∷ xs) h =
      ap (λ ys. take (suc c) (x ∷ xs) ++ ys)
        (concat-chunks fuel c (drop c xs) (omega (arith, length-drop c xs)))
      ∙ take-drop (suc c) (x ∷ xs)

  length-chunks :
      (fuel c n : ℕ) (xs : List A) → length xs ≤ n * suc c → length (chunks fuel (suc c) xs) ≤ n
  unfolding chunks
  length-chunks zero c n xs h = omega arith
  length-chunks (suc fuel) c n [] h = omega arith
  length-chunks (suc fuel) c zero (x ∷ xs) h = absurd (omega arith)
  length-chunks (suc fuel) c (suc n) (x ∷ xs) h =
      omega (arith, length-chunks fuel c n (drop c xs) (omega (arith, length-drop c xs)))

-- The tasks of a whole layer hold its regions in order, each once, and are at most as many as the
-- workers, when the layer has a region and there is a worker.
pub whole_layer_lem :
    (r : Region) (rs : List Region) (n : ℕ)
    → (concat (whole_layer (r ∷ rs) (n + 1)) ≡ r ∷ rs)
      × (length (whole_layer (r ∷ rs) (n + 1)) ≤ n + 1)
unfolding whole_layer
whole_layer_lem r rs n =
    split_into ((suc (length rs) + (n + 1) - 1) / (n + 1))
      (omega (arith, lt-mul-div-succ (suc (length rs) + (n + 1) - 1) {b = n + 1} (omega arith)))
  where
    split_into :
        (c : ℕ)
        → suc (length rs) ≤ (n + 1) * c
        → (concat (chunks (suc (length rs)) c (r ∷ rs)) ≡ r ∷ rs)
          × (length (chunks (suc (length rs)) c (r ∷ rs)) ≤ n + 1)
    split_into zero h = absurd (omega arith)
    split_into (suc c) h = (
      concat-chunks (suc (length rs)) c (r ∷ rs) (omega arith),
      length-chunks (suc (length rs)) c (n + 1) (r ∷ rs) h,
    )

-- The memory after some reads, whose bytes come from the file.
abbrev pub copy : (ℕ → ℕ) → List Read → (ℕ → ℕ) → ℕ → ℕ
copy file [] memory a = memory a
copy file (x ∷ xs) memory a =
    copy file xs
      (λ b.
        if leb x.address b && ltb b (x.address + x.bytes)
        then file (x.from_offset + (b - x.address))
        else memory b)
      a

-- A round's bytes and those of the later rounds are next to each other.
rounds_meet :
    (file memory : ℕ → ℕ) (dst read n size from a : ℕ)
    → read + n ≤ size
    → (if leb (dst + (read + n)) a && ltb a (dst + size)
        then file (from + (a - dst))
        else if leb (dst + read) a && ltb a (dst + read + n)
        then file (from + read + (a - (dst + read)))
        else memory a)
      ≡ (if leb (dst + read) a && ltb a (dst + size) then file (from + (a - dst)) else memory a)
rounds_meet file memory dst read n size from a room = elim (Bool-cases (leb (dst + read) a)) [
  | inl h ↦
      let index : from + read + (a - (dst + read)) ≡ from + (a - dst) = ground (arith, h) in
      ground (arith, h, ap file index)
  | inr h ↦ ground (arith, h)
]

pread_rounds_step :
    (fuel : ℕ) (pread : ℕ → ℕ → ℕ) (dst : ℕ) (r : Region) (read : ℕ)
    → read < r.size
    → 0 < pread (r.file_offset + read) (r.size - read)
    → pread_rounds (suc fuel) pread dst r read
      ≡ record {
        address = dst + read;
        bytes = pread (r.file_offset + read) (r.size - read);
        from_offset = r.file_offset + read;
      }
        ∷ pread_rounds fuel pread dst r (read + pread (r.file_offset + read) (r.size - read))
unfolding pread_rounds
pread_rounds_step fuel pread dst r read less some_read = ground arith

module _ (pread : ℕ → ℕ → ℕ) (file_size : ℕ)
    (reads : (at want : ℕ)
      → 0 < want
      → at + want ≤ file_size
      → (0 < pread at want) × (pread at want ≤ want))
    (file : ℕ → ℕ) where
  copy-pread_rounds :
      (fuel dst : ℕ) (r : Region) (read : ℕ) (memory : ℕ → ℕ) (a : ℕ)
      → r.file_offset + r.size ≤ file_size
      → read ≤ r.size
      → r.size ≤ read + fuel
      → copy file (pread_rounds fuel pread dst r read) memory a ≡ (
          if leb (dst + read) a && ltb a (dst + r.size)
          then file (r.file_offset + (a - dst))
          else memory a)
  unfolding pread_rounds
  copy-pread_rounds zero dst r read memory a inside part enough = ground arith
  copy-pread_rounds (suc fuel) dst r read memory a inside part enough =
      elim (Bool-cases (ltb read r.size)) [
        | inl h ↦
            let less : read < r.size = ltb→lt read r.size h in
            let n = pread (r.file_offset + read) (r.size - read) in
            let (some_read, not_more) =
              reads (r.file_offset + read) (r.size - read) (omega arith) (omega arith) in
            let written : ℕ → ℕ = λ b.
              if leb (dst + read) b && ltb b (dst + read + n)
              then file (r.file_offset + read + (b - (dst + read)))
              else memory b in
            let later =
              copy-pread_rounds fuel dst r (read + n) written a inside (omega arith)
                (omega arith) in
            rw (pread_rounds_step fuel pread dst r read less some_read)
              (later ∙ rounds_meet file memory dst read n r.size r.file_offset a (omega arith))
        | inr h ↦ ground arith
      ]

  -- Where each pread within the file writes at least one of the bytes that it is asked for and no
  -- more than those, a region that lies in the file is copied to its place in the buffer byte by
  -- byte, and the rest of the memory stays.
  pub copy-pread_region :
      (base : ℕ) (r : Region) (memory : ℕ → ℕ) (a : ℕ)
      → r.file_offset + r.size ≤ file_size
      → copy file (pread_region pread base r) memory a ≡ (
          if leb (base + r.offset) a && ltb a (base + r.offset + r.size)
          then file (r.file_offset + (a - (base + r.offset)))
          else memory a)
  unfolding pread_region
  copy-pread_region base r memory a inside =
      let all =
        copy-pread_rounds r.size (base + r.offset) r 0 memory a inside (omega arith)
          (omega arith) in
      ground (arith, all)
