-- ===== src/Cli/Optimize/Bytes.antt =====
-- The bytes of a rewritten tensor, read where the loaded model looks for them.
use hypura.Prelude.{
  ℕ, zero, suc, ◌+◌, ◌*◌, ◌≤◌, ◌<◌, true, some, List, [], ◌∷◌, leb, length, get_elem?, get_or, set,
  replicate, length-set, length-replicate, get_or-set_self, get_or-set_ne, ◌≡◌, refl, sym, ◌∙◌, ap,
  arith, All,
}
use hypura.Prelude.Keys.{nat_eq}
use hypura.Io.Layout.{ExpertLayout, map_expert_id, invert, copied_or}
use hypura.Io.Layout.Inverse.{IsOrder, invert_at, length-invert, place}
use hypura.Cli.Optimize.{copy_bytes, reorder_from}

length-copy_bytes :
    (n src dst : ℕ) (xs ys : List ℕ) → length (copy_bytes n src dst xs ys) ≡ length ys
unfolding copy_bytes
length-copy_bytes zero src dst xs ys = refl
length-copy_bytes (suc n) src dst xs ys =
    length-copy_bytes n (suc src) (suc dst) xs (set ys dst (get_or xs src 0))
    ∙ length-set ys dst (get_or xs src 0)

-- The bytes outside of the copy stay.
copy_bytes_before :
    (n src dst : ℕ) (xs ys : List ℕ) (j : ℕ)
    → j < dst
    → get_or (copy_bytes n src dst xs ys) j 0 ≡ get_or ys j 0
unfolding copy_bytes
copy_bytes_before zero src dst xs ys j h = refl
copy_bytes_before (suc n) src dst xs ys j h =
    copy_bytes_before n (suc src) (suc dst) xs (set ys dst (get_or xs src 0)) j (omega arith)
    ∙ get_or-set_ne ys dst j (get_or xs src 0) 0 (λ e. omega (arith, e))

-- The bytes inside are the source's.
copy_bytes_inside :
    (n src dst : ℕ) (xs ys : List ℕ) (k : ℕ)
    → k < n
    → dst + n ≤ length ys
    → get_or (copy_bytes n src dst xs ys) (dst + k) 0 ≡ get_or xs (src + k) 0
unfolding copy_bytes
copy_bytes_inside zero src dst xs ys k h room = absurd (omega arith)
copy_bytes_inside (suc n) src dst xs ys zero h room =
    let next = set ys dst (get_or xs src 0) in
    ap (λ j. get_or (copy_bytes n (suc src) (suc dst) xs next) j 0) (omega arith)
    ∙ copy_bytes_before n (suc src) (suc dst) xs next dst (omega arith)
    ∙ get_or-set_self ys dst (get_or xs src 0) 0 (omega arith)
    ∙ ap (λ j. get_or xs j 0) (omega arith)
copy_bytes_inside (suc n) src dst xs ys (suc k) h room =
    let next = set ys dst (get_or xs src 0) in
    ap (λ j. get_or (copy_bytes n (suc src) (suc dst) xs next) j 0) (omega arith)
    ∙ copy_bytes_inside n (suc src) (suc dst) xs next k (omega arith)
        (omega (arith, length-set ys dst (get_or xs src 0)))
    ∙ ap (λ j. get_or xs j 0) (omega arith)

-- What the loop over `perm` from a position leaves: as many bytes, those before the position as
-- they were, and at each later place those of its expert.
pub record Reordered (perm : List ℕ) (pos stride : ℕ) (original before after : List ℕ)
    : Type 0 where
  pub size : length after ≡ length before
  pub earlier : (j : ℕ) → j < pos * stride → get_or after j 0 ≡ get_or before j 0
  pub moved :
      (q k : ℕ)
      → q < length perm
      → k < stride
      → get_or after ((pos + q) * stride + k) 0 ≡ get_or original (get_or perm q 0 * stride + k) 0

next_place : (p s : ℕ) → suc p * s ≡ p * s + s
next_place p s = grind arith

moved_step :
    (old : ℕ) (perm : List ℕ) (pos stride : ℕ) (original before after : List ℕ)
    → pos * stride + stride ≤ length before
    → Reordered perm
        (suc pos)
        stride
        original
        (copy_bytes stride (old * stride) (pos * stride) original before)
        after
    → (q k : ℕ) → q < suc (length perm)
    → k < stride
    → get_or after ((pos + q) * stride + k) 0
      ≡ get_or original (get_or (old ∷ perm) q 0 * stride + k) 0
moved_step old perm pos stride original before after room r zero k lt less =
    ap (λ j. get_or after j 0) (omega arith)
    ∙ r.earlier (pos * stride + k) (omega (arith, next_place pos stride))
    ∙ copy_bytes_inside stride (old * stride) (pos * stride) original before k less room
moved_step old perm pos stride original before after room r (suc q) k lt less =
    ap (λ m. get_or after (m * stride + k) 0) (omega arith) ∙ r.moved q k (omega arith) less

reorder_from-Reordered :
    (perm : List ℕ) (pos stride n : ℕ) (original before : List ℕ)
    → All (λ e. e < n) perm
    → n * stride ≤ length original
    → (pos + length perm) * stride ≤ length before
    → (after : List ℕ) × ((reorder_from perm pos stride original before ≡ some after)
        × Reordered perm pos stride original before after)
unfolding reorder_from
reorder_from-Reordered [] pos stride n original before h fits room = (
  before,
  (
    refl,
    record { size = refl; earlier = λ j lt. refl; moved = λ q k lt less. absurd (omega arith) },
  ),
)
reorder_from-Reordered (old ∷ perm) pos stride n original before h fits room =
    let next = copy_bytes stride (old * stride) (pos * stride) original before in
    let long = length-copy_bytes stride (old * stride) (pos * stride) original before in
    let step = room_here pos stride (length perm) (length before) room in
    let src = source_here old stride n (length original) h.0 fits in
    let (after, (e, r)) =
      reorder_from-Reordered perm (suc pos) stride n original next h.1 fits
        (omega (arith, step.1, long)) in
    let dst_fits : leb (pos * stride + stride) (length before) ≡ true = ground (arith, step.0) in
    let src_fits : leb (old * stride + stride) (length original) ≡ true = ground (arith, src) in
    (
      after,
      (
        rw (dst_fits, src_fits) e,
        record {
          size = r.size ∙ long;
          earlier = λ j lt.
              r.earlier j (omega (arith, next_place pos stride))
              ∙ copy_bytes_before stride (old * stride) (pos * stride) original before j lt;
          moved = moved_step old perm pos stride original before after step.0 r;
        },
      ),
    )
  where
    room_here : (p s m l : ℕ) → (p + suc m) * s ≤ l → (p * s + s ≤ l) × ((suc p + m) * s ≤ l)
    room_here p s m l h = (grind arith, grind arith)

    source_here : (o s n l : ℕ) → o < n → n * s ≤ l → o * s + s ≤ l
    source_here o s n l h k = grind arith

-- The byte that the loaded model reads for an expert.
abbrev pub byte_of : List ℕ → (offset k : ℕ) → ℕ
byte_of bytes offset k = get_or bytes (offset + k) 0

-- The position that the layout has for a number, with the inverse of the stored order.
map_expert_id_lem :
    (x : ExpertLayout) (n : ℕ) (order : List ℕ) (q : ℕ)
    → IsOrder n order
    → x.expert_permutation ≡ some (invert order)
    → q < n
    → map_expert_id x (get_or order q 0) ≡ q
unfolding map_expert_id
map_expert_id_lem x n order q h e lt = rw e (
    copied_at (invert order) (get_or order q 0)
      (omega (arith, length-invert order, h.size, below_at order q h.below (omega (arith, h.size))))
    ∙ invert_at n order q h lt)
  where
    copied_at : (xs : List ℕ) (i : ℕ) → i < length xs → copied_or (get_elem? xs i) i ≡ get_or xs i 0
    copied_at xs i h = go xs i i h
      where
        go : (xs : List ℕ) (i d : ℕ) → i < length xs → copied_or (get_elem? xs i) d ≡ get_or xs i 0
        go [] i d h = elim h [ ]
        go (x ∷ xs) zero d h = refl
        go (x ∷ xs) (suc i) d h = go xs i d (omega arith)

    below_at : (xs : List ℕ) (i : ℕ) → All (λ e. e < n) xs → i < length xs → get_or xs i 0 < n
    below_at [] i h lt = elim lt [ ]
    below_at (x ∷ xs) zero h lt = h.0
    below_at (x ∷ xs) (suc i) h lt = below_at xs i h.1 (omega arith)

-- For a tensor of `n` experts of one stride each, rewritten in an order of the numbers below `n`, and
-- a layout with the inverse of the order: the loop does not panic, and at the place of each expert in
-- the rewritten tensor are the bytes that the expert had in the original.
pub reorder_from-byte_of :
    (order : List ℕ) (n stride : ℕ) (original : List ℕ) (x : ExpertLayout)
    → IsOrder n order
    → length original ≡ n * stride
    → x.expert_permutation ≡ some (invert order)
    → (after : List ℕ) × ((reorder_from order 0 stride original
            (replicate {A = ℕ} (length original) 0)
          ≡ some after)
        × ((e k : ℕ)
            → e < n
            → k < stride
            → byte_of after (map_expert_id x e * stride) k ≡ byte_of original (e * stride) k))
reorder_from-byte_of order n stride original x h size inverse =
    let zeros : List ℕ = replicate (length original) 0 in
    let long = length-replicate {A = ℕ} (length original) 0 in
    let (after, (done, r)) =
      reorder_from-Reordered order 0 stride n original zeros h.below (omega (arith, size))
        (rw h.size (omega (arith, long, size))) in
    (
      after,
      (
        done,
        λ e k lt less.
            let (q, (there, at)) = place order e (h.complete e lt) in
            let found : map_expert_id x e ≡ q =
              ap (map_expert_id x) (sym at)
              ∙ map_expert_id_lem x n order q h inverse (omega (arith, h.size)) in
            rw found (
              ap (λ m. get_or after (m * stride + k) 0) (omega arith)
              ∙ r.moved q k there less
              ∙ ap (λ m. get_or original (m * stride + k) 0) at),
      ),
    )
