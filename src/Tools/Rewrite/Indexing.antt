-- ===== src/Tools/Rewrite/Indexing.antt =====
-- What the indexings of a break duration give, in range and out of it.
use rust_pois.Prelude.{
  ℕ, ◌+◌, ◌*◌, ◌/◌, ◌%◌, ◌^◌, ◌≤◌, ◌<◌, ◌≡◌, refl, arith, length, length-set, set, get_or, lt→ltb,
  ltb, false, Run, done, panics, bind_run,
}
use rust_pois.Bits.{Bytes}
use rust_pois.Tools.Rewrite.{index, store, read_break, write_break, get_break, put_break}

index-some : (bytes : Bytes) (i : ℕ) → i < length bytes → index bytes i ≡ done (get_or bytes i 0)
unfolding index
index-some bytes i h = rw (lt→ltb i (length bytes) h) refl

store-some : (bytes : Bytes) (i v : ℕ) → i < length bytes → store bytes i v ≡ done (set bytes i v)
unfolding store
store-some bytes i v h = rw (lt→ltb i (length bytes) h) refl

index-panics : (bytes : Bytes) (i : ℕ) → length bytes ≤ i → index bytes i ≡ panics
unfolding index
index-panics bytes i h = let out : ltb i (length bytes) ≡ false = ground arith in rw out refl

-- A reading before one that panics changes nothing.
panics_later : {A : Type 0} (r : Run ℕ) → bind_run {B = A} r (λ a. panics) ≡ panics
panics_later (done a) = refl
panics_later panics = refl

pub read_break-some :
    (bd : ℕ) (bytes : Bytes)
    → bd + 5 ≤ length bytes
    → read_break bd bytes ≡ done (get_break bd bytes)
unfolding read_break
read_break-some bd bytes h =
    let two : bd + 1 + 1 ≡ bd + 2 = omega arith in
    let three : bd + 1 + 2 ≡ bd + 3 = omega arith in
    let four : bd + 1 + 3 ≡ bd + 4 = omega arith in
    rw
      (
        two,
        three,
        four,
        index-some bytes bd (omega arith),
        index-some bytes (bd + 1) (omega arith),
        index-some bytes (bd + 2) (omega arith),
        index-some bytes (bd + 3) (omega arith),
        index-some bytes (bd + 4) (omega arith),
        read_break,
      )
      refl

pub read_break-short :
    (bd : ℕ) (bytes : Bytes) → length bytes < bd + 5 → read_break bd bytes ≡ panics
unfolding read_break
read_break-short bd bytes h =
    simp (index-panics bytes (bd + 4) (omega arith), panics_later, read_break)

pub write_break-some :
    (bd t : ℕ) (bytes : Bytes)
    → bd + 5 ≤ length bytes
    → write_break bd t bytes ≡ done (put_break bd t bytes)
unfolding write_break
write_break-some bd t bytes h =
    let two : bd + 1 + 1 ≡ bd + 2 = omega arith in
    let three : bd + 1 + 2 ≡ bd + 3 = omega arith in
    let four : bd + 1 + 3 ≡ bd + 4 = omega arith in
    let b₁ = set bytes bd (get_or bytes bd 0 / 2 * 2 + t / 2 ^ 32 % 2) in
    let b₂ = set b₁ (bd + 1) (t / 2 ^ 24 % 256) in
    let b₃ = set b₂ (bd + 2) (t / 2 ^ 16 % 256) in
    let b₄ = set b₃ (bd + 3) (t / 2 ^ 8 % 256) in
    let l₁ : length b₁ ≡ length bytes = length-set bytes bd _ in
    let l₂ : length b₂ ≡ length b₁ = length-set b₁ (bd + 1) _ in
    let l₃ : length b₃ ≡ length b₂ = length-set b₂ (bd + 2) _ in
    let l₄ : length b₄ ≡ length b₃ = length-set b₃ (bd + 3) _ in
    rw
      (
        two,
        three,
        four,
        index-some bytes bd (omega arith),
        store-some bytes bd _ (omega arith),
        store-some b₁ (bd + 1) _ (omega arith),
        store-some b₂ (bd + 2) _ (omega arith),
        store-some b₃ (bd + 3) _ (omega arith),
        store-some b₄ (bd + 4) _ (omega arith),
        write_break,
      )
      refl
