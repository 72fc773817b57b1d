-- ===== src/Scte35/Writer/Laws.antt =====
-- The writer's buffer as a list of bits: writing appends, patching replaces.
use rust_pois.Prelude.{
  ℕ, zero, suc, ◌+◌, ◌*◌, ◌/◌, ◌%◌, ◌^◌, ◌<◌, max, ◌≡◌, refl, sym, ap, ◌∙◌, List, [], ◌∷◌, ◌++◌,
  true, false, arith, length, set, get_or, replicate, length-append, length-replicate, append_assoc,
  append-nil, All-append, set-append, get_or-append, leb, if◌then◌else◌, ltb,
}
use rust_pois.Bits.{to_bits, unpack, Bytes, AreBytes, IsByte}
use rust_pois.Bits.Stream.{
  length-unpack, unpack-append, unpack-or_bit, or_bit-AreBytes, unpack-put_bit, put_bit-AreBytes,
}
use rust_pois.Scte35.Writer.{BitWriter, new, write_bit, write_bits, patch_u1, patch_bits}

-- The writer holds the bits `bs`, and zeros up to the next byte.
pub record Holds (w : BitWriter) (bs : List ℕ) : Type 0 where
  pub pos : w.bitpos ≡ length bs
  pub pad : ℕ
  pub pad_small : pad < 8
  pub content : unpack w.bytes ≡ bs ++ replicate pad 0
  pub are_bytes : AreBytes w.bytes

pub Holds-new : Holds new []
Holds-new = record { pos = refl; pad = 0; pad_small = omega arith; content = refl; are_bytes = tt }

-- The buffer is as long as the bits need.
pub size : {w : BitWriter} {bs : List ℕ} (h : Holds w bs) → 8 * length w.bytes ≡ w.bitpos + h.pad
size {w} {bs} h = omega (
  arith,
  length-unpack w.bytes,
  ap (λ (l : List ℕ). length l) h.content,
  length-append bs (replicate h.pad 0),
  length-replicate {A = ℕ} h.pad 0,
  h.pos,
)

grown : BitWriter → Bytes
grown w = if leb (length w.bytes) (w.bitpos / 8) then w.bytes ++ 0 ∷ [] else w.bytes

-- Room for one more bit: at least one zero after the bits.
abbrev HasRoom : Bytes → List ℕ → Type 0
HasRoom xs bs = (k : ℕ) × (k < 8) × (unpack xs ≡ bs ++ 0 ∷ replicate k 0) × AreBytes xs

set_next :
    (l bs : List ℕ) (k p b : ℕ)
    → p ≡ length bs
    → l ≡ bs ++ 0 ∷ replicate k 0
    → set l p (max (get_or l p 0) b) ≡ bs ++ b ∷ replicate k 0
set_next l bs k p b e c =
    rw (c, get_or-append bs 0 (replicate k 0) p 0 (sym e))
      (set-append bs 0 (replicate k 0) p (max 0 b) (sym e)
        ∙ ap (λ (t : ℕ). bs ++ t ∷ replicate k 0) (omega arith))

grown-HasRoom_pad :
    (xs : Bytes) (p pad : ℕ) (bs : List ℕ)
    → p ≡ length bs
    → pad < 8
    → 8 * length xs ≡ p + pad
    → unpack xs ≡ bs ++ replicate pad 0
    → AreBytes xs
    → HasRoom (if leb (length xs) (p / 8) then xs ++ 0 ∷ [] else xs) bs
grown-HasRoom_pad xs p zero bs e small len c a =
    let full : leb (length xs) (p / 8) ≡ true = ground arith in
    let bits : unpack (xs ++ 0 ∷ []) ≡ bs ++ replicate 8 0 =
      unpack-append xs (0 ∷ []) ∙ ap (λ (l : List ℕ). l ++ replicate 8 0) (c ∙ append-nil bs) in
    rw full (7, omega arith, bits, All-append IsByte xs (0 ∷ []) a (omega arith, tt))
grown-HasRoom_pad xs p (suc k) bs e small len c a =
    let room : leb (length xs) (p / 8) ≡ false = ground arith in rw room (k, omega arith, c, a)

grown-HasRoom : {w : BitWriter} {bs : List ℕ} → Holds w bs → HasRoom (grown w) bs
unfolding grown
grown-HasRoom {w} {bs} h =
    grown-HasRoom_pad w.bytes w.bitpos h.pad bs h.pos h.pad_small (size h) h.content h.are_bytes

-- Writing a bit appends it.
write_bit-Holds :
    {w : BitWriter} {bs : List ℕ} (b : ℕ)
    → b < 2
    → Holds w bs
    → Holds (write_bit w b) (bs ++ b ∷ [])
unfolding write_bit grown
write_bit-Holds {w} {bs} b hb h =
    let (k, small, bits, bytes) = grown-HasRoom h in
    record {
      pos = omega (arith, h.pos, length-append bs (b ∷ []));
      pad = k;
      pad_small = small;
      content =
          unpack-or_bit (grown w) w.bitpos b bytes hb
          ∙ set_next (unpack (grown w)) bs k w.bitpos b h.pos bits
          ∙ sym (append_assoc bs (b ∷ []) (replicate k 0));
      are_bytes = or_bit-AreBytes (grown w) w.bitpos b bytes hb;
    }

-- Writing a number appends its low bits, the most significant first, and pads the last byte with zeros.
pub write_bits-Holds :
    (v n : ℕ) {w : BitWriter} {bs : List ℕ}
    → Holds w bs
    → Holds (write_bits v n w) (bs ++ to_bits n v)
unfolding write_bits
write_bits-Holds v zero h = rw append-nil h
write_bits-Holds v (suc n) {bs} h =
    rw (append_assoc bs (v / 2 ^ n % 2 ∷ []) (to_bits n v)) at
      (write_bits-Holds v n (write_bit-Holds (v / 2 ^ n % 2) (omega arith) h))

patch_u1-Holds :
    {w : BitWriter} (pre : List ℕ) (old b : ℕ) (post : List ℕ) (p : ℕ)
    → p ≡ length pre
    → b < 2
    → Holds w (pre ++ old ∷ post)
    → Holds (patch_u1 p b w) (pre ++ b ∷ post)
unfolding patch_u1
patch_u1-Holds {w} pre old b post p e hb h =
    let longer : length (pre ++ old ∷ post) ≡ length pre + suc (length post) =
      length-append pre (old ∷ post) in
    let inside : ltb (p / 8) (length w.bytes) ≡ true = ground (arith, size h, h.pos) in
    let low : b % 2 ≡ b = omega arith in
    rw (inside, low)
      (record {
        pos = omega (arith, h.pos, longer, length-append pre (b ∷ post));
        pad = h.pad;
        pad_small = h.pad_small;
        content =
            unpack-put_bit w.bytes p b h.are_bytes hb
            ∙ ap (λ (l : List ℕ). set l p b)
                (h.content ∙ append_assoc pre (old ∷ post) (replicate h.pad 0))
            ∙ set-append pre old (post ++ replicate h.pad 0) p b (sym e)
            ∙ sym (append_assoc pre (b ∷ post) (replicate h.pad 0));
        are_bytes = put_bit-AreBytes w.bytes p b h.are_bytes hb;
      })

-- Patching a field inside the written bits replaces the field's bits and nothing else.
pub patch_bits-Holds :
    (v n p : ℕ) {w : BitWriter} (pre mid post : List ℕ)
    → p ≡ length pre
    → length mid ≡ n
    → Holds w (pre ++ (mid ++ post))
    → Holds (patch_bits n p v w) (pre ++ (to_bits n v ++ post))
unfolding patch_bits
patch_bits-Holds v zero p pre [] post e len h = h
patch_bits-Holds v zero p pre (m ∷ mid) post e len h = absurd (omega arith)
patch_bits-Holds v (suc n) p pre [] post e len h = absurd (omega arith)
patch_bits-Holds v (suc n) p pre (m ∷ mid) post e len h =
    let b = v / 2 ^ n % 2 in
    let first = patch_u1-Holds pre m b (mid ++ post) p e (omega arith) h in
    let moved = rw (← append_assoc pre (b ∷ []) (mid ++ post)) at first in
    rw (append_assoc pre (b ∷ []) (to_bits n v ++ post)) at (
      patch_bits-Holds v n (p + 1) (pre ++ b ∷ []) mid post
        (omega (arith, length-append pre (b ∷ []))) (omega arith) moved)
