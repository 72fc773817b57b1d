-- ===== src/Tools/Rewrite/Within.antt =====
-- An edit in place: the buffer keeps its length and its other bytes.
use rust_pois.Prelude.{
  ℕ, ◌+◌, ◌*◌, ◌/◌, ◌%◌, ◌^◌, ◌≤◌, ◌<◌, ◌≡◌, ◌⊎◌, inl, inr, refl, ◌∙◌, arith, length, get_or, set,
  length-set, All-set, All-get_or, get_or-set_other, get_or-set,
}
use rust_pois.Bits.{Bytes, AreBytes, IsByte}
use rust_pois.Tools.Rewrite.{put_word, put_break, get_word, get_break, put_duration}

-- `out` is `bytes` but for the places from `lo` up to `hi`.
pub record Within (lo hi : ℕ) (bytes out : Bytes) : Type 0 where
  pub same_length : length out ≡ length bytes
  pub are_bytes : AreBytes bytes → AreBytes out
  pub elsewhere : (i : ℕ) → (i < lo) ⊎ (hi ≤ i) → get_or out i 0 ≡ get_or bytes i 0

pub Within-refl : (lo hi : ℕ) (bytes : Bytes) → Within lo hi bytes bytes
Within-refl lo hi bytes = record { same_length = refl; are_bytes = λ h. h; elsewhere = λ i h. refl }

pub Within-trans :
    {lo hi : ℕ} {a b c : Bytes} → Within lo hi a b → Within lo hi b c → Within lo hi a c
Within-trans v w = record {
  same_length = w.same_length ∙ v.same_length;
  are_bytes = λ h. w.are_bytes (v.are_bytes h);
  elsewhere = λ i h. w.elsewhere i h ∙ v.elsewhere i h;
}

pub Within-wider :
    {lo hi lo' hi' : ℕ} {a b : Bytes} → lo' ≤ lo → hi ≤ hi' → Within lo hi a b → Within lo' hi' a b
Within-wider l h w = record {
  same_length = w.same_length;
  are_bytes = w.are_bytes;
  elsewhere =
      λ i out. w.elsewhere i (elim out [ inl lt ↦ inl (omega arith) | inr le ↦ inr (omega arith) ]);
}

pub set-Within :
    (lo hi : ℕ) (bytes : Bytes) (i v : ℕ)
    → lo ≤ i
    → i < hi
    → (AreBytes bytes → v < 256)
    → Within lo hi bytes (set bytes i v)
set-Within lo hi bytes i v low high byte = record {
  same_length = length-set bytes i v;
  are_bytes = λ h. All-set IsByte bytes i v h (byte h);
  elsewhere = λ j out.
      get_or-set_other bytes i j v 0
        (λ e. elim out [ inl lt ↦ omega arith | inr le ↦ omega arith ]);
}

pub put_word-Within : (i t : ℕ) (bytes : Bytes) → Within i (i + 4) bytes (put_word i t bytes)
put_word-Within i t bytes =
    Within-trans
      (Within-trans
        (Within-trans
          (set-Within i (i + 4) bytes i _ (omega arith) (omega arith) (λ h. omega arith))
          (set-Within i (i + 4) _ (i + 1) _ (omega arith) (omega arith) (λ h. omega arith)))
        (set-Within i (i + 4) _ (i + 2) _ (omega arith) (omega arith) (λ h. omega arith)))
      (set-Within i (i + 4) _ (i + 3) _ (omega arith) (omega arith) (λ h. omega arith))

byte_at : (bytes : Bytes) (i : ℕ) → AreBytes bytes → get_or bytes i 0 < 256
byte_at bytes i h = All-get_or IsByte bytes i 0 h (omega arith)

pub put_break-Within : (bd t : ℕ) (bytes : Bytes) → Within bd (bd + 5) bytes (put_break bd t bytes)
put_break-Within bd t bytes =
    Within-trans
      (set-Within bd (bd + 5) bytes bd _ (omega arith) (omega arith)
        (λ h. omega (arith, byte_at bytes bd h)))
      (Within-wider (omega arith) (omega arith) (put_word-Within (bd + 1) t _))

pub put_duration-Within :
    (i t : ℕ) (bytes : Bytes) → Within i (i + 5) bytes (put_duration i t bytes)
put_duration-Within i t bytes =
    Within-trans (set-Within i (i + 5) bytes i _ (omega arith) (omega arith) (λ h. omega arith))
      (Within-wider (omega arith) (omega arith) (put_word-Within (i + 1) t _))

-- What is read back.
module _ (i t : ℕ) (bytes : Bytes) (fits : i + 4 ≤ length bytes) where
  get_word-put_word : get_word i (put_word i t bytes) ≡ t % 2 ^ 32
  get_word-put_word =
      let b₁ = set bytes i (t / 2 ^ 24 % 256) in
      let b₂ = set b₁ (i + 1) (t / 2 ^ 16 % 256) in
      let b₃ = set b₂ (i + 2) (t / 2 ^ 8 % 256) in
      let l₁ : length b₁ ≡ length bytes = length-set bytes i _ in
      let l₂ : length b₂ ≡ length b₁ = length-set b₁ (i + 1) _ in
      let l₃ : length b₃ ≡ length b₂ = length-set b₂ (i + 2) _ in
      let other : (b : Bytes) (n j v : ℕ) → j < n → get_or (set b n v) j 0 ≡ get_or b j 0 =
        λ b n j v lt. get_or-set_other b n j v 0 (λ e. omega arith) in
      let w₀ =
        other b₃ (i + 3) i (t % 256) (omega arith)
        ∙ other b₂ (i + 2) i _ (omega arith)
        ∙ other b₁ (i + 1) i _ (omega arith)
        ∙ get_or-set bytes i _ 0 (omega arith) in
      let w₁ =
        other b₃ (i + 3) (i + 1) (t % 256) (omega arith)
        ∙ other b₂ (i + 2) (i + 1) _ (omega arith)
        ∙ get_or-set b₁ (i + 1) (t / 2 ^ 16 % 256) 0 (omega arith) in
      let w₂ =
        other b₃ (i + 3) (i + 2) (t % 256) (omega arith)
        ∙ get_or-set b₂ (i + 2) (t / 2 ^ 8 % 256) 0 (omega arith) in
      let w₃ = get_or-set b₃ (i + 3) (t % 256) 0 (omega arith) in omega (arith, w₀, w₁, w₂, w₃)

-- The 33 bits of a break duration are those that were put there.
pub get_break-put_break :
    (bd t : ℕ) (bytes : Bytes)
    → bd + 5 ≤ length bytes
    → get_break bd (put_break bd t bytes) ≡ t % 2 ^ 33
get_break-put_break bd t bytes fits =
    let b₀ = set bytes bd (get_or bytes bd 0 / 2 * 2 + t / 2 ^ 32 % 2) in
    let len : length b₀ ≡ length bytes = length-set bytes bd _ in
    let low = get_word-put_word (bd + 1) t b₀ (omega (arith, len)) in
    let high =
      (put_word-Within (bd + 1) t b₀).elsewhere bd (inl (omega arith))
      ∙ get_or-set bytes bd (get_or bytes bd 0 / 2 * 2 + t / 2 ^ 32 % 2) 0 (omega arith) in
    omega (arith, low, high)
