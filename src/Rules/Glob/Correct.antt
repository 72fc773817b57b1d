-- ===== src/Rules/Glob/Correct.antt =====
-- `glob_match` decides the meaning of patterns: the leftmost search of the inner parts loses nothing.
mod Parts
use rust_pois.Prelude.{
  ℕ, zero, suc, ◌+◌, ◌-◌, ◌≤◌, ◌<◌, ◌≡◌, ◌↔◌, refl, sym, ap, subst, ◌∙◌, Bool, true, false, not,
  Option, none, some, List, [], ◌∷◌, ◌++◌, arith, length, drop, length-append, append-nil,
  drop-length, drop-drop, append_assoc, Text, text_eq, starts_with, ends_with, find, contains,
  Bool-cases, ◌==◌, inl, inr, Option-cases,
}
use rust_pois.Rules.Glob.{star, split, match_find, is_empty, glob_loop, glob_match}
use rust_pois.Rules.Glob.Spec.{Matches}
use rust_pois.Rules.Glob.Search.{
  starts_with-append, starts_with→eq, ends_with-append, ends_with→eq, find_sound, find-first,
  drop-append, text_eq_refl, text_eq→eq,
}
use Parts.{split-cons, Later, Later-prepend, InParts, Matches→InParts, InParts→Matches}

module _ (last : ℕ) (text : Text) where
  loop-empty :
      (i pos : ℕ) (parts : List Text)
      → glob_loop last text i pos ([] ∷ parts) ≡ glob_loop last text (i + 1) pos parts
  unfolding glob_loop
  loop-empty i pos parts = refl

  loop-last :
      (pos c : ℕ) (p : Text) (parts : List Text)
      → 0 < last
      → glob_loop last text last pos ((c ∷ p) ∷ parts) ≡ ends_with (drop pos text) (c ∷ p)
  unfolding glob_loop
  loop-last pos c p parts h = ground arith

  loop-find :
      (i pos c : ℕ) (p : Text) (parts : List Text)
      → 0 < i
      → i < last
      → glob_loop last text i pos ((c ∷ p) ∷ parts)
        ≡ match_find
            (find (drop pos text) (c ∷ p))
            (λ idx. glob_loop last text (i + 1) (pos + (idx + length (c ∷ p))) parts)
  unfolding glob_loop
  loop-find i pos c p parts h k = ground arith

  loop-nil : (i pos : ℕ) → glob_loop last text i pos ([] ∷ []) ≡ true
  unfolding glob_loop
  loop-nil i pos = refl

  loop-first :
      (c : ℕ) (p : Text) (parts : List Text)
      → starts_with text (c ∷ p) ≡ true
      → glob_loop last text 0 0 ((c ∷ p) ∷ parts)
        ≡ glob_loop last text (0 + 1) (0 + length (c ∷ p)) parts
  unfolding glob_loop
  loop-first c p parts h = rw h

  loop-first_fails :
      (c : ℕ) (p : Text) (parts : List Text)
      → starts_with text (c ∷ p) ≡ false
      → glob_loop last text 0 0 ((c ∷ p) ∷ parts) ≡ false
  unfolding glob_loop
  loop-first_fails c p parts h = rw h

  -- From its second part on the loop answers whether the parts stand in what is left.
  loop→Later :
      (parts : List Text) (part : Text) (i pos : ℕ)
      → 0 < i
      → i + length parts ≡ last
      → glob_loop last text i pos (part ∷ parts) ≡ true
      → Later (part ∷ parts) (drop pos text)
  loop→Later [] [] i pos h e t = (drop pos text, sym (append-nil (drop pos text)))
  loop→Later [] (c ∷ p) i pos h e t =
      let at : i ≡ last = omega arith in
      ends_with→eq (drop pos text) (c ∷ p) (
        sym (loop-last pos c p [] (omega arith))
        ∙ subst (λ (k : ℕ). glob_loop last text k pos ((c ∷ p) ∷ []) ≡ true) at t)
  loop→Later (next ∷ parts) [] i pos h e t =
      ([], drop pos text, refl, loop→Later parts next (i + 1) pos (omega arith) (omega arith) t')
    where
      t' : glob_loop last text (i + 1) pos (next ∷ parts) ≡ true
      t' = sym (loop-empty i pos (next ∷ parts)) ∙ t
  loop→Later (next ∷ parts) (c ∷ p) i pos h e t =
      found (find (drop pos text) (c ∷ p)) refl
        (sym (loop-find i pos c p (next ∷ parts) h (omega arith)) ∙ t)
        (λ (idx : ℕ).
          loop→Later parts next (i + 1) (pos + (idx + length (c ∷ p))) (omega arith) (omega arith))
    where
      found :
          (o : Option ℕ)
          → find (drop pos text) (c ∷ p) ≡ o
          → match_find o
              (λ idx. glob_loop last text (i + 1) (pos + (idx + length (c ∷ p))) (next ∷ parts))
            ≡ true
          → ((idx : ℕ)
              → glob_loop last text (i + 1) (pos + (idx + length (c ∷ p))) (next ∷ parts) ≡ true
              → Later (next ∷ parts) (drop (pos + (idx + length (c ∷ p))) text))
          → Later ((c ∷ p) ∷ next ∷ parts) (drop pos text)
      found none at t ih = cc
      found (some idx) at t ih =
          let (x, e) = find_sound (drop pos text) (c ∷ p) idx at in
          (
            x,
            drop (idx + length (c ∷ p)) (drop pos text),
            e,
            subst (λ (l : Text). Later (next ∷ parts) l)
                (sym (drop-drop (idx + length (c ∷ p)) pos text)) (ih idx t),
          )

  Later→loop :
      (parts : List Text) (part : Text) (i pos : ℕ)
      → 0 < i
      → i + length parts ≡ last
      → Later (part ∷ parts) (drop pos text)
      → glob_loop last text i pos (part ∷ parts) ≡ true
  Later→loop [] [] i pos h e l = loop-nil i pos
  Later→loop [] (c ∷ p) i pos h e (x, at) =
      let i_last : i ≡ last = omega arith in
      let ends : ends_with (drop pos text) (c ∷ p) ≡ true =
        ap (λ (l : Text). ends_with l (c ∷ p)) at ∙ ends_with-append x (c ∷ p) in
      subst (λ (k : ℕ). glob_loop last text k pos ((c ∷ p) ∷ []) ≡ true) (sym i_last)
        (loop-last pos c p [] (omega arith) ∙ ends)
  Later→loop (next ∷ parts) [] i pos h e (x, s', at, l) =
      loop-empty i pos (next ∷ parts)
      ∙ Later→loop parts next (i + 1) pos (omega arith) (omega arith) (
          subst (λ (t : Text). Later (next ∷ parts) t) (sym at)
            (Later-prepend (next ∷ parts) x s' l))
  Later→loop (next ∷ parts) (c ∷ p) i pos h e (x, s', at, l) =
      let (idx, found, le) = find-first x (c ∷ p) s' in
      let k = idx + length (c ∷ p) in
      let w = x ++ (c ∷ p) in
      let inside : k ≤ length w = omega (arith, length-append x (c ∷ p)) in
      let rest : drop (pos + k) text ≡ drop k w ++ s' =
        sym (drop-drop k pos text)
        ∙ ap (λ (t : Text). drop k t) (at ∙ sym (append_assoc x (c ∷ p) s'))
        ∙ drop-append k w s' inside in
      loop-find i pos c p (next ∷ parts) h (omega arith)
      ∙ ap
          (λ (o : Option ℕ).
            match_find o
              (λ idx. glob_loop last text (i + 1) (pos + (idx + length (c ∷ p))) (next ∷ parts)))
          (ap (λ (t : Text). find t (c ∷ p)) at ∙ found)
      ∙ Later→loop parts next (i + 1) (pos + k) (omega arith) (omega arith) (
          subst (λ (t : Text). Later (next ∷ parts) t) (sym rest)
            (Later-prepend (next ∷ parts) (drop k w) s' l))

  -- The first part must stand at the start.
  first→InParts :
      (first next : Text) (parts : List Text)
      → 1 + length parts ≡ last
      → glob_loop last text 0 0 (first ∷ next ∷ parts) ≡ true
      → InParts (first ∷ next ∷ parts) text
  first→InParts [] next parts e t = (
    text,
    refl,
    loop→Later parts next (0 + 1) 0 (omega arith) (omega arith)
        (sym (loop-empty 0 0 (next ∷ parts)) ∙ t),
  )
  first→InParts (c ∷ p) next parts e t = elim (Bool-cases (starts_with text (c ∷ p))) [
    | inl yes' ↦ (
      drop (length (c ∷ p)) text,
      starts_with→eq text (c ∷ p) yes',
      subst (λ (k : ℕ). Later (next ∷ parts) (drop k text))
          (let z : 0 + length (c ∷ p) ≡ length (c ∷ p) = omega arith in z)
          (loop→Later parts next (0 + 1) (0 + length (c ∷ p)) (omega arith) (omega arith)
            (sym (loop-first c p (next ∷ parts) yes') ∙ t)),
    )
    | inr no' ↦ absurd (let bad : ⊥ = cc (loop-first_fails c p (next ∷ parts) no', t) in bad)
  ]

  InParts→first :
      (first next : Text) (parts : List Text)
      → 1 + length parts ≡ last
      → InParts (first ∷ next ∷ parts) text
      → glob_loop last text 0 0 (first ∷ next ∷ parts) ≡ true
  InParts→first [] next parts e (s', at, l) =
      loop-empty 0 0 (next ∷ parts)
      ∙ Later→loop parts next (0 + 1) 0 (omega arith) (omega arith)
          (subst (λ (t : Text). Later (next ∷ parts) t) (sym at) l)
  InParts→first (c ∷ p) next parts e (s', at, l) =
      let starts : starts_with text (c ∷ p) ≡ true =
        ap (λ (t : Text). starts_with t (c ∷ p)) at ∙ starts_with-append (c ∷ p) s' in
      let rest : drop (0 + length (c ∷ p)) text ≡ s' =
        ap (λ (t : Text). drop (0 + length (c ∷ p)) t) at
        ∙ drop-length (c ∷ p) s' (0 + length (c ∷ p)) (omega arith) in
      loop-first c p (next ∷ parts) starts
      ∙ Later→loop parts next (0 + 1) (0 + length (c ∷ p)) (omega arith) (omega arith)
          (subst (λ (t : Text). Later (next ∷ parts) t) (sym rest) l)

-- A pattern has a star exactly when it has more than one part.
data Shape (pat : Text) : Type 0 where
  plain : contains pat star ≡ false → split pat ≡ pat ∷ [] → Shape pat
  starred :
      (first next : Text) (parts : List Text)
      → contains pat star ≡ true
      → split pat ≡ first ∷ next ∷ parts
      → Shape pat

byte-Shape : (c : ℕ) (pat : Text) → (c == star) ≡ false → Shape pat → Shape (c ∷ pat)
unfolding split contains
byte-Shape c pat e (plain h at) = plain (rw (e, h)) (rw (e, at))
byte-Shape c pat e (starred first next parts h at) =
    starred (c ∷ first) next parts (rw (e, h)) (rw (e, at))

shape : (pat : Text) → Shape pat
unfolding split contains
shape [] = plain refl refl
shape (c ∷ pat) = elim (Bool-cases (c == star)) [
  | inl e ↦
      let (first, parts, at) = split-cons pat in
      starred [] first parts (rw e) (rw e (ap (λ (l : List Text). [] ∷ l) at))
  | inr e ↦ byte-Shape c pat e (shape pat)
]

glob_match-plain :
    (pat text : Text) → contains pat star ≡ false → glob_match pat text ≡ text_eq pat text
unfolding glob_match
glob_match-plain pat text h = rw h

glob_match-starred :
    (pat text : Text) (parts : List Text)
    → contains pat star ≡ true
    → split pat ≡ parts
    → glob_match pat text ≡ glob_loop (length parts - 1) text 0 0 parts
unfolding glob_match
glob_match-starred pat text parts h at =
    rw h (ap (λ (l : List Text). glob_loop (length l - 1) text 0 0 l) at)

glob_match-InParts :
    (pat text : Text) → Shape pat → (glob_match pat text ≡ true) ↔ InParts (split pat) text
glob_match-InParts pat text (plain h at) =
    let run = glob_match-plain pat text h in
    (
      (λ t.
          subst (λ (l : List Text). InParts l text) (sym at)
            (sym (text_eq→eq pat text (sym run ∙ t)))),
      (λ l.
          run
          ∙ (let same : text ≡ pat = subst (λ (l : List Text). InParts l text) at l in
              ap (λ (t : Text). text_eq pat t) same ∙ text_eq_refl pat)),
    )
glob_match-InParts pat text (starred first next parts h at) =
    let run = glob_match-starred pat text (first ∷ next ∷ parts) h at in
    (
      (λ t.
          subst (λ (l : List Text). InParts l text) (sym at)
            (first→InParts _ text first next parts (omega arith) (sym run ∙ t))),
      (λ l.
          run
          ∙ InParts→first _ text first next parts (omega arith)
              (subst (λ (l : List Text). InParts l text) at l)),
    )

-- `glob_match` answers true exactly on the texts that the pattern stands for.
pub glob_match_iff : (pat text : Text) → (glob_match pat text ≡ true) ↔ Matches pat text
glob_match_iff pat text =
    let (sound, complete) = glob_match-InParts pat text (shape pat) in
    (λ t. InParts→Matches pat text (sound t), λ m. complete (Matches→InParts m))
