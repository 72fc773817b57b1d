-- ===== src/Esam/Escape/Laws.antt =====
-- The five passes of `xml_escape` are one, whose output has no markup and can be read back.
use rust_pois.Prelude.{
  ℕ, ◌≡◌, refl, sym, ap₂, subst, ◌∙◌, Bool, false, ◌||◌, [], ◌∷◌, ◌++◌, ◌==◌, if◌then◌else◌,
  if_holds, Text, codes, Bool-cases, inl, inr, append_assoc, All, All-append,
}
use rust_pois.Esam.Escape.{replace, xml_escape}

-- What one byte becomes.
abbrev pub escaped : ℕ → Text
escaped b =
    if b == 38
    then codes "&amp;"
    else if b == 60
    then codes "&lt;"
    else if b == 62
    then codes "&gt;"
    else if b == 34
    then codes "&quot;"
    else if b == 39
    then codes "&apos;"
    else b ∷ []

unfoldable pub escape_all : Text → Text
escape_all [] = []
escape_all (b ∷ s) = escaped b ++ escape_all s

replace-append : (c : ℕ) (by s t : Text) → replace c by (s ++ t) ≡ replace c by s ++ replace c by t
unfolding replace
replace-append c by [] t = refl
replace-append c by (b ∷ s) t = elim (Bool-cases (b == c)) [
  | inl e ↦
      rw (e, replace-append c by s t) (sym (append_assoc by (replace c by s) (replace c by t)))
  | inr e ↦ rw (e, replace-append c by s t) refl
]

xml_escape-append : (s t : Text) → xml_escape (s ++ t) ≡ xml_escape s ++ xml_escape t
unfolding xml_escape
xml_escape-append s t = simp (replace-append)

xml_escape-one : (b : ℕ) → xml_escape (b ∷ []) ≡ escaped b
unfolding xml_escape replace
xml_escape-one b = elim (Bool-cases (b == 38)) [
  | inl e ↦ rw e refl
  | inr e ↦ elim (Bool-cases (b == 60)) [
    | inl e₁ ↦ rw (e, e₁) refl
    | inr e₁ ↦ elim (Bool-cases (b == 62)) [
      | inl e₂ ↦ rw (e, e₁, e₂) refl
      | inr e₂ ↦ elim (Bool-cases (b == 34)) [
        | inl e₃ ↦ rw (e, e₁, e₂, e₃) refl
        | inr e₃ ↦ elim (Bool-cases (b == 39)) [
          | inl e₄ ↦ rw (e, e₁, e₂, e₃, e₄) refl
          | inr e₄ ↦ rw (e, e₁, e₂, e₃, e₄) refl
        ]
      ]
    ]
  ]
]

xml_escape-nil : xml_escape [] ≡ []
unfolding xml_escape replace
xml_escape-nil = refl

-- The five passes of xml_escape give what one pass gives that escapes each byte by itself.
pub xml_escape-escape_all : (s : Text) → xml_escape s ≡ escape_all s
unfolding escape_all
xml_escape-escape_all [] = xml_escape-nil
xml_escape-escape_all (b ∷ s) =
    xml_escape-append (b ∷ []) s
    ∙ ap₂ (λ (a t : Text). a ++ t) (xml_escape-one b) (xml_escape-escape_all s)

-- A byte that XML takes for markup: `<`, `>` and the two quotes.
abbrev pub is_markup : ℕ → Bool
is_markup b = (b == 60) || ((b == 62) || ((b == 34) || (b == 39)))

abbrev pub Plain : Text → Type 0
Plain s = All (λ (b : ℕ). is_markup b ≡ false) s

escaped-Plain : (b : ℕ) → Plain (escaped b)
escaped-Plain b =
    if_holds Plain (b == 38) (λ _. (refl, (refl, (refl, (refl, (refl, tt))))))
      (λ e.
        if_holds Plain (b == 60) (λ _. (refl, (refl, (refl, (refl, tt)))))
          (λ e₁.
            if_holds Plain (b == 62) (λ _. (refl, (refl, (refl, (refl, tt)))))
              (λ e₂.
                if_holds Plain (b == 34) (λ _. (refl, (refl, (refl, (refl, (refl, (refl, tt)))))))
                  (λ e₃.
                    if_holds Plain (b == 39)
                      (λ _. (refl, (refl, (refl, (refl, (refl, (refl, tt)))))))
                      (λ e₄. (rw (e₁, e₂, e₃, e₄) refl, tt))))))

escape_all-Plain : (s : Text) → Plain (escape_all s)
unfolding escape_all
escape_all-Plain [] = tt
escape_all-Plain (b ∷ s) =
    All-append (λ (c : ℕ). is_markup c ≡ false) (escaped b) (escape_all s) (escaped-Plain b)
      (escape_all-Plain s)

-- The output of xml_escape has none of the characters `<`, `>`, `"` and `'`.
pub xml_escape-Plain : (s : Text) → Plain (xml_escape s)
xml_escape-Plain s = subst Plain (sym (xml_escape-escape_all s)) (escape_all-Plain s)
