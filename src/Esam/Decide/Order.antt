-- ===== src/Esam/Decide/Order.antt =====
-- The order of the active rules, and which rows it keeps.
use mathlib.Core.List.{Memᴰ}
use rust_pois.Prelude.{
  ℤ, pos, negsuc, ◌≡◌, ◌⊎◌, inl, inr, refl, sym, ap, ◌∙◌, Bool, true, false, List, [], ◌∷◌, filter,
  if_holds, arith, subst, false≢true,
}
use rust_pois.Esam.Decide.{Rule, leb_int, insert_rule, by_priority}

pub leb_int_refl : (a : ℤ) → leb_int a a ≡ true
leb_int_refl (pos a) = ground arith
leb_int_refl (negsuc a) = ground arith

pub leb_int_total : (a b : ℤ) → leb_int a b ≡ false → leb_int b a ≡ true
leb_int_total (pos a) (pos b) h = ground arith
leb_int_total (pos a) (negsuc b) h = refl
leb_int_total (negsuc a) (pos b) h = cc
leb_int_total (negsuc a) (negsuc b) h = ground arith

pub leb_int_trans : (a b c : ℤ) → leb_int a b ≡ true → leb_int b c ≡ true → leb_int a c ≡ true
leb_int_trans (pos a) (pos b) (pos c) h k = ground arith
leb_int_trans (pos a) (pos b) (negsuc c) h k = cc
leb_int_trans (pos a) (negsuc b) c h k = cc
leb_int_trans (negsuc a) (pos b) (negsuc c) h k = cc
leb_int_trans (negsuc a) b (pos c) h k = refl
leb_int_trans (negsuc a) (negsuc b) (negsuc c) h k = ground arith

-- No rule of the list has a lower priority than `r`.
abbrev pub NoneBelow : Rule → List Rule → Type 0
NoneBelow r rules = (s : Rule) → Memᴰ s rules → leb_int r.priority s.priority ≡ true

unfoldable pub Sorted : List Rule → Type 0
Sorted [] = Unit
Sorted (r ∷ rules) = NoneBelow r rules × Sorted rules

either_head : {r t s : Rule} {l : List Rule} → Memᴰ s (r ∷ t ∷ l) → (s ≡ r) ⊎ Memᴰ s (t ∷ l)
either_head (Memᴰ.head e) = inl e
either_head (Memᴰ.tail m) = inr m

step_over :
    {r t s : Rule} {l l' : List Rule}
    → (Memᴰ s l' → (s ≡ r) ⊎ Memᴰ s l)
    → Memᴰ s (t ∷ l')
    → (s ≡ r) ⊎ Memᴰ s (t ∷ l)
step_over f (Memᴰ.head e) = inr (Memᴰ.head e)
step_over f (Memᴰ.tail m) = elim (f m) [ inl e ↦ inl e | inr k ↦ inr (Memᴰ.tail k) ]

-- The rules of an insertion are the rule and the others.
insert_rule-Mem :
    (r : Rule) (rules : List Rule) (s : Rule)
    → Memᴰ s (insert_rule r rules)
    → (s ≡ r) ⊎ Memᴰ s rules
unfolding insert_rule
insert_rule-Mem r [] s (Memᴰ.head e) = inl e
insert_rule-Mem r [] s (Memᴰ.tail m) = inr m
insert_rule-Mem r (t ∷ rules) s m =
    if_holds (λ (l : List Rule). Memᴰ s l → (s ≡ r) ⊎ Memᴰ s (t ∷ rules))
      (leb_int r.priority t.priority) (λ _ k. either_head k)
      (λ _ k. step_over (insert_rule-Mem r rules s) k) m

Mem-insert_rule :
    (r : Rule) (rules : List Rule) (s : Rule)
    → (s ≡ r) ⊎ Memᴰ s rules
    → Memᴰ s (insert_rule r rules)
unfolding insert_rule
Mem-insert_rule r [] s (inl e) = Memᴰ.head e
Mem-insert_rule r [] s (inr m) = elim m [ ]
Mem-insert_rule r (t ∷ rules) s m =
    if_holds (λ (l : List Rule). Memᴰ s l) (leb_int r.priority t.priority)
      (λ _. elim m [ inl e ↦ Memᴰ.head e | inr k ↦ Memᴰ.tail k ])
      (λ _. elim m [
        | inl e ↦ Memᴰ.tail (Mem-insert_rule r rules s (inl e))
        | inr (Memᴰ.head e) ↦ Memᴰ.head e
        | inr (Memᴰ.tail k) ↦ Memᴰ.tail (Mem-insert_rule r rules s (inr k))
      ])

insert_rule-Sorted : (r : Rule) (rules : List Rule) → Sorted rules → Sorted (insert_rule r rules)
unfolding insert_rule Sorted
insert_rule-Sorted r [] h = ((λ s m. elim m [ ]), tt)
insert_rule-Sorted r (t ∷ rules) h =
    if_holds Sorted (leb_int r.priority t.priority)
      (λ le. (
        (λ s m. elim m [
          | Memᴰ.head e ↦ subst (λ (q : Rule). leb_int r.priority q.priority ≡ true) (sym e) le
          | Memᴰ.tail k ↦ leb_int_trans r.priority t.priority s.priority le (h.0 s k)
        ]),
        h,
      ))
      (λ gt. (
        (λ s m. elim (insert_rule-Mem r rules s m) [
          | inl e ↦
              subst (λ (q : Rule). leb_int t.priority q.priority ≡ true) (sym e)
                (leb_int_total r.priority t.priority gt)
          | inr k ↦ h.0 s k
        ]),
        insert_rule-Sorted r rules h.1,
      ))

pub by_priority-Sorted : (rules : List Rule) → Sorted (by_priority rules)
unfolding by_priority Sorted
by_priority-Sorted [] = tt
by_priority-Sorted (r ∷ rules) = insert_rule-Sorted r (by_priority rules) (by_priority-Sorted rules)

pub by_priority-Mem : (rules : List Rule) (s : Rule) → Memᴰ s (by_priority rules) → Memᴰ s rules
unfolding by_priority
by_priority-Mem [] s m = m
by_priority-Mem (r ∷ rules) s m = elim (insert_rule-Mem r (by_priority rules) s m) [
  | inl e ↦ Memᴰ.head e
  | inr k ↦ Memᴰ.tail (by_priority-Mem rules s k)
]

pub Mem-by_priority : (rules : List Rule) (s : Rule) → Memᴰ s rules → Memᴰ s (by_priority rules)
unfolding by_priority
Mem-by_priority [] s m = m
Mem-by_priority (r ∷ rules) s m =
    Mem-insert_rule r (by_priority rules) s
      (elim m [ Memᴰ.head e ↦ inl e | Memᴰ.tail k ↦ inr (Mem-by_priority rules s k) ])

-- The rows that a filter keeps.
pub filter-Mem :
    (p : Rule → Bool) (rules : List Rule) (s : Rule)
    → Memᴰ s (filter p rules)
    → Memᴰ s rules × (p s ≡ true)
filter-Mem p [] s m = elim m [ ]
filter-Mem p (r ∷ rules) s m =
    if_holds (λ (l : List Rule). Memᴰ s l → Memᴰ s (r ∷ rules) × (p s ≡ true)) (p r)
      (λ e k. elim k [
        | Memᴰ.head q ↦ (Memᴰ.head q, ap p q ∙ e)
        | Memᴰ.tail k' ↦ let (a, b) = filter-Mem p rules s k' in (Memᴰ.tail a, b)
      ])
      (λ _ k. let (a, b) = filter-Mem p rules s k in (Memᴰ.tail a, b)) m

pub Mem-filter :
    (p : Rule → Bool) (rules : List Rule) (s : Rule)
    → Memᴰ s rules
    → p s ≡ true
    → Memᴰ s (filter p rules)
Mem-filter p [] s m h = elim m [ ]
Mem-filter p (r ∷ rules) s m h =
    if_holds (Memᴰ s) (p r)
      (λ _. elim m [
        | Memᴰ.head q ↦ Memᴰ.head q
        | Memᴰ.tail k ↦ Memᴰ.tail (Mem-filter p rules s k h)
      ])
      (λ e. elim m [
        | Memᴰ.head q ↦ absurd (false≢true (sym e ∙ ap p (sym q) ∙ h))
        | Memᴰ.tail k ↦ Mem-filter p rules s k h
      ])
