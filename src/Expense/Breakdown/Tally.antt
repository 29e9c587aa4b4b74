-- ===== src/Expense/Breakdown/Tally.antt =====
-- What an accumulator holds: all that is paid and all that is owed, over its participants.
use mergepay_api.Common.{
  Bool, Bool-cases, List, Text, [], any, ap, arith, eq_of_text_eq, false, if◌then◌else◌, inl, inr,
  map_get-set, map_set, refl, sym, text_eq, text_eq_iff, text_eq_refl, true, ℕ, ◌++◌, ◌+◌, ◌||◌,
  ◌∙◌, ◌∷◌, ◌≡◌,
}
use mergepay_api.Expense.Breakdown.{touch, Amounts, add_amount, amount_of, sum_amounts}

abbrev pub NoDup : List Text → Type 0
NoDup [] = Unit
NoDup (u ∷ us) = (any (text_eq u) us ≡ false) × NoDup us

-- Only participants have amounts.
abbrev pub Within : List Text → Amounts → Type 0
Within order m = (u : Text) → any (text_eq u) order ≡ false → amount_of u m ≡ 0

abbrev pub over : List Text → Amounts → ℕ
over [] m = 0
over (u ∷ us) m = amount_of u m + over us m

any_snoc : (p : Text → Bool) (us : List Text) (u : Text) → any p (us ++ u ∷ []) ≡ (any p us || p u)
any_snoc p [] u = ground arith
any_snoc p (v ∷ us) u = ground (arith, any_snoc p us u)

over-snoc :
    (us : List Text) (u : Text) (m : Amounts) → over (us ++ u ∷ []) m ≡ over us m + amount_of u m
over-snoc [] u m = omega arith
over-snoc (v ∷ us) u m = omega (arith, over-snoc us u m)

NoDup-snoc :
    (us : List Text) (u : Text) → any (text_eq u) us ≡ false → NoDup us → NoDup (us ++ u ∷ [])
NoDup-snoc [] u new h = (refl, tt)
NoDup-snoc (v ∷ us) u new (first, h) = (
  ground (arith, any_snoc (text_eq v) us u, text_eq_iff u v, text_eq_iff v u),
  NoDup-snoc us u (ground arith) h,
)

pub touch-NoDup : (us : List Text) (u : Text) → NoDup us → NoDup (touch us u)
unfolding touch
touch-NoDup us u h = elim (Bool-cases (any (text_eq u) us)) [
  | inl t ↦ rw t h
  | inr f ↦ rw f (NoDup-snoc us u f h)
]

pub over-touch :
    (us : List Text) (u : Text) (m : Amounts) → Within us m → over (touch us u) m ≡ over us m
unfolding touch
over-touch us u m h = elim (Bool-cases (any (text_eq u) us)) [
  | inl t ↦ rw t refl
  | inr f ↦ rw f (omega (arith, over-snoc us u m, h u f))
]

-- A participant who is touched is there.
pub any-touch : (us : List Text) (u : Text) → any (text_eq u) (touch us u) ≡ true
unfolding touch
any-touch us u = elim (Bool-cases (any (text_eq u) us)) [
  | inl t ↦ rw t t
  | inr f ↦ rw f (ground (arith, any_snoc (text_eq u) us u, text_eq_refl u))
]

any-touch-false :
    (us : List Text) (u v : Text)
    → any (text_eq v) (touch us u) ≡ false
    → any (text_eq v) us ≡ false
unfolding touch
any-touch-false us u v h = elim (Bool-cases (any (text_eq u) us)) [
  | inl t ↦ let same : touch us u ≡ us = rw (touch, t) refl in ap (any (text_eq v)) (sym same) ∙ h
  | inr f ↦
      let same : touch us u ≡ us ++ u ∷ [] = rw (touch, f) refl in
      let absent : any (text_eq v) (us ++ u ∷ []) ≡ false = ap (any (text_eq v)) (sym same) ∙ h in
      ground (arith, absent, any_snoc (text_eq v) us u)
]

pub any-touch-keeps :
    (us : List Text) (u v : Text) → any (text_eq v) us ≡ true → any (text_eq v) (touch us u) ≡ true
unfolding touch
any-touch-keeps us u v h = elim (Bool-cases (any (text_eq u) us)) [
  | inl t ↦ rw t h
  | inr f ↦ rw f (ground (arith, h, any_snoc (text_eq v) us u))
]

pub touch-Within : (us : List Text) (u : Text) (m : Amounts) → Within us m → Within (touch us u) m
touch-Within us u m h v absent = h v (any-touch-false us u v absent)

amount_of-add :
    (u v : Text) (n : ℕ) (m : Amounts)
    → amount_of v (add_amount u n m) ≡ (if text_eq u v then amount_of u m + n else amount_of v m)
unfolding add_amount
amount_of-add u v n m = elim (Bool-cases (text_eq u v)) [
  | inl t ↦ rw (map_get-set u v (amount_of u m + n) m, t) refl
  | inr f ↦ rw (map_get-set u v (amount_of u m + n) m, f) refl
]

pub add_amount-Within :
    (us : List Text) (u : Text) (n : ℕ) (m : Amounts)
    → any (text_eq u) us ≡ true
    → Within us m
    → Within us (add_amount u n m)
add_amount-Within us u n m there h v absent = elim (Bool-cases (text_eq u v)) [
  | inl t ↦ cc (there, absent, eq_of_text_eq u v t)
  | inr f ↦ rw (amount_of-add u v n m, f) (h v absent)
]

over-add_absent :
    (us : List Text) (u : Text) (n : ℕ) (m : Amounts)
    → any (text_eq u) us ≡ false
    → over us (add_amount u n m) ≡ over us m
over-add_absent [] u n m h = refl
over-add_absent (v ∷ us) u n m h =
    let other : text_eq u v ≡ false = ground arith in
    let rest : any (text_eq u) us ≡ false = ground arith in
    rw (amount_of-add u v n m, other, over-add_absent us u n m rest) refl

pub over-add :
    (us : List Text) (u : Text) (n : ℕ) (m : Amounts)
    → NoDup us
    → any (text_eq u) us ≡ true
    → over us (add_amount u n m) ≡ over us m + n
over-add [] u n m d h = cc h
over-add (v ∷ us) u n m (first, d) h = elim (Bool-cases (text_eq u v)) [
  | inl t ↦
      let same : u ≡ v = eq_of_text_eq u v t in
      let absent : any (text_eq u) us ≡ false = ap (λ w. any (text_eq w) us) same ∙ first in
      let own : amount_of u m ≡ amount_of v m = ap (λ w. amount_of w m) same in
      rw (amount_of-add u v n m, t, over-add_absent us u n m absent) (omega (arith, own))
  | inr f ↦ rw (amount_of-add u v n m, f) (omega (arith, over-add us u n m d (ground (arith, f))))
]

pub sum_amounts-add :
    (u : Text) (n : ℕ) (m : Amounts) → sum_amounts (add_amount u n m) ≡ sum_amounts m + n
unfolding add_amount
sum_amounts-add u n m = set (amount_of u m + n) m (omega arith)
  where
    set :
        (k : ℕ) (m : Amounts)
        → k ≡ amount_of u m + n
        → sum_amounts (map_set u k m) ≡ sum_amounts m + n
    set k [] e = omega (arith, e)
    set k ((j, w) ∷ m) e = elim (Bool-cases (text_eq j u)) [
      | inl t ↦ let here : amount_of u ((j, w) ∷ m) ≡ w = rw t refl in rw t (omega (arith, e, here))
      | inr f ↦
          let there : amount_of u ((j, w) ∷ m) ≡ amount_of u m = rw f refl in
          rw f (omega (arith, set k m (omega (arith, e, there))))
    ]
