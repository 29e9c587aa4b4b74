-- ===== src/Money/Digits.antt =====
-- Facts on the digits of a number: printing, reading, padding and stripping zeros.
use mathlib.Core.List.{reverse-append}
use native.Mathlib.Nat.{pow-suc}
use mergepay_api.Common.{
  All, Bool-cases, List, Text, [], arith, false, inl, inr, length, length-append, refl, replicate,
  reverse, suc, true, zero, ℕ, ◌%◌, ◌*◌, ◌++◌, ◌+◌, ◌-◌, ◌/◌, ◌<◌, ◌==◌, ◌^◌, ◌∷◌, ◌≡◌, ◌≤◌,
}
use mergepay_api.Money.Decimal.{is_space, is_digit, read_from, read_digits, show_fuel, show_nat}

abbrev pub Digits : Text → Type 0
Digits = All (λ c. is_digit c ≡ true)

abbrev pub zeros : ℕ → Text
zeros n = replicate n b'0'

abbrev pub NoSpace : Text → Type 0
NoSpace = All (λ c. is_space c ≡ false)

pub All-append {ℓ κ} :
    {A : Type ℓ} (P : A → Type κ) (xs ys : List A) → All P xs → All P ys → All P (xs ++ ys)
All-append P [] ys hx hy = hy
All-append P (x ∷ xs) ys hx hy = (hx.0, All-append P xs ys hx.1 hy)

pub All-reverse {ℓ κ} : {A : Type ℓ} (P : A → Type κ) (xs : List A) → All P xs → All P (reverse xs)
All-reverse P [] h = h
All-reverse P (x ∷ xs) h =
    rw (reverse-append (x ∷ []) xs)
      (All-append P (reverse xs) (x ∷ []) (All-reverse P xs h.1) (h.0, tt))

pub is_digit-add : (d : ℕ) → d < 10 → is_digit (b'0' + d) ≡ true
unfolding is_digit
is_digit-add d h = ground arith

pub read_from-append :
    (acc : ℕ) (xs ys : Text) → read_from acc (xs ++ ys) ≡ read_from (read_from acc xs) ys
unfolding read_from
read_from-append acc [] ys = refl
read_from-append acc (c ∷ xs) ys = read_from-append (acc * 10 + (c - b'0')) xs ys

read_from-snoc :
    (acc : ℕ) (xs : Text) (d : ℕ)
    → read_from acc (xs ++ (b'0' + d) ∷ []) ≡ read_from acc xs * 10 + d
unfolding read_from
read_from-snoc acc xs d = rw (read_from-append acc xs ((b'0' + d) ∷ [])) (omega arith)

read_show_fuel : (f n : ℕ) → n < f → read_from 0 (show_fuel f n) ≡ n
unfolding show_fuel
read_show_fuel zero n h = elim h [ ]
read_show_fuel (suc f) n h = elim (Bool-cases (n / 10 == 0)) [
  | inl small ↦ rw (small, read_from-snoc 0 [] (n % 10)) (unfold read_from in ground arith)
  | inr big ↦
      rw (big, read_from-snoc 0 (show_fuel f (n / 10)) (n % 10))
        (ground (arith, read_show_fuel f (n / 10)))
]

pub read_digits-show_nat : (n : ℕ) → read_digits (show_nat n) ≡ n
unfolding read_digits show_nat
read_digits-show_nat n = read_show_fuel (suc n) n (omega arith)

show_fuel-Digits : (f n : ℕ) → Digits (show_fuel f n)
unfolding show_fuel
show_fuel-Digits zero n = tt
show_fuel-Digits (suc f) n = elim (Bool-cases (n / 10 == 0)) [
  | inl small ↦ rw small (is_digit-add (n % 10) (omega arith), tt)
  | inr big ↦ rw big (
      All-append (λ c. is_digit c ≡ true) (show_fuel f (n / 10)) ((b'0' + n % 10) ∷ [])
        (show_fuel-Digits f (n / 10)) (is_digit-add (n % 10) (omega arith), tt))
]

pub show_nat-Digits : (n : ℕ) → Digits (show_nat n)
unfolding show_nat
show_nat-Digits n = show_fuel-Digits (suc n) n

length-show_fuel : (k f n : ℕ) → n < 10 ^ suc k → length (show_fuel f n) ≤ suc k
unfolding show_fuel
length-show_fuel k zero n h = omega arith
length-show_fuel zero (suc f) n h = rw (lt_10 n h) (omega arith)
  where
    lt_10 : (n : ℕ) → n < 10 ^ 1 → (n / 10 == 0) ≡ true
    lt_10 n h = ground arith
length-show_fuel (suc k) (suc f) n h = elim (Bool-cases (n / 10 == 0)) [
  | inl small ↦ rw small (omega arith)
  | inr big ↦
      rw (big, length-append (show_fuel f (n / 10)) ((b'0' + n % 10) ∷ []))
        (omega (arith, length-show_fuel k f (n / 10) (omega (arith, pow-suc 10 (suc k)))))
]

pub length-show_nat : (k n : ℕ) → n < 10 ^ suc k → length (show_nat n) ≤ suc k
unfolding show_nat
length-show_nat k n h = length-show_fuel k (suc n) n h
