-- ===== src/Money/RoundTrip.antt =====
-- A printed amount reads back as the amount.
use native.Mathlib.Nat.{suc-add}
use mathlib.Core.List.{reverse-reverse}
use mergepay_api.Common.{
  Bool-cases, Text, [], all, ap, arith, false, get_or, inl, inr, is_empty, length, length-append,
  refl, reverse, subst, suc, sym, take, true, zero, ℕ, ◌%◌, ◌&&◌, ◌++◌, ◌+◌, ◌-◌, ◌/◌, ◌<◌, ◌==◌,
  ◌∙◌, ◌∷◌, ◌≡◌, ◌≢◌, ◌≤◌,
}
use mergepay_api.Money.Decimal.{
  is_space, trim_start, trim, is_digit, drop_digits, is_fraction, is_raw_decimal, split_point,
  pad_start, read_digits, read_from, show_fuel, strip_leading_zeros, strip_trailing_zeros, show_nat,
}
use mergepay_api.Money.Digits.{
  zeros, Digits, NoSpace, All-append, All-reverse, length-show_nat, read_digits-show_nat,
  show_nat-Digits,
}
use mergepay_api.Money.Amount.{join_point, padded_frac}

trim_start-NoSpace : (s : Text) → NoSpace s → trim_start s ≡ s
unfolding trim_start
trim_start-NoSpace [] h = refl
trim_start-NoSpace (c ∷ s) h = rw h.0

pub trim-NoSpace : (s : Text) → NoSpace s → trim s ≡ s
unfolding trim
trim-NoSpace s h = rw (trim_start-NoSpace s h) (
    rw (trim_start-NoSpace (reverse s) (All-reverse (λ c. is_space c ≡ false) s h))
      (reverse-reverse s))

Digits-NoSpace : (s : Text) → Digits s → NoSpace s
unfolding is_digit is_space
Digits-NoSpace [] h = tt
Digits-NoSpace (c ∷ s) h = (ground arith, Digits-NoSpace s h.1)

pub join_point-NoSpace : (w f : Text) → Digits w → Digits f → NoSpace (join_point w f)
join_point-NoSpace w [] hw hf = Digits-NoSpace w hw
join_point-NoSpace w (c ∷ f) hw hf =
    All-append (λ x. is_space x ≡ false) w (b'.' ∷ c ∷ f) (Digits-NoSpace w hw)
      (unfold is_space in refl, Digits-NoSpace (c ∷ f) hf)

drop_digits-append : (w r : Text) → Digits w → drop_digits (w ++ r) ≡ drop_digits r
unfolding drop_digits
drop_digits-append [] r h = refl
drop_digits-append (c ∷ w) r h = rw h.0 (drop_digits-append w r h.1)

all-Digits : (s : Text) → Digits s → all is_digit s ≡ true
all-Digits [] h = refl
all-Digits (c ∷ s) h = rw (h.0, all-Digits s h.1)

drop_digits-Digits : (w : Text) → Digits w → drop_digits w ≡ []
unfolding drop_digits
drop_digits-Digits [] h = refl
drop_digits-Digits (c ∷ w) h = rw h.0 (drop_digits-Digits w h.1)

pub is_raw_decimal-join_point :
    (c : ℕ) (w f : Text) → Digits (c ∷ w) → Digits f → is_raw_decimal (join_point (c ∷ w) f) ≡ true
unfolding is_raw_decimal is_fraction
is_raw_decimal-join_point c w [] hw hf = rw (hw.0, drop_digits-Digits w hw.1)
is_raw_decimal-join_point c w (x ∷ f) hw hf =
    rw (hw.0, drop_digits-append w (b'.' ∷ x ∷ f) hw.1)
      (unfold drop_digits is_digit in rw (all-Digits (x ∷ f) hf))

split_point-Digits : (s : Text) → Digits s → split_point s ≡ s ∷ []
unfolding split_point is_digit
split_point-Digits [] h = refl
split_point-Digits (c ∷ s) h = ground (arith, split_point-Digits s h.1)

split_point-append : (w f : Text) → Digits w → split_point (w ++ b'.' ∷ f) ≡ w ∷ split_point f
unfolding split_point is_digit
split_point-append [] f h = refl
split_point-append (c ∷ w) f h = ground (arith, split_point-append w f h.1)

pub split_point-join_point :
    (w f : Text)
    → Digits w
    → Digits f
    → (get_or (split_point (join_point w f)) 0 [] ≡ w)
      × (get_or (split_point (join_point w f)) 1 [] ≡ f)
split_point-join_point w [] hw hf = (rw (split_point-Digits w hw), rw (split_point-Digits w hw))
split_point-join_point w (c ∷ f) hw hf = (
  rw (split_point-append w (c ∷ f) hw),
  rw (split_point-append w (c ∷ f) hw) (rw (split_point-Digits (c ∷ f) hf)),
)

-- Stripping zeros at the end takes off just a run of zeros.
strip_trailing_zeros-append :
    (s : Text)
    → (k : ℕ) × (s ≡ strip_trailing_zeros s ++ zeros k)
      × (length s ≡ length (strip_trailing_zeros s) + k)
unfolding strip_trailing_zeros
strip_trailing_zeros-append [] = (0, refl, omega arith)
strip_trailing_zeros-append (c ∷ s) =
    let (k, e, l) = strip_trailing_zeros-append s in
    elim (Bool-cases (c == b'0' && is_empty (strip_trailing_zeros s))) [
      | inl zero_only ↦ (
        suc k,
        rw zero_only (strip_all c s k zero_only e),
        rw zero_only (strip_all_length c s k zero_only l),
      )
      | inr kept ↦ (k, rw kept (ap (λ t. c ∷ t) e), rw kept (omega (arith, l)))
    ]
  where
    strip_all :
        (c : ℕ) (s : Text) (k : ℕ)
        → (c == b'0' && is_empty (strip_trailing_zeros s)) ≡ true
        → s ≡ strip_trailing_zeros s ++ zeros k
        → c ∷ s ≡ zeros (suc k)
    strip_all c s k h e = ground arith

    strip_all_length :
        (c : ℕ) (s : Text) (k : ℕ)
        → (c == b'0' && is_empty (strip_trailing_zeros s)) ≡ true
        → length s ≡ length (strip_trailing_zeros s) + k
        → suc (length s) ≡ 0 + suc k
    strip_all_length c s k h e = ground arith

strip_trailing_zeros-Digits : (s : Text) → Digits s → Digits (strip_trailing_zeros s)
unfolding strip_trailing_zeros
strip_trailing_zeros-Digits [] h = tt
strip_trailing_zeros-Digits (c ∷ s) h = ground (arith, strip_trailing_zeros-Digits s h.1)

take-zeros : (k j : ℕ) → take k (zeros (k + j)) ≡ zeros k
take-zeros zero j = refl
take-zeros (suc k) j = rw (suc-add k j) (ap (λ t. b'0' ∷ t) (take-zeros k j))

take_replicate :
    (s : Text) (k j n : ℕ) → n ≡ length s + k → take n (s ++ zeros (k + j)) ≡ s ++ zeros k
take_replicate [] k j n h =
    subst (λ m. take m (zeros (k + j)) ≡ zeros k) (omega arith) (take-zeros k j)
take_replicate (c ∷ s) k j zero h = absurd (omega arith)
take_replicate (c ∷ s) k j (suc n) h = ap (λ t. c ∷ t) (take_replicate s k j n (omega arith))

-- The digits behind the point, cut and filled up again.
pub padded_frac-strip : (s : Text) → length s ≡ 7 → padded_frac (strip_trailing_zeros s) ≡ s
padded_frac-strip s h =
    let (k, e, l) = strip_trailing_zeros-append s in
    let t : Text = strip_trailing_zeros s in
    let filled : k + length t ≡ 7 = omega arith in
    subst (λ n. take 7 (t ++ zeros n) ≡ s) filled
      (take_replicate t k (length t) 7 (omega arith) ∙ sym e)

length-zeros : (n : ℕ) → length (zeros n) ≡ n
length-zeros zero = refl
length-zeros (suc n) = ap suc (length-zeros n)

length-pad_start : (k : ℕ) (s : Text) → length s ≤ k → length (pad_start k s) ≡ k
unfolding pad_start
length-pad_start k s h =
    omega (arith, length-append (zeros (k - length s)) s, length-zeros (k - length s))

zeros-Digits : (n : ℕ) → Digits (zeros n)
unfolding is_digit
zeros-Digits zero = tt
zeros-Digits (suc n) = (refl, zeros-Digits n)

pad_start-Digits : (k : ℕ) (s : Text) → Digits s → Digits (pad_start k s)
unfolding pad_start
pad_start-Digits k s h =
    All-append (λ c. is_digit c ≡ true) (zeros (k - length s)) s (zeros-Digits (k - length s)) h

read_from-zeros : (n : ℕ) (s : Text) → read_from 0 (zeros n ++ s) ≡ read_from 0 s
unfolding read_from
read_from-zeros zero s = refl
read_from-zeros (suc n) s = read_from-zeros n s

read_digits-pad_start : (k : ℕ) (s : Text) → read_digits (pad_start k s) ≡ read_digits s
unfolding read_digits pad_start
read_digits-pad_start k s = read_from-zeros (k - length s) s

-- The seven digits behind the point, as `fromStroops` makes them.
abbrev pub frac_7 : ℕ → Text
frac_7 r = pad_start 7 (show_nat r)

pub frac_7-Digits : (r : ℕ) → Digits (strip_trailing_zeros (frac_7 r))
frac_7-Digits r =
    strip_trailing_zeros-Digits (frac_7 r) (pad_start-Digits 7 (show_nat r) (show_nat-Digits r))

pub length-frac_7 : (r : ℕ) → r < 10000000 → length (frac_7 r) ≡ 7
length-frac_7 r h = length-pad_start 7 (show_nat r) (length-show_nat 6 r h)

pub length-strip : (s : Text) → length (strip_trailing_zeros s) ≤ length s
length-strip s = let (k, e, l) = strip_trailing_zeros-append s in omega arith

pub read_digits-frac_7 : (r : ℕ) → read_digits (frac_7 r) ≡ r
read_digits-frac_7 r = read_digits-pad_start 7 (show_nat r) ∙ read_digits-show_nat r

-- A printed number starts with a digit, and only 0 starts with the digit 0.
show_fuel-head :
    (f n : ℕ) → n < f → (c : ℕ) × (s : Text) × (show_fuel f n ≡ c ∷ s) × (0 < n → c ≢ b'0')
unfolding show_fuel
show_fuel-head zero n h = elim h [ ]
show_fuel-head (suc f) n h = elim (Bool-cases (n / 10 == 0)) [
  | inl small ↦ (b'0' + n % 10, [], rw small, λ p q. ground arith)
  | inr big ↦
      let (c, s, e, q) = show_fuel-head f (n / 10) (ground arith) in
      (c, s ++ (b'0' + n % 10) ∷ [], rw (big, e), λ p. q (ground arith))
]

pub show_nat-head : (n : ℕ) → (c : ℕ) × (s : Text) × (show_nat n ≡ c ∷ s) × (0 < n → c ≢ b'0')
unfolding show_nat
show_nat-head n = show_fuel-head (suc n) n (omega arith)

pub strip_leading_zeros-show_nat : (n : ℕ) → strip_leading_zeros (show_nat n) ≡ show_nat n
unfolding strip_leading_zeros
strip_leading_zeros-show_nat zero = unfold show_nat show_fuel in refl
strip_leading_zeros-show_nat (suc n) =
    let (c, s, e, q) = show_nat-head (suc n) in rw e (strip_head c s (q (omega arith)))
  where
    strip_head : (c : ℕ) (s : Text) → c ≢ b'0' → strip_leading_zeros (c ∷ s) ≡ c ∷ s
    strip_head c s h = ground arith
