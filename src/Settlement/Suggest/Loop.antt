-- ===== src/Settlement/Suggest/Loop.antt =====
-- What the settle-up loop transfers: how often, and how much from and to each member.
use mergepay_api.Common.{
  Bool, List, Text, [], arith, if◌then◌else◌, length, ltb, refl, suc, text_eq, zero, ℕ, ◌+◌, ◌-◌,
  ◌∷◌, ◌≡◌, ◌≤◌,
}
use mergepay_api.Settlement.Suggest.{
  Party, Transfer, insert_party, sort_parties, pay_down, settle, transfers,
}

abbrev pub when : Bool → ℕ → ℕ
when b n = if b then n else 0

abbrev pub total : List Party → ℕ
total [] = 0
total (p ∷ ps) = p.amount + total ps

-- What the list holds for the member `u`.
abbrev pub held : Text → List Party → ℕ
held u [] = 0
held u (p ∷ ps) = when (text_eq p.user_id u) p.amount + held u ps

abbrev pub paid : Text → List Transfer → ℕ
paid u [] = 0
paid u (t ∷ ts) = when (text_eq t.from_user_id u) t.stroops + paid u ts

abbrev pub received : Text → List Transfer → ℕ
received u [] = 0
received u (t ∷ ts) = when (text_eq t.to_user_id u) t.stroops + received u ts

held-le-total : (u : Text) (ps : List Party) → held u ps ≤ total ps
held-le-total u [] = omega arith
held-le-total u (p ∷ ps) = ground (arith, held-le-total u ps)

abbrev pub smaller : Party → Party → ℕ
smaller d c = if ltb d.amount c.amount then d.amount else c.amount

held-pay_down :
    (u : Text) (t : ℕ) (p : Party) (ps : List Party)
    → t ≤ p.amount
    → held u (pay_down t p ps) + when (text_eq p.user_id u) t ≡ held u (p ∷ ps)
unfolding pay_down
held-pay_down u t p ps h = ground arith

total-pay_down :
    (t : ℕ) (p : Party) (ps : List Party)
    → t ≤ p.amount
    → total (pay_down t p ps) + t ≡ total (p ∷ ps)
unfolding pay_down
total-pay_down t p ps h = ground arith

-- A round takes at least one member off the lists.
pub length-pay_down :
    (d c : Party) (ds cs : List Party)
    → length (pay_down (smaller d c) d ds) + length (pay_down (smaller d c) c cs)
      ≤ suc (length ds + length cs)
unfolding pay_down
length-pay_down d c ds cs = ground arith

smaller-le : (d c : Party) → (smaller d c ≤ d.amount) × (smaller d c ≤ c.amount)
smaller-le d c = ground arith

abbrev pub cons_transfer : ℕ → Party → Party → List Transfer → List Transfer
cons_transfer t d c rest =
    if ltb 0 t
    then record { from_user_id = d.user_id; to_user_id = c.user_id; stroops = t } ∷ rest
    else rest

paid-cons_transfer :
    (u : Text) (t : ℕ) (d c : Party) (rest : List Transfer)
    → (paid u (cons_transfer t d c rest) ≡ when (text_eq d.user_id u) t + paid u rest)
      × (received u (cons_transfer t d c rest) ≡ when (text_eq c.user_id u) t + received u rest)
paid-cons_transfer u t d c rest = ground arith

length-cons_transfer :
    (t : ℕ) (d c : Party) (rest : List Transfer)
    → length (cons_transfer t d c rest) ≤ suc (length rest)
length-cons_transfer t d c rest = ground arith

pub settle-cons :
    (f : ℕ) (d c : Party) (ds cs : List Party)
    → settle (suc f) (d ∷ ds) (c ∷ cs)
      ≡ cons_transfer
          (smaller d c)
          d
          c
          (settle f (pay_down (smaller d c) d ds) (pay_down (smaller d c) c cs))
unfolding settle
settle-cons f d c ds cs = refl

settle-shorter : (f : ℕ) (ds cs : List Party) → length (settle f ds cs) ≤ length ds + length cs - 1
unfolding settle
settle-shorter zero ds cs = omega arith
settle-shorter (suc f) [] cs = omega arith
settle-shorter (suc f) (d ∷ ds) [] = omega arith
settle-shorter (suc f) (d ∷ ds) (c ∷ cs) =
    let ds' = pay_down (smaller d c) d ds in
    let cs' = pay_down (smaller d c) c cs in
    let rest = settle f ds' cs' in
    rw (settle-cons f d c ds cs) (
      omega (
        arith,
        length-cons_transfer (smaller d c) d c rest,
        settle-shorter f ds' cs',
        length-pay_down d c ds cs,
      ))

settle_pays :
    (u : Text) (f : ℕ) (ds cs : List Party)
    → length ds + length cs ≤ f
    → total ds ≡ total cs
    → (paid u (settle f ds cs) ≡ held u ds) × (received u (settle f ds cs) ≡ held u cs)
unfolding settle
settle_pays u zero [] [] h e = (refl, refl)
settle_pays u zero [] (c ∷ cs) h e = absurd (omega arith)
settle_pays u zero (d ∷ ds) cs h e = absurd (omega arith)
settle_pays u (suc f) [] cs h e = omega (arith, held-le-total u cs)
settle_pays u (suc f) (d ∷ ds) [] h e = omega (arith, held-le-total u (d ∷ ds))
settle_pays u (suc f) (d ∷ ds) (c ∷ cs) h e =
    let t = smaller d c in
    let (td, tc) = smaller-le d c in
    let ds' = pay_down t d ds in
    let cs' = pay_down t c cs in
    let rest = settle f ds' cs' in
    let (ih, ih') =
      settle_pays u f ds' cs' (omega (arith, length-pay_down d c ds cs))
        (omega (arith, total-pay_down t d ds td, total-pay_down t c cs tc)) in
    let (p, r) = paid-cons_transfer u t d c rest in
    let hd = held-pay_down u t d ds td in
    let hc = held-pay_down u t c cs tc in rw (settle-cons f d c ds cs) (omega arith)

held-insert_party :
    (u : Text) (p : Party) (ps : List Party) → held u (insert_party p ps) ≡ held u (p ∷ ps)
unfolding insert_party
held-insert_party u p [] = refl
held-insert_party u p (q ∷ qs) = ground (arith, held-insert_party u p qs)

total-insert_party : (p : Party) (ps : List Party) → total (insert_party p ps) ≡ total (p ∷ ps)
unfolding insert_party
total-insert_party p [] = refl
total-insert_party p (q ∷ qs) = ground (arith, total-insert_party p qs)

length-insert_party : (p : Party) (ps : List Party) → length (insert_party p ps) ≡ suc (length ps)
unfolding insert_party
length-insert_party p [] = refl
length-insert_party p (q ∷ qs) = ground (arith, length-insert_party p qs)

pub held-sort_parties :
    (u : Text) (sorted ps : List Party)
    → held u (sort_parties sorted ps) ≡ held u sorted + held u ps
unfolding sort_parties
held-sort_parties u sorted [] = omega arith
held-sort_parties u sorted (p ∷ ps) =
    omega (arith, held-sort_parties u (insert_party p sorted) ps, held-insert_party u p sorted)

pub total-sort_parties :
    (sorted ps : List Party) → total (sort_parties sorted ps) ≡ total sorted + total ps
unfolding sort_parties
total-sort_parties sorted [] = omega arith
total-sort_parties sorted (p ∷ ps) =
    omega (arith, total-sort_parties (insert_party p sorted) ps, total-insert_party p sorted)

pub length-sort_parties :
    (sorted ps : List Party) → length (sort_parties sorted ps) ≡ length sorted + length ps
unfolding sort_parties
length-sort_parties sorted [] = omega arith
length-sort_parties sorted (p ∷ ps) =
    omega (arith, length-sort_parties (insert_party p sorted) ps, length-insert_party p sorted)

pub transfers_pay :
    (u : Text) (ds cs : List Party)
    → total ds ≡ total cs
    → (paid u (transfers ds cs) ≡ held u ds) × (received u (transfers ds cs) ≡ held u cs)
unfolding transfers
transfers_pay u ds cs e = omega (
  arith,
  settle_pays u (length ds + length cs) (sort_parties [] ds) (sort_parties [] cs)
      (omega (arith, length-sort_parties [] ds, length-sort_parties [] cs))
      (omega (arith, total-sort_parties [] ds, total-sort_parties [] cs)),
  held-sort_parties u [] ds,
  held-sort_parties u [] cs,
)

pub length-transfers : (ds cs : List Party) → length (transfers ds cs) ≤ length ds + length cs - 1
unfolding transfers
length-transfers ds cs = omega (
  arith,
  settle-shorter (length ds + length cs) (sort_parties [] ds) (sort_parties [] cs),
  length-sort_parties [] ds,
  length-sort_parties [] cs,
)
