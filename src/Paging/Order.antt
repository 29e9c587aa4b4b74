-- ===== src/Paging/Order.antt =====
-- The filter of a cursor agrees with the order of the list.
use mergepay_api.Common.{
  All, Bool, Bool-cases, List, Option, Text, [], arith, false, inl, inr, keep, refl, some, true,
  ◌++◌, ◌∙◌, ◌∷◌, ◌≡◌,
}
use mergepay_api.Paging.Page.{asc, desc, Row, SortOrder, cursor_filter, cursor_order_by}
use mergepay_api.Paging.Cursor.{CursorPosition}

-- What is used of the collation: two identifiers do not both come before each other.
abbrev pub Asymmetric : (Text → Text → Bool) → Type 0
Asymmetric id_ltb = (a b : Text) → id_ltb a b ≡ true → id_ltb b a ≡ false

abbrev pub at_row : Row → Option CursorPosition
at_row r = some (record { created_at = r.created_at; id = r.id })

pub All-middle :
    (P : Row → Type 0) (before : List Row) (r : Row) (rest : List Row)
    → All P (before ++ r ∷ rest)
    → P r
All-middle P [] r rest (p, h) = p
All-middle P (s ∷ before) r rest (p, h) = All-middle P before r rest h

module _ (id_ltb : Text → Text → Bool) where
  -- Every row comes before all that follow it.
  abbrev pub Sorted : SortOrder → List Row → Type 0
  Sorted order [] = Unit
  Sorted order (r ∷ rows) =
      All (λ s. cursor_order_by id_ltb order r s ≡ true) rows × Sorted order rows

  filter_is_order :
      (order : SortOrder) (r s : Row)
      → cursor_filter id_ltb (at_row r) order s ≡ cursor_order_by id_ltb order r s
  unfolding cursor_filter cursor_order_by
  filter_is_order asc r s = ground arith
  filter_is_order desc r s = ground arith

  order_asym :
      (order : SortOrder) (r s : Row)
      → Asymmetric id_ltb
      → cursor_order_by id_ltb order r s ≡ true
      → cursor_order_by id_ltb order s r ≡ false
  unfolding cursor_order_by
  order_asym asc r s a h = ground (arith, a r.id s.id)
  order_asym desc r s a h = ground (arith, a s.id r.id)

  order_irrefl :
      (order : SortOrder) (r : Row) → Asymmetric id_ltb → cursor_order_by id_ltb order r r ≡ false
  order_irrefl order r a = elim (Bool-cases (cursor_order_by id_ltb order r r)) [
    | inl t ↦ order_asym order r r a t
    | inr f ↦ f
  ]

  keep-All : (p : Row → Bool) (rows : List Row) → All (λ s. p s ≡ true) rows → keep p rows ≡ rows
  keep-All p [] h = refl
  keep-All p (r ∷ rows) (t, h) = rw (t, keep-All p rows h) refl

  All-follow :
      (order : SortOrder) (r : Row) (rows : List Row)
      → All (λ s. cursor_order_by id_ltb order r s ≡ true) rows
      → All (λ s. cursor_filter id_ltb (at_row r) order s ≡ true) rows
  All-follow order r [] h = tt
  All-follow order r (s ∷ rows) (t, h) = (filter_is_order order r s ∙ t, All-follow order r rows h)

  -- The rows after the one that a cursor names.
  pub keep-after :
      (order : SortOrder) (before : List Row) (r : Row) (rest : List Row)
      → Asymmetric id_ltb
      → Sorted order (before ++ r ∷ rest)
      → keep (cursor_filter id_ltb (at_row r) order) (before ++ r ∷ rest) ≡ rest
  keep-after order [] r rest a (first, h) =
      rw (filter_is_order order r r, order_irrefl order r a)
        (keep-All _ rest (All-follow order r rest first))
  keep-after order (s ∷ before) r rest a (first, h) =
      let passed : cursor_filter id_ltb (at_row r) order s ≡ false =
        filter_is_order order r s
        ∙ order_asym order s r a
            (All-middle (λ u. cursor_order_by id_ltb order s u ≡ true) before r rest first) in
      rw passed (keep-after order before r rest a h)
