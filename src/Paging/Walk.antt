-- ===== src/Paging/Walk.antt =====
-- A client that follows the cursors visits every row of its group once, in the order of the list.
use mathlib.Core.List.{append-nil, append_assoc}
use mergepay_api.Common.{
  All, Bool, Bool-cases, List, Option, Text, [], ap, arith, drop, err, false, inl, inr, is_empty,
  keep, length, length-append, length-take, ltb, ltb→lt, min, none, ok, refl, some, subst, suc, sym,
  take, text_eq, true, zero, ℕ, ◌&&◌, ◌++◌, ◌+◌, ◌<◌, ◌∙◌, ◌∷◌, ◌≡◌, ◌≤◌,
}
use mergepay_api.Paging.Page.{
  PaginationQuery, Row, SortOrder, cursor_order_by, last_of, list_group_webhooks, Page, build_page,
  cursor_filter, cursor_of, take_for_page,
}
use mergepay_api.Paging.Cursor.{
  Platform, max_date, CursorPosition, Faithful, decode_cursor-encode_cursor, encode_cursor,
  require_cursor, cursor_text, is_empty-append,
}
use mergepay_api.Paging.Order.{Sorted, Asymmetric, at_row, keep-after, All-middle}
use mergepay_api.Money.Decimal.{show_nat}

abbrev pub prepend : List Row → Option (List Row) → Option (List Row)
prepend items none = none
prepend items (some rest) = some (items ++ rest)

-- The items of all pages from the query's cursor on, in at most as many pages as the fuel says.
abbrev pub walk :
    Platform → (Text → Text → Bool) → Text → List Row → ℕ → PaginationQuery → Option (List Row)
walk platform id_ltb group table zero query = none
walk platform id_ltb group table (suc fuel) query =
    elim (list_group_webhooks platform id_ltb group query table) [
      | err _ ↦ none
      | ok page ↦ prepend page.items (elim page.meta.next_cursor [
        | none ↦ some []
        | some cursor ↦
            walk platform id_ltb group table fuel (record query { cursor = some cursor })
      ])
    ]

-- Every row of the group has a time that a Date can have, and an identifier.
abbrev pub Addressable : Row → Type 0
Addressable r = (r.created_at ≤ max_date) × (is_empty r.id ≡ false)

keep-keep :
    (p q : Row → Bool) (rows : List Row) → keep (λ r. p r && q r) rows ≡ keep q (keep p rows)
keep-keep p q [] = refl
keep-keep p q (r ∷ rows) = ground (arith, keep-keep p q rows)

All-keep : (P : Row → Type 0) (p : Row → Bool) (rows : List Row) → All P rows → All P (keep p rows)
All-keep P p [] h = tt
All-keep P p (r ∷ rows) (x, h) = elim (Bool-cases (p r)) [
  | inl t ↦ rw t (x, All-keep P p rows h)
  | inr f ↦ rw f (All-keep P p rows h)
]

module _ (id_ltb : Text → Text → Bool) where
  Sorted-keep :
      (order : SortOrder) (p : Row → Bool) (rows : List Row)
      → Sorted id_ltb order rows
      → Sorted id_ltb order (keep p rows)
  Sorted-keep order p [] h = tt
  Sorted-keep order p (r ∷ rows) (first, h) = elim (Bool-cases (p r)) [
    | inl t ↦ rw t (
      All-keep (λ s. cursor_order_by id_ltb order r s ≡ true) p rows first,
      Sorted-keep order p rows h,
    )
    | inr f ↦ rw f (Sorted-keep order p rows h)
  ]

-- A page that is not the last, at its last row.
pub split_page :
    (n : ℕ) (rest : List Row)
    → suc n < length rest
    → (init : List Row) × (r : Row) × (take (suc n) rest ≡ init ++ r ∷ [])
      × (rest ≡ init ++ r ∷ drop (suc n) rest)
split_page n [] h = absurd (omega (arith, h))
split_page zero (r ∷ rest) h = ([], r, refl, refl)
split_page (suc n) (r ∷ rest) h =
    let (init, last, page, whole) = split_page n rest (omega (arith, h)) in
    (r ∷ init, last, ap (λ l. r ∷ l) page, ap (λ l. r ∷ l) whole)

last_of-append : (init : List Row) (r : Row) → last_of (init ++ r ∷ []) ≡ some r
last_of-append [] r = refl
last_of-append (s ∷ init) r = rw (is_empty_snoc init) (last_of-append init r)
  where
    is_empty_snoc : (l : List Row) → is_empty (l ++ r ∷ []) ≡ false
    is_empty_snoc [] = refl
    is_empty_snoc (_ ∷ _) = refl

take-take : (n : ℕ) (rows : List Row) → take n (take (suc n) rows) ≡ take n rows
take-take zero rows = refl
take-take (suc n) [] = refl
take-take (suc n) (r ∷ rows) = ap (λ l. r ∷ l) (take-take n rows)

take_short : (n : ℕ) (rows : List Row) → length rows ≤ n → take n rows ≡ rows
take_short zero [] h = refl
take_short zero (r ∷ rows) h = absurd (omega (arith, h))
take_short (suc n) [] h = refl
take_short (suc n) (r ∷ rows) h = ap (λ l. r ∷ l) (take_short n rows (omega (arith, h)))

-- What a page is, by the rows that are left.
abbrev pub PageOf : Platform → ℕ → List Row → Page → Type 0
PageOf platform limit rest page =
    (page.items ≡ take limit rest)
    × (page.meta.next_cursor
        ≡ cursor_of platform (ltb limit (length rest)) (last_of (take limit rest)))

build_page-PageOf :
    (platform : Platform) (limit : ℕ) (order : SortOrder) (rest : List Row)
    → PageOf platform limit rest (build_page platform (take (take_for_page limit) rest) limit order)
unfolding build_page take_for_page
build_page-PageOf platform limit order rest =
    let plus_one : limit + 1 ≡ suc limit = omega arith in
    let fetched : length (take (limit + 1) rest) ≡ min (limit + 1) (length rest) =
      length-take (limit + 1) rest in
    elim (Bool-cases (ltb limit (length rest))) [
      | inl more ↦
          let seen : ltb limit (length (take (limit + 1) rest)) ≡ true =
            ground (arith, fetched, more) in
          rw (seen, more, plus_one, take-take limit rest) (refl, refl)
      | inr end ↦
          let seen : ltb limit (length (take (limit + 1) rest)) ≡ false =
            ground (arith, fetched, end) in
          rw
            (
              seen,
              end,
              take_short (limit + 1) rest (ground (arith, end)),
              take_short limit rest (ground (arith, end)),
            )
            (refl, refl)
    ]

-- The rows that a query has still to visit.
abbrev pub remaining :
    (Text → Text → Bool) → Text → List Row → SortOrder → Option CursorPosition → List Row
remaining id_ltb group table order position =
    keep (λ (r : Row). text_eq r.group_id group && cursor_filter id_ltb position order r) table

require_none : (platform : Platform) → require_cursor platform none ≡ ok none
unfolding require_cursor
require_none platform = refl

keep_true :
    (id_ltb : Text → Text → Bool) (order : SortOrder) (rows : List Row)
    → keep (cursor_filter id_ltb none order) rows ≡ rows
unfolding cursor_filter
keep_true id_ltb order [] = refl
keep_true id_ltb order (r ∷ rows) = ap (λ l. r ∷ l) (keep_true id_ltb order rows)

module _ (platform : Platform) (id_ltb : Text → Text → Bool) (group : Text) (table : List Row)
    (order : SortOrder) (n : ℕ) (faithful : Faithful platform) (asymmetric : Asymmetric id_ltb)
    (sorted : Sorted id_ltb order table) (addressable : All Addressable table) where
  abbrev query_at : Option Text → PaginationQuery
  query_at cursor = record { cursor = cursor; limit = suc n; order = order }

  abbrev members : List Row
  members = keep (λ (r : Row). text_eq r.group_id group) table

  remaining-after :
      (before : List Row) (r : Row) (rest : List Row)
      → members ≡ before ++ r ∷ rest
      → remaining id_ltb group table order (at_row r) ≡ rest
  remaining-after before r rest e =
      keep-keep (λ (r : Row). text_eq r.group_id group) (cursor_filter id_ltb (at_row r) order)
        table
      ∙ ap (keep (cursor_filter id_ltb (at_row r) order)) e
      ∙ keep-after id_ltb order before r rest asymmetric (
          subst (Sorted id_ltb order) e
            (Sorted-keep id_ltb order (λ (r : Row). text_eq r.group_id group) table sorted))

  require_issued :
      (r : Row)
      → Addressable r
      → require_cursor platform (some (encode_cursor platform r.created_at r.id)) ≡ ok (at_row r)
  unfolding require_cursor encode_cursor
  require_issued r (valid, named) =
      let back = decode_cursor-encode_cursor platform r.created_at r.id faithful valid named in
      let text : is_empty (encode_cursor platform r.created_at r.id) ≡ false =
        faithful.encoded_nonempty (cursor_text r.created_at r.id)
          (is_empty-append (show_nat r.created_at) (b'_' ∷ r.id) refl) in
      rw (text, back) refl

  list_page :
      (cursor : Option Text) (position : Option CursorPosition) (rest : List Row)
      → require_cursor platform cursor ≡ ok position
      → remaining id_ltb group table order position ≡ rest
      → (page : Page) × (list_group_webhooks platform id_ltb group (query_at cursor) table
          ≡ ok page)
        × PageOf platform (suc n) rest page
  unfolding list_group_webhooks
  list_page cursor position rest required left = (
    build_page platform (take (take_for_page (suc n)) rest) (suc n) order,
    rw (required, left) refl,
    build_page-PageOf platform (suc n) order rest,
  )

  -- Every page advances by at least one row, so as many pages as there are rows left, and one, are
  -- enough.
  walk_rest :
      (fuel : ℕ) (cursor : Option Text) (position : Option CursorPosition) (before rest : List Row)
      → length rest < fuel
      → members ≡ before ++ rest
      → require_cursor platform cursor ≡ ok position
      → remaining id_ltb group table order position ≡ rest
      → walk platform id_ltb group table fuel (query_at cursor) ≡ some rest
  unfolding list_group_webhooks require_cursor
  walk_rest zero cursor position before rest enough whole required left =
      absurd (omega (arith, enough))
  walk_rest (suc fuel) cursor position before rest enough whole required left =
      let (page, listed, (items, next)) = list_page cursor position rest required left in
      elim (Bool-cases (ltb (suc n) (length rest))) [
        | inr end ↦
            let last : page.meta.next_cursor ≡ none =
              next ∙ ap (λ b. cursor_of platform b (last_of (take (suc n) rest))) end in
            let all_items : page.items ≡ rest =
              items ∙ take_short (suc n) rest (ground (arith, end)) in
            rw (listed, last, all_items, append-nil rest) refl
        | inl more ↦
            let (init, r, shown, whole') = split_page n rest (ltb→lt (suc n) (length rest) more) in
            let rest' = drop (suc n) rest in
            let found : page.meta.next_cursor ≡ some (encode_cursor platform r.created_at r.id) =
              next
              ∙ ap (λ b. cursor_of platform b (last_of (take (suc n) rest))) more
              ∙ ap (cursor_of platform true) (ap last_of shown ∙ last_of-append init r) in
            let there : members ≡ (before ++ init) ++ r ∷ rest' =
              whole ∙ ap (λ l. before ++ l) whole' ∙ sym (append_assoc before init (r ∷ rest')) in
            let after : members ≡ ((before ++ init) ++ r ∷ []) ++ rest' =
              there ∙ sym (append_assoc (before ++ init) (r ∷ []) rest') in
            let issued = require_issued r (
              All-middle Addressable (before ++ init) r rest' (
                subst (All Addressable) there (
                  All-keep Addressable (λ (s : Row). text_eq s.group_id group) table
                    addressable))) in
            let fewer : length rest' < fuel =
              omega (arith, enough, ap length whole', length-append init (r ∷ rest')) in
            let IH =
              walk_rest fuel (some (encode_cursor platform r.created_at r.id)) (at_row r)
                ((before ++ init) ++ r ∷ []) rest' fewer after issued
                (remaining-after (before ++ init) r rest' there) in
            let all : page.items ++ rest' ≡ rest =
              ap (λ l. l ++ rest') (items ∙ shown)
              ∙ append_assoc init (r ∷ []) rest'
              ∙ sym whole' in
            rw (listed, found, IH) (ap some all)
      ]

-- Where the collation is asymmetric and the rows are in the order of the query, with times and
-- identifiers that a cursor can hold, a client that asks for the first page and follows every
-- cursor gets the rows of its group, each once and in that order, and comes to an end after at most
-- one page more than there are rows.
pub walk_visits_each_once :
    (platform : Platform) (id_ltb : Text → Text → Bool) (group : Text) (table : List Row)
    (order : SortOrder) (limit : ℕ)
    → Faithful platform
    → Asymmetric id_ltb
    → Sorted id_ltb order table
    → All Addressable table
    → 1 ≤ limit
    → walk platform id_ltb group table
        (suc (length (keep (λ (r : Row). text_eq r.group_id group) table)))
        (record { cursor = none; limit = limit; order = order })
      ≡ some (keep (λ (r : Row). text_eq r.group_id group) table)
walk_visits_each_once platform id_ltb group table order zero faithful asymmetric sorted addressable
      h =
    absurd (omega (arith, h))
walk_visits_each_once platform id_ltb group table order (suc n) faithful asymmetric sorted
      addressable h =
    walk_rest platform id_ltb group table order n faithful asymmetric sorted addressable
      (suc (length (keep (λ (r : Row). text_eq r.group_id group) table))) none none []
      (keep (λ (r : Row). text_eq r.group_id group) table) (omega arith) refl
      (require_none platform)
      (keep-keep (λ (r : Row). text_eq r.group_id group) (cursor_filter id_ltb none order) table
        ∙ keep_true id_ltb order (keep (λ (r : Row). text_eq r.group_id group) table))
