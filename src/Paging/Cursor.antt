-- ===== src/Paging/Cursor.antt =====
-- src/lib/pagination.ts: the cursor of a page. Node's Buffer and JavaScript's Number are the
-- fields of a record that stands for them; a time is a number of milliseconds.
use mergepay_api.Common.{
  Option, Result, Text, [], arith, err, false, if◌then◌else◌, is_empty, ltb, none, ok, refl, some,
  ℕ, ◌++◌, ◌/◌, ◌==◌, ◌||◌, ◌∷◌, ◌≡◌, ◌≤◌,
}
use mergepay_api.Money.Decimal.{show_nat, is_digit, show_fuel}
use mergepay_api.Money.Digits.{Digits, show_nat-Digits}

pub record Platform : Type 0 where
  pub to_base64url : Text → Text
  pub from_base64url : Text → Text
  -- `Number(s)` where it is finite and not negative, cut to a whole number.
  pub number : Text → Option ℕ

pub record CursorPosition : Type 0 where
  pub created_at : ℕ
  pub id : Text

pub data CursorError : Type 0 where
  invalid_cursor : CursorError

-- The latest time that a Date can be.
abbrev pub max_date : ℕ
max_date = 8640000000000000

abbrev pub cursor_text : ℕ → Text → Text
cursor_text created_at id = show_nat created_at ++ b'_' ∷ id

unfoldable pub encode_cursor : Platform → ℕ → Text → Text
encode_cursor platform created_at id = platform.to_base64url (cursor_text created_at id)

-- What is before the first underscore and what is after it.
unfoldable pub split_first : Text → Option (Text × Text)
split_first [] = none
split_first (c ∷ s) =
    if c == b'_'
    then some ([], s)
    else elim (split_first s) [ none ↦ none | some (before, id) ↦ some (c ∷ before, id) ]

abbrev pub dated : Text → Option ℕ → Option CursorPosition
dated id none = none
dated id (some timestamp) =
    if is_empty id || ltb max_date timestamp
    then none
    else some (record { created_at = timestamp; id = id })

abbrev pub position_of : Platform → Option (Text × Text) → Option CursorPosition
position_of platform none = none
position_of platform (some (before, id)) =
    if is_empty before then none else dated id (platform.number before)

unfoldable pub decode_cursor : Platform → Text → Option CursorPosition
decode_cursor platform cursor = position_of platform (split_first (platform.from_base64url cursor))

abbrev pub or_invalid : Option CursorPosition → Result CursorError (Option CursorPosition)
or_invalid none = err invalid_cursor
or_invalid (some position) = ok (some position)

-- No cursor and the empty one are the first page.
unfoldable pub require_cursor : Platform → Option Text → Result CursorError (Option CursorPosition)
require_cursor platform none = ok none
require_cursor platform (some cursor) =
    if is_empty cursor then ok none else or_invalid (decode_cursor platform cursor)

-- What is documented of base64url and of numbers in decimal digits.
pub record Faithful (platform : Platform) : Type 0 where
  pub decoded : (s : Text) → platform.from_base64url (platform.to_base64url s) ≡ s
  pub encoded_nonempty :
      (s : Text) → is_empty s ≡ false → is_empty (platform.to_base64url s) ≡ false
  pub read_number : (n : ℕ) → n ≤ max_date → platform.number (show_nat n) ≡ some n

split_first-append :
    (before id : Text) → Digits before → split_first (before ++ b'_' ∷ id) ≡ some (before, id)
unfolding split_first is_digit
split_first-append [] id h = refl
split_first-append (c ∷ before) id (digit, h) =
    let IH = split_first-append before id h in
    let other : (c == b'_') ≡ false = ground (arith, digit) in rw (other, IH) refl

pub is_empty-append : (s t : Text) → is_empty t ≡ false → is_empty (s ++ t) ≡ false
is_empty-append [] t h = h
is_empty-append (c ∷ s) t h = refl

is_empty-show_nat : (n : ℕ) → is_empty (show_nat n) ≡ false
unfolding show_nat show_fuel
is_empty-show_nat n = is_empty-append (if n / 10 == 0 then [] else show_fuel n (n / 10)) _ refl

-- A cursor that the API has issued for a row with an identifier decodes to the row's place, also
-- where the identifier has underscores.
pub decode_cursor-encode_cursor :
    (platform : Platform) (created_at : ℕ) (id : Text)
    → Faithful platform
    → created_at ≤ max_date
    → is_empty id ≡ false
    → decode_cursor platform (encode_cursor platform created_at id)
      ≡ some (record { created_at = created_at; id = id })
unfolding decode_cursor encode_cursor
decode_cursor-encode_cursor platform created_at id faithful valid named =
    let back = faithful.decoded (cursor_text created_at id) in
    let cut = split_first-append (show_nat created_at) id (show_nat-Digits created_at) in
    let in_range : ltb max_date created_at ≡ false = ground arith in
    rw
      (
        back,
        cut,
        is_empty-show_nat created_at,
        faithful.read_number created_at valid,
        named,
        in_range,
      )
      refl
