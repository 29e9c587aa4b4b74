-- ===== src/Paging/Page.antt =====
-- src/lib/pagination.ts: the filter, the order and the page of a list, and the list of a group's
-- webhooks (src/services/webhook-listing.ts) that is made of them. The collation of identifiers is
-- a parameter, since the database has it.
use mergepay_api.Common.{
  Bool, List, Option, Result, Text, [], false, if◌then◌else◌, is_empty, keep, length, ltb, none, ok,
  some, take, text_eq, true, ℕ, ◌&&◌, ◌+◌, ◌==◌, ◌>>=◌, ◌||◌, ◌∷◌,
}
use mergepay_api.Paging.Cursor.{
  CursorError, CursorPosition, Platform, encode_cursor, require_cursor,
}

pub data SortOrder : Type 0 where
  asc desc : SortOrder

pub record Row : Type 0 where
  pub created_at : ℕ
  pub id : Text
  pub group_id : Text

pub record PageMeta : Type 0 where
  pub next_cursor : Option Text
  pub has_more : Bool
  pub limit : ℕ
  pub order : SortOrder

pub record Page : Type 0 where
  pub items : List Row
  pub meta : PageMeta

pub record PaginationQuery : Type 0 where
  pub cursor : Option Text
  pub limit : ℕ
  pub order : SortOrder

module _ (id_ltb : Text → Text → Bool) where
  -- The order of `[{ createdAt: order }, { id: order }]`.
  unfoldable pub cursor_order_by : SortOrder → Row → Row → Bool
  cursor_order_by asc r s =
      ltb r.created_at s.created_at || r.created_at == s.created_at && id_ltb r.id s.id
  cursor_order_by desc r s =
      ltb s.created_at r.created_at || s.created_at == r.created_at && id_ltb s.id r.id

  -- `{ [comparator]: bound }`
  abbrev pub compared_time : SortOrder → ℕ → ℕ → Bool
  compared_time desc value bound = ltb value bound
  compared_time asc value bound = ltb bound value

  abbrev pub compared_id : SortOrder → Text → Text → Bool
  compared_id desc value bound = id_ltb value bound
  compared_id asc value bound = id_ltb bound value

  unfoldable pub cursor_filter : Option CursorPosition → SortOrder → Row → Bool
  cursor_filter none order row = true
  cursor_filter (some position) order row =
      compared_time order row.created_at position.created_at
      || row.created_at == position.created_at && compared_id order row.id position.id

unfoldable pub take_for_page : ℕ → ℕ
take_for_page limit = limit + 1

abbrev pub last_of : List Row → Option Row
last_of [] = none
last_of (r ∷ rows) = if is_empty rows then some r else last_of rows

abbrev pub cursor_of : Platform → Bool → Option Row → Option Text
cursor_of platform false last = none
cursor_of platform true none = none
cursor_of platform true (some r) = some (encode_cursor platform r.created_at r.id)

unfoldable pub build_page : Platform → List Row → ℕ → SortOrder → Page
build_page platform rows limit order =
    let has_more = ltb limit (length rows) in
    let items = if has_more then take limit rows else rows in
    record {
      items = items;
      meta = record {
        next_cursor = cursor_of platform has_more (last_of items);
        has_more = has_more;
        limit = limit;
        order = order;
      };
    }

-- `table` is the rows in the order that the query asks for.
unfoldable pub list_group_webhooks :
    Platform → (Text → Text → Bool) → Text → PaginationQuery → List Row → Result CursorError Page
list_group_webhooks platform id_ltb group query table = do
  position ← require_cursor platform query.cursor
  let matches = λ (r : Row). text_eq r.group_id group && cursor_filter id_ltb position query.order r
  ok (
      build_page platform (take (take_for_page query.limit) (keep matches table)) query.limit
        query.order)
