-- ===== src/Paging/Tests.antt =====
-- A walk over three webhooks of one group and one of another, with the order of code units for the
-- collation.
use mergepay_api.Common.{
  All, Bool, List, Text, [], ap, arith, codes, err, false, keep, length, ltb, none, refl, some, suc,
  text_eq, true, ℕ, ◌&&◌, ◌==◌, ◌||◌, ◌∷◌, ◌≡◌,
}
use mergepay_api.Paging.Page.{desc, Row, cursor_order_by}
use mergepay_api.Paging.Walk.{walk, Addressable, walk_visits_each_once}
use mergepay_api.Paging.Order.{Asymmetric, Sorted}
use mergepay_api.Paging.Cursor.{
  Faithful, Platform, decode_cursor, decode_cursor-encode_cursor, encode_cursor, invalid_cursor,
  require_cursor, split_first,
}
use mergepay_api.Money.Decimal.{read_digits}
use mergepay_api.Money.Digits.{read_digits-show_nat}

abbrev code_unit_order : Text → Text → Bool
code_unit_order [] [] = false
code_unit_order [] (_ ∷ _) = true
code_unit_order (_ ∷ _) [] = false
code_unit_order (a ∷ s) (b ∷ t) = ltb a b || a == b && code_unit_order s t

code_unit_order-Asymmetric : Asymmetric code_unit_order
code_unit_order-Asymmetric [] [] h = refl
code_unit_order-Asymmetric [] (b ∷ t) h = refl
code_unit_order-Asymmetric (a ∷ s) [] h = cc h
code_unit_order-Asymmetric (a ∷ s) (b ∷ t) h = ground (arith, code_unit_order-Asymmetric s t)

-- The identity for base64url.
abbrev plain : Platform
plain = record {
  to_base64url = λ s. s;
  from_base64url = λ s. s;
  number = λ s. some (read_digits s);
}

plain-Faithful : Faithful plain
plain-Faithful = record {
  decoded = λ s. refl;
  encoded_nonempty = λ s h. h;
  read_number = λ n h. ap some (read_digits-show_nat n);
}

abbrev webhook : ℕ → Text → Row
webhook created_at id = record { created_at = created_at; id = id; group_id = codes "g" }

abbrev first_hook : Row
first_hook = webhook 900 (codes "hook_2")

abbrev second_hook : Row
second_hook = webhook 900 (codes "hook_1")

abbrev third_hook : Row
third_hook = webhook 800 (codes "hook_9")

abbrev foreign_hook : Row
foreign_hook = record first_hook { id = codes "hook_15"; group_id = codes "other" }

abbrev hooks : List Row
hooks = first_hook ∷ foreign_hook ∷ second_hook ∷ third_hook ∷ []

hooks-Sorted : Sorted code_unit_order desc hooks
unfolding cursor_order_by
hooks-Sorted = ((refl, (refl, (refl, tt))), ((refl, (refl, tt)), ((refl, tt), (tt, tt))))

hooks-Addressable : All Addressable hooks
hooks-Addressable =
    ((omega arith, refl), ((omega arith, refl), ((omega arith, refl), ((omega arith, refl), tt))))

walk_visits_each_once_example :
    walk plain code_unit_order
      (codes "g")
      hooks
      (suc (length (keep (λ (r : Row). text_eq r.group_id (codes "g")) hooks)))
      (record { cursor = none; limit = 2; order = desc })
    ≡ some (keep (λ (r : Row). text_eq r.group_id (codes "g")) hooks)
walk_visits_each_once_example =
    walk_visits_each_once plain code_unit_order (codes "g") hooks desc 2 plain-Faithful
      code_unit_order-Asymmetric hooks-Sorted hooks-Addressable (omega arith)

decode_cursor-encode_cursor_example :
    decode_cursor plain (encode_cursor plain 900 (codes "hook_2"))
    ≡ some (record { created_at = 900; id = codes "hook_2" })
decode_cursor-encode_cursor_example =
    decode_cursor-encode_cursor plain 900 (codes "hook_2") plain-Faithful (omega arith) refl

bad_cursor : require_cursor plain (some (codes "hello")) ≡ err invalid_cursor
unfolding require_cursor decode_cursor split_first
bad_cursor = refl
