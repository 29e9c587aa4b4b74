-- ===== src/Session/Tests.antt =====
-- Refresh tokens on a concrete table, with the identity for the hash.
use mergepay_api.Session.Single.{here, redeemed_once}
use mergepay_api.Session.Chain.{AllRedeemed, Refresh, session_goes_on}
use mergepay_api.Session.Tokens.{
  redeem, reused, refused, IssuedRefreshToken, RefreshToken, Tokens, claim_row, classify_stored,
  create_token, is_token_char, is_well_formed_token, issue_refresh_token, rotate_refresh_token,
}
use mergepay_api.Session.Live.{live_count, live_count-rotate_refresh_token, reuse_revokes_family}
use mergepay_api.Session.Open.{open_rows}
use mergepay_api.Common.{
  List, Text, [], arith, codes, err, map_get, none, ok, refl, some, text_eq, true, ◌++◌, ◌∷◌, ◌≡◌,
  ◌≢◌, ◌≤◌,
}

abbrev plain_hash : Text → Text
plain_hash t = t

abbrev first_token : Text
first_token = codes "aaaaaaaaaabbbbbbbbbbccccccccccdddddddddd"

abbrev next_token : Text
next_token = codes "zzzzzzzzzzbbbbbbbbbbccccccccccdddddddddd"

abbrev third_token : Text
third_token = codes "yyyyyyyyyybbbbbbbbbbccccccccccdddddddddd"

abbrev family : Text
family = codes "f1"

abbrev login : RefreshToken
login = record {
  family_id = family;
  user_id = codes "ana";
  expires_at = 100;
  rotated_at = none;
  revoked_at = none;
}

abbrev after_login : Tokens
after_login = (first_token, login) ∷ []

abbrev successor : RefreshToken
successor = record login { expires_at = 150 }

abbrev after_rotation : Tokens
after_rotation = (first_token, record login { rotated_at = some 50 }) ∷ (next_token, successor) ∷ []

abbrev reply : Text × IssuedRefreshToken
reply = (codes "ana", record { token = next_token; expires_at = 150; family_id = family })

rotated_once :
    rotate_refresh_token plain_hash 100 (λ db. db) next_token first_token 50 after_login
    ≡ (ok reply, after_rotation)
unfolding rotate_refresh_token redeem classify_stored claim_row issue_refresh_token create_token
    is_well_formed_token is_token_char text_eq
rotated_once = refl

first_token_formed : is_well_formed_token first_token ≡ true
unfolding is_well_formed_token is_token_char
first_token_formed = refl

rotated_row : map_get first_token after_rotation ≡ some (record login { rotated_at = some 50 })
unfolding text_eq
rotated_row = refl

login_row : map_get first_token after_login ≡ some login
unfolding text_eq
login_row = refl

next_absent : map_get next_token after_login ≡ none
unfolding text_eq
next_absent = refl

one_open_row : open_rows first_token after_login ≤ 1
unfolding text_eq
one_open_row = ground arith

reuse_revokes_family_example :
    ((rotate_refresh_token plain_hash 100 (λ db. db) third_token first_token 60 after_rotation).0
      ≡ err (refused reused))
    × (live_count family
          (rotate_refresh_token plain_hash 100
            (λ db. db)
            third_token
            first_token
            60
            after_rotation).1
        ≡ 0)
reuse_revokes_family_example =
    reuse_revokes_family plain_hash 100 (λ db. db) third_token first_token 60 after_rotation
      (record login { rotated_at = some 50 }) first_token_formed rotated_row refl

live_count-rotate_refresh_token_example :
    live_count family
      (rotate_refresh_token plain_hash 100 (λ db. db) next_token first_token 50 after_login).1
    ≤ live_count family after_login
live_count-rotate_refresh_token_example =
    live_count-rotate_refresh_token plain_hash 100 (λ db. db) next_token first_token 50 after_login
      (λ s t found found'. cc (found, found')) family

redeemed_once_example :
    rotate_refresh_token plain_hash 100 (λ db. db) third_token first_token 60 after_rotation
    ≢ (ok reply, after_login)
redeemed_once_example =
    redeemed_once plain_hash 100 (λ db. db) (λ db. db) next_token third_token first_token 50 60
      after_login one_open_row rotated_once here

next_token_formed : is_well_formed_token next_token ≡ true
unfolding is_well_formed_token is_token_char
next_token_formed = refl

third_token_formed : is_well_formed_token third_token ≡ true
unfolding is_well_formed_token is_token_char
third_token_formed = refl

-- Another session is opened beside each request.
abbrev beside : Tokens → Tokens
beside db = db ++ (codes "other", record login { family_id = codes "f2" }) ∷ []

abbrev refreshes : List Refresh
refreshes =
    record { others = beside; token = next_token; now = 50 }
    ∷ record { others = beside; token = third_token; now = 140 }
    ∷ []

abbrev after_first_refresh : Tokens
after_first_refresh =
    (rotate_refresh_token plain_hash 100 beside next_token first_token 50 after_login).1

first_kept : map_get first_token (beside after_login) ≡ map_get first_token after_login
unfolding text_eq
first_kept = refl

next_is_new : map_get next_token (beside after_login) ≡ none
unfolding text_eq
next_is_new = refl

next_kept : map_get next_token (beside after_first_refresh) ≡ map_get next_token after_first_refresh
unfolding rotate_refresh_token redeem classify_stored claim_row issue_refresh_token create_token
    is_well_formed_token is_token_char text_eq
next_kept = refl

third_is_new : map_get third_token (beside after_first_refresh) ≡ none
unfolding rotate_refresh_token redeem classify_stored claim_row issue_refresh_token create_token
    is_well_formed_token is_token_char text_eq
third_is_new = refl

session_goes_on_example :
    AllRedeemed plain_hash 100 (codes "ana") family after_login first_token refreshes
session_goes_on_example =
    session_goes_on plain_hash 100 refreshes first_token after_login login first_token_formed
      login_row refl
      (
        ground arith,
        next_token_formed,
        first_kept,
        next_is_new,
        (ground arith, third_token_formed, next_kept, third_is_new, tt),
      )
