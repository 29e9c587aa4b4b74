-- ===== src/Session/Tokens.antt =====
-- The refresh tokens of src/services/refresh-token.ts, on a table that is passed along. The
-- SHA-256 of a token, its random successor and the configured lifetime are parameters.
use mergepay_api.Common.{
  Bool, List, Option, Result, Text, [], all, err, if◌then◌else◌, is_some, leb, length, ltb, map_get,
  map_has, map_set, none, not, ok, some, suc, text_eq, throw_if, ℕ, ◌&&◌, ◌+◌, ◌==◌, ◌>>=◌, ◌>>◌,
  ◌||◌, ◌∷◌,
}

pub record RefreshToken : Type 0 where
  pub family_id : Text
  pub user_id : Text
  pub expires_at : ℕ
  pub rotated_at : Option ℕ
  pub revoked_at : Option ℕ

-- The table by token hash, which is unique in it and stands for the row's id too.
abbrev pub Tokens : Type 0
Tokens = List (Text × RefreshToken)

pub data RefreshFailure : Type 0 where
  malformed unknown expired revoked reused : RefreshFailure

-- What a redemption throws: a RefreshTokenError, or the unique index on the successor's hash.
pub data RefreshError : Type 0 where
  refused : RefreshFailure → RefreshError
  hash_taken : RefreshError

pub record IssuedRefreshToken : Type 0 where
  pub token : Text
  pub expires_at : ℕ
  pub family_id : Text

-- /^[A-Za-z0-9_-]{40,90}$/
unfoldable pub is_token_char : ℕ → Bool
is_token_char c =
    (leb b'A' c && leb c b'Z')
    || (leb b'a' c && leb c b'z')
    || (leb b'0' c && leb c b'9')
    || c == b'_'
    || c == b'-'

unfoldable pub is_well_formed_token : Text → Bool
is_well_formed_token token =
    leb 40 (length token) && leb (length token) 90 && all is_token_char token

-- A token that can still be redeemed, its expiry aside.
abbrev pub is_live : RefreshToken → Bool
is_live t = not (is_some t.rotated_at) && not (is_some t.revoked_at)

unfoldable pub classify_stored : Option RefreshToken → ℕ → Option RefreshFailure
classify_stored none now = some unknown
classify_stored (some t) now =
    if is_some t.rotated_at
    then some reused
    else if is_some t.revoked_at
    then some revoked
    else if leb t.expires_at now
    then some expired
    else none

-- `updateMany({ where: { …, revokedAt: null }, data: { revokedAt: now } })`: the count, and the
-- table.
unfoldable pub revoke_where : (RefreshToken → Bool) → ℕ → Tokens → ℕ × Tokens
revoke_where chosen now [] = (0, [])
revoke_where chosen now ((hash, t) ∷ db) =
    let rest = revoke_where chosen now db in
    if chosen t && not (is_some t.revoked_at)
    then (suc rest.0, (hash, record t { revoked_at = some now }) ∷ rest.1)
    else (rest.0, (hash, t) ∷ rest.1)

abbrev pub in_family : Text → RefreshToken → Bool
in_family family t = text_eq t.family_id family

unfoldable pub revoke_family : Text → ℕ → Tokens → ℕ × Tokens
revoke_family family now db = revoke_where (in_family family) now db

unfoldable pub revoke_all_for_user : Text → ℕ → Tokens → ℕ × Tokens
revoke_all_for_user user now db =
    revoke_where (λ (t : RefreshToken). text_eq t.user_id user && not (is_some t.rotated_at)) now db

unfoldable pub cleanup_expired_refresh_tokens : ℕ → Tokens → Tokens
cleanup_expired_refresh_tokens now [] = []
cleanup_expired_refresh_tokens now ((hash, t) ∷ db) =
    let rest = cleanup_expired_refresh_tokens now db in
    if ltb t.expires_at now then rest else (hash, t) ∷ rest

-- `create`, under the unique index.
unfoldable pub create_token : Text → RefreshToken → Tokens → Result RefreshError Tokens
create_token hash t db = if map_has hash db then err hash_taken else ok (map_set hash t db)

module _ (hash_token : Text → Text) (ttl : ℕ) where
  abbrev pub new_row : Text → Text → ℕ → RefreshToken
  new_row family user now = record {
    family_id = family;
    user_id = user;
    expires_at = now + ttl;
    rotated_at = none;
    revoked_at = none;
  }

  -- `token` and `family` are the random values that the call draws.
  unfoldable pub issue_refresh_token :
      Text → Text → Text → ℕ → Tokens → Result RefreshError (IssuedRefreshToken × Tokens)
  issue_refresh_token token family user now db = do
    db' ← create_token (hash_token token) (new_row family user now) db
    ok (record { token = token; expires_at = now + ttl; family_id = family }, db')

  -- The transaction of a redemption: the conditional update, then the successor.
  unfoldable pub claim_row :
      Text
      → Text
      → RefreshToken
      → ℕ
      → Tokens
      → Option RefreshToken
      → Result RefreshError ((Text × IssuedRefreshToken) × Tokens)
  claim_row token hash stored now db none = err (refused reused)
  claim_row token hash stored now db (some t) = do
    throw_if (not (is_live t)) (refused reused)
    (refresh, db') ←
        issue_refresh_token token stored.family_id stored.user_id now
          (map_set hash (record t { rotated_at = some now }) db)
    ok ((stored.user_id, refresh), db')

  -- A throw rolls the transaction back.
  abbrev pub commit :
      Tokens
      → Result RefreshError ((Text × IssuedRefreshToken) × Tokens)
      → Result RefreshError (Text × IssuedRefreshToken) × Tokens
  commit db (err e) = (err e, db)
  commit db (ok (r, db')) = (ok r, db')

  -- What follows the lookup, on the table as the other requests have left it by then.
  unfoldable pub redeem :
      Text
      → Text
      → ℕ
      → Tokens
      → Option RefreshToken
      → Option RefreshFailure
      → Result RefreshError (Text × IssuedRefreshToken) × Tokens
  redeem token hash now db none failure = (err (refused unknown), db)
  redeem token hash now db (some stored) (some reused) =
      (err (refused reused), (revoke_family stored.family_id now db).1)
  redeem token hash now db (some stored) (some failure) = (err (refused failure), db)
  redeem token hash now db (some stored) none =
      commit db (claim_row token hash stored now db (map_get hash db))

  -- `others` is what other requests commit between the lookup and the claim.
  unfoldable pub rotate_refresh_token :
      (Tokens → Tokens)
      → Text
      → Text
      → ℕ
      → Tokens
      → Result RefreshError (Text × IssuedRefreshToken) × Tokens
  rotate_refresh_token others token presented now db =
      let hash = hash_token presented in
      let stored = map_get hash db in
      if is_well_formed_token presented
      then redeem token hash now (others db) stored (classify_stored stored now)
      else (err (refused malformed), others db)
