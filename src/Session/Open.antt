-- ===== src/Session/Open.antt =====
-- How many rows of a hash have not been rotated, under the operations on the table.
use mergepay_api.Session.Tokens.{
  RefreshToken, Tokens, cleanup_expired_refresh_tokens, revoke_where, commit, redeem, malformed,
  unknown, expired, revoked, reused, IssuedRefreshToken, RefreshError, RefreshFailure, claim_row,
  in_family, new_row, revoke_family, classify_stored, is_well_formed_token, rotate_refresh_token,
}
use mergepay_api.Common.{
  Bool, Bool-cases, Option, Result, Text, [], ap, arith, err, false, inl, inr, is_some, map_get,
  map_get-set, map_set, none, not, ok, refl, some, sym, text_eq, text_eq_iff, true, ℕ, ◌&&◌, ◌+◌,
  ◌∷◌, ◌≡◌, ◌≤◌,
}
use mergepay_api.Session.Live.{bit, claim_row-inv}

-- The rows under the hash `h` that have not been rotated.
abbrev pub open_row : Text → Text → RefreshToken → ℕ
open_row h k t = bit (text_eq k h && not (is_some t.rotated_at))

abbrev pub open_rows : Text → Tokens → ℕ
open_rows h [] = 0
open_rows h ((k, t) ∷ db) = open_row h k t + open_rows h db

pub open_rows-set :
    (h k : Text) (t : RefreshToken) (db : Tokens)
    → map_get k db ≡ none
    → open_rows h (map_set k t db) ≡ open_row h k t + open_rows h db
open_rows-set h k t [] e = refl
open_rows-set h k t ((j, u) ∷ db) e = ground (arith, open_rows-set h k t db)

open_rows-rotate :
    (h k : Text) (t u : RefreshToken) (db : Tokens)
    → map_get k db ≡ some t
    → is_some u.rotated_at ≡ true
    → open_rows h (map_set k u db) + open_row h k t ≡ open_rows h db
open_rows-rotate h k t u [] e r = cc e
open_rows-rotate h k t u ((j, w) ∷ db) e r =
    ground (arith, open_rows-rotate h k t u db, text_eq_iff j k)

pub open_rows-revoke_where :
    (h : Text) (chosen : RefreshToken → Bool) (now : ℕ) (db : Tokens)
    → open_rows h (revoke_where chosen now db).1 ≡ open_rows h db
unfolding revoke_where
open_rows-revoke_where h chosen now [] = refl
open_rows-revoke_where h chosen now ((k, t) ∷ db) =
    ground (arith, open_rows-revoke_where h chosen now db)

pub open_rows-cleanup :
    (h : Text) (now : ℕ) (db : Tokens)
    → open_rows h (cleanup_expired_refresh_tokens now db) ≤ open_rows h db
unfolding cleanup_expired_refresh_tokens
open_rows-cleanup h now [] = ground arith
open_rows-cleanup h now ((k, t) ∷ db) = ground (arith, open_rows-cleanup h now db)

-- A row that is found where no row is open has been rotated.
pub found_is_rotated :
    (h : Text) (db : Tokens) (t : RefreshToken)
    → map_get h db ≡ some t
    → open_rows h db ≡ 0
    → is_some t.rotated_at ≡ true
found_is_rotated h [] t e z = cc e
found_is_rotated h ((k, u) ∷ db) t e z = ground (arith, found_is_rotated h db t)

module _ (hash_token : Text → Text) (ttl : ℕ) where
  pub claim_row-open_rows :
      (h token hash : Text) (stored : RefreshToken) (now : ℕ) (db : Tokens)
      (o : Option RefreshToken)
      → map_get hash db ≡ o
      → text_eq (hash_token token) h ≡ false
      → (r : Text × IssuedRefreshToken) (db' : Tokens)
      → claim_row hash_token ttl token hash stored now db o ≡ ok (r, db')
      → open_rows h db' + bit (text_eq hash h) ≡ open_rows h db
  unfolding claim_row
  claim_row-open_rows h token hash stored now db none found fresh r db' e = cc e
  claim_row-open_rows h token hash stored now db (some t) found fresh r db' e =
      let (live, absent, made) = claim_row-inv hash_token ttl token hash stored t now db e in
      let rotated = record t { rotated_at = some now } in
      let row = new_row hash_token ttl stored.family_id stored.user_id now in
      let grown = open_rows-set h (hash_token token) row (map_set hash rotated db) absent in
      let closed = open_rows-rotate h hash t rotated db found refl in
      let total : open_rows h db'
          ≡ open_rows h (map_set (hash_token token) row (map_set hash rotated db)) =
        ap (open_rows h) (sym made) in
      ground (arith, total, grown, closed, live, fresh)

  -- A successor never has the hash of the token that it replaces.
  pub claim_row-fresh :
      (token hash : Text) (stored : RefreshToken) (now : ℕ) (db : Tokens) (o : Option RefreshToken)
      → (r : Text × IssuedRefreshToken) (db' : Tokens)
      → claim_row hash_token ttl token hash stored now db o ≡ ok (r, db')
      → text_eq (hash_token token) hash ≡ false
  unfolding claim_row
  claim_row-fresh token hash stored now db none r db' e = cc e
  claim_row-fresh token hash stored now db (some t) r db' e =
      let (live, absent, made) = claim_row-inv hash_token ttl token hash stored t now db e in
      let rotated = record t { rotated_at = some now } in
      let there = map_get-set hash (hash_token token) rotated db in
      ground (
        arith,
        absent,
        there,
        text_eq_iff hash (hash_token token),
        text_eq_iff (hash_token token) hash,
      )

  commit-Open :
      (h : Text) (db : Tokens) (x : Result RefreshError ((Text × IssuedRefreshToken) × Tokens))
      → ((r : Text × IssuedRefreshToken) (db' : Tokens)
          → x ≡ ok (r, db')
          → open_rows h db' ≤ open_rows h db)
      → open_rows h (commit hash_token ttl db x).1 ≤ open_rows h db
  commit-Open h db (err e) k = ground arith
  commit-Open h db (ok (r, db')) k = k r db' refl

  redeem-Open :
      (h token hash : Text) (now : ℕ) (db : Tokens) (o : Option RefreshToken)
      (failure : Option RefreshFailure)
      → text_eq (hash_token token) h ≡ false
      → open_rows h (redeem hash_token ttl token hash now db o failure).1 ≤ open_rows h db
  unfolding redeem revoke_family
  redeem-Open h token hash now db none failure fresh = ground arith
  redeem-Open h token hash now db (some s) (some reused) fresh =
      omega (arith, open_rows-revoke_where h (in_family s.family_id) now db)
  redeem-Open h token hash now db (some s) (some malformed) fresh = ground arith
  redeem-Open h token hash now db (some s) (some unknown) fresh = ground arith
  redeem-Open h token hash now db (some s) (some expired) fresh = ground arith
  redeem-Open h token hash now db (some s) (some revoked) fresh = ground arith
  redeem-Open h token hash now db (some s) none fresh =
      commit-Open h db (claim_row hash_token ttl token hash s now db (map_get hash db)) (λ r db' e.
        omega
          (arith, claim_row-open_rows h token hash s now db (map_get hash db) refl fresh r db' e))

  pub rotate-Open :
      (h : Text) (others : Tokens → Tokens) (token presented : Text) (now : ℕ) (db : Tokens)
      → text_eq (hash_token token) h ≡ false
      → open_rows h (rotate_refresh_token hash_token ttl others token presented now db).1
        ≤ open_rows h (others db)
  unfolding rotate_refresh_token
  rotate-Open h others token presented now db fresh =
      let hash = hash_token presented in
      let stored = map_get hash db in
      elim (Bool-cases (is_well_formed_token presented)) [
        | inl formed ↦
            rw formed
              (redeem-Open h token hash now (others db) stored (classify_stored stored now) fresh)
        | inr ill ↦ rw ill (ground arith)
      ]
