-- ===== src/Session/Single.antt =====
-- A refresh token is redeemed once: what a redemption leaves behind, and that no later operation
-- on the table undoes it.
use mergepay_api.Session.Tokens.{
  claim_row, RefreshToken, Tokens, cleanup_expired_refresh_tokens, revoke_where, commit, redeem,
  refused, malformed, unknown, expired, revoked, reused, IssuedRefreshToken, RefreshError,
  RefreshFailure, new_row, classify_stored, create_token, is_well_formed_token, issue_refresh_token,
  rotate_refresh_token,
}
use mergepay_api.Common.{
  >>=-eq-ok, Bool, Bool-cases, Option, Result, Text, ap, arith, err, false, inl, inr, map_get,
  map_set, none, ok, ok-injective, refl, some, sym, text_eq, text_eq_refl, ℕ, ◌∙◌, ◌≡◌, ◌≢◌, ◌≤◌,
}
use mergepay_api.Session.Live.{create_token-inv}
use mergepay_api.Session.Open.{
  claim_row-fresh, claim_row-open_rows, found_is_rotated, open_rows, open_rows-cleanup,
  open_rows-revoke_where, open_rows-set, rotate-Open,
}

module _ (hash_token : Text → Text) (ttl : ℕ) where
  -- What happens to the table after a redemption: any requests and clean-ups, in any order, of
  -- which none draws a token that hashes to `h`.
  pub data Later (h : Text) : Tokens → Tokens → Type 0 where
    here : {db : Tokens} → Later h db db
    issues :
        {db db1 db2 : Tokens} (token family user : Text) (now : ℕ) (r : IssuedRefreshToken)
        → text_eq (hash_token token) h ≡ false
        → issue_refresh_token hash_token ttl token family user now db ≡ ok (r, db1)
        → Later h db1 db2
        → Later h db db2
    rotates :
        {db db2 : Tokens} (token presented : Text) (now : ℕ)
        → text_eq (hash_token token) h ≡ false
        → Later h (rotate_refresh_token hash_token ttl (λ x. x) token presented now db).1 db2
        → Later h db db2
    revokes :
        {db db2 : Tokens} (chosen : RefreshToken → Bool) (now : ℕ)
        → Later h (revoke_where chosen now db).1 db2
        → Later h db db2
    cleans :
        {db db2 : Tokens} (now : ℕ)
        → Later h (cleanup_expired_refresh_tokens now db) db2
        → Later h db db2

  open_rows-issue :
      (h token family user : Text) (now : ℕ) (db : Tokens) {r : IssuedRefreshToken} {db' : Tokens}
      → text_eq (hash_token token) h ≡ false
      → issue_refresh_token hash_token ttl token family user now db ≡ ok (r, db')
      → open_rows h db' ≡ open_rows h db
  unfolding issue_refresh_token
  open_rows-issue h token family user now db {r} {db'} fresh e =
      let row = new_row hash_token ttl family user now in
      let (db2, ec, e1) = >>=-eq-ok (create_token (hash_token token) row db) _ e in
      let (absent, made) = create_token-inv (hash_token token) row db ec in
      let total : open_rows h db' ≡ open_rows h (map_set (hash_token token) row db) =
        ap (open_rows h) (sym (made ∙ ap (λ x. x.1) (ok-injective e1))) in
      ground (arith, total, open_rows-set h (hash_token token) row db absent, fresh)

  Later-Open : (h : Text) {db db' : Tokens} → Later h db db' → open_rows h db' ≤ open_rows h db
  Later-Open h here = ground arith
  Later-Open h (issues {db} token family user now r fresh e rest) =
      omega (arith, Later-Open h rest, open_rows-issue h token family user now db fresh e)
  Later-Open h (rotates {db} token presented now fresh rest) =
      omega (
        arith,
        Later-Open h rest,
        rotate-Open hash_token ttl h (λ x. x) token presented now db fresh,
      )
  Later-Open h (revokes {db} chosen now rest) =
      omega (arith, Later-Open h rest, open_rows-revoke_where h chosen now db)
  Later-Open h (cleans {db} now rest) = omega (arith, Later-Open h rest, open_rows-cleanup h now db)

  redeem-inv :
      (token hash : Text) (now : ℕ) (db : Tokens) (o : Option RefreshToken)
      (failure : Option RefreshFailure) {r : Text × IssuedRefreshToken} {db' : Tokens}
      → redeem hash_token ttl token hash now db o failure ≡ (ok r, db')
      → (s : RefreshToken) × (claim_row hash_token ttl token hash s now db (map_get hash db)
          ≡ ok (r, db'))
        × (o ≡ some s)
        × (failure ≡ none)
  unfolding redeem
  redeem-inv token hash now db none failure e = cc (ap (λ x. x.0) e)
  redeem-inv token hash now db (some s) (some reused) e = cc (ap (λ x. x.0) e)
  redeem-inv token hash now db (some s) (some malformed) e = cc (ap (λ x. x.0) e)
  redeem-inv token hash now db (some s) (some unknown) e = cc (ap (λ x. x.0) e)
  redeem-inv token hash now db (some s) (some expired) e = cc (ap (λ x. x.0) e)
  redeem-inv token hash now db (some s) (some revoked) e = cc (ap (λ x. x.0) e)
  redeem-inv token hash now db (some s) none {r} {db'} e =
      (s, committed (claim_row hash_token ttl token hash s now db (map_get hash db)) e, refl, refl)
    where
      committed :
          (x : Result RefreshError ((Text × IssuedRefreshToken) × Tokens))
          → commit hash_token ttl db x ≡ (ok r, db')
          → x ≡ ok (r, db')
      committed (err y) e = cc (ap (λ x. x.0) e)
      committed (ok (r2, db2)) e = rw (ok-injective (ap (λ x. x.0) e), ap (λ x. x.1) e) refl

  rotate-inv :
      (others : Tokens → Tokens) (token presented : Text) (now : ℕ) (db : Tokens)
      {r : Text × IssuedRefreshToken} {db' : Tokens}
      → rotate_refresh_token hash_token ttl others token presented now db ≡ (ok r, db')
      → redeem hash_token ttl token
          (hash_token presented)
          now
          (others db)
          (map_get (hash_token presented) db)
          (classify_stored (map_get (hash_token presented) db) now)
        ≡ (ok r, db')
  unfolding rotate_refresh_token
  rotate-inv others token presented now db {r} {db'} e =
      let hash = hash_token presented in
      let stored = map_get hash db in
      elim (Bool-cases (is_well_formed_token presented)) [
        | inl formed ↦
            let opened : rotate_refresh_token hash_token ttl others token presented now db
                ≡ redeem hash_token ttl token hash now (others db) stored
                    (classify_stored stored now) =
              rw formed refl in
            sym opened ∙ e
        | inr ill ↦
            let opened : (rotate_refresh_token hash_token ttl others token presented now db).0
                ≡ err (refused malformed) =
              rw ill refl in
            cc (opened, ap (λ x. x.0) e)
      ]

  -- A refresh token is redeemed once. After a redemption, on a table whose hash is unique, no
  -- sequence of requests and clean-ups that draw other tokens makes the same token redeemable
  -- again, whatever runs beside the second redemption.
  pub redeemed_once :
      (others others' : Tokens → Tokens) (token token' presented : Text) (now now' : ℕ)
      (db : Tokens) {r r' : Text × IssuedRefreshToken} {db1 db2 db3 : Tokens}
      → open_rows (hash_token presented) (others db) ≤ 1
      → rotate_refresh_token hash_token ttl others token presented now db ≡ (ok r, db1)
      → Later (hash_token presented) db1 db2
      → rotate_refresh_token hash_token ttl others' token' presented now' db2 ≢ (ok r', db3)
  unfolding classify_stored
  redeemed_once others others' token token' presented now now' db {r} {r'} {db1} {db2} {db3} unique
        first later second =
      let h = hash_token presented in
      let (s, claimed, _, _) =
        redeem-inv token h now (others db) (map_get h db) (classify_stored (map_get h db) now)
          (rotate-inv others token presented now db first) in
      let fresh =
        claim_row-fresh hash_token ttl token h s now (others db) (map_get h (others db)) r db1
          claimed in
      let closed =
        claim_row-open_rows hash_token ttl h token h s now (others db) (map_get h (others db)) refl
          fresh r db1 claimed in
      let none_open : open_rows h db2 ≡ 0 =
        ground (arith, closed, unique, Later-Open h later, text_eq_refl h) in
      let (s', _, found, valid) =
        redeem-inv token' h now' (others' db2) (map_get h db2)
          (classify_stored (map_get h db2) now')
          (rotate-inv others' token' presented now' db2 second) in
      let rotated = found_is_rotated h db2 s' found none_open in
      ground (arith, rotated, found, valid)
