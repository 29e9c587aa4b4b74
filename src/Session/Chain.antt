-- ===== src/Session/Chain.antt =====
-- A session that is refreshed in time: every successor of a token is redeemed in its turn.
use mergepay_api.Session.Tokens.{
  redeem, IssuedRefreshToken, RefreshError, RefreshToken, Tokens, claim_row, classify_stored,
  create_token, is_live, is_well_formed_token, issue_refresh_token, new_row, rotate_refresh_token,
}
use mergepay_api.Common.{
  List, Result, Text, [], ap, arith, false, is_some, leb, map_get, map_get-set, map_set, none, ok,
  refl, some, text_eq_iff, text_eq_refl, true, ℕ, ◌+◌, ◌<◌, ◌∙◌, ◌∷◌, ◌≡◌,
}

-- A request for a new token: what other requests commit while it runs, the token that it draws, and
-- its time.
pub record Refresh : Type 0 where
  pub others : Tokens → Tokens
  pub token : Text
  pub now : ℕ

module _ (hash_token : Text → Text) (ttl : ℕ) where
  abbrev refreshed :
      Text → Tokens → Refresh → Result RefreshError (Text × IssuedRefreshToken) × Tokens
  refreshed presented db q = rotate_refresh_token hash_token ttl q.others q.token presented q.now db

  -- Each request presents the token that the one before it has issued, before it expires, and draws
  -- a new well-formed one; what runs beside it does not touch the row of the presented token.
  abbrev pub InTime : Tokens → Text → ℕ → List Refresh → Type 0
  InTime db presented expires_at [] = Unit {0}
  InTime db presented expires_at (q ∷ qs) =
      (q.now < expires_at)
      × (is_well_formed_token q.token ≡ true)
      × (map_get (hash_token presented) (q.others db) ≡ map_get (hash_token presented) db)
      × (map_get (hash_token q.token) (q.others db) ≡ none)
      × InTime (refreshed presented db q).1 q.token (q.now + ttl) qs

  -- Each request is answered with the token it has drawn, for the user and in the family, and the
  -- last token's row is live.
  abbrev pub AllRedeemed : Text → Text → Tokens → Text → List Refresh → Type 0
  AllRedeemed user family db presented [] =
      (t : RefreshToken) × (map_get (hash_token presented) db ≡ some t)
      × (is_live t ≡ true)
      × (t.user_id ≡ user)
      × (t.family_id ≡ family)
  AllRedeemed user family db presented (q ∷ qs) =
      ((refreshed presented db q).0
        ≡ ok (user, record { token = q.token; expires_at = q.now + ttl; family_id = family }))
      × AllRedeemed user family (refreshed presented db q).1 q.token qs

  valid_token_redeemed :
      (others : Tokens → Tokens) (token presented : Text) (now : ℕ) (db : Tokens) (s : RefreshToken)
      → is_well_formed_token presented ≡ true
      → map_get (hash_token presented) db ≡ some s
      → map_get (hash_token presented) (others db) ≡ some s
      → is_live s ≡ true
      → now < s.expires_at
      → map_get (hash_token token) (others db) ≡ none
      → rotate_refresh_token hash_token ttl others token presented now db ≡ (
        ok (s.user_id, record { token = token; expires_at = now + ttl; family_id = s.family_id }),
        map_set
            (hash_token token)
            (new_row hash_token ttl s.family_id s.user_id now)
            (map_set (hash_token presented) (record s { rotated_at = some now }) (others db)),
      )
  unfolding rotate_refresh_token redeem classify_stored claim_row issue_refresh_token create_token
  valid_token_redeemed others token presented now db s formed found found' live early absent =
      let h = hash_token presented in
      let rotated = record s { rotated_at = some now } in
      let not_rotated : is_some s.rotated_at ≡ false = ground arith in
      let not_revoked : is_some s.revoked_at ≡ false = ground arith in
      let not_expired : leb s.expires_at now ≡ false = ground arith in
      let new : map_get (hash_token token) (map_set h rotated (others db)) ≡ none = ground (
        arith,
        map_get-set h (hash_token token) rotated (others db),
        text_eq_iff h (hash_token token),
        found',
        absent,
      ) in
      rw
        (
          formed, found, not_rotated, not_revoked, not_expired, redeem, found', claim_row,
          not_rotated, not_revoked, issue_refresh_token, create_token, new,
        )
        refl

  -- A session whose token is known and live goes on as long as it is refreshed in time: every
  -- request of a sequence of any length, each with the token that the one before it has issued, is
  -- redeemed for the same user and family, whatever runs beside it that leaves the presented row
  -- alone, and the token that the last one has issued is live.
  pub session_goes_on :
      (qs : List Refresh) (presented : Text) (db : Tokens) (s : RefreshToken)
      → is_well_formed_token presented ≡ true
      → map_get (hash_token presented) db ≡ some s
      → is_live s ≡ true
      → InTime db presented s.expires_at qs
      → AllRedeemed s.user_id s.family_id db presented qs
  session_goes_on [] presented db s formed found live h = (s, found, live, refl, refl)
  session_goes_on (q ∷ qs) presented db s formed found live (early, drawn, kept, absent, h) =
      let row = new_row hash_token ttl s.family_id s.user_id q.now in
      let old =
        map_set (hash_token presented) (record s { rotated_at = some q.now }) (q.others db) in
      let step =
        valid_token_redeemed q.others q.token presented q.now db s formed found (kept ∙ found) live
          early absent in
      let stored : map_get (hash_token q.token) (map_set (hash_token q.token) row old) ≡ some row =
        ground (
          arith,
          map_get-set (hash_token q.token) (hash_token q.token) row old,
          text_eq_refl (hash_token q.token),
        ) in
      (
        ap (λ x. x.0) step,
        session_goes_on qs q.token (refreshed presented db q).1 row drawn
            (ap (λ x. map_get (hash_token q.token) x.1) step ∙ stored) refl h,
      )
