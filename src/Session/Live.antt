-- ===== src/Session/Live.antt =====
-- How many tokens of a family can still be redeemed, under the operations on the table.
use mergepay_api.Session.Tokens.{
  refused, commit, redeem, malformed, unknown, expired, revoked, reused, RefreshToken, Tokens,
  cleanup_expired_refresh_tokens, create_token, in_family, is_live, revoke_where,
  IssuedRefreshToken, claim_row, hash_taken, issue_refresh_token, new_row, RefreshError,
  RefreshFailure, revoke_family, classify_stored, is_well_formed_token, rotate_refresh_token,
}
use mergepay_api.Common.{
  >>=-eq-ok, Bool, Bool-cases, Option, Option-cases, Result, Text, [], ap, arith, err, false,
  if◌then◌else◌, inl, inr, is_some, map_get, map_has, map_set, none, not, ok, ok-injective, refl,
  some, sym, throw_if, true, ℕ, ◌&&◌, ◌+◌, ◌∙◌, ◌∷◌, ◌≡◌, ◌≤◌,
}

abbrev pub bit : Bool → ℕ
bit b = if b then 1 else 0

abbrev pub lives_in : Text → RefreshToken → ℕ
lives_in f t = bit (in_family f t && is_live t)

abbrev pub live_count : Text → Tokens → ℕ
live_count f [] = 0
live_count f ((hash, t) ∷ db) = lives_in f t + live_count f db

live_count-set :
    (f h : Text) (t : RefreshToken) (db : Tokens)
    → map_get h db ≡ none
    → live_count f (map_set h t db) ≡ lives_in f t + live_count f db
live_count-set f h t [] e = refl
live_count-set f h t ((k, u) ∷ db) e = ground (arith, live_count-set f h t db)

live_count-replace :
    (f h : Text) (t u : RefreshToken) (db : Tokens)
    → map_get h db ≡ some t
    → live_count f (map_set h u db) + lives_in f t ≡ lives_in f u + live_count f db
live_count-replace f h t u [] e = cc
live_count-replace f h t u ((k, w) ∷ db) e = ground (arith, live_count-replace f h t u db)

live_count-revoke_where :
    (f : Text) (chosen : RefreshToken → Bool) (now : ℕ) (db : Tokens)
    → live_count f (revoke_where chosen now db).1 ≤ live_count f db
unfolding revoke_where
live_count-revoke_where f chosen now [] = ground arith
live_count-revoke_where f chosen now ((k, t) ∷ db) =
    ground (arith, live_count-revoke_where f chosen now db)

live_count-cleanup :
    (f : Text) (now : ℕ) (db : Tokens)
    → live_count f (cleanup_expired_refresh_tokens now db) ≤ live_count f db
unfolding cleanup_expired_refresh_tokens
live_count-cleanup f now [] = ground arith
live_count-cleanup f now ((k, t) ∷ db) = ground (arith, live_count-cleanup f now db)

pub map_get_of_has : (h : Text) (db : Tokens) → map_has h db ≡ false → map_get h db ≡ none
map_get_of_has h db e = elim (Option-cases (map_get h db)) [ inl n ↦ n | inr (t, s) ↦ cc (e, s) ]

-- A row that is created was not there, and is.
pub create_token-inv :
    (h : Text) (t : RefreshToken) (db : Tokens) {db' : Tokens}
    → create_token h t db ≡ ok db'
    → (map_get h db ≡ none) × (map_set h t db ≡ db')
unfolding create_token
create_token-inv h t db {db'} e = elim (Bool-cases (map_has h db)) [
  | inl taken ↦
      let refused : create_token h t db ≡ err hash_taken = rw taken refl in cc (e, refused)
  | inr free ↦
      let made : ok (map_set h t db) ≡ create_token h t db = rw free refl in
      (map_get_of_has h db free, ok-injective (made ∙ e))
]

module _ (hash_token : Text → Text) (ttl : ℕ) where
  -- What a claim that goes through has done: the row was live, and the table has it rotated and
  -- its successor added.
  pub claim_row-inv :
      (token hash : Text) (stored t : RefreshToken) (now : ℕ) (db : Tokens)
      {r : Text × IssuedRefreshToken} {db' : Tokens}
      → claim_row hash_token ttl token hash stored now db (some t) ≡ ok (r, db')
      → (is_live t ≡ true)
        × (map_get (hash_token token) (map_set hash (record t { rotated_at = some now }) db) ≡ none)
        × (map_set
              (hash_token token)
              (new_row hash_token ttl stored.family_id stored.user_id now)
              (map_set hash (record t { rotated_at = some now }) db)
            ≡ db')
  unfolding claim_row issue_refresh_token
  claim_row-inv token hash stored t now db {r} {db'} e =
      let rotated = map_set hash (record t { rotated_at = some now }) db in
      let row = new_row hash_token ttl stored.family_id stored.user_id now in
      let (_, live, e1) = >>=-eq-ok (throw_if (not (is_live t)) (refused reused)) _ e in
      let (issued, ei, e2) =
        >>=-eq-ok
          (issue_refresh_token hash_token ttl token stored.family_id stored.user_id now rotated) _
          e1 in
      let (db2, ec, e3) = >>=-eq-ok (create_token (hash_token token) row rotated) _ ei in
      let (absent, made) = create_token-inv (hash_token token) row rotated ec in
      (
        ground arith,
        absent,
        made ∙ ap (λ x. x.1) (ok-injective e3) ∙ ap (λ x. x.1) (ok-injective e2),
      )

  live_count-claim_row :
      (f token hash : Text) (stored t : RefreshToken) (now : ℕ) (db : Tokens)
      {r : Text × IssuedRefreshToken} {db' : Tokens}
      → map_get hash db ≡ some t
      → t.family_id ≡ stored.family_id
      → claim_row hash_token ttl token hash stored now db (some t) ≡ ok (r, db')
      → live_count f db' ≡ live_count f db
  live_count-claim_row f token hash stored t now db {r} {db'} found same e =
      let (live, absent, made) = claim_row-inv token hash stored t now db e in
      let rotated = record t { rotated_at = some now } in
      let row = new_row hash_token ttl stored.family_id stored.user_id now in
      let grown = live_count-set f (hash_token token) row (map_set hash rotated db) absent in
      let closed = live_count-replace f hash t rotated db found in
      let total : live_count f db'
          ≡ live_count f (map_set (hash_token token) row (map_set hash rotated db)) =
        ap (live_count f) (sym made) in
      ground (arith, total, grown, closed, live, same)

  claim_row-Live :
      (f token hash : Text) (stored : RefreshToken) (now : ℕ) (db : Tokens)
      (o : Option RefreshToken)
      → map_get hash db ≡ o
      → ((t : RefreshToken) → map_get hash db ≡ some t → t.family_id ≡ stored.family_id)
      → (r : Text × IssuedRefreshToken) (db' : Tokens)
      → claim_row hash_token ttl token hash stored now db o ≡ ok (r, db')
      → live_count f db' ≤ live_count f db
  unfolding claim_row
  claim_row-Live f token hash stored now db none found same r db' e = cc e
  claim_row-Live f token hash stored now db (some t) found same r db' e =
      omega (arith, live_count-claim_row f token hash stored t now db found (same t found) e)

  commit-Live :
      (f : Text) (db : Tokens) (x : Result RefreshError ((Text × IssuedRefreshToken) × Tokens))
      → ((r : Text × IssuedRefreshToken) (db' : Tokens)
          → x ≡ ok (r, db')
          → live_count f db' ≤ live_count f db)
      → live_count f (commit hash_token ttl db x).1 ≤ live_count f db
  commit-Live f db (err e) h = ground arith
  commit-Live f db (ok (r, db')) h = h r db' refl

  redeem-Live :
      (f token hash : Text) (now : ℕ) (db : Tokens) (o : Option RefreshToken)
      (failure : Option RefreshFailure)
      → ((s t : RefreshToken) → o ≡ some s → map_get hash db ≡ some t → t.family_id ≡ s.family_id)
      → live_count f (redeem hash_token ttl token hash now db o failure).1 ≤ live_count f db
  unfolding redeem revoke_family
  redeem-Live f token hash now db none failure same = ground arith
  redeem-Live f token hash now db (some s) (some reused) same =
      live_count-revoke_where f (in_family s.family_id) now db
  redeem-Live f token hash now db (some s) (some malformed) same = ground arith
  redeem-Live f token hash now db (some s) (some unknown) same = ground arith
  redeem-Live f token hash now db (some s) (some expired) same = ground arith
  redeem-Live f token hash now db (some s) (some revoked) same = ground arith
  redeem-Live f token hash now db (some s) none same =
      commit-Live f db (claim_row hash_token ttl token hash s now db (map_get hash db))
        (claim_row-Live f token hash s now db (map_get hash db) refl (λ t. same s t refl))

  -- A redemption never raises the number of live tokens in any family, provided that the other
  -- requests have not moved the presented token to another family.
  pub live_count-rotate_refresh_token :
      (others : Tokens → Tokens) (token presented : Text) (now : ℕ) (db : Tokens)
      → ((s t : RefreshToken)
          → map_get (hash_token presented) db ≡ some s
          → map_get (hash_token presented) (others db) ≡ some t
          → t.family_id ≡ s.family_id)
      → (f : Text)
      → live_count f (rotate_refresh_token hash_token ttl others token presented now db).1
        ≤ live_count f (others db)
  unfolding rotate_refresh_token
  live_count-rotate_refresh_token others token presented now db same f =
      let hash = hash_token presented in
      let stored = map_get hash db in
      elim (Bool-cases (is_well_formed_token presented)) [
        | inl formed ↦
            rw formed
              (redeem-Live f token hash now (others db) stored (classify_stored stored now) same)
        | inr ill ↦ rw ill (ground arith)
      ]

  live_count-revoke_family :
      (f : Text) (now : ℕ) (db : Tokens) → live_count f (revoke_family f now db).1 ≡ 0
  unfolding revoke_family revoke_where
  live_count-revoke_family f now [] = refl
  live_count-revoke_family f now ((k, t) ∷ db) = ground (arith, live_count-revoke_family f now db)

  -- Presenting a token that has been rotated before is refused as reuse, and leaves no token in
  -- its family that can be redeemed, whatever other requests commit meanwhile.
  pub reuse_revokes_family :
      (others : Tokens → Tokens) (token presented : Text) (now : ℕ) (db : Tokens) (s : RefreshToken)
      → is_well_formed_token presented ≡ true
      → map_get (hash_token presented) db ≡ some s
      → is_some s.rotated_at ≡ true
      → ((rotate_refresh_token hash_token ttl others token presented now db).0
          ≡ err (refused reused))
        × (live_count s.family_id
              (rotate_refresh_token hash_token ttl others token presented now db).1
            ≡ 0)
  unfolding rotate_refresh_token redeem classify_stored
  reuse_revokes_family others token presented now db s formed found rotated =
      rw (formed, found, rotated) (refl, live_count-revoke_family s.family_id now (others db))
