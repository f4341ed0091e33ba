-- ===== src/RefreshToken.antt =====
-- src/auth/refresh-token.service.ts over the table of libs/prisma/schema.prisma. SHA-256, the random
-- tokens and ids and the clock are arguments. `create` refuses a token hash that is in the table, as
-- the unique index does. A rotation reads the table, `check`, and writes it later, `commit`, so that
-- other requests may come between.
pub mod Requests
pub mod Reuse
pub mod Races
use shamarx_app.Prelude.{
  ℕ, ◌+◌, ◌≡◌, Bool, true, false, not, ◌&&◌, ◌||◌, Option, none, some, List, [], ◌∷◌, ◌++◌, map,
  String, ltb, if◌then◌else◌, ◌is◌, any, filter, is_some, length, ◌-◌,
}

pub record Row : Type 0 where
  pub id : String
  pub user_id : String
  pub token_hash : String
  pub expires_at : ℕ
  pub revoked_at : Option ℕ
  pub replaced_by_id : Option String
  pub user_agent : Option String

pub data Error : Type 0 where
  unauthorized conflict : Error

pub data Result {ℓ} (A : Type ℓ) : Type ℓ where
  ok : A → Result A
  err : Error → Result A

pub record Issued : Type 0 where
  pub id : String
  pub token : String
  pub user_id : String

-- The random values of one call: the id of the new row and the new token.
pub record Draw : Type 0 where
  pub id : String
  pub token : String

-- Seven days in milliseconds.
abbrev pub refresh_ttl_ms : ℕ
refresh_ttl_ms = 604800000

unfoldable pub find_hash : String → List Row → Option Row
find_hash hash [] = none
find_hash hash (r ∷ rest) = if r.token_hash is hash then some r else find_hash hash rest

-- `updateMany` of the rows that a test selects and that are not revoked.
abbrev pub revoke_row : ℕ → Option String → Row → Row
revoke_row now next r = record r { revoked_at = some now; replaced_by_id = next }

unfoldable pub revoke_where : (Row → Bool) → (Row → Row) → List Row → List Row
revoke_where test f = map λ r. if test r && not (is_some r.revoked_at) then f r else r

abbrev pub with_revoked : ℕ → Row → Row
with_revoked now r = record r { revoked_at = some now }

pub revoke_all_for_user : ℕ → String → List Row → List Row
revoke_all_for_user now user = revoke_where (λ r. r.user_id is user) (with_revoked now)

abbrev pub selects : Row → Row → Bool
selects row r = r.id is row.id

abbrev pub open_row : Row → Row → Bool
open_row row r = selects row r && not (is_some r.revoked_at)

module _ (sha256 : String → String) where
  abbrev pub new_row : ℕ → String → Option String → Draw → Row
  new_row now user agent draw = record {
    id = draw.id;
    user_id = user;
    token_hash = sha256 draw.token;
    expires_at = now + refresh_ttl_ms;
    revoked_at = none;
    replaced_by_id = none;
    user_agent = agent;
  }

  unfoldable pub create : ℕ → String → Option String → Draw → List Row → Result (List Row × Issued)
  create now user agent draw rows = elim (find_hash (sha256 draw.token) rows) [
    | some r ↦ err conflict
    | none ↦ ok (
      rows ++ new_row now user agent draw ∷ [],
      record { id = draw.id; token = draw.token; user_id = user },
    )
  ]

  pub issue : ℕ → String → Option String → Draw → List Row → Result (List Row × Issued)
  unfolding create
  issue = create

  -- The first half of `rotate`: the table and the row, or the refusal. A revoked token that is
  -- presented again revokes all tokens of its user.
  unfoldable pub check : ℕ → String → List Row → List Row × Result Row
  check now presented rows = elim (find_hash (sha256 presented) rows) [
    | none ↦ (rows, err unauthorized)
    | some r ↦
        if is_some r.revoked_at
        then (revoke_all_for_user now r.user_id rows, err unauthorized)
        else if ltb r.expires_at now
        then (rows, err unauthorized)
        else (rows, ok r)
  ]

  -- The transaction of `rotate`: the new row, and the old one revoked. If no row was revoked, another
  -- rotation came first, and the transaction is undone.
  unfoldable pub commit : ℕ → Row → Option String → Draw → List Row → List Row × Result Issued
  commit now row agent draw rows = elim (create now row.user_id agent draw rows) [
    | err e ↦ (rows, err e)
    | ok (created, issued) ↦
        if any (open_row row) created
        then (revoke_where (selects row) (revoke_row now (some issued.id)) created, ok issued)
        else (rows, err unauthorized)
  ]

  -- `rotate` where no other request comes between its halves.
  unfoldable pub rotate : ℕ → String → Option String → Draw → List Row → List Row × Result Issued
  rotate now presented agent draw rows =
      let (rows', found) = check now presented rows in
      elim found [ err e ↦ (rows', err e) | ok row ↦ commit now row agent draw rows' ]

  unfoldable pub revoke : ℕ → String → List Row → List Row
  revoke now presented = revoke_where (λ r. r.token_hash is sha256 presented) (with_revoked now)

-- The table without the expired rows, and their number.
pub cleanup_expired : ℕ → List Row → List Row × ℕ
cleanup_expired now rows = (
  filter (λ (r : Row). not (ltb r.expires_at now)) rows,
  length (filter (λ (r : Row). ltb r.expires_at now) rows),
)
