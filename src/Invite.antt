-- ===== src/Invite.antt =====
-- src/invites/invite.service.ts over the tables of users and invites. The hash functions, the test of
-- a token against its hash, the normal form of an address, the random token and ids and the clock
-- are arguments. `create` and `accept` refuse an address that is in the table of users, by the code's
-- own test.
pub mod Single
use shamarx_app.Prelude.{
  ℕ, ◌+◌, ◌*◌, Bool, true, false, not, ◌&&◌, Option, none, some, List, [], ◌∷◌, ◌++◌, map, String,
  ltb, if◌then◌else◌, ◌is◌, any, filter, is_some,
}

pub record User : Type 0 where
  pub id : String
  pub email : String
  pub password_hash : String
  pub preset_key : String
  pub bot_enabled : Bool

pub record Invite : Type 0 where
  pub id : String
  pub email : String
  pub token_hash : String
  pub created_by_id : String
  pub expires_at : ℕ
  pub accepted_at : Option ℕ

pub record Tables : Type 0 where
  pub users : List User
  pub invites : List Invite

pub data Refusal : Type 0 where
  invalid already_used expired user_exists not_found : Refusal

pub data Outcome {ℓ} (A : Type ℓ) : Type ℓ where
  done : A → Outcome A
  refused : Refusal → Outcome A

pub data Status : Type 0 where
  accepted pending lapsed : Status

unfoldable pub has_user : String → List User → Bool
has_user email = any (λ u. u.email is email)

pub find_id : String → List Invite → Option Invite
find_id id [] = none
find_id id (row ∷ rest) = if row.id is id then some row else find_id id rest

unfoldable pub set_where : String → (Invite → Invite) → List Invite → List Invite
set_where id f = map λ row. if row.id is id then f row else row

-- The id of a new row, and the new token.
pub record Draw : Type 0 where
  pub id : String
  pub token : String

module _ (hash : String → String) (normal : String → String) where
  -- `create`, with the token that is mailed.
  unfoldable pub create :
      ℕ → String → String → ℕ → Draw → Tables → Tables × Outcome (Invite × String)
  create now email created_by days draw db =
      let row : Invite = record {
        id = draw.id;
        email = normal email;
        token_hash = hash draw.token;
        created_by_id = created_by;
        expires_at = now + days * 24 * 60 * 60 * 1000;
        accepted_at = none;
      } in
      if has_user (normal email) db.users
      then (db, refused user_exists)
      else (record db { invites = db.invites ++ row ∷ [] }, done (row, draw.token))

module _ (verify : String → String → Bool) where
  -- The first row of those that the test takes.
  unfoldable pub find_verified : String → List Invite → Option Invite
  find_verified presented [] = none
  find_verified presented (row ∷ rest) =
      if verify row.token_hash presented then some row else find_verified presented rest

  -- `findByToken`: among the invites that are not accepted.
  unfoldable pub find_by_token : String → Tables → Option Invite
  find_by_token presented db =
      find_verified presented (filter (λ (row : Invite). not (is_some row.accepted_at)) db.invites)

  pub preview : ℕ → String → Tables → Option (String × ℕ)
  preview now presented db = elim (find_by_token presented db) [
    | none ↦ none
    | some row ↦
        if is_some row.accepted_at
        then none
        else if ltb row.expires_at now
        then none
        else if has_user row.email db.users
        then none
        else some (row.email, row.expires_at)
  ]

  -- The tests of `accept`, before it writes.
  unfoldable pub admit : ℕ → String → Tables → Outcome Invite
  admit now presented db = elim (find_by_token presented db) [
    | none ↦ refused invalid
    | some row ↦
        if is_some row.accepted_at
        then refused already_used
        else if ltb row.expires_at now
        then refused expired
        else if has_user row.email db.users
        then refused user_exists
        else done row
  ]

  -- The transaction of `accept`: the new user, and the invite marked.
  unfoldable pub join :
      (String → String) → ℕ → String → String → String → Invite → Tables → Tables × User
  join bcrypt now password preset user_id row db =
      let user : User = record {
        id = user_id;
        email = row.email;
        password_hash = bcrypt password;
        preset_key = preset;
        bot_enabled = true;
      } in
      (
        record {
          users = db.users ++ user ∷ [];
          invites = set_where row.id (λ r. record r { accepted_at = some now }) db.invites;
        },
        user,
      )

  unfoldable pub accept :
      (String → String) → ℕ → String → String → String → String → Tables → Tables × Outcome User
  accept bcrypt now presented password preset user_id db = elim (admit now presented db) [
    | refused e ↦ (db, refused e)
    | done row ↦
        let (db', user) = join bcrypt now password preset user_id row db in (db', done user)
  ]

-- `revoke`: the invite expires now.
pub revoke : ℕ → String → Tables → Tables × Outcome Bool
revoke now id db = elim (find_id id db.invites) [
  | none ↦ (db, refused not_found)
  | some row ↦ (
    record db { invites = set_where id (λ r. record r { expires_at = now }) db.invites },
    done true,
  )
]

-- The status of a row in `list`.
pub status_of : ℕ → Invite → Status
status_of now row =
    if is_some row.accepted_at then accepted else if ltb row.expires_at now then lapsed else pending

-- `list`: the rows, in the order of the query, with their status.
pub list_invites : ℕ → List Invite → List (Invite × Status)
list_invites now rows = map (λ row. (row, status_of now row)) rows
