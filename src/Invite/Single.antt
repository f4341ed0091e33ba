-- ===== src/Invite/Single.antt =====
-- What an invite admits, and that an address joins once.
use shamarx_app.Prelude.{
  ℕ, ◌≡◌, ◌≢◌, refl, Bool, true, false, not, ◌||◌, Option, none, some, List, [], ◌∷◌, ◌++◌, String,
  ◌is◌, filter, is_some, arith, ap, eq_iff, Option-cases, Bool-cases, inl, inr, ◌⊎◌,
}
use shamarx_app.Invite.{
  User, Invite, Tables, Draw, Outcome, Refusal, done, refused, already_used, has_user, create,
  find_verified, find_by_token, preview, admit, join, accept, revoke, find_id,
}

Outcome-cases {ℓ} :
    {A : Type ℓ} (o : Outcome A) → ((e : Refusal) × (o ≡ refused e)) ⊎ ((a : A) × (o ≡ done a))
Outcome-cases (done a) = inr (a, refl)
Outcome-cases (refused e) = inl (e, refl)

-- What the form of an invite shows.
abbrev pub shown : Outcome Invite → Option (String × ℕ)
shown (done row) = some (row.email, row.expires_at)
shown (refused e) = none

has_user-append :
    (email : String) (us : List User) (u : User)
    → has_user email (us ++ u ∷ []) ≡ (has_user email us || u.email is email)
unfolding has_user
has_user-append email [] u = ground arith
has_user-append email (x ∷ rest) u = ground (arith, has_user-append email rest u)

module _ (verify : String → String → Bool) where
  -- The form of an invite is shown exactly where its acceptance would be admitted at that time, with
  -- the address and the expiry of the invite that would be accepted.
  pub preview-admit :
      (now : ℕ) (presented : String) (db : Tables)
      → preview verify now presented db ≡ shown (admit verify now presented db)
  unfolding preview admit
  preview-admit now presented db = elim (Option-cases (find_by_token verify presented db)) [
    | inl absent ↦ ground arith
    | inr (row, found) ↦ ground arith
  ]

  find_verified-open :
      (presented : String) (rows : List Invite) (row : Invite)
      → find_verified verify presented (filter (λ (r : Invite). not (is_some r.accepted_at)) rows)
        ≡ some row
      → is_some row.accepted_at ≡ false
  unfolding find_verified
  find_verified-open presented [] row h = absurd (ground arith)
  find_verified-open presented (r ∷ rest) row h =
      ground (arith, find_verified-open presented rest row)

  -- An acceptance is never refused with "Invite already used".
  pub accept_never_already_used :
      (bcrypt : String → String) (now : ℕ) (presented password preset user_id : String)
      (db : Tables)
      → (accept verify bcrypt now presented password preset user_id db).1 ≢ refused already_used
  unfolding accept admit join find_by_token
  accept_never_already_used bcrypt now presented password preset user_id db h =
      elim (Option-cases (find_by_token verify presented db)) [
        | inl absent ↦ ground arith
        | inr (row, found) ↦ ground (arith, find_verified-open presented db.invites row)
      ]

module _ (hash normal bcrypt : String → String) (verify : String → String → Bool) where
  -- The calls that change the tables, in any order.
  pub data Reach (db : Tables) : Tables → Type 0 where
    here : Reach db db
    creates :
        {q : Tables} (now : ℕ) (email created_by : String) (days : ℕ) (draw : Draw)
        → Reach db q
        → Reach db (create hash normal now email created_by days draw q).0
    accepts :
        {q : Tables} (now : ℕ) (presented password preset user_id : String)
        → Reach db q
        → Reach db (accept verify bcrypt now presented password preset user_id q).0
    revokes : {q : Tables} (now : ℕ) (id : String) → Reach db q → Reach db (revoke now id q).0

  create-has_user :
      (at : String) (now : ℕ) (email created_by : String) (days : ℕ) (draw : Draw) (db : Tables)
      → has_user at db.users ≡ true
      → has_user at (create hash normal now email created_by days draw db).0.users ≡ true
  unfolding create
  create-has_user at now email created_by days draw db h =
      elim (Bool-cases (has_user (normal email) db.users)) [
        | inl e ↦ ground arith
        | inr e ↦ ground arith
      ]

  accept-has_user :
      (at : String) (now : ℕ) (presented password preset user_id : String) (db : Tables)
      → has_user at db.users ≡ true
      → has_user at (accept verify bcrypt now presented password preset user_id db).0.users ≡ true
  unfolding accept join
  accept-has_user at now presented password preset user_id db h =
      elim (Outcome-cases (admit verify now presented db)) [
        | inl (e, closed) ↦ ground arith
        | inr (row, let_in) ↦ ground (
          arith,
          has_user-append at db.users record {
            id = user_id;
            email = row.email;
            password_hash = bcrypt password;
            preset_key = preset;
            bot_enabled = true;
          },
        )
      ]

  revoke-has_user :
      (at : String) (now : ℕ) (id : String) (db : Tables)
      → has_user at db.users ≡ true
      → has_user at (revoke now id db).0.users ≡ true
  unfolding revoke
  revoke-has_user at now id db h = elim (Option-cases (find_id id db.invites)) [
    | inl e ↦ ground arith
    | inr (row, e) ↦ ground arith
  ]

  -- No call removes a user.
  Reach-has_user :
      (at : String) (db db' : Tables)
      → has_user at db.users ≡ true
      → Reach db db'
      → has_user at db'.users ≡ true
  Reach-has_user at db db' h here = h
  Reach-has_user at db db' h (creates now email created_by days draw reach) =
      create-has_user at now email created_by days draw _ (Reach-has_user at db _ h reach)
  Reach-has_user at db db' h (accepts now presented password preset user_id reach) =
      accept-has_user at now presented password preset user_id _ (Reach-has_user at db _ h reach)
  Reach-has_user at db db' h (revokes now id reach) =
      revoke-has_user at now id _ (Reach-has_user at db _ h reach)

  accepted-has_user :
      (now : ℕ) (presented password preset user_id : String) (db : Tables) (user : User)
      → (accept verify bcrypt now presented password preset user_id db).1 ≡ done user
      → has_user user.email (accept verify bcrypt now presented password preset user_id db).0.users
        ≡ true
  unfolding accept join
  accepted-has_user now presented password preset user_id db user h =
      elim (Outcome-cases (admit verify now presented db)) [
        | inl (e, closed) ↦ absurd (ground arith)
        | inr (row, let_in) ↦
            ground (arith, has_user-append user.email db.users user, eq_iff user.email user.email)
      ]

  admitted-fresh :
      (now : ℕ) (presented : String) (db : Tables) (row : Invite)
      → admit verify now presented db ≡ done row
      → has_user row.email db.users ≡ false
  unfolding admit
  admitted-fresh now presented db row h = elim (Option-cases (find_by_token verify presented db)) [
    | inl absent ↦ absurd (ground arith)
    | inr (r, found) ↦ ground arith
  ]

  -- Once an acceptance made a user, then after any calls every invite that is still admitted is for
  -- another address.
  pub address_joins_once :
      (now : ℕ) (presented password preset user_id : String) (db db' : Tables) (user : User)
      → (accept verify bcrypt now presented password preset user_id db).1 ≡ done user
      → Reach (accept verify bcrypt now presented password preset user_id db).0 db'
      → (later : ℕ) (token : String) (row : Invite) → admit verify later token db' ≡ done row
      → row.email ≢ user.email
  address_joins_once now presented password preset user_id db db' user h reach later token row
        admitted same =
      let there =
        Reach-has_user user.email _ db'
          (accepted-has_user now presented password preset user_id db user h) reach in
      let fresh = admitted-fresh later token db' row admitted in
      ground (arith, ap (λ at. has_user at db'.users) same)
