-- ===== src/RefreshToken/Requests.antt =====
-- The requests that change the table of refresh tokens, in any order.
use shamarx_app.Prelude.{
  ℕ, ◌≡◌, ◌⊎◌, refl, Bool-cases, true, Option, none, some, List, [], ◌∷◌, ◌++◌, String, arith, any,
  Option-cases, inl, inr,
}
use shamarx_app.RefreshToken.{
  Row, Draw, Issued, Result, Error, ok, err, find_hash, create, commit, revoke, revoke_all_for_user,
  revoke_where, revoke_row, selects, open_row, new_row,
}

pub Result-cases {ℓ} :
    {A : Type ℓ} (r : Result A) → ((e : Error) × (r ≡ err e)) ⊎ ((a : A) × (r ≡ ok a))
Result-cases (ok a) = inr (a, refl)
Result-cases (err e) = inl (e, refl)

module _ (sha256 : String → String) where
  -- One request that succeeds: a log-in, the transaction of a rotation, a log-out, or the revocation
  -- of all tokens of a user.
  pub data Step (rows rows' : List Row) : Type 0 where
    creates :
        (now : ℕ) (user : String) (agent : Option String) (draw : Draw) (issued : Issued)
        → create sha256 now user agent draw rows ≡ ok (rows', issued)
        → Step rows rows'
    commits :
        (now : ℕ) (row : Row) (agent : Option String) (draw : Draw) (issued : Issued)
        → commit sha256 now row agent draw rows ≡ (rows', ok issued)
        → Step rows rows'
    revokes :
        (now : ℕ) (presented : String) → rows' ≡ revoke sha256 now presented rows → Step rows rows'
    revokes_all :
        (now : ℕ) (user : String) → rows' ≡ revoke_all_for_user now user rows → Step rows rows'

  pub data Reach (rows : List Row) : List Row → Type 0 where
    here : Reach rows rows
    next : {q r : List Row} → Reach rows q → Step q r → Reach rows r

  -- What `commit` does where it succeeds: it adds a row and revokes.
  pub commit_parts :
      (now : ℕ) (row : Row) (agent : Option String) (draw : Draw) (issued : Issued)
      (rows rows' : List Row)
      → commit sha256 now row agent draw rows ≡ (rows', ok issued)
      → (created : List Row) × (create sha256 now row.user_id agent draw rows
          ≡ ok (created, issued))
        × (any (open_row row) created ≡ true)
        × (rows' ≡ revoke_where (selects row) (revoke_row now (some issued.id)) created)
  unfolding commit
  commit_parts now row agent draw issued rows rows' h =
      elim (Result-cases (create sha256 now row.user_id agent draw rows)) [
        | inl (e, failed) ↦ absurd (ground arith)
        | inr ((created, i), done) ↦ elim (Bool-cases (any (open_row row) created)) [
          | inl some_open ↦ (created, ground arith, some_open, ground arith)
          | inr none_open ↦ absurd (ground arith)
        ]
      ]

  -- The row that `create` adds.
  pub create_parts :
      (now : ℕ) (user : String) (agent : Option String) (draw : Draw) (issued : Issued)
      (rows rows' : List Row)
      → create sha256 now user agent draw rows ≡ ok (rows', issued)
      → (find_hash (sha256 draw.token) rows ≡ none)
        × (rows' ≡ rows ++ new_row sha256 now user agent draw ∷ [])
        × (issued ≡ record { id = draw.id; token = draw.token; user_id = user })
  unfolding create
  create_parts now user agent draw issued rows rows' h =
      elim (Option-cases (find_hash (sha256 draw.token) rows)) [
        | inl absent ↦ ground arith
        | inr (r, present) ↦ absurd (ground arith)
      ]
