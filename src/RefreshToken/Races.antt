-- ===== src/RefreshToken/Races.antt =====
-- Two rotations of one token that have both read the table: one of them wins.
use shamarx_app.Prelude.{
  ℕ, ◌≡◌, refl, sym, subst, Bool, false, Option, some, List, [], ◌∷◌, ◌++◌, String, arith, any,
  ◌is◌, inl, inr,
}
use shamarx_app.RefreshToken.{
  Row, Draw, Issued, Error, ok, err, unauthorized, create, commit, revoke, revoke_all_for_user,
  revoke_where, revoke_row, selects, open_row,
}
use shamarx_app.RefreshToken.Requests.{commit_parts, create_parts, Result-cases}

-- No row with the id of `row` is open.
abbrev IsClosed : Row → List Row → Type 0
IsClosed row rows = any (open_row row) rows ≡ false

any-revoke_self :
    (row : Row) (now : ℕ) (next : Option String) (rows : List Row)
    → IsClosed row (revoke_where (selects row) (revoke_row now next) rows)
unfolding revoke_where
any-revoke_self row now next [] = refl
any-revoke_self row now next (r ∷ rest) = ground (arith, any-revoke_self row now next rest)

any-revoke_where :
    (row : Row) (test : Row → Bool) (now : ℕ) (next : Row → Option String) (rows : List Row)
    → IsClosed row rows
    → IsClosed row (revoke_where test (λ r. revoke_row now (next r) r) rows)
unfolding revoke_where
any-revoke_where row test now next [] h = refl
any-revoke_where row test now next (r ∷ rest) h =
    ground (arith, any-revoke_where row test now next rest)

any-append :
    (row r : Row) (rows : List Row)
    → IsClosed row rows
    → (r.id is row.id) ≡ false
    → IsClosed row (rows ++ r ∷ [])
any-append row r [] h e = ground arith
any-append row r (x ∷ rest) h e = ground (arith, any-append row r rest)

module _ (sha256 : String → String) where
  -- The requests between the two rotations, each with the id of a row that it adds: it is not that of
  -- the row in question, as ids are drawn at random.
  pub data Others (row : Row) (rows : List Row) : List Row → Type 0 where
    here : Others row rows rows
    creates :
        {q r : List Row} (now : ℕ) (user : String) (agent : Option String) (draw : Draw)
        (issued : Issued)
        → Others row rows q
        → (draw.id is row.id) ≡ false
        → create sha256 now user agent draw q ≡ ok (r, issued)
        → Others row rows r
    commits :
        {q r : List Row} (now : ℕ) (other : Row) (agent : Option String) (draw : Draw)
        (issued : Issued)
        → Others row rows q
        → (draw.id is row.id) ≡ false
        → commit sha256 now other agent draw q ≡ (r, ok issued)
        → Others row rows r
    revokes :
        {q r : List Row} (now : ℕ) (presented : String)
        → Others row rows q
        → r ≡ revoke sha256 now presented q
        → Others row rows r
    revokes_all :
        {q r : List Row} (now : ℕ) (user : String)
        → Others row rows q
        → r ≡ revoke_all_for_user now user q
        → Others row rows r

  created-IsClosed :
      (row : Row) (now : ℕ) (user : String) (agent : Option String) (draw : Draw) (issued : Issued)
      (rows rows' : List Row)
      → IsClosed row rows
      → (draw.id is row.id) ≡ false
      → create sha256 now user agent draw rows ≡ ok (rows', issued)
      → IsClosed row rows'
  created-IsClosed row now user agent draw issued rows rows' c e h =
      let (_, grown, _) = create_parts sha256 now user agent draw issued rows rows' h in
      subst (IsClosed row) (sym grown) (any-append row _ rows c e)

  committed-IsClosed :
      (row other : Row) (now : ℕ) (agent : Option String) (draw : Draw) (issued : Issued)
      (rows rows' : List Row)
      → IsClosed row rows
      → (draw.id is row.id) ≡ false
      → commit sha256 now other agent draw rows ≡ (rows', ok issued)
      → IsClosed row rows'
  committed-IsClosed row other now agent draw issued rows rows' c e h =
      let (created, grown, _, same) =
        commit_parts sha256 now other agent draw issued rows rows' h in
      subst (IsClosed row) (sym same) (
        any-revoke_where row (selects other) now (λ _. some issued.id) created
          (created-IsClosed row now other.user_id agent draw issued rows created c e grown))

  -- A row that is revoked stays revoked, whatever requests come.
  Others-IsClosed :
      (row : Row) (rows rows' : List Row)
      → IsClosed row rows
      → Others row rows rows'
      → IsClosed row rows'
  unfolding revoke revoke_all_for_user
  Others-IsClosed row rows rows' c here = c
  Others-IsClosed row rows rows' c (creates now user agent draw issued o e h) =
      created-IsClosed row now user agent draw issued _ rows' (Others-IsClosed row rows _ c o) e h
  Others-IsClosed row rows rows' c (commits now other agent draw issued o e h) =
      committed-IsClosed row other now agent draw issued _ rows' (Others-IsClosed row rows _ c o) e
        h
  Others-IsClosed row rows rows' c (revokes now presented o same) =
      subst (IsClosed row) (sym same)
        (any-revoke_where row _ now (λ r. r.replaced_by_id) _ (Others-IsClosed row rows _ c o))
  Others-IsClosed row rows rows' c (revokes_all now user o same) =
      subst (IsClosed row) (sym same)
        (any-revoke_where row _ now (λ r. r.replaced_by_id) _ (Others-IsClosed row rows _ c o))

  -- Where a commit creates its row and no row of the token is open, it is undone.
  commit-refused :
      (row : Row) (now : ℕ) (agent : Option String) (draw : Draw) (rows : List Row)
      → IsClosed row rows
      → (draw.id is row.id) ≡ false
      → (e : Error) × (commit sha256 now row agent draw rows ≡ (rows, err e))
  unfolding commit
  commit-refused row now agent draw rows c e =
      elim (Result-cases (create sha256 now row.user_id agent draw rows)) [
        | inl (failure, failed) ↦ (failure, ground arith)
        | inr ((created, i), done) ↦
            let closed = created-IsClosed row now row.user_id agent draw i rows created c e done in
            (unauthorized, ground arith)
      ]

  -- Two rotations of one token that have both read its row: if one commits, then whatever requests come
  -- after it, with fresh ids for the rows they add, the other is refused and changes nothing.
  pub commit_once :
      (row : Row) (now now' : ℕ) (agent agent' : Option String) (draw draw' : Draw)
      (issued : Issued) (rows won later : List Row)
      → commit sha256 now row agent draw rows ≡ (won, ok issued)
      → Others row won later
      → (draw'.id is row.id) ≡ false
      → (e : Error) × (commit sha256 now' row agent' draw' later ≡ (later, err e))
  commit_once row now now' agent agent' draw draw' issued rows won later h others fresh =
      let (created, _, _, same) = commit_parts sha256 now row agent draw issued rows won h in
      let closed =
        subst (IsClosed row) (sym same) (any-revoke_self row now (some issued.id) created) in
      commit-refused row now' agent' draw' later (Others-IsClosed row won later closed others) fresh
