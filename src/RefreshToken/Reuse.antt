-- ===== src/RefreshToken/Reuse.antt =====
-- A token that was rotated is spent.
use mathlib.Core.Option
use shamarx_app.Prelude.{
  ℕ, ◌≤◌, ◌≡◌, Bool, true, not, ◌&&◌, Option, some, List, String, is_some, if◌then◌else◌,
}
use shamarx_app.RefreshToken.{Row, find_hash, cleanup_expired}
use shamarx_app.RefreshToken.Requests.{Step}

abbrev touched : (Row → Bool) → (Row → Row) → Row → Row
touched test f r = if test r && not (is_some r.revoked_at) then f r else r

-- The first row with the hash is revoked, belongs to the user, and has the expiry.
pub record IsSpent (hash user : String) (expiry : ℕ) (rows : List Row) : Type 0 where
  pub row : Row
  pub found : find_hash hash rows ≡ some row
  pub revoked : is_some row.revoked_at ≡ true
  pub owner : row.user_id ≡ user
  pub expires : row.expires_at ≡ expiry

module _ (sha256 : String → String) where
  -- Requests, and clean-ups at times up to the expiry.
  pub data Calls (expiry : ℕ) (rows : List Row) : List Row → Type 0 where
    none_yet : Calls expiry rows rows
    requested : {q r : List Row} → Calls expiry rows q → Step sha256 q r → Calls expiry rows r
    cleaned :
        {q : List Row} (now : ℕ)
        → Calls expiry rows q
        → now ≤ expiry
        → Calls expiry rows (cleanup_expired now q).0
