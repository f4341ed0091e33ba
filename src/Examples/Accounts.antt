-- ===== src/Examples/Accounts.antt =====
-- The theorems on refresh tokens, invites and the circuit breaker.
use shamarx_app.Prelude.{
  ◌≡◌, ◌≢◌, refl, ◌+◌, none, some, true, false, Bool, if◌then◌else◌, ◌is◌, List, [], ◌∷◌, String,
}
use shamarx_app.Double.{num}
use shamarx_app.Double.Fixed.{Fixed, fixed_double}
use shamarx_app.RefreshToken.{
  Row, Draw, Issued, Error, err, commit, create, find_hash, revoke, revoke_where, refresh_ttl_ms,
}
use shamarx_app.RefreshToken.Requests
use shamarx_app.RefreshToken.Reuse
use shamarx_app.RefreshToken.Races
use shamarx_app.RefreshToken.Races.{commit_once}
use shamarx_app.Invite
use shamarx_app.Invite.Single
use shamarx_app.Invite.Single.{preview-admit, accept_never_already_used, address_joins_once}
use shamarx_app.CircuitBreaker.{
  BreakerState, Service, get_state, read_state, check_once, is_tripped,
}
use shamarx_app.CircuitBreaker.Latch
use shamarx_app.CircuitBreaker.Latch.{tripped_until_reset, KeepsFlag}

-- A hash that keeps its text.
abbrev plain : String → String
plain text = text

abbrev row : Row
row = record {
  id = "a";
  user_id = "ann";
  token_hash = "t1";
  expires_at = 1000;
  revoked_at = none;
  replaced_by_id = none;
  user_agent = none;
}

abbrev draw : Draw
draw = record { id = "b"; token = "t2" }

abbrev issued : Issued
issued = record { id = "b"; token = "t2"; user_id = "ann" }

abbrev rotated : List Row
rotated =
    record row { revoked_at = some 500; replaced_by_id = some "b" }
    ∷ record {
      id = "b";
      user_id = "ann";
      token_hash = "t2";
      expires_at = 500 + refresh_ttl_ms;
      revoked_at = none;
      replaced_by_id = none;
      user_agent = none;
    }
    ∷ []

commit_once_example :
    (e : Error) × (commit plain 600 row none
        record { id = "c"; token = "t3" }
        (revoke plain 550 "t2" rotated)
      ≡ (revoke plain 550 "t2" rotated, err e))
unfolding commit create find_hash revoke_where
commit_once_example =
    commit_once plain row 500 600 none none draw record { id = "c"; token = "t3" } issued (row ∷ [])
      rotated (revoke plain 550 "t2" rotated) refl (Races.revokes 550 "t2" Races.here refl) refl

-- The test of a token against its hash.
abbrev same_text : String → String → Bool
same_text hash presented = hash is presented

abbrev bob : Invite.Invite
bob = record {
  id = "j";
  email = "bob@x";
  token_hash = "u";
  created_by_id = "root";
  expires_at = 1000;
  accepted_at = none;
}

abbrev invited : Invite.Tables
invited = record {
  users = [];
  invites =
      record {
        id = "i";
        email = "ann@x";
        token_hash = "t";
        created_by_id = "root";
        expires_at = 1000;
        accepted_at = none;
      }
      ∷ bob
      ∷ [];
}

abbrev ann : Invite.User
ann = record {
  id = "1";
  email = "ann@x";
  password_hash = "p";
  preset_key = "BALANCED";
  bot_enabled = true;
}

accept_never_already_used_example :
    (Invite.accept same_text plain 10 "t" "p" "BALANCED" "1" invited).1
    ≢ Invite.refused Invite.already_used
accept_never_already_used_example =
    accept_never_already_used same_text plain 10 "t" "p" "BALANCED" "1" invited

-- Ann joins, then Bob is still admitted.
address_joins_once_example : bob.email ≢ ann.email
unfolding Invite.accept Invite.admit Invite.join Invite.find_by_token Invite.find_verified
    Invite.has_user Invite.set_where
address_joins_once_example =
    address_joins_once plain plain plain same_text 10 "t" "p" "BALANCED" "1" invited
      (Invite.accept same_text plain 10 "t" "p" "BALANCED" "1" invited).0 ann refl
      Invite.Single.here 20 "u" bob refl

-- JSON that keeps the flag only.
abbrev flag_text : BreakerState Fixed → String
flag_text st = if st.tripped then "1" else "0"

abbrev from_text : String → BreakerState Fixed
from_text text = record {
  tripped = text is "1";
  tripped_at = none;
  rolling_pnl = num 0;
  threshold = num 0;
}

flag-from_text : (b : Bool) → (from_text (if b then "1" else "0")).tripped ≡ b
flag-from_text true = refl
flag-from_text false = refl

flag-nonempty : (b : Bool) → ((if b then "1" else "0") is "") ≡ false
flag-nonempty true = refl
flag-nonempty false = refl

flag_text-kept : KeepsFlag flag_text from_text
flag_text-kept = record {
  keeps = λ st. flag-from_text st.tripped;
  nonempty = λ st. flag-nonempty st.tripped;
}

-- After a restart.
abbrev restarted : Service Fixed
restarted = record { stored = some "1"; cached = none }

tripped_until_reset_example :
    ((is_tripped flag_text from_text true restarted).1 ≡ true)
    × ((check_once flag_text from_text
          (λ pnls. none)
          (num 15)
          0
          []
          []
          ("root@x" ∷ [])
          restarted).1.tripped
        ≡ true)
    × ((check_once flag_text from_text (λ pnls. none) (num 15) 0 [] [] ("root@x" ∷ []) restarted).2
        ≡ [])
unfolding get_state read_state
tripped_until_reset_example =
    tripped_until_reset flag_text from_text flag_text-kept restarted restarted (Latch.empty refl)
      refl Latch.here (λ pnls. none) (num 15) 0 [] [] ("root@x" ∷ [])
