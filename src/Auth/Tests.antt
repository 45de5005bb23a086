-- ===== src/Auth/Tests.antt =====
-- Runs of the rate limiter, the sessions and the counters at concrete inputs.
use glados_docker.Common.{
  Option, String, [], arith, get, none, put, refl, remove, some, ◌*◌, ◌+◌, ◌∷◌, ◌≡◌, ◌≤◌,
}
use glados_docker.Auth.RateLimit.{Bucket, TokenBucket, allow, refill, take_token}
use glados_docker.Auth.RateLimit.Bound.{Before, calls_of, calls_of_bound}
use glados_docker.Auth.Sessions.{
  AuthDb, IsSound, Login, Payload, Signer, create, flush_last_used, list_active, new_row,
  payload_of, revoke, revoke_all_for_user, verify,
}
use glados_docker.Auth.Sessions.Validity.{verify-create}
use glados_docker.Auth.Sessions.Revocation.{
  create_op, flush_op, revoke_all_op, revoked_forever, run, verify_op,
}
use glados_docker.Auth.UserState.{attempts}
use glados_docker.Auth.Permissions.{user_has_perm}

program : Unit {0}
unfolding allow take_token refill calls_of create verify revoke revoke_all_for_user flush_last_used
    list_active attempts get put remove user_has_perm
program = tt

abbrev bucket : Bucket
bucket = record { credit = 20; debt = 0; last = 100 }

-- Two calls in ten ticks.
abbrev limiter : TokenBucket
limiter = record { capacity = 2; window = 10; state = ("1.2.3.4", bucket) ∷ [] }

burst : (calls_of "1.2.3.4" (100 ∷ 101 ∷ 102 ∷ 110 ∷ []) limiter).0 ≡ 3
unfolding program
burst = refl

stored_bucket : get "1.2.3.4" limiter.state ≡ some bucket
unfolding program
stored_bucket = refl

-- A call whose time was read before that of the call it follows.
times_end : Before 110 (103 ∷ 101 ∷ 102 ∷ 110 ∷ [])
times_end = (omega arith, (omega arith, (omega arith, (omega arith, tt))))

calls_of_bound_example :
    (calls_of "1.2.3.4" (103 ∷ 101 ∷ 102 ∷ 110 ∷ []) limiter).0 * 10 + (0 + 100 * 2) ≤ 20 + 110 * 2
calls_of_bound_example =
    calls_of_bound "1.2.3.4" (103 ∷ 101 ∷ 102 ∷ 110 ∷ []) 110 limiter bucket stored_bucket times_end
      (omega arith)

-- A signer whose tokens are the session's identifier, marked.
abbrev read_token : String → Option Payload
read_token String.[] = none
read_token (String.◌∷◌ c s) = some (record { sid = s; user = "eve"; iat = 7 })

abbrev plain_signer : Signer
plain_signer = record { dumps = λ p. "+s1"; loads = read_token }

abbrev login : Login
login = record {
  username = "eve";
  role = "chat";
  remote_addr = "";
  user_agent = "browser";
  expires_at = some 50;
  auth_method = "password";
}

abbrev empty_db : AuthDb
empty_db = record { rows = []; last_used = [] }

abbrev db_after : AuthDb
db_after = (create plain_signer "s1" 7 login empty_db).1

accepted : (verify plain_signer "+s1" 20 db_after).0 ≡ some (new_row "s1" 7 login)
unfolding program
accepted = refl

expired_token : (verify plain_signer "+s1" 51 db_after).0 ≡ none
unfolding program
expired_token = refl

revoked_forever_example :
    (verify plain_signer "+s1" 30 (
      run plain_signer
        (revoke "s1" 21 db_after)
        (create_op "s2" 22 login ∷ verify_op "+s2" 23 ∷ flush_op ∷ revoke_all_op "eve" 24 ∷ []))).0
    ≡ none
revoked_forever_example =
    revoked_forever plain_signer "+s1" (record { sid = "s1"; user = "eve"; iat = 7 }) 21 30 db_after
      (create_op "s2" 22 login ∷ verify_op "+s2" 23 ∷ flush_op ∷ revoke_all_op "eve" 24 ∷ []) refl
      refl

signer-IsSound : IsSound plain_signer (payload_of "s1" 7 login)
signer-IsSound = record { loads-dumps = refl; dumps-ne_empty = refl }

verify-create_example :
    (let (token, db') = create plain_signer "s1" 7 login empty_db in
      (verify plain_signer token 50 db').0 ≡ some (new_row "s1" 7 login))
verify-create_example = verify-create plain_signer "s1" 7 50 login empty_db signer-IsSound refl refl

abbrev chat : String
chat = "chat"
