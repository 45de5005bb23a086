-- ===== src/Auth/Sessions.antt =====
-- glados/auth/sessions.py: login sessions. A session is a row of the table auth_sessions and a
-- signed cookie that names it. The table is the list of its rows in the order of insertion; each
-- method takes the reading of the clock that it makes, in seconds.
pub mod Validity
pub mod Revocation
use glados_docker.Common.{
  Bool, Dict, List, Option, String, [], false, find_first, get, if◌then◌else◌, is_some, keep, leb,
  length, ltb, map, none, not, or_else, put, some, str_eq, take_text, true, ℕ, ◌&&◌, ◌++◌, ◌∷◌, ◌≡◌,
}

pub record Row : Type 0 where
  pub session_id : String
  pub username : String
  pub role_at_issue : String
  pub created_at : ℕ
  pub last_used_at : ℕ
  pub expires_at : Option ℕ
  pub revoked_at : Option ℕ
  pub user_agent : String
  pub remote_addr : String
  pub auth_method : String

-- The payload of a cookie: `sid`, `u` and `iat`.
pub record Payload : Type 0 where
  pub sid : String
  pub user : String
  pub iat : ℕ

-- What the signing library does: `none` is `BadSignature`, or a payload that is no dictionary.
pub record Signer : Type 0 where
  pub dumps : Payload → String
  pub loads : String → Option Payload

-- The library's promise for a payload: its token reads back as the payload, and is not empty.
pub record IsSound (signer : Signer) (p : Payload) : Type 0 where
  pub loads-dumps : signer.loads (signer.dumps p) ≡ some p
  pub dumps-ne_empty : str_eq (signer.dumps p) "" ≡ false

-- The table, and `_last_used`.
pub record AuthDb : Type 0 where
  pub rows : List Row
  pub last_used : Dict ℕ

pub record Login : Type 0 where
  pub username : String
  pub role : String
  pub remote_addr : String
  pub user_agent : String
  pub expires_at : Option ℕ
  pub auth_method : String

abbrev pub new_row : String → ℕ → Login → Row
new_row sid now l = record {
  session_id = sid;
  username = l.username;
  role_at_issue = l.role;
  created_at = now;
  last_used_at = now;
  expires_at = l.expires_at;
  revoked_at = none;
  user_agent = take_text 500 l.user_agent;
  remote_addr = l.remote_addr;
  auth_method = l.auth_method;
}

abbrev pub payload_of : String → ℕ → Login → Payload
payload_of sid now l = record { sid = sid; user = l.username; iat = now }

-- `sid` is the identifier that `uuid.uuid4()` draws.
unfoldable pub create : Signer → String → ℕ → Login → AuthDb → String × AuthDb
create signer sid now l db =
    (signer.dumps (payload_of sid now l), record db { rows = db.rows ++ new_row sid now l ∷ [] })

abbrev pub has_sid : String → Row → Bool
has_sid sid row = str_eq row.session_id sid

abbrev is_past : ℕ → Option ℕ → Bool
is_past now none = false
is_past now (some t) = ltb t now

-- The tests of `verify` on the row that the query finds.
abbrev pub is_live : ℕ → Row → Bool
is_live now row = not (is_some row.revoked_at) && not (is_past now row.expires_at)

unfoldable pub record_last_used : String → ℕ → AuthDb → AuthDb
record_last_used sid ts db =
    if ltb (or_else (get sid db.last_used) 0) ts
    then record db { last_used = put sid ts db.last_used }
    else db

abbrev pub verify_row : String → ℕ → AuthDb → Option Row → Option Row × AuthDb
verify_row sid now db none = (none, db)
verify_row sid now db (some row) =
    if is_live now row then (some row, record_last_used sid now db) else (none, db)

abbrev pub verify_payload : ℕ → AuthDb → Option Payload → Option Row × AuthDb
verify_payload now db none = (none, db)
verify_payload now db (some p) =
    if str_eq p.sid ""
    then (none, db)
    else verify_row p.sid now db (find_first (has_sid p.sid) db.rows)

-- The row, if the token is valid.
unfoldable pub verify : Signer → String → ℕ → AuthDb → Option Row × AuthDb
unfolding record_last_used
verify signer token now db =
    if str_eq token "" then (none, db) else verify_payload now db (signer.loads token)

-- `UPDATE auth_sessions SET last_used_at=? WHERE session_id=?`
abbrev pub use_at : String → ℕ → Row → Row
use_at sid ts row = if has_sid sid row then record row { last_used_at = ts } else row

unfoldable pub flush_rows : Dict ℕ → List Row → List Row
flush_rows [] rows = rows
flush_rows ((sid, ts) ∷ snapshot) rows = flush_rows snapshot (map (use_at sid ts) rows)

unfoldable pub flush_last_used : AuthDb → AuthDb
unfolding flush_rows
flush_last_used db = record { rows = flush_rows db.last_used db.rows; last_used = [] }

-- `UPDATE auth_sessions SET revoked_at=? WHERE … AND revoked_at IS NULL`, on one row.
abbrev pub revoke_row : (Row → Bool) → ℕ → Row → Row
revoke_row p now row =
    if p row && not (is_some row.revoked_at) then record row { revoked_at = some now } else row

unfoldable pub revoke : String → ℕ → AuthDb → AuthDb
revoke sid now db = record db { rows = map (revoke_row (has_sid sid) now) db.rows }

abbrev pub of_user : String → Row → Bool
of_user username row = str_eq row.username username

abbrev pub is_unrevoked : Row → Bool
is_unrevoked row = not (is_some row.revoked_at)

-- The number is the cursor's `rowcount`.
unfoldable pub revoke_all_for_user : String → ℕ → AuthDb → ℕ × AuthDb
revoke_all_for_user username now db = (
  length (keep (λ row. of_user username row && is_unrevoked row) db.rows),
  record db { rows = map (revoke_row (of_user username) now) db.rows },
)

abbrev pub of_user? : Option String → Row → Bool
of_user? none row = true
of_user? (some username) row = of_user username row

-- Insertion by `ORDER BY last_used_at DESC`.
unfoldable pub insert_recent : Row → List Row → List Row
insert_recent row [] = row ∷ []
insert_recent row (r ∷ rows) =
    if leb r.last_used_at row.last_used_at then row ∷ r ∷ rows else r ∷ insert_recent row rows

unfoldable pub sort_recent : List Row → List Row
unfolding insert_recent
sort_recent [] = []
sort_recent (row ∷ rows) = insert_recent row (sort_recent rows)

unfoldable pub list_active : Option String → AuthDb → List Row
unfolding sort_recent
list_active username db =
    sort_recent (keep (λ row. of_user? username row && is_unrevoked row) db.rows)
