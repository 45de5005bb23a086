-- ===== src/Auth/Sessions/Revocation.antt =====
-- What stays revoked.
use glados_docker.Common.{
  Bool, Dict, List, Option-cases, String, [], all_of, ap, arith, find_first, inl, inr, is_some,
  keep, length, map, none, not, refl, some, str_eq, suc, sym, true, ℕ, ◌&&◌, ◌++◌, ◌||◌, ◌∙◌, ◌∷◌,
  ◌≡◌,
}
use glados_docker.Auth.Sessions.Validity.{find_first_all}
use glados_docker.Auth.Sessions.{
  AuthDb, Login, Payload, Row, Signer, create, flush_last_used, flush_rows, has_sid, insert_recent,
  is_unrevoked, list_active, new_row, of_user, revoke, revoke_all_for_user, revoke_row, sort_recent,
  use_at, verify,
}

pub data Op : Type 0 where
  create_op : String → ℕ → Login → Op
  verify_op : String → ℕ → Op
  flush_op : Op
  revoke_op : String → ℕ → Op
  revoke_all_op : String → ℕ → Op

unfoldable pub step : Signer → AuthDb → Op → AuthDb
step signer db (create_op sid now l) = (create signer sid now l db).1
step signer db (verify_op token now) = (verify signer token now db).1
step signer db flush_op = flush_last_used db
step signer db (revoke_op sid now) = revoke sid now db
step signer db (revoke_all_op username now) = (revoke_all_for_user username now db).1

unfoldable pub run : Signer → AuthDb → List Op → AuthDb
unfolding step
run signer db [] = db
run signer db (op ∷ ops) = run signer (step signer db op) ops

-- `uuid4` never draws an identifier again.
abbrev pub spares : String → Op → Bool
spares sid (create_op new now l) = not (str_eq new sid)
spares sid _ = true

-- Every row of the session is revoked.
abbrev pub is_dead : String → Row → Bool
is_dead sid row = not (has_sid sid row) || is_some row.revoked_at

abbrev pub all_dead : String → List Row → Bool
all_dead sid rows = all_of (is_dead sid) rows

all_dead-append :
    (sid : String) (rows : List Row) (row : Row)
    → all_dead sid rows ≡ true
    → is_dead sid row ≡ true
    → all_dead sid (rows ++ row ∷ []) ≡ true
all_dead-append sid [] row h e = rw e
all_dead-append sid (r ∷ rows) row h e = ground (arith, all_dead-append sid rows row)

all_dead-map :
    (sid : String) (f : Row → Row) (rows : List Row)
    → ((r : Row) → is_dead sid r ≡ true → is_dead sid (f r) ≡ true)
    → all_dead sid rows ≡ true
    → all_dead sid (map f rows) ≡ true
all_dead-map sid f [] keeps h = refl
all_dead-map sid f (r ∷ rows) keeps h = ground (arith, keeps r, all_dead-map sid f rows keeps)

revoke_row_dead :
    (p : Row → Bool) (sid : String) (now : ℕ) (r : Row)
    → is_dead sid r ≡ true
    → is_dead sid (revoke_row p now r) ≡ true
revoke_row_dead p sid now r h = ground arith

flush_rows_dead :
    (sid : String) (snapshot : Dict ℕ) (rows : List Row)
    → all_dead sid rows ≡ true
    → all_dead sid (flush_rows snapshot rows) ≡ true
unfolding flush_rows
flush_rows_dead sid [] rows h = h
flush_rows_dead sid ((j, ts) ∷ snapshot) rows h =
    flush_rows_dead sid snapshot (map (use_at j ts) rows)
      (all_dead-map sid (use_at j ts) rows (λ r e. ground arith) h)

rows-verify :
    (signer : Signer) (token : String) (now : ℕ) (db : AuthDb)
    → (verify signer token now db).1.rows ≡ db.rows
unfolding verify
rows-verify signer token now db = ground arith

step_dead :
    (signer : Signer) (sid : String) (db : AuthDb) (op : Op)
    → spares sid op ≡ true
    → all_dead sid db.rows ≡ true
    → all_dead sid (step signer db op).rows ≡ true
unfolding step create flush_last_used revoke revoke_all_for_user
step_dead signer sid db (create_op new now l) s h =
    all_dead-append sid db.rows (new_row new now l) h (ground arith)
step_dead signer sid db (verify_op token now) s h = rw (rows-verify signer token now db) h
step_dead signer sid db flush_op s h = flush_rows_dead sid db.last_used db.rows h
step_dead signer sid db (revoke_op j now) s h =
    all_dead-map sid (revoke_row (has_sid j) now) db.rows (revoke_row_dead (has_sid j) sid now) h
step_dead signer sid db (revoke_all_op u now) s h =
    all_dead-map sid (revoke_row (of_user u) now) db.rows (revoke_row_dead (of_user u) sid now) h

run_dead :
    (signer : Signer) (sid : String) (ops : List Op) (db : AuthDb)
    → all_of (spares sid) ops ≡ true
    → all_dead sid db.rows ≡ true
    → all_dead sid (run signer db ops).rows ≡ true
unfolding run
run_dead signer sid [] db s h = h
run_dead signer sid (op ∷ ops) db s h =
    run_dead signer sid ops (step signer db op) (ground arith)
      (step_dead signer sid db op (ground arith) h)

dead_token :
    (signer : Signer) (token : String) (now : ℕ) (db : AuthDb) (p : Payload)
    → signer.loads token ≡ some p
    → all_dead p.sid db.rows ≡ true
    → (verify signer token now db).0 ≡ none
unfolding verify
dead_token signer token now db p e dead = elim (Option-cases (find_first (has_sid p.sid) db.rows)) [
  | inl gone ↦ ground arith
  | inr (row, found) ↦ ground (
    arith,
    find_first_all (has_sid p.sid) (λ (r : Row). is_some r.revoked_at) db.rows row dead found,
  )
]

revoke_kills :
    (sid : String) (now : ℕ) (rows : List Row)
    → all_dead sid (map (revoke_row (has_sid sid) now) rows) ≡ true
revoke_kills sid now [] = refl
revoke_kills sid now (r ∷ rows) = ground (arith, revoke_kills sid now rows)

-- Once a session is revoked, no token that names it is accepted again, whatever logins, checks,
-- flushes and revocations follow, if no login draws its identifier again.
pub revoked_forever :
    (signer : Signer) (token : String) (p : Payload) (now later : ℕ) (db : AuthDb) (ops : List Op)
    → signer.loads token ≡ some p
    → all_of (spares p.sid) ops ≡ true
    → (verify signer token later (run signer (revoke p.sid now db) ops)).0 ≡ none
unfolding revoke
revoked_forever signer token p now later db ops e s =
    dead_token signer token later (run signer (revoke p.sid now db) ops) p e
      (run_dead signer p.sid ops (revoke p.sid now db) s (revoke_kills p.sid now db.rows))

none_active :
    (u : String) (now : ℕ) (rows : List Row)
    → keep (λ row. of_user u row && is_unrevoked row) (map (revoke_row (of_user u) now) rows) ≡ []
none_active u now [] = refl
none_active u now (r ∷ rows) = ground (arith, none_active u now rows)

length-insert_recent :
    (r : Row) (rows : List Row) → length (insert_recent r rows) ≡ suc (length rows)
unfolding insert_recent
length-insert_recent r [] = refl
length-insert_recent r (x ∷ rows) = ground (arith, length-insert_recent r rows)

length-sort_recent : (rows : List Row) → length (sort_recent rows) ≡ length rows
unfolding sort_recent
length-sort_recent [] = refl
length-sort_recent (r ∷ rows) =
    omega (arith, length-insert_recent r (sort_recent rows), length-sort_recent rows)

-- Revoking a user's sessions reports how many were listed as active, and leaves none of them so.
pub revoke_all-list_active :
    (u : String) (now : ℕ) (db : AuthDb)
    → ((revoke_all_for_user u now db).0 ≡ length (list_active (some u) db))
      × (list_active (some u) (revoke_all_for_user u now db).1 ≡ [])
unfolding revoke_all_for_user list_active
revoke_all-list_active u now db = (
  sym (length-sort_recent (keep (λ row. of_user u row && is_unrevoked row) db.rows)),
  ap sort_recent (none_active u now db.rows) ∙ unfold sort_recent in refl,
)
