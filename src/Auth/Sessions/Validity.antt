-- ===== src/Auth/Sessions/Validity.antt =====
-- Which tokens `verify` accepts.
use glados_docker.Common.{
  Bool, Bool-cases, List, Option, Option-cases, String, [], all_of, arith, eq_iff, false,
  find_first, if◌then◌else◌, inl, inr, leb, none, not, refl, some, str_eq, true, ℕ, ◌++◌, ◌||◌, ◌∷◌,
  ◌≡◌,
}
use glados_docker.Auth.Sessions.{
  AuthDb, IsSound, Login, Payload, Row, Signer, create, has_sid, is_live, new_row, payload_of,
  verify,
}

find_first-append :
    (p : Row → Bool) (rows : List Row) (row : Row)
    → find_first p rows ≡ none
    → p row ≡ true
    → find_first p (rows ++ row ∷ []) ≡ some row
find_first-append p [] row h e = rw e
find_first-append p (r ∷ rows) row h e = ground (arith, find_first-append p rows row)

find_first_holds :
    (p : Row → Bool) (rows : List Row) (row : Row) → find_first p rows ≡ some row → p row ≡ true
find_first_holds p [] row h = cc
find_first_holds p (r ∷ rows) row h = elim (Bool-cases (p r)) [
  | inl e ↦ ground arith
  | inr e ↦ find_first_holds p rows row (rw e at h)
]

pub find_first_all :
    (p q : Row → Bool) (rows : List Row) (row : Row)
    → all_of (λ r. not (p r) || q r) rows ≡ true
    → find_first p rows ≡ some row
    → q row ≡ true
find_first_all p q [] row a h = cc
find_first_all p q (r ∷ rows) row a h = elim (Bool-cases (p r)) [
  | inl e ↦ ground arith
  | inr e ↦ find_first_all p q rows row (ground arith) (rw e at h)
]

-- Whether a session with this end is over.
abbrev pub outlived : ℕ → Option ℕ → Bool
outlived now none = false
outlived now (some last) = not (leb now last)

is_live-new_row :
    (sid : String) (now later : ℕ) (l : Login) (e : Option ℕ)
    → l.expires_at ≡ e
    → is_live later (new_row sid now l) ≡ not (outlived later e)
is_live-new_row sid now later l none h = rw h refl
is_live-new_row sid now later l (some last) h = rw h (ground arith)

-- For a login whose session identifier is new and not empty, with a signer that reads back what it
-- wrote: `verify` accepts its token and gives the new session's row as long as the time has not
-- passed the end of the session, which may have none, and rejects it afterwards.
pub verify-create :
    (signer : Signer) (sid : String) (now later : ℕ) (l : Login) (db : AuthDb)
    → IsSound signer (payload_of sid now l)
    → str_eq sid "" ≡ false
    → find_first (has_sid sid) db.rows ≡ none
    → (let (token, db') = create signer sid now l db in
        (verify signer token later db').0
        ≡ (if outlived later l.expires_at then none else some (new_row sid now l)))
unfolding create verify
verify-create signer sid now later l db sound named fresh =
    rw (sound.dumps-ne_empty, sound.loads-dumps, named)
      (rw
        (find_first-append (has_sid sid) db.rows (new_row sid now l) fresh
          ((eq_iff sid sid).1 refl))
        (grind (arith, is_live-new_row sid now later l l.expires_at refl)))

-- A token that `verify` accepts has a good signature and names the row that is returned; that row
-- is not revoked, and has not expired.
pub verify_sound :
    (signer : Signer) (token : String) (now : ℕ) (db : AuthDb) {row : Row}
    → (verify signer token now db).0 ≡ some row
    → (p : Payload) × (signer.loads token ≡ some p)
      × (row.session_id ≡ p.sid)
      × (row.revoked_at ≡ none)
      × (is_live now row ≡ true)
unfolding verify
verify_sound signer token now db {row} h = elim (Option-cases (signer.loads token)) [
  | inl bad ↦ absurd (ground arith)
  | inr (p, good) ↦
      let found : find_first (has_sid p.sid) db.rows ≡ some row = ground arith in
      let live : is_live now row ≡ true = ground arith in
      (
        p,
        good,
        (eq_iff row.session_id p.sid).0 (find_first_holds (has_sid p.sid) db.rows row found),
        ground arith,
        live,
      )
]
