-- ===== src/Auth/UserState.antt =====
-- glados/auth/user_state.py: the last login and the failed logins of a user, a row of the table
-- user_state for each. Each method takes the reading of the clock that it makes.
use glados_docker.Common.{
  Dict, List, Option, String, [], ap, arith, eq_iff, get, get-put, if◌then◌else◌, none, put, refl,
  some, str_eq, ℕ, ◌+◌, ◌∙◌, ◌∷◌, ◌≡◌,
}

pub record UserRow : Type 0 where
  pub last_login_at : Option ℕ
  pub last_login_addr : Option String
  pub failed_login_count : ℕ
  pub last_failed_login_at : Option ℕ

abbrev pub UserTable : Type 0
UserTable = Dict UserRow

abbrev on_success : ℕ → String → Option UserRow → UserRow
on_success now addr none = record {
  last_login_at = some now;
  last_login_addr = some addr;
  failed_login_count = 0;
  last_failed_login_at = none;
}
on_success now addr (some row) = record row {
  last_login_at = some now;
  last_login_addr = some addr;
  failed_login_count = 0;
}

-- `INSERT … ON CONFLICT(username) DO UPDATE`
unfoldable pub record_success : String → ℕ → String → UserTable → UserTable
record_success username now addr t = put username (on_success now addr (get username t)) t

abbrev on_failure : ℕ → Option UserRow → UserRow
on_failure now none = record {
  last_login_at = none;
  last_login_addr = none;
  failed_login_count = 1;
  last_failed_login_at = some now;
}
on_failure now (some row) = record row {
  failed_login_count = row.failed_login_count + 1;
  last_failed_login_at = some now;
}

unfoldable pub record_failure : String → ℕ → UserTable → UserTable
record_failure username now t = put username (on_failure now (get username t)) t

pub data Attempt : Type 0 where
  success : String → ℕ → String → Attempt
  failure : String → ℕ → Attempt

unfoldable pub attempt : UserTable → Attempt → UserTable
unfolding record_success record_failure
attempt t (success username now addr) = record_success username now addr t
attempt t (failure username now) = record_failure username now t

unfoldable pub attempts : UserTable → List Attempt → UserTable
unfolding attempt
attempts t [] = t
attempts t (a ∷ as') = attempts (attempt t a) as'

abbrev pub failed_count : Option UserRow → ℕ
failed_count none = 0
failed_count (some row) = row.failed_login_count

-- The failures of a user since the user's last success, counted from `n`.
abbrev pub failures_since : String → ℕ → List Attempt → ℕ
failures_since u n [] = n
failures_since u n (success username now addr ∷ as') =
    failures_since u (if str_eq username u then 0 else n) as'
failures_since u n (failure username now ∷ as') =
    failures_since u (if str_eq username u then n + 1 else n) as'

count-success :
    (u username addr : String) (now : ℕ) (t : UserTable)
    → failed_count (get u (record_success username now addr t))
      ≡ (if str_eq username u then 0 else failed_count (get u t))
unfolding record_success
count-success u username addr now t =
    ground (arith, get-put username u (on_success now addr (get username t)) t, eq_iff username u)

count-failure :
    (u username : String) (now : ℕ) (t : UserTable)
    → failed_count (get u (record_failure username now t))
      ≡ (if str_eq username u then failed_count (get u t) + 1 else failed_count (get u t))
unfolding record_failure
count-failure u username now t =
    ground (arith, get-put username u (on_failure now (get username t)) t, eq_iff username u)

-- The stored count is the number of a user's failures since the user's last success, whatever
-- other users do in between.
pub failed_count-attempts :
    (u : String) (as' : List Attempt) (t : UserTable)
    → failed_count (get u (attempts t as')) ≡ failures_since u (failed_count (get u t)) as'
unfolding attempts
failed_count-attempts u [] t = refl
failed_count-attempts u (success username now addr ∷ as') t =
    failed_count-attempts u as' (record_success username now addr t)
    ∙ ap (λ n. failures_since u n as') (count-success u username addr now t)
failed_count-attempts u (failure username now ∷ as') t =
    failed_count-attempts u as' (record_failure username now t)
    ∙ ap (λ n. failures_since u n as') (count-failure u username now t)
