-- ===== src/Auth/Permissions.antt =====
-- glados/webui/permissions.py: the roles of the WebUI, and the password policy.
use glados_docker.Common.{
  Bool, Dict, List, Option, String, [], arith, codes, eq_iff, false, get, if◌then◌else◌, length,
  ltb, mem_text, none, refl, some, str_eq, true, ◌∷◌, ◌≡◌, ◌≢◌,
}

abbrev pub permission_registry : List String
permission_registry = "webui.view" ∷ "chat.read" ∷ "chat.send" ∷ []

abbrev pub roles : Dict (List String)
roles = ("admin", "*" ∷ []) ∷ ("chat", "webui.view" ∷ "chat.read" ∷ "chat.send" ∷ []) ∷ []

abbrev pub granted : String → Option (List String) → Bool
granted perm none = false
granted perm (some perms) = if mem_text "*" perms then true else mem_text perm perms

unfoldable pub user_has_perm : String → String → Bool
unfolding get
user_has_perm role perm = granted perm (get role roles)

-- The admin role is granted every permission; any other role only permissions of the registry, so
-- never the sentinel "admin".
pub user_has_perm-registry :
    (role perm : String)
    → (role ≡ "admin" → user_has_perm role perm ≡ true)
      × (user_has_perm role perm ≡ true → role ≢ "admin" → mem_text perm permission_registry ≡ true)
unfolding user_has_perm
user_has_perm-registry role perm =
    (λ e. rw e, λ h ne. ground (arith, eq_iff "admin" role, eq_iff "chat" role))

abbrev pub password_denylist : List String
password_denylist =
    "password" ∷ "passw0rd" ∷ "12345678" ∷ "123456789" ∷ "1234567890" ∷ "qwertyui" ∷ "qwerty12"
    ∷ "qwerty123" ∷ "letmein1" ∷ "abcd1234" ∷ "admin123" ∷ "password1" ∷ "glados12" ∷ "passpass"
    ∷ "11111111" ∷ "00000000" ∷ "welcome1" ∷ "baseball" ∷ "football" ∷ "monkey12" ∷ []

-- For a password that is too short, and one that is common.
abbrev policy : Bool → Bool → Bool × String
policy true common = (false, "Password must be at least 8 characters.")
policy false true = (false, "Password is too common; choose something less guessable.")
policy false false = (true, "")

-- `lower` is the case mapping of Unicode.
unfoldable pub password_meets_policy : (String → String) → String → Bool × String
password_meets_policy lower password =
    policy (ltb (length (codes password)) 8) (mem_text (lower password) password_denylist)

policy_lem : (short common : Bool) → str_eq (policy short common).1 "" ≡ (policy short common).0
policy_lem true common = refl
policy_lem false true = refl
policy_lem false false = refl

-- The message is empty exactly where the password is accepted.
pub password_meets_policy_lem :
    (lower : String → String) (password : String)
    → str_eq (password_meets_policy lower password).1 "" ≡ (password_meets_policy lower password).0
unfolding password_meets_policy
password_meets_policy_lem lower password =
    policy_lem (ltb (length (codes password)) 8) (mem_text (lower password) password_denylist)
