-- ===== src/Ha/Cache/Cutoffs.antt =====
-- The bounds of the cutoffs of scores.
use glados_docker.Common.{
  Bool, Dict, String, [], all_of, arith, false, get, if◌then◌else◌, leb, mem_text, opt_eq, or_else,
  refl, some, true, ℕ, ◌||◌, ◌∷◌, ◌≡◌, ◌≤◌,
}
use glados_docker.Ha.Cache.{EntityState}
use glados_docker.Ha.Cache.Scores.{cutoff_for, default_cutoff, domain_cutoffs, sensitive_domains}

-- A lock, an alarm panel, a camera or a garage door.
abbrev pub is_critical : EntityState → Bool
is_critical e =
    mem_text e.domain ("lock" ∷ "alarm_control_panel" ∷ "camera" ∷ [])
    || opt_eq e.device_class (some "garage")

full_if : (a b : Bool) (n : ℕ) → (a || b) ≡ true → (if a then 100 else if b then 100 else n) ≡ 100
full_if true b n h = refl
full_if false true n h = refl
full_if false false n h = cc

least_if : (a b : Bool) (n : ℕ) → 60 ≤ n → 60 ≤ (if a then 100 else if b then 100 else n)
least_if true b n h = omega arith
least_if false true n h = omega arith
least_if false false n h = h

pub cutoff_critical : (e : EntityState) → is_critical e ≡ true → cutoff_for e ≡ 100
unfolding cutoff_for
cutoff_critical e h =
    full_if (mem_text e.domain sensitive_domains) (opt_eq e.device_class (some "garage"))
      (or_else (get e.domain domain_cutoffs) default_cutoff) h

least-get :
    (k : String) (d : Dict ℕ) → all_of (λ p. leb 60 p.1) d ≡ true → 60 ≤ or_else (get k d) 75
unfolding get
least-get k [] h = omega arith
least-get k ((j, n) ∷ d) h = ground (arith, least-get k d)

pub cutoff_least : (e : EntityState) → 60 ≤ cutoff_for e
unfolding cutoff_for
cutoff_least e =
    least_if (mem_text e.domain sensitive_domains) (opt_eq e.device_class (some "garage"))
      (or_else (get e.domain domain_cutoffs) default_cutoff)
      (least-get e.domain domain_cutoffs refl)
