-- ===== src/Conversation/Db/Retention.antt =====
-- What `prune_before` deletes.
use glados_docker.Common.{
  Bool, List, Option, String, [], arith, keep, leb, length, not, refl, ℕ, ◌&&◌, ◌+◌, ◌||◌, ◌∷◌, ◌≡◌,
}
use glados_docker.Conversation.Db.{Db, StoredMessage, control_tier, is_pruned, prune_before}

pruned_and_kept :
    (p : StoredMessage → Bool) (rows : List StoredMessage)
    → length (keep p rows) + length (keep (λ r. not (p r)) rows) ≡ length rows
pruned_and_kept p [] = refl
pruned_and_kept p (r ∷ rows) = ground (arith, pruned_and_kept p rows)

-- What pruning must leave: the rows that are not older than the cutoff, and those of tier 1 or 2
-- where these are protected.
abbrev pub stays : ℕ → Bool → StoredMessage → Bool
stays cutoff protect r = leb cutoff r.ts || (protect && control_tier r.tier)

keep-stays :
    (cutoff : ℕ) (cid : Option String) (protect : Bool) (rows : List StoredMessage)
    → keep (stays cutoff protect) (keep (λ r. not (is_pruned cutoff cid protect r)) rows)
      ≡ keep (stays cutoff protect) rows
keep-stays cutoff cid protect [] = refl
keep-stays cutoff cid protect (r ∷ rows) = ground (arith, keep-stays cutoff cid protect rows)

-- Pruning reports the number of rows that it deletes, and keeps, in their order, every row that is
-- not older than the cutoff and, if the control tiers are protected, every row of tier 1 or 2.
pub prune_before_lem :
    (cutoff : ℕ) (cid : Option String) (protect : Bool) (db : Db)
    → (let (n, db') = prune_before cutoff cid protect db in
        (n + length db'.rows ≡ length db.rows)
        × (keep (stays cutoff protect) db'.rows ≡ keep (stays cutoff protect) db.rows))
unfolding prune_before
prune_before_lem cutoff cid protect db =
    (pruned_and_kept (is_pruned cutoff cid protect) db.rows, keep-stays cutoff cid protect db.rows)
