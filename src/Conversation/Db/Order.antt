-- ===== src/Conversation/Db/Order.antt =====
-- Rows are read back in the order in which they were written.
use mathlib.Core.List.{append-nil}
use glados_docker.Common.{
  Bool, List, Option, String, [], ap, arith, eq_iff, false, keep, length, map, max, none, not, refl,
  str_eq, subst, ℕ, ◌++◌, ◌+◌, ◌∙◌, ◌∷◌, ◌≡◌, ◌≤◌,
}
use glados_docker.Conversation.Message.{Message, Meta, no_meta}
use glados_docker.Conversation.Db.{
  Db, StoredMessage, append_many, conv, default_source, delete_conversation, in_conv, insert_idx,
  new_rows, next_idx, replace_conversation, snapshot, sort_idx,
}

-- The indices rise, from `start` on and below `stop`.
abbrev pub Rising : ℕ → ℕ → List StoredMessage → Type 0
Rising start stop [] = start ≤ stop
Rising start stop (r ∷ rows) = (start ≤ r.idx) × Rising (r.idx + 1) stop rows

insert_idx-head :
    (start stop : ℕ) (r : StoredMessage) (rows : List StoredMessage)
    → Rising (r.idx + 1) stop rows
    → insert_idx r rows ≡ r ∷ rows
unfolding insert_idx
insert_idx-head start stop r [] h = refl
insert_idx-head start stop r (s ∷ rows) h = ground arith

pub sort_idx-Rising :
    (start stop : ℕ) (rows : List StoredMessage) → Rising start stop rows → sort_idx rows ≡ rows
unfolding sort_idx
sort_idx-Rising start stop [] h = refl
sort_idx-Rising start stop (r ∷ rows) h =
    rw (sort_idx-Rising (r.idx + 1) stop rows h.1) (insert_idx-head start stop r rows h.1)

Rising-next_idx :
    (start stop : ℕ) (rows : List StoredMessage)
    → Rising start stop rows
    → Rising start (max start (next_idx rows)) rows
unfolding next_idx
Rising-next_idx start stop [] h = omega arith
Rising-next_idx start stop (r ∷ rows) h =
    let rest = Rising-next_idx (r.idx + 1) stop rows h.1 in
    let same : max (r.idx + 1) (next_idx rows) ≡ max start (max (r.idx + 1) (next_idx rows)) =
      omega (arith, h.0) in
    (h.0, subst (λ k. Rising (r.idx + 1) k rows) same rest)

Rising-next :
    (stop : ℕ) (rows : List StoredMessage) → Rising 0 stop rows → Rising 0 (next_idx rows) rows
Rising-next stop rows h =
    let e : max 0 (next_idx rows) ≡ next_idx rows = omega arith in
    subst (λ k. Rising 0 k rows) e (Rising-next_idx 0 stop rows h)

Rising-append :
    (start mid stop : ℕ) (rows rows' : List StoredMessage)
    → Rising start mid rows
    → Rising mid stop rows'
    → Rising start stop (rows ++ rows')
Rising-append start mid stop [] rows' h k = Rising-weaken start mid stop rows' h k
  where
    Rising-weaken :
        (start mid stop : ℕ) (rows' : List StoredMessage)
        → start ≤ mid
        → Rising mid stop rows'
        → Rising start stop rows'
    Rising-weaken start mid stop [] h k = omega arith
    Rising-weaken start mid stop (r ∷ rows) h k = (omega (arith, k.0), k.1)
Rising-append start mid stop (r ∷ rows) rows' h k =
    (h.0, Rising-append (r.idx + 1) mid stop rows rows' h.1 k)

Rising-new_rows :
    (id : ℕ) (cid : String) (idx ts : ℕ) (meta : Meta) (ms : List Message)
    → Rising idx (idx + length ms) (new_rows id cid idx ts meta ms)
unfolding new_rows
Rising-new_rows id cid idx ts meta [] = omega arith
Rising-new_rows id cid idx ts meta (m ∷ ms) =
    let e : idx + 1 + length ms ≡ idx + length (m ∷ ms) = omega arith in
    (
      omega arith,
      subst (λ k. Rising (idx + 1) k (new_rows (id + 1) cid (idx + 1) ts meta ms)) e
          (Rising-new_rows (id + 1) cid (idx + 1) ts meta ms),
    )

keep-append :
    (p : StoredMessage → Bool) (xs ys : List StoredMessage)
    → keep p (xs ++ ys) ≡ keep p xs ++ keep p ys
keep-append p [] ys = refl
keep-append p (x ∷ xs) ys = ground (arith, keep-append p xs ys)

keep-new_rows :
    (cid : String) (id idx ts : ℕ) (meta : Meta) (ms : List Message)
    → keep (in_conv cid) (new_rows id cid idx ts meta ms) ≡ new_rows id cid idx ts meta ms
unfolding new_rows
keep-new_rows cid id idx ts meta [] = refl
keep-new_rows cid id idx ts meta (m ∷ ms) =
    ground (arith, eq_iff cid cid, keep-new_rows cid (id + 1) (idx + 1) ts meta ms)

keep-new_rows_ne :
    (cid other : String) (id idx ts : ℕ) (meta : Meta) (ms : List Message)
    → str_eq cid other ≡ false
    → keep (in_conv other) (new_rows id cid idx ts meta ms) ≡ []
unfolding new_rows
keep-new_rows_ne cid other id idx ts meta [] h = refl
keep-new_rows_ne cid other id idx ts meta (m ∷ ms) h =
    ground (arith, keep-new_rows_ne cid other (id + 1) (idx + 1) ts meta ms)

-- The rows of a conversation are stored in the order of their indices.
abbrev pub IsOrdered : String → Db → Type 0
IsOrdered cid db = Rising 0 (next_idx (conv cid db)) (conv cid db)

pub conv-append_many :
    (cid : String) (ts : ℕ) (meta : Meta) (ms : List Message) (db : Db)
    → conv cid (append_many cid ts meta ms db)
      ≡ conv cid db ++ new_rows db.next_id cid (next_idx (conv cid db)) ts meta ms
unfolding append_many
conv-append_many cid ts meta ms db =
    keep-append (in_conv cid) db.rows _
    ∙ ap (◌++◌ (conv cid db)) (keep-new_rows cid db.next_id (next_idx (conv cid db)) ts meta ms)

pub append_many-IsOrdered :
    (cid : String) (ts : ℕ) (meta : Meta) (ms : List Message) (db : Db)
    → IsOrdered cid db
    → IsOrdered cid (append_many cid ts meta ms db)
append_many-IsOrdered cid ts meta ms db h =
    let n = next_idx (conv cid db) in
    rw conv-append_many (
      Rising-next (n + length ms) (conv cid db ++ new_rows db.next_id cid n ts meta ms) (
        Rising-append 0 n (n + length ms) (conv cid db) _ h
          (Rising-new_rows db.next_id cid n ts meta ms)))

-- A conversation reads back, in any state that appending reaches, as its rows in the order of
-- insertion.
pub snapshot-conv : (cid : String) (db : Db) → IsOrdered cid db → snapshot cid none db ≡ conv cid db
unfolding snapshot
snapshot-conv cid db h = sort_idx-Rising 0 (next_idx (conv cid db)) (conv cid db) h

keep-keep_ne :
    (cid other : String) (rows : List StoredMessage)
    → str_eq cid other ≡ false
    → keep (in_conv other) (keep (λ r. not (in_conv cid r)) rows) ≡ keep (in_conv other) rows
keep-keep_ne cid other [] h = refl
keep-keep_ne cid other (r ∷ rows) h = ground (
  arith,
  keep-keep_ne cid other rows h,
  eq_iff r.conversation_id cid,
  eq_iff r.conversation_id other,
  eq_iff cid other,
)

keep-keep_self :
    (cid : String) (rows : List StoredMessage)
    → keep (in_conv cid) (keep (λ r. not (in_conv cid r)) rows) ≡ []
keep-keep_self cid [] = refl
keep-keep_self cid (r ∷ rows) = ground (arith, keep-keep_self cid rows)

pub conv-delete_self : (cid : String) (db : Db) → conv cid (delete_conversation cid db) ≡ []
unfolding delete_conversation
conv-delete_self cid db = keep-keep_self cid db.rows

conv-append_many_ne :
    (cid other : String) (ts : ℕ) (meta : Meta) (ms : List Message) (db : Db)
    → str_eq cid other ≡ false
    → conv other (append_many cid ts meta ms db) ≡ conv other db
unfolding append_many
conv-append_many_ne cid other ts meta ms db h =
    keep-append (in_conv other) db.rows _
    ∙ (ap (◌++◌ (conv other db))
          (keep-new_rows_ne cid other db.next_id (next_idx (conv cid db)) ts meta ms h)
        ∙ append-nil (conv other db))

-- Replacing a conversation leaves the rows of every other conversation alone.
pub conv-replace_ne :
    (cid other : String) (ts : ℕ) (source : Option String) (ms : List Message) (db : Db)
    → str_eq cid other ≡ false
    → conv other (replace_conversation cid ts source ms db) ≡ conv other db
unfolding replace_conversation delete_conversation
conv-replace_ne cid other ts source ms db h =
    conv-append_many_ne cid other ts no_meta (map (default_source source) ms)
      (delete_conversation cid db) h
    ∙ keep-keep_ne cid other db.rows h
