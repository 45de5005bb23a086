-- ===== src/Conversation/Store/Restart.antt =====
-- What a restart of the engine finds: the preprompt once more, and then the rows of the table.
use mathlib.Core.List.{map-append, append_assoc, append-nil}
use glados_docker.Common.{
  List, Option, String, [], ap, append-nil, append_assoc, arith, drop, get_elem?, length, map,
  map-append, none, refl, remove_at, some, subst, suc, sym, take, take_last, zero, ℕ, ◌++◌, ◌-◌,
  ◌∙◌, ◌∷◌, ◌≡◌,
}
use glados_docker.Conversation.Message.{Message, Meta}
use glados_docker.Conversation.Db.{
  Db, append_many, conv, next_idx, replace_conversation, snapshot, to_chat_message,
}
use glados_docker.Conversation.Db.Order.{snapshot-conv}
use glados_docker.Conversation.Store.{
  ConversationStore, Fault, fails_after, init, inserted, load_from_db, persist_in, replace_all,
  replace_in, works,
}
use glados_docker.Conversation.Store.Chat.{
  Holds, append_many-Holds, as_chat, map-as_chat_idem, map-default, replace-Holds,
}
use glados_docker.Conversation.Store.Appends.{
  Shared, Step, begins, begun, interleave, interleave-messages, land, landed, lands, rows_of, step,
}

-- `map` on the last elements.
map-drop {ℓ κ} :
    {A : Type ℓ} {B : Type κ} (f : A → B) (n : ℕ) (xs : List A)
    → map f (drop n xs) ≡ drop n (map f xs)
map-drop f zero xs = refl
map-drop f (suc n) [] = refl
map-drop f (suc n) (x ∷ xs) = map-drop f n xs

length-map {ℓ κ} :
    {A : Type ℓ} {B : Type κ} (f : A → B) (xs : List A) → length (map f xs) ≡ length xs
length-map f [] = refl
length-map f (x ∷ xs) = ap (λ n. suc n) (length-map f xs)

map-take_last {ℓ κ} :
    {A : Type ℓ} {B : Type κ} (f : A → B) (n : ℕ) (xs : List A)
    → map f (take_last n xs) ≡ take_last n (map f xs)
map-take_last f n xs =
    map-drop f (length xs - n) xs ∙ ap (λ k. drop (k - n) (map f xs)) (sym (length-map f xs))

-- A new store over the same database, as the engine starts it (glados/core/engine.py, 502).
unfoldable pub restart : List Message → ConversationStore → ConversationStore
restart pre s = (load_from_db (some 200) (init pre s.db s.conversation_id)).1

-- What a restart shows: the preprompt, and the newest 200 of what the database holds.
restart-Holds :
    (pre : List Message) (s : ConversationStore) (d : Db) (ms : List Message)
    → s.db ≡ some d
    → Holds s.conversation_id d ms
    → map as_chat (restart pre s).messages ≡ map as_chat pre ++ take_last 200 (map as_chat ms)
unfolding restart load_from_db init snapshot
restart-Holds pre s d ms e h =
    let rows = snapshot s.conversation_id none d in
    let shown : map as_chat (map to_chat_message (take_last 200 rows))
        ≡ take_last 200 (map as_chat ms) =
      ap (map as_chat) (map-take_last to_chat_message 200 rows)
      ∙ map-take_last as_chat 200 (map to_chat_message rows)
      ∙ ap (λ rs. take_last 200 (map as_chat (map to_chat_message rs)))
          (snapshot-conv s.conversation_id d h.ordered)
      ∙ ap (take_last 200) (ap (map as_chat) h.same ∙ map-as_chat_idem ms) in
    subst
      (λ o.
        map as_chat (load_from_db (some 200) (init pre o s.conversation_id)).1.messages
        ≡ map as_chat pre ++ take_last 200 (map as_chat ms))
      (sym e)
      (map-append as_chat pre (map to_chat_message (take_last 200 rows))
        ∙ ap (◌++◌ (map as_chat pre)) shown)

-- The database holds the messages `tail`.
record Mirrors (cid : String) (tail : List Message) (s : Shared) : Type 0 where
  table : Db
  stored : s.store.db ≡ some table
  named : s.store.conversation_id ≡ cid
  holds : Holds cid table tail

remove_at-none {ℓ} :
    {A : Type ℓ} (n : ℕ) (xs : List A) → get_elem? xs n ≡ none → remove_at n xs ≡ xs
remove_at-none n [] h = refl
remove_at-none zero (x ∷ xs) h = cc h
remove_at-none (suc n) (x ∷ xs) h = ap (λ ys. x ∷ ys) (remove_at-none n xs h)

land-Mirrors :
    (cid : String) (n : ℕ) (fault : Fault) (ts : ℕ) (tail : List Message) (s : Shared)
    (o : Option (Meta × List Message))
    → get_elem? s.pending n ≡ o
    → Mirrors cid tail s
    → Mirrors cid (tail ++ rows_of fault o) (land n fault ts s o)
      × ((land n fault ts s o).pending ≡ remove_at n s.pending)
land-Mirrors cid n fault ts tail s none g h = (
  record {
    table = h.table;
    stored = h.stored;
    named = h.named;
    holds = subst (Holds cid h.table) (sym (append-nil tail)) h.holds;
  },
  sym (remove_at-none n s.pending g),
)
land-Mirrors cid n fault ts tail s (some (meta, ms)) g h = (
  record {
    table = append_many cid ts meta (inserted fault ms) h.table;
    stored =
        ap (persist_in fault ts meta ms s.store.conversation_id) h.stored
        ∙ ap (λ c. some (append_many c ts meta (inserted fault ms) h.table)) h.named;
    named = h.named;
    holds = append_many-Holds cid ts meta tail (inserted fault ms) h.table h.holds;
  },
  refl,
)

interleave-Mirrors :
    (cid : String) (es : List Step) (tail : List Message) (s : Shared)
    → Mirrors cid tail s
    → Mirrors cid (tail ++ landed s.pending es) (interleave es s)
unfolding interleave step
interleave-Mirrors cid [] tail s h = subst (λ xs. Mirrors cid xs s) (sym (append-nil tail)) h
interleave-Mirrors cid (begins meta ms ∷ es) tail s h =
    interleave-Mirrors cid es tail (step (begins meta ms) s)
      (record { table = h.table; stored = h.stored; named = h.named; holds = h.holds })
interleave-Mirrors cid (lands n fault ts ∷ es) tail s h =
    let o = get_elem? s.pending n in
    let s' = land n fault ts s o in
    let (k, p) = land-Mirrors cid n fault ts tail s o refl h in
    subst (λ xs. Mirrors cid xs (interleave es s'))
      (ap (λ w. (tail ++ rows_of fault o) ++ landed w es) p
        ∙ append_assoc tail (rows_of fault o) (landed (remove_at n s.pending) es))
      (interleave-Mirrors cid es (tail ++ rows_of fault o) s' k)

abbrev pub opened : List Message → String → Db → Shared
opened pre cid d = record { store = init pre (some d) cid; pending = [] }

opened-Mirrors :
    (pre : List Message) (cid : String) (d : Db)
    → conv cid d ≡ []
    → Mirrors cid [] (opened pre cid d)
unfolding init
opened-Mirrors pre cid d e = record {
  table = d;
  stored = refl;
  named = refl;
  holds = record {
    ordered = rw e (unfold next_idx in omega arith);
    same = ap (map to_chat_message) e;
  };
}

-- Whatever appends to a new conversation several threads begin, in whatever order these reach the
-- database and whatever failures they meet there: the language model is shown the preprompt and the
-- messages in the order in which the appends began; and a restart shows it the preprompt and, of the
-- messages whose rows were inserted, the newest 200 in the order in which the appends reached the
-- database: an append that has not reached it is lost, and of one that failed the messages from the
-- failure on.
pub restart-interleave :
    (pre : List Message) (cid : String) (d : Db) (es : List Step)
    → conv cid d ≡ []
    → (let s = interleave es (opened pre cid d) in
        (map as_chat s.store.messages ≡ map as_chat pre ++ map as_chat (begun es))
        × (map as_chat (restart pre s.store).messages
            ≡ map as_chat pre ++ take_last 200 (map as_chat (landed [] es))))
unfolding init
restart-interleave pre cid d es e =
    let s = interleave es (opened pre cid d) in
    let h = interleave-Mirrors cid es [] (opened pre cid d) (opened-Mirrors pre cid d e) in
    (
      interleave-messages es (opened pre cid d),
      restart-Holds pre s.store h.table (landed [] es) h.stored
          (subst (λ c. Holds c h.table (landed [] es)) (sym h.named) h.holds),
    )

-- A restart after a replacement shows the preprompt and then the newest 200 messages of the
-- replacement: where the replacement begins with the preprompt, as a compacted history does, and is
-- no longer than that, it is shown twice.
pub restart-replace_all :
    (pre : List Message) (ts : ℕ) (source : Option String) (ms : List Message)
    (s : ConversationStore) (d : Db)
    → s.db ≡ some d
    → map as_chat (restart pre (replace_all works ts source ms s)).messages
      ≡ map as_chat pre ++ take_last 200 (map as_chat ms)
unfolding replace_all
restart-replace_all pre ts source ms s d e =
    subst
      (λ o.
        map as_chat (restart pre (replace_in works ts source ms s o)).messages
        ≡ map as_chat pre ++ take_last 200 (map as_chat ms))
      (sym e)
      (restart-Holds pre (replace_in works ts source ms s (some d))
        (replace_conversation s.conversation_id ts source ms d) ms refl
        (replace-Holds s.conversation_id ts source ms d))

-- A replacement, with no other write between its parts, that fails in the database when `n` rows are
-- inserted leaves the conversation there with its first `n` messages alone, though all are in memory:
-- a restart then shows the preprompt and the newest 200 of these.
pub restart-replace_all_fails :
    (pre : List Message) (n ts : ℕ) (source : Option String) (ms : List Message)
    (s : ConversationStore) (d : Db)
    → s.db ≡ some d
    → (map as_chat (restart pre (replace_all (fails_after n) ts source ms s)).messages
        ≡ map as_chat pre ++ take_last 200 (map as_chat (take n ms)))
      × (map as_chat (replace_all (fails_after n) ts source ms s).messages ≡ map as_chat ms)
unfolding replace_all
restart-replace_all_fails pre n ts source ms s d e =
    subst
      (λ o.
        (map as_chat (restart pre (replace_in (fails_after n) ts source ms s o)).messages
          ≡ map as_chat pre ++ take_last 200 (map as_chat (take n ms)))
        × (map as_chat (replace_in (fails_after n) ts source ms s o).messages ≡ map as_chat ms))
      (sym e)
      (
        restart-Holds pre (replace_in (fails_after n) ts source ms s (some d))
            (replace_conversation s.conversation_id ts source (take n ms) d) (take n ms) refl
            (replace-Holds s.conversation_id ts source (take n ms) d),
        map-default source ms,
      )
