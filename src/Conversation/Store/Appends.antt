-- ===== src/Conversation/Store/Appends.antt =====
-- The appends of several threads, in the parts that the store's lock makes of them.
use glados_docker.Common.{
  List, Option, [], ap, append-nil, append_assoc, get_elem?, map, map-append, none, refl, remove_at,
  some, sym, ℕ, ◌++◌, ◌∙◌, ◌∷◌, ◌≡◌,
}
use glados_docker.Conversation.Message.{Message, Meta, stamp_row_meta}
use glados_docker.Conversation.Store.{
  ConversationStore, Fault, append, append_multiple, inserted, persist, remember,
}
use glados_docker.Conversation.Store.Chat.{as_chat, map-stamp}

-- The store with the appends that are in its list and not yet in the database.
pub record Shared : Type 0 where
  pub store : ConversationStore
  pub pending : List (Meta × List Message)

-- The parts of the appends of several threads: one begins, and the `n`-th of the pending ones goes
-- to the database.
pub data Step : Type 0 where
  begins : Meta → List Message → Step
  lands : ℕ → Fault → ℕ → Step

abbrev pub land : ℕ → Fault → ℕ → Shared → Option (Meta × List Message) → Shared
land n fault ts s none = s
land n fault ts s (some (meta, ms)) = record {
  store = persist fault ts meta ms s.store;
  pending = remove_at n s.pending;
}

unfoldable pub step : Step → Shared → Shared
step (begins meta ms) s =
    let stamped = map (stamp_row_meta meta) ms in
    record { store = remember stamped s.store; pending = s.pending ++ (meta, stamped) ∷ [] }
step (lands n fault ts) s = land n fault ts s (get_elem? s.pending n)

unfoldable pub interleave : List Step → Shared → Shared
unfolding step
interleave [] s = s
interleave (e ∷ es) s = interleave es (step e s)

-- `append_multiple` is these two parts, and `append` for a single message.
pub append-interleave :
    (fault : Fault) (ts : ℕ) (meta : Meta) (m : Message) (ms : List Message) (s : ConversationStore)
    → ((append_multiple fault ts meta ms s).1
        ≡ (interleave
            (begins meta ms ∷ lands 0 fault ts ∷ [])
            (record { store = s; pending = [] })).store)
      × ((append fault ts meta m s).1 ≡ (append_multiple fault ts meta (m ∷ []) s).1)
unfolding interleave step append append_multiple
append-interleave fault ts meta m ms s = (refl, refl)

-- The messages of the appends, in the order in which they begin.
abbrev pub begun : List Step → List Message
begun [] = []
begun (begins meta ms ∷ es) = ms ++ begun es
begun (lands n fault ts ∷ es) = begun es

abbrev pub rows_of : Fault → Option (Meta × List Message) → List Message
rows_of fault none = []
rows_of fault (some (meta, ms)) = inserted fault ms

-- The messages whose rows are inserted, in the order in which the appends go to the database, of
-- those that have begun (`waiting`) and not yet gone there.
abbrev pub landed : List (Meta × List Message) → List Step → List Message
landed waiting [] = []
landed waiting (begins meta ms ∷ es) =
    landed (waiting ++ (meta, map (stamp_row_meta meta) ms) ∷ []) es
landed waiting (lands n fault ts ∷ es) =
    rows_of fault (get_elem? waiting n) ++ landed (remove_at n waiting) es

pub interleave-messages :
    (es : List Step) (s : Shared)
    → map as_chat (interleave es s).store.messages
      ≡ map as_chat s.store.messages ++ map as_chat (begun es)
unfolding interleave step
interleave-messages [] s = sym (append-nil (map as_chat s.store.messages))
interleave-messages (begins meta ms ∷ es) s =
    interleave-messages es (step (begins meta ms) s)
    ∙ ap (λ xs. xs ++ map as_chat (begun es))
        (map-append as_chat s.store.messages (map (stamp_row_meta meta) ms)
          ∙ ap (◌++◌ (map as_chat s.store.messages)) (map-stamp meta ms))
    ∙ append_assoc (map as_chat s.store.messages) (map as_chat ms) (map as_chat (begun es))
    ∙ ap (◌++◌ (map as_chat s.store.messages)) (sym (map-append as_chat ms (begun es)))
interleave-messages (lands n fault ts ∷ es) s =
    interleave-messages es (step (lands n fault ts) s)
    ∙ ap (λ xs. xs ++ map as_chat (begun es)) (same (get_elem? s.pending n))
  where
    same :
        (o : Option (Meta × List Message))
        → map as_chat (land n fault ts s o).store.messages ≡ map as_chat s.store.messages
    same none = refl
    same (some (meta, ms)) = refl
