-- ===== src/Conversation/Compaction.antt =====
-- glados/autonomy/agents/compaction_agent.py: `CompactionAgent.tick` from the first snapshot to
-- `replace_all`. The estimated number of tokens and the summary of the language model (`none` where
-- it is empty) are arguments, and so are the two snapshots and the store at the replacement, since
-- other threads may write between these calls. The facts that are stored in the vector store are not modelled.
pub mod Rebuild
pub mod Keeps
use glados_docker.Common.{
  Bool, List, Option, String, [], any_of, false, if◌then◌else◌, leb, length, ltb, max, none, not,
  some, take, ℕ, ◌+◌, ◌-◌, ◌/◌, ◌==◌, ◌||◌, ◌∷◌,
}
use glados_docker.Conversation.Message.{Message}
use glados_docker.Conversation.Store.{ConversationStore, Fault, inserted, replace_all}

pub data TickStatus : Type 0 where
  monitoring too_few failed_summary : TickStatus
  compacted : ℕ → TickStatus

-- The loop that collects `compactable_indices`.
unfoldable pub compactable : ℕ → ℕ → ℕ → List Message → List ℕ
compactable lo hi i [] = []
compactable lo hi i (m ∷ ms) =
    let rest = compactable lo hi (i + 1) ms in
    if ltb i lo then rest else if leb hi i then rest else i ∷ rest

abbrev pub mem : ℕ → List ℕ → Bool
mem i is = any_of (λ j. j == i) is

abbrev pub summary_message : String → Message
summary_message summary = record {
  role = "system";
  content = some summary;
  tool_calls = none;
  extra = [];
  tier = none;
  source = none;
  ha_conversation_id = none;
  principal = none;
}

-- The loop that rebuilds the history around `indices_to_compact`.
unfoldable pub rebuild : List ℕ → Message → Bool → ℕ → List Message → List Message
rebuild indices note inserted i [] = []
rebuild indices note inserted i (m ∷ ms) =
    let here = mem i indices in
    let rest = rebuild indices note (inserted || here) (i + 1) ms in
    if here then (if inserted then rest else note ∷ rest) else m ∷ rest

-- `compactable_indices[:max(3, len // 2)]`
unfoldable pub chosen : ℕ → ℕ → List Message → List ℕ
unfolding compactable
chosen preprompt_count preserve_recent messages =
    let indices = compactable preprompt_count (length messages - preserve_recent) 0 messages in
    take (max 3 (length indices / 2)) indices

unfoldable pub enough : ℕ → ℕ → List Message → Bool
unfolding compactable
enough preprompt_count preserve_recent messages =
    leb 3 (length (compactable preprompt_count (length messages - preserve_recent) 0 messages))

unfoldable pub tick :
    ℕ
    → ℕ
    → ℕ
    → Option String
    → Fault
    → ℕ
    → List Message
    → List Message
    → ConversationStore
    → TickStatus × ConversationStore
unfolding chosen enough rebuild
tick tokens threshold preserve_recent summary fault ts messages current_messages s =
    if ltb tokens threshold
    then (monitoring, s)
    else if not (enough s.preprompt_count preserve_recent messages)
    then (too_few, s)
    else (elim summary [
      | none ↦ (failed_summary, s)
      | some text ↦
          let indices = chosen s.preprompt_count preserve_recent messages in
          (
            compacted (length indices),
            replace_all fault ts (some "compaction")
                (rebuild indices (summary_message text) false 0 current_messages) s,
          )
    ])
