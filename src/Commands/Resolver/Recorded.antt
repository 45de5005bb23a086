-- ===== src/Commands/Resolver/Recorded.antt =====
-- What `resolve` records of an action.
use glados_docker.Common.{
  Bool, Bool-cases, Option, String, ap, false, get, if◌then◌else◌, inl, inr, none, or_else, refl,
  some, str_eq, strip, subst, sym, true, ℕ, ◌∙◌, ◌≡◌,
}
use glados_docker.Ha.Cache.{nonempty}
use glados_docker.SessionMemory.{
  SessionMemory, SessionState, is_expired, last_turn, recent_turns, record_turn, touch,
}
use glados_docker.Commands.Resolver.Queries.{is_state_query}
use glados_docker.Commands.Resolver.{
  Carryover, Collaborators, ResolvedAction, ResolverResult, SourceContext, State, fall_through,
  nothing_done,
}
use glados_docker.Commands.Resolver.Steps.{
  acts, build_carryover, row_of_carryover, try_tier1, try_tier2,
}
use glados_docker.Commands.Resolver.Records.{
  audited, learn, learn_action, record_action, reinforce_learned, turn_of, with_session,
}
use glados_docker.Commands.Resolver.Resolve.{
  Resolved, after_tier1, after_tier2, empty_utterance, finish_turn, penalize, replied, resolve,
  resolve_command, value_error,
}

abbrev pub action_of : Resolved → Option ResolvedAction
action_of (replied r) = r.action
action_of value_error = none

-- The same limits.
abbrev pub SameLimits : SessionMemory → SessionMemory → Type 0
SameLimits m m' = (m'.buffer_size ≡ m.buffer_size) × (m'.ttl ≡ m.ttl)

-- The session memory is one that a turn for the action was just recorded in.
abbrev pub RecordedIn : ℕ → SourceContext → String → ResolvedAction → SessionMemory → State → Type 0
RecordedIn now ctx utterance a m0 st =
    (m : SessionMemory) × (conversation : Option String) × (limits : SameLimits m0 m) × (record_turn
        now ctx.session_id (turn_of now utterance a conversation) m
      ≡ some st.session)

touch-limits :
    (now : ℕ) (sid : String) (limit : Option ℕ) (m : SessionMemory) (o : Option SessionState)
    → SameLimits m (touch now sid limit m o).1
unfolding touch
touch-limits now sid limit m none = (refl, refl)
touch-limits now sid limit m (some s) = elim (Bool-cases (is_expired m.ttl now s)) [
  | inl old ↦ rw old (refl, refl)
  | inr fresh ↦ rw fresh (refl, refl)
]

last_turn-limits :
    (now : ℕ) (sid : String) (m : SessionMemory) → SameLimits m (last_turn now sid m).1
unfolding last_turn recent_turns
last_turn-limits now sid m = touch-limits now sid (some 1) m (get sid m.sessions)

learn-session :
    (w : Collaborators) (now : ℕ) (utterance : String) (ctx : SourceContext)
    (verb area : Option String) (st : State)
    → (learn w now utterance ctx verb area st).session ≡ st.session
learn-session w now utterance ctx none none st = refl
learn-session w now utterance ctx none (some area) st = refl
learn-session w now utterance ctx (some verb) none st = refl
learn-session w now utterance ctx (some verb) (some area) st = refl

learn_action-session :
    (w : Collaborators) (now : ℕ) (utterance : String) (ctx : SourceContext) (asks : Bool)
    (o : Option ResolvedAction) (st : State)
    → (learn_action w now utterance ctx asks o st).session ≡ st.session
learn_action-session w now utterance ctx asks none st = refl
learn_action-session w now utterance ctx true (some a) st = refl
learn_action-session w now utterance ctx false (some a) st =
    learn-session w now utterance ctx (nonempty a.service) (nonempty a.resolved_area_id) st

-- The turn that `record_action` records.
with_session-recorded :
    (st : State) (o : Option SessionMemory) (st' : State)
    → with_session st o ≡ some st'
    → o ≡ some st'.session
with_session-recorded st none st' e = cc
with_session-recorded st (some m) st' e =
    let new : State = record st { session = m } in
    let q : new ≡ st' = cc e in ap (λ s. some s.session) q

record_action-recorded :
    (now : ℕ) (ctx : SourceContext) (utterance : String) (a : ResolvedAction)
    (conversation : Option String) (st st' : State)
    → acts a.entity_ids a.service ≡ true
    → record_action now ctx utterance (some a) conversation st ≡ some st'
    → record_turn now ctx.session_id (turn_of now utterance a conversation) st.session
      ≡ some st'.session
unfolding record_action
record_action-recorded now ctx utterance a conversation st st' h e =
    with_session-recorded st
      (record_turn now ctx.session_id (turn_of now utterance a conversation) st.session) st'
      (rw h at e)

finish_turn-recorded :
    (now : ℕ) (ctx : SourceContext) (utterance : String) (a : ResolvedAction) (r : ResolverResult)
    (after : State → State) (st : State) (o : Option State)
    → ((s : State) → (after s).session ≡ s.session)
    → r.action ≡ some a
    → acts a.entity_ids a.service ≡ true
    → record_action now ctx utterance r.action r.ha_conversation_id st ≡ o
    → action_of (finish_turn after r st o).0 ≡ some a
    → RecordedIn now ctx utterance a st.session (finish_turn after r st o).1
finish_turn-recorded now ctx utterance a r after st none k f h e g = cc
finish_turn-recorded now ctx utterance a r after st (some st') k f h e g =
    let e' : record_action now ctx utterance (some a) r.ha_conversation_id st ≡ some st' =
      subst (λ x. record_action now ctx utterance x r.ha_conversation_id st ≡ some st') f e in
    (
      st.session,
      r.ha_conversation_id,
      (refl, refl),
      record_action-recorded now ctx utterance a r.ha_conversation_id st st' h e'
          ∙ ap some (sym (k st')),
    )

-- The result of a finished call is the one that was finished.
finish_turn-action :
    (after : State → State) (r : ResolverResult) (st : State) (o : Option State)
    (a : ResolvedAction)
    → action_of (finish_turn after r st o).0 ≡ some a
    → r.action ≡ some a
finish_turn-action after r st none a g = cc
finish_turn-action after r st (some st') a g = g

if-recorded :
    (now : ℕ) (ctx : SourceContext) (utterance : String) (a : ResolvedAction) (m : SessionMemory)
    (b : Bool) (x y : Resolved × State)
    → (action_of x.0 ≡ some a → RecordedIn now ctx utterance a m x.1)
    → (action_of y.0 ≡ some a → RecordedIn now ctx utterance a m y.1)
    → action_of (if◌then◌else◌ {A = Resolved × State} b x y).0 ≡ some a
    → RecordedIn now ctx utterance a m (if◌then◌else◌ {A = Resolved × State} b x y).1
if-recorded now ctx utterance a m true x y f g e = f e
if-recorded now ctx utterance a m false x y f g e = g e

none-some : (a : ResolvedAction) → none ≡ some a → ⊥
none-some a e = cc

tier2-recorded :
    (w : Collaborators) (now : ℕ) (utterance : String) (ctx : SourceContext) (c : Option Carryover)
    (st : State) (r : ResolverResult) (a : ResolvedAction)
    → acts a.entity_ids a.service ≡ true
    → action_of (after_tier2 w now utterance ctx c st r).0 ≡ some a
    → RecordedIn now ctx utterance a st.session (after_tier2 w now utterance ctx c st r).1
tier2-recorded w now utterance ctx c st r a h g =
    let after : State → State = λ s. audited 2 r (reinforce_learned w now utterance ctx r s) in
    let recorded = record_action now ctx utterance r.action r.ha_conversation_id st in
    let fallen : ResolverResult = record nothing_done {
      should_fall_through = true;
      rationale = some (or_else r.rationale "tier2_fall_through");
      learned_row_id = row_of_carryover c;
    } in
    if-recorded now ctx utterance a st.session r.handled (finish_turn after r st recorded)
      (replied fallen, penalize (row_of_carryover c) st)
      (λ e.
        finish_turn-recorded now ctx utterance a r after st recorded
          (λ s.
            unfold reinforce_learned in
            learn_action-session w now utterance ctx r.needs_clarification r.action s)
          (finish_turn-action after r st recorded a e) h refl e)
      (λ e. absurd (none-some a e)) g

tier1-recorded :
    (w : Collaborators) (now : ℕ) (utterance : String) (ctx : SourceContext) (c : Option Carryover)
    (st : State) (o : Option ResolverResult) (a : ResolvedAction)
    → acts a.entity_ids a.service ≡ true
    → action_of (after_tier1 w now utterance ctx c st o).0 ≡ some a
    → RecordedIn now ctx utterance a st.session (after_tier1 w now utterance ctx c st o).1
tier1-recorded w now utterance ctx c st none a h g =
    tier2-recorded w now utterance ctx c st (try_tier2 w utterance ctx c) a h g
tier1-recorded w now utterance ctx c st (some r) a h g =
    let recorded = record_action now ctx utterance r.action r.ha_conversation_id st in
    finish_turn-recorded now ctx utterance a r (audited 1 r) st recorded (λ s. refl)
      (finish_turn-action (audited 1 r) r st recorded a g) h refl g

-- The limits of the memory through the two reads of the last turn.
recorded_from :
    (now : ℕ) (ctx : SourceContext) (utterance : String) (a : ResolvedAction) (m m' : SessionMemory)
    (st : State)
    → SameLimits m m'
    → RecordedIn now ctx utterance a m' st
    → RecordedIn now ctx utterance a m st
recorded_from now ctx utterance a m m' st l (n, conversation, k, e) =
    (n, conversation, (k.0 ∙ l.0, k.1 ∙ l.1), e)

command-recorded :
    (w : Collaborators) (now : ℕ) (utterance : String) (ctx : SourceContext) (st : State)
    (a : ResolvedAction)
    → acts a.entity_ids a.service ≡ true
    → action_of (resolve_command w now utterance ctx st).0 ≡ some a
    → RecordedIn now ctx utterance a st.session (resolve_command w now utterance ctx st).1
unfolding build_carryover try_tier1
command-recorded w now utterance ctx st a h g =
    let (c, st1) = build_carryover w now utterance ctx st in
    let (t1, st2) = try_tier1 w now utterance ctx st1 in
    recorded_from now ctx utterance a st.session st1.session
      (resolve_command w now utterance ctx st).1 (last_turn-limits now ctx.session_id st.session)
      (recorded_from now ctx utterance a st1.session st2.session
        (resolve_command w now utterance ctx st).1 (last_turn-limits now ctx.session_id st1.session)
        (tier1-recorded w now utterance ctx c st2 t1 a h g))

-- An action that `resolve` returns was recorded as a turn of the session.
pub resolve-recorded :
    (w : Collaborators) (now : ℕ) (utterance : String) (ctx : SourceContext) (st : State)
    (a : ResolvedAction)
    → acts a.entity_ids a.service ≡ true
    → action_of (resolve w now utterance ctx st).0 ≡ some a
    → RecordedIn now ctx (strip utterance) a st.session (resolve w now utterance ctx st).1
unfolding resolve
resolve-recorded w now utterance ctx st a h g =
    let u = strip utterance in
    if-recorded now ctx u a st.session (str_eq u "") (replied empty_utterance, st)
      (if◌then◌else◌ {A = Resolved × State} (is_state_query w.is_word w.lower u)
        (replied (fall_through "state_query" none), st) (resolve_command w now u ctx st))
      (λ e. absurd (none-some a e))
      (if-recorded now ctx u a st.session (is_state_query w.is_word w.lower u)
        (replied (fall_through "state_query" none), st) (resolve_command w now u ctx st)
        (λ e. absurd (none-some a e)) (command-recorded w now u ctx st a h))
      g
