-- ===== src/Commands/Resolver/Followups.antt =====
-- What a follow-up gets from the turn before it.
use glados_docker.Common.{
  String, arith, if◌then◌else◌, none, refl, some, strip, subst, sym, true, ℕ, ◌+◌, ◌<◌, ◌≡◌, ◌≤◌,
}
use glados_docker.SessionMemory.{last_turn}
use glados_docker.SessionMemory.Reads.{last_turn-record_turn}
use glados_docker.Commands.Anaphora.{is_anaphoric_followup}
use glados_docker.Commands.Resolver.{Carryover, Collaborators, ResolvedAction, SourceContext, State}
use glados_docker.Commands.Resolver.Steps.{acts, build_carryover, within_window}
use glados_docker.Commands.Resolver.Records.{turn_of}
use glados_docker.Commands.Resolver.Resolve.{resolve}
use glados_docker.Commands.Resolver.Recorded.{action_of, resolve-recorded}

-- The carry-over of an action.
abbrev pub carried : ResolvedAction → Carryover
carried a = record {
  entity_ids = a.entity_ids;
  service = a.service;
  source = "session";
  learned_row_id = none;
}

-- After a call of `resolve` has returned an action with an entity or a service, a follow-up in the
-- same session, neither later than the carry-over window nor than the idle time of the session,
-- gets that action's entities and service as its carry-over, whatever the collaborators did, if its
-- utterance is anaphoric, and none if it is not.
pub followup_inherits :
    (w : Collaborators) (now later : ℕ) (u v : String) (ctx ctx' : SourceContext) (st : State)
    (a : ResolvedAction)
    → 0 < st.session.buffer_size
    → acts a.entity_ids a.service ≡ true
    → action_of (resolve w now u ctx st).0 ≡ some a
    → ctx'.session_id ≡ ctx.session_id
    → later ≤ now + st.session.ttl
    → later ≤ now + w.carryover_window
    → (build_carryover w later v ctx' (resolve w now u ctx st).1).0
      ≡ (if is_anaphoric_followup w.lower v then some (carried a) else none)
unfolding build_carryover
followup_inherits w now later u v ctx ctx' st a positive h g s t c =
    let (m, conversation, (size, ttl), e) = resolve-recorded w now u ctx st a h g in
    let st' = (resolve w now u ctx st).1 in
    let turn = turn_of now (strip u) a conversation in
    let last : (last_turn later ctx'.session_id st'.session).0 ≡ some turn =
      subst (λ sid. (last_turn later sid st'.session).0 ≡ some turn) (sym s)
        (last_turn-record_turn now later ctx.session_id turn m
          (subst (λ n. 0 < n) (sym size) positive) e (subst (λ n. later ≤ now + n) (sym ttl) t)) in
    let fresh : within_window w later turn ≡ true = ground arith in rw (last, fresh) refl
