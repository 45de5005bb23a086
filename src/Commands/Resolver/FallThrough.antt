-- ===== src/Commands/Resolver/FallThrough.antt =====
-- What a call that falls through leaves.
use glados_docker.Common.{
  Bool, Bool-cases, List, Option, String, [], ap, arith, false, if◌then◌else◌, inl, inr, keep, leb,
  none, not, or_else, refl, some, str_eq, strip, sym, true, ℕ, ◌-◌, ◌==◌, ◌∙◌, ◌∷◌, ◌≡◌,
}
use glados_docker.SessionMemory.{last_turn}
use glados_docker.Commands.Learned.{LearnedRow, bump_failure, spent, update_rows, weakened}
use glados_docker.Commands.Resolver.{
  Answer, BridgeResult, Carryover, Collaborators, ResolverResult, SourceContext, State, answers,
  fails, fall_through, nothing_done,
}
use glados_docker.Commands.Resolver.Queries.{is_state_query}
use glados_docker.Commands.Resolver.Steps.{
  build_carryover, conversation_of, request_of, row_of_carryover, tier1_answer, tier1_result,
  tier2_answer, try_tier1, try_tier2,
}
use glados_docker.Commands.Resolver.Records.{audited, record_action, reinforce_learned}
use glados_docker.Commands.Resolver.Resolve.{
  Resolved, after_tier1, after_tier2, empty_utterance, finish_turn, penalize, replied, resolve,
  resolve_command, value_error,
}

abbrev pub falls_through : Resolved → Bool
falls_through (replied r) = r.should_fall_through
falls_through value_error = false

-- The learned row that a result names.
abbrev pub guess_of : Resolved → Option ℕ
guess_of (replied r) = r.learned_row_id
guess_of value_error = none

-- The audits and the learned rows after a call that falls through: an unused guess is weakened.
pub record FallsThrough (st : State) (x : Resolved × State) : Type 0 where
  pub audits : falls_through x.0 ≡ true → x.1.audits ≡ st.audits
  pub learned : falls_through x.0 ≡ true → x.1.learned ≡ (penalize (guess_of x.0) st).learned

penalized-learned :
    (row : Option ℕ) (st' st : State)
    → st'.learned ≡ st.learned
    → (penalize row st').learned ≡ (penalize row st).learned
penalized-learned none st' st l = l
penalized-learned (some i) st' st l = ap (bump_failure i) l

finish_turn-FallsThrough :
    (after : State → State) (r : ResolverResult) (st : State) (o : Option State)
    → r.should_fall_through ≡ false
    → FallsThrough st (finish_turn after r st o)
finish_turn-FallsThrough after r st none f = record { audits = λ e. cc; learned = λ e. cc }
finish_turn-FallsThrough after r st (some st') f = record { audits = λ e. cc; learned = λ e. cc }

if-FallsThrough :
    (st : State) (b : Bool) (x y : Resolved × State)
    → (b ≡ true → FallsThrough st x)
    → FallsThrough st y
    → FallsThrough st (if◌then◌else◌ {A = Resolved × State} b x y)
if-FallsThrough st true x y f g = f refl
if-FallsThrough st false x y f g = g

penalized-FallsThrough :
    (r : ResolverResult) (st : State) (row : Option ℕ)
    → r.learned_row_id ≡ row
    → FallsThrough st (replied r, penalize row st)
penalized-FallsThrough r st none e = record { audits = λ f. refl; learned = λ f. rw e refl }
penalized-FallsThrough r st (some row) e = record { audits = λ f. refl; learned = λ f. rw e refl }

-- A handled result of the second tier does not fall through.
tier2_handled :
    (w : Collaborators) (ctx : SourceContext) (c : Option Carryover) (o : Answer)
    → (tier2_answer w ctx c o).handled ≡ true
    → (tier2_answer w ctx c o).should_fall_through ≡ false
tier2_handled w ctx c (fails kind) h = cc
tier2_handled w ctx c (answers r) h = elim (Bool-cases r.handled) [
  | inl e ↦ rw e refl
  | inr e ↦ absurd (unhandled (rw e at h))
]
  where
    unhandled : false ≡ true → ⊥
    unhandled e = cc

tier1_handled :
    (w : Collaborators) (u : String) (ctx : SourceContext) (o : Option BridgeResult)
    (r : ResolverResult)
    → tier1_answer w u ctx o ≡ some r
    → r.should_fall_through ≡ false
tier1_handled w u ctx none r e = cc
tier1_handled w u ctx (some b) r e = elim (Bool-cases b.handled) [
  | inl h ↦
      let p : some (tier1_result w u ctx b) ≡ some r = rw h at e in
      let q : tier1_result w u ctx b ≡ r = cc p in ap (λ x. x.should_fall_through) (sym q)
  | inr h ↦ absurd (nothing (rw h at e))
]
  where
    nothing : none ≡ some r → ⊥
    nothing e = cc

after_tier2-FallsThrough :
    (w : Collaborators) (now : ℕ) (u : String) (ctx : SourceContext) (c : Option Carryover)
    (st : State)
    → FallsThrough st (after_tier2 w now u ctx c st (try_tier2 w u ctx c))
unfolding try_tier2
after_tier2-FallsThrough w now u ctx c st =
    let r = try_tier2 w u ctx c in
    let fallen : ResolverResult = record nothing_done {
      should_fall_through = true;
      rationale = some (or_else r.rationale "tier2_fall_through");
      learned_row_id = row_of_carryover c;
    } in
    if-FallsThrough st r.handled
      (finish_turn (λ s. audited 2 r (reinforce_learned w now u ctx r s)) r st
        (record_action now ctx u r.action r.ha_conversation_id st))
      (replied fallen, penalize (row_of_carryover c) st)
      (λ h.
        finish_turn-FallsThrough (λ s. audited 2 r (reinforce_learned w now u ctx r s)) r st
          (record_action now ctx u r.action r.ha_conversation_id st)
          (tier2_handled w ctx c (w.disambiguator (request_of u ctx c)) h))
      (penalized-FallsThrough fallen st (row_of_carryover c) refl)

after_tier1-FallsThrough :
    (w : Collaborators) (now : ℕ) (u : String) (ctx : SourceContext) (c : Option Carryover)
    (st : State) (b : Option BridgeResult) (o : Option ResolverResult)
    → tier1_answer w u ctx b ≡ o
    → FallsThrough st (after_tier1 w now u ctx c st o)
after_tier1-FallsThrough w now u ctx c st b none e = after_tier2-FallsThrough w now u ctx c st
after_tier1-FallsThrough w now u ctx c st b (some r) e =
    finish_turn-FallsThrough (audited 1 r) r st
      (record_action now ctx u r.action r.ha_conversation_id st) (tier1_handled w u ctx b r e)

same_rest :
    (st st' : State) (x : Resolved × State)
    → st'.audits ≡ st.audits
    → st'.learned ≡ st.learned
    → FallsThrough st' x
    → FallsThrough st x
same_rest st st' x a l f = record {
  audits = λ e. f.audits e ∙ a;
  learned = λ e. f.learned e ∙ penalized-learned (guess_of x.0) st' st l;
}

command-FallsThrough :
    (w : Collaborators) (now : ℕ) (u : String) (ctx : SourceContext) (st : State)
    → FallsThrough st (resolve_command w now u ctx st)
unfolding build_carryover try_tier1
command-FallsThrough w now u ctx st =
    let (c, st1) = build_carryover w now u ctx st in
    let (t1, st2) = try_tier1 w now u ctx st1 in
    same_rest st st2 (resolve_command w now u ctx st) refl refl (
      after_tier1-FallsThrough w now u ctx c st2
        (w.bridge u (conversation_of (last_turn now ctx.session_id st1.session).0)) t1 refl)

resolve-FallsThrough :
    (w : Collaborators) (now : ℕ) (u : String) (ctx : SourceContext) (st : State)
    → FallsThrough st (resolve w now u ctx st)
unfolding resolve
resolve-FallsThrough w now u ctx st =
    let v = strip u in
    if-FallsThrough st (str_eq v "") (replied empty_utterance, st)
      (if◌then◌else◌ {A = Resolved × State} (is_state_query w.is_word w.lower v)
        (replied (fall_through "state_query" none), st) (resolve_command w now v ctx st))
      (λ e. record { audits = λ f. refl; learned = λ f. refl })
      (if-FallsThrough st (is_state_query w.is_word w.lower v)
        (replied (fall_through "state_query" none), st) (resolve_command w now v ctx st)
        (λ e. record { audits = λ f. refl; learned = λ f. refl })
        (command-FallsThrough w now v ctx st))

-- The learned rows after a guess that was of no use: its row has one reinforcement less, and is gone
-- where it had no more than one; without a guess, and of other rows, nothing changes.
abbrev pub without_guess : Option ℕ → List LearnedRow → List LearnedRow
without_guess none rows = rows
without_guess (some i) [] = []
without_guess (some i) (row ∷ rows) =
    let rest = without_guess (some i) rows in
    if not (row.id == i)
    then row ∷ rest
    else if leb row.reinforcement 1
    then rest
    else record row { reinforcement = row.reinforcement - 1 } ∷ rest

weakened-rows :
    (i : ℕ) (rows : List LearnedRow)
    → keep (λ row. not (spent i row)) (update_rows i weakened rows) ≡ without_guess (some i) rows
weakened-rows i [] = refl
weakened-rows i (row ∷ rows) = elim (Bool-cases (row.id == i)) [
  | inr other' ↦ rw (other', other') (ap (λ rs. row ∷ rs) (weakened-rows i rows))
  | inl hit ↦ elim (Bool-cases (leb row.reinforcement 1)) [
    | inl last ↦
        let low : row.reinforcement - 1 == 0 ≡ true = ground (arith, last) in
        rw (hit, hit, low, last) (weakened-rows i rows)
    | inr more ↦
        let high : row.reinforcement - 1 == 0 ≡ false = ground (arith, more) in
        rw (hit, hit, high, more)
          (ap (λ rs. record row { reinforcement = row.reinforcement - 1 } ∷ rs)
            (weakened-rows i rows))
  ]
]

penalized-rows :
    (guess : Option ℕ) (st : State)
    → (penalize guess st).learned.rows ≡ without_guess guess st.learned.rows
unfolding bump_failure
penalized-rows none st = refl
penalized-rows (some i) st = weakened-rows i st.learned.rows

-- A call of `resolve` that falls through to the agent, for a state query or because neither tier
-- handled it, has written no audit entry; the learned row that it reports as its guess, if there is
-- one, has one reinforcement less, and is gone if it had no more than one; and every other learned
-- row is as before.
pub fall_through-rest :
    (w : Collaborators) (now : ℕ) (u : String) (ctx : SourceContext) (st : State)
    → falls_through (resolve w now u ctx st).0 ≡ true
    → ((resolve w now u ctx st).1.audits ≡ st.audits)
      × ((resolve w now u ctx st).1.learned.rows
          ≡ without_guess (guess_of (resolve w now u ctx st).0) st.learned.rows)
fall_through-rest w now u ctx st e =
    let f = resolve-FallsThrough w now u ctx st in
    (
      f.audits e,
      ap (λ l. l.rows) (f.learned e) ∙ penalized-rows (guess_of (resolve w now u ctx st).0) st,
    )
