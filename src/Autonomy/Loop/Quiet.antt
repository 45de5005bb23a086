-- ===== src/Autonomy/Loop/Quiet.antt =====
-- The autonomy loop keeps quiet around chats and after its own prompts, however the threads of
-- the chats, of the speech and of the loop interleave.
use glados_docker.Common.{
  Bool, Bool-cases, List, String, [], ap, arith, false, if◌then◌else◌, inl, inr, leb, refl, sym,
  true, ℕ, ◌&&◌, ◌+◌, ◌-◌, ◌<◌, ◌==◌, ◌∙◌, ◌∷◌, ◌≡◌, ◌≤◌,
}
use glados_docker.Autonomy.Loop.{
  AutonomyLoop, Event, dispatch, enter_chat, exit_chat, grace_after_chat, handle_event,
  is_chat_in_flight, should_skip,
}

-- What happened, the newest first. A dispatch has the monotonic and the wall clock at its test, and
-- the wall clock at its end.
pub data Entry : Type 0 where
  began : Entry
  ended : ℕ → Entry
  dispatched : ℕ → ℕ → ℕ → Entry

-- The chats that began and did not end.
abbrev pub open_chats : List Entry → ℕ
open_chats [] = 0
open_chats (began ∷ log) = open_chats log + 1
open_chats (ended t ∷ log) = open_chats log - 1
open_chats (dispatched mono now later ∷ log) = open_chats log

abbrev pub newest_end : List Entry → ℕ
newest_end [] = 0
newest_end (began ∷ log) = newest_end log
newest_end (ended t ∷ log) = t
newest_end (dispatched mono now later ∷ log) = newest_end log

abbrev pub newest_prompt : List Entry → ℕ
newest_prompt [] = 0
newest_prompt (began ∷ log) = newest_prompt log
newest_prompt (ended t ∷ log) = newest_prompt log
newest_prompt (dispatched mono now later ∷ log) = later

-- Each dispatch was tested while no chat was open, the grace time after the end of the last one,
-- and the cooldown after the last dispatch.
abbrev pub quiet : ℕ → List Entry → Bool
quiet cooldown [] = true
quiet cooldown (began ∷ log) = quiet cooldown log
quiet cooldown (ended t ∷ log) = quiet cooldown log
quiet cooldown (dispatched mono now later ∷ log) =
    open_chats log == 0
    && leb grace_after_chat (mono - newest_end log)
    && leb cooldown (now - newest_prompt log)
    && quiet cooldown log

abbrev logged : ℕ → ℕ → ℕ → Bool → List Entry → List Entry
logged mono now later sent log = if sent then dispatched mono now later ∷ log else log

-- The steps of the threads. A chat ends only after it began.
pub data Step : AutonomyLoop × List Entry → AutonomyLoop × List Entry → Type 0 where
  chat_begins :
      (l : AutonomyLoop) (log : List Entry)
      → Step (l, log) (record l { gate = enter_chat l.gate }, began ∷ log)
  chat_ends :
      (t : ℕ) (l : AutonomyLoop) (log : List Entry)
      → 0 < l.gate.active_chats
      → Step (l, log) (record l { gate = exit_chat t l.gate }, ended t ∷ log)
  speech :
      (b : Bool) (l : AutonomyLoop) (log : List Entry)
      → Step (l, log) (record l { speaking = b }, log)
  model_works :
      (queue : List String) (n : ℕ) (l : AutonomyLoop) (log : List Entry)
      → Step (l, log) (record l { llm_queue = queue; inflight = n }, log)
  handles :
      (mono now later : ℕ) (event : Event) (prompt : String) (l : AutonomyLoop) (log : List Entry)
      → Step
          (l, log)
          (
            (handle_event mono now later event prompt l).1,
            logged mono now later (handle_event mono now later event prompt l).0 log,
          )

pub data Trace (s : AutonomyLoop × List Entry) : AutonomyLoop × List Entry → Type 0 where
  at_start : Trace s s
  then_step : {t u : AutonomyLoop × List Entry} → Trace s t → Step t u → Trace s u

-- The log agrees with the state.
record Agrees (cooldown : ℕ) (s : AutonomyLoop × List Entry) : Type 0 where
  chats : open_chats s.1 ≡ s.0.gate.active_chats
  last_end : s.0.gate.active_chats ≡ 0 → newest_end s.1 ≡ s.0.gate.last_chat_end_ts
  last_prompt : newest_prompt s.1 ≡ s.0.last_prompt_ts
  configured : s.0.config.cooldown ≡ cooldown
  kept_quiet : quiet cooldown s.1 ≡ true

-- What a passed test of `_should_skip` says.
record MayAct (mono now : ℕ) (l : AutonomyLoop) : Type 0 where
  no_chat : l.gate.active_chats ≡ 0
  graced : grace_after_chat ≤ mono - l.gate.last_chat_end_ts
  cooled : l.config.cooldown ≤ now - l.last_prompt_ts

may_act : (mono now : ℕ) (l : AutonomyLoop) → should_skip mono now l ≡ false → MayAct mono now l
unfolding should_skip is_chat_in_flight
may_act mono now l h = record {
  no_chat = ground (arith, h);
  graced = ground (arith, h);
  cooled = ground (arith, h);
}

held_back :
    (mono now later : ℕ) (event : Event) (prompt : String) (l : AutonomyLoop)
    → should_skip mono now l ≡ true
    → (handle_event mono now later event prompt l).0 ≡ false
unfolding handle_event
held_back mono now later event prompt l h = ground (arith, h)

logged-quiet :
    (cooldown mono now later : ℕ) (l : AutonomyLoop) (log : List Entry) (sent : Bool)
    → Agrees cooldown (l, log)
    → MayAct mono now l
    → quiet cooldown (logged mono now later sent log) ≡ true
logged-quiet cooldown mono now later l log false a m = a.kept_quiet
logged-quiet cooldown mono now later l log true a m = ground (
  arith,
  a.kept_quiet,
  a.chats,
  a.last_end m.no_chat,
  a.last_prompt,
  a.configured,
  m.no_chat,
  m.graced,
  m.cooled,
)

handles-Agrees :
    (cooldown mono now later : ℕ) (event : Event) (prompt : String) (l : AutonomyLoop)
    (log : List Entry)
    → Agrees cooldown (l, log)
    → Agrees cooldown (
      (handle_event mono now later event prompt l).1,
      logged mono now later (handle_event mono now later event prompt l).0 log,
    )
unfolding handle_event should_skip is_chat_in_flight dispatch
handles-Agrees cooldown mono now later event prompt l log a = record {
  chats = ground (arith, a.chats);
  last_end = λ z. ground (arith, a.last_end);
  last_prompt = ground (arith, a.last_prompt);
  configured = ground (arith, a.configured);
  kept_quiet = elim (Bool-cases (should_skip mono now l)) [
    | inl busy ↦
        ap (λ b. quiet cooldown (logged mono now later b log))
          (held_back mono now later event prompt l busy)
        ∙ a.kept_quiet
    | inr free ↦
        logged-quiet cooldown mono now later l log (handle_event mono now later event prompt l).0 a
          (may_act mono now l free)
  ];
}

Step-Agrees :
    {s t : AutonomyLoop × List Entry} (cooldown : ℕ)
    → Agrees cooldown s
    → Step s t
    → Agrees cooldown t
unfolding enter_chat exit_chat
Step-Agrees cooldown a (chat_begins l log) = record {
  chats = omega (arith, a.chats);
  last_end = λ z. absurd (omega (arith, z));
  last_prompt = a.last_prompt;
  configured = a.configured;
  kept_quiet = a.kept_quiet;
}
Step-Agrees cooldown a (chat_ends t l log some_open) = record {
  chats = omega (arith, a.chats);
  last_end = λ z. ground (arith, z);
  last_prompt = a.last_prompt;
  configured = a.configured;
  kept_quiet = a.kept_quiet;
}
Step-Agrees cooldown a (speech b l log) = record {
  chats = a.chats;
  last_end = a.last_end;
  last_prompt = a.last_prompt;
  configured = a.configured;
  kept_quiet = a.kept_quiet;
}
Step-Agrees cooldown a (model_works queue n l log) = record {
  chats = a.chats;
  last_end = a.last_end;
  last_prompt = a.last_prompt;
  configured = a.configured;
  kept_quiet = a.kept_quiet;
}
Step-Agrees cooldown a (handles mono now later event prompt l log) =
    handles-Agrees cooldown mono now later event prompt l log a

Trace-Agrees :
    {s t : AutonomyLoop × List Entry} (cooldown : ℕ)
    → Agrees cooldown s
    → Trace s t
    → Agrees cooldown t
Trace-Agrees cooldown a at_start = a
Trace-Agrees cooldown a (then_step r step) = Step-Agrees cooldown (Trace-Agrees cooldown a r) step

-- From a loop whose gate and time stamp are new, and however chats, speech, the language model's
-- queue and the loop's events interleave: each prompt that the loop puts in the queue passed its
-- test while no chat was open, two seconds or more after the end of the last chat, and the cooldown
-- or more after the last prompt.
pub dispatches_quiet :
    (l : AutonomyLoop) {t : AutonomyLoop × List Entry}
    → l.gate ≡ record { active_chats = 0; last_chat_end_ts = 0 }
    → l.last_prompt_ts ≡ 0
    → Trace (l, []) t
    → quiet l.config.cooldown t.1 ≡ true
dispatches_quiet l {t} g p r =
    (Trace-Agrees l.config.cooldown
      (record {
        chats = sym (ap (λ x. x.active_chats) g);
        last_end = λ z. sym (ap (λ x. x.last_chat_end_ts) g);
        last_prompt = sym p;
        configured = refl;
        kept_quiet = refl;
      })
      r).kept_quiet
