-- ===== src/Server/Wait.antt =====
-- The wait in `execute` of durian-server/src/executor_impl.rs: a spawned task ends by sending its
-- result through a oneshot channel, or by dropping the sender, while the answering future polls the
-- channel and yields. A schedule says whose turn it is.
use durian.Base.{
  ℕ, zero, suc, ◌<◌, ◌≡◌, ◌≢◌, ◌⊎◌, inl, inr, refl, ◌∙◌, Option, Option-cases, none, some, List, [],
  ◌∷◌, ◌++◌, arith,
}
use durian.Error.{Error}
use durian.Exec.{Outcome, ok, err, panicked}
use durian.Execute.{ResultData}
use durian.Wire.{WireCrates, ResultMessage}
use durian.Server.Executor.{answer, send_result}

-- What `try_recv` finds: `Empty`, `Ok(..)` or `Closed`.
pub data Channel : Type 0 where
  empty : Channel
  sent : ResultData → Channel
  closed : Channel

-- `task` is how many turns the task still takes before its last one, or nothing once it has ended;
-- `outcome` is that of its `execute`; `reply` is what the future has returned.
pub record Exchange : Type 0 where
  pub task : Option ℕ
  pub outcome : Outcome ResultData
  pub channel : Channel
  pub reply : Option (Outcome ResultMessage)

pub data Turn : Type 0 where
  task waiter : Turn

unfoldable pub spawn : ℕ → Outcome ResultData → Exchange
spawn steps outcome = record { task = some steps; outcome = outcome; channel = empty; reply = none }

-- The channel once the task has ended: `unwrap` panics on an error, which drops the sender.
abbrev pub ended : Outcome ResultData → Channel
ended (ok result) = sent result
ended (err e) = closed
ended panicked = closed

abbrev work : Option ℕ → Exchange → Exchange
work none e = e
work (some zero) e = record e { task = none; channel = ended e.outcome }
work (some (suc n)) e = record e { task = some n }

module _ ⦃crates : WireCrates⦄ where
  -- One round of the loop, by what `try_recv` finds.
  abbrev poll : Channel → Exchange → Exchange
  poll empty e = e
  poll closed e = record e { reply = some (err (Error.other crates.channel_closed)) }
  poll (sent result) e = record e { channel = closed; reply = some (ok (send_result result)) }

  abbrev unless_replied : Option (Outcome ResultMessage) → Exchange → Exchange
  unless_replied (some r) e = e
  unless_replied none e = poll e.channel e

  unfoldable pub step : Turn → Exchange → Exchange
  step Turn.task e = work e.task e
  step Turn.waiter e = unless_replied e.reply e

  unfoldable pub run : List Turn → Exchange → Exchange
  run [] e = e
  run (t ∷ ts) e = run ts (step t e)

  -- How often the task gets a turn.
  unfoldable pub task_turns : List Turn → ℕ
  task_turns [] = 0
  task_turns (Turn.task ∷ ts) = suc (task_turns ts)
  task_turns (Turn.waiter ∷ ts) = task_turns ts

  record IsSound (outcome : Outcome ResultData) (e : Exchange) : Type 0 where
    pub same : e.outcome ≡ outcome
    pub replied : (r : Outcome ResultMessage) → e.reply ≡ some r → r ≡ answer outcome
    pub waiting :
        e.reply ≡ none
        → ((e.channel ≡ empty) × (e.task ≢ none)) ⊎ ((e.channel ≡ ended outcome) × (e.task ≡ none))

  spawn-IsSound : (steps : ℕ) (outcome : Outcome ResultData) → IsSound outcome (spawn steps outcome)
  unfolding spawn
  spawn-IsSound steps outcome = record {
    same = refl;
    replied = λ r h. cc;
    waiting = λ h. inl (refl, cc);
  }

  step-IsSound :
      (t : Turn) (outcome : Outcome ResultData) (e : Exchange)
      → IsSound outcome e
      → IsSound outcome (step t e)
  unfolding step answer
  step-IsSound Turn.task outcome e h = record {
    same = ground (arith, h.same);
    replied = λ r q. ground (arith, h.replied r);
    waiting = λ q. ground (arith, h.waiting, h.same);
  }
  step-IsSound Turn.waiter outcome e h = record {
    same = ground (arith, h.same);
    replied = λ r q. ground (arith, h.replied r, h.waiting);
    waiting = λ q. ground (arith, h.waiting);
  }

  run-IsSound :
      (ts : List Turn) (outcome : Outcome ResultData) (e : Exchange)
      → IsSound outcome e
      → IsSound outcome (run ts e)
  unfolding run
  run-IsSound [] outcome e h = h
  run-IsSound (t ∷ ts) outcome e h = run-IsSound ts outcome (step t e) (step-IsSound t outcome e h)

  run-append : (ts us : List Turn) (e : Exchange) → run (ts ++ us) e ≡ run us (run ts e)
  unfolding run
  run-append [] us e = refl
  run-append (t ∷ ts) us e = run-append ts us (step t e)

  task-step : (t : Turn) (e : Exchange) → e.task ≡ none → (step t e).task ≡ none
  unfolding step
  task-step Turn.task e h = ground arith
  task-step Turn.waiter e h = ground arith

  task_ended-run : (ts : List Turn) (e : Exchange) → e.task ≡ none → (run ts e).task ≡ none
  unfolding run
  task_ended-run [] e h = h
  task_ended-run (t ∷ ts) e h = task_ended-run ts (step t e) (task-step t e h)

  task-step_waiter : (e : Exchange) → (step Turn.waiter e).task ≡ e.task
  unfolding step
  task-step_waiter e = ground arith

  task-step_task : (n : ℕ) (e : Exchange) → e.task ≡ some (suc n) → (step Turn.task e).task ≡ some n
  unfolding step
  task-step_task n e h = ground arith

  task-step_last : (e : Exchange) → e.task ≡ some 0 → (step Turn.task e).task ≡ none
  unfolding step
  task-step_last e h = ground arith

  task-run :
      (ts : List Turn) (n : ℕ) (e : Exchange)
      → e.task ≡ some n
      → n < task_turns ts
      → (run ts e).task ≡ none
  unfolding run task_turns
  task-run [] n e h lt = absurd (omega arith)
  task-run (Turn.waiter ∷ ts) n e h lt =
      task-run ts n (step Turn.waiter e) (task-step_waiter e ∙ h) lt
  task-run (Turn.task ∷ ts) zero e h lt = task_ended-run ts (step Turn.task e) (task-step_last e h)
  task-run (Turn.task ∷ ts) (suc n) e h lt =
      task-run ts n (step Turn.task e) (task-step_task n e h) (omega arith)

  reply-step :
      (t : Turn) (e : Exchange) {r : Outcome ResultMessage}
      → e.reply ≡ some r
      → (step t e).reply ≡ some r
  unfolding step
  reply-step Turn.task e h = ground arith
  reply-step Turn.waiter e h = ground arith

  reply_stays :
      (ts : List Turn) (e : Exchange) {r : Outcome ResultMessage}
      → e.reply ≡ some r
      → (run ts e).reply ≡ some r
  unfolding run
  reply_stays [] e h = h
  reply_stays (t ∷ ts) e h = reply_stays ts (step t e) (reply-step t e h)

  reply-step_ended :
      (outcome : Outcome ResultData) (e : Exchange)
      → IsSound outcome e
      → e.task ≡ none
      → (step Turn.waiter e).reply ≡ some (answer outcome)
  unfolding step answer
  reply-step_ended outcome e h done = elim (Option-cases e.reply) [
    | inl none_yet ↦ ground (arith, h.waiting)
    | inr (r, given) ↦ ground (arith, h.replied r given)
  ]

  -- Whatever the schedule, the caller never gets anything but the answer for the task's outcome.
  pub reply-run :
      (steps : ℕ) (outcome : Outcome ResultData) (ts : List Turn) {r : Outcome ResultMessage}
      → (run ts (spawn steps outcome)).reply ≡ some r
      → r ≡ answer outcome
  reply-run steps outcome ts {r} h =
      (run-IsSound ts outcome (spawn steps outcome) (spawn-IsSound steps outcome)).replied r h

  -- Under any schedule that gives the task its turns, the loop ends at its next round, with the answer
  -- for the task's outcome.
  pub reply-run_fair :
      (steps : ℕ) (outcome : Outcome ResultData) (ts us : List Turn)
      → steps < task_turns ts
      → (run (ts ++ Turn.waiter ∷ us) (spawn steps outcome)).reply ≡ some (answer outcome)
  unfolding spawn
  reply-run_fair steps outcome ts us h =
      let e = run ts (spawn steps outcome) in
      let sound : IsSound outcome e =
        run-IsSound ts outcome (spawn steps outcome) (spawn-IsSound steps outcome) in
      let done : e.task ≡ none = task-run ts steps (spawn steps outcome) refl h in
      rw (run-append ts (Turn.waiter ∷ us) (spawn steps outcome))
        (unfold run in reply_stays us (step Turn.waiter e) (reply-step_ended outcome e sound done))
