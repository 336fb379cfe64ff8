-- ===== src/Worker/Loop.antt =====
-- core/worker.py: the main loop of the worker, `run`, and the rounds of `health_check_loop`. What
-- SSM and SQS answer and the state of the shutdown event are arguments of each turn; the pauses, the
-- log, the number of messages asked for, a KeyboardInterrupt and the metrics server are not modelled.
pub mod Places
pub mod Handles
pub mod Runs
use ai_inference_project.Common.{
  ℕ, String, Bool, true, false, Option, none, some, List, [], ◌∷◌, if◌then◌else◌, Exception, Result,
  ok, raised,
}
use ai_inference_project.Gateway.Auth.{lowers_to}
use ai_inference_project.Worker.Actions.{
  Action, Outcome, pure, raise, ◌>>=◌, ◌>>◌, continue, health_error,
}
use ai_inference_project.Worker.Messages.{Message, Intake, process_messages}

-- What `ssm.get_parameter` answers: a value, a `ClientError`, or another exception.
pub data Parameter : Type 0 where
  value : String → Parameter
  client_error : Parameter
  failure : Exception → Parameter

unfoldable pub check_kill_switch : Parameter → Action Bool
check_kill_switch (value text) = pure (lowers_to text "true")
check_kill_switch client_error = health_error >> pure false
check_kill_switch (failure e) = raise e

-- A turn of the loop: `stopping` says that shutdown is asked for before the turn, and `stopping_late`
-- that it is asked for while the queue is polled.
pub record Turn : Type 0 where
  pub stopping : Bool
  pub switch : Parameter
  pub received : Result (List Message)
  pub stopping_late : Bool
  pub intake : Intake

-- What a turn does after the switch, once it has the messages.
unfoldable pub handle : Turn → List Message → Action (Unit {0})
handle t [] = pure tt
handle t (m ∷ ms) =
    if t.stopping_late then pure tt else process_messages t.intake (m ∷ ms) >>= λ done. pure tt

-- `sqs.receive_message` and `response.get("Messages", [])`
unfoldable pub receive : Turn → Action (List Message)
receive t = elim t.received [ raised e ↦ raise e | ok ms ↦ pure ms ]

-- The `try` block of a turn.
unfoldable pub try_turn : Turn → Action (Unit {0})
try_turn t =
    check_kill_switch t.switch >>= λ allowed. if allowed then receive t >>= handle t else pure tt

-- `except Exception`
unfoldable pub guarded : Action (Unit {0}) → Action (Unit {0})
guarded act w = let o = act w in elim o.result [ ok u ↦ o | raised e ↦ health_error o.after ]

-- The loop, over the turns that are offered to it.
unfoldable pub run : List Turn → Action (Unit {0})
run [] = pure tt
run (t ∷ ts) = if t.stopping then pure tt else guarded (try_turn t) >> run ts

-- A round of `health_check_loop`: whether the queue can be reached.
unfoldable pub health_check : Result (Unit {0}) → Action (Unit {0})
health_check (ok u) = pure tt
health_check (raised e) = health_error
