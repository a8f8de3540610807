-- ===== src/Gui/Runtime.antt =====
-- The life of the GUI's ROS node: `RosRuntime` of
-- ros2_ws/src/vt_vive_tracker_gui/vt_vive_tracker_gui/runtime.py. The executor, its thread, the node and
-- the context are the parameter `env`; each of its answers is a function of the calls so far. A method
-- holds the lock throughout, so a call is one step.
pub mod Cleanup
pub mod Runs
mod Tests
use vision_tactile_dataset.Common.{
  ℕ, Bool, true, false, ◌||◌, Option, none, some, List, [], ◌∷◌, ◌++◌, String, if◌then◌else◌,
}
use vision_tactile_dataset.Common.Monad.{Result, ok, err, Action}

-- What the runtime calls.
pub data Call : Type 0 where
  thread_started executor_shut thread_joined alive_asked node_destroyed context_shut : Call

-- The calls so far, the latest first.
abbrev pub Trace : Type 0
Trace = List Call

-- An answer is none, or the exception that is raised.
pub record Env : Type 0 where
  pub thread_start : Trace → Option String
  pub executor_shutdown : Trace → Option String
  pub thread_join : Trace → Option String
  pub thread_is_alive : Trace → Bool
  pub destroy_node : Trace → Option String
  pub shutdown_context : Trace → Option String

pub data Fault : Type 0 where
  raised : String → Fault
  did_not_stop : Fault

-- `errors[0]`, or the group of them.
pub data Error : Type 0 where
  single : Fault → Error
  group : List Fault → Error

pub record RosRuntime : Type 0 where
  pub started : Bool
  pub stopped : Bool
  pub calls : Trace

abbrev pub new_runtime : RosRuntime
new_runtime = record { started = false; stopped = false; calls = [] }

abbrev pub Method : Type 0
Method = Action RosRuntime Error (Unit {0})

-- `errors.append(error)`, where one was raised.
abbrev pub noted : Option String → List Fault
noted none = []
noted (some e) = raised e ∷ []

abbrev pub outcome : List Fault → Result Error (Unit {0})
outcome [] = ok tt
outcome (e ∷ []) = err (single e)
outcome (e ∷ f ∷ es) = err (group (e ∷ f ∷ es))

module _ (env : Env) where
  abbrev pub started_by : Option String → RosRuntime → Result Error (Unit {0}) × RosRuntime
  started_by none s = (ok tt, s)
  started_by (some e) s = (err (single (raised e)), s)

  unfoldable pub start : Method
  start s =
      if s.started || s.stopped
      then (ok tt, s)
      else started_by (env.thread_start s.calls)
          (record s { started = true; calls = thread_started ∷ s.calls })

  -- The join and the question whether the thread is alive; the question is not put where the join
  -- raises.
  abbrev pub joined : Option String → Trace → List Fault × Trace
  joined (some e) t = (raised e ∷ [], thread_joined ∷ t)
  joined none t =
      let asked = thread_joined ∷ t in
      (if env.thread_is_alive asked then did_not_stop ∷ [] else [], alive_asked ∷ asked)

  abbrev pub join_thread : Bool → Trace → List Fault × Trace
  join_thread false t = ([], t)
  join_thread true t = joined (env.thread_join t) t

  -- The faults of a cleanup, and the calls behind it.
  unfoldable pub cleanup : Bool → Trace → List Fault × Trace
  cleanup started t =
      let shut = executor_shut ∷ t in
      let (faults, t') = join_thread started shut in
      (
        noted (env.executor_shutdown t)
            ++ (faults
                ++ (noted (env.destroy_node t')
                    ++ noted (env.shutdown_context (node_destroyed ∷ t')))),
        context_shut ∷ node_destroyed ∷ t',
      )

  unfoldable pub stop : Method
  stop s =
      if s.stopped
      then (ok tt, s)
      else let (faults, t) = cleanup s.started s.calls in
        (outcome faults, record s { stopped = true; calls = t })
