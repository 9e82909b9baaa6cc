-- ===== src/Helpers/DevServer.antt =====
-- internal/testhelpers/devserver.go: `StartDevServerWorker`. The SDK's servers and workers are
-- parameters, and so are the name of the test and its temporary directory.
use temporal_mistakes.Base.{Option, none, some, ◌⊎◌, inl, inr, String, List, [], ◌∷◌, ◌++◌, map}
use temporal_mistakes.Base.Text.{concat}
use temporal_mistakes.Errors.{Err}
use temporal_mistakes.Policy.Wiring.{ActivityPolicyInterceptor, new}
use temporal_mistakes.Helpers.{
  HelperOption, HelperConfig, new_helper_config, activity_policy_options,
}

-- What a call finds: the results of sdktestsuite.StartDevServer with extra arguments, of Client, of
-- Start of a worker with its task queue and interceptors, and of t.TempDir.
pub record Sdk (Server Client : Type 0) : Type 0 where
  pub start_dev_server : List String → Err ⊎ Server
  pub client_of : Server → Client
  pub start_worker : Client → String → List ActivityPolicyInterceptor → Option Err
  pub temp_dir : String

-- What is started, and is stopped by a function given to t.Cleanup.
pub data Resource (Server Client : Type 0) : Type 0 where
  server : Server → Resource Server Client
  connection : Client → Resource Server Client
  worker : Client → String → List ActivityPolicyInterceptor → Resource Server Client

pub data Event (Server Client : Type 0) : Type 0 where
  starts : Resource Server Client → Event Server Client
  registers : (task_queue : String) → Event Server Client
  fatal : (what : String) → Err → Event Server Client
  stops : Resource Server Client → Event Server Client

-- The state of a test: what happened, and the functions given to t.Cleanup, the latest first.
pub record Test (Server Client : Type 0) : Type 0 where
  pub events : List (Event Server Client)
  pub cleanups : List (Resource Server Client)

module _ {Server Client : Type 0} where
  abbrev emit : Event Server Client → Test Server Client → Test Server Client
  emit event t = record t { events = t.events ++ event ∷ [] }

  -- A resource is started, and its end is left to t.Cleanup.
  abbrev pub start : Resource Server Client → Test Server Client → Test Server Client
  start r t = record { events = t.events ++ starts r ∷ []; cleanups = r ∷ t.cleanups }

  -- The functions given to t.Cleanup run when the test ends, the last added first.
  unfoldable pub finish : Test Server Client → List (Event Server Client)
  finish t = t.events ++ map stops t.cleanups

  module _ (name : String) (sdk : Sdk Server Client) where
    abbrev pub worker_interceptors : HelperConfig → List ActivityPolicyInterceptor
    worker_interceptors cfg = new (activity_policy_options cfg) ∷ []

    -- The result is `none` if t.Fatalf ends the test.
    abbrev pub after_worker :
        Client
        → String
        → HelperConfig
        → Option Err
        → Test Server Client
        → Test Server Client × Option (Client × String)
    after_worker c task_queue cfg (some err) t = (emit (fatal "worker.Start" err) t, none)
    after_worker c task_queue cfg none t =
        (start (worker c task_queue (worker_interceptors cfg)) t, some (c, task_queue))

    abbrev pub with_client :
        Client → HelperConfig → Test Server Client → Test Server Client × Option (Client × String)
    with_client c cfg t =
        let task_queue = concat (name ∷ "-" ∷ sdk.temp_dir ∷ []) in
        after_worker c task_queue cfg (sdk.start_worker c task_queue (worker_interceptors cfg))
          (emit (registers task_queue) t)

    abbrev pub after_server :
        HelperConfig
        → Err ⊎ Server
        → Test Server Client
        → Test Server Client × Option (Client × String)
    after_server cfg (inl err) t = (emit (fatal "StartDevServer" err) t, none)
    after_server cfg (inr s) t =
        let c = sdk.client_of s in with_client c cfg (start (connection c) (start (server s) t))

    unfoldable pub start_dev_server_worker :
        List HelperOption → Test Server Client → Test Server Client × Option (Client × String)
    start_dev_server_worker opts t =
        let cfg = new_helper_config opts in
        after_server cfg (sdk.start_dev_server cfg.dev_server_extra_args) t

  -- The calls of one test, each with what it finds and its options; a fatal one is the last.
  abbrev pub continue_with :
      (Test Server Client → Test Server Client)
      → Test Server Client × Option (Client × String)
      → Test Server Client
  continue_with rest (t, none) = t
  continue_with rest (t, some result) = rest t

  unfoldable pub start_all :
      (name : String)
      → List (Sdk Server Client × List HelperOption)
      → Test Server Client
      → Test Server Client
  start_all name [] t = t
  start_all name ((sdk, opts) ∷ calls) t =
      continue_with (start_all name calls) (start_dev_server_worker name sdk opts t)
