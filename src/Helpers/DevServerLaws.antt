-- ===== src/Helpers/DevServerLaws.antt =====
-- What `StartDevServerWorker` of internal/testhelpers/devserver.go leaves when a test ends.
use temporal_mistakes.Base.{Option, none, some, ◌⊎◌, inl, inr, String, List, [], ◌∷◌, ◌++◌, map}
use temporal_mistakes.Errors.{Err}
use temporal_mistakes.Helpers.{HelperOption, HelperConfig, new_helper_config}
use temporal_mistakes.Helpers.DevServer.{
  Sdk, Resource, server, Event, starts, registers, fatal, stops, Test, start, finish, after_worker,
  after_server, start_dev_server_worker, continue_with, start_all,
}

-- The events take what is running, the latest first, to what is running after them. Only what was
-- started last, of all that runs, is stopped.
pub data Runs {Server Client : Type 0}
    : (before : List (Resource Server Client))
      → List (Event Server Client)
      → (after : List (Resource Server Client)) → Type 0 where
  nothing : {rs : List (Resource Server Client)} → Runs rs [] rs
  started :
      {r : Resource Server Client} {rs ss : List (Resource Server Client)}
      {es : List (Event Server Client)}
      → Runs (r ∷ rs) es ss
      → Runs rs (starts r ∷ es) ss
  registered :
      {task_queue : String} {rs ss : List (Resource Server Client)}
      {es : List (Event Server Client)}
      → Runs rs es ss
      → Runs rs (registers task_queue ∷ es) ss
  failed :
      {what : String} {err : Err} {rs ss : List (Resource Server Client)}
      {es : List (Event Server Client)}
      → Runs rs es ss
      → Runs rs (fatal what err ∷ es) ss
  stopped :
      {r : Resource Server Client} {rs ss : List (Resource Server Client)}
      {es : List (Event Server Client)}
      → Runs rs es ss
      → Runs (r ∷ rs) (stops r ∷ es) ss

module _ {Server Client : Type 0} where
  Runs-append :
      {rs ss us : List (Resource Server Client)} (es fs : List (Event Server Client))
      → Runs rs es ss
      → Runs ss fs us
      → Runs rs (es ++ fs) us
  Runs-append _ fs nothing k = k
  Runs-append _ fs (started h) k = started (Runs-append _ fs h k)
  Runs-append _ fs (registered h) k = registered (Runs-append _ fs h k)
  Runs-append _ fs (failed h) k = failed (Runs-append _ fs h k)
  Runs-append _ fs (stopped h) k = stopped (Runs-append _ fs h k)

  Runs-stops : (rs : List (Resource Server Client)) → Runs rs (map stops rs) []
  Runs-stops [] = nothing
  Runs-stops (r ∷ rs) = stopped (Runs-stops rs)

  -- What runs at any time of a test is what its cleanups stop.
  abbrev CleansUp : Test Server Client → Type 0
  CleansUp t = Runs [] t.events t.cleanups

  start-CleansUp :
      (r : Resource Server Client) (t : Test Server Client) → CleansUp t → CleansUp (start r t)
  start-CleansUp r t h = Runs-append t.events _ h (started nothing)

  module _ (name : String) (sdk : Sdk Server Client) where
    after_worker-CleansUp :
        (c : Client) (task_queue : String) (cfg : HelperConfig) (o : Option Err)
        (t : Test Server Client)
        → CleansUp t
        → CleansUp (after_worker name sdk c task_queue cfg o t).0
    after_worker-CleansUp c task_queue cfg none t h = start-CleansUp _ t h
    after_worker-CleansUp c task_queue cfg (some err) t h =
        Runs-append t.events _ h (failed nothing)

    after_server-CleansUp :
        (cfg : HelperConfig) (r : Err ⊎ Server) (t : Test Server Client)
        → CleansUp t
        → CleansUp (after_server name sdk cfg r t).0
    after_server-CleansUp cfg (inl err) t h = Runs-append t.events _ h (failed nothing)
    after_server-CleansUp cfg (inr s) t h =
        after_worker-CleansUp _ _ cfg _ _ (
          Runs-append _ _ (start-CleansUp _ _ (start-CleansUp (server s) t h)) (registered nothing))

    start_dev_server_worker-CleansUp :
        (opts : List HelperOption) (t : Test Server Client)
        → CleansUp t
        → CleansUp (start_dev_server_worker name sdk opts t).0
    unfolding start_dev_server_worker
    start_dev_server_worker-CleansUp opts t h = after_server-CleansUp (new_helper_config opts) _ t h

  continue_with-CleansUp :
      (rest : Test Server Client → Test Server Client)
      (r : Test Server Client × Option (Client × String))
      → ((t : Test Server Client) → CleansUp t → CleansUp (rest t))
      → CleansUp r.0
      → CleansUp (continue_with rest r)
  continue_with-CleansUp rest (t, none) keeps h = h
  continue_with-CleansUp rest (t, some result) keeps h = keeps t h

  start_all-CleansUp :
      (name : String) (calls : List (Sdk Server Client × List HelperOption))
      (t : Test Server Client)
      → CleansUp t
      → CleansUp (start_all name calls t)
  unfolding start_all
  start_all-CleansUp name [] t h = h
  start_all-CleansUp name ((sdk, opts) ∷ calls) t h =
      continue_with-CleansUp (start_all name calls) (start_dev_server_worker name sdk opts t)
        (λ u k. start_all-CleansUp name calls u k)
        (start_dev_server_worker-CleansUp name sdk opts t h)

  -- However many workers a test starts, and whichever start fails, when the test has ended each
  -- server, client and worker that it started has been stopped once, the latest first, so that a
  -- worker never outlives its client nor a client its server.
  pub start_all-Runs :
      (name : String) (calls : List (Sdk Server Client × List HelperOption))
      → Runs [] (finish (start_all name calls (record { events = []; cleanups = [] }))) []
  unfolding finish
  start_all-Runs name calls =
      let t = start_all name calls (record { events = []; cleanups = [] }) in
      Runs-append t.events _ (start_all-CleansUp name calls _ nothing) (Runs-stops t.cleanups)
