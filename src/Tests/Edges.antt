-- ===== src/Tests/Edges.antt =====
-- Authentication, containers, snapshots and callbacks at work.
use catgirl.Base.{
  ℕ, ◌+◌, ◌≡◌, ◌≢◌, ◌↔◌, ◌⊎◌, refl, true, List, [], ◌∷◌, Option, none, some, String, ok, Error, any,
  find, keep,
}
use catgirl.Models.{Uuid, Json, SnapshotReason, ContainerSnapshot}
use catgirl.Repository.{Db, is_snapshot, is_expired}
use catgirl.Config.{AuthConfig}
use catgirl.Auth.{
  MtfpassUser, MtfpassResponse, Reply, replies, request_token, passes_as, validate_token, authorize,
  auth_middleware,
}
use catgirl.Auth.Laws.{VouchedFor, validate_token-admin, auth_middleware-passes}
use catgirl.Snapshots.{cleanup_expired_snapshots}
use catgirl.Snapshots.Cleanup.{cleanup_expired_snapshots-clears}
use catgirl.Workers.Agent.{MessageRole, AgentMessage, new_worker_agent}
use catgirl.Runtime.Callbacks.{
  CallbackState, result_input, send_tool_result_to_agent, SendSpec,
  send_tool_result_to_agent-SendSpec,
}
use catgirl.Docker
use catgirl.Docker.{
  DockerClient, ManagerState, ContainerInfo, get_or_create_container-again,
  release_container-forgets,
}
use catgirl.Tests.Fixtures.{a_db, an_id}

abbrev an_admin : MtfpassUser
an_admin = record { uid = 3; username = "root"; role = "admin"; credits = 0 }

abbrev an_answer : MtfpassResponse
an_answer = record { success = true; payload = "{}"; error = "" }

abbrev a_client : String → String → Reply
a_client url token = replies 200 (some an_answer)

abbrev reads_admin : Json → Option MtfpassUser
reads_admin j = some an_admin

abbrev shows_error : Error → String
shows_error e = "no"

abbrev shows_uid : ℕ → String
shows_uid n = "3"

abbrev an_auth : AuthConfig
an_auth = record { mtfpass_url = "http://pass"; allowed_memberships = [] }

validate_token-admin_example :
    (validate_token a_client reads_admin shows_error shows_uid an_auth "jwt" ≡ ok an_admin) ↔ (
      (an_auth.mtfpass_url ≢ "")
      × VouchedFor reads_admin (a_client an_auth.mtfpass_url "jwt") an_admin)
validate_token-admin_example =
    validate_token-admin a_client reads_admin shows_error shows_uid an_auth "jwt" an_admin

middleware_passes :
    auth_middleware a_client reads_admin shows_error shows_uid an_auth "Bearer jwt" none
    ≡ passes_as "3"
unfolding auth_middleware authorize validate_token
middleware_passes = refl

auth_middleware-passes_example :
    (token : String) × (user : MtfpassUser) × (request_token "Bearer jwt" none ≡ some token)
    × (validate_token a_client reads_admin shows_error shows_uid an_auth token ≡ ok user)
    × (shows_uid user.uid ≡ "3")
auth_middleware-passes_example =
    auth_middleware-passes a_client reads_admin shows_error shows_uid an_auth "Bearer jwt" none "3"
      middleware_passes

abbrev names : Uuid → String
names id = "catgirl_task"

abbrev a_snapshot : ContainerSnapshot
a_snapshot = record {
  snapshot_id = 6;
  task_id = 7;
  session_id = 5;
  container_id = "c";
  image_id = "";
  image_name = "i";
  reason = SnapshotReason.completed;
  volumes = "{}";
  environment = "{}";
  metadata = "{}";
  created_at = 1;
  expires_at = some 3;
  deleted_at = none;
}

abbrev db_with_snapshot : Db
db_with_snapshot = record a_db { container_snapshots = a_snapshot ∷ [] }

cleanup_expired_snapshots-clears_example :
    let (r, db') = cleanup_expired_snapshots 9 db_with_snapshot in
    (r ≡ ok tt)
    × (keep (is_expired 9) db'.container_snapshots ≡ [])
    × ((id : Uuid)
        → (any (is_snapshot id) (keep (is_expired 9) db_with_snapshot.container_snapshots) ≡ true)
          ⊎ (find (is_snapshot id) db'.container_snapshots
              ≡ find (is_snapshot id) db_with_snapshot.container_snapshots))
cleanup_expired_snapshots-clears_example =
    cleanup_expired_snapshots-clears 9 db_with_snapshot (λ n. refl)

abbrev waiting : CallbackState
waiting = record {
  agents = new_worker_agent an_id "reasoner" 2 ∷ [];
  blocked_agents = record { agent_id = an_id; instance_id = 1; container_id = "c" } ∷ [];
  released = [];
}

send_tool_result_to_agent-SendSpec_example :
    SendSpec an_id
      (result_input "c1" "EXECUTE_CMD" "done")
      waiting
      (send_tool_result_to_agent an_id "c1" "EXECUTE_CMD" "done" waiting)
send_tool_result_to_agent-SendSpec_example =
    send_tool_result_to_agent-SendSpec an_id "c1" "EXECUTE_CMD" "done" waiting

abbrev a_history : List AgentMessage
a_history =
    record { role = MessageRole.system; content = "old prompt"; tool_calls = []; tool_call_id = "" }
    ∷ record { role = MessageRole.user; content = "go"; tool_calls = []; tool_call_id = "" }
    ∷ []

-- An engine that counts the containers that it made.
abbrev counting : DockerClient ℕ
counting = record {
  pull_image = λ image n. (ok tt, n);
  container_create = λ image id n. (ok "c", n + 1);
  container_start = λ id n. (ok tt, n);
  container_stop = λ id n. (ok tt, n);
}

abbrev its_container : ContainerInfo
its_container = record { container_id = "c"; task_id = 1; created_at = 4 }

abbrev managed : ManagerState ℕ
managed = record { engine = 1; containers = its_container ∷ [] }

first_container :
    Docker.get_or_create_container counting "" "catgirl-runtime" 4 1 ""
      (record { engine = 0; containers = [] })
    ≡ (ok its_container, managed)
unfolding Docker.get_or_create_container Docker.create_container
first_container = refl
