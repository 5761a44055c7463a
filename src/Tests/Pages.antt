-- ===== src/Tests/Pages.antt =====
-- The dashboard's pages, its users and its containers in the test world.
use noumena_mcp_gateway_poc.Base.{
  length, ◌++◌, ◌-◌, ◌≢◌, ◌≡◌, ◌⊎◌, refl, true, false, none, some, [], ◌∷◌, arith, eq_iff,
}
use noumena_mcp_gateway_poc.Base.Exec.{ok, err, decode_error, docker_error, not_found}
use noumena_mcp_gateway_poc.Base.Json.{
  Json, null, str, arr, obj, nil, cons, Fields, end, field, get, lookup,
}
use noumena_mcp_gateway_poc.Base.World.{Response}
use noumena_mcp_gateway_poc.Base.Json.{truthy, insert}
use noumena_mcp_gateway_poc.Base.Dict
use noumena_mcp_gateway_poc.Dashboard.Backends.{
  missing, holds, without_backend, erase, read_mcp_config, write_and_restart,
}
use noumena_mcp_gateway_poc.Dashboard.Docker.{
  Docker, Host, Box, change_config, restart_after, restart_aigw, get_docker_client, remove_boxes,
}
use noumena_mcp_gateway_poc.Dashboard.Wiring.{handle_docker_wire}
use noumena_mcp_gateway_poc.Dashboard.Wiring.Order.{handle_docker_wire-RefusesRun}
use noumena_mcp_gateway_poc.Dashboard.Backends.{remove_backend_from_config}
use noumena_mcp_gateway_poc.Dashboard.Containers.{
  handle_docker_stop, stopped, stop_block, remove_inner, inner_of, listed_ancestor, command_image,
  forget_backend, forget_named,
}
use noumena_mcp_gateway_poc.Dashboard.Containers.Stopping.{
  handle_docker_stop-gateway, stopped_reply, after_stop,
}
use noumena_mcp_gateway_poc.Dashboard.Route.{unauthorized}
use noumena_mcp_gateway_poc.Dashboard.Route.Gate.{HasSession}
use noumena_mcp_gateway_poc.Dashboard.Server.{serve_post, read_body}
use noumena_mcp_gateway_poc.Dashboard.Server.Access.{serve_post-unauthorized}
use noumena_mcp_gateway_poc.Dashboard.Users.{header}
use noumena_mcp_gateway_poc.Dashboard.Approvals.{pending_of}
use noumena_mcp_gateway_poc.Dashboard.Approvals.Pending.{All, IsFrom, pending_of-IsFrom}
use noumena_mcp_gateway_poc.Base.Text.{has_part, strip}
use noumena_mcp_gateway_poc.Base.Text.Laws.{unlines}
use noumena_mcp_gateway_poc.Dashboard.Tools.{parse_mcp_response}
use noumena_mcp_gateway_poc.Dashboard.Tools.Framing.{parse_mcp_response-framed}
use noumena_mcp_gateway_poc.Dashboard.Proxy.{Wire, relay, message}
use noumena_mcp_gateway_poc.Dashboard.Proxy.Relay.{NplEvent, sent, received, shown, relay-sent}
use noumena_mcp_gateway_poc.Dashboard.Envoy.{clusters_of}
use noumena_mcp_gateway_poc.Dashboard.Envoy.Clusters.{AllEmpty, clusters_of-AllEmpty}
use noumena_mcp_gateway_poc.Tests.Lab.{lab, reply}
use noumena_mcp_gateway_poc.Tests.Admin.{admin_cfg, dash}

-- A Docker that has no container and runs none.
abbrev pub idle_docker : Docker lab
idle_docker = record {
  is_installed = true;
  from_env = λ w. (ok tt, w);
  list_all = λ w. (ok [], w);
  list_children = λ name w. (ok [], w);
  list_inner = λ w. (ok [], w);
  list_ancestor = λ image w. (ok [], w);
  find = λ name w. (err not_found, w);
  restart = λ box w. (ok tt, w);
  stop = λ box w. (ok tt, w);
  remove = λ box w. (ok tt, w);
  remove_child = λ c w. (ok tt, w);
  run = λ image name command w. (err docker_error, w);
  list_images = λ w. (ok (record { id = "sg"; tags = "supergateway:1" ∷ [] } ∷ []), w);
  pull = λ image w. (ok tt, w);
  pull_lines = λ image w. (([], none), w);
  address = λ box network. ok "10.0.0.2";
  sleep = λ seconds w. w;
  lower = λ s. s;
}

abbrev pub host : Host lab
host = record {
  dash = dash null 100000000 [];
  gateway = record { file = missing; restarts = 0 };
  wire = record { started = false; written = []; room = 20 };
}

abbrev slack : Json
slack = obj (field "image" (str "mcp/slack") (field "serviceName" (str "slack") end))

handle_docker_wire-RefusesRun_example :
    (handle_docker_wire lab idle_docker admin_cfg slack host).1.gateway ≡ host.gateway
handle_docker_wire-RefusesRun_example =
    handle_docker_wire-RefusesRun lab idle_docker admin_cfg
      (λ image name command w. (docker_error, refl)) slack host

abbrev stop_slack : Json
stop_slack = obj (field "containerName" (str "c") (field "serviceName" (str "slack") end))

abbrev box : Box
box = record { short_id = "1"; name = "c"; status = "running"; tags = []; image = "i"; env = [] }

-- A Docker that finds one container.
abbrev one_box : Docker lab
one_box = record idle_docker { find = λ name w. (ok box, w) }

abbrev with_slack : Host lab
with_slack = record host {
  gateway = record {
    file = holds (obj (field "mcpServers" (obj (field "slack" (obj end) end)) end));
    restarts = 0;
  };
}

handle_docker_stop-gateway_example :
    let (answer, h) = handle_docker_stop lab one_box admin_cfg stop_slack with_slack in
    ((answer ≡ ok stopped_reply)
      × (h.gateway ≡ after_stop lab one_box admin_cfg (str "slack") with_slack.gateway))
    ⊎ ((answer ≢ ok stopped_reply) × (h.gateway ≡ with_slack.gateway))
handle_docker_stop-gateway_example =
    handle_docker_stop-gateway lab one_box admin_cfg stop_slack (str "slack") with_slack
      (unfold get lookup in refl)

-- The backend of the service is gone, and one restart was asked for.
stop_slack_runs :
    (handle_docker_stop lab one_box admin_cfg stop_slack with_slack).1.gateway
    ≡ record { file = holds (obj (field "mcpServers" (obj end) end)); restarts = 1 }
unfolding handle_docker_stop stopped stop_block remove_inner inner_of listed_ancestor command_image
    forget_backend forget_named change_config restart_after restart_aigw get_docker_client
    remove_boxes remove_backend_from_config without_backend erase read_mcp_config write_and_restart
    truthy get lookup insert
stop_slack_runs = refl

pub no_cookie : ¬ HasSession {R = lab} none host.dash
no_cookie s = absurd (let e = s.is_cookie in cc)

serve_post-unauthorized_example :
    let (answer, h) = serve_post lab idle_docker admin_cfg "/api/approvals/approve" none "" host in
    (answer ≡ ok (some unauthorized))
    × (h.gateway ≡ host.gateway)
    × (h.wire ≡ host.wire)
    × (h.dash.admin ≡ host.dash.admin)
    × (h.dash.gateway ≡ host.dash.gateway)
    × (h.dash.store_id ≡ host.dash.store_id)
serve_post-unauthorized_example =
    serve_post-unauthorized lab idle_docker admin_cfg "/api/approvals/approve" none "" host
      {body = obj end}
      (λ e. absurd (ground (arith, e, eq_iff "/api/approvals/approve" "/api/auth/login")))
      (λ e. absurd (ground (arith, e, eq_iff "/api/approvals/approve" "/api/auth/logout")))
      no_cookie (unfold read_body in refl)

abbrev new_role : Fields
new_role = field "userId" (str "7") (field "email" (str "a@b") (field "role" (str "admin") end))

abbrev workflows : Fields
workflows = field "slack" (str "w1") end

pending_of-IsFrom_example :
    All
      (IsFrom workflows)
      (pending_of lab admin_cfg (str "jwt") workflows nil (
        dash null 100000000
          (reply 200 (arr (cons (obj (field "requestId" (str "r1") end)) nil)) ∷ []))).0
pending_of-IsFrom_example =
    pending_of-IsFrom lab admin_cfg (str "jwt") workflows (
      dash null 100000000
        (reply 200 (arr (cons (obj (field "requestId" (str "r1") end)) nil)) ∷ []))

abbrev plain_response : Response
plain_response = record { status_code = 200; text = "x"; headers = []; json = ok (str "x") }

abbrev framed_response : Response
framed_response = record {
  status_code = 200;
  text = "id\ndata: x\n";
  headers = ("content-type", "text/event-stream") ∷ [];
  json = err decode_error;
}

parse_mcp_response-framed_example :
    parse_mcp_response lab framed_response ≡ parse_mcp_response lab plain_response
unfolding header Dict.lookup has_part unlines
parse_mcp_response-framed_example =
    parse_mcp_response-framed lab plain_response framed_response ("id" ∷ []) [] "x" {v = str "x"}
      refl refl refl refl refl (refl, tt) (ground arith)

abbrev event : NplEvent
event = record { fields = "event: state" ∷ []; values = "x" ∷ "y" ∷ [] }

abbrev browser : Wire
browser = record { started = true; written = []; room = 8 }

relay-sent_example : relay (sent (event ∷ [])) [] browser ≡ (
  ok tt,
  record browser {
    written = browser.written ++ received (event ∷ []);
    room = browser.room - length (received (event ∷ []));
  },
)
unfolding strip received message shown
relay-sent_example =
    relay-sent (event ∷ []) browser (((refl, refl, tt), (refl, (refl, tt))), tt) (omega arith)

clusters_of-AllEmpty_example :
    AllEmpty (clusters_of lab (str "outbound::cx_active::3\n  rq_total::9\n"))
clusters_of-AllEmpty_example =
    clusters_of-AllEmpty lab (str "outbound::cx_active::3\n  rq_total::9\n")
