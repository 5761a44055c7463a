-- ===== src/Tests/Serving.antt =====
-- Whole requests and sweeps in the test world.
use noumena_mcp_gateway_poc.Base.{
  ◌≡◌, refl, String, true, false, none, some, List, [], ◌∷◌, arith, eq_iff,
}
use noumena_mcp_gateway_poc.Base.Exec.{ok}
use noumena_mcp_gateway_poc.Base.Json.{Json, str, get, lookup, item}
use noumena_mcp_gateway_poc.Base.Dict
use noumena_mcp_gateway_poc.Dashboard.Session.{create_session}
use noumena_mcp_gateway_poc.Dashboard.State.{send, password_grant}
use noumena_mcp_gateway_poc.Dashboard.Login.{
  handle_login, login_with, token_claims, second_piece, pad, admitted, is_admin,
}
use noumena_mcp_gateway_poc.Dashboard.Backends.{Gateway, missing}
use noumena_mcp_gateway_poc.Dashboard.Docker.{Host, get_docker_client}
use noumena_mcp_gateway_poc.Dashboard.Route.{do_post, unauthorized}
use noumena_mcp_gateway_poc.Dashboard.Server.{serve_post, read_body, routed}
use noumena_mcp_gateway_poc.Dashboard.Cleanup.{
  Container, removed_containers, doomed_of_groups, group_by_parent, grouped, doomed,
}
use noumena_mcp_gateway_poc.Dashboard.Sweep.Attempts.{cleanup-attempted}
use noumena_mcp_gateway_poc.Dashboard.Sweep.{cleanup_orphaned_containers, sweep_inner}
use noumena_mcp_gateway_poc.Dashboard.Pages.{Folder, Given, Page, serve_get, do_head}
use noumena_mcp_gateway_poc.Dashboard.Pages.Access.{serve_get-unauthorized}
use noumena_mcp_gateway_poc.Dashboard.Pages.Head.{bare, do_head-serve_get}
use noumena_mcp_gateway_poc.Dashboard.System.{Act, act, acts, main}
use noumena_mcp_gateway_poc.Dashboard.System.Sessions.{
  HasAdmission, here, there, ready, main-sessions,
}
use noumena_mcp_gateway_poc.Dashboard.System.Locked.{main-gateway}
use noumena_mcp_gateway_poc.Tests.Lab.{lab, at}
use noumena_mcp_gateway_poc.Tests.Admin.{admin_cfg, bob, token_reply}
use noumena_mcp_gateway_poc.Tests.Pages.{idle_docker, host, no_cookie}

-- One page.
abbrev folder : Folder lab
folder = record {
  is_file = λ path w. (true, w);
  read_bytes = λ path w. (ok ((path, "page") ∷ []), w);
}

abbrev given : Given
given = record { completed = []; all_done = true; upstream = record { lines = []; failure = none } }

abbrev gateway : Gateway
gateway = record { file = missing; restarts = 0 }

abbrev one_login : List Act
one_login = Act.post 5 "/api/auth/login" none "login" ∷ []

main-sessions_example :
    HasAdmission lab idle_docker folder admin_cfg
      (str "bob")
      one_login
      (ready lab idle_docker folder admin_cfg (at 100000000 (token_reply ∷ [])) gateway)
main-sessions_example =
    main-sessions lab idle_docker folder admin_cfg one_login (at 100000000 (token_reply ∷ []))
      gateway "token" bob
      (unfold get_docker_client main acts act serve_post read_body do_post routed
          cleanup_orphaned_containers sweep_inner handle_login login_with token_claims second_piece
          pad admitted is_admin create_session send password_grant get lookup item Dict.lookup
          Dict.insert in
        refl)

abbrev no_login : List Act
no_login = Act.post 5 "/api/services/remove" (some "token") "" ∷ Act.sweep ∷ []

none_of_none :
    (username : Json) (h : Host lab) → ¬ HasAdmission lab idle_docker folder admin_cfg username [] h
none_of_none username h e = elim e [ ]

only_sweep :
    (username : Json) (h : Host lab)
    → ¬ HasAdmission lab idle_docker folder admin_cfg username (Act.sweep ∷ []) h
only_sweep username h (there later) = none_of_none username _ later

not_admitted :
    (username : Json) (h : Host lab)
    → ¬ HasAdmission lab idle_docker folder admin_cfg username no_login h
not_admitted username h (here body p e admitted) =
    absurd (ground (arith, p, eq_iff "/api/services/remove" "/api/auth/login"))
not_admitted username h (there later) = only_sweep username _ later

main-gateway_example :
    (main lab idle_docker folder admin_cfg no_login (at 100000000 []) gateway).gateway ≡ gateway
main-gateway_example =
    main-gateway lab idle_docker folder admin_cfg no_login (at 100000000 []) gateway
      (λ username. not_admitted username _)

abbrev no_param : String → String
no_param k = ""

serve_get-unauthorized_example :
    let (answer, h) =
      serve_get lab idle_docker folder admin_cfg false "/api/users" none no_param given host in
    (answer ≡ ok (Page.json unauthorized)) × (h.gateway ≡ host.gateway) × (h.wire ≡ host.wire)
serve_get-unauthorized_example =
    serve_get-unauthorized lab idle_docker folder admin_cfg false "/api/users" none no_param given
      host refl (λ e. absurd (ground (arith, e, eq_iff "/api/users" "/api/auth/check"))) no_cookie

do_head-serve_get_example :
    do_head lab idle_docker folder admin_cfg "/api/auth/check" none no_param given host
    ≡ bare lab (
        serve_get lab idle_docker folder admin_cfg false "/api/auth/check" none no_param given host)
do_head-serve_get_example =
    do_head-serve_get lab idle_docker folder admin_cfg "/api/auth/check" none no_param given host

abbrev lone_child : Container
lone_child = record { name = "x"; parent = "slack"; created = 49 ∷ [] }

cleanup-attempted_example :
    cleanup_orphaned_containers lab
      (record idle_docker { list_inner = λ w. (ok (lone_child ∷ []), w) })
      host
    ≡ (ok tt, host)
unfolding get_docker_client removed_containers doomed_of_groups group_by_parent grouped Dict.insert
    doomed Dict.lookup
cleanup-attempted_example =
    cleanup-attempted lab (record idle_docker { list_inner = λ w. (ok (lone_child ∷ []), w) })
      (lone_child ∷ []) [] host (λ e. cc) refl refl refl
