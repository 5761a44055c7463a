-- ===== src/Dashboard/Suggestions.antt =====
-- `handle_suggestions` of dashboard/server.py. It is one `try` block: what was found before an
-- exception is answered.
pub mod Keeps
use Prim.Native.String.{compare}
use Prim.Native.Nat.{Ordering}
use noumena_mcp_gateway_poc.Base.{
  String, ◌<>◌, Bool, true, false, List, [], ◌∷◌, ltb, ◌==◌, if◌then◌else◌,
}
use noumena_mcp_gateway_poc.Base.Exec.{Exec, Result, ok, err, pure, lift, ◌>>=◌, ◌>>◌}
use noumena_mcp_gateway_poc.Base.Json.{
  Json, null, str, arr, obj, Items, nil, cons, Fields, end, field, get, truthy, iterate, insert,
  append, entries, key_text,
}
use noumena_mcp_gateway_poc.Base.World.{Runtime, Response}
use noumena_mcp_gateway_poc.Dashboard.State.{
  Dash, Config, Reply, send_json, format, get_gateway_token,
}
use noumena_mcp_gateway_poc.Dashboard.Store.{npl_post_with, get_store_id}
use noumena_mcp_gateway_poc.Dashboard.Users.{get_kc_admin_token}
use noumena_mcp_gateway_poc.Dashboard.UserList.{list_users, first_value}

-- `a <= b` on texts, which goes by code points.
abbrev pub text_leb : String → String → Bool
text_leb a b = elim (compare a b) [ Ordering.gt ↦ false | _ ↦ true ]

unfoldable pub is_in : String → List String → Bool
is_in s [] = false
is_in s (x ∷ xs) = if x == s then true else is_in s xs

-- `set.add`: a set is a list that has nothing twice.
unfoldable pub set_add : String → List String → List String
unfolding is_in
set_add s xs = if is_in s xs then xs else s ∷ xs

unfoldable pub insert_sorted : String → List String → List String
insert_sorted s [] = s ∷ []
insert_sorted s (x ∷ xs) = if text_leb s x then s ∷ x ∷ xs else x ∷ insert_sorted s xs

-- `sorted`
unfoldable pub sorted : List String → List String
sorted [] = []
sorted (x ∷ xs) = insert_sorted x (sorted xs)

-- The three sets.
pub record Sets : Type 0 where
  pub depts : List String
  pub orgs : List String
  pub roles : List String

-- The answer so far.
pub record Suggested : Type 0 where
  pub services : Items
  pub tools : Fields
  pub users : Items
  pub departments : List String
  pub organizations : List String
  pub roles : List String

abbrev pub nothing_yet : Suggested
nothing_yet = record {
  services = nil;
  tools = end;
  users = nil;
  departments = [];
  organizations = [];
  roles = [];
}

-- The world of the handler: the module's state and the answer.
pub record Form (R : Runtime) : Type 0 where
  pub dash : Dash R
  pub found : Suggested

abbrev texts : List String → Items
texts [] = nil
texts (s ∷ ss) = cons (str s) (texts ss)

abbrev keys : Fields → Items
keys end = nil
keys (field k _ d) = cons (str k) (keys d)

-- `if v: s.add(v)`
unfoldable pub add_value : Json → List String → Result (List String)
add_value v s =
    if truthy v then elim (key_text v) [ ok t ↦ ok (set_add t s) | err e ↦ err e ] else ok s

module _ {R : Runtime} where
  abbrev with_dash : {A : Type 0} → Form R → Result A × Dash R → Result A × Form R
  with_dash f (r, d) = (r, record f { dash = d })

  -- A step that leaves the answer alone.
  abbrev on_dash : {A : Type 0} → Exec (Dash R) A → Exec (Form R) A
  on_dash m f = with_dash f (m f.dash)

  abbrev update : (Suggested → Suggested) → Exec (Form R) (Unit {0})
  update g f = (ok tt, record f { found = g f.found })

module _ (R : Runtime) (cfg : Config) where
  -- `(info.get("tools") or {}).keys()`
  unfoldable pub tool_names : Json → Result Items
  tool_names info = elim (get info "tools" null) [
    | err e ↦ err e
    | ok tools ↦ elim (entries (if truthy tools then tools else obj end)) [
      | err e ↦ err e
      | ok d ↦ ok (keys d)
    ]
  ]

  unfoldable pub add_tools : Fields → Exec (Form R) (Unit {0})
  add_tools end = pure tt
  add_tools (field svc info rest) = do
    names ← lift (tool_names info)
    update (λ s. record s { tools = insert svc (arr names) s.tools })
    add_tools rest

  unfoldable pub suggest_catalog : Json → Exec (Form R) (Unit {0})
  suggest_catalog body = do
    catalog ← lift (get body "catalog" (obj end))
    d ← lift (entries catalog)
    update (λ s. record s { services = keys d })
    add_tools d

  unfoldable pub bundle_data : Json → Exec (Dash R) Response
  bundle_data sid = do
    token ← get_gateway_token R cfg
    npl_post_with R cfg token ("/npl/store/GatewayStore/" <> format R sid <> "/getBundleData")
        (obj end)

  unfoldable pub suggest_services : Exec (Form R) (Unit {0})
  suggest_services = do
    sid ← on_dash (get_store_id R cfg)
    if truthy sid
        then (do
          resp ← on_dash (bundle_data sid)
          if ltb resp.status_code 400
              then (do body ← lift resp.json; suggest_catalog body)
              else pure tt)
        else pure tt

  -- One user, with the sets so far.
  unfoldable pub suggest_user : Json → Sets → Exec (Form R) Sets
  suggest_user u s = do
    email ← lift (get u "email" (str ""))
    if truthy email then update (λ f. record f { users = append f.users email }) else pure tt
    attrs ← lift (get u "attributes" (obj end))
    dept ← lift (first_value R cfg attrs "department")
    org ← lift (first_value R cfg attrs "organization")
    role ← lift (first_value R cfg attrs "role")
    depts ← lift (add_value dept s.depts)
    orgs ← lift (add_value org s.orgs)
    roles ← lift (add_value role s.roles)
    pure (record { depts = depts; orgs = orgs; roles = roles })

  unfoldable pub suggest_each : Items → Sets → Exec (Form R) Sets
  suggest_each nil s = pure s
  suggest_each (cons u rest) s = do s' ← suggest_user u s; suggest_each rest s'

  abbrev first_sets : Sets
  first_sets = record { depts = []; orgs = []; roles = "gateway" ∷ "admin" ∷ "user" ∷ [] }

  unfoldable pub suggest_users : Exec (Form R) (Unit {0})
  suggest_users = do
    token ← on_dash (get_kc_admin_token R cfg)
    resp ← on_dash (list_users R cfg token)
    if ltb resp.status_code 400
        then (do
          body ← lift resp.json
          listed ← lift (iterate body)
          s ← suggest_each listed first_sets
          update (λ f. record f {
            departments = sorted s.depts;
            organizations = sorted s.orgs;
            roles = sorted s.roles;
          }))
        else pure tt

  unfoldable pub suggestions_body : Suggested → Json
  suggestions_body s = obj (
      field "services" (arr s.services) (
        field "tools" (obj s.tools) (
          field "users" (arr s.users) (
            field "departments" (arr (texts s.departments)) (
              field "organizations" (arr (texts s.organizations))
                (field "roles" (arr (texts s.roles)) end))))))

  answered : Result (Unit {0}) × Form R → Result Reply × Dash R
  answered (_, f) = (ok (send_json (suggestions_body f.found) 200), f.dash)

  unfoldable pub handle_suggestions : Exec (Dash R) Reply
  unfolding answered
  handle_suggestions d =
      answered ((suggest_services >> suggest_users) (record { dash = d; found = nothing_yet }))
