-- ===== src/Dashboard/Users.antt =====
-- The handlers of dashboard/server.py for the users in Keycloak. Each is one `try` block.
pub mod Changes
pub mod Keeps
use noumena_mcp_gateway_poc.Base.{
  String, ◌<>◌, Bool, true, false, Option, none, some, List, [], ◌∷◌, eqb, is_some, ◌==◌,
  if◌then◌else◌,
}
use noumena_mcp_gateway_poc.Base.Exec.{
  Exec, Result, ok, err, type_error, index_error, pure, lift, try_except, ◌>>=◌, ◌>>◌,
}
use noumena_mcp_gateway_poc.Base.Json.{
  Json, null, bool, num, str, arr, obj, Items, nil, cons, Fields, end, field, get, item, first,
  truthy, iterate, insert, lookup, or_default, append,
}
use noumena_mcp_gateway_poc.Base.World.{Runtime, Method, Request, Response}
use noumena_mcp_gateway_poc.Base.Dict
use noumena_mcp_gateway_poc.Dashboard.State.{
  Dash, Config, Reply, send, send_json, send_error_json, format, raise_for_status,
}

-- `headers.get(name, "")`
unfoldable pub header : String → Response → String
header name resp = elim (Dict.lookup name resp.headers) [ none ↦ "" | some v ↦ v ]

-- `text.split("/")[-1]`, from the piece so far
unfoldable pub last_piece : String → String → String
last_piece piece String.[] = piece
last_piece piece (String.◌∷◌ c s) =
    if String.◌∷◌ c String.[] == "/"
    then last_piece "" s
    else last_piece (piece <> String.◌∷◌ c String.[]) s

abbrev single : Json → Json
single v = arr (cons v nil)

abbrev pub done : Reply
done = send_json (obj (field "ok" (bool true) end)) 200

module _ (R : Runtime) (cfg : Config) where
  -- A request to Keycloak's interface for administrators.
  unfoldable pub users_request : Method → Json → String → Option Json → Request
  users_request method token path payload = record {
    method = method;
    url = cfg.keycloak_url <> "/admin/realms/" <> cfg.keycloak_realm <> "/users" <> path;
    bearer = some token;
    extra = [];
    payload = payload;
  }

  -- The status of the response is not looked at.
  unfoldable pub get_kc_admin_token : Exec (Dash R) Json
  get_kc_admin_token = do
    resp ← send (record {
      method = Method.post;
      url = cfg.keycloak_url <> "/realms/master/protocol/openid-connect/token";
      bearer = none;
      extra = [];
      payload = some (
          obj (
            field "grant_type" (str "password") (
              field "client_id" (str "admin-cli") (
                field "username" (str cfg.admin_username)
                  (field "password" (str "welcome") end)))));
    })
    body ← lift resp.json
    lift (item body "access_token")

  -- `except Exception as e: self.send_error_json(500, str(e))`
  abbrev pub or_error : Exec (Dash R) Reply → Exec (Dash R) Reply
  or_error m = try_except m (λ e. pure (send_error_json 500 (R.describe e)))

  -- The dict that creates a user.
  unfoldable pub new_user : Json → Result Fields
  new_user body = elim (item body "username") [
    | err e ↦ err e
    | ok username ↦ elim body [
      | obj d ↦
          (let given : String → Json → Json = λ k default. or_default (lookup k d) default in
            let entries : Fields = field "username" username (
              field "email" (given "email" (str "")) (
                field "firstName" (given "firstName" (str "")) (
                  field "lastName" (given "lastName" (str "")) (
                    field "enabled" (bool true) (
                      field "emailVerified" (bool false) (
                        field "attributes"
                          (obj (
                            field "department" (single (given "department" (str ""))) (
                              field "organization" (single (given "organization" (str "")))
                                (field "role" (single (given "role" (str "user"))) end))))
                          end)))))) in
            ok (
              if truthy (given "password" (str ""))
              then insert "credentials"
                  (single (
                    obj (
                      field "type" (str "password") (
                        field "value" (given "password" (str ""))
                          (field "temporary" (bool false) end)))))
                  entries
              else entries))
      | _ ↦ err type_error
    ]
  ]

  -- The id is the last piece of the header `Location`.
  unfoldable pub created_reply : Response → Reply
  created_reply resp =
      send_json
        (obj (
          field "ok" (bool true)
            (field "userId" (str (last_piece "" (header "location" resp))) end)))
        200

  unfoldable pub after_create : Response → Exec (Dash R) Reply
  after_create resp =
      if eqb resp.status_code 409
      then pure (send_error_json 409 "User already exists")
      else (do raise_for_status resp; pure (created_reply resp))

  unfoldable pub handle_create_user : Json → Exec (Dash R) Reply
  handle_create_user body = or_error (do
    token ← get_kc_admin_token
    user_data ← lift (new_user body)
    resp ← send (users_request Method.post token "" (some (obj user_data)))
    after_create resp)

  -- The entries of the body under the given keys, in their order, each by `wrap`.
  unfoldable pub copied : (Json → Json) → List String → Fields → Fields
  copied wrap [] d = end
  copied wrap (k ∷ ks) d =
      let others = copied wrap ks d in
      elim (lookup k d) [ none ↦ others | some v ↦ field k (wrap v) others ]

  abbrev pub plain_keys : List String
  plain_keys = "email" ∷ "firstName" ∷ "lastName" ∷ "enabled" ∷ []

  abbrev pub attribute_keys : List String
  attribute_keys = "department" ∷ "organization" ∷ "role" ∷ []

  abbrev pub with_attributes : Fields → Fields → Fields
  with_attributes update end = update
  with_attributes update (field k v d) = insert "attributes" (obj (field k v d)) update

  -- The dict that updates a user: what the body has, and nothing else.
  unfoldable pub user_update : Fields → Fields
  user_update d =
      with_attributes (copied (λ v. v) plain_keys d) (copied (λ v. single v) attribute_keys d)

  unfoldable pub reset_to : Json → Json → Option Json → Exec (Dash R) (Unit {0})
  reset_to token id none = pure tt
  reset_to token id (some password) =
      if truthy password
      then (do
        send (
            users_request Method.put token ("/" <> format R id <> "/reset-password") (
              some (
                obj (
                  field "type" (str "password")
                    (field "value" password (field "temporary" (bool false) end))))))
        pure tt)
      else pure tt

  -- A new password is a request of its own, whose status is not looked at.
  unfoldable pub reset_password : Json → Json → Fields → Exec (Dash R) (Unit {0})
  reset_password token id d = reset_to token id (lookup "password" d)

  -- A body that is no dict has no `body["userId"]`.
  unfoldable pub update_user : Json → Json → Exec (Dash R) Reply
  update_user token (obj d) = do
    id ← lift (item (obj d) "userId")
    resp ← send (users_request Method.put token ("/" <> format R id) (some (obj (user_update d))))
    raise_for_status resp
    reset_password token id d
    pure done
  update_user token body = λ d. (err type_error, d)

  unfoldable pub handle_update_user : Json → Exec (Dash R) Reply
  handle_update_user body = or_error (do token ← get_kc_admin_token; update_user token body)

  unfoldable pub handle_delete_user : Json → Exec (Dash R) Reply
  handle_delete_user body = or_error (do
    token ← get_kc_admin_token
    id ← lift (item body "userId")
    resp ← send (users_request Method.delete token ("/" <> format R id) none)
    raise_for_status resp
    pure done)
