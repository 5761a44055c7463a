-- ===== src/Tests/Lab.antt =====
-- A world for tests: a clock that moves a second at each reading, and the replies to come.
use noumena_mcp_gateway_poc.Base.{
  if◌then◌else◌, ◌==◌, some, none, ℕ, ◌+◌, String, ◌<>◌, List, [], ◌∷◌,
}
use noumena_mcp_gateway_poc.Base.Exec.{Result, ok, err, request_failed}
use noumena_mcp_gateway_poc.Base.Json.{
  Json, null, bool, num, str, arr, obj, end, field, Fields, Items, nil, cons,
}
use noumena_mcp_gateway_poc.BundleServer.Client.{Client, Config}
use noumena_mcp_gateway_poc.Base.World.{Runtime, Response}

pub record Lab : Type 0 where
  pub clock : ℕ
  pub replies : List (Result Response)

abbrev next_reply : Lab → List (Result Response) → Result Response × Lab
next_reply w [] = (err request_failed, w)
next_reply w (r ∷ rs) = (r, record w { replies = rs })

-- A text that shows the entries of a value, enough to tell the test data apart.
mutual
  pub show : Json → String
  show null = "null"
  show (bool _) = "bool"
  show (num _) = "num"
  show (str s) = s
  show (arr xs) = "[" <> show_items xs
  show (obj d) = "{" <> show_fields d

  pub show_items : Items → String
  show_items nil = "]"
  show_items (cons x xs) = show x <> "," <> show_items xs

  pub show_fields : Fields → String
  show_fields end = "}"
  show_fields (field k v d) = k <> ":" <> show v <> "," <> show_fields d

-- The body of a login, for which the text `login` stands.
abbrev pub credentials : Json
credentials = obj (field "username" (str "bob") (field "password" (str "s3") end))

abbrev pub lab : Runtime
lab = record {
  World = Lab;
  Bytes = List (String × String);
  time = λ w. (w.clock, record w { clock = w.clock + 1000000 });
  utc_stamp = λ t. "2026-01-01T00:00:00Z";
  iso_stamp = λ t. "2026-01-01T00:00:00+00:00";
  int_of = λ s. if s == "12" then some 12 else none;
  send = λ q w. next_reply w w.replies;
  dumps_sorted = show;
  dumps = show;
  dumps_spaced = show;
  loads = λ s. ok (if s == "login" then credentials else str s);
  with_params = λ url params. url <> "?" <> show (obj params);
  repr = show;
  sha256_hex = λ s. s;
  tar_gz = λ files w. (files, w);
  byte_length = λ b. 7;
  token_urlsafe = λ w. ("token", w);
  decode_base64_json = λ s. ok (obj (field "role" (str "admin") end));
  describe = λ e. "failed";
}

abbrev pub at : ℕ → List (Result Response) → Lab
at clock replies = record { clock = clock; replies = replies }

-- A response with a JSON body.
abbrev pub reply : ℕ → Json → Result Response
reply status body = ok (record { status_code = status; text = ""; headers = []; json = ok body })

abbrev pub grant : ℕ → Json
grant seconds = obj (field "access_token" (str "jwt") (field "expires_in" (num seconds) end))

-- A listing of no stores.
abbrev pub store_listing : Json
store_listing = obj (field "items" (arr nil) end)

abbrev pub cfg : Config
cfg = record {
  npl_url = "http://npl";
  keycloak_url = "http://kc";
  keycloak_realm = "r";
  gateway_username = "gateway";
  gateway_password = "p";
  staleness_threshold = 60;
}

abbrev pub fresh_client : List (Result Response) → Client lab
fresh_client replies = record { token = null; expires_at = 0; world = at 100000000 replies }

-- A client that holds a token for a while.
abbrev pub held_client : List (Result Response) → Client lab
held_client replies = record {
  token = str "jwt";
  expires_at = 900000000;
  world = at 100000000 replies;
}
