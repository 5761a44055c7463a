-- ===== src/Dashboard/Search.antt =====
-- `handle_dockerhub_search` and `handle_registry_search` of dashboard/server.py
pub mod Keeps
use noumena_mcp_gateway_poc.Base.{
  ℕ, String, ◌<>◌, List, [], ◌∷◌, starts_with, eqb, ◌==◌, if◌then◌else◌,
}
use noumena_mcp_gateway_poc.Base.Exec.{
  Exec, err, attribute_error, pure, lift, try_except, ◌>>=◌, ◌>>◌,
}
use noumena_mcp_gateway_poc.Base.Json.{
  Json, num, str, arr, obj, Items, nil, cons, Fields, end, field, get, truthy, append, count,
  iterate,
}
use noumena_mcp_gateway_poc.Base.Text.{strip, drop_chars}
use noumena_mcp_gateway_poc.Base.World.{Runtime, Response}
use noumena_mcp_gateway_poc.Dashboard.State.{
  Dash, Reply, send, raise_for_status, send_json, send_error_json, format,
}
use noumena_mcp_gateway_poc.Dashboard.Overview.{plain_get}

-- What is shown of an image.
unfoldable pub image_entry : Json → Json → Json → Json → Json → Json → Json
image_entry name full_name description pulls stars updated = obj (
    field "name" name (
      field "namespace" (str "mcp") (
        field "full_name" full_name (
          field "description" description (
            field "pull_count" pulls
              (field "star_count" stars (field "last_updated" updated end)))))))

module _ (R : Runtime) where
  -- `r.get("short_description", "") or r.get("description", "")`
  unfoldable pub description_of : Json → Exec (Dash R) Json
  description_of r = do
    short ← lift (get r "short_description" (str ""))
    if truthy short then pure short else lift (get r "description" (str ""))

  -- One result of a text search: of the namespace `mcp`, the name behind its first four characters.
  unfoldable pub found_image : Json → Json → Items → Exec (Dash R) Items
  found_image r (str repo) images =
      if starts_with repo "mcp/"
      then (do
        description ← description_of r
        pulls ← lift (get r "pull_count" (num 0))
        stars ← lift (get r "star_count" (num 0))
        pure (
            append images
              (image_entry (str (drop_chars 4 repo)) (str repo) description pulls stars (str ""))))
      else pure images
  found_image r _ images = λ d. (err attribute_error, d)

  unfoldable pub found_images : Items → Items → Exec (Dash R) Items
  found_images nil images = pure images
  found_images (cons r rest) images = do
    repo ← lift (get r "repo_name" (str ""))
    images' ← found_image r repo images
    found_images rest images'

  -- One result of browsing.
  unfoldable pub browsed_image : Json → Exec (Dash R) Json
  browsed_image r = do
    name ← lift (get r "name" (str ""))
    description ← lift (get r "description" (str ""))
    pulls ← lift (get r "pull_count" (num 0))
    stars ← lift (get r "star_count" (num 0))
    updated ← lift (get r "last_updated" (str ""))
    pure (image_entry name (str ("mcp/" <> format R name)) description pulls stars updated)

  unfoldable pub browsed_images : Items → Items → Exec (Dash R) Items
  browsed_images nil images = pure images
  browsed_images (cons r rest) images = do
    entry ← browsed_image r
    browsed_images rest (append images entry)

  -- `requests.get(url, params=…)`
  unfoldable pub get_with : String → Fields → Exec (Dash R) Response
  get_with url params = send (plain_get (R.with_params url params))

  unfoldable pub search_images : String → Exec (Dash R) Items
  search_images query = do
    resp ←
        get_with "https://hub.docker.com/v2/search/repositories"
          (field "query" (str ("mcp " <> query)) (field "page_size" (num 50) end))
    raise_for_status resp
    body ← lift resp.json
    results ← lift (get body "results" (arr nil))
    listed ← lift (iterate results)
    found_images listed nil

  -- What a page lists; nothing, which ends the loop, if it is not there.
  unfoldable pub results_of : Response → Exec (Dash R) Json
  results_of resp =
      if eqb resp.status_code 200
      then (do body ← lift resp.json; lift (get body "results" (arr nil)))
      else pure (arr nil)

  -- The loop over the pages.
  unfoldable pub browse_images : List ℕ → Items → Exec (Dash R) Items
  browse_images [] images = pure images
  browse_images (page ∷ pages) images = do
    resp ← get_with "https://hub.docker.com/v2/repositories/mcp/" (
        field "page_size" (num 100)
          (field "ordering" (str "-pull_count") (field "page" (num page) end)))
    results ← results_of resp
    if truthy results
        then (do
          listed ← lift (iterate results)
          images' ← browsed_images listed images
          browse_images pages images')
        else pure images

  abbrev images_reply : Items → Reply
  images_reply images =
      send_json (obj (field "images" (arr images) (field "count" (num (count images)) end))) 200

  unfoldable pub images_for : String → Exec (Dash R) Items
  images_for query = if query == "" then browse_images (1 ∷ 2 ∷ 3 ∷ []) nil else search_images query

  -- `query` is the first value of the query's parameter `q`, empty if there is none.
  unfoldable pub handle_dockerhub_search : String → Exec (Dash R) Reply
  handle_dockerhub_search query =
      try_except (do images ← images_for (strip query); pure (images_reply images))
        (λ e. pure (send_error_json 502 ("Docker Hub unavailable: " <> R.describe e)))

  unfoldable pub registry_params : String → Fields
  registry_params search = field "limit" (str "30") (
      field "version" (str "latest")
        (if search == "" then end else field "search" (str search) end))

  unfoldable pub handle_registry_search : String → Exec (Dash R) Reply
  handle_registry_search search =
      try_except
        (do
          resp ←
              get_with "https://registry.modelcontextprotocol.io/v0.1/servers"
                (registry_params search)
          raise_for_status resp
          body ← lift resp.json
          pure (send_json body 200))
        (λ e. pure (send_error_json 502 ("Registry unavailable: " <> R.describe e)))
