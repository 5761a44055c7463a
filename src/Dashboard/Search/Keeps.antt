-- ===== src/Dashboard/Search/Keeps.antt =====
-- The sessions beside the searches of dashboard/server.py.
use noumena_mcp_gateway_poc.Base.{String, List, [], ◌∷◌}
use noumena_mcp_gateway_poc.Base.Exec.{lift}
use noumena_mcp_gateway_poc.Base.Exec.Keeps.{
  Keeps, Keeps-bind, Keeps-lift, Keeps-pure, Keeps-if, Keeps-raise,
}
use noumena_mcp_gateway_poc.Base.Json.{Json, Items, nil, cons, Fields, str, truthy, get, iterate}
use noumena_mcp_gateway_poc.Base.World.{Runtime, Response}
use noumena_mcp_gateway_poc.Dashboard.State.Keeps.{sessions, keeps_sessions}
use noumena_mcp_gateway_poc.Base.{ℕ}
use noumena_mcp_gateway_poc.Dashboard.Search.{
  description_of, found_image, found_images, browsed_image, browsed_images, get_with, search_images,
  results_of, browse_images, images_for, handle_dockerhub_search, handle_registry_search,
}

module _ (R : Runtime) where
  Keeps-description_of : (r : Json) → Keeps sessions (description_of R r)
  unfolding description_of
  Keeps-description_of r = search keeps_sessions

  Keeps-found_image :
      (r repo : Json) (images : Items) → Keeps sessions (found_image R r repo images)
  unfolding found_image
  Keeps-found_image r (str repo) images = search (keeps_sessions, Keeps-description_of) depth 20
  Keeps-found_image r _ images = Keeps-raise _

  Keeps-found_images : (its images : Items) → Keeps sessions (found_images R its images)
  unfolding found_images
  Keeps-found_images nil images = search keeps_sessions
  Keeps-found_images (cons r rest) images =
      Keeps-bind (lift (get r "repo_name" (str ""))) _ (Keeps-lift _) (λ repo.
        Keeps-bind (found_image R r repo images) _ (Keeps-found_image r repo images)
          (Keeps-found_images rest))

  Keeps-browsed_image : (r : Json) → Keeps sessions (browsed_image R r)
  unfolding browsed_image
  Keeps-browsed_image r = search keeps_sessions depth 24

  Keeps-browsed_images : (its images : Items) → Keeps sessions (browsed_images R its images)
  unfolding browsed_images
  Keeps-browsed_images nil images = search keeps_sessions
  Keeps-browsed_images (cons r rest) images =
      Keeps-bind (browsed_image R r) _ (Keeps-browsed_image r)
        (λ entry. Keeps-browsed_images rest _)

  Keeps-get_with : (url : String) (params : Fields) → Keeps sessions (get_with R url params)
  unfolding get_with
  Keeps-get_with url params = search keeps_sessions

  Keeps-search_images : (query : String) → Keeps sessions (search_images R query)
  unfolding search_images
  Keeps-search_images query = search (keeps_sessions, Keeps-get_with, Keeps-found_images) depth 20

  Keeps-results_of : (resp : Response) → Keeps sessions (results_of R resp)
  unfolding results_of
  Keeps-results_of resp = search keeps_sessions

  Keeps-browse_images :
      (pages : List ℕ) (images : Items) → Keeps sessions (browse_images R pages images)
  unfolding browse_images
  Keeps-browse_images [] images = search keeps_sessions
  Keeps-browse_images (page ∷ pages) images =
      Keeps-bind (get_with R _ _) _ (Keeps-get_with _ _) (λ resp.
        Keeps-bind (results_of R resp) _ (Keeps-results_of resp) (λ results.
          Keeps-if (truthy results) _ _
            (Keeps-bind (lift (iterate results)) _ (Keeps-lift _) (λ listed.
              Keeps-bind (browsed_images R listed images) _ (Keeps-browsed_images listed images)
                (Keeps-browse_images pages)))
            (Keeps-pure _)))

  Keeps-images_for : (query : String) → Keeps sessions (images_for R query)
  unfolding images_for
  Keeps-images_for query = search (keeps_sessions, Keeps-browse_images, Keeps-search_images)

  pub Keeps-dockerhub_search : (query : String) → Keeps sessions (handle_dockerhub_search R query)
  unfolding handle_dockerhub_search
  Keeps-dockerhub_search query = search (keeps_sessions, Keeps-images_for) depth 14

  pub Keeps-registry_search : (query : String) → Keeps sessions (handle_registry_search R query)
  unfolding handle_registry_search
  Keeps-registry_search query = search (keeps_sessions, Keeps-get_with) depth 20
