-- ===== src/Dashboard/Pages/Head.antt =====
-- HEAD requests beside GET requests.
use noumena_mcp_gateway_poc.Base.{
  sym, ◌≡◌, refl, inl, inr, true, false, Bool-cases, String, Option, none, some,
}
use noumena_mcp_gateway_poc.Base.Exec.{Exec-cases, Result, ok, err, continue}
use noumena_mcp_gateway_poc.Base.Text.{strip_slashes}
use noumena_mcp_gateway_poc.Base.World.{Runtime}
use noumena_mcp_gateway_poc.Dashboard.State.{Reply, Config}
use noumena_mcp_gateway_poc.Dashboard.Route.{GetChoice, do_get}
use noumena_mcp_gateway_poc.Dashboard.Docker.{Docker, Host}
use noumena_mcp_gateway_poc.Dashboard.Pages.{
  Folder, Given, Page, page_of, file_page, is_there, contents, send_file, get_handler, got,
  serve_get, do_head,
}

module _ (R : Runtime) where
  -- The page with no content if it is a file.
  abbrev pub without_content : Page R → Page R
  without_content (Page.json reply) = Page.json reply
  without_content Page.streamed = Page.streamed
  without_content (Page.static_file kind length content) = Page.static_file kind length none

  abbrev pub bare : Result (Page R) × Host R → Result (Page R) × Host R
  bare (ok page, h) = (ok (without_content page), h)
  bare (err e, h) = (err e, h)

  bare-page_of :
      (r : Result (Option Reply) × Host R)
      → bare (continue r (λ answer h. (ok (page_of R answer), h)))
        ≡ continue r (λ answer h. (ok (page_of R answer), h))
  bare-page_of (ok none, h) = refl
  bare-page_of (ok (some reply), h) = refl
  bare-page_of (err e, h) = refl

module _ (R : Runtime) (D : Docker R) (F : Folder R) (cfg : Config) where
  bare-file_page :
      (path : String) (r : Result R.Bytes × Host R)
      → bare R (continue r (λ content h. (ok (file_page R F false path content), h)))
        ≡ continue r (λ content h. (ok (file_page R F true path content), h))
  unfolding file_page
  bare-file_page path (ok content, h) = refl
  bare-file_page path (err e, h) = refl

  bare-send_file :
      (path : String) (h : Host R) → bare R (send_file R F false path h) ≡ send_file R F true path h
  unfolding send_file
  bare-send_file path h = elim (Bool-cases (F.is_file (strip_slashes path) h.dash.world).0) [
    | inl e ↦ rw e (
        bare-file_page path
          (contents R F (strip_slashes path) (is_there R F (strip_slashes path) h).1))
    | inr e ↦ rw e refl
  ]

  bare-got :
      (param : String → String) (g : Given) (choice : GetChoice) (h : Host R)
      → bare R (got R D F cfg false param g choice h) ≡ got R D F cfg true param g choice h
  unfolding got
  bare-got param g (GetChoice.answer reply) h = refl
  bare-got param g (GetChoice.run handler) h =
      bare-page_of R (get_handler R D cfg param g handler h)
  bare-got param g (GetChoice.static path) h = bare-send_file path h

  -- A HEAD request does all that the GET request does; its answer is the same, with its body where
  -- that is JSON, and only the content of a static file is left out.
  pub do_head-serve_get :
      (path : String) (cookie : Option String) (param : String → String) (g : Given) (h : Host R)
      → do_head R D F cfg path cookie param g h
        ≡ bare R (serve_get R D F cfg false path cookie param g h)
  unfolding do_head serve_get
  do_head-serve_get path cookie param g h = elim (Exec-cases (do_get R path cookie h.dash)) [
    | inl (choice, d, p) ↦ rw p (sym (bare-got param g choice (record h { dash = d })))
    | inr (x, d, p) ↦ rw p refl
  ]
