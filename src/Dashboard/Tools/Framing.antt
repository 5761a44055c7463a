-- ===== src/Dashboard/Tools/Framing.antt =====
-- A backend may frame its response as an event stream.
use text.Mathlib.TextPositions.{starts_with-append}
use mathlib.Core.List.{append_assoc}
use noumena_mcp_gateway_poc.Base.{
  ℕ, String, ◌<>◌, ◌≡◌, ◌∙◌, ap, true, false, List, [], ◌∷◌, ◌++◌, arith, starts_with,
}
use noumena_mcp_gateway_poc.Base.Exec.{ok}
use noumena_mcp_gateway_poc.Base.Json.{Json}
use noumena_mcp_gateway_poc.Base.Text.{drop_chars, has_part}
use noumena_mcp_gateway_poc.Base.Text.Laws.{AllLack, unlines, split-unlines, drop_chars-append}
use noumena_mcp_gateway_poc.Base.World.{Runtime, Response}
use noumena_mcp_gateway_poc.Dashboard.Users.{header}
use noumena_mcp_gateway_poc.Dashboard.Tools.{first_data, parse_mcp_response}

-- No line starts a data line.
abbrev pub NoData : List String → Type 0
NoData [] = Unit
NoData (l ∷ ls) = (starts_with l "data: " ≡ false) × NoData ls

drop_data : (s : String) → drop_chars 6 ("data: " <> s) ≡ s
drop_data s = drop_chars-append "data: " s

module _ (R : Runtime) where
  first_data-append :
      (before after : List String) (text : String) {v : Json}
      → NoData before
      → R.loads text ≡ ok v
      → first_data R (before ++ ("data: " <> text) ∷ after) ≡ v
  unfolding first_data
  first_data-append [] after text n h =
      ground (arith, starts_with-append "data: " text, drop_data text, h)
  first_data-append (l ∷ before) after text (n, ns) h =
      ground (arith, n, first_data-append before after text ns h)

AllLack-append :
    (sep : ℕ) (xs ys : List String) → AllLack sep xs → AllLack sep ys → AllLack sep (xs ++ ys)
AllLack-append sep [] ys h k = k
AllLack-append sep (x ∷ xs) ys (h, hs) k = (h, AllLack-append sep xs ys hs k)

module _ (R : Runtime) (resp framed : Response) where
  -- A response that is no event stream and whose JSON is `v`, and an event stream whose lines
  -- hold no line break and whose first data line holds a JSON text of `v`, are read alike.
  pub parse_mcp_response-framed :
      (before after : List String) (text : String) {v : Json}
      → has_part "text/event-stream" (header "content-type" resp) ≡ false
      → resp.json ≡ ok v
      → R.loads text ≡ ok v
      → has_part "text/event-stream" (header "content-type" framed) ≡ true
      → framed.text ≡ unlines (before ++ ("data: " <> text) ∷ after)
      → NoData before
      → AllLack 10 (before ++ ("data: " <> text) ∷ after)
      → parse_mcp_response R framed ≡ parse_mcp_response R resp
  unfolding parse_mcp_response
  parse_mcp_response-framed before after text plain j l stream t n k =
      rw (stream, plain, t, j)
        (ap ok (
          ap (first_data R) (split-unlines (before ++ ("data: " <> text) ∷ after) k)
          ∙ rw append_assoc (first_data-append R before (after ++ "" ∷ []) text n l)))
