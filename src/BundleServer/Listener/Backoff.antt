-- ===== src/BundleServer/Listener/Backoff.antt =====
-- The waits between two attempts of `sse_listener`.
use Prim.Native.Nat.{◌^◌}
use native.Mathlib.Nat.{pow-suc, one-le-pow}
use native.Mathlib.Decide.{dec_le}
use noumena_mcp_gateway_poc.Base.{
  ℕ, ◌*◌, ◌≤◌, ◌≡◌, ◌∙◌, refl, String, Option, List, [], ◌∷◌, min, length, arith,
}
use noumena_mcp_gateway_poc.Base.Exec.{Exception, Result, err, ok}
use noumena_mcp_gateway_poc.Base.World.{Runtime}
use noumena_mcp_gateway_poc.BundleServer.Client.{Client, Config}
use noumena_mcp_gateway_poc.BundleServer.Listener.{
  Ending, Listener, Stream, Event, lost, closed, connect, listen, listen_all, listen_open, on_event,
  on_events, on_ending, on_open,
}

abbrev pub AllWithin : List ℕ → Type 0
AllWithin [] = Unit
AllWithin (x ∷ xs) = (1 ≤ x) × (x ≤ 30) × AllWithin xs

-- The next wait and every wait so far last from one to thirty seconds.
pub record IsPaced {R : Runtime} (l : Listener R) : Type 0 where
  pub at_least : 1 ≤ l.backoff
  pub at_most : l.backoff ≤ 30
  pub slept : AllWithin l.sleeps

module _ (R : Runtime) (cfg : Config) where
  backoff-on_events :
      (es : List Event) (l : Listener R)
      → ((on_events R cfg es l).backoff ≡ l.backoff) × ((on_events R cfg es l).sleeps ≡ l.sleeps)
  unfolding on_events on_event
  backoff-on_events [] l = (refl, refl)
  backoff-on_events (e ∷ es) l = ground (arith, backoff-on_events es (on_event R cfg e l))

  on_ending-IsPaced : (e : Ending) (l : Listener R) → IsPaced l → IsPaced (on_ending R cfg e l)
  unfolding on_ending
  on_ending-IsPaced closed l p = p
  on_ending-IsPaced (lost e) l p = ground arith

  opened-IsPaced :
      (es : List Event) (l : Listener R)
      → IsPaced l
      → IsPaced (on_events R cfg es (on_open R cfg l))
  unfolding on_open
  opened-IsPaced es l p = ground (arith, backoff-on_events es (on_open R cfg l))

  listen_open-IsPaced :
      (x : Stream) (l : Listener R) (r : Result (Unit {0}) × Client R)
      → IsPaced l
      → IsPaced (listen_open R cfg x l r)
  listen_open-IsPaced x l (ok _, c) p =
      unfold listen_open in
      on_ending-IsPaced x.ending _ (
        opened-IsPaced x.events (record l { server = record l.server { client = c } })
          (ground arith))
  listen_open-IsPaced x l (err e, c) p = unfold listen_open in ground arith

  listen-IsPaced : (x : Stream) (l : Listener R) → IsPaced l → IsPaced (listen R cfg x l)
  unfolding listen
  listen-IsPaced x l p = listen_open-IsPaced x l (connect R cfg l.last_event_id l.server.client) p

  -- Whatever the rounds bring, if the next wait and the waits so far last from one to thirty
  -- seconds, so they do after the rounds.
  pub listen_all-IsPaced :
      (xs : List Stream) (l : Listener R) → IsPaced l → IsPaced (listen_all R cfg xs l)
  unfolding listen_all
  listen_all-IsPaced [] l p = p
  listen_all-IsPaced (x ∷ xs) l p = listen_all-IsPaced xs (listen R cfg x l) (listen-IsPaced x l p)

-- The stream cannot be opened, whatever the request.
abbrev pub IsDown : (R : Runtime) (cfg : Config) → Type 0
IsDown R cfg =
    (id : Option String) (c : Client R)
    → (e : Exception) × (c' : Client R) × (connect R cfg id c ≡ (err e, c'))

mul-le-mul : (a b p : ℕ) → a ≤ b → a * p ≤ b * p
mul-le-mul a b p h = grind arith

backoff-listen :
    (R : Runtime) (cfg : Config) (x : Stream) (l : Listener R) {e : Exception} {c : Client R}
    → connect R cfg l.last_event_id l.server.client ≡ (err e, c)
    → (listen R cfg x l).backoff ≡ min (l.backoff * 2) 30
unfolding listen
backoff-listen R cfg x l h = rw h

double_capped : (b p : ℕ) → 1 ≤ p → min (min (b * 2) 30 * p) 30 ≡ min (b * (p * 2)) 30
double_capped b p h = elim (dec_le (b * 2) 30) [
  | yes k ↦ let e : min (b * 2) 30 ≡ b * 2 = omega arith in rw e (omega arith)
  | no k ↦
      let e : min (b * 2) 30 ≡ 30 = omega arith in
      rw e (omega (arith, mul-le-mul 31 (b * 2) p (omega arith)))
]

module _ (R : Runtime) (cfg : Config) (down : IsDown R cfg) where
  -- While no attempt opens the stream, the wait doubles with each, up to thirty seconds, from a
  -- wait of at most thirty.
  pub backoff-listen_all :
      (xs : List Stream) (l : Listener R)
      → l.backoff ≤ 30
      → (listen_all R cfg xs l).backoff ≡ min (l.backoff * 2 ^ length xs) 30
  unfolding listen_all
  backoff-listen_all [] l h = omega arith
  backoff-listen_all (x ∷ xs) l h =
      let (e, c, failed) = down l.last_event_id l.server.client in
      let l' = listen R cfg x l in
      let step : l'.backoff ≡ min (l.backoff * 2) 30 = backoff-listen R cfg x l failed in
      backoff-listen_all xs l' (omega (arith, step))
      ∙ rw step (
          double_capped l.backoff (2 ^ length xs) (one-le-pow (length xs) 2 (omega arith))
          ∙ rw pow-suc)
