-- ===== src/Dashboard/Proxy/Relay.antt =====
-- What the browser gets of the events that NPL sends.
use text.Mathlib.TextPositions.{starts_with-append}
use text.Mathlib.TextLemmas.{append-eq-nil_iff, cons-ne-nil}
use mathlib.Core.List.{append_assoc, append-nil}
use noumena_mcp_gateway_poc.Base.{
  ap, ◌-◌, ◌≤◌, String, ◌<>◌, ◌≡◌, ◌∙◌, refl, false, Option, some, List, [], ◌∷◌, ◌++◌, arith,
  length, length-append, inl, inr, Bool-cases, eq_iff, starts_with, ◌==◌,
}
use noumena_mcp_gateway_poc.Base.Exec.{ok, ◌>>◌}
use noumena_mcp_gateway_poc.Base.Text.{strip, strip_left}
use noumena_mcp_gateway_poc.Base.Text.Laws.{drop_chars-append}
use noumena_mcp_gateway_poc.Dashboard.Proxy.{
  Wire, write, write_all, data_parts, data_lines, message, relay,
}

-- An event of NPL: its data, and the lines of its other fields, which come first.
pub record NplEvent : Type 0 where
  pub fields : List String
  pub values : List String

abbrev AllOther : List String → Type 0
AllOther [] = Unit
AllOther (l ∷ ls) = ((l == "") ≡ false) × (starts_with l "data:" ≡ false) × AllOther ls

-- White space at the ends of the data is not kept, so there is none.
abbrev AllStripped : List String → Type 0
AllStripped [] = Unit
AllStripped (d ∷ ds) = (strip d ≡ d) × AllStripped ds

abbrev pub IsPlain : NplEvent → Type 0
IsPlain e = AllOther e.fields × AllStripped e.values

abbrev pub AllPlain : List NplEvent → Type 0
AllPlain [] = Unit
AllPlain (e ∷ es) = IsPlain e × AllPlain es

abbrev pub data_of : List String → List String
data_of [] = []
data_of (d ∷ ds) = ("data:" <> String.◌∷◌ " " d) ∷ data_of ds

abbrev pub lines_of : List String → List (Option String) → List (Option String)
lines_of [] rest = rest
lines_of (l ∷ ls) rest = some l ∷ lines_of ls rest

-- The lines of the events as NPL sends them.
unfoldable pub sent : List NplEvent → List (Option String)
sent [] = []
sent (e ∷ es) = lines_of (e.fields ++ data_of e.values) (some "" ∷ sent es)

-- The texts written for the events.
unfoldable messages : List NplEvent → List String
messages [] = []
messages (e ∷ es) = message e.values ++ messages es

-- An event as the browser should get it: a line for each of its data, and a blank line.
unfoldable pub shown : List String → List String
shown [] = "\n" ∷ []
shown (d ∷ ds) = ("data: " <> d <> "\n") ∷ shown ds

-- The events of which the browser gets anything: those with data.
unfoldable pub received : List NplEvent → List String
received [] = []
received (e ∷ es) = elim e.values [ [] ↦ received es | d ∷ ds ↦ shown (d ∷ ds) ++ received es ]

shown_lem : (ds : List String) → data_lines ds ++ "\n" ∷ [] ≡ shown ds
unfolding shown
shown_lem [] = refl
shown_lem (d ∷ ds) = ap (λ ss. ("data: " <> d <> "\n") ∷ ss) (shown_lem ds)

event_lem :
    (ds : List String) (rest : List String)
    → message ds ++ rest
      ≡ (elim ds as (λ _. List String) [ [] ↦ rest | d ∷ ds' ↦ shown (d ∷ ds') ++ rest ])
unfolding message
event_lem [] rest = refl
event_lem (d ∷ ds) rest = ap (λ ss. ss ++ rest) (shown_lem (d ∷ ds))

messages-received : (es : List NplEvent) → messages es ≡ received es
unfolding messages received
messages-received [] = refl
messages-received (e ∷ es) =
    ap (λ ss. message e.values ++ ss) (messages-received es) ∙ event_lem e.values (received es)

-- With room for all, all is written.
write_all_lem :
    (ss : List String) (w : Wire)
    → length ss ≤ w.room
    → write_all ss w ≡ (ok tt, record w { written = w.written ++ ss; room = w.room - length ss })
unfolding write_all write
write_all_lem [] w h = ground (arith, append-nil w.written)
write_all_lem (s ∷ ss) w h = ground (
  arith,
  write_all_lem ss (record w { written = w.written ++ s ∷ []; room = w.room - 1 }),
  append_assoc w.written (s ∷ []) ss,
)

data_parts-fields : (fs ds : List String) → AllOther fs → data_parts (fs ++ ds) ≡ data_parts ds
unfolding data_parts
data_parts-fields [] ds h = refl
data_parts-fields (l ∷ fs) ds (_, n, h) = rw n (data_parts-fields fs ds h)

strip-cons : (d : String) → strip (String.◌∷◌ " " d) ≡ strip d
unfolding strip strip_left
strip-cons d = refl

data_parts-data_of : (ds : List String) → AllStripped ds → data_parts (data_of ds) ≡ ds
unfolding data_parts
data_parts-data_of [] h = refl
data_parts-data_of (d ∷ ds) (e, h) = rw (
  starts_with-append "data:" (String.◌∷◌ " " d),
  drop_chars-append "data:" (String.◌∷◌ " " d),
  strip-cons d,
  e,
  data_parts-data_of ds h,
)

-- None of the lines is empty.
abbrev NoneEmpty : List String → Type 0
NoneEmpty [] = Unit
NoneEmpty (l ∷ ls) = ((l == "") ≡ false) × NoneEmpty ls

labelled-ne-nil : (x : String) → ("data:" <> x == "") ≡ false
labelled-ne-nil x = elim (Bool-cases ("data:" <> x == "")) [
  | inl e ↦ absurd (cons-ne-nil _ _ ((append-eq-nil_iff.0 ((eq_iff ("data:" <> x) "").0 e)).0))
  | inr e ↦ e
]

NoneEmpty-data_of : (ds : List String) → NoneEmpty (data_of ds)
NoneEmpty-data_of [] = tt
NoneEmpty-data_of (d ∷ ds) = (labelled-ne-nil (String.◌∷◌ " " d), NoneEmpty-data_of ds)

NoneEmpty-fields : (fs ds : List String) → AllOther fs → NoneEmpty ds → NoneEmpty (fs ++ ds)
NoneEmpty-fields [] ds h n = n
NoneEmpty-fields (f ∷ fs) ds (e, _, h) n = (e, NoneEmpty-fields fs ds h n)

-- The lines of an event are collected.
relay-lines_of :
    (ls buf : List String) (rest : List (Option String)) (w : Wire)
    → NoneEmpty ls
    → relay (lines_of ls rest) buf w ≡ relay rest (buf ++ ls) w
unfolding relay
relay-lines_of [] buf rest w h = rw append-nil
relay-lines_of (l ∷ ls) buf rest w (n, h) =
    rw (n, relay) (relay-lines_of ls (buf ++ l ∷ []) rest w h ∙ rw append_assoc)

relay-event :
    (e : NplEvent) (rest : List (Option String)) (w : Wire)
    → IsPlain e
    → relay (lines_of (e.fields ++ data_of e.values) (some "" ∷ rest)) [] w
      ≡ (write_all (message e.values) >> relay rest []) w
relay-event e rest w (f, v) =
    relay-lines_of (e.fields ++ data_of e.values) [] (some "" ∷ rest) w
      (NoneEmpty-fields e.fields (data_of e.values) f (NoneEmpty-data_of e.values))
    ∙ unfold relay in
      rw (data_parts-fields e.fields (data_of e.values) f, data_parts-data_of e.values v)

relay-messages :
    (es : List NplEvent) (w : Wire)
    → AllPlain es
    → length (messages es) ≤ w.room
    → relay (sent es) [] w ≡ (
      ok tt,
      record w { written = w.written ++ messages es; room = w.room - length (messages es) },
    )
unfolding sent messages
relay-messages [] w h r = unfold relay in ground (arith, append-nil w.written)
relay-messages (e ∷ es) w (h, hs) r =
    let w' : Wire = record w {
      written = w.written ++ message e.values;
      room = w.room - length (message e.values);
    } in
    let count = length-append (message e.values) (messages es) in
    relay-event e (sent es) w h
    ∙ rw (write_all_lem (message e.values) w (omega (arith, count))) (
        relay-messages es w' hs (omega (arith, count))
        ∙ ground (arith, count, append_assoc w.written (message e.values) (messages es)))

-- If the browser stays for all writes, each event's other lines come before its data and are
-- neither empty nor data lines, and the data have no white space at their ends, then the browser
-- gets, for each event with data, a line for each of its data, in order, and a blank line, and
-- nothing else.
pub relay-sent :
    (es : List NplEvent) (w : Wire)
    → AllPlain es
    → length (received es) ≤ w.room
    → relay (sent es) [] w ≡ (
      ok tt,
      record w { written = w.written ++ received es; room = w.room - length (received es) },
    )
relay-sent es w h r =
    let room : length (messages es) ≤ w.room = rw (messages-received es) r in
    rw (← messages-received es) (relay-messages es w h room)
