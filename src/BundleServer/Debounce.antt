-- ===== src/BundleServer/Debounce.antt =====
-- `rebuild_loop` of bundle-server/server.py beside the threads that set `rebuild_signal`: any
-- interleaving of the loop's statements and of signals.
pub mod Settling
use noumena_mcp_gateway_poc.Base.{ℕ, ◌+◌, Bool, true, false, List, [], ◌∷◌, if◌then◌else◌}

-- The statement that the loop's thread runs next. The call of `rebuild` is two of them: what it
-- fetches is the store's state when it starts or later.
pub data Statement : Type 0 where
  wait clear sleep drain rebuild_start rebuild_end : Statement

-- `signals` counts the calls of `rebuild_signal.set()`, `seen` those before the last rebuild
-- started, `rebuilds` the rebuilds of this loop.
pub record Loop : Type 0 where
  pub next : Statement
  pub signal : Bool
  pub signals : ℕ
  pub seen : ℕ
  pub rebuilds : ℕ

abbrev pub start : Loop
start = record { next = wait; signal = false; signals = 0; seen = 0; rebuilds = 0 }

unfoldable pub set_signal : Loop → Loop
set_signal l = record l { signal = true; signals = l.signals + 1 }

unfoldable pub statement : Statement → Loop → Loop
statement wait l = if l.signal then record l { next = clear } else l
statement clear l = record l { next = sleep; signal = false }
statement sleep l = record l { next = drain }
statement drain l = record l { next = rebuild_start; signal = false }
statement rebuild_start l = record l {
  next = rebuild_end;
  seen = l.signals;
  rebuilds = l.rebuilds + 1;
}
statement rebuild_end l = record l { next = wait }

-- A turn of the loop's thread. It stays at `wait` while there is no signal.
unfoldable pub loop_turn : Loop → Loop
unfolding statement
loop_turn l = statement l.next l

pub data Turn : Type 0 where
  signaller loop : Turn

unfoldable pub turn : Turn → Loop → Loop
unfolding set_signal loop_turn
turn signaller l = set_signal l
turn loop l = loop_turn l

unfoldable pub run : List Turn → Loop → Loop
unfolding turn
run [] l = l
run (t ∷ ts) l = run ts (turn t l)
