-- ===== src/BundleServer/Debounce/Settling.antt =====
-- No signal is lost, and there are no more rebuilds than signals.
use noumena_mcp_gateway_poc.Base.{
  ℕ, zero, suc, ◌+◌, ◌≤◌, ◌≡◌, refl, Bool, true, false, List, [], ◌∷◌, arith, if◌then◌else◌,
}
use noumena_mcp_gateway_poc.BundleServer.Debounce.{
  Loop, Statement, wait, clear, sleep, drain, rebuild_start, rebuild_end, start, statement, Turn,
  signaller, loop, turn, run,
}

-- A rebuild is under way that has not started to fetch.
abbrev pub pending : Statement → Bool
pending wait = false
pending rebuild_end = false
pending _ = true

-- The loop has taken the signal and has not rebuilt.
abbrev pub taken : Statement → ℕ
taken sleep = 1
taken drain = 1
taken rebuild_start = 1
taken _ = 0

abbrev pub awake : Statement → Bool
awake clear = true
awake _ = false

pub record IsSound (l : Loop) : Type 0 where
  pub seen_all : pending l.next ≡ false → l.signal ≡ false → l.seen ≡ l.signals
  pub few : l.rebuilds + taken l.next + (if l.signal then 1 else 0) ≤ l.signals
  pub woken : awake l.next ≡ true → l.signal ≡ true

statement-IsSound : (s : Statement) (l : Loop) → l.next ≡ s → IsSound l → IsSound (statement s l)
unfolding statement
statement-IsSound wait l e h = ground arith
statement-IsSound _ l e h = ground arith

turn-IsSound : (t : Turn) (l : Loop) → IsSound l → IsSound (turn t l)
unfolding turn
turn-IsSound signaller l h = ground arith
turn-IsSound loop l h = statement-IsSound l.next l refl h

pub run-IsSound : (ts : List Turn) (l : Loop) → IsSound l → IsSound (run ts l)
unfolding run
run-IsSound [] l h = h
run-IsSound (t ∷ ts) l h = run-IsSound ts (turn t l) (turn-IsSound t l h)

-- After any interleaving, when the loop waits and no signal is set, its last rebuild started
-- after every signal.
pub run_seen :
    (ts : List Turn)
    → (run ts start).next ≡ wait
    → (run ts start).signal ≡ false
    → (run ts start).seen ≡ (run ts start).signals
run_seen ts h k = let v = run-IsSound ts start (ground arith) in ground (arith, v)

-- After any interleaving, the loop has rebuilt at most once for each signal.
pub run_few : (ts : List Turn) → (run ts start).rebuilds ≤ (run ts start).signals
run_few ts = let h = run-IsSound ts start (ground arith) in omega arith

abbrev pub loop_turns : ℕ → List Turn
loop_turns zero = []
loop_turns (suc n) = loop ∷ loop_turns n

settles :
    (s : Statement) (l : Loop)
    → l.next ≡ s
    → IsSound l
    → (let l' = run (loop_turns 8) l in
        (l'.next ≡ wait) × (l'.signal ≡ false) × (l'.seen ≡ l.signals))
unfolding run
settles wait l e h = ground arith
settles _ l e h = ground arith

-- After any interleaving, eight turns of the loop without a new signal bring it to its wait with
-- the signal clear, and its last rebuild started after every signal.
pub run_settles :
    (ts : List Turn)
    → (let l = run (loop_turns 8) (run ts start) in
        (l.next ≡ wait) × (l.signal ≡ false) × (l.seen ≡ (run ts start).signals))
run_settles ts =
    settles (run ts start).next (run ts start) refl (run-IsSound ts start (ground arith))
