-- ===== src/Server/Reconnect.antt =====
-- internal/server/remote.go, `ServeSignal` and `reconnLog`: dialling the broker again and again. One turn of
-- the loop has what `serveOnce` did: whether it registered, and how long it took.
pub mod Waits
use simbeam.Prelude.{ℕ, ◌*◌, Bool, true, false, not, ◌&&◌, List, [], ◌∷◌, ◌++◌, ltb, if◌then◌else◌}

-- In nanoseconds.
abbrev pub second : ℕ
second = 1000000000

abbrev pub max_backoff : ℕ
max_backoff = 30 * second

pub data Line : Type 0 where
  back_online lost_connection retrying : Line

pub record ReconnLog : Type 0 where
  pub verbose : Bool
  pub down : Bool

unfoldable pub up : ReconnLog → ReconnLog × List Line
up r = if r.down then (record r { down = false }, back_online ∷ []) else (r, [])

unfoldable pub lost : ReconnLog → ReconnLog × List Line
lost r =
    if r.verbose
    then (r, retrying ∷ [])
    else if not r.down
    then (record r { down = true }, lost_connection ∷ [])
    else (r, [])

pub record Attempt : Type 0 where
  pub registered : Bool
  pub took : ℕ

pub record Loop : Type 0 where
  pub backoff : ℕ
  pub log : ReconnLog

-- The wait before the next turn.
unfoldable pub wait : ℕ → ℕ → ℕ
wait backoff took = if ltb max_backoff took then second else backoff

unfoldable pub double : ℕ → ℕ
double backoff = if ltb max_backoff (backoff * 2) then max_backoff else backoff * 2

abbrev pub after_serving : Bool → ReconnLog → ReconnLog × List Line
after_serving registered log = if registered then up log else (log, [])

abbrev pub then_lost : ReconnLog × List Line → ReconnLog × List Line
then_lost (log, lines) = let (next, more) = lost log in (next, lines ++ more)

-- The loop afterwards, the lines, and the wait.
unfoldable pub turn : Loop → Attempt → Loop × List Line × ℕ
unfolding up lost wait double
turn l a =
    let (log, lines) = then_lost (after_serving a.registered l.log) in
    (record { backoff = double (wait l.backoff a.took); log = log }, lines, wait l.backoff a.took)

unfoldable pub turns : Loop → List Attempt → List Line × List ℕ
unfolding turn
turns l [] = ([], [])
turns l (a ∷ others) =
    let (next, lines, waited) = turn l a in
    let (more, waits) = turns next others in (lines ++ more, waited ∷ waits)

abbrev pub new_loop : Bool → Loop
new_loop verbose = record { backoff = second; log = record { verbose = verbose; down = false } }
