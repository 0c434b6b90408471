-- ===== src/Broker/Serve.antt =====
-- internal/signalbroker/broker.go, `New` and `handleWS`: the first message decides what a websocket is,
-- and the loops take it from there. A message, or the loss of a websocket, is handled as one step.
use simbeam.Prelude.{ℕ, false, Option, none, List, [], ◌∷◌, ◌++◌}
use simbeam.Signal.Message.{MsgType, Msg, error_msg}
use simbeam.Broker.Turn.{TurnFetcher}
use simbeam.Broker.State.{
  Role, opening, daemon, client, watcher, closed, Config, Broker, Env, Out, sends, Counters,
  set_role,
}
use simbeam.Broker.Daemons.{serve_daemon, daemon_message, daemon_left}
use simbeam.Broker.Clients.{serve_client, client_message, client_left}
use simbeam.Broker.Watch.{serve_watcher, watcher_left}

abbrev no_counts : Counters
no_counts = record {
  joins = 0;
  pairings = 0;
  proofs_ok = 0;
  proofs_bad = 0;
  turn_granted = 0;
  offline = 0;
  busy = 0;
  takeovers = 0;
}

abbrev pub new_broker : Option TurnFetcher → Broker
new_broker turn = record {
  turn = turn;
  daemons = [];
  objects = λ c. record { conn = c; id = ""; trickle = false; client = none };
  roles = λ c. opening;
  watchers = [];
  n = no_counts;
}

unfoldable pub first_message : Config → Env → Broker → ℕ → Msg → MsgType → Broker × List Out
first_message cfg env b c m MsgType.register = serve_daemon b c m
first_message cfg env b c m MsgType.join = serve_client cfg env b c m
first_message cfg env b c m MsgType.watch = serve_watcher b c m
first_message cfg env b c m _ = (
  set_role b c closed,
  sends c (error_msg "" "first message must be register, join, or watch") ∷ [],
)

unfoldable pub on_message : Config → Env → Broker → ℕ → Msg → Role → Broker × List Out
on_message cfg env b c m opening = first_message cfg env b c m m.type
on_message cfg env b c m daemon = daemon_message b c m
on_message cfg env b c m (client cl d) = client_message cfg env b cl c d m
on_message cfg env b c m watcher = (b, [])
on_message cfg env b c m closed = (b, [])

unfoldable pub on_drop : Broker → ℕ → Role → Broker × List Out
on_drop b c opening = (set_role b c closed, [])
on_drop b c daemon = daemon_left b c
on_drop b c (client cl d) = client_left b c d
on_drop b c watcher = watcher_left b c
on_drop b c closed = (b, [])

pub data Event : Type 0 where
  message : Env → ℕ → Msg → Event
  drop : ℕ → Event

unfoldable pub step : Config → Broker → Event → Broker × List Out
step cfg b (message env c m) = on_message cfg env b c m (b.roles c)
step cfg b (drop c) = on_drop b c (b.roles c)

unfoldable pub run : Config → Broker → List Event → Broker × List Out
run cfg b [] = (b, [])
run cfg b (e ∷ es) =
    let (next, out) = step cfg b e in let (last, later) = run cfg next es in (last, out ++ later)
