-- ===== src/Broker/Counts.antt =====
-- internal/signalbroker/stats.go, and the counting in broker.go.
use simbeam.Prelude.{
  ℕ, ◌≡◌, ◌≤◌, Option, String, List, [], ◌∷◌, ◌+◌, arith, if◌then◌else◌, length, is_some,
}
use simbeam.Signal.Message.{MsgType, Msg}
use simbeam.Broker.Turn.{TurnFetcher}
use simbeam.Broker.State.{
  ClientConn, DaemonConn, opening, daemon, client, watcher, closed, Config, Broker, Env, Counters,
}
use simbeam.Broker.Ice.{ice_servers}
use simbeam.Broker.Watch.{serve_watcher, watcher_left}
use simbeam.Broker.Daemons.{serve_daemon, daemon_message, daemon_left}
use simbeam.Broker.Clients.{
  serve_client, client_message, client_left, client_proof, relay_to_daemon,
}
use simbeam.Broker.Serve.{
  Event, message, drop, first_message, on_message, on_drop, step, run, new_broker,
}

pub record Stats : Type 0 where
  pub daemons_online : ℕ
  pub sessions_active : ℕ
  pub watchers : ℕ
  pub totals : Counters

-- The daemons that are registered with a client in flight.
unfoldable pub sessions : (ℕ → DaemonConn) → List (String × ℕ) → ℕ
sessions objects [] = 0
sessions objects (d ∷ ds) =
    let rest = sessions objects ds in if is_some (objects d.1).client then rest + 1 else rest

unfoldable pub stats : Broker → Stats
unfolding sessions
stats b = record {
  daemons_online = length b.daemons;
  sessions_active = sessions b.objects b.daemons;
  watchers = length b.watchers;
  totals = b.n;
}

sessions-le-length :
    (objects : ℕ → DaemonConn) (ds : List (String × ℕ)) → sessions objects ds ≤ length ds
unfolding sessions
sessions-le-length objects [] = omega arith
sessions-le-length objects (d ∷ ds) = ground (arith, sessions-le-length objects ds)

-- How the totals relate.
pub record Counted (n : Counters) : Type 0 where
  pub ends : n.offline + n.busy + n.takeovers ≤ n.joins
  pub pairs : n.pairings ≤ n.joins
  pub relays : n.turn_granted ≤ n.proofs_ok

ice_servers-Counted :
    (cfg : Config) (env : Env) (b : Broker) (key : String)
    → Counted b.n
    → Counted
        (ice_servers cfg env
          (record b { n = record b.n { proofs_ok = b.n.proofs_ok + 1 } })
          key).0.n
unfolding ice_servers
ice_servers-Counted cfg env b key v = record {
  ends = ground (arith, v.ends);
  pairs = ground (arith, v.pairs);
  relays = ground (arith, v.relays);
}

serve_client-Counted :
    (cfg : Config) (env : Env) (b : Broker) (c : ℕ) (m : Msg)
    → Counted b.n
    → Counted (serve_client cfg env b c m).0.n
unfolding serve_client
serve_client-Counted cfg env b c m v = record {
  ends = ground (arith, v.ends);
  pairs = ground (arith, v.pairs);
  relays = ground (arith, v.relays);
}

client_left-counts : (b : Broker) (c d : ℕ) → (client_left b c d).0.n ≡ b.n
unfolding client_left
client_left-counts b c d = ground arith

client_message-Counted :
    (cfg : Config) (env : Env) (b : Broker) (cl : ClientConn) (c d : ℕ) (m : Msg)
    → Counted b.n
    → Counted (client_message cfg env b cl c d m).0.n
unfolding client_message relay_to_daemon client_proof client_left
client_message-Counted cfg env b cl c d m v =
    let counted = ice_servers-Counted cfg env b cl.pub_key v in
    record {
      ends = ground (arith, v.ends, counted.ends);
      pairs = ground (arith, v.pairs, counted.pairs);
      relays = ground (arith, v.relays, counted.relays);
    }

first_message-Counted :
    (cfg : Config) (env : Env) (b : Broker) (c : ℕ) (m : Msg) (t : MsgType)
    → Counted b.n
    → Counted (first_message cfg env b c m t).0.n
unfolding first_message serve_daemon serve_watcher
first_message-Counted cfg env b c m MsgType.join v = serve_client-Counted cfg env b c m v
first_message-Counted cfg env b c m MsgType.register v = ground (arith, v)
first_message-Counted cfg env b c m _ v = v

step-Counted : (cfg : Config) (b : Broker) (e : Event) → Counted b.n → Counted (step cfg b e).0.n
unfolding step on_message on_drop daemon_message daemon_left watcher_left
step-Counted cfg b (message env c m) v =
    elim (b.roles c) as (λ r. Counted (on_message cfg env b c m r).0.n) [
      | opening ↦ first_message-Counted cfg env b c m m.type v
      | daemon ↦ ground (arith, v)
      | client cl d ↦ client_message-Counted cfg env b cl c d m v
      | watcher ↦ v
      | closed ↦ v
    ]
step-Counted cfg b (drop c) v = elim (b.roles c) as (λ r. Counted (on_drop b c r).0.n) [
  | opening ↦ v
  | daemon ↦ ground (arith, v)
  | client cl d ↦ rw (client_left-counts b c d) v
  | watcher ↦ v
  | closed ↦ v
]

steps-Counted :
    (cfg : Config) (b : Broker) (es : List Event) → Counted b.n → Counted (run cfg b es).0.n
unfolding run
steps-Counted cfg b [] v = v
steps-Counted cfg b (e ∷ es) v = steps-Counted cfg (step cfg b e).0 es (step-Counted cfg b e v)

-- What the endpoint may report.
pub record Coherent (s : Stats) : Type 0 where
  pub totals : Counted s.totals
  pub gauges : s.sessions_active ≤ s.daemons_online

-- From a fresh broker, after any sequence of messages and lost websockets: the refused and the evicting
-- joins together are at most the joins, so are those with an enrolment secret, relays were handed out at
-- most as often as proofs verified, and no more sessions are active than daemons online.
run-Coherent :
    (cfg : Config) (turn : Option TurnFetcher) (es : List Event)
    → Coherent (stats (run cfg (new_broker turn) es).0)
unfolding stats
run-Coherent cfg turn es = record {
  totals =
      steps-Counted cfg (new_broker turn) es
        (record { ends = omega arith; pairs = omega arith; relays = omega arith });
  gauges =
      sessions-le-length (run cfg (new_broker turn) es).0.objects
        (run cfg (new_broker turn) es).0.daemons;
}
