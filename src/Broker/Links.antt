-- ===== src/Broker/Links.antt =====
pub mod Run
-- internal/signalbroker/broker.go: how the registry, the sessions and the goroutines belong together.
use simbeam.Prelude.{
  ℕ, ◌≡◌, ◌≢◌, refl, ap, sym, ◌∙◌, Bool, true, false, ◌||◌, ◌&&◌, not, Option, none, some, ◌⊎◌, inl,
  inr, String, List, [], ◌∷◌, ◌++◌, arith, ◌==◌, ==_iff, if◌then◌else◌, lookup, insert, delete,
  lookup-insert, lookup-delete, eq_iff, str_eq, Bool-cases, Option-cases, codes,
}
use simbeam.Signal.Message.{MsgType, Msg, IceServer}
use simbeam.Signal.Crypto.{new_nonce, verify}
use simbeam.Broker.Turn.{TurnFetcher, get}
use simbeam.Broker.State.{
  ClientConn, DaemonConn, Role, opening, daemon, client, watcher, closed, Config, Broker, Env, Out,
  Counters, update, set_role, set_client, is_current,
}
use simbeam.Broker.Ice.{ice_servers}
use simbeam.Broker.Watch.{serve_watcher, watcher_left}
use simbeam.Broker.Daemons.{serve_daemon, daemon_message, daemon_left, holds_slot}
use simbeam.Broker.Clients.{
  take_slot, with_nonce, join_daemon, is_busy, serve_client, client_message, client_left,
  client_proof, relay_to_daemon,
}
use simbeam.Broker.Serve.{
  Event, message, drop, first_message, on_message, on_drop, step, run, new_broker,
}

-- A slot of the registry names a websocket in the daemon loop that registered this very id; a
-- session names a websocket in the client loop that joined this very daemon.
pub record Linked (b : Broker) : Type 0 where
  pub slots :
      (id : String) (c : ℕ)
      → lookup id b.daemons ≡ some c
      → (b.roles c ≡ daemon) × ((b.objects c).id ≡ id)
  pub clients :
      (d : ℕ) (cl : ClientConn) → (b.objects d).client ≡ some cl → b.roles cl.conn ≡ client cl d

-- Neither the registry nor a session names the websocket.
pub record IsFree (b : Broker) (c : ℕ) : Type 0 where
  no_slot : (id : String) → lookup id b.daemons ≢ some c
  no_session : (d : ℕ) (cl : ClientConn) → (b.objects d).client ≡ some cl → cl.conn ≢ c

pub opening-IsFree : (b : Broker) (c : ℕ) → Linked b → b.roles c ≡ opening → IsFree b c
opening-IsFree b c v h = record {
  no_slot = λ id e. cc (h, (v.slots id c e).0);
  no_session = λ d cl e same. cc (h, v.clients d cl e, ap b.roles same);
}

pub set_role-Linked :
    (b : Broker) (c : ℕ) (r : Role) → Linked b → IsFree b c → Linked (set_role b c r)
set_role-Linked b c r v free = record {
  slots = λ id c' e. ground (arith, v.slots id c' e, free.no_slot id);
  clients = λ d cl e. ground (arith, v.clients d cl e, free.no_session d cl e);
}

join-Linked :
    (b : Broker) (d : ℕ) (cl : ClientConn)
    → Linked b
    → IsFree b cl.conn
    → Linked (set_role (set_client b d (some cl)) cl.conn (client cl d))
join-Linked b d cl v free = record {
  slots = λ id c' e. ground (arith, v.slots id c' e, free.no_slot id);
  clients = λ d' cl' e. ground (arith, v.clients d' cl', free.no_session d' cl');
}

pub leave-Linked :
    (b : Broker) (c d : ℕ) (cl : ClientConn)
    → Linked b
    → b.roles c ≡ client cl d
    → Linked (client_left b c d).0
unfolding client_left
leave-Linked b c d cl v h = record {
  slots = λ id c' e. ground (arith, v.slots id c');
  clients = λ d' cl' e. ground (arith, v.clients d' cl');
}

pub register-Linked :
    (b : Broker) (c : ℕ) (reg : Msg)
    → Linked b
    → b.roles c ≡ opening
    → Linked (serve_daemon b c reg).0
unfolding serve_daemon
register-Linked b c reg v h =
    let free = opening-IsFree b c v h in
    elim (Bool-cases (str_eq reg.daemon "")) [
      | inl missing ↦ rw missing (set_role-Linked b c closed v free)
      | inr named ↦ rw named (record {
        slots = λ id c' e. ground (
          arith,
          lookup-insert reg.daemon id c b.daemons,
          eq_iff reg.daemon id,
          v.slots id c',
          free.no_slot id,
        );
        clients = λ d cl e. ground (arith, v.clients d cl, free.no_session d cl);
      })
    ]

pub daemon_left-Linked :
    (b : Broker) (c : ℕ) → Linked b → b.roles c ≡ daemon → Linked (daemon_left b c).0
unfolding daemon_left
daemon_left-Linked b c v h = record {
  slots = λ id c' e. ground (
    arith,
    v.slots id c',
    lookup-delete (b.objects c).id id b.daemons,
    eq_iff (b.objects c).id id,
  );
  clients = λ d cl e. ground (arith, v.clients d cl);
}

-- Linked reads three fields.
pub frame-Linked :
    (b b' : Broker)
    → b'.daemons ≡ b.daemons
    → b'.objects ≡ b.objects
    → b'.roles ≡ b.roles
    → Linked b
    → Linked b'
frame-Linked b b' e1 e2 e3 v = record {
  slots = λ id c e. rw (e2, e3) (v.slots id c (ap (lookup id) (sym e1) ∙ e));
  clients = λ d cl e. rw e3 (v.clients d cl (ap (λ o. (o d).client) (sym e2) ∙ e));
}

pub ice_servers-Linked :
    (cfg : Config) (env : Env) (b : Broker) (key : String)
    → Linked b
    → Linked (ice_servers cfg env b key).0
unfolding ice_servers
ice_servers-Linked cfg env b key v =
    frame-Linked b (ice_servers cfg env b key).0 (ground arith) (ground arith) (ground arith) v

pub refused-Linked :
    (b : Broker) (n : Counters) (c : ℕ)
    → Linked b
    → IsFree b c
    → Linked (set_role (record b { n = n }) c closed)
refused-Linked b n c v free =
    frame-Linked (set_role b c closed) (set_role (record b { n = n }) c closed) refl refl refl
      (set_role-Linked b c closed v free)

pub take_slot-Linked :
    (b : Broker) (n : Counters) (c : ℕ) (join : Msg) (d : ℕ) (b_nonce : String)
    → Linked b
    → IsFree b c
    → Linked (take_slot (record b { n = n }) c join d b_nonce).0
take_slot-Linked b n c join d b_nonce v free =
    let cl : ClientConn = record {
      conn = c;
      pub_key = join.pub_key;
      b_nonce = b_nonce;
      trickle = join.trickle;
    } in
    elim (Bool-cases (is_busy (b.objects d).client join)) [
      | inl busy ↦ rw busy (refused-Linked b _ c v free)
      | inr idle ↦ rw idle (
          frame-Linked (set_role (set_client b d (some cl)) c (client cl d)) _ refl refl refl
            (join-Linked b d cl v free))
    ]
