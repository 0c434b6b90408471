-- ===== src/Broker/State.antt =====
-- internal/signalbroker/broker.go, presence.go and stats.go: what the broker holds. A websocket is a
-- number, and a `daemonConn` is named by the number of its websocket.
use simbeam.Prelude.{ℕ, Bool, false, Option, none, some, String, List, ◌==◌, if◌then◌else◌}
use simbeam.Signal.Message.{Msg, IceServer}
use simbeam.Signal.Crypto.{Primitives}
use simbeam.Broker.Turn.{TurnFetcher}

pub record ClientConn : Type 0 where
  pub conn : ℕ
  pub pub_key : String
  pub b_nonce : String
  pub trickle : Bool

pub record DaemonConn : Type 0 where
  pub conn : ℕ
  pub id : String
  pub trickle : Bool
  pub client : Option ClientConn

pub record Watcher : Type 0 where
  pub conn : ℕ
  pub ids : List String

pub record Counters : Type 0 where
  pub joins : ℕ
  pub pairings : ℕ
  pub proofs_ok : ℕ
  pub proofs_bad : ℕ
  pub turn_granted : ℕ
  pub offline : ℕ
  pub busy : ℕ
  pub takeovers : ℕ

-- What the goroutine of a websocket is doing: waiting for the first message, or in one of the three
-- loops, or returned.
pub data Role : Type 0 where
  opening : Role
  daemon : Role
  client : ClientConn → (of : ℕ) → Role
  watcher : Role
  closed : Role

pub record Config : Type 0 where
  pub crypto : Primitives
  pub stun_urls : List String
  pub turn_open : Bool
  pub has_store : Bool

pub record Broker : Type 0 where
  pub turn : Option TurnFetcher
  pub daemons : List (String × ℕ)
  pub objects : ℕ → DaemonConn
  pub roles : ℕ → Role
  pub watchers : List Watcher
  pub n : Counters

-- What the outside answers while one message is handled: the clock, twice; the random source; the
-- subscription store at a key, now (`none` for its error); and Cloudflare.
pub record Env : Type 0 where
  pub now : ℕ
  pub later : ℕ
  pub nonce : Option (List ℕ)
  pub active : String → Option Bool
  pub fetched : Option (List IceServer)

-- A write to a websocket, and `ws.Close()` on one.
pub data Out : Type 0 where
  sends : ℕ → Msg → Out
  closes : ℕ → Out

abbrev pub update {ℓ} : {A : Type ℓ} → (ℕ → A) → ℕ → A → ℕ → A
update f i a j = if i == j then a else f j

abbrev pub set_role : Broker → ℕ → Role → Broker
set_role b c r = record b { roles = update b.roles c r }

abbrev pub set_client : Broker → ℕ → Option ClientConn → Broker
set_client b d cl = record b { objects = update b.objects d (record (b.objects d) { client = cl }) }

-- `d.client == cl`: a websocket makes one `clientConn`, so the pointer is known by its number.
abbrev pub is_current : Option ClientConn → ℕ → Bool
is_current none c = false
is_current (some cl) c = cl.conn == c
