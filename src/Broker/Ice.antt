-- ===== src/Broker/Ice.antt =====
-- internal/signalbroker/broker.go, `iceServers`.
use simbeam.Prelude.{
  Bool, true, false, Option, none, some, ◌+◌, String, List, [], ◌∷◌, if◌then◌else◌,
}
use simbeam.Signal.Message.{IceServer}
use simbeam.Broker.Turn.{TurnFetcher, get}
use simbeam.Broker.State.{Config, Broker, Env}

-- A store error is logged and counts as "not active".
abbrev is_active : Option Bool → Bool
is_active none = false
is_active (some ok) = ok

unfoldable pub is_granted : Config → Env → Broker → String → Bool
is_granted cfg env b client_pub_key = elim b.turn [
  | none ↦ false
  | some f ↦
      if cfg.turn_open
      then true
      else if cfg.has_store
      then is_active (env.active client_pub_key)
      else false
]

abbrev pub stun : Config → IceServer
stun cfg = record { urls = cfg.stun_urls; username = ""; credential = "" }

-- STUN always; the relay if granted and if the fetch succeeds.
abbrev with_relay : Config → Broker → TurnFetcher × Option IceServer → Broker × List IceServer
with_relay cfg b (f, none) = (record b { turn = some f }, stun cfg ∷ [])
with_relay cfg b (f, some relay) = (
  record b { turn = some f; n = record b.n { turn_granted = b.n.turn_granted + 1 } },
  stun cfg ∷ relay ∷ [],
)

abbrev fetch_relay : Config → Env → Broker → Option TurnFetcher → Broker × List IceServer
fetch_relay cfg env b none = (b, stun cfg ∷ [])
fetch_relay cfg env b (some f) = with_relay cfg b (get f env.now env.fetched env.later)

unfoldable pub ice_servers : Config → Env → Broker → String → Broker × List IceServer
unfolding is_granted
ice_servers cfg env b client_pub_key =
    if is_granted cfg env b client_pub_key then fetch_relay cfg env b b.turn else (b, stun cfg ∷ [])
