-- ===== src/Tests/Broker.antt =====
-- A day of a broker: a daemon registers, a watcher watches, two clients join, and the daemon leaves.
use simbeam.Prelude.{
  ◌≡◌, ◌⊎◌, refl, not, true, false, some, String, List, [], ◌∷◌, length, All, lookup, insert,
}
use simbeam.Signal.Message.{MsgType, Msg, IceServer, msg_of}
use simbeam.Signal.Crypto.{new_nonce, verify}
use simbeam.Broker.Turn.{TurnFetcher, get, usable_relay_urls, is_dns_port, has_suffix, relay_entry}
use simbeam.Broker.Turn.Credential.{Answer, get-Answer}
use simbeam.Broker.State.{Config, Broker, Env, ClientConn, client, closed, set_role}
use simbeam.Broker.Watch.{is_online, tracks, snapshot, serve_watcher, notify_presence, targets}
use simbeam.Broker.Daemons.{serve_daemon, holds_slot}
use simbeam.Broker.Clients.{serve_client, client_message, relay_to_daemon, client_proof, is_busy}
use simbeam.Broker.Ice.{ice_servers, is_granted}
use simbeam.Broker.Serve.{Event, message, new_broker, step, run, on_message, first_message}
use simbeam.Broker.Links.{Linked}
use simbeam.Broker.Links.Run.{run-Linked}
use simbeam.Broker.Sessions.{Keeps, Takes, step-current, step-session}
use simbeam.Broker.Gate.{Gated, step-Gated}
use simbeam.Broker.Presence.{heard, watches}
use simbeam.Broker.Presence.Run.{run-IsTruthful}
use simbeam.Broker.Presence.Race.{overtaken, overtaken-is_online}
use simbeam.Tests.Pairing.{toy}

abbrev cfg : Config
cfg = record { crypto = toy; stun_urls = "stun:a" ∷ []; turn_open = false; has_store = true }

abbrev relay : IceServer
relay = record { urls = "turn:a:53" ∷ "turn:a:3478" ∷ []; username = "u"; credential = "c" }

abbrev fetcher : TurnFetcher
fetcher = record {
  ttl = 100;
  cached = record { urls = []; username = ""; credential = "" };
  refresh = 0;
}

abbrev env : Env
env = record {
  now = 10;
  later = 11;
  nonce = some (5 ∷ []);
  active = λ key. some true;
  fetched = some (relay ∷ []);
}

abbrev registers : Msg
registers = record (msg_of MsgType.register) { daemon = "mac" }

abbrev watches_mac : Msg
watches_mac = record (msg_of MsgType.watch) { daemons = "mac" ∷ [] }

abbrev joins_as : String → Msg
joins_as key = record (msg_of MsgType.join) { daemon = "mac"; pub_key = key }

abbrev proves : Msg
proves = record (msg_of MsgType.proof) { sig = "s"; broker_sig = "b" }

abbrev day : List Event
day =
    message env 2 watches_mac
    ∷ message env 1 registers
    ∷ message env 3 (joins_as "alice")
    ∷ message env 3 proves
    ∷ message env 4 (joins_as "bob")
    ∷ []

abbrev at_dusk : Broker
at_dusk = (run cfg (new_broker (some fetcher)) day).0

run-Linked_example : Linked (run cfg (new_broker (some fetcher)) day).0
run-Linked_example = run-Linked cfg (some fetcher) day

dusk_watched : watches 2 "mac" at_dusk.watchers ≡ true
unfolding run step on_message first_message serve_watcher serve_daemon serve_client is_busy
    new_nonce tracks snapshot notify_presence targets client_message relay_to_daemon client_proof
    verify ice_servers is_granted get usable_relay_urls is_dns_port has_suffix relay_entry lookup
    insert is_online heard
dusk_watched = refl

dusk_heard : heard 2 "mac" (run cfg (new_broker (some fetcher)) day).1 ≡ some true
unfolding run step on_message first_message serve_watcher serve_daemon serve_client is_busy
    new_nonce tracks snapshot notify_presence targets client_message relay_to_daemon client_proof
    verify ice_servers is_granted get usable_relay_urls is_dns_port has_suffix relay_entry lookup
    insert is_online heard
dusk_heard = refl

run-IsTruthful_example :
    heard 2 "mac" (run cfg (new_broker (some fetcher)) day).1 ≡ some (is_online at_dusk "mac")
run-IsTruthful_example = run-IsTruthful cfg (some fetcher) day 2 "mac" dusk_watched

abbrev morning : List Event
morning =
    message env 2 watches_mac ∷ message env 1 registers ∷ message env 3 (joins_as "alice") ∷ []

abbrev at_noon : Broker
at_noon = (run cfg (new_broker (some fetcher)) morning).0

abbrev alice : ClientConn
alice = record { conn = 3; pub_key = "alice"; b_nonce = "digest"; trickle = false }

noon_session : at_noon.roles 3 ≡ client alice 1
unfolding run step on_message first_message serve_watcher serve_daemon serve_client is_busy
    new_nonce tracks snapshot notify_presence targets client_message relay_to_daemon client_proof
    verify ice_servers is_granted get usable_relay_urls is_dns_port has_suffix relay_entry lookup
    insert is_online heard
noon_session = refl

step-current_example :
    ((at_noon.objects 1).client ≡ some alice)
    ⊎ (step cfg at_noon (message env 3 proves) ≡ (set_role at_noon 3 closed, []))
step-current_example =
    step-current cfg env at_noon 3 1 alice proves (run-Linked cfg (some fetcher) morning)
      noon_session

step-session_example :
    Keeps at_noon (step cfg at_noon (message env 4 (joins_as "bob"))).0 1
    ⊎ Takes at_noon (step cfg at_noon (message env 4 (joins_as "bob"))).0 1 4 (joins_as "bob")
step-session_example = step-session cfg env at_noon 4 (joins_as "bob") 1

step-Gated_example :
    All (Gated cfg env at_noon 3 proves) (step cfg at_noon (message env 3 proves)).1
step-Gated_example = step-Gated cfg env at_noon 3 proves (run-Linked cfg (some fetcher) morning)

noon_relay : length (ice_servers cfg env at_noon "alice").1 ≡ 2
unfolding run step on_message first_message serve_watcher serve_daemon serve_client is_busy
    new_nonce tracks snapshot notify_presence targets client_message relay_to_daemon client_proof
    verify ice_servers is_granted get usable_relay_urls is_dns_port has_suffix relay_entry lookup
    insert is_online heard
noon_relay = refl

dusk_daemon : (at_dusk.objects 1).id ≡ "mac"
unfolding run step on_message first_message serve_watcher serve_daemon serve_client is_busy
    new_nonce tracks snapshot notify_presence targets client_message relay_to_daemon client_proof
    verify ice_servers is_granted get usable_relay_urls is_dns_port has_suffix relay_entry lookup
    insert is_online heard
dusk_daemon = refl

dusk_holds : holds_slot at_dusk 1 ≡ true
unfolding run step on_message first_message serve_watcher serve_daemon serve_client is_busy
    new_nonce tracks snapshot notify_presence targets client_message relay_to_daemon client_proof
    verify ice_servers is_granted get usable_relay_urls is_dns_port has_suffix relay_entry lookup
    insert is_online heard
dusk_holds = refl

overtaken-is_online_example :
    (heard 2 "mac" (overtaken at_dusk 1 5 registers).1 ≡ some (not (holds_slot at_dusk 1)))
    × (is_online (overtaken at_dusk 1 5 registers).0 "mac" ≡ true)
overtaken-is_online_example =
    overtaken-is_online at_dusk 1 5 registers 2 "mac" dusk_daemon refl refl dusk_watched

get-Answer_example :
    Answer fetcher
      (get fetcher 10 (some (relay ∷ [])) 11).0
      (get fetcher 10 (some (relay ∷ [])) 11).1
get-Answer_example = get-Answer fetcher 10 (some (relay ∷ [])) 11 tt

abbrev usable : IceServer
usable = record { urls = "turn:a:3478" ∷ []; username = "u"; credential = "c" }

fetched :
    (get fetcher 10 (some (relay ∷ [])) 11)
    ≡ (record { ttl = 100; cached = usable; refresh = 61 }, some usable)
unfolding run step on_message first_message serve_watcher serve_daemon serve_client is_busy
    new_nonce tracks snapshot notify_presence targets client_message relay_to_daemon client_proof
    verify ice_servers is_granted get usable_relay_urls is_dns_port has_suffix relay_entry lookup
    insert is_online heard
fetched = refl
