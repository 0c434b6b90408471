-- ===== src/Broker/Clients.antt =====
-- internal/signalbroker/broker.go, `serveClient`.
use simbeam.Prelude.{
  ℕ, ◌+◌, Bool, false, ◌&&◌, ◌||◌, not, Option, none, some, String, List, [], ◌∷◌, ◌++◌, str_eq,
  if◌then◌else◌, lookup, codes,
}
use simbeam.Signal.Message.{
  MsgType, Msg, IceServer, msg_of, error_msg, code_offline, code_busy, code_taken_over,
}
use simbeam.Signal.Crypto.{new_nonce, verify}
use simbeam.Broker.State.{
  ClientConn, client, closed, Config, Broker, Env, Out, sends, closes, Counters, set_role,
  set_client, is_current,
}
use simbeam.Broker.Ice.{ice_servers}

abbrev count_join : Counters → Msg → Counters
count_join n join = record n {
  joins = n.joins + 1;
  pairings = if str_eq join.pair "" then n.pairings else n.pairings + 1;
}

abbrev refuse : Broker → ℕ → String → String → Broker × List Out
refuse b c code text = (set_role b c closed, sends c (error_msg code text) ∷ [])

-- A different key without a confirmed takeover.
unfoldable pub is_busy : Option ClientConn → Msg → Bool
is_busy none join = false
is_busy (some old) join = not (str_eq old.pub_key join.pub_key) && not join.takeover

abbrev pub evict : Option ClientConn → Msg → List Out
evict none join = []
evict (some old) join =
    if str_eq old.pub_key join.pub_key
    then closes old.conn ∷ []
    else sends old.conn (error_msg code_taken_over "another device took over this Mac")
      ∷ closes old.conn
      ∷ []

abbrev count_takeover : Counters → Option ClientConn → Msg → Counters
count_takeover n none join = n
count_takeover n (some old) join =
    if str_eq old.pub_key join.pub_key then n else record n { takeovers = n.takeovers + 1 }

abbrev connect_msg : Msg → Msg
connect_msg join = record (msg_of MsgType.connect) {
  pub_key = join.pub_key;
  nonce = join.nonce;
  pair = join.pair;
}

abbrev pub take_slot : Broker → ℕ → Msg → ℕ → String → Broker × List Out
take_slot b c join d b_nonce =
    let old = (b.objects d).client in
    let cl : ClientConn = record {
      conn = c;
      pub_key = join.pub_key;
      b_nonce = b_nonce;
      trickle = join.trickle;
    } in
    if is_busy old join
    then refuse (record b { n = record b.n { busy = b.n.busy + 1 } }) c code_busy
        "another client is connected to this Mac — disconnect it first"
    else (
      set_role (set_client (record b { n = count_takeover b.n old join }) d (some cl)) c
          (client cl d),
      evict old join ++ sends d (connect_msg join) ∷ [],
    )

abbrev pub with_nonce : Broker → ℕ → Msg → ℕ → Option String → Broker × List Out
with_nonce b c join d none = refuse b c "" "broker nonce error"
with_nonce b c join d (some b_nonce) = take_slot b c join d b_nonce

abbrev pub join_daemon : Config → Env → Broker → ℕ → Msg → Option ℕ → Broker × List Out
join_daemon cfg env b c join none =
    refuse (record b { n = record b.n { offline = b.n.offline + 1 } }) c code_offline
      "device offline — wake your Mac"
join_daemon cfg env b c join (some d) = with_nonce b c join d (new_nonce cfg.crypto env.nonce)

-- `serveClient` up to its read loop.
unfoldable pub serve_client : Config → Env → Broker → ℕ → Msg → Broker × List Out
unfolding is_busy
serve_client cfg env b c join =
    if str_eq join.daemon "" || str_eq join.pub_key ""
    then refuse b c "" "join missing daemon or pubkey"
    else join_daemon cfg env (record b { n = count_join b.n join }) c join
        (lookup join.daemon b.daemons)

-- The deferred part: only the current client tells the daemon that its peer left.
unfoldable pub client_left : Broker → ℕ → ℕ → Broker × List Out
client_left b c d =
    if is_current (b.objects d).client c
    then (set_role (set_client b d none) c closed, sends d (msg_of MsgType.peer_left) ∷ [])
    else (set_role b c closed, [])

abbrev after_sending : List Out → Broker × List Out → Broker × List Out
after_sending before (b, out) = (b, before ++ out)

abbrev ice_msg : List IceServer → Bool → Msg
ice_msg servers trickle = record (msg_of MsgType.ice_servers) {
  ice_servers = servers;
  trickle = trickle;
}

abbrev accept_proof : Broker × List IceServer → ℕ → ℕ → Bool → Msg → Broker × List Out
accept_proof (b, servers) c d trickle m = (
  b,
  sends c (ice_msg servers trickle)
      ∷ sends d (ice_msg servers trickle)
      ∷ sends d (record (msg_of MsgType.proof) { sig = m.sig })
      ∷ [],
)

unfoldable pub client_proof : Config → Env → Broker → ClientConn → ℕ → ℕ → Msg → Broker × List Out
unfolding client_left
client_proof cfg env b cl c d m =
    if not (verify cfg.crypto cl.pub_key (codes cl.b_nonce) m.broker_sig)
    then after_sending (sends c (error_msg "" "broker challenge failed") ∷ [])
        (client_left (record b { n = record b.n { proofs_bad = b.n.proofs_bad + 1 } }) c d)
    else accept_proof
        (ice_servers cfg env (record b { n = record b.n { proofs_ok = b.n.proofs_ok + 1 } })
          cl.pub_key)
        c d ((b.objects d).trickle && cl.trickle) m

unfoldable pub relay_to_daemon :
    Config → Env → Broker → ClientConn → ℕ → ℕ → Msg → MsgType → Broker × List Out
relay_to_daemon cfg env b cl c d m MsgType.proof = client_proof cfg env b cl c d m
relay_to_daemon cfg env b cl c d m MsgType.offer = (b, sends d m ∷ [])
relay_to_daemon cfg env b cl c d m MsgType.candidate = (b, sends d m ∷ [])
relay_to_daemon cfg env b cl c d m _ = (b, [])

-- One message of a client; a displaced one returns instead of relaying.
unfoldable pub client_message : Config → Env → Broker → ClientConn → ℕ → ℕ → Msg → Broker × List Out
unfolding client_left
client_message cfg env b cl c d m =
    if not (is_current (b.objects d).client c)
    then client_left b c d
    else relay_to_daemon cfg env b cl c d m m.type
