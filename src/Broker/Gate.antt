-- ===== src/Broker/Gate.antt =====
-- internal/signalbroker/broker.go: who is given ICE servers, and who the relay.
use simbeam.Prelude.{
  ℕ, ◌≡◌, refl, Bool, true, some, ◌⊎◌, inl, inr, String, List, [], ◌∷◌, ◌+◌, arith, str_eq,
  Bool-cases, codes, All, map,
}
use simbeam.Signal.Message.{MsgType, Msg, IceServer}
use simbeam.Signal.Crypto.{verify}
use simbeam.Broker.State.{
  ClientConn, Role, opening, daemon, client, watcher, closed, Config, Broker, Env, Out, sends,
  closes, is_current,
}
use simbeam.Broker.Ice.{is_granted, ice_servers}
use simbeam.Broker.Clients.{client_message, client_proof, relay_to_daemon}
use simbeam.Broker.Writes.{
  IsPlain, serve_client-IsPlain, daemon_message-IsPlain, client_left-IsPlain,
}
use simbeam.Broker.Watch.{presence_msg, notify_presence, serve_watcher}
use simbeam.Broker.Daemons.{serve_daemon}
use simbeam.Broker.Serve.{message, first_message, on_message, step}
use simbeam.Broker.Links.{Linked}
use simbeam.Broker.Sessions.{current-client}

-- The sender of `m` holds the session of its daemon, has signed the broker's own nonce, and a relay
-- among the servers was granted to its key.
pub record Entitled (cfg : Config) (env : Env) (b : Broker) (c : ℕ) (m : Msg)
    (servers : List IceServer) : Type 0 where
  pub cl : ClientConn
  pub d : ℕ
  pub serves : b.roles c ≡ client cl d
  pub current : (b.objects d).client ≡ some cl
  pub signed : verify cfg.crypto cl.pub_key (codes cl.b_nonce) m.broker_sig ≡ true
  pub relay :
      (servers ≡ record { urls = cfg.stun_urls; username = ""; credential = "" } ∷ [])
      ⊎ (is_granted cfg env b cl.pub_key ≡ true)

-- An `ice_servers` message is written only for an entitled sender.
abbrev pub Gated : Config → Env → Broker → ℕ → Msg → Out → Type 0
Gated cfg env b c m (sends w out) =
    out.type ≡ MsgType.ice_servers → Entitled cfg env b c m out.ice_servers
Gated cfg env b c m (closes w) = Unit

ice_servers-relay :
    (cfg : Config) (env : Env) (b : Broker) (key : String)
    → ((ice_servers cfg env b key).1
        ≡ record { urls = cfg.stun_urls; username = ""; credential = "" } ∷ [])
      ⊎ (is_granted cfg env b key ≡ true)
unfolding ice_servers
ice_servers-relay cfg env b key = ground arith

Plain-Gated :
    (cfg : Config) (env : Env) (b : Broker) (c : ℕ) (m : Msg) (out : List Out)
    → IsPlain out
    → All (Gated cfg env b c m) out
Plain-Gated cfg env b c m [] plain = tt
Plain-Gated cfg env b c m (sends w o ∷ out) plain =
    (λ e. absurd (ground (arith, e, plain)), Plain-Gated cfg env b c m out (ground (arith, plain)))
Plain-Gated cfg env b c m (closes w ∷ out) plain = (tt, Plain-Gated cfg env b c m out plain)

module _ (cfg : Config) (env : Env) (b : Broker) (c : ℕ) (m : Msg) where
  told-Gated :
      (states : List (String × Bool)) (cs : List ℕ)
      → All (Gated cfg env b c m) (map (λ w. sends w (presence_msg states)) cs)
  told-Gated states [] = tt
  told-Gated states (w ∷ cs) = (λ e. absurd (ground (arith, e)), told-Gated states cs)

  serve_daemon-Gated : All (Gated cfg env b c m) (serve_daemon b c m).1
  unfolding serve_daemon notify_presence
  serve_daemon-Gated = elim (Bool-cases (str_eq m.daemon "")) [
    | inl missing ↦ rw missing (λ e. absurd (ground (arith, e)), tt)
    | inr named ↦ rw named (told-Gated _ _)
  ]

  first_message-Gated : (t : MsgType) → All (Gated cfg env b c m) (first_message cfg env b c m t).1
  unfolding first_message serve_watcher
  first_message-Gated MsgType.register = serve_daemon-Gated
  first_message-Gated MsgType.join =
      Plain-Gated cfg env b c m _ (serve_client-IsPlain c m cfg env b)
  first_message-Gated MsgType.watch = (λ e. absurd (ground (arith, e)), tt)
  first_message-Gated _ = (λ e. absurd (ground (arith, e)), tt)

  client_proof-Gated :
      (cl : ClientConn) (d : ℕ)
      → b.roles c ≡ client cl d
      → (b.objects d).client ≡ some cl
      → All (Gated cfg env b c m) (client_proof cfg env b cl c d m).1
  unfolding client_proof is_granted
  client_proof-Gated cl d serves current =
      elim (Bool-cases (verify cfg.crypto cl.pub_key (codes cl.b_nonce) m.broker_sig)) [
        | inl ok ↦
            let b1 : Broker = record b { n = record b.n { proofs_ok = b.n.proofs_ok + 1 } } in
            let entitled : Entitled cfg env b c m (ice_servers cfg env b1 cl.pub_key).1 = record {
              cl = cl;
              d = d;
              serves = serves;
              current = current;
              signed = ok;
              relay = ice_servers-relay cfg env b1 cl.pub_key;
            } in
            rw ok ((λ e. entitled), ((λ e. entitled), ((λ e. absurd (ground (arith, e))), tt)))
        | inr bad ↦ rw bad (
          (λ e. absurd (ground (arith, e))),
          Plain-Gated cfg env b c m _ (
              client_left-IsPlain (record b { n = record b.n { proofs_bad = b.n.proofs_bad + 1 } })
                c d),
        )
      ]

  relay_to_daemon-Gated :
      (cl : ClientConn) (d : ℕ) (t : MsgType)
      → b.roles c ≡ client cl d
      → (b.objects d).client ≡ some cl
      → m.type ≡ t
      → All (Gated cfg env b c m) (relay_to_daemon cfg env b cl c d m t).1
  unfolding relay_to_daemon
  relay_to_daemon-Gated cl d MsgType.proof serves current same =
      client_proof-Gated cl d serves current
  relay_to_daemon-Gated cl d MsgType.offer serves current same =
      ((λ e. absurd (ground (arith, e, same))), tt)
  relay_to_daemon-Gated cl d MsgType.candidate serves current same =
      ((λ e. absurd (ground (arith, e, same))), tt)
  relay_to_daemon-Gated cl d _ serves current same = tt

  client_message-Gated :
      (cl : ClientConn) (d : ℕ)
      → Linked b
      → b.roles c ≡ client cl d
      → All (Gated cfg env b c m) (client_message cfg env b cl c d m).1
  unfolding client_message
  client_message-Gated cl d v serves = elim (Bool-cases (is_current (b.objects d).client c)) [
    | inl here ↦
        rw here
          (relay_to_daemon-Gated cl d m.type serves (current-client b c d cl v serves here) refl)
    | inr displaced ↦ rw displaced tt
  ]

  on_message-Gated :
      (r : Role)
      → Linked b
      → b.roles c ≡ r
      → All (Gated cfg env b c m) (on_message cfg env b c m r).1
  unfolding on_message
  on_message-Gated opening v h = first_message-Gated m.type
  on_message-Gated daemon v h = Plain-Gated cfg env b c m _ (daemon_message-IsPlain b c m)
  on_message-Gated (client cl d) v h = client_message-Gated cl d v h
  on_message-Gated watcher v h = tt
  on_message-Gated closed v h = tt

-- In a broker where the registry, the sessions and the goroutines fit together: a message makes the
-- broker write an `ice_servers` message only if its sender is the client that holds the session of its
-- daemon and its signature over the broker's own nonce verifies under the key it joined with; and the
-- servers are the STUN servers alone unless a relay was granted to that key.
pub step-Gated :
    (cfg : Config) (env : Env) (b : Broker) (c : ℕ) (m : Msg)
    → Linked b
    → All (Gated cfg env b c m) (step cfg b (message env c m)).1
unfolding step
step-Gated cfg env b c m v = on_message-Gated cfg env b c m (b.roles c) v refl
