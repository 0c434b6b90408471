-- ===== src/Broker/Turn.antt =====
-- internal/signalbroker/cfturn.go: the shared relay credential. Cloudflare's answer is an argument.
pub mod Credential
use simbeam.Prelude.{
  ℕ, ◌+◌, ◌/◌, Bool, true, false, ◌&&◌, ◌||◌, Option, none, some, String, List, [], ◌∷◌, ltb, ◌==◌,
  str_eq, if◌then◌else◌, codes, contains_text, same_text,
}
use simbeam.Signal.Message.{IceServer}

-- `strings.HasSuffix`: some suffix is the text itself.
unfoldable pub has_suffix : List ℕ → List ℕ → Bool
has_suffix [] p = same_text [] p
has_suffix (x ∷ s) p = same_text (x ∷ s) p || has_suffix s p

-- Port 53: ":53?" somewhere, or ":53" at the end.
unfoldable pub is_dns_port : String → Bool
unfolding has_suffix
is_dns_port url = contains_text (codes url) (codes ":53?") || has_suffix (codes url) (codes ":53")

unfoldable pub usable_relay_urls : List String → List String
unfolding is_dns_port
usable_relay_urls [] = []
usable_relay_urls (u ∷ urls) =
    let rest = usable_relay_urls urls in if is_dns_port u then rest else u ∷ rest

-- Instants are numbers, 0 the zero time; `ttl` and instants have one unit.
pub record TurnFetcher : Type 0 where
  pub ttl : ℕ
  pub cached : IceServer
  pub refresh : ℕ

-- The first entry with a credential; the entry without is Cloudflare's STUN server.
unfoldable pub relay_entry : List IceServer → Option IceServer
relay_entry [] = none
relay_entry (s ∷ servers) = if str_eq s.credential "" then relay_entry servers else some s

-- What the answer leaves in the cache.
abbrev pub keep : TurnFetcher → Option IceServer → ℕ → TurnFetcher × Option IceServer
keep f none later = (f, none)
keep f (some s) later =
    let usable : IceServer = record s { urls = usable_relay_urls s.urls } in
    (record f { cached = usable; refresh = later + f.ttl / 2 }, some usable)

abbrev pub renew : TurnFetcher → Option (List IceServer) → ℕ → TurnFetcher × Option IceServer
renew f none later = (f, none)
renew f (some servers) later = keep f (relay_entry servers) later

-- `fetched` is the decoded answer, `none` if the request or the decoding failed; `now` and `later`
-- are the two readings of the clock. The result is `none` where the source returns an error.
unfoldable pub get : TurnFetcher → ℕ → Option (List IceServer) → ℕ → TurnFetcher × Option IceServer
get f now fetched later = if ltb now f.refresh then (f, some f.cached) else renew f fetched later
