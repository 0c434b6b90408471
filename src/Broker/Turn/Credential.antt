-- ===== src/Broker/Turn/Credential.antt =====
-- internal/signalbroker/cfturn.go: what the fetcher hands out, and when it asks Cloudflare.
use simbeam.Prelude.{
  ℕ, ◌≡◌, refl, ◌<◌, ◌+◌, ◌/◌, false, Option, none, some, ◌⊎◌, inl, inr, String, List, [], ◌∷◌,
  arith, Bool-cases, ltb, All,
}
use simbeam.Signal.Message.{IceServer}
use simbeam.Broker.Turn.{TurnFetcher, get, keep, renew, is_dns_port, usable_relay_urls, relay_entry}

abbrev IsUsable : List String → Type 0
IsUsable urls = All (λ u. is_dns_port u ≡ false) urls

usable_relay_urls-IsUsable : (urls : List String) → IsUsable (usable_relay_urls urls)
unfolding usable_relay_urls
usable_relay_urls-IsUsable [] = tt
usable_relay_urls-IsUsable (u ∷ urls) = elim (Bool-cases (is_dns_port u)) [
  | inl dns ↦ rw dns (usable_relay_urls-IsUsable urls)
  | inr fine ↦ rw fine (fine, usable_relay_urls-IsUsable urls)
]

-- The answer of the fetcher is none, or the credential that it now holds.
pub data Answer (f f' : TurnFetcher) : Option IceServer → Type 0 where
  failed : f' ≡ f → Answer f f' none
  gives : IsUsable f'.cached.urls → Answer f f' (some f'.cached)

keep-Answer :
    (f : TurnFetcher) (o : Option IceServer) (later : ℕ)
    → Answer f (keep f o later).0 (keep f o later).1
keep-Answer f none later = failed refl
keep-Answer f (some s) later = gives (usable_relay_urls-IsUsable s.urls)

renew-Answer :
    (f : TurnFetcher) (fetched : Option (List IceServer)) (later : ℕ)
    → Answer f (renew f fetched later).0 (renew f fetched later).1
renew-Answer f none later = failed refl
renew-Answer f (some servers) later = keep-Answer f (relay_entry servers) later

-- If no url of the cached credential names port 53, then a call gives none and changes nothing, or it
-- gives the credential that is cached afterwards, and no url of that names port 53.
pub get-Answer :
    (f : TurnFetcher) (now : ℕ) (fetched : Option (List IceServer)) (later : ℕ)
    → IsUsable f.cached.urls
    → Answer f (get f now fetched later).0 (get f now fetched later).1
unfolding get
get-Answer f now fetched later usable = elim (Bool-cases (ltb now f.refresh)) [
  | inl fresh ↦ rw fresh (gives usable)
  | inr stale ↦ rw stale (renew-Answer f fetched later)
]

-- After a call gave a credential, every further call before the refresh time gives the same one and
-- changes nothing, whatever Cloudflare would answer; and if that first call asked Cloudflare, the refresh
-- time is half the lifetime after the answer.
get-get :
    (f : TurnFetcher) (now : ℕ) (fetched : Option (List IceServer)) (later : ℕ) (s : IceServer)
    (now2 : ℕ) (fetched2 : Option (List IceServer)) (later2 : ℕ)
    → (get f now fetched later).1 ≡ some s
    → now2 < (get f now fetched later).0.refresh
    → (get (get f now fetched later).0 now2 fetched2 later2 ≡ ((get f now fetched later).0, some s))
      × ((now < f.refresh) ⊎ ((get f now fetched later).0.refresh ≡ later + f.ttl / 2))
unfolding get
get-get f now fetched later s now2 fetched2 later2 gave early = ground arith
