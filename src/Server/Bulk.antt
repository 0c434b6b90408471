-- ===== src/Server/Bulk.antt =====
-- internal/server/bulk.go, `sendChunked`: how a reply that is too large for one packet goes out.
pub mod Chunks
use simbeam.Prelude.{
  ℕ, zero, suc, ◌+◌, ◌<◌, Bool, true, false, ◌&&◌, Option, none, some, String, List, [], ◌∷◌, take,
  drop, length, ltb, if◌then◌else◌, min,
}

abbrev bulk_frame_max : ℕ
bulk_frame_max = 1024

pub data Frame : Type 0 where
  header : (type : String) → (bytes : ℕ) → Frame
  chunk : List ℕ → Frame

pub data Sent : Type 0 where
  all_sent not_wired header_failed chunk_failed out_of_fuel : Sent

-- `negotiated` is what the peer settled on, 0 if nothing; `none` if the channel has no such function.
unfoldable pub chunk_size : Option ℕ → ℕ
chunk_size none = bulk_frame_max
chunk_size (some negotiated) =
    if ltb 0 negotiated && ltb negotiated bulk_frame_max then negotiated else bulk_frame_max

-- The session's side of the channel: whether it is wired, and whether the n-th write succeeds.
pub record Channel : Type 0 where
  pub wired : Bool
  pub max_msg : Option ℕ
  pub writes : ℕ → Bool

abbrev also : Frame → List Frame × Sent → List Frame × Sent
also f (fs, sent) = (f ∷ fs, sent)

-- The loop over the offsets, from the n-th write on.
unfoldable pub send_loop : ℕ → Channel → ℕ → List ℕ → List Frame × Sent
send_loop fuel ch n [] = ([], all_sent)
send_loop zero ch n (x ∷ rest) = ([], out_of_fuel)
send_loop (suc fuel) ch n (x ∷ rest) =
    let size = chunk_size ch.max_msg in
    let more = send_loop fuel ch (n + 1) (drop size (x ∷ rest)) in
    if ch.writes n then also (chunk (take size (x ∷ rest))) more else ([], chunk_failed)

-- The frames that went out, and how the transfer ended.
unfoldable pub send_chunked : Channel → String → List ℕ → List Frame × Sent
unfolding send_loop
send_chunked ch type payload =
    if ch.wired
    then if ch.writes 0
      then also (header type (length payload)) (send_loop (length payload) ch 1 payload)
      else ([], header_failed)
    else ([], not_wired)
