-- ===== src/Sim/Frames.antt =====
-- internal/backend/sim/control.go, `readFrames`: the framed H.264 that simbeam-control writes to its
-- stdout. A byte is a number below 256, `uint64` and `time.Duration` are kept modulo 2^64, and the frames
-- go to an unbuffered channel: `stops n` is whether the feed ends while the n-th frame waits to be taken.
pub mod Stream
pub mod Timing
pub mod Total
use simbeam.Prelude.{
  ℕ, zero, suc, ◌+◌, ◌-◌, ◌*◌, ◌/◌, ◌%◌, ◌^◌, Bool, true, false, ◌&&◌, Option, none, some, List, [],
  ◌∷◌, leb, ltb, ◌==◌, if◌then◌else◌, length, take, drop,
}

-- encoder.go, `Frame`; the duration in nanoseconds.
pub record Frame : Type 0 where
  pub unit : List ℕ
  pub duration : ℕ

-- binary.BigEndian
abbrev pub be_value : ℕ → List ℕ → ℕ
be_value acc [] = acc
be_value acc (x ∷ xs) = be_value (acc * 256 + x) xs

abbrev control_fps : ℕ
control_fps = 30

-- time.Second / 30
abbrev pub nominal : ℕ
nominal = 1_000_000_000 / control_fps

-- `time.Duration(pts-lastPTS) * time.Microsecond`: the difference and the product wrap around, and the
-- bits are read as a signed number.
unfoldable pub delta : ℕ → ℕ → ℕ
delta pts last_pts = (((pts + (2 ^ 64 - last_pts)) % 2 ^ 64) * 1000) % 2 ^ 64

abbrev is_positive : ℕ → Bool
is_positive bits = ltb 0 bits && ltb bits (2 ^ 63)

-- The loop's variables.
pub record Clock : Type 0 where
  pub first : Bool
  pub last_pts : ℕ

abbrev pub start : Clock
start = record { first = true; last_pts = 0 }

unfoldable pub frame_duration : Clock → ℕ → ℕ
unfolding delta
frame_duration c pts =
    if c.first
    then nominal
    else if is_positive (delta pts c.last_pts)
    then delta pts c.last_pts
    else nominal

-- What ends the reader: the end of the stream between two frames, inside a header or inside a payload, or
-- the end of the feed.
pub data End : Type 0 where
  end_of_stream : End
  header_error : End
  payload_error : End
  stopped : End

-- io.ReadFull
unfoldable pub read_full : ℕ → List ℕ → Option (List ℕ × List ℕ)
read_full n bs = if leb n (length bs) then some (take n bs, drop n bs) else none

-- The failed read of a header: nothing at all, or a part of it.
abbrev pub no_header : List ℕ → End
no_header [] = end_of_stream
no_header (x ∷ bs) = header_error

-- One round of the loop: the end, or a frame, its time stamp and the bytes after it.
pub data Round : Type 0 where
  ends : End → Round
  reads : Frame → ℕ → List ℕ → Round

unfoldable pub frame_of : Clock → (pts : ℕ) → Option (List ℕ × List ℕ) → Round
unfolding frame_duration
frame_of c pts none = ends payload_error
frame_of c pts (some (buf, rest)) =
    reads (record { unit = buf; duration = frame_duration c pts }) pts rest

unfoldable pub payload_of : Clock → List ℕ → Option (List ℕ × List ℕ) → Round
unfolding read_full frame_of
payload_of c bs none = ends (no_header bs)
payload_of c bs (some (hdr, rest)) =
    let n = be_value 0 (take 4 hdr) in
    let pts = be_value 0 (take 8 (drop 5 hdr)) in frame_of c pts (read_full n rest)

unfoldable pub read_round : Clock → List ℕ → Round
unfolding read_full payload_of
read_round c bs = payload_of c bs (read_full 13 bs)

abbrev pub deliver : Bool → Frame → Option (List Frame × End) → Option (List Frame × End)
deliver true f rest = some ([], stopped)
deliver false f none = none
deliver false f (some (fs, e)) = some (f ∷ fs, e)

-- What a round comes to, `later` being the rounds after it.
abbrev pub after_round :
    Bool → (later : ℕ → List ℕ → Option (List Frame × End)) → Round → Option (List Frame × End)
after_round stop later (ends e) = some ([], e)
after_round stop later (reads f pts rest) = deliver stop f (later pts rest)

-- The `for` loop on fuel; `none` means that the fuel ran out.
unfoldable pub read_loop : (ℕ → Bool) → ℕ → ℕ → Clock → List ℕ → Option (List Frame × End)
unfolding read_round
read_loop stops zero n c bs = none
read_loop stops (suc fuel) n c bs =
    after_round (stops n)
      (λ pts rest. read_loop stops fuel (suc n) (record { first = false; last_pts = pts }) rest)
      (read_round c bs)

unfoldable pub read_frames : (ℕ → Bool) → List ℕ → Option (List Frame × End)
unfolding read_loop
read_frames stops bs = read_loop stops (suc (length bs)) 0 start bs
