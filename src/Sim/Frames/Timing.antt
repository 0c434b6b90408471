-- ===== src/Sim/Frames/Timing.antt =====
-- internal/backend/sim/control.go, `readFrames`: the durations that it measures from the time stamps.
use simbeam.Prelude.{
  ℕ, ◌+◌, ◌-◌, ◌*◌, ◌^◌, ◌≤◌, ◌<◌, ◌≡◌, refl, ap, ◌∙◌, arith, sym, some, length, suc, append-nil,
  false, List, [], ◌∷◌, All,
}
use simbeam.Sim.Frames.{
  Frame, Clock, start, nominal, delta, frame_duration, read_frames, end_of_stream,
}
use simbeam.Sim.Frames.Stream.{
  Sent, Fits, never, encode_all, length-encode, read_frames-encode_all, after, frames_from,
}

pub frame_duration_bounds :
    (c : Clock) (pts : ℕ) → (0 < frame_duration c pts) × (frame_duration c pts < 2 ^ 63)
unfolding frame_duration
frame_duration_bounds c pts = ground arith

delta-exact :
    (pts last : ℕ)
    → last ≤ pts
    → pts < 2 ^ 64
    → (pts - last) * 1000 < 2 ^ 63
    → delta pts last ≡ (pts - last) * 1000
unfolding delta
delta-exact pts last h k b = omega arith

-- Each time stamp is after the one before, by less than 2^63 nanoseconds.
abbrev IsSteady : ℕ → List Sent → Type 0
IsSteady last [] = Unit
IsSteady last (u ∷ us) =
    (last < u.pts) × (u.pts < 2 ^ 64) × ((u.pts - last) * 1000 < 2 ^ 63) × IsSteady u.pts us

abbrev pub last_pts : ℕ → List Sent → ℕ
last_pts last [] = last
last_pts last (u ∷ us) = last_pts u.pts us

abbrev pub total : List Frame → ℕ
total [] = 0
total (f ∷ fs) = f.duration + total fs

abbrev pub Sound : Frame → Type 0
Sound f = (0 < f.duration) × (f.duration < 2 ^ 63)

frames_from-Sound : (c : Clock) (us : List Sent) → All Sound (frames_from c us)
frames_from-Sound c [] = tt
frames_from-Sound c (u ∷ us) = (frame_duration_bounds c u.pts, frames_from-Sound (after u) us)

frame_duration_measured :
    (last pts : ℕ)
    → last < pts
    → pts < 2 ^ 64
    → (pts - last) * 1000 < 2 ^ 63
    → frame_duration (record { first = false; last_pts = last }) pts ≡ (pts - last) * 1000
unfolding frame_duration
frame_duration_measured last pts h k b = ground (arith, delta-exact last pts)

last_pts-le : (last : ℕ) (us : List Sent) → IsSteady last us → last ≤ last_pts last us
last_pts-le last [] v = omega arith
last_pts-le last (u ∷ us) (a, b, c, v) = omega (arith, last_pts-le u.pts us v)

total-after :
    (u : Sent) (us : List Sent)
    → IsSteady u.pts us
    → total (frames_from (after u) us) ≡ (last_pts u.pts us - u.pts) * 1000
total-after u [] v = omega arith
total-after u (w ∷ us) (a, b, c, v) =
    omega
      (arith, frame_duration_measured u.pts w.pts a b c, total-after w us v, last_pts-le w.pts us v)

length-frames_from : (c : Clock) (us : List Sent) → length (frames_from c us) ≡ length us
length-frames_from c [] = refl
length-frames_from c (u ∷ us) = ap suc (length-frames_from (after u) us)

first_duration : (pts : ℕ) → frame_duration start pts ≡ nominal
unfolding frame_duration
first_duration pts = refl

-- A stream of whole units whose time stamps go up, each by less than 2^63 nanoseconds, comes out as one
-- frame for each unit; every duration is above 0 and below 2^63; and the durations add up to the nominal
-- duration of the first frame and the time from the first time stamp to the last, with nothing lost.
pub read_frames-total :
    (u : Sent) (us : List Sent)
    → All Fits (u ∷ us)
    → IsSteady u.pts us
    → (fs : List Frame) × (read_frames never (encode_all (u ∷ us)) ≡ some (fs, end_of_stream))
      × (length fs ≡ suc (length us))
      × All Sound fs
      × (total fs ≡ nominal + (last_pts u.pts us - u.pts) * 1000)
read_frames-total u us vs v = (
  frames_from start (u ∷ us),
  ap (read_frames never) (sym (append-nil (encode_all (u ∷ us))))
      ∙ read_frames-encode_all (u ∷ us) u 0 vs vs.0 (omega (arith, length-encode u)),
  length-frames_from start (u ∷ us),
  frames_from-Sound start (u ∷ us),
  omega (arith, first_duration u.pts, total-after u us v, last_pts-le u.pts us v),
)
