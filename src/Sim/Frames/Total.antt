-- ===== src/Sim/Frames/Total.antt =====
-- internal/backend/sim/control.go, `readFrames`, on whatever bytes simbeam-control writes.
use simbeam.Prelude.{
  ℕ, zero, suc, ◌+◌, ◌≤◌, ◌<◌, ◌≡◌, refl, ap, inl, inr, arith, Bool, true, false, Option, none,
  some, List, [], ◌∷◌, All, length, length-take, length-drop, leb, Bool-cases, leb→le,
}
use simbeam.Sim.Frames.{
  Frame, Clock, start, End, stopped, Round, ends, reads, read_full, frame_of, payload_of,
  read_round, deliver, after_round, read_loop, read_frames,
}
use simbeam.Sim.Frames.Timing.{Sound, frame_duration_bounds}

abbrev Full : ℕ → List ℕ → Option (List ℕ × List ℕ) → Type 0
Full n bs none = Unit
Full n bs (some (xs, rest)) = (length xs ≡ n) × (n + length rest ≡ length bs)

read_full-Full : (n : ℕ) (bs : List ℕ) → Full n bs (read_full n bs)
unfolding read_full
read_full-Full n bs = elim (Bool-cases (leb n (length bs))) [
  | inl t ↦ rw t (
    omega (arith, length-take n bs, leb→le n (length bs) t),
    omega (arith, length-drop n bs, leb→le n (length bs) t),
  )
  | inr f ↦ rw f tt
]

-- What a round takes off the bytes.
abbrev Taken : List ℕ → Round → Type 0
Taken bs (ends e) = Unit
Taken bs (reads f pts rest) = Sound f × (13 + (length f.unit + length rest) ≡ length bs)

frame_of-Taken :
    (c : Clock) (pts n : ℕ) (bs rest : List ℕ) (o : Option (List ℕ × List ℕ))
    → 13 + length rest ≡ length bs
    → Full n rest o
    → Taken bs (frame_of c pts o)
unfolding frame_of
frame_of-Taken c pts n bs rest none h v = tt
frame_of-Taken c pts n bs rest (some (buf, left)) h (a, b) =
    (frame_duration_bounds c pts, omega arith)

payload_of-Taken :
    (c : Clock) (bs : List ℕ) (o : Option (List ℕ × List ℕ))
    → Full 13 bs o
    → Taken bs (payload_of c bs o)
unfolding payload_of
payload_of-Taken c bs none v = tt
payload_of-Taken c bs (some (hdr, rest)) (a, b) =
    frame_of-Taken c _ _ bs rest _ (omega arith) (read_full-Full _ rest)

read_round-Taken : (c : Clock) (bs : List ℕ) → Taken bs (read_round c bs)
unfolding read_round
read_round-Taken c bs = payload_of-Taken c bs (read_full 13 bs) (read_full-Full 13 bs)

-- The bytes that frames stand for, each with its header.
abbrev pub framed : List Frame → ℕ
framed [] = 0
framed (f ∷ fs) = 13 + length f.unit + framed fs

abbrev pub Within : ℕ → Option (List Frame × End) → Type 0
Within n o = (fs : List Frame) × (e : End) × (o ≡ some (fs, e)) × All Sound fs × (framed fs ≤ n)

deliver-Within :
    (stop : Bool) (f : Frame) (n m : ℕ) (o : Option (List Frame × End))
    → Sound f
    → 13 + (length f.unit + n) ≡ m
    → Within n o
    → Within m (deliver stop f o)
deliver-Within true f n m o s h w = ([], stopped, refl, tt, omega arith)
deliver-Within false f n m o s h (fs, e, p, v, b) =
    (f ∷ fs, e, ap (deliver false f) p, (s, v), omega arith)

after_round-Within :
    (stop : Bool) (later : ℕ → List ℕ → Option (List Frame × End)) (bs : List ℕ) (r : Round)
    → Taken bs r
    → ((pts : ℕ) (rest : List ℕ) → length rest < length bs → Within (length rest) (later pts rest))
    → Within (length bs) (after_round stop later r)
after_round-Within stop later bs (ends e) v all = ([], e, refl, tt, omega arith)
after_round-Within stop later bs (reads f pts rest) (s, h) all =
    deliver-Within stop f (length rest) (length bs) (later pts rest) s h
      (all pts rest (omega arith))

read_loop-Within :
    (stops : ℕ → Bool) (fuel n : ℕ) (c : Clock) (bs : List ℕ)
    → length bs < fuel
    → Within (length bs) (read_loop stops fuel n c bs)
unfolding read_loop
read_loop-Within stops zero n c bs h = absurd (omega arith)
read_loop-Within stops (suc fuel) n c bs h =
    after_round-Within (stops n) _ bs (read_round c bs) (read_round-Taken c bs)
      (λ pts rest k. read_loop-Within stops fuel (suc n) _ rest (omega arith))

-- On any bytes, and whenever the feed stops, the reader's loop has enough fuel: it ends, with frames whose
-- durations are all above 0 and below 2^63 nanoseconds, and which together with their headers are no more
-- bytes than came.
pub read_frames-Within :
    (stops : ℕ → Bool) (bs : List ℕ) → Within (length bs) (read_frames stops bs)
unfolding read_frames
read_frames-Within stops bs = read_loop-Within stops (suc (length bs)) 0 start bs (omega arith)
