-- ===== src/Sim/Frames/Stream.antt =====
-- internal/backend/sim/control.go, `readFrames`, against the format that its comment gives: the units that
-- simbeam-control writes, and a stream that is cut.
use Prim.Native.Nat.add
use simbeam.Prelude.{
  ℕ, zero, suc, ◌+◌, ◌*◌, ◌/◌, ◌%◌, ◌^◌, ◌-◌, ◌≤◌, ◌<◌, ◌⊎◌, inl, inr, ◌≡◌, refl, ap, ◌∙◌, arith,
  Bool, false, some, none, List, [], ◌∷◌, ◌++◌, append_assoc, ltb, ◌==◌, if◌then◌else◌, length,
  take, drop, length-append, length-take, All,
}
use simbeam.Sim.Frames.{
  Frame, Clock, start, End, end_of_stream, header_error, payload_error, no_header, be_value,
  deliver, ends, reads, read_full, frame_of, payload_of, read_round, frame_duration, read_loop,
  read_frames,
}

-- [4B len][1B flags][8B pts_micros][N bytes Annex-B]
pub record Sent : Type 0 where
  pub flags : ℕ
  pub pts : ℕ
  pub bytes : List ℕ

abbrev be_bytes : ℕ → ℕ → List ℕ
be_bytes zero n = []
be_bytes (suc w) n = be_bytes w (n / 256) ++ n % 256 ∷ []

abbrev pub encode : Sent → List ℕ
encode u = (be_bytes 4 (length u.bytes) ++ u.flags ∷ be_bytes 8 u.pts) ++ u.bytes

abbrev pub encode_all : List Sent → List ℕ
encode_all [] = []
encode_all (u ∷ us) = encode u ++ encode_all us

-- What fits the fields of the header.
pub record Fits (u : Sent) : Type 0 where
  pub length_fits : length u.bytes < 2 ^ 32
  pub pts_fits : u.pts < 2 ^ 64

abbrev pub after : Sent → Clock
after u = record { first = false; last_pts = u.pts }

abbrev pub frame : Clock → Sent → Frame
frame c u = record { unit = u.bytes; duration = frame_duration c u.pts }

abbrev pub frames_from : Clock → List Sent → List Frame
frames_from c [] = []
frames_from c (u ∷ us) = frame c u ∷ frames_from (after u) us

be_value-append :
    (acc : ℕ) (xs : List ℕ) (x : ℕ) → be_value acc (xs ++ x ∷ []) ≡ be_value acc xs * 256 + x
be_value-append acc [] x = refl
be_value-append acc (y ∷ xs) x = be_value-append (acc * 256 + y) xs x

be_value-be_bytes : (w n : ℕ) → n < 256 ^ w → be_value 0 (be_bytes w n) ≡ n
be_value-be_bytes zero n h = omega arith
be_value-be_bytes (suc w) n h =
    be_value-append 0 (be_bytes w (n / 256)) (n % 256)
    ∙ (rw (be_value-be_bytes w (n / 256) (omega arith)) (omega arith))

take-length : (xs ys : List ℕ) → take (length xs) (xs ++ ys) ≡ xs
take-length [] ys = refl
take-length (x ∷ xs) ys = ap (◌∷◌ x) (take-length xs ys)

drop-length : (xs ys : List ℕ) → drop (length xs) (xs ++ ys) ≡ ys
drop-length [] ys = refl
drop-length (x ∷ xs) ys = drop-length xs ys

read_full-append : (xs ys : List ℕ) → read_full (length xs) (xs ++ ys) ≡ some (xs, ys)
unfolding read_full
read_full-append xs ys = ground (arith, length-append xs ys, take-length xs ys, drop-length xs ys)

read_full-short : (n : ℕ) (bs : List ℕ) → length bs < n → read_full n bs ≡ none
unfolding read_full
read_full-short n bs h = ground arith

abbrev header : Sent → List ℕ
header u = be_bytes 4 (length u.bytes) ++ u.flags ∷ be_bytes 8 u.pts

payload_of-header :
    (c : Clock) (u : Sent) (bs rest : List ℕ)
    → Fits u
    → payload_of c bs (some (header u, rest)) ≡ frame_of c u.pts (read_full (length u.bytes) rest)
unfolding payload_of
payload_of-header c u bs rest v =
    ap (λ n. frame_of c (be_value 0 (be_bytes 8 u.pts)) (read_full n rest))
      (be_value-be_bytes 4 (length u.bytes) v.length_fits)
    ∙ ap (λ n. frame_of c n (read_full (length u.bytes) rest))
        (be_value-be_bytes 8 u.pts v.pts_fits)

-- Past a whole header, a round depends on the payload alone.
read_round-header :
    (c : Clock) (u : Sent) (rest : List ℕ)
    → Fits u
    → read_round c (header u ++ rest) ≡ frame_of c u.pts (read_full (length u.bytes) rest)
unfolding read_round
read_round-header c u rest v =
    ap (payload_of c (header u ++ rest)) (read_full-append (header u) rest)
    ∙ payload_of-header c u (header u ++ rest) rest v

read_round-encode :
    (c : Clock) (u : Sent) (rest : List ℕ)
    → Fits u
    → read_round c (encode u ++ rest) ≡ reads (frame c u) u.pts rest
unfolding frame_of
read_round-encode c u rest v =
    read_round-header c u (u.bytes ++ rest) v
    ∙ ap (frame_of c u.pts) (read_full-append u.bytes rest)

-- How a stream ends that is cut after `k` bytes of a unit.
abbrev pub cut_end : ℕ → End
cut_end k = if k == 0 then end_of_stream else if ltb k 13 then header_error else payload_error

le_or_lt : (a b : ℕ) → (a ≤ b) ⊎ (b < a)
le_or_lt a b = ground arith

cut_nothing : (c : Clock) (bs : List ℕ) → length bs < 13 → read_round c bs ≡ ends (no_header bs)
unfolding read_round
cut_nothing c bs h = ap (payload_of c bs) (read_full-short 13 bs h)

no_header-take :
    (k : ℕ) (x : ℕ) (xs : List ℕ) → k < 13 → ends (no_header (take k (x ∷ xs))) ≡ ends (cut_end k)
no_header-take zero x xs h = refl
no_header-take (suc k) x xs h = ground arith

take-length-append : (xs ys : List ℕ) (j : ℕ) → take (length xs + j) (xs ++ ys) ≡ xs ++ take j ys
take-length-append [] ys j = rw (add.zero j)
take-length-append (x ∷ xs) ys j =
    rw (add.suc (length xs) j) (ap (◌∷◌ x) (take-length-append xs ys j))

-- A header is whole and its payload is not.
cut_payload :
    (c : Clock) (u : Sent) (j : ℕ)
    → Fits u
    → j < length u.bytes
    → read_round c (header u ++ take j u.bytes) ≡ ends payload_error
unfolding frame_of
cut_payload c u j v h =
    read_round-header c u (take j u.bytes) v
    ∙ ap (frame_of c u.pts)
        (read_full-short (length u.bytes) (take j u.bytes) (omega (arith, length-take j u.bytes)))

pub length-encode : (u : Sent) → length (encode u) ≡ 13 + length u.bytes
length-encode u = length-append (header u) u.bytes

take-header : (u : Sent) (k : ℕ) → 13 ≤ k → take k (encode u) ≡ header u ++ take (k - 13) u.bytes
take-header u k h =
    ap (λ n. take n (encode u)) (omega arith) ∙ take-length-append (header u) u.bytes (k - 13)

read_round-cut :
    (c : Clock) (u : Sent) (k : ℕ)
    → Fits u
    → k < length (encode u)
    → read_round c (take k (encode u)) ≡ ends (cut_end k)
read_round-cut c u k v h = elim (le_or_lt 13 k) [
  | inl long ↦
      ap (read_round c) (take-header u k long)
      ∙ cut_payload c u (k - 13) v (omega (arith, length-encode u))
      ∙ ap ends (ground arith)
  | inr short ↦
      cut_nothing c (take k (encode u)) (omega (arith, length-take k (encode u)))
      ∙ no_header-take k _ _ short
]

abbrev pub never : ℕ → Bool
never n = false

read_loop-step :
    (fuel n : ℕ) (c : Clock) (u : Sent) (rest : List ℕ)
    → Fits u
    → read_loop never (suc fuel) n c (encode u ++ rest)
      ≡ deliver false (frame c u) (read_loop never fuel (suc n) (after u) rest)
unfolding read_loop
read_loop-step fuel n c u rest v = rw (read_round-encode c u rest v)

read_loop-end :
    (fuel n : ℕ) (c : Clock) (bs : List ℕ) (e : End)
    → read_round c bs ≡ ends e
    → read_loop never (suc fuel) n c bs ≡ some ([], e)
unfolding read_loop
read_loop-end fuel n c bs e p = rw p

-- Units and then bytes that are no whole unit, with fuel for every byte.
read_loop-encode :
    (fuel n : ℕ) (c : Clock) (us : List Sent) (tail : List ℕ) (e : End)
    → All Fits us
    → ((d : Clock) → read_round d tail ≡ ends e)
    → length (encode_all us ++ tail) < fuel
    → read_loop never fuel n c (encode_all us ++ tail) ≡ some (frames_from c us, e)
read_loop-encode zero n c us tail e vs p h = absurd (omega arith)
read_loop-encode (suc fuel) n c [] tail e vs p h = read_loop-end fuel n c tail e (p c)
read_loop-encode (suc fuel) n c (u ∷ us) tail e (v, vs) p h =
    let shorter : length (encode_all us ++ tail) < fuel = omega (
      arith,
      h,
      length-append (encode_all (u ∷ us)) tail,
      length-append (encode u) (encode_all us),
      length-append (encode_all us) tail,
      length-encode u,
    ) in
    ap (read_loop never (suc fuel) n c) (append_assoc (encode u) (encode_all us) tail)
    ∙ read_loop-step fuel n c u (encode_all us ++ tail) v
    ∙ ap (deliver false (frame c u))
        (read_loop-encode fuel (suc n) (after u) us tail e vs p shorter)

-- The helper writes any number of units whose length fits 32 bits and whose time stamp fits 64, and the
-- stream ends after them, or `k` bytes into one more. A reader whose feed is not stopped has enough fuel
-- and gives the frames of the whole units, in order, byte for byte, and nothing of the last one; and it
-- ends as at the end of the stream if `k` is 0, with a header error if `k` is below 13, and with a payload
-- error otherwise.
pub read_frames-encode_all :
    (us : List Sent) (u : Sent) (k : ℕ)
    → All Fits us
    → Fits u
    → k < length (encode u)
    → read_frames never (encode_all us ++ take k (encode u))
      ≡ some (frames_from start us, cut_end k)
unfolding read_frames
read_frames-encode_all us u k vs v h =
    read_loop-encode (suc (length (encode_all us ++ take k (encode u)))) 0 start us
      (take k (encode u)) (cut_end k) vs (λ d. read_round-cut d u k v h) (omega arith)
