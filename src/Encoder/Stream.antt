-- ===== src/Encoder/Stream.antt =====
-- internal/encoder/ffmpeg.go, `Encode`: the goroutine that reads the H.264 bytes. A read hands over a
-- chunk of any length; what is not yet a whole unit waits in `buf` for the next one.
pub mod Chunks
use simbeam.Prelude.{
  ℕ, ◌-◌, Bool, true, false, Option, none, some, List, [], ◌∷◌, ◌++◌, ltb, ◌==◌, if◌then◌else◌,
}
use simbeam.Encoder.Nal.{AuAssembler, new_assembler, push_all, split_nal_units}

pub record Reader : Type 0 where
  pub buf : List ℕ
  pub asm : AuAssembler

abbrev pub new_reader : Reader
new_reader = record { buf = []; asm = new_assembler }

infixl 5 ◌>>=◌
abbrev pub ◌>>=◌ : {A B : Type 0} → Option A → (A → Option B) → Option B
none >>= k = none
some a >>= k = k a

-- One round of the loop; an empty read (`n > 0` fails) leaves everything as it is.
unfoldable pub read_chunk : Reader → List ℕ → Option (Reader × List (List ℕ))
read_chunk r [] = some (r, [])
read_chunk r (x ∷ chunk) = do
  (nals, rest) ← split_nal_units (r.buf ++ x ∷ chunk)
  let (asm, units) = push_all r.asm nals
  some (record { buf = rest; asm = asm }, units)

-- The loop until the end of the stream.
unfoldable pub read_all : Reader → List (List ℕ) → Option (Reader × List (List ℕ))
read_all r [] = some (r, [])
read_all r (chunk ∷ chunks) = do
  (next, units) ← read_chunk r chunk
  (last, later) ← read_all next chunks
  some (last, units ++ later)

-- Instants and durations in nanoseconds; the zero `last` is the zero time of the source.
pub record FrameTimer : Type 0 where
  pub nominal : ℕ
  pub last : ℕ

abbrev millisecond : ℕ
millisecond = 1_000_000

-- A gap that is negative in the source is 0 here, and is floored as the negative one is.
unfoldable pub next : FrameTimer → ℕ → FrameTimer × ℕ
next t now =
    let gap = now - t.last in
    (
      record t { last = now },
      if t.last == 0 then t.nominal else if ltb gap millisecond then millisecond else gap,
    )
