-- ===== src/Server/Bulk/Chunks.antt =====
-- internal/server/bulk.go, `sendChunked`: what the client can put together.
use simbeam.Prelude.{
  ℕ, zero, suc, ◌+◌, ◌<◌, ◌≤◌, ◌≡◌, ◌≢◌, refl, ap, ◌∙◌, append_assoc, Option, some, inl, inr,
  String, List, [], ◌∷◌, ◌++◌, take, drop, length, All, arith, take-append-drop, length-take,
  length-drop, Bool-cases,
}
use simbeam.Server.Bulk.{
  Frame, header, chunk, Sent, all_sent, not_wired, header_failed, out_of_fuel, chunk_size, Channel,
  send_loop, send_chunked,
}

-- What a client appends.
abbrev pub received : List Frame → List ℕ
received [] = []
received (header t n ∷ fs) = received fs
received (chunk bytes ∷ fs) = bytes ++ received fs

-- A chunk is not empty, has at most 1024 bytes, and has no more than the peer settled on, if that is above 0.
abbrev pub Fits : Channel → Frame → Type 0
Fits ch (header t n) = Unit
Fits ch (chunk bytes) =
    (0 < length bytes)
    × (length bytes ≤ 1024)
    × ((limit : ℕ) → ch.max_msg ≡ some limit → 0 < limit → length bytes ≤ limit)

chunk_size-pos : (o : Option ℕ) → 0 < chunk_size o
unfolding chunk_size
chunk_size-pos o = ground arith

chunk_size-le : (o : Option ℕ) → chunk_size o ≤ 1024
unfolding chunk_size
chunk_size-le o = ground arith

chunk_size-le_limit : (o : Option ℕ) (limit : ℕ) → o ≡ some limit → 0 < limit → chunk_size o ≤ limit
unfolding chunk_size
chunk_size-le_limit o limit e h = rw e (ground arith)

take-Fits :
    (ch : Channel) (x : ℕ) (rest : List ℕ)
    → Fits ch (chunk (take (chunk_size ch.max_msg) (x ∷ rest)))
take-Fits ch x rest =
    let cut = length-take (chunk_size ch.max_msg) (x ∷ rest) in
    (
      omega (arith, cut, chunk_size-pos ch.max_msg),
      omega (arith, cut, chunk_size-le ch.max_msg),
      λ limit e h. omega (arith, cut, chunk_size-le_limit ch.max_msg limit e h),
    )

-- The frames of a transfer are what they should be.
pub record Transfer (ch : Channel) (payload : List ℕ) (fs : List Frame) (sent : Sent) : Type 0 where
  pub fits : All (Fits ch) fs
  pub ends : sent ≢ out_of_fuel
  pub whole : sent ≡ all_sent → received fs ≡ payload
  pub partial : (rest : List ℕ) × (received fs ++ rest ≡ payload)

send_loop-Transfer :
    (fuel : ℕ) (ch : Channel) (n : ℕ) (payload : List ℕ)
    → length payload ≤ fuel
    → Transfer ch payload (send_loop fuel ch n payload).0 (send_loop fuel ch n payload).1
unfolding send_loop
send_loop-Transfer fuel ch n [] h = record {
  fits = tt;
  ends = λ e. absurd (ground (arith, e));
  whole = λ e. refl;
  partial = ([], refl);
}
send_loop-Transfer zero ch n (x ∷ rest) h = absurd (omega arith)
send_loop-Transfer (suc fuel) ch n (x ∷ rest) h =
    let size = chunk_size ch.max_msg in
    let pos = chunk_size-pos ch.max_msg in
    let left = length-drop size (x ∷ rest) in
    let more =
      send_loop-Transfer fuel ch (n + 1) (drop size (x ∷ rest)) (omega (arith, left, pos, h)) in
    let joined = take-append-drop size (x ∷ rest) in
    elim (Bool-cases (ch.writes n)) [
      | inl ok ↦ rw ok (record {
        fits = (take-Fits ch x rest, more.fits);
        ends = more.ends;
        whole = λ e. ap (take size (x ∷ rest) ++◌) (more.whole e) ∙ joined;
        partial = (
          more.partial.0,
          append_assoc (take size (x ∷ rest))
                (received (send_loop fuel ch (n + 1) (drop size (x ∷ rest))).0) more.partial.0
              ∙ (ap (take size (x ∷ rest) ++◌) more.partial.1 ∙ joined),
        );
      })
      | inr failed ↦ rw failed (record {
        fits = tt;
        ends = λ e. absurd (ground (arith, e));
        whole = λ e. absurd (ground (arith, e));
        partial = (x ∷ rest, refl);
      })
    ]

nothing-Transfer :
    (ch : Channel) (payload : List ℕ) (sent : Sent)
    → sent ≢ out_of_fuel
    → sent ≢ all_sent
    → Transfer ch payload [] sent
nothing-Transfer ch payload sent ends failed = record {
  fits = tt;
  ends = ends;
  whole = λ e. absurd (failed e);
  partial = (payload, refl);
}

-- The announcement, if anything went out.
pub data Announced (type : String) (bytes : ℕ) : List Frame → Type 0 where
  silent : Announced type bytes []
  announced : (chunks : List Frame) → Announced type bytes (header type bytes ∷ chunks)

-- Whatever writes fail, `sendChunked` returns; either nothing went out, or the first frame announces the
-- type and the number of bytes of the payload. Each chunk has between 1 and 1024
-- bytes, and no more than the peer settled on, if that is above 0; what the client appends is the start of the payload, and all of it if the
-- transfer succeeds.
pub send_chunked-Transfer :
    (ch : Channel) (type : String) (payload : List ℕ)
    → Announced type (length payload) (send_chunked ch type payload).0
      × Transfer ch payload (send_chunked ch type payload).0 (send_chunked ch type payload).1
unfolding send_chunked
send_chunked-Transfer ch type payload =
    let v = send_loop-Transfer (length payload) ch 1 payload (omega arith) in
    elim (Bool-cases ch.wired) [
      | inr unwired ↦ simp unwired (
        silent,
        nothing-Transfer ch payload not_wired (λ e. absurd (ground (arith, e)))
            (λ e. absurd (ground (arith, e))),
      )
      | inl wired ↦ simp wired (elim (Bool-cases (ch.writes 0)) [
        | inl ok ↦ rw ok (
          announced (send_loop (length payload) ch 1 payload).0,
          record { fits = (tt, v.fits); ends = v.ends; whole = v.whole; partial = v.partial },
        )
        | inr failed ↦ rw failed (
          silent,
          nothing-Transfer ch payload header_failed (λ e. absurd (ground (arith, e)))
              (λ e. absurd (ground (arith, e))),
        )
      ])
    ]
