-- ===== src/Codec/RoundTrip.antt =====
-- What is encoded is read back, in its order and however the bytes are split.
use battleship_plus.Base.{ℕ, ◌*◌, ◌+◌, ◌-◌, ◌<◌, ◌≤◌, ltb, ◌≡◌, ◌≢◌, refl, sym, ap, ◌∙◌}
use battleship_plus.Base.{
  Option, none, some, List, [], ◌∷◌, ◌++◌, length, Bool-cases, inl, inr, ◌⊎◌, arith,
}
use battleship_plus.Base.{take-append, drop-append, length-append}
use battleship_plus.Types.{Result, ok, err, panic}
use battleship_plus.Codec
use battleship_plus.Codec.{
  BattleshipPlusCodec, Prost, CodecError, Stream, decode, decode_body, decode_header,
}
use battleship_plus.Codec.Stream.{
  longer, decode_fresh, decode_started, decode_headed, body_whole, short_header, answer,
}
use mathlib.Core.List.{append_assoc, append-nil}
use battleship_plus.Codec.Reading.{End, Reads, waiting, broken, failed, wait, read}
use battleship_plus.Codec.Reading.{Reads-resume, Reads-fail, Reads-crash}
use battleship_plus.Codec.Progress.{Reads-Outcomes, Reads-unique}
use battleship_plus.Codec.{Lawful, encode}
use battleship_plus.Base.{map, take-length, drop-length, ◌^◌, ◌/◌, ◌%◌}

-- The two bytes of a length.
u16_bytes : (n : ℕ) → (n / 256) * 256 + n % 256 ≡ n
u16_bytes n = omega arith

module _ (prost : Prost) (law : Lawful prost) where
  open prost use {Message, Text}

  -- A message in the stream: its header and its bytes.
  abbrev pub frame : BattleshipPlusCodec → Message → List ℕ
  frame c m =
      let n = length (law.bytes (some m)) in c.version ∷ n / 256 ∷ n % 256 ∷ law.bytes (some m)

  -- A message of less than 2^16 bytes is appended to the buffer behind a header with the version
  -- and its length; a longer one is refused, and the buffer is left alone.
  pub encode_lem :
      (c : BattleshipPlusCodec) (m : Message) (b : List ℕ)
      → ((length (law.bytes (some m)) < 2 ^ 16) × (encode prost c m b ≡ (ok tt, b ++ frame c m)))
        ⊎ ((2 ^ 16 ≤ length (law.bytes (some m)))
            × (encode prost c m b ≡ (err (Codec.protocol Codec.too_long), b)))
  unfolding encode
  encode_lem c m b =
      let n = length (law.bytes (some m)) in
      elim (Bool-cases (ltb (2 ^ 16 - 1) n)) [
        | inl e ↦ inr (ground arith, rw (law.encoded_len_lem (some m), e) refl)
        | inr e ↦ inl (
          ground arith,
          rw (law.encoded_len_lem (some m), e)
              (rw (law.encode_lem (some m)) (
                ap (λ (r : List ℕ). (ok tt, r))
                  (append_assoc b (c.version ∷ n / 256 ∷ n % 256 ∷ []) (law.bytes (some m))))),
        )
      ]

  whole :
      (c : BattleshipPlusCodec) (b : List ℕ) (m : Message)
      → c.length ≡ none
      → answer prost (length (law.bytes (some m))) c (law.bytes (some m) ++ b)
        ≡ (ok (some (some m)), (c, b))
  unfolding Codec.decoded
  whole c b m e =
      let body = law.bytes (some m) in
      let taken = take-append (length body) body b (omega arith) ∙ take-length body in
      let left =
        drop-append (length body) body b (omega arith)
        ∙ ap (λ (r : List ℕ). r ++ b) (drop-length body) in
      rw (taken, left, law.decode_lem (some m))
        (ap (λ (l : Option ℕ). (ok (some (some m)), (record c { length = l }, b))) (sym e))

  decode-frame :
      (c : BattleshipPlusCodec) (m : Message) (b : List ℕ)
      → c.length ≡ none
      → decode prost (c, frame c m ++ b) ≡ (ok (some (some m)), (c, b))
  unfolding Codec.decoded
  decode-frame c m b e =
      let body = law.bytes (some m) in
      let n = length body in
      let started = record c { length = some n } in
      let fits : n ≤ length (body ++ b) = omega (arith, length-append body b) in
      decode_headed prost c c.version (n / 256) (n % 256) (body ++ b) e refl
      ∙ ap (λ (k : ℕ). decode prost (record c { length = some k }, body ++ b)) (u16_bytes n)
      ∙ decode_started prost n started (body ++ b) refl
      ∙ body_whole prost n started (body ++ b) fits
      ∙ whole c b m e

  -- The frames of messages one after another.
  abbrev pub stream : BattleshipPlusCodec → List Message → List ℕ
  stream c [] = []
  stream c (m ∷ ms) = frame c m ++ stream c ms

  Reads-stream :
      (c : BattleshipPlusCodec) (ms : List Message)
      → c.length ≡ none
      → Reads prost (c, stream c ms) (map some ms) waiting (c, [])
  Reads-stream c [] e = wait (decode_fresh prost c [] e ∙ short_header prost c [] (omega arith))
  Reads-stream c (m ∷ ms) e = read (decode-frame c m (stream c ms) e) (Reads-stream c ms e)

  -- The encoding of messages one after another, up to one that is refused.
  unfoldable pub encode_all :
      BattleshipPlusCodec → List Message → List ℕ → Result (CodecError Text) (Unit {0}) × List ℕ
  encode_all c [] b = (ok tt, b)
  encode_all c (m ∷ ms) b =
      let put = encode prost c m b in
      let later = encode_all c ms put.1 in
      elim put.0 [ ok _ ↦ later | err e ↦ (err e, put.1) | panic ↦ (panic, put.1) ]

  encode_all-stream :
      (c : BattleshipPlusCodec) (ms : List Message) (b d : List ℕ)
      → encode_all c ms b ≡ (ok tt, d)
      → b ++ stream c ms ≡ d
  unfolding encode_all
  encode_all-stream c [] b d h =
      append-nil b ∙ ap (λ (r : Result (CodecError Text) (Unit {0}) × List ℕ). r.1) h
  encode_all-stream c (m ∷ ms) b d h = elim (encode_lem c m b) [
    | inr (long, e) ↦ absurd (ground (arith, e))
    | inl (fits, e) ↦
        sym (append_assoc b (frame c m) (stream c ms))
        ∙ encode_all-stream c ms (b ++ frame c m) d (ground (arith, e))
  ]

  ends_not : let b : End prost = broken in b ≢ waiting
  ends_not h = ground arith

  fails_not : {x : CodecError Text} → let b : End prost = failed x in b ≢ waiting
  fails_not h = ground arith

  -- When a codec between two messages has encoded a list of messages without an error, and the
  -- bytes arrive in two pieces, split anywhere, then reading the first piece and going on with the
  -- second gives exactly these messages in their order, and leaves the codec between two messages
  -- with no bytes left over.
  pub encode_all-Reads :
      (c : BattleshipPlusCodec) (ms : List Message) (x y : List ℕ)
      → c.length ≡ none
      → encode_all c ms [] ≡ (ok tt, x ++ y)
      → (ps : List (Option Message)) × (qs : List (Option Message)) × (s : Stream prost) × Reads
          prost
          (c, x)
          ps
          waiting
          s
        × Reads prost (longer prost y s) qs waiting (c, [])
        × (ps ++ qs ≡ map some ms)
  encode_all-Reads c ms x y e h =
      let sent : Reads prost (c, x ++ y) (map some ms) waiting (c, []) =
        rw (← encode_all-stream c ms [] (x ++ y) h) (Reads-stream c ms e) in
      let (ps, end, s, first, _) = Reads-Outcomes prost (c, x) in waits ps end s first sent
    where
      waits :
          (ps : List (Option Message)) (end : End prost) (s : Stream prost)
          → Reads prost (c, x) ps end s
          → Reads prost (c, x ++ y) (map some ms) waiting (c, [])
          → (ps : List (Option Message)) × (qs : List (Option Message)) × (s : Stream prost) × Reads
              prost
              (c, x)
              ps
              waiting
              s
            × Reads prost (longer prost y s) qs waiting (c, [])
            × (ps ++ qs ≡ map some ms)
      waits ps broken s first sent =
          absurd (ends_not (Reads-unique prost (Reads-crash prost y first) sent).1)
      waits ps (failed x) s first sent =
          absurd (fails_not (Reads-unique prost (Reads-fail prost y first) sent).1)
      waits ps waiting s first sent =
          let (qs, end, t, next, _) = Reads-Outcomes prost (longer prost y s) in
          let (all, ends, left) = Reads-unique prost (Reads-resume prost y first next) sent in
          (ps, qs, s, first, rw⁻¹ ends (rw⁻¹ left next), all)
