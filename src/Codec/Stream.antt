-- ===== src/Codec/Stream.antt =====
-- Reading a stream of bytes that arrives in pieces.
use battleship_plus.Base.{ℕ, ◌*◌, ◌+◌, ◌<◌, ◌≤◌, ltb, nat_beq, ◌≡◌, ◌≢◌, refl, sym, ◌∙◌}
use battleship_plus.Base.{
  Option, none, some, List, [], ◌∷◌, ◌++◌, length, take, drop, true, false, Bool-cases,
  Option-cases, inl, inr, ◌⊎◌, arith,
}
use battleship_plus.Base.{take-append, drop-append, length-append}
use battleship_plus.Types.{Result, ok, err, panic}
use battleship_plus.Codec
use battleship_plus.Codec.{
  BattleshipPlusCodec, Prost, CodecError, Stream, decode, decode_body, decode_header,
}

module _ (prost : Prost) where
  open prost use {Message, Text}

  abbrev pub Decoded : Type 0
  Decoded = Result (CodecError Text) (Option (Option Message)) × Stream prost

  -- A stream on which more bytes have arrived.
  abbrev pub longer : List ℕ → Stream prost → Stream prost
  longer b s = (s.0, s.1 ++ b)

  -- A decoder that waits takes up where it was; one that answers gives the same answer.
  abbrev pub Resumes : List ℕ → Stream prost → Decoded → Type 0
  Resumes b s r =
      ((r.0 ≡ ok none) × (decode prost (longer b r.1) ≡ decode prost (longer b s)))
      ⊎ ((r.0 ≢ ok none) × (decode prost (longer b s) ≡ (r.0, longer b r.1)))

  decoded_answers : (r : Result Text (Option Message)) → Codec.decoded prost r ≢ ok none
  unfolding Codec.decoded
  decoded_answers (ok p) h = ground arith
  decoded_answers (err e) h = ground arith
  decoded_answers panic h = ground arith

  -- The answer of a decoder that has read a header and all of the message.
  abbrev pub answer : ℕ → BattleshipPlusCodec → List ℕ → Decoded
  answer n c a =
      (Codec.decoded prost (prost.decode (take n a)), (record c { length = none }, drop n a))

  pub body_whole :
      (n : ℕ) (c : BattleshipPlusCodec) (a : List ℕ)
      → n ≤ length a
      → decode_body prost n c a ≡ answer n c a
  unfolding decode_body
  body_whole n c a h = let full : ltb (length a) n ≡ false = ground arith in rw full refl

  pub body_partial :
      (n : ℕ) (c : BattleshipPlusCodec) (a : List ℕ)
      → length a < n
      → decode_body prost n c a ≡ (ok none, (c, a))
  unfolding decode_body
  body_partial n c a h = let short : ltb (length a) n ≡ true = ground arith in rw short refl

  longer-answer :
      (n : ℕ) (c : BattleshipPlusCodec) (a b : List ℕ)
      → n ≤ length a
      → answer n c (a ++ b) ≡ ((answer n c a).0, longer b (answer n c a).1)
  longer-answer n c a b h = rw (take-append n a b h, drop-append n a b h) refl

  pub decode_fresh :
      (c : BattleshipPlusCodec) (a : List ℕ)
      → c.length ≡ none
      → decode prost (c, a) ≡ decode_header prost c a
  unfolding decode
  decode_fresh c a e = ground (arith, e)

  pub decode_started :
      (n : ℕ) (c : BattleshipPlusCodec) (a : List ℕ)
      → c.length ≡ some n
      → decode prost (c, a) ≡ decode_body prost n c a
  unfolding decode
  decode_started n c a e = ground (arith, e)

  -- A header of the right version.
  pub decode_headed :
      (c : BattleshipPlusCodec) (v high low : ℕ) (rest : List ℕ)
      → c.length ≡ none
      → v ≡ c.version
      → decode prost (c, v ∷ high ∷ low ∷ rest)
        ≡ decode prost (record c { length = some (high * 256 + low) }, rest)
  unfolding decode_header
  decode_headed c v high low rest e same =
      let matches : nat_beq v c.version ≡ true = ground arith in
      rw (decode_fresh c (v ∷ high ∷ low ∷ rest) e, matches)
        (sym (decode_started _ (record c { length = some (high * 256 + low) }) rest refl))

  -- A header of another version: the length is kept.
  pub decode_misfit :
      (c : BattleshipPlusCodec) (v high low : ℕ) (rest : List ℕ)
      → c.length ≡ none
      → v ≢ c.version
      → decode prost (c, v ∷ high ∷ low ∷ rest)
        ≡ (err (Codec.unsupported_version v), (record c { length = some (high * 256 + low) }, rest))
  unfolding decode_header
  decode_misfit c v high low rest e other =
      let differs : nat_beq v c.version ≡ false = ground arith in
      rw (decode_fresh c (v ∷ high ∷ low ∷ rest) e, differs) refl

  -- Between two messages, a header of another version is an error, and the next call answers as if
  -- the header had been of the right version.
  pub decode-unsupported_version :
      (c : BattleshipPlusCodec) (v high low : ℕ) (rest : List ℕ)
      → c.length ≡ none
      → v ≢ c.version
      → (s : Stream prost) × (decode prost (c, v ∷ high ∷ low ∷ rest)
          ≡ (err (Codec.unsupported_version v), s))
        × (decode prost s ≡ decode prost (c, c.version ∷ high ∷ low ∷ rest))
  decode-unsupported_version c v high low rest e other = (
    (record c { length = some (high * 256 + low) }, rest),
    decode_misfit c v high low rest e other,
    sym (decode_headed c c.version high low rest e refl),
  )

  started-Resumes :
      (n : ℕ) (c : BattleshipPlusCodec) (a b : List ℕ)
      → c.length ≡ some n
      → Resumes b (c, a) (decode prost (c, a))
  started-Resumes n c a b e = elim (Bool-cases (ltb (length a) n)) [
    | inl f ↦ rw (decode_started n c a e, body_partial n c a (ground arith)) (inl (refl, refl))
    | inr f ↦
        let whole : n ≤ length a = ground arith in
        let still : n ≤ length (a ++ b) = omega (arith, length-append a b) in
        rw (decode_started n c a e, body_whole n c a whole)
          (inr (
            decoded_answers _,
            decode_started n c (a ++ b) e
                ∙ body_whole n c (a ++ b) still
                ∙ longer-answer n c a b whole,
          ))
  ]

  waits :
      (c : BattleshipPlusCodec) (a b : List ℕ)
      → c.length ≡ none
      → decode_header prost c a ≡ (ok none, (c, a))
      → Resumes b (c, a) (decode prost (c, a))
  waits c a b e same = rw (decode_fresh c a e, same) (inl (refl, refl))

  pub short_header :
      (c : BattleshipPlusCodec) (a : List ℕ)
      → length a < 3
      → decode_header prost c a ≡ (ok none, (c, a))
  unfolding decode_header
  short_header c [] h = refl
  short_header c (v ∷ []) h = refl
  short_header c (v ∷ high ∷ []) h = refl
  short_header c (v ∷ high ∷ low ∷ rest) h = absurd (omega arith)

  -- When a decoder waits for more bytes, the next call with more of them answers as if they had all
  -- been there at once; when it answers, it gives the same answer with more bytes behind, and
  -- leaves these.
  pub decode-Resumes : (s : Stream prost) (b : List ℕ) → Resumes b s (decode prost s)
  decode-Resumes (c, a) b = elim (Option-cases c.length) [
    | inr (n, e) ↦ started-Resumes n c a b e
    | inl e ↦ fresh c a e
  ]
    where
      fresh :
          (c : BattleshipPlusCodec) (a : List ℕ)
          → c.length ≡ none
          → Resumes b (c, a) (decode prost (c, a))
      fresh c [] e = waits c [] b e (short_header c [] (omega arith))
      fresh c (v ∷ []) e = waits c (v ∷ []) b e (short_header c (v ∷ []) (omega arith))
      fresh c (v ∷ high ∷ []) e =
          waits c (v ∷ high ∷ []) b e (short_header c (v ∷ high ∷ []) (omega arith))
      fresh c (v ∷ high ∷ low ∷ rest) e = elim (Bool-cases (nat_beq v c.version)) [
        | inl f ↦
            rw
              (
                decode_headed c v high low rest e (ground arith),
                decode_headed c v high low (rest ++ b) e (ground arith),
              )
              (started-Resumes (high * 256 + low) (record c { length = some (high * 256 + low) })
                rest b refl)
        | inr f ↦
            rw
              (
                decode_misfit c v high low rest e (ground arith),
                decode_misfit c v high low (rest ++ b) e (ground arith),
              )
              (inr (λ q. ground arith, refl))
      ]
