-- ===== src/Tests/Frames.antt =====
-- The codec at work, with messages that are lists of bytes.
use battleship_plus.Base.{ℕ, zero, ◌^◌, ◌≡◌, ◌≢◌, ◌≤◌, ◌<◌, refl, arith}
use battleship_plus.Base.{Option, none, some, List, [], ◌∷◌, ◌++◌, length, map, ◌⊎◌}
use battleship_plus.Types.{Result, ok, err}
use battleship_plus.Codec
use battleship_plus.Codec.{
  BattleshipPlusCodec, default_codec, Prost, Lawful, Stream, encode, decode, decode_body,
  decode_header, too_long, protocol, unsupported_version,
}
use battleship_plus.Codec.Stream.{longer, Resumes, decode-Resumes, decode-unsupported_version}
use battleship_plus.Codec.Reading.{Reads, waiting}
use battleship_plus.Codec.Progress.{Outcomes, Reads-Outcomes}
use battleship_plus.Codec.RoundTrip.{encode_lem, encode_all, encode_all-Reads, frame}

-- A payload is its message behind a zero, or nothing.
abbrev payload : Option (List ℕ) → List ℕ
payload none = []
payload (some m) = 0 ∷ m

abbrev opened : List ℕ → Result (List ℕ) (Option (List ℕ))
opened [] = ok none
opened (zero ∷ m) = ok (some m)
opened (k ∷ m) = err (k ∷ [])

abbrev plain : Prost
plain = record {
  Message = List ℕ;
  Text = List ℕ;
  encoded_len = λ p. length (payload p);
  encode = λ p b. (ok tt, b ++ payload p);
  decode = opened;
}

opened-payload : (p : Option (List ℕ)) → opened (payload p) ≡ ok p
opened-payload none = refl
opened-payload (some m) = refl

abbrev plain_law : Lawful plain
plain_law = record {
  bytes = payload;
  encoded_len_lem = λ p. refl;
  encode_lem = λ p b. refl;
  decode_lem = opened-payload;
}

abbrev wire : List ℕ
wire = 1 ∷ 0 ∷ 3 ∷ 0 ∷ 7 ∷ 8 ∷ 1 ∷ []

abbrev later_wire : List ℕ
later_wire = 0 ∷ 1 ∷ 0 ∷ []

abbrev letters : List (List ℕ)
letters = (7 ∷ 8 ∷ []) ∷ [] ∷ []

on_the_wire : encode_all plain plain_law default_codec letters [] ≡ (ok tt, wire ++ later_wire)
unfolding encode_all encode Codec.sent default_codec
on_the_wire = refl

fresh_codec : default_codec.length ≡ none
unfolding default_codec
fresh_codec = refl

encode_all-Reads_example :
    (ps : List (Option (List ℕ))) × (qs : List (Option (List ℕ))) × (s : Stream plain) × Reads plain
      (default_codec, wire)
      ps
      waiting
      s
    × Reads plain (longer plain later_wire s) qs waiting (default_codec, [])
    × (ps ++ qs ≡ map some letters)
encode_all-Reads_example =
    encode_all-Reads plain plain_law default_codec letters wire later_wire fresh_codec on_the_wire

encode_lem_example :
    ((3 < 2 ^ 16)
      × (encode plain default_codec (7 ∷ 8 ∷ []) []
          ≡ (ok tt, frame plain plain_law default_codec (7 ∷ 8 ∷ []))))
    ⊎ ((2 ^ 16 ≤ 3) × (encode plain default_codec (7 ∷ 8 ∷ []) [] ≡ (err (protocol too_long), [])))
encode_lem_example = encode_lem plain plain_law default_codec (7 ∷ 8 ∷ []) []

Reads-Outcomes_example : Outcomes plain (default_codec, wire)
Reads-Outcomes_example = Reads-Outcomes plain (default_codec, wire)

decode-Resumes_example :
    Resumes plain later_wire (default_codec, wire) (decode plain (default_codec, wire))
decode-Resumes_example = decode-Resumes plain (default_codec, wire) later_wire

other_version : 2 ≢ default_codec.version
unfolding default_codec
other_version h = omega (arith, h)

decode-unsupported_version_example :
    (s : Stream plain) × (decode plain (default_codec, 2 ∷ 0 ∷ 1 ∷ 0 ∷ [])
      ≡ (err (unsupported_version 2), s))
    × (decode plain s ≡ decode plain (default_codec, default_codec.version ∷ 0 ∷ 1 ∷ 0 ∷ []))
decode-unsupported_version_example =
    decode-unsupported_version plain default_codec 2 0 1 (0 ∷ []) fresh_codec other_version
