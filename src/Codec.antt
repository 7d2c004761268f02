-- ===== src/Codec.antt =====
-- crates/battleship_plus_common/src/lib.rs: the codec of the messages. The messages of the protocol and
-- their encoding are generated code, which is a parameter; bytes are numbers below 256.
pub mod Stream
pub mod Reading
pub mod Progress
pub mod RoundTrip
use battleship_plus.Base.{ℕ, ◌*◌, ◌+◌, ◌-◌, ◌/◌, ◌%◌, ◌^◌, ltb, nat_beq, if◌then◌else◌, ◌≡◌}
use battleship_plus.Base.{Option, none, some, List, [], ◌∷◌, ◌++◌, length, take, drop}
use battleship_plus.Types.{Result, ok, err, panic}

-- `PROTOCOL_VERSION`
abbrev pub protocol_version : ℕ
protocol_version = 1

-- The reasons of the `Protocol` errors, which the source puts into words.
pub data Fault (Text : Type 0) : Type 0 where
  too_long : Fault Text
  malformed : Text → Fault Text

pub data CodecError (Text : Type 0) : Type 0 where
  io : Text → CodecError Text
  protocol : Fault Text → CodecError Text
  unsupported_version : ℕ → CodecError Text

pub record BattleshipPlusCodec : Type 0 where
  pub version : ℕ
  pub length : Option ℕ

unfoldable pub default_codec : BattleshipPlusCodec
default_codec = record { version = protocol_version; length = none }

-- `prost::Message` for a `PacketPayload`, whose only field is an optional message. The result of
-- `encode` has the buffer that it leaves.
pub record Prost : Type 1 where
  pub Message : Type 0
  pub Text : Type 0
  pub encoded_len : Option Message → ℕ
  pub encode : Option Message → List ℕ → Result Text (Unit {0}) × List ℕ
  pub decode : List ℕ → Result Text (Option Message)

-- What `prost` documents: on a buffer that grows, `encode` appends as many bytes as `encoded_len`
-- says, and `decode` reads them back.
pub record Lawful (prost : Prost) : Type 0 where
  pub bytes : Option prost.Message → List ℕ
  pub encoded_len_lem : (p : Option prost.Message) → prost.encoded_len p ≡ length (bytes p)
  pub encode_lem :
      (p : Option prost.Message) (b : List ℕ) → prost.encode p b ≡ (ok tt, b ++ bytes p)
  pub decode_lem : (p : Option prost.Message) → prost.decode (bytes p) ≡ ok p

module _ (prost : Prost) where
  open prost use {Message, Text}

  -- The codec and its buffer.
  abbrev pub Stream : Type 0
  Stream = BattleshipPlusCodec × List ℕ

  unfoldable pub sent : Result Text (Unit {0}) → Result (CodecError Text) (Unit {0})
  sent (ok _) = ok tt
  sent (err e) = err (io e)
  sent panic = panic

  unfoldable pub encode :
      BattleshipPlusCodec → Message → List ℕ → Result (CodecError Text) (Unit {0}) × List ℕ
  unfolding sent
  encode codec message buffer =
      let n = prost.encoded_len (some message) in
      if ltb (2 ^ 16 - 1) n
      then (err (protocol too_long), buffer)
      else let put =
          prost.encode (some message) (buffer ++ codec.version ∷ n / 256 ∷ n % 256 ∷ []) in
        (sent put.0, put.1)

  unfoldable pub decoded :
      Result Text (Option Message) → Result (CodecError Text) (Option (Option Message))
  decoded (ok p) = ok (some p)
  decoded (err e) = err (protocol (malformed e))
  decoded panic = panic

  -- The message, once its header has been read.
  unfoldable pub decode_body :
      ℕ → BattleshipPlusCodec → List ℕ → Result (CodecError Text) (Option (Option Message)) × Stream
  unfolding decoded
  decode_body n codec buffer =
      if ltb (length buffer) n
      then (ok none, (codec, buffer))
      else (decoded (prost.decode (take n buffer)), (record codec { length = none }, drop n buffer))

  -- The header: a version and a length.
  unfoldable pub decode_header :
      BattleshipPlusCodec → List ℕ → Result (CodecError Text) (Option (Option Message)) × Stream
  decode_header codec (version ∷ high ∷ low ∷ rest) =
      let n = high * 256 + low in
      let codec_after = record codec { length = some n } in
      if nat_beq version codec.version
      then decode_body n codec_after rest
      else (err (unsupported_version version), (codec_after, rest))
  decode_header codec buffer = (ok none, (codec, buffer))

  unfoldable pub decode : Stream → Result (CodecError Text) (Option (Option Message)) × Stream
  decode (codec, buffer) = elim codec.length [
    | none ↦ decode_header codec buffer
    | some n ↦ decode_body n codec buffer
  ]
