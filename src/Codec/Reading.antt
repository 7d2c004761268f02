-- ===== src/Codec/Reading.antt =====
-- The messages that a stream of bytes gives, whatever the pieces in which it arrives.
use battleship_plus.Base.{ℕ, ◌≡◌, ◌≢◌, sym, ap, ◌∙◌}
use battleship_plus.Base.{Option, none, some, List, [], ◌∷◌, ◌++◌, inl, inr, arith}
use battleship_plus.Types.{Result, ok, err, panic}
use battleship_plus.Codec.{Prost, CodecError, Stream, decode}
use battleship_plus.Codec.Stream.{Decoded, longer, decode-Resumes}

module _ (prost : Prost) where
  open prost use {Message, Text}

  -- How the reading of a buffer ends.
  pub data End : Type 0 where
    waiting broken : End
    failed : CodecError Text → End

  -- The messages that a stream gives, up to where it waits for more bytes or fails.
  pub data Reads : Stream prost → List (Option Message) → End → Stream prost → Type 0 where
    wait : {s t : Stream prost} → decode prost s ≡ (ok none, t) → Reads s [] waiting t
    fail :
        {s t : Stream prost} {e : CodecError Text}
        → decode prost s ≡ (err e, t)
        → Reads s [] (failed e) t
    crash : {s t : Stream prost} → decode prost s ≡ (panic, t) → Reads s [] broken t
    read :
        {s t u : Stream prost} {p : Option Message} {ps : List (Option Message)} {e : End}
        → decode prost s ≡ (ok (some p), t)
        → Reads t ps e u
        → Reads s (p ∷ ps) e u

  -- A decoder that waits has the same answers as if the bytes had come before.
  waited :
      (s t : Stream prost) (b : List ℕ)
      → decode prost s ≡ (ok none, t)
      → decode prost (longer prost b t) ≡ decode prost (longer prost b s)
  waited s t b h = elim (decode-Resumes prost s b) [
    | inl (q, same) ↦ rw (ap (λ (r : Decoded prost). longer prost b r.1) (sym h)) same
    | inr (differs, same) ↦ absurd (differs (ap (λ (r : Decoded prost). r.0) h))
  ]

  answered :
      (s t : Stream prost) (b : List ℕ) (r : Result (CodecError Text) (Option (Option Message)))
      → decode prost s ≡ (r, t)
      → r ≢ ok none
      → decode prost (longer prost b s) ≡ (r, longer prost b t)
  answered s t b r h other = elim (decode-Resumes prost s b) [
    | inl (q, same) ↦ absurd (other (ap (λ (x : Decoded prost). x.0) (sym h) ∙ q))
    | inr (differs, same) ↦ same ∙ ap (λ (x : Decoded prost). (x.0, longer prost b x.1)) h
  ]

  same_decode :
      {s t u : Stream prost} {ps : List (Option Message)} {e : End}
      → decode prost s ≡ decode prost t
      → Reads s ps e u
      → Reads t ps e u
  same_decode q (wait h) = wait (sym q ∙ h)
  same_decode q (fail h) = fail (sym q ∙ h)
  same_decode q (crash h) = crash (sym q ∙ h)
  same_decode q (read h r) = read (sym q ∙ h) r

  -- Reading goes on where it waited.
  pub Reads-resume :
      {s t u : Stream prost} {ps qs : List (Option Message)} {e : End} (b : List ℕ)
      → Reads s ps waiting t
      → Reads (longer prost b t) qs e u
      → Reads (longer prost b s) (ps ++ qs) e u
  Reads-resume {s = s} {t = t} b (wait h) more = same_decode (waited s t b h) more
  Reads-resume {s = s} b (read {t = t} h r) more =
      read (answered s t b _ h (λ q. ground arith)) (Reads-resume b r more)

  -- Reading that fails does so whatever comes later.
  pub Reads-fail :
      {s t : Stream prost} {ps : List (Option Message)} {x : CodecError Text} (b : List ℕ)
      → Reads s ps (failed x) t
      → Reads (longer prost b s) ps (failed x) (longer prost b t)
  Reads-fail {s = s} {t = t} b (fail h) = fail (answered s t b _ h (λ q. ground arith))
  Reads-fail {s = s} b (read {t = t} h r) =
      read (answered s t b _ h (λ q. ground arith)) (Reads-fail b r)

  pub Reads-crash :
      {s t : Stream prost} {ps : List (Option Message)} (b : List ℕ)
      → Reads s ps broken t
      → Reads (longer prost b s) ps broken (longer prost b t)
  Reads-crash {s = s} {t = t} b (crash h) = crash (answered s t b _ h (λ q. ground arith))
  Reads-crash {s = s} b (read {t = t} h r) =
      read (answered s t b _ h (λ q. ground arith)) (Reads-crash b r)
