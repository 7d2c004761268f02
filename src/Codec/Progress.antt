-- ===== src/Codec/Progress.antt =====
-- Reading a stream ends, and has one outcome.
use battleship_plus.Base.{
  ℕ, zero, suc, ◌*◌, ◌+◌, ◌<◌, ◌≤◌, ltb, nat_beq, ◌≡◌, ◌≢◌, refl, sym, ap, ◌∙◌,
}
use battleship_plus.Base.{
  Option, none, some, List, [], ◌∷◌, length, Bool-cases, Option-cases, inl, inr, arith,
}
use battleship_plus.Base.{length-drop}
use battleship_plus.Types.{Result, ok, err, panic, Result-cases}
use battleship_plus.Codec.{BattleshipPlusCodec, Prost, CodecError, Stream, decode, decode_body}
use battleship_plus.Codec.Stream.{
  Decoded, decode_fresh, decode_started, decode_headed, decode_misfit, body_whole, body_partial,
  short_header,
}
use battleship_plus.Codec.Reading.{End, Reads, waiting, broken, failed, wait, fail, crash, read}

module _ (prost : Prost) where
  open prost use {Message, Text}

  -- The bytes of a stream, and one for a header that has been read.
  abbrev pub size : Stream prost → ℕ
  size s = length s.1 + elim s.0.length [ none ↦ 0 | some n ↦ 1 ]

  waits_not :
      {s t : Stream prost} {p : Option Message}
      → let w : Decoded prost = (ok none, s) in w ≢ (ok (some p), t)
  waits_not h = ground arith

  started_shrinks :
      (n : ℕ) (c : BattleshipPlusCodec) (a : List ℕ) (p : Option Message) (t : Stream prost)
      → decode_body prost n c a ≡ (ok (some p), t)
      → size t ≤ length a
  unfolding decode_body
  started_shrinks n c a p t h = elim (Bool-cases (ltb (length a) n)) [
    | inl f ↦ absurd (waits_not (sym (body_partial prost n c a (ground arith)) ∙ h))
    | inr f ↦
        let e = sym (body_whole prost n c a (ground arith)) ∙ h in
        let left = ap (λ (r : Decoded prost). size r.1) e in omega (arith, left, length-drop n a)
  ]

  shrinks :
      (c : BattleshipPlusCodec) (a : List ℕ) (p : Option Message) (t : Stream prost)
      → decode prost (c, a) ≡ (ok (some p), t)
      → size t < size (c, a)
  shrinks c a p t h = elim (Option-cases c.length) [
    | inr (n, e) ↦
        let less = started_shrinks n c a p t (sym (decode_started prost n c a e) ∙ h) in
        ground (arith, e)
    | inl e ↦ fresh a h e
  ]
    where
      fresh :
          (a : List ℕ)
          → decode prost (c, a) ≡ (ok (some p), t)
          → c.length ≡ none
          → size t < size (c, a)
      fresh [] h e =
          absurd
            (waits_not (sym (decode_fresh prost c _ e ∙ short_header prost c _ (omega arith)) ∙ h))
      fresh (v ∷ []) h e =
          absurd
            (waits_not (sym (decode_fresh prost c _ e ∙ short_header prost c _ (omega arith)) ∙ h))
      fresh (v ∷ high ∷ []) h e =
          absurd
            (waits_not (sym (decode_fresh prost c _ e ∙ short_header prost c _ (omega arith)) ∙ h))
      fresh (v ∷ high ∷ low ∷ rest) h e = elim (Bool-cases (nat_beq v c.version)) [
        | inl f ↦
            let after = record c { length = some (high * 256 + low) } in
            let less = started_shrinks (high * 256 + low) after rest p t (
              sym (
                decode_headed prost c v high low rest e (ground arith)
                ∙ decode_started prost _ after rest refl)
              ∙ h) in
            omega (arith, less)
        | inr f ↦
            absurd
              (ground (arith, sym (decode_misfit prost c v high low rest e (ground arith)) ∙ h))
      ]

  -- How a reading comes out.
  abbrev pub Outcomes : Stream prost → Type 0
  Outcomes s =
      (ps : List (Option Message)) × (e : End prost) × (t : Stream prost) × (Reads prost s ps e t)
      × (length ps ≤ size s)

  paired :
      {r : Result (CodecError Text) (Option (Option Message))} (s : Stream prost)
      → (decode prost s).0 ≡ r
      → decode prost s ≡ (r, (decode prost s).1)
  paired s e =
      ap (λ (x : Result (CodecError Text) (Option (Option Message))). (x, (decode prost s).1)) e

  reading : (n : ℕ) (s : Stream prost) → size s < n → Outcomes s
  reading zero s h = absurd (omega arith)
  reading (suc n) s h = elim (Result-cases (decode prost s).0) [
    | inr (inl (x, e)) ↦ ([], failed x, (decode prost s).1, fail (paired s e), omega arith)
    | inr (inr e) ↦ ([], broken, (decode prost s).1, crash (paired s e), omega arith)
    | inl (none, e) ↦ ([], waiting, (decode prost s).1, wait (paired s e), omega arith)
    | inl (some p, e) ↦
        let t = (decode prost s).1 in
        let less = shrinks s.0 s.1 p t (paired s e) in
        let (ps, end, u, r, bound) = reading n t (omega (arith, less)) in
        (p ∷ ps, end, u, read (paired s e) r, omega (arith, less, bound))
  ]

  -- Reading a stream ends, by waiting for more bytes or by failing; it gives at most as many
  -- messages as the stream has bytes, and one for a header that has been read.
  pub Reads-Outcomes : (s : Stream prost) → Outcomes s
  Reads-Outcomes s = reading (suc (size s)) s (omega arith)

  -- The loop that reads all messages of a stream, with a bound on their number.
  unfoldable pub read_all :
      ℕ → Stream prost → Option (List (Option Message) × End prost × Stream prost)
  read_all zero s = none
  read_all (suc n) s =
      let later = read_all n (decode prost s).1 in
      elim (decode prost s).0 [
        | err e ↦ some ([], failed e, (decode prost s).1)
        | panic ↦ some ([], broken, (decode prost s).1)
        | ok none ↦ some ([], waiting, (decode prost s).1)
        | ok (some p) ↦ elim later [ none ↦ none | some (ps, e, t) ↦ some (p ∷ ps, e, t) ]
      ]

  pub Reads-read_all :
      (n : ℕ) {s t : Stream prost} {ps : List (Option Message)} {e : End prost}
      → Reads prost s ps e t
      → length ps < n
      → read_all n s ≡ some (ps, e, t)
  unfolding read_all
  Reads-read_all zero r h = absurd (omega arith)
  Reads-read_all (suc n) (wait q) h = ground (arith, q)
  Reads-read_all (suc n) (fail q) h = ground (arith, q)
  Reads-read_all (suc n) (crash q) h = ground (arith, q)
  Reads-read_all (suc n) (read q r) h = ground (arith, q, Reads-read_all n r (omega arith))

  -- A stream has one outcome.
  pub Reads-unique :
      {s t u : Stream prost} {ps qs : List (Option Message)} {e f : End prost}
      → Reads prost s ps e t
      → Reads prost s qs f u
      → (ps ≡ qs) × (e ≡ f) × (t ≡ u)
  Reads-unique {ps = ps} {qs = qs} r q =
      let n = suc (length ps + length qs) in
      let same = sym (Reads-read_all n r (omega arith)) ∙ Reads-read_all n q (omega arith) in
      (ground arith, ground arith, ground arith)
