-- ===== src/Http/Request/Ranges.antt =====
-- Byte ranges (http/request.cpp): what is parsed, and what it resolves to.
use goblin_store.Prelude.{
  ℕ, ◌+◌, ◌^◌, ◌≤◌, ◌<◌, not, ◌||◌, ◌==◌, ltb, Option, none, some, drop, ◌≡◌, ◌↔◌, refl, subst,
  arith, Bool-cases, inl, inr,
}
use goblin_store.Prelude.Bytes.{
  Bytes, has_byte, before, from_byte, starts_with, to_unsigned, to_unsigned-lt,
}
use goblin_store.Common.Types.{ByteRange, RangeKind}
use goblin_store.Common.Config.{is_empty}
use goblin_store.Http.Request.{
  range, unit_name, suffix_range, closed_range, range_from, range_of, parse_range, trim,
  resolve_kind, resolve_range,
}

-- The range has the byte, in an object of the size.
unfoldable pub Covers : RangeKind → ℕ → ℕ → ℕ → ℕ → Type 0
Covers RangeKind.closed a b size x = (a ≤ x) × (x ≤ b) × (x < size)
Covers RangeKind.from a b size x = (a ≤ x) × (x < size)
Covers RangeKind.suffix a b size x = (size ≤ x + a) × (x < size)

-- A range that is parsed: two ordered 64-bit offsets, one, or a 64-bit length that is not 0.
unfoldable pub Sane : RangeKind → ℕ → ℕ → Type 0
Sane RangeKind.closed a b = (a ≤ b) × (b < 2 ^ 64)
Sane RangeKind.from a b = a < 2 ^ 64
Sane RangeKind.suffix a b = (0 < a) × (a < 2 ^ 64)

pub IsSane : ByteRange → Type 0
IsSane r = Sane r.kind r.a r.b

-- A number that fits 64 bits, if there is one.
abbrev Fits64 : Option ℕ → Type 0
Fits64 o = (n : ℕ) → o ≡ some n → n < 2 ^ 64

suffix_range-IsSane : (o : Option ℕ) (r : ByteRange) → Fits64 o → suffix_range o ≡ some r → IsSane r
unfolding suffix_range IsSane Sane
suffix_range-IsSane none r small h = cc
suffix_range-IsSane (some n) r small h = elim (Bool-cases (n == 0)) [
  | inl empty ↦ absurd (ground arith)
  | inr filled ↦
      let e : range RangeKind.suffix n 0 ≡ r = ground arith in
      subst IsSane e (ground (arith, small n refl))
]

closed_range-IsSane :
    (a : ℕ) (o : Option ℕ) (r : ByteRange) → Fits64 o → closed_range a o ≡ some r → IsSane r
unfolding closed_range IsSane Sane
closed_range-IsSane a none r small h = cc
closed_range-IsSane a (some b) r small h = elim (Bool-cases (ltb b a)) [
  | inl crossed ↦ absurd (ground arith)
  | inr ordered ↦
      let e : range RangeKind.closed a b ≡ r = ground arith in
      subst IsSane e (ground (arith, small b refl))
]

range_from-IsSane :
    (o : Option ℕ) (hi : Bytes) (r : ByteRange) → Fits64 o → range_from o hi ≡ some r → IsSane r
unfolding range_from IsSane Sane
range_from-IsSane none hi r small h = cc
range_from-IsSane (some a) hi r small h = elim (Bool-cases (is_empty hi)) [
  | inl to_end ↦
      let e : range RangeKind.from a 0 ≡ r = ground arith in
      subst IsSane e (ground (arith, small a refl))
  | inr closed_too ↦
      closed_range-IsSane a (to_unsigned 64 hi) r (to_unsigned-lt 64 hi) (ground arith)
]

range_of-IsSane : (spec : Bytes) (r : ByteRange) → range_of spec ≡ some r → IsSane r
unfolding range_of
range_of-IsSane spec r h =
    let lo = trim (before b'-' spec) in
    let hi = trim (drop 1 (from_byte b'-' spec)) in
    elim (Bool-cases (has_byte b',' spec || not (has_byte b'-' spec))) [
      | inl bad ↦ absurd (ground arith)
      | inr good ↦ elim (Bool-cases (is_empty lo)) [
        | inl last_bytes ↦
            suffix_range-IsSane (to_unsigned 64 hi) r (to_unsigned-lt 64 hi) (ground arith)
        | inr first_byte ↦
            range_from-IsSane (to_unsigned 64 lo) hi r (to_unsigned-lt 64 lo) (ground arith)
      ]
    ]

parse_range-IsSane : (value : Bytes) (r : ByteRange) → parse_range value ≡ some r → IsSane r
unfolding parse_range
parse_range-IsSane value r h = elim (Bool-cases (starts_with unit_name (trim value))) [
  | inl bytes ↦ range_of-IsSane (drop 6 (trim value)) r (ground arith)
  | inr other ↦ absurd (ground arith)
]

pub resolve_kind-Covers :
    (k : RangeKind) (a b size off len x : ℕ)
    → Sane k a b
    → resolve_kind k a b size ≡ some (off, len)
    → (0 < len) × (off + len ≤ size) × (((off ≤ x) × (x < off + len)) ↔ Covers k a b size x)
unfolding resolve_kind Sane Covers
resolve_kind-Covers RangeKind.closed a b size off len x v h = ground arith
resolve_kind-Covers RangeKind.from a b size off len x v h = ground arith
resolve_kind-Covers RangeKind.suffix a b size off len x v h = ground arith

pub resolve_kind-none :
    (k : RangeKind) (a b size x : ℕ) → resolve_kind k a b size ≡ none → Covers k a b size x → ⊥
unfolding resolve_kind Covers
resolve_kind-none RangeKind.closed a b size x h c = ground arith
resolve_kind-none RangeKind.from a b size x h c = ground arith
resolve_kind-none RangeKind.suffix a b size x h c = ground arith

-- A range that `parse_range` accepts, resolved against the size of an object: the part that comes out
-- is not empty, lies in the object, and has exactly the bytes that the range asks for and the object
-- has; and where it is unsatisfiable, no byte of the object is asked for.
pub parse_range-resolve_range :
    (value : Bytes) (r : ByteRange) (size x : ℕ)
    → parse_range value ≡ some r
    → ((off len : ℕ)
        → resolve_range r size ≡ some (off, len)
        → (0 < len)
          × (off + len ≤ size)
          × (((off ≤ x) × (x < off + len)) ↔ Covers r.kind r.a r.b size x))
      × (resolve_range r size ≡ none → Covers r.kind r.a r.b size x → ⊥)
unfolding resolve_range IsSane
parse_range-resolve_range value r size x h = (
  λ off len e. resolve_kind-Covers r.kind r.a r.b size off len x (parse_range-IsSane value r h) e,
  resolve_kind-none r.kind r.a r.b size x,
)
