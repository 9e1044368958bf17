-- ===== src/View/Bytes.antt =====
-- `formatBytes`, which web/src/components/ObjectBrowser.tsx, ObjectMeta.tsx and BucketList.tsx each
-- declare. `val` is the quotient of two numbers: halving a double ten times is exact. The text
-- `${val.toFixed(1)} ${units[i]}` is kept as its parts: the whole part, the digit behind the point
-- and the index of the unit among B, KB, MB, GB and TB.
use pier_s3_gateway.Prelude.{
  ℕ, zero, suc, ◌+◌, ◌*◌, ◌/◌, ◌%◌, ◌^◌, ◌≤◌, ◌<◌, ◌⊎◌, ◌≡◌, sym, arith, Bool-cases, inl, inr,
  Option, none, some, leb, ◌==◌, if◌then◌else◌,
}

pub record Value : Type 0 where
  pub num : ℕ
  pub den : ℕ
  pub unit : ℕ

-- The `while` loop; the first argument is `units.length - 1 - i`.
unfoldable pub scale : ℕ → Value → Value
scale zero v = v
scale (suc rounds) v =
    let next = scale rounds (record v { den = v.den * 1024; unit = v.unit + 1 }) in
    if leb (v.den * 1024) v.num then next else v

-- `toFixed(1)` in tenths: the nearest one, the larger of two.
unfoldable pub tenths : Value → ℕ
tenths v = (v.num * 20 + v.den) / (v.den * 2)

pub data Shown : Type 0 where
  zero_bytes dash : Shown
  amount : (whole tenth unit : ℕ) → Shown

abbrev show_value : Value → Shown
show_value v = amount (tenths v / 10) (tenths v % 10) v.unit

abbrev pub scaled : ℕ → Value
scaled bytes = scale 4 (record { num = bytes; den = 1; unit = 0 })

unfoldable pub format_bytes : ℕ → Shown
unfolding tenths scale
format_bytes bytes = if bytes == 0 then zero_bytes else show_value (scaled bytes)

-- In BucketList.tsx a missing size is a dash.
unfoldable pub format_size : Option ℕ → Shown
unfolding format_bytes
format_size none = dash
format_size (some bytes) = format_bytes bytes

-- The unit is the largest of the five that the size reaches.
pub scaled-unit :
    (bytes : ℕ)
    → ((scaled bytes).unit ≡ 0) × (bytes < 1024)
      ⊎ ((scaled bytes).unit ≡ 1) × (1024 ≤ bytes) × (bytes < 1024 ^ 2)
      ⊎ ((scaled bytes).unit ≡ 2) × (1024 ^ 2 ≤ bytes) × (bytes < 1024 ^ 3)
      ⊎ ((scaled bytes).unit ≡ 3) × (1024 ^ 3 ≤ bytes) × (bytes < 1024 ^ 4)
      ⊎ ((scaled bytes).unit ≡ 4) × (1024 ^ 4 ≤ bytes)
unfolding scale
scaled-unit bytes = ground arith

scaled-num :
    (bytes : ℕ) → ((scaled bytes).num ≡ bytes) × ((scaled bytes).den ≡ 1024 ^ (scaled bytes).unit)
unfolding scale
scaled-num bytes = ground arith

-- The tenths of a quotient are the nearest: off by half a tenth at most.
tenths_near :
    (v : Value)
    → 0 < v.den
    → (tenths v * v.den * 2 ≤ v.num * 20 + v.den)
      × (v.num * 20 + v.den < tenths v * v.den * 2 + v.den * 2)
unfolding tenths
tenths_near v h = grind arith

scaled-den : (bytes : ℕ) → 0 < (scaled bytes).den
unfolding scale
scaled-den bytes = ground arith

show_value_parts :
    (v : Value) (whole tenth unit : ℕ)
    → show_value v ≡ amount whole tenth unit
    → (whole * 10 + tenth ≡ tenths v) × (tenth < 10) × (unit ≡ v.unit)
show_value_parts v whole tenth unit e =
    let w : tenths v / 10 ≡ whole = cc e in
    let t : tenths v % 10 ≡ tenth = cc e in
    let u : v.unit ≡ unit = cc e in (omega (arith, w, t), omega (arith, t), sym u)

-- Ten times the whole part plus the digit, taken times the unit, against the size in tenths.
pub record IsNearest (bytes whole tenth unit : ℕ) : Type 0 where
  pub digit : tenth < 10
  pub unit_is : unit ≡ (scaled bytes).unit
  pub below : (whole * 10 + tenth) * 1024 ^ unit * 2 ≤ bytes * 20 + 1024 ^ unit
  pub above : bytes * 20 < (whole * 10 + tenth) * 1024 ^ unit * 2 + 1024 ^ unit

amount-IsNearest :
    (bytes whole tenth unit : ℕ)
    → show_value (scaled bytes) ≡ amount whole tenth unit
    → IsNearest bytes whole tenth unit
amount-IsNearest bytes whole tenth unit e =
    let (sum, digit, same) = show_value_parts (scaled bytes) whole tenth unit e in
    let (num, den) = scaled-num bytes in
    let (below, above) = tenths_near (scaled bytes) (scaled-den bytes) in
    record {
      digit = digit;
      unit_is = same;
      below = rw (sum, same, ← den) (omega (arith, below, num));
      above = rw (sum, same, ← den) (omega (arith, above, num));
    }

-- Where an amount is shown of a size, it is in the unit that `scaled` reaches, and ten times the whole part plus
-- the digit, taken times the unit, is the size in tenths, off by half a tenth at most.
pub format_bytes-IsNearest :
    (bytes whole tenth unit : ℕ)
    → format_bytes bytes ≡ amount whole tenth unit
    → IsNearest bytes whole tenth unit
unfolding format_bytes
format_bytes-IsNearest bytes whole tenth unit h = elim (Bool-cases (bytes == 0)) [
  | inl e ↦ cc (rw e at h)
  | inr e ↦ amount-IsNearest bytes whole tenth unit (rw e at h)
]
