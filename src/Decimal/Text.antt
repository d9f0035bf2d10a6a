-- ===== src/Decimal/Text.antt =====
-- `Parse` and `Format`. A string is the list of its bytes.
pub mod Reading
pub mod Printing
pub mod Digits
pub mod RoundTrip
mod Tests
use ydb_go_sdk.Base.{
  Bool, List, Result, [], bind_ok, err, false, if◌then◌else◌, leb, length, ltb, not, ok, panic, suc,
  true, zero, ℕ, ◌%◌, ◌&&◌, ◌*◌, ◌+◌, ◌-◌, ◌/◌, ◌==◌, ◌^◌, ◌||◌, ◌∷◌,
}
use ydb_go_sdk.Decimal.{BigInt, inf_abs, is_inf, is_nan, nan_abs, negate, nonneg, pow}

abbrev pub Text : Type 0
Text = List ℕ

abbrev pub digit : ℕ → ℕ
digit d = 48 + d

abbrev pub dot_byte : ℕ
dot_byte = 46

abbrev pub minus_byte : ℕ
minus_byte = 45

abbrev pub plus_byte : ℕ
plus_byte = 43

abbrev pub is_digit : ℕ → Bool
is_digit c = leb 48 c && leb c 57

-- A letter, small or capital.
abbrev pub is_cased : ℕ → ℕ → Bool
is_cased l c = c == l || c + 32 == l

unfoldable pub is_inf_text : Text → Bool
is_inf_text (a ∷ b ∷ c ∷ cs) = is_cased 105 a && (is_cased 110 b && is_cased 102 c)
is_inf_text cs = false

unfoldable pub is_nan_text : Text → Bool
is_nan_text (a ∷ b ∷ c ∷ cs) = is_cased 110 a && (is_cased 97 b && is_cased 110 c)
is_nan_text cs = false

-- `syntaxError` and `precisionError`, with the input that they keep
pub data ParseError : Type 0 where
  syntax_error : Text → ParseError
  precision_error : Text → ℕ → ℕ → ParseError

-- How the loop of `Parse` ends: behind the number, with what is left of the scale and of the text;
-- with too many digits before the dot; or at a byte that has no place there.
pub data Scanned : Type 0 where
  stopped : ℕ → ℕ → Text → Scanned
  too_large : Scanned
  misplaced : Text → Scanned

-- `integral--`, which wraps
abbrev pub decr_32 : ℕ → ℕ
decr_32 i = (i + (2 ^ 32 - 1)) % 2 ^ 32

unfoldable pub parse_loop : Text → ℕ → Bool → ℕ → ℕ → Scanned
parse_loop [] v dot scale integral = stopped v scale []
parse_loop (c ∷ cs) v dot scale integral =
    let w = v * 10 + (c - 48) in
    let behind_dot = parse_loop cs v true scale integral in
    let behind_digit = parse_loop cs w dot (if dot then scale - 1 else scale) (decr_32 integral) in
    if c == dot_byte
    then if dot then misplaced (c ∷ cs) else behind_dot
    else if dot && scale == 0
    then stopped v scale (c ∷ cs)
    else if not (is_digit c)
    then misplaced (c ∷ cs)
    else if not dot && (ltb 0 w && integral == 0)
    then too_large
    else behind_digit

-- The loop over the bytes behind a 5: whether one of them is not 0.
unfoldable pub tie_loop : Text → Result ParseError Bool
tie_loop [] = ok false
tie_loop (c ∷ cs) =
    let rest = tie_loop cs in
    if not (is_digit c) then err (syntax_error (c ∷ cs)) else if c == 48 then rest else ok true

-- `plus`: whether the bytes that remain round the number up.
unfoldable pub rounds_up : ℕ → Text → Result ParseError Bool
unfolding tie_loop
rounds_up v [] = ok false
rounds_up v (c ∷ cs) =
    if not (is_digit c)
    then err (syntax_error (c ∷ cs))
    else if ltb 53 c
    then ok true
    else if c == 53
    then if v % 2 == 1 then ok true else tie_loop cs
    else ok false

abbrev pub signed : Bool → BigInt → BigInt
signed neg v = if neg then negate v else v

unfoldable pub rounded : ℕ → ℕ → Bool → ℕ
unfolding pow
rounded precision v plus =
    if plus then if leb (pow 10 precision) (v + 1) then inf_abs else v + 1 else v

-- What `Parse` does behind its loop.
unfoldable pub end_parse : ℕ → Bool → Scanned → Result ParseError BigInt
unfolding rounds_up rounded pow
end_parse precision neg (stopped v scale rest) =
    bind_ok (rounds_up v rest)
      (λ plus. ok (signed neg (nonneg (rounded precision v plus * pow 10 scale))))
end_parse precision neg too_large = ok (record { negative = neg; abs = inf_abs })
end_parse precision neg (misplaced rest) = err (syntax_error rest)

unfoldable pub parse_unsigned : Text → ℕ → ℕ → Bool → Result ParseError BigInt
unfolding is_inf_text is_nan_text parse_loop end_parse
parse_unsigned s precision scale neg =
    if is_inf_text s
    then ok (record { negative = neg; abs = inf_abs })
    else if is_nan_text s
    then ok (record { negative = neg; abs = nan_abs })
    else end_parse precision neg (parse_loop s 0 false scale (precision - scale))

unfoldable pub parse : Text → ℕ → ℕ → Result ParseError BigInt
unfolding parse_unsigned
parse s precision scale =
    if ltb precision scale then err (precision_error s precision scale) else elim s [
      | [] ↦ ok (nonneg 0)
      | c ∷ cs ↦
          if c == minus_byte || c == plus_byte
          then parse_unsigned cs precision scale (c == minus_byte)
          else parse_unsigned (c ∷ cs) precision scale false
    ]

-- `Format` fills an array of 40 bytes from its end; a byte before its beginning is a panic, and
-- `err` the early return of `<error>`.
abbrev pub buffer_size : ℕ
buffer_size = 40

unfoldable pub put_byte : ℕ → Text → Result (Unit {0}) Text
put_byte c bts = if length bts == buffer_size then panic else ok (c ∷ bts)

abbrev pub put_digit : ℕ → ℕ → Text → Result (Unit {0}) Text
unfolding put_byte
put_digit d scale bts =
    if not (d == 0) || (scale == 0 || ltb (length bts) buffer_size)
    then put_byte (digit d) bts
    else ok bts

abbrev pub put_dot : ℕ → Text → Result (Unit {0}) Text
unfolding put_byte
put_dot scale bts =
    if scale == 1 && ltb (length bts) buffer_size then put_byte dot_byte bts else ok bts

-- The loop over the digits, with what it leaves of the precision and the scale.
unfoldable pub format_loop : ℕ → ℕ → ℕ → ℕ → Text → Result (Unit {0}) (ℕ × ℕ × Text)
unfolding put_digit put_dot
format_loop zero v precision scale bts = ok (precision, scale, bts)
format_loop (suc fuel) v precision scale bts =
    let rest = λ (b : Text). format_loop fuel (v / 10) (precision - 1) (scale - 1) b in
    if v == 0
    then ok (precision, scale, bts)
    else if precision == 0
    then err tt
    else bind_ok (put_digit (v % 10) scale bts) (λ b. bind_ok (put_dot scale b) rest)

-- The loop that pads with zeros.
unfoldable pub pad_loop : ℕ → ℕ → Text → Result (Unit {0}) Text
unfolding put_byte
pad_loop zero precision bts = ok bts
pad_loop (suc scale) precision bts =
    let rest = λ (b : Text). pad_loop scale (precision - 1) b in
    if precision == 0 then err tt else bind_ok (put_byte 48 bts) rest

abbrev pub put_padding : ℕ × ℕ × Text → Result (Unit {0}) Text
unfolding pad_loop put_byte
put_padding (precision, scale, bts) =
    if scale == 0 then ok bts else bind_ok (pad_loop scale precision bts) (put_byte dot_byte)

-- `bts[pos]`, which is out of range if nothing was written
abbrev pub put_zero : Text → Result (Unit {0}) Text
unfolding put_byte
put_zero [] = panic
put_zero (c ∷ bts) = if c == dot_byte then put_byte 48 (c ∷ bts) else ok (c ∷ bts)

abbrev pub put_sign : Bool → Text → Result (Unit {0}) Text
unfolding put_byte
put_sign neg bts = if neg then put_byte minus_byte bts else ok bts

abbrev pub or_tag : Result (Unit {0}) Text → Result (Unit {0}) Text
or_tag (err e) = ok (60 ∷ 101 ∷ 114 ∷ 114 ∷ 111 ∷ 114 ∷ 62 ∷ [])
or_tag r = r

unfoldable pub format : BigInt → ℕ → ℕ → Result (Unit {0}) Text
unfolding format_loop put_padding put_zero put_sign is_inf is_nan
format x precision scale =
    let tagged = λ (t : Text). if x.negative then minus_byte ∷ t else t in
    if is_inf x
    then ok (tagged (105 ∷ 110 ∷ 102 ∷ []))
    else if is_nan x
    then ok (tagged (110 ∷ 97 ∷ 110 ∷ []))
    else or_tag (
        bind_ok (format_loop x.abs x.abs precision scale [])
          (λ r. bind_ok (put_padding r) (λ b. bind_ok (put_zero b) (put_sign x.negative))))
