-- ===== src/Base/Strings.antt =====
-- Go strings are byte sequences, and so is []byte. `validRuntimeText` (execution_text.go) asks
-- for valid UTF-8, `validActivityDigest` (activity_integrity.go) for 64 lower-case hex digits.
use Prim.Native.Char.{code}
use Prim.Native.String.{String}
use flowy.Prelude.{
  ℕ, suc, ◌+◌, ◌-◌, ◌*◌, ◌/◌, ◌%◌, Bool, true, false, ◌&&◌, List, [], ◌∷◌, Option, none, some, leb,
  ltb, ◌==◌, Eq, nat_eq, eq_of_discrete, if◌then◌else◌, ℕ_discrete, ◌≡◌, refl,
}

abbrev pub Bytes : Type 0
Bytes = List ℕ

abbrev pub Text : Type 0
Text = List ℕ

unfoldable pub text_discrete : Discrete Text
unfolding ℕ_discrete
text_discrete = hlevel ℕ_discrete

instance abbrev pub text_eq : Eq Text
text_eq = eq_of_discrete text_discrete

-- A literal of the source, all ASCII.
abbrev pub text : String → Text
text String.[] = []
text (String.◌∷◌ c s) = code c ∷ text s

-- What a lead byte asks of the bytes that follow: their number, and the range of the first.
record Tail : Type 0 where
  count : ℕ
  lo : ℕ
  hi : ℕ

abbrev between : ℕ → ℕ → ℕ → Bool
between lo hi b = leb lo b && leb b hi

abbrev tail : ℕ → ℕ → ℕ → Option Tail
tail count lo hi = some (record { count = count; lo = lo; hi = hi })

lead : ℕ → Option Tail
lead b =
    if ltb b 0x80
    then tail 0 0x80 0xbf
    else if between 0xc2 0xdf b
    then tail 1 0x80 0xbf
    else if b == 0xe0
    then tail 2 0xa0 0xbf
    else if b == 0xed
    then tail 2 0x80 0x9f
    else if between 0xe1 0xef b
    then tail 2 0x80 0xbf
    else if b == 0xf0
    then tail 3 0x90 0xbf
    else if b == 0xf4
    then tail 3 0x80 0x8f
    else if between 0xf1 0xf3 b
    then tail 3 0x80 0xbf
    else none

follow : Tail → ℕ → Option Tail
unfolding lead
follow t b =
    if t.count == 0
    then lead b
    else if between t.lo t.hi b
    then tail (t.count - 1) 0x80 0xbf
    else none

-- utf8.ValidString, as a machine over the bytes.
utf8_from : Option Tail → Bytes → Bool
unfolding follow
utf8_from none s = false
utf8_from (some t) [] = t.count == 0
utf8_from (some t) (b ∷ s) = utf8_from (follow t b) s

unfoldable pub valid_text : Text → Bool
unfolding utf8_from
valid_text s = utf8_from (tail 0 0x80 0xbf) s

unfoldable pub valid_runtime_text : List Text → Bool
valid_runtime_text [] = true
valid_runtime_text (s ∷ rest) = valid_text s && valid_runtime_text rest

-- hex.DecodeString takes both cases, hex.EncodeToString writes lower case.
nibble : ℕ → Option ℕ
nibble c =
    if between b'0' b'9' c
    then some (c - b'0')
    else if between b'a' b'f' c
    then some (c - b'a' + 10)
    else if between b'A' b'F' c
    then some (c - b'A' + 10)
    else none

digit : ℕ → ℕ
digit n = if ltb n 10 then n + b'0' else n - 10 + b'a'

byte_of : Option ℕ → Option ℕ → Option Bytes → Option Bytes
byte_of (some h) (some l) (some rest) = some ((h * 16 + l) ∷ rest)
byte_of _ _ _ = none

hex_decode : Text → Option Bytes
unfolding nibble byte_of
hex_decode [] = some []
hex_decode (c ∷ []) = none
hex_decode (c ∷ d ∷ rest) = byte_of (nibble c) (nibble d) (hex_decode rest)

hex_encode : Bytes → Text
unfolding digit
hex_encode [] = []
hex_encode (b ∷ rest) = digit (b / 16) ∷ digit (b % 16) ∷ hex_encode rest

byte_count : Bytes → ℕ
byte_count [] = 0
byte_count (_ ∷ rest) = suc (byte_count rest)

unfoldable pub valid_activity_digest : Text → Bool
unfolding hex_decode hex_encode byte_count text_discrete
valid_activity_digest value = elim (hex_decode value) [
  | none ↦ false
  | some decoded ↦ byte_count decoded == 32 && hex_encode decoded == value
]

utf8_samples :
    (valid_text (text "flowy") ≡ true)
    × (valid_text (0xd0 ∷ 0xaf ∷ []) ≡ true)
    × (valid_text (0xc0 ∷ 0xaf ∷ []) ≡ false)
    × (valid_text (0xed ∷ 0xa0 ∷ 0x80 ∷ []) ≡ false)
unfolding valid_text
utf8_samples = (refl, refl, refl, refl)

digest_samples :
    (valid_activity_digest (text "0123456789abcdef0123456789abcdef0123456789abcdef0123456789abcdef")
      ≡ true)
    × (valid_activity_digest
          (text "0123456789ABCDEF0123456789abcdef0123456789abcdef0123456789abcdef")
        ≡ false)
    × (valid_activity_digest (text "0123") ≡ false)
unfolding valid_activity_digest
digest_samples = (refl, refl, refl)
