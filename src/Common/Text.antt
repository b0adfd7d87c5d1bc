-- ===== src/Common/Text.antt =====
-- Python's `str` as its code points, with the methods that the services call on it: `strip`,
-- `upper`, `len`, `==`, `<`, and a full match of the identifier pattern.
use Prim.Native.Nat.{ℕ, ◌+◌, ◌-◌}
use mathlib.Core.Path.{◌≡◌, refl}
use mathlib.Core.Logic.{◌↔◌}
use mathlib.Core.Bool.{Bool, true, false, ◌&&◌, ◌||◌}
use mathlib.Core.List.{List, [], ◌∷◌, ◌++◌, reverse}
use Prim.Native.String.{String}
use Prim.Native.Char.{code}
use native.Mathlib.Omega.{arith}
use event_ticketing_soa.Common.Tests.{leb, ltb, ◌==◌, if◌then◌else◌}
use event_ticketing_soa.Common.Lists.{length}

abbrev pub Text : Type 0
Text = List ℕ

-- The code points of a literal.
abbrev pub codes : String → Text
codes String.[] = []
codes (String.◌∷◌ c s) = code c ∷ codes s

-- `str.isspace` at a code point.
pub is_space : ℕ → Bool
is_space c =
    (leb 9 c && leb c 13)
    || (leb 28 c && leb c 32)
    || (leb 0x2000 c && leb c 0x200A)
    || c == 0x85
    || c == 0xA0
    || c == 0x1680
    || c == 0x2028
    || c == 0x2029
    || c == 0x202F
    || c == 0x205F
    || c == 0x3000

unfoldable pub lstrip : Text → Text
unfolding is_space
lstrip [] = []
lstrip (c ∷ s) = if is_space c then lstrip s else c ∷ s

unfoldable pub strip : Text → Text
unfolding lstrip
strip s = reverse (lstrip (reverse (lstrip s)))

abbrev pub is_upper_ascii : ℕ → Bool
is_upper_ascii c = leb b'A' c && leb c b'Z'

abbrev pub is_lower_ascii : ℕ → Bool
is_lower_ascii c = leb b'a' c && leb c b'z'

abbrev pub is_digit : ℕ → Bool
is_digit c = leb b'0' c && leb c b'9'

-- `[A-Za-z0-9]`
abbrev pub is_alnum : ℕ → Bool
is_alnum c = is_upper_ascii c || is_lower_ascii c || is_digit c

-- `[A-Za-z0-9._:-]`
abbrev pub is_identifier_char : ℕ → Bool
is_identifier_char c = is_alnum c || c == b'.' || c == b'_' || c == b':' || c == b'-'

pub all_chars : (ℕ → Bool) → Text → Bool
all_chars p [] = true
all_chars p (c ∷ s) = p c && all_chars p s

-- `^[A-Za-z0-9][A-Za-z0-9._:-]{0,127}$`, matched against the whole text.
unfoldable pub matches_identifier : Text → Bool
unfolding all_chars
matches_identifier [] = false
matches_identifier (c ∷ s) = is_alnum c && all_chars is_identifier_char s && leb (length s) 127

-- `^[A-Z]{3}$`, matched against the whole text.
unfoldable pub matches_currency : Text → Bool
unfolding all_chars
matches_currency s = all_chars is_upper_ascii s && length s == 3

-- `str.upper` at a code point, as far as the currency pattern reads it: the characters outside
-- ASCII whose upper case is ASCII are listed, and any other stands for itself, since its upper case
-- holds a character outside ASCII.
unfoldable pub upper_char : ℕ → Text
upper_char c =
    if is_lower_ascii c
    then (c - 32) ∷ []
    else if c == 0xDF
    then b'S' ∷ b'S' ∷ []
    else if c == 0x131
    then b'I' ∷ []
    else if c == 0x17F
    then b'S' ∷ []
    else if c == 0xFB00
    then b'F' ∷ b'F' ∷ []
    else if c == 0xFB01
    then b'F' ∷ b'I' ∷ []
    else if c == 0xFB02
    then b'F' ∷ b'L' ∷ []
    else if c == 0xFB03
    then b'F' ∷ b'F' ∷ b'I' ∷ []
    else if c == 0xFB04
    then b'F' ∷ b'F' ∷ b'L' ∷ []
    else if c == 0xFB05
    then b'S' ∷ b'T' ∷ []
    else if c == 0xFB06
    then b'S' ∷ b'T' ∷ []
    else c ∷ []

unfoldable pub upper : Text → Text
unfolding upper_char
upper [] = []
upper (c ∷ s) = upper_char c ++ upper s

-- `==` on texts.
unfoldable pub text_eq : Text → Text → Bool
text_eq [] [] = true
text_eq (c ∷ s) (d ∷ t) = c == d && text_eq s t
text_eq _ _ = false

pub text_eq_iff : (s t : Text) → (text_eq s t ≡ true) ↔ (s ≡ t)
unfolding text_eq
text_eq_iff [] [] = (λ _. refl, λ _. refl)
text_eq_iff [] (d ∷ t) = (λ h. cc, λ h. cc)
text_eq_iff (c ∷ s) [] = (λ h. cc, λ h. cc)
text_eq_iff (c ∷ s) (d ∷ t) = ground (arith, text_eq_iff s t)

pub text_eq_refl : (s : Text) → text_eq s s ≡ true
text_eq_refl s = (text_eq_iff s s).1 refl

-- `<=` on texts, by code points.
unfoldable pub text_le : Text → Text → Bool
text_le [] t = true
text_le (c ∷ s) [] = false
text_le (c ∷ s) (d ∷ t) = ltb c d || (c == d && text_le s t)

-- `t in seen`
unfoldable pub mem_text : Text → List Text → Bool
mem_text t [] = false
mem_text t (x ∷ xs) = text_eq t x || mem_text t xs

-- `str.lower` at a code point, as far as a comparison with an ASCII text reads it: the one
-- character outside ASCII whose lower case is ASCII is the Kelvin sign.
unfoldable pub lower_char : ℕ → ℕ
lower_char c = if is_upper_ascii c then c + 32 else if c == 0x212A then b'k' else c

unfoldable pub lower : Text → Text
unfolding lower_char
lower [] = []
lower (c ∷ s) = lower_char c ∷ lower s
