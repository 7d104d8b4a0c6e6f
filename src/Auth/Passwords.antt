-- ===== src/Auth/Passwords.antt =====
-- `ValidatePassword` of gateway/internal/auth/password.go. A password is the list of its code points.
use one_click_agent.Prelude.{
  ℕ, ◌+◌, Bool, true, false, ◌&&◌, not, Option, none, some, List, [], ◌∷◌, ltb, leb, if◌then◌else◌,
}

abbrev pub Password : Type 0
Password = List ℕ

-- The bytes of a code point in UTF-8.
abbrev pub rune_len : ℕ → ℕ
rune_len c = if ltb c 0x80 then 1 else if ltb c 0x800 then 2 else if ltb c 0x10000 then 3 else 4

abbrev pub byte_len : Password → ℕ
byte_len [] = 0
byte_len (c ∷ cs) = rune_len c + byte_len cs

abbrev pub is_upper : ℕ → Bool
is_upper c = leb b'A' c && leb c b'Z'

abbrev pub is_lower : ℕ → Bool
is_lower c = leb b'a' c && leb c b'z'

abbrev pub is_digit : ℕ → Bool
is_digit c = leb b'0' c && leb c b'9'

-- The four flags of the loop.
pub record Seen : Type 0 where
  pub has_upper : Bool
  pub has_lower : Bool
  pub has_digit : Bool
  pub has_special : Bool

abbrev pub nothing_seen : Seen
nothing_seen = record {
  has_upper = false;
  has_lower = false;
  has_digit = false;
  has_special = false;
}

abbrev pub see : ℕ → Seen → Seen
see c s =
    if is_upper c
    then record s { has_upper = true }
    else if is_lower c
    then record s { has_lower = true }
    else if is_digit c
    then record s { has_digit = true }
    else record s { has_special = true }

unfoldable pub scan : Password → Seen → Seen
scan [] s = s
scan (c ∷ cs) s = scan cs (see c s)

pub data PasswordError : Type 0 where
  too_short no_upper no_lower no_digit no_special : PasswordError

abbrev pub judge : Seen → Option PasswordError
judge s =
    if not s.has_upper
    then some no_upper
    else if not s.has_lower
    then some no_lower
    else if not s.has_digit
    then some no_digit
    else if not s.has_special
    then some no_special
    else none

-- `none` is a password that is accepted.
unfoldable pub validate_password : Password → Option PasswordError
validate_password p = if ltb (byte_len p) 12 then some too_short else judge (scan p nothing_seen)
