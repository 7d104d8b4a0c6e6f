-- ===== src/Auth/Strength.antt =====
-- Which passwords are accepted: gateway/internal/auth/password.go.
use one_click_agent.Prelude.{
  ℕ, Bool, false, ◌&&◌, ◌||◌, not, [], ◌∷◌, leb, is_some, arith, ◌≡◌, ◌≤◌, ◌*◌, length,
}
use one_click_agent.Auth.Passwords.{
  Password, byte_len, is_upper, is_lower, is_digit, Seen, nothing_seen, see, scan,
  validate_password,
}

abbrev pub contains : (ℕ → Bool) → Password → Bool
contains p [] = false
contains p (c ∷ cs) = p c || contains p cs

abbrev pub is_special : ℕ → Bool
is_special c = not (is_upper c) && not (is_lower c) && not (is_digit c)

scan-Seen :
    (p : Password) (s : Seen)
    → scan p s ≡ record {
      has_upper = s.has_upper || contains is_upper p;
      has_lower = s.has_lower || contains is_lower p;
      has_digit = s.has_digit || contains is_digit p;
      has_special = s.has_special || contains is_special p;
    }
unfolding scan
scan-Seen [] s = ground arith
scan-Seen (c ∷ cs) s = ground (arith, scan-Seen cs (see c s))

byte_len-bounds : (p : Password) → (length p ≤ byte_len p) × (byte_len p ≤ length p * 4)
byte_len-bounds [] = (omega arith, omega arith)
byte_len-bounds (c ∷ cs) = ground (arith, byte_len-bounds cs)

-- A password is accepted exactly if it has twelve bytes at least in UTF-8, and among its characters
-- an upper case letter, a lower case letter and a digit of ASCII, and one that is none of these.
-- Twelve characters are always enough of them; twelve bytes may be as few as three characters.
pub validate_password-accepts :
    (p : Password)
    → (not (is_some (validate_password p)) ≡ (
        leb 12 (byte_len p)
        && (contains is_upper p
            && (contains is_lower p && (contains is_digit p && contains is_special p)))))
      × ((12 ≤ length p → 12 ≤ byte_len p) × (12 ≤ byte_len p → 3 ≤ length p))
unfolding validate_password
validate_password-accepts p =
    let (low, high) = byte_len-bounds p in
    (rw (scan-Seen p nothing_seen) (ground arith), (λ h. omega arith, λ h. omega arith))
