-- ===== src/Auth/Passwords.antt =====
-- ValidatePasswordComplexity, HashPassword and VerifyPassword of internal/auth/auth.go.
use scout_site.Prelude.{ℕ, ◌+◌, Bool, true, false, List, [], ◌∷◌, ltb, if◌then◌else◌, length}
use scout_site.Prelude.Text.{Bytes}
use scout_site.Store.Logins.{User}
use scout_site.Store.Sql.{Result, ok, err, password_too_short, password_too_simple}
use scout_site.Auth.{Crypto}

-- The classes of package unicode that the code asks for.
pub record Unicode : Type 0 where
  pub is_lower : ℕ → Bool
  pub is_upper : ℕ → Bool
  pub is_digit : ℕ → Bool
  pub is_space : ℕ → Bool

pub record Classes : Type 0 where
  pub has_lower : Bool
  pub has_upper : Bool
  pub has_digit : Bool
  pub has_symbol : Bool

abbrev pub min_password_length : ℕ
min_password_length = 8

module _ (u : Unicode) where
  -- The switch on one character.
  abbrev pub see : ℕ → Classes → Classes
  see r seen =
      if u.is_lower r
      then record seen { has_lower = true }
      else (if u.is_upper r
          then record seen { has_upper = true }
          else (if u.is_digit r
              then record seen { has_digit = true }
              else (if u.is_space r then seen else record seen { has_symbol = true })))

  unfoldable pub see_all : List ℕ → Classes → Classes
  see_all [] seen = seen
  see_all (r ∷ rs) seen = see_all rs (see r seen)

abbrev pub one_if : Bool → ℕ
one_if b = if b then 1 else 0

unfoldable pub count_classes : Classes → ℕ
count_classes c =
    one_if c.has_lower + (one_if c.has_upper + (one_if c.has_digit + one_if c.has_symbol))

abbrev pub no_classes : Classes
no_classes = record { has_lower = false; has_upper = false; has_digit = false; has_symbol = false }

-- A password as its bytes, which are counted, and its characters, which are classified.
unfoldable pub validate_password_complexity : Unicode → Bytes → List ℕ → Result (Unit {0})
unfolding see_all count_classes
validate_password_complexity u bytes runes =
    if ltb (length bytes) min_password_length
    then err password_too_short
    else (if ltb (count_classes (see_all u runes no_classes)) 3
        then err password_too_simple
        else ok tt)

unfoldable pub verify_password : Crypto → User → Bytes → Bool
verify_password c u plaintext = c.matches u.password_hash plaintext
