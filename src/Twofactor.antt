-- ===== src/Twofactor.antt =====
-- One-time codes, internal/twofactor/totp.go.
pub mod Drift
mod Tests
use mathlib.Core.List.{reverse}
use scout_site.Prelude.{
  ℕ, zero, suc, ◌+◌, ◌-◌, ◌*◌, ◌/◌, ◌%◌, ◌^◌, Bool, true, false, ◌&&◌, Option, none, some, List, [],
  ◌∷◌, ◌++◌, ltb, leb, ◌==◌, if◌then◌else◌, length, take, drop,
}
use scout_site.Prelude.Text.{Bytes, codes, same_bytes, trim_space, to_upper, byte_at}
use scout_site.Store.Sql.{Result, ok, err, bad_secret, random_failed}

abbrev pub digits : ℕ
digits = 6

abbrev pub step_seconds : ℕ
step_seconds = 30

-- What the package uses of the standard library: the decoding of base32 text without padding, and
-- HMAC-SHA1.
pub record Primitives : Type 0 where
  pub decode_base32 : Bytes → Option Bytes
  pub hmac_sha1 : Bytes → Bytes → Bytes

-- binary.BigEndian.PutUint64, from the byte `n - 1` down.
unfoldable pub big_endian : ℕ → ℕ → Bytes
big_endian zero x = []
big_endian (suc n) x = ((x / 256 ^ n) % 256) ∷ big_endian n x

-- Dynamic truncation, RFC 4226 Section 5.3.
unfoldable pub truncate : Bytes → ℕ
unfolding byte_at
truncate sum =
    let offset = byte_at (length sum - 1) sum % 16 in
    (byte_at offset sum % 128) * 16_777_216
    + (byte_at (offset + 1) sum * 65_536
        + (byte_at (offset + 2) sum * 256 + byte_at (offset + 3) sum))

-- `fmt.Sprintf("%0*d", digits, n)` of a number below 10 ^ digits.
unfoldable pub decimal : ℕ → ℕ → Bytes
decimal zero n = []
decimal (suc k) n = (48 + (n / 10 ^ k) % 10) ∷ decimal k n

module _ (p : Primitives) where
  abbrev pub of_key : ℕ → Option Bytes → Result Bytes
  of_key counter none = err bad_secret
  of_key counter (some key) =
      ok (decimal digits (truncate (p.hmac_sha1 key (big_endian 8 counter)) % 10 ^ digits))

  unfoldable pub code : Bytes → ℕ → Result Bytes
  unfolding truncate decimal big_endian to_upper
  code secret counter = of_key counter (p.decode_base32 (to_upper (trim_space secret)))

  unfoldable pub current_code : ℕ → Bytes → Result Bytes
  current_code now secret = code secret (now / step_seconds)

  -- The loop over the candidate steps.
  unfoldable pub match_steps : Bytes → Bytes → List ℕ → Result Bool
  match_steps secret submitted [] = ok false
  match_steps secret submitted (step ∷ steps) = elim (code secret step) [
    | err e ↦ err e
    | ok want ↦
        let rest = match_steps secret submitted steps in
        if same_bytes want submitted then ok true else rest
  ]

  -- The steps accepted at a time: this one, the next, and the previous if there is one.
  abbrev pub steps_at : ℕ → List ℕ
  steps_at step = step ∷ (step + 1) ∷ (if ltb 0 step then (step - 1) ∷ [] else [])

  unfoldable pub verify : ℕ → Bytes → Bytes → Result Bool
  unfolding match_steps
  verify now secret submitted =
      if length (trim_space submitted) == digits
      then match_steps secret (trim_space submitted) (steps_at (now / step_seconds))
      else ok false

-- The separator of the display comes before every fourth character but the first.
unfoldable pub grouped : ℕ → Bytes → Bytes
grouped i [] = []
grouped i (c ∷ s) =
    let rest = grouped (i + 1) s in
    if (if ltb 0 i then i % 4 == 0 else false) then 32 ∷ c ∷ rest else c ∷ rest

unfoldable pub format_secret_for_display : Bytes → Bytes
unfolding grouped
format_secret_for_display secret = grouped 0 secret

abbrev pub backup_code_alphabet : Bytes
backup_code_alphabet = codes "ABCDEFGHJKLMNPQRSTUVWXYZ23456789"

abbrev pub character : ℕ → ℕ
character v = byte_at (v % length backup_code_alphabet) backup_code_alphabet

unfoldable pub characters : Bytes → Bytes
unfolding byte_at
characters [] = []
characters (v ∷ vs) = character v ∷ characters vs

-- From the ten bytes that were drawn, if they were.
unfoldable pub generate_backup_code : Option Bytes → Result Bytes
unfolding characters
generate_backup_code none = err random_failed
generate_backup_code (some raw) =
    ok (take 5 (characters (take 10 raw)) ++ 45 ∷ drop 5 (characters (take 10 raw)))
