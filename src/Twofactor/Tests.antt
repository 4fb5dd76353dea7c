-- ===== src/Twofactor/Tests.antt =====
-- One-time codes of a concrete secret, with the secret as its key and a sum of its own.
use mathlib.Core.Logic.{◌↔◌}
use scout_site.Prelude.{ℕ, ◌≡◌, refl, true, some, [], ◌∷◌, ◌++◌, arith}
use scout_site.Prelude.Text.{Bytes, codes, trim_by, trim_space, to_upper, byte_at}
use scout_site.Store.Sql.{ok}
use scout_site.Twofactor.{Primitives, big_endian, decimal, truncate, code, current_code, verify}
use scout_site.Twofactor.Drift.{Near, verify_iff, verify-current_code}

-- The last byte of the sum is 12, so the truncation reads the last four bytes of the counter.
abbrev some_primitives : Primitives
some_primitives = record {
  decode_base32 = λ s. some s;
  hmac_sha1 = λ key message. message ++ message ++ 1 ∷ 2 ∷ 3 ∷ 12 ∷ [];
}

abbrev secret : Bytes
secret = codes "JBSW"

current_code-run : current_code some_primitives 65 secret ≡ ok (codes "000002")
unfolding current_code code to_upper trim_space trim_by truncate byte_at decimal big_endian
current_code-run = refl

verify_iff_example : (verify some_primitives 95 secret (codes "000002 ") ≡ ok true) ↔ (
    (step : ℕ) × (Near some_primitives secret 95 step
      × (code some_primitives secret step ≡ ok (trim_space (codes "000002 ")))))
verify_iff_example = verify_iff some_primitives secret 95 (codes "000002 ")

verify-current_code_example : verify some_primitives 95 secret (codes "000002") ≡ ok true
verify-current_code_example =
    verify-current_code some_primitives secret 65 95 (codes "000002") (omega arith) (omega arith)
      current_code-run

-- A no-break space before a digit, a line separator and a tab after it.
spaces_trimmed : trim_space (194 ∷ 160 ∷ 55 ∷ 226 ∷ 128 ∷ 168 ∷ 9 ∷ []) ≡ 55 ∷ []
unfolding trim_space trim_by
spaces_trimmed = refl
