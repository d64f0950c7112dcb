-- ===== src/Totp/Tests.antt =====
-- An app whose secret always has the code 000001.
use ctf_website.Base.Texts.{remove, is_space}
use ctf_website.Totp.{
  verify_totp, hotp, Mac, try_step, truncated, counter_at, same_digits, IsFresh,
  verify_totp_accepts, verify_totp-IsFresh,
}
use ctf_website.Base.{◌≡◌, refl, true, some, [], ◌∷◌, arith}

abbrev plain_mac : Mac
plain_mac secret counter = 0 ∷ 0 ∷ 0 ∷ 1 ∷ 0 ∷ []

verify_totp-IsFresh_example : IsFresh plain_mac "SECRET" "000 001" 90000 (some 3) 4
unfolding verify_totp try_step hotp truncated counter_at remove is_space same_digits
verify_totp-IsFresh_example =
    verify_totp-IsFresh plain_mac "SECRET" "000 001" 90000 (some 3) 4 (omega arith) refl

verify_totp_accepts_example : (verify_totp plain_mac "SECRET" "000 001" 90000 (some 3)).valid ≡ true
unfolding hotp truncated counter_at remove is_space same_digits
verify_totp_accepts_example =
    verify_totp_accepts plain_mac "SECRET" "000 001" 90000 (some 3) 4 refl
      (record { digits = refl; unspent = refl; no_earlier = omega arith; no_later = omega arith })
