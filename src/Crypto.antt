-- ===== src/Crypto.antt =====
-- app/worker/lib/crypto.ts: the comparison in constant time. The digests are WebCrypto's.
pub mod Password
use ctf_website.Base.{
  ℕ, ◌≡◌, ◌↔◌, refl, String, Bool, true, ◌&&◌, List, [], ◌∷◌, ◌==◌, arith, length,
}
use ctf_website.Base.Texts.{codes}

-- Hexadecimal digests of a text, and of a text under a key.
pub record Digests : Type 0 where
  pub sha256_hex : String → String
  pub hmac_sha256_hex : String → String → String

-- The loop over the code units of the first digest: whether no pair differed. Behind the end of
-- the second digest `charCodeAt` is NaN, which `^` reads as 0.
same_codes : List ℕ → List ℕ → Bool
same_codes [] bs = true
same_codes (a ∷ as') [] = a == 0 && same_codes as' []
same_codes (a ∷ as') (b ∷ bs) = a == b && same_codes as' bs

module _ (digests : Digests) where
  unfoldable pub timing_safe_equal : String → String → Bool
  unfolding same_codes
  timing_safe_equal a b = same_codes (codes (digests.sha256_hex a)) (codes (digests.sha256_hex b))

same_codes_iff :
    (as' bs : List ℕ) → length as' ≡ length bs → (same_codes as' bs ≡ true) ↔ (as' ≡ bs)
unfolding same_codes
same_codes_iff [] [] h = (λ _. refl, λ _. refl)
same_codes_iff [] (b ∷ bs) h = absurd (omega arith)
same_codes_iff (a ∷ as') [] h = absurd (omega arith)
same_codes_iff (a ∷ as') (b ∷ bs) h = ground (arith, same_codes_iff as' bs)
