-- ===== src/Crypto/Password.antt =====
-- app/worker/lib/crypto.ts: stored passwords. PBKDF2, the coding in base 64 and `Number.parseInt`
-- are the runtime's.
use ctf_website.Base.Texts.{split_on}
use ctf_website.Crypto.{Digests, timing_safe_equal}
use ctf_website.Base.{
  ℕ, String, Bool, true, false, ◌&&◌, ◌||◌, Option, none, some, List, [], ◌∷◌, ltb, if◌then◌else◌,
  or_else, str_eq,
}

pub record PasswordHost : Type 0 where
  pub digests : Digests
  pub parse_int : String → Option ℕ
  -- The derived bits in base 64, if the salt is base 64.
  pub pbkdf2 : (password salt : String) → ℕ → Option String
  pub hash_password : (password : String) → Option ℕ → String

abbrev pub default_iterations : ℕ
default_iterations = 210000

module _ (host : PasswordHost) where
  abbrev pub compare_derived : Option String → String → Bool
  compare_derived none expected = false
  compare_derived (some derived) expected = timing_safe_equal host.digests derived expected

  abbrev pub verify_iterations : Option ℕ → (password salt expected : String) → Bool
  verify_iterations none password salt expected = false
  verify_iterations (some iterations) password salt expected =
      if ltb iterations 1000 || ltb 5000000 iterations
      then false
      else compare_derived (host.pbkdf2 password salt iterations) expected

  abbrev pub verify_parts : String → List String → Bool
  verify_parts password (scheme ∷ hash ∷ iterations ∷ salt ∷ expected ∷ []) =
      if str_eq scheme "pbkdf2" && str_eq hash "sha256"
      then verify_iterations (host.parse_int iterations) password salt expected
      else false
  verify_parts password parts = false

  unfoldable pub verify_password : (password stored : String) → Bool
  verify_password password stored = verify_parts password (split_on b'$' stored)

  abbrev pub weaker : Option ℕ → ℕ → Bool
  weaker none iterations = false
  weaker (some used) iterations = ltb used iterations

  abbrev pub parts_need_rehash : List String → ℕ → Bool
  parts_need_rehash (scheme ∷ hash ∷ used ∷ salt ∷ expected ∷ []) iterations =
      weaker (host.parse_int used) iterations
  parts_need_rehash parts iterations = true

  unfoldable pub needs_rehash : String → Option ℕ → Bool
  needs_rehash stored iterations =
      parts_need_rehash (split_on b'$' stored) (or_else iterations default_iterations)
