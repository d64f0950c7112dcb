-- ===== src/Http/Tests.antt =====
-- A body in two chunks, within its limit and over it.
use ctf_website.Http.{err}
use ctf_website.Base.{none, ◌≡◌, ◌∷◌, [], arith}
use ctf_website.Http.Body.{read_body, Body, payload_too_large, read_body_over}

abbrev two_chunks : Body
two_chunks = record {
  declared = none;
  chunks = record { byte_length = 3; text = "abc" } ∷ record { byte_length = 2; text = "de" } ∷ [];
}

read_body_over_example : read_body 4 two_chunks ≡ err payload_too_large
read_body_over_example = read_body_over 4 two_chunks (omega arith)
