-- ===== src/Auth/Second/Tests.antt =====
-- Three codes for one challenge.
use ctf_website.TwoFactor.Bounds.{answers_left}
use ctf_website.Samples.{factor_host, challenged_db}
use ctf_website.Auth.Second.Guesses.{Guess, wrong_codes, wrong_codes_lem}
use ctf_website.Base.{ℕ, ◌+◌, ◌≤◌, String, none, List, [], ◌∷◌}

abbrev guess : ℕ → String → Guess
guess at code = record { at = at; token = "token"; code = code }

abbrev three_guesses : List Guess
three_guesses = guess 2000 "123456" ∷ guess 3000 "654321" ∷ guess 4000 "000001" ∷ []

wrong_codes_lem_example :
    (wrong_codes factor_host (λ n. "some") "::1" none "chl_1" three_guesses challenged_db).0
      + answers_left "chl_1"
          (wrong_codes factor_host (λ n. "some") "::1" none "chl_1" three_guesses challenged_db).1
    ≤ answers_left "chl_1" challenged_db
wrong_codes_lem_example =
    wrong_codes_lem factor_host (λ n. "some") "::1" none "chl_1" three_guesses challenged_db
