-- ===== src/RateLimit/Tests.antt =====
-- Six codes from one address within a quarter of an hour, with another address between them.
use ctf_website.Samples.{empty_db}
use ctf_website.RateLimit.{hits_before, Requests, two_factor_rule, admitted, asked, admitted_lem}
use ctf_website.Base.{◌+◌, min, ◌≡◌, [], ◌∷◌}

abbrev six_codes : Requests
six_codes =
    ("ip:1", 900001)
    ∷ ("ip:1", 900002)
    ∷ ("ip:2", 900002)
    ∷ ("ip:1", 900003)
    ∷ ("ip:1", 900004)
    ∷ ("ip:1", 900005)
    ∷ ("ip:1", 900006)
    ∷ []

admitted_lem_example :
    min (hits_before two_factor_rule "wait" "ip:1" 900000 empty_db) 5
      + admitted two_factor_rule "wait" "ip:1" 900000 six_codes empty_db
    ≡ min
        (hits_before two_factor_rule "wait" "ip:1" 900000 empty_db
          + asked two_factor_rule "wait" "ip:1" 900000 six_codes)
        5
admitted_lem_example = admitted_lem two_factor_rule "wait" "ip:1" 900000 six_codes empty_db
