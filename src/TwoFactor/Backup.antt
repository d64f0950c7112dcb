-- ===== src/TwoFactor/Backup.antt =====
-- app/worker/lib/twoFactor.ts: backup codes.
pub mod Once
use ctf_website.TwoFactor.{is_separator}
use ctf_website.Base.Texts.{is_digit, remove, codes, to_lower, trim}
use ctf_website.Schema.{BackupCodeRow, Db, UserRow}
use ctf_website.Crypto.{Digests}
use ctf_website.Base.{
  ℕ, ◌+◌, ◌≡◌, refl, String, Bool, true, false, not, ◌&&◌, ◌||◌, Option, none, some, List, [], ◌∷◌,
  ◌++◌, map, arith, leb, ◌==◌, if◌then◌else◌, is_some, str_eq, length, find_first, delete_where,
  count_where, if_cases,
}
use ctf_website.Http.{Exec, Result, ok, pure, select, write, ◌>>=◌, ◌>>◌, exec}

abbrev pub is_code_char : ℕ → Bool
is_code_char c = (leb b'a' c && leb c b'z') || is_digit c

abbrev pub all_code_chars : List ℕ → Bool
all_code_chars [] = true
all_code_chars (c ∷ cs) = is_code_char c && all_code_chars cs

-- /^[a-z0-9]{10}$/
abbrev pub is_backup_code : List ℕ → Bool
is_backup_code cs = length cs == 10 && all_code_chars cs

abbrev pub is_used : Option ℕ → Bool
is_used none = false
is_used (some at) = true

abbrev pub unused_of : String → BackupCodeRow → Bool
unused_of user_id row = str_eq row.user_id user_id && not (is_used row.used_at)

abbrev pub spendable : (user_id code_hash : String) → BackupCodeRow → Bool
spendable user_id code_hash row = unused_of user_id row && str_eq row.code_hash code_hash

-- UPDATE … WHERE id = (SELECT id … LIMIT 1): the first row that can be spent.
unfoldable pub spend_first :
    ℕ → (ip user_id code_hash : String) → List BackupCodeRow → List BackupCodeRow
spend_first now ip user_id code_hash [] = []
spend_first now ip user_id code_hash (row ∷ rows) =
    let rest = spend_first now ip user_id code_hash rows in
    if spendable user_id code_hash row
    then record row { used_at = some now; used_ip = some ip } ∷ rows
    else row ∷ rest

unfoldable pub spend : ℕ → (ip user_id code_hash : String) → Exec Bool
spend now ip user_id code_hash = do
  found ← select (λ db. is_some (find_first (spendable user_id code_hash) db.backup_codes))
  write (λ db. record db { backup_codes = spend_first now ip user_id code_hash db.backup_codes })
  pure found

unfoldable pub consume_backup_code :
    Digests → ℕ → (ip : String) → UserRow → (submitted : String) → Exec Bool
consume_backup_code digests now ip user submitted =
    let normalised = remove is_separator (to_lower (trim submitted)) in
    if not (is_backup_code (codes normalised))
    then pure false
    else spend now ip user.id (digests.sha256_hex normalised)

unfoldable pub count_unused_backup_codes : String → Db → ℕ
count_unused_backup_codes user_id db = count_where (unused_of user_id) db.backup_codes

-- The new codes come hashed.
unfoldable pub replace_backup_codes : ℕ → String → (code_hashes : List String) → Exec (Unit {0})
replace_backup_codes now user_id code_hashes = write (λ db. record db {
  backup_codes =
      delete_where (λ row. str_eq row.user_id user_id) db.backup_codes
      ++ map
          (λ hash. record {
            user_id = user_id;
            code_hash = hash;
            created_at = now;
            used_at = none;
            used_ip = none;
          })
          code_hashes;
})

abbrev pub spent_if : Result Bool → ℕ
spent_if (ok true) = 1
spent_if answer = 0

abbrev one_if : Bool → ℕ
one_if true = 1
one_if false = 0

count_unused-spend_first :
    (now : ℕ) (ip user_id code_hash : String) (rows : List BackupCodeRow)
    → one_if (is_some (find_first (spendable user_id code_hash) rows))
        + count_where (unused_of user_id) (spend_first now ip user_id code_hash rows)
      ≡ count_where (unused_of user_id) rows
unfolding count_where spend_first find_first
count_unused-spend_first now ip user_id code_hash [] = refl
count_unused-spend_first now ip user_id code_hash (row ∷ rows) =
    ground (arith, count_unused-spend_first now ip user_id code_hash rows)

spent_if-ok : (b : Bool) → spent_if (ok b) ≡ one_if b
spent_if-ok true = refl
spent_if-ok false = refl

-- A backup code that is accepted takes one code from the user's unused ones, and a refused one none.
pub consume_backup_code-count_unused :
    (digests : Digests) (now : ℕ) (ip : String) (user : UserRow) (submitted : String) (db : Db)
    → spent_if (consume_backup_code digests now ip user submitted db).0
        + count_unused_backup_codes user.id (consume_backup_code digests now ip user submitted db).1
      ≡ count_unused_backup_codes user.id db
unfolding consume_backup_code count_unused_backup_codes spend exec
consume_backup_code-count_unused digests now ip user submitted db =
    if_cases
      (λ (m : Exec Bool).
        spent_if (m db).0 + count_where (unused_of user.id) (m db).1.backup_codes
        ≡ count_where (unused_of user.id) db.backup_codes)
      (not (is_backup_code (codes (remove is_separator (to_lower (trim submitted))))))
      {one = pure false}
      {other = spend now ip user.id
        (digests.sha256_hex (remove is_separator (to_lower (trim submitted))))}
      (λ malformed. omega arith)
      (λ formed. omega (
        arith,
        spent_if-ok _,
        count_unused-spend_first now ip user.id
            (digests.sha256_hex (remove is_separator (to_lower (trim submitted)))) db.backup_codes,
      ))
