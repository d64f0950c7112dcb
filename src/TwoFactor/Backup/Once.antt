-- ===== src/TwoFactor/Backup/Once.antt =====
-- How often a backup code is accepted (app/worker/lib/twoFactor.ts, `consumeBackupCode`).
use ctf_website.Base.{
  ℕ, ◌+◌, ◌-◌, ◌≡◌, min, refl, String, Bool, true, false, not, ◌&&◌, List, [], ◌∷◌, arith, eq_iff,
  is_some, str_eq, find_first, count_where, if◌then◌else◌,
}
use ctf_website.Base.Texts.{codes, remove, to_lower, trim}
use ctf_website.Schema.{BackupCodeRow, Db, UserRow}
use ctf_website.Crypto.{Digests}
use ctf_website.Http.{Result, ok, pure, exec}
use ctf_website.TwoFactor.{is_separator}
use ctf_website.TwoFactor.Backup.{
  is_backup_code, spendable, spend_first, spend, consume_backup_code, spent_if,
}

abbrev count_of : Bool → ℕ
count_of true = 1
count_of false = 0

-- Attempts one after the other: of whom, when, from where, and what was typed.
pub record Attempt : Type 0 where
  pub user : UserRow
  pub at : ℕ
  pub ip : String
  pub submitted : String

module _ (digests : Digests) (user_id code_hash : String) where
  -- What is typed has the form of a code, and the digest of the user's code, spelling aside.
  abbrev pub is_same_code : UserRow → String → Bool
  is_same_code user submitted =
      is_backup_code (codes (remove is_separator (to_lower (trim submitted))))
      && (str_eq user.id user_id
          && str_eq (digests.sha256_hex (remove is_separator (to_lower (trim submitted))))
              code_hash)

  -- The unused copies of the code that are stored.
  abbrev pub stored_copies : Db → ℕ
  stored_copies db = count_where (spendable user_id code_hash) db.backup_codes

  abbrev pub asked : List Attempt → ℕ
  asked [] = 0
  asked (a ∷ attempts) = count_of (is_same_code a.user a.submitted) + asked attempts

  abbrev pub accepted : List Attempt → Db → ℕ
  accepted [] db = 0
  accepted (a ∷ attempts) db =
      let (answer, db') = consume_backup_code digests a.at a.ip a.user a.submitted db in
      (if is_same_code a.user a.submitted then spent_if answer else 0) + accepted attempts db'

  copies-spend_first :
      (now : ℕ) (ip other_id other_hash : String) (rows : List BackupCodeRow)
      → count_where (spendable user_id code_hash) (spend_first now ip other_id other_hash rows)
        ≡ count_where (spendable user_id code_hash) rows
          - count_of (str_eq other_id user_id && str_eq other_hash code_hash)
  unfolding count_where spend_first
  copies-spend_first now ip other_id other_hash [] = ground arith
  copies-spend_first now ip other_id other_hash (row ∷ rows) = ground (
    arith,
    copies-spend_first now ip other_id other_hash rows,
    eq_iff other_id user_id,
    eq_iff other_hash code_hash,
    eq_iff row.user_id user_id,
    eq_iff row.user_id other_id,
    eq_iff row.code_hash code_hash,
    eq_iff row.code_hash other_hash,
  )

  found_count :
      (other_id other_hash : String) (rows : List BackupCodeRow)
      → (str_eq other_id user_id && str_eq other_hash code_hash) ≡ true
      → count_of (is_some (find_first (spendable other_id other_hash) rows))
        ≡ min 1 (count_where (spendable user_id code_hash) rows)
  unfolding count_where find_first
  found_count other_id other_hash [] same = refl
  found_count other_id other_hash (row ∷ rows) same = ground (
    arith,
    found_count other_id other_hash rows same,
    eq_iff other_id user_id,
    eq_iff other_hash code_hash,
    eq_iff row.user_id user_id,
    eq_iff row.code_hash code_hash,
  )

  spent_if-ok : (b : Bool) → spent_if (ok b) ≡ count_of b
  spent_if-ok true = refl
  spent_if-ok false = refl

  -- One attempt: what it answers where it is with the code, and the copies behind it.
  abbrev IsStep : Bool → Db → Result Bool × Db → Type 0
  IsStep same db end =
      ((if same then spent_if end.0 else 0) ≡ (if same then min 1 (stored_copies db) else 0))
      × (stored_copies end.1 ≡ stored_copies db - count_of same)

  spend-IsStep :
      (now : ℕ) (ip other_id other_hash : String) (db : Db)
      → IsStep
          (str_eq other_id user_id && str_eq other_hash code_hash)
          db
          (spend now ip other_id other_hash db)
  unfolding spend exec
  spend-IsStep now ip other_id other_hash db = (
    ground (
      arith,
      found_count other_id other_hash db.backup_codes,
      spent_if-ok (is_some (find_first (spendable other_id other_hash) db.backup_codes)),
    ),
    copies-spend_first now ip other_id other_hash db.backup_codes,
  )

  refused-IsStep : (db : Db) → IsStep false db (ok false, db)
  refused-IsStep db = (refl, omega arith)

  typed-IsStep :
      (now : ℕ) (ip : String) (user : UserRow) (formed : Bool) (typed : String) (db : Db)
      → IsStep
          (formed && (str_eq user.id user_id && str_eq (digests.sha256_hex typed) code_hash))
          db
          ((if not formed then pure false else spend now ip user.id (digests.sha256_hex typed)) db)
  unfolding pure
  typed-IsStep now ip user true typed db = spend-IsStep now ip user.id (digests.sha256_hex typed) db
  typed-IsStep now ip user false typed db = refused-IsStep db

  attempt-IsStep :
      (a : Attempt) (db : Db)
      → IsStep
          (is_same_code a.user a.submitted)
          db
          (consume_backup_code digests a.at a.ip a.user a.submitted db)
  unfolding consume_backup_code
  attempt-IsStep a db =
      typed-IsStep a.at a.ip a.user _ (remove is_separator (to_lower (trim a.submitted))) db

  -- Whatever attempts follow each other, also of other users and with other codes: of those with one
  -- code of one user, spelled in whatever way, as many are accepted as unused copies of the code were
  -- stored, or all of them where they are fewer. So a code that is stored once is good once.
  pub consume_backup_code_accepts :
      (attempts : List Attempt) (db : Db)
      → accepted attempts db ≡ min (asked attempts) (stored_copies db)
  consume_backup_code_accepts [] db = omega arith
  consume_backup_code_accepts (a ∷ attempts) db =
      let end = consume_backup_code digests a.at a.ip a.user a.submitted db in
      let step = attempt-IsStep a db in
      count_step (is_same_code a.user a.submitted) _ (accepted attempts end.1) (asked attempts)
        (stored_copies db) (stored_copies end.1) step.0 step.1
        (consume_backup_code_accepts attempts end.1)
    where
      count_step :
          (same : Bool) (answer later asks copies copies' : ℕ)
          → answer ≡ (if same then min 1 copies else 0)
          → copies' ≡ copies - count_of same
          → later ≡ min asks copies'
          → answer + later ≡ min (count_of same + asks) copies
      count_step true answer later asks copies copies' h k l = omega arith
      count_step false answer later asks copies copies' h k l = omega arith
