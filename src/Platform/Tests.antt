-- ===== src/Platform/Tests.antt =====
-- An administrator who tries to enable a blocked login, and the block of an organization.
use ctf_website.Platform.Batches.{held, block_org_batch}
use ctf_website.Samples.{clinic, clinic_db, user_named, naledi}
use ctf_website.Platform.Enforcement.{handle_admin_account_action, handle_admin_org_action}
use ctf_website.Auth.{AuthContext}
use ctf_website.Platform.Closed.{IsClosed, block_org_batch-IsClosed}
use ctf_website.Platform.Barred.{
  IsBarred, handle_admin_org_action-IsBarred, handle_admin_account_action-IsBarred,
}
use ctf_website.Schema.{UserRow, Db, owner, ctf_admin, hold_blocked, totp}
use ctf_website.Base.{refl, none, some, [], ◌∷◌}

abbrev admin : UserRow
admin = record (user_named "usr_9" owner) {
  platform_role = ctf_admin;
  two_factor_method = totp;
  totp_confirmed_at = some 1;
  totp_secret = some "SECRET";
}

abbrev admin_auth : AuthContext
admin_auth = record {
  user = admin;
  org = clinic;
  session_id = "ses_9";
  stepped_up_until = some 400000;
}

abbrev barred_db : Db
barred_db = record clinic_db { users = held hold_blocked 5000 "fraud" naledi ∷ [] }

naledi-IsBarred : IsBarred "usr_1" barred_db
naledi-IsBarred = record { rows = (λ e. (refl, refl), tt) }

handle_admin_account_action-IsBarred_example :
    IsBarred "usr_1"
      (handle_admin_account_action admin_auth 6000 "::1" "usr_1" "enable" none barred_db).1
handle_admin_account_action-IsBarred_example =
    handle_admin_account_action-IsBarred "usr_1" admin_auth 6000 "::1" "usr_1" "enable" none
      barred_db naledi-IsBarred

handle_admin_org_action-IsBarred_example :
    IsBarred "usr_1"
      (handle_admin_org_action admin_auth 6000 "::1" "org_1" "suspend" (some "unpaid") barred_db).1
handle_admin_org_action-IsBarred_example =
    handle_admin_org_action-IsBarred "usr_1" admin_auth 6000 "::1" "org_1" "suspend" (some "unpaid")
      barred_db naledi-IsBarred

block_org_batch-IsClosed_example :
    IsClosed "org_1" clinic_db (block_org_batch 6000 "fraud" "org_1" "usr_9" clinic_db)
block_org_batch-IsClosed_example = block_org_batch-IsClosed 6000 "fraud" "org_1" "usr_9" clinic_db
