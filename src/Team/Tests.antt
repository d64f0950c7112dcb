-- ===== src/Team/Tests.antt =====
-- The owner of a clinic with one owner and one other login edits the other one.
use ctf_website.Samples.{clinic_db, naledi, naledi_auth, user_named}
use ctf_website.Team.{MemberUpdate, handle_update_team_member, given, absent, owned_user}
use ctf_website.Schema.{Db, staff}
use ctf_website.Team.Owners.{owners_of, HasUniqueIds, handle_update_team_member-HasOwner}
use ctf_website.Team.Tenancy.{foreigners, handle_update_team_member-foreigners}
use ctf_website.Base.{
  ◌≤◌, ◌≡◌, inl, inr, subst, [], ◌∷◌, arith, eq_iff, Bool-cases, str_eq, count_where,
}

abbrev team_db : Db
team_db = record clinic_db { users = naledi ∷ user_named "usr_2" staff ∷ [] }

abbrev promote : MemberUpdate
promote = record {
  role = given "owner";
  disabled = absent;
  name = absent;
  phone = absent;
  reset_password = absent;
}

unique_ids : HasUniqueIds "org_1" team_db.users
unfolding count_where
unique_ids id = elim (Bool-cases (str_eq "usr_1" id)) [
  | inl hit ↦
      subst (λ x. count_where (owned_user x "org_1") team_db.users ≤ 1) ((eq_iff "usr_1" id).0 hit)
        (omega arith)
  | inr miss ↦ ground (arith, miss)
]

handle_update_team_member-HasOwner_example :
    1
    ≤ owners_of "org_1"
        (handle_update_team_member naledi_auth 9000 "::1" "!" "usr_2" promote team_db).1.users
unfolding count_where
handle_update_team_member-HasOwner_example =
    handle_update_team_member-HasOwner naledi_auth 9000 "::1" "!" "usr_2" promote team_db unique_ids
      (omega arith)

handle_update_team_member-foreigners_example :
    foreigners "org_1"
      (handle_update_team_member naledi_auth 9000 "::1" "!" "usr_2" promote team_db).1
    ≡ foreigners "org_1" team_db
handle_update_team_member-foreigners_example =
    handle_update_team_member-foreigners naledi_auth 9000 "::1" "!" "usr_2" promote team_db
