-- ===== src/Permissions/Tests.antt =====
-- Staff may take over a call.
use ctf_website.Base.{◌≡◌, true, ◌↔◌, ◌⊎◌}
use ctf_website.Permissions.{can, staff, calls_control, owner, calls_read, can_iff}

can_iff_example :
    (can staff calls_control ≡ true)
    ↔ ((staff ≡ owner) ⊎ ((calls_control ≡ calls_read) ⊎ (calls_control ≡ calls_control)))
can_iff_example = can_iff staff calls_control
