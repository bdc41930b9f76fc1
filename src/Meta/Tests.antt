-- ===== src/Meta/Tests.antt =====
-- Runs of pkg/meta, and instances of the theorems about it.
mod Startup
mod Operations
mod Nodes
mod Deliveries
use xuandb.Prelude.{
  true, false, [], ◌∷◌, ◌≡◌, ◌⊎◌, inl, inr, refl, none, ◌↔◌, if◌then◌else◌, ◌==◌, ◌+◌,
}
use Prim.Native.Nat.{bit_and}
use xuandb.Prelude.Map.{lookup, is_empty}
use xuandb.Prelude.Text.{Text, codes, text_eq}
use xuandb.Prelude.Unicode.{ascii, to_lower}
use xuandb.Meta.Privilege.{
  privilege_admin, privilege_mask, privilege_read, parsed, parse, to_string, via_json, outside_mask,
}
use xuandb.Meta.Privilege.RoundTrip.{parse-to_string, via_json_lem}
use xuandb.Meta.Types.{User, Service, new_service, create_user}
use xuandb.Meta.Auth.{RequiredPrivileges, auth}
use xuandb.Meta.Auth.Spec.{Authorized, auth_iff}
use xuandb.Meta.Leader.{command_via_json, check_create_user}
use xuandb.Meta.Apply.{apply_command}
use xuandb.Meta.Protocol.{
  ask_create_user, check, Cluster, initial, lagging, checks, append, commit, Reach, here, next,
}
use xuandb.Meta.Protocol.Admin.{IsAdmin}
use xuandb.Meta.Protocol.Safety.{system-IsAdmin-Reach}

abbrev pub bob : User
bob = record {
  name = codes "Bob";
  password = codes "pw";
  created_at = 7;
  system = false;
  priv = 2;
  db_priv = [];
}

abbrev pub admin_bob : User
admin_bob = record {
  name = codes "Bob";
  password = codes "pw";
  created_at = 7;
  system = true;
  priv = privilege_admin;
  db_priv = [];
}

abbrev pub with_bob : Service
with_bob = record {
  md = record { users = (codes "bob", admin_bob) ∷ []; databases = [] };
  nodes = [];
  events = [];
}

parse-to_string_example : parse ascii (to_string 6) ≡ parsed 6
unfolding outside_mask
parse-to_string_example = parse-to_string ascii 6 (inr refl)

via_json_lem_example : via_json ascii (privilege_admin + 2) ≡ (
    if privilege_admin + 2 == privilege_admin
    then privilege_admin
    else bit_and (privilege_admin + 2) privilege_mask)
via_json_lem_example = via_json_lem ascii (privilege_admin + 2)

abbrev read_all : RequiredPrivileges
read_all = record { global = privilege_read; databases = [] }

auth_iff_example :
    (auth ascii with_bob (codes "BOB") (codes "pw") read_all ≡ none)
    ↔ Authorized ascii with_bob (codes "BOB") (codes "pw") read_all
auth_iff_example = auth_iff ascii with_bob (codes "BOB") (codes "pw") read_all

auth_run : auth ascii with_bob (codes "BOB") (codes "pw") read_all ≡ none
unfolding is_empty to_lower text_eq
auth_run =
    (auth_iff ascii with_bob (codes "BOB") (codes "pw") read_all).1
      (inr ((cc), (admin_bob, (unfold lookup to_lower text_eq in refl), refl, inl refl)))

-- The first user is proposed and committed.
abbrev settled : Cluster
settled = record {
  service = (apply_command ascii new_service (command_via_json ascii (create_user bob))).0;
  past = new_service ∷ [];
  checked = [];
  pending = [];
}

Reach-settled : Reach ascii initial settled
unfolding check check_create_user lookup lagging
Reach-settled =
    next
      (next (next here (checks 0 (ask_create_user 7 bob) (create_user bob) refl refl))
        (append [] [] (command_via_json ascii (create_user bob)) refl refl))
      (commit (command_via_json ascii (create_user bob)) [] refl refl)

system-IsAdmin-Reach_example :
    (is_empty settled.service.md.users ≡ true)
    ⊎ ((key : Text) × IsAdmin key settled.service.md.users)
system-IsAdmin-Reach_example = system-IsAdmin-Reach ascii Reach-settled
