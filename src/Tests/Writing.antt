-- ===== src/Tests/Writing.antt =====
-- Writes, conflicts and reloads on a small server (internal/store).
use devops_tools.Prelude.{◌+◌, ◌≤◌, text, ◌≡◌, refl, false, none}
use devops_tools.Prelude.{
  [], ◌∷◌, lookup, has_key, text_dec, ℕ_discrete, insert, sort_by, place, dedup, contains, text_leb,
}
use devops_tools.Prelude.{trim_space, trim_left, trim_right, to_lower, lower, is_space}
use devops_tools.Store.Model.{Change, key, get, roles_for, local_credential}
use devops_tools.Store.Users
use devops_tools.Store.Codec.{
  encode_file, set, load_users, load_user, expand_groups, expand_ids, group_at, store_user,
  index_table, index_of, group_table, all_groups, is_newer,
}
use devops_tools.Store.Codec.RoundTrip.{set-encode_file}
use devops_tools.Store.Mutate.{
  mutate, encode, max_write_attempts, attempt, round, settle, written, persist, persisted, retry,
  reload, reloaded, apply, is_conflict, give_up,
}
use devops_tools.Store.Mutate.Writes.{Accounts, mutate-Accounts}
use devops_tools.Store.Mutate.Bounds.{saves-mutate-le}
use devops_tools.Store.Operations.{set_roles, delete_user, set_password, follow}
use devops_tools.Tests.World.{
  team, server, json, server_versions, server_counts, behind, stored, unseeded,
}

program : Unit {0}
unfolding lookup has_key text_dec ℕ_discrete key trim_space trim_left trim_right to_lower lower
    is_space insert sort_by place dedup contains text_leb get roles_for local_credential
    Users.set_roles Users.delete_user Users.set_password encode_file set load_users load_user
    expand_groups expand_ids group_at store_user index_table index_of group_table all_groups
    is_newer mutate encode attempt round settle written persist persisted retry reload reloaded
    apply is_conflict give_up set_roles delete_user set_password follow
program = tt

abbrev promote : Change Unit
promote = Users.set_roles (text "bob") (text "viewer" ∷ [])

-- A replica that is behind loses the first write, reloads, and writes again.
conflict_then_write :
    ((mutate json server promote behind stored).error ≡ none)
    × ((mutate json server promote behind stored).world.1 ≡ 2)
unfolding program
conflict_then_write = (refl, refl)

mutate-Accounts_example :
    Accounts json server promote server_versions behind (mutate json server promote behind stored)
unfolding program
mutate-Accounts_example = mutate-Accounts json server promote server_versions behind stored refl

saves-mutate-le_example :
    (mutate json server promote behind stored).world.1 ≤ 0 + max_write_attempts
saves-mutate-le_example = saves-mutate-le json server server_counts promote behind stored

set-encode_file_example : set (encode_file team) unseeded ≡ record team { seen_dirty = false }
set-encode_file_example = set-encode_file team unseeded
