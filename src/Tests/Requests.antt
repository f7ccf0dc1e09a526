-- ===== src/Tests/Requests.antt =====
-- Signing in and being served, at small inputs (internal/auth).
use devops_tools.Prelude.{Text, text, ◌≡◌, refl, true, none, some}
use devops_tools.Prelude.{
  [], ◌∷◌, lookup, insert, has_key, text_dec, ◌==◌, ℕ_discrete, if◌then◌else◌, contains, any,
  filter, equal_fold, erase,
}
use devops_tools.Prelude.{trim_space, trim_left, trim_right, to_lower, lower, is_space}
use devops_tools.Store.Model
use devops_tools.Store.Model.{key, Time}
use devops_tools.Store.Users
use devops_tools.Store.Lockouts as Locks
use devops_tools.Store.Codec.{
  encode_file, set, load_users, load_user, expand_groups, expand_ids, group_at, is_newer,
}
use devops_tools.Store.Mutate.{
  Store, mutate, encode, apply, attempt, round, settle, written, persist, persisted, retry, reload,
  reloaded, is_conflict,
}
use devops_tools.Store.Operations
use devops_tools.Auth.Limiter.{allow, reset, is_shut_out}
use devops_tools.Auth.Limiter.Sharing.{directory}
use devops_tools.Auth.Service.{
  Service, Account, Sessions, Bcrypt, BootstrapConfig, local, sign_in, is_oidc, grants, is_enabled,
  middleware, bearer_token, verified,
}
use devops_tools.Auth.Service.{
  supports_login, bootstrap_enabled, bootstrap_login, by_provider, accept, issued, register,
  roles_for, kind_name,
}
use devops_tools.Auth.Limiter.Counting.{in_window, window_end}
use devops_tools.Auth.Service.{Provider, too_many_attempts}
use devops_tools.Auth.Service.Throttle.{IsWrong, guesses, sign_in_throttled}
use devops_tools.Prelude.{ap, sym, some_inj, List, arith}
use devops_tools.Auth.Service.Setup.{new, with_credentials, assembled}
use devops_tools.Auth.Service.Login.{SoundFor, sign_in-SoundFor}
use devops_tools.Auth.Service.Revoked.{store_directory, ServedWith, middleware-set_roles}
use devops_tools.Auth.Local
use devops_tools.Auth.Local.Precedence.{credential}
use devops_tools.Tests.World.{json, server, Server, current, stored}

program : Unit {0}
unfolding lookup insert has_key text_dec ℕ_discrete trim_space trim_left trim_right to_lower lower
    is_space key equal_fold any contains filter erase Users.set_roles Users.delete_user
    Users.set_password Users.record_seen Locks.locked_until encode_file set load_users load_user
    expand_groups expand_ids group_at is_newer mutate encode apply attempt round settle written
    persist persisted retry reload reloaded is_conflict Operations.set_roles Operations.delete_user
    Operations.set_password allow reset is_shut_out sign_in is_oidc grants is_enabled bearer_token
    verified supports_login bootstrap_enabled bootstrap_login by_provider accept issued register
    Model.roles_for Operations.record_seen roles_for kind_name new with_credentials assembled
    Local.login Local.login_configured in_window window_end
program = tt

-- A hash is the password itself.
abbrev bcrypt : Bcrypt
bcrypt hash password = hash == password

-- A session token is the username.
abbrev sessions : Sessions
sessions = record {
  issue = λ u. some (u.username, 9000);
  verify = λ raw. some (record { username = raw; email = []; roles = []; groups = [] });
}

abbrev bootstrap : BootstrapConfig
bootstrap = record {
  users = text "root" ∷ [];
  roles = text "admin" ∷ [];
  password_login = record { username = text "root"; password_hash = text "r" };
}

abbrev service : Service (Store × Server)
service = record {
  kind = local;
  verifier = sessions.verify;
  login = some (Local.login bcrypt [] (some (credential json server)));
  sessions = some sessions;
  shared = some (directory json server);
  dir = some (store_directory json server);
  bootstrap = bootstrap;
}

abbrev root : Account
root = record { username = text "root"; email = []; roles = text "admin" ∷ []; groups = [] }

sign_in-SoundFor_example :
    ((allow (some (directory json server)) (text "Root") 1000 [] (current, stored)).0 ≡ true)
    × SoundFor service bcrypt
        (text "Root")
        (text "r")
        (current, stored)
        (sign_in service bcrypt (text "Root") (text "r") 1000 [] (current, stored)).2
        root
unfolding program
sign_in-SoundFor_example =
    sign_in-SoundFor service bcrypt (text "Root") (text "r") root 1000 9000 (text "root") []
      (current, stored) refl

abbrev bearer : Text
bearer = text "Bearer alice"

abbrev session : Account
session = record { username = text "alice"; email = []; roles = []; groups = [] }

middleware-set_roles_example :
    let o = Operations.set_roles json server (text "Alice") (text "operator" ∷ []) current stored in
    ServedWith json server service bearer session
      (text "operator" ∷ [])
      (middleware service bearer (o.store, o.world)).0
unfolding program
middleware-set_roles_example =
    middleware-set_roles json server service bearer session (text "Alice") current stored refl refl
      (λ p. cc) refl refl (text "operator" ∷ []) refl

abbrev by_password : Provider Unit
by_password username password d = if password == text "h" then some session else none

-- A replica by itself.
abbrev single : Service Unit
single = record {
  kind = local;
  verifier = sessions.verify;
  login = some by_password;
  sessions = some sessions;
  shared = none;
  dir = none;
  bootstrap = bootstrap;
}

x-IsWrong : IsWrong single bcrypt (text "alice") (text "x")
unfolding program
x-IsWrong = record {
  no_break_glass = refl;
  no_login = λ provider d e. ap (λ p. p (text "alice") (text "x") d) (sym (some_inj e));
}

abbrev four_more : List (Time × Text)
four_more = (1001, text "x") ∷ (1002, text "x") ∷ (1003, text "x") ∷ (1004, text "x") ∷ []

sign_in_throttled_example :
    let (records, d) = guesses single bcrypt (text "alice") ((1000, text "x") ∷ four_more) [] tt in
    (sign_in single bcrypt (text "alice") (text "h") 2000 records d).0 ≡ too_many_attempts
unfolding program
sign_in_throttled_example =
    sign_in_throttled single bcrypt (text "alice") 1000 2000 (text "x") four_more (text "h") [] tt
      refl refl (x-IsWrong, (x-IsWrong, (x-IsWrong, (x-IsWrong, (x-IsWrong, tt))))) refl refl refl
      (omega arith)
