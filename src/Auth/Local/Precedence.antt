-- ===== src/Auth/Local/Precedence.antt =====
-- Which password an account signs in with (internal/auth/local.go with internal/store).
use devops_tools.Prelude.{Text, ◌≡◌, ◌≢◌, arith, Option, none, some, [], Dict, if◌then◌else◌}
use devops_tools.Store.Model
use devops_tools.Store.Mutate.{Json, Backend, Store}
use devops_tools.Store.Operations
use devops_tools.Store.Operations.Access.{set_password-local_credential}
use devops_tools.Auth.Service.{Bcrypt}
use devops_tools.Auth.Local.{LocalUser, login}

module _ (json : Json) {W : Type 0} (backend : Backend W) where
  -- LocalCredential of the store.
  abbrev pub credential : Store × W → Text → Option Text
  credential (st, w) username = Model.local_credential st.model username

  -- Once a password is set without an error, exactly the passwords of the new hash sign the
  -- account in, with no roles of their own; an account of the same name in the configuration, and
  -- its password, no longer count.
  pub login-set_password :
      (bcrypt : Bcrypt) (users : Dict LocalUser) (username hash password : Text) (st : Store)
      (w : W)
      → (Operations.set_password json backend username hash st w).error ≡ none
      → hash ≢ []
      → let o = Operations.set_password json backend username hash st w in
        login bcrypt users (some credential) username password (o.store, o.world) ≡ (
          if bcrypt hash password
          then some (record { username = username; email = []; roles = []; groups = [] })
          else none)
  unfolding login
  login-set_password bcrypt users username hash password st w ok some_hash =
      ground (arith, set_password-local_credential json backend st w username hash ok some_hash)
