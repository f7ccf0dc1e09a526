-- ===== src/Lib.antt =====
-- DevOps Tools: the access model of the portal, who may do what, and how it is kept.
--
-- The program answers HTTP requests of signed-in users about Kubernetes namespaces, secrets, logs
-- and service configuration. Each request is allowed or refused by the roles of the user. The
-- parts modelled here are those that decide this.
--
--   * `Config.Operations`, `Config.Roles`: the vocabulary of operations, the access model and its
--     validation (internal/config/rbac.go). `Config.Vocabulary` and `Config.Validation` are their
--     theorems.
--   * `Rbac`: the decisions and the listings of the authorizer (internal/rbac/rbac.go), with
--     `Rbac.Grants`, `Rbac.Scopes` and `Rbac.Paths`.
--   * `Store.Model`, `Store.Users`, `Store.Roles`, `Store.Lockouts`: the model in memory, and the
--     changes to it, each a function from the time and the model to a verdict, the model after it
--     and an output (internal/store/store.go, users.go, roles.go).
--   * `Store.Codec`: the document that is stored, with its table of groups (encodeFile and set).
--   * `Store.Mutate`: the loop that applies a change, writes, and on a conflict reloads and goes
--     round again; `Store.Operations`: the methods of the store, each a change run by that loop.
--   * `Store.Secret`: the backend that keeps the document in a Kubernetes Secret, packed when it is
--     large (internal/store/secret.go); `Store.Snapshots`: snapshots, the state of the store, and
--     the old file carried over (store.go, backend.go).
--   * `Auth.Limiter`: the throttle on failed sign-ins (internal/auth/limiter.go), per replica, with
--     lockouts shared through the store.
--   * `Auth.Service`: signing in and the check of every request (internal/auth/auth.go), with
--     `Auth.Service.Setup` for how it is built, and `Auth.Local`: the provider for accounts with
--     passwords (internal/auth/local.go).
--   * `ConfigSource`: the configuration files, kept in a Git repository and in Consul, and the listing
--     that is cached (internal/configsource/pair.go, cache.go, source.go); `Gitlab.Image`: the
--     pipeline that an image reference names (internal/gitlab/image.go), and `Gitlab.Pipelines`: which
--     of its jobs are run again or released (internal/gitlab/pipelines.go).
--   * `Api`: the handlers that manage accounts, roles, membership and role grants, with the guards
--     of their routes and the entries they leave in the audit trail (internal/api/access.go,
--     users.go, server.go and internal/audit/audit.go). `Api.Calls` says what a request asks of the
--     store. The route that restores a snapshot (internal/api/storage.go) is not modelled.
--   * `Startup`: the configuration after it is decoded: defaults, overrides from the environment,
--     secrets, and its validation (internal/config/config.go).
--   * `Kube`: the containers of a pod, summaries, restarts and rollouts
--     (internal/kube/pods.go, rollout.go).
--   * `Configs`: the handlers of the configuration page, over the interface `Configurations`, which
--     `Configs.Sources` fills with one source or with the pair (internal/api/configs.go).
--   * `Trail`: the page of the audit trail, who may see which entry, and the walk back through time
--     (internal/api/audit.go, internal/auditlog/auditlog.go, podsource.go, internal/audit/audit.go).
--
-- The authorizer is given `access_model` of the store; the limiter and the service are given the
-- store as their directory (`Auth.Limiter.Sharing`, `Auth.Service.Revoked`). A handler of
-- `Api` calls methods of `Store.Operations` and installs the model they leave into the authorizer;
-- `Trail` asks the authorizer what the reader may see.
--
-- Conventions. A text is the list of its code points; the case of the letters A to Z is folded and
-- of no others. A map is an association list, and a loop over a map goes in the order of the list;
-- what the theorems say does not depend on that order where a map has each key once. Times are
-- nanoseconds, and 0 is the zero time. A mutex makes a method atomic, so a method is one function.
-- The backend with whatever else writes the object, the clock, and encoding/json are parameters:
-- `Backend W` over a world `W`, `Json`. Laws that they must obey are the records `Versioned` and
-- `Counts`; for the Secret it is the API server, `SecretsApi` with the laws `ResourceVersions`, and
-- compress/gzip, `Gzip` with `GzipLaws`. Bcrypt, token verification, the issuing of session tokens
-- and the identity providers are arguments of what uses them, and so are the repository and the
-- Consul store, with the law `ReadsBack`. A failing json.Marshal is not modelled: the document has
-- no value that it refuses.
-- The loop of `mutate` is recursion on the rounds that may follow, four after the first, which is
-- the source's bound of five attempts; that of `Trail.Reading` is on the seven windows of the source,
-- and that of `Trail.Pods` on the lines that it scans at most; no other definition needs fuel. Log
-- lines are left out.
--
-- A request reaches a handler decoded: a body that encoding/json refused is `none`, and hashing by
-- bcrypt is an argument. The environment is a function from names to texts. The Kubernetes API server
-- is a parameter with what each call returns, as are GitLab and Loki, and so is the source of the lines of the audit trail.
--
-- Not modelled: the LDAP and OIDC protocols, the session tokens, the file backend, the GitLab, Loki,
-- Prometheus, Helm and Consul clients, the handlers for secrets, logs and builds,
-- the loader of the configuration file, the browser side and the deployment files. They are
-- glue over libraries and services, or await their turn.
mod Prelude
pub mod Config
pub mod Rbac
pub mod Store
pub mod Auth
pub mod Api
pub mod Startup
pub mod Kube
pub mod ConfigSource
pub mod Gitlab
pub mod Trail
pub mod Configs
mod Tests
