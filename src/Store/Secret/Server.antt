-- ===== src/Store/Secret/Server.antt =====
-- The Secret as an object with optimistic versions (internal/store/secret.go).
use devops_tools.Prelude.{some_inj}
use devops_tools.Prelude.{
  ℕ, Text, ◌≡◌, refl, ap, sym, ◌∙◌, arith, Option, none, some, ◌⊎◌, inl, inr, [], ◌∷◌, lookup, Dict,
  Option-cases, Bool-cases, length, ltb,
}
use devops_tools.Store.Model.{Change}
use devops_tools.Store.Mutate.{Json, Store, mutate}
use devops_tools.Store.Mutate.Writes.{Accounts, mutate-Accounts}
use devops_tools.Store.Mutate.{loaded, saved}
use devops_tools.Store.Mutate.Writes.{Versioned}
use devops_tools.Store.Secret.{
  Gzip, Secret, SecretsApi, Cluster, GetReply, PutReply, got, put, get_failed, put_failed,
}
use devops_tools.Store.Secret.{is_not_found, is_already_exists, is_conflicting, another}
use devops_tools.Store.Secret.{
  secret_key, unpack, pack, load_got, opened, created, updated, load, save, secret_backend,
  max_secret_bytes,
}

-- The documented behaviour of resource versions: `object` is the Secret that the server has when
-- it serves the next call.
pub record ResourceVersions {W : Type 0} (api : SecretsApi W) : Type 0 where
  pub object : W → Option Secret
  pub get_object : (w w' : W) (o : Secret) → api.get w ≡ (got o, w') → object w ≡ some o
  pub create_object :
      (w w' : W) (body : Text) (o : Secret) → api.create body w ≡ (put o, w') → object w ≡ none
  pub update_object :
      (w w' : W) (body version : Text) (o : Secret)
      → api.update body version w ≡ (put o, w')
      → (old : Secret) × (object w ≡ some old) × (old.resource_version ≡ version)
  pub one_content :
      (w w' : W) (o o' : Secret)
      → object w ≡ some o
      → object w' ≡ some o'
      → o.resource_version ≡ o'.resource_version
      → o.content ≡ o'.content

module _ (gzip : Gzip) where
  -- The document in a Secret, empty where there is none that can be read.
  abbrev pub body_of : Dict Text → Text
  body_of content = elim (lookup secret_key content) as (λ _. Text) [
    | none ↦ []
    | some body ↦ elim (unpack gzip body) as (λ _. Text) [ none ↦ [] | some plain ↦ plain ]
  ]

  abbrev pub document : Secret → Text
  document o = body_of o.content

  abbrev pub held : Option Secret → Option (Text × Text)
  held none = none
  held (some o) = some (document o, o.resource_version)

  module _ {W : Type 0} where
    load_got-loaded :
        (n : ℕ) (r : GetReply × W) (bytes version : Text) (c : Cluster W)
        → load_got gzip n r ≡ (loaded bytes version, c)
        → (o : Secret) × (r ≡ (got o, r.1)) × (document o ≡ bytes) × (o.resource_version ≡ version)
    unfolding load_got opened
    load_got-loaded n (get_failed is_not_found, w) bytes version c h = absurd (ground arith)
    load_got-loaded n (get_failed is_already_exists, w) bytes version c h = absurd (ground arith)
    load_got-loaded n (get_failed is_conflicting, w) bytes version c h = absurd (ground arith)
    load_got-loaded n (get_failed (another m), w) bytes version c h = absurd (ground arith)
    load_got-loaded n (got o, w) bytes version c h =
        elim (Option-cases (lookup secret_key o.content)) [
          | inl e ↦ absurd (ground arith)
          | inr (body, e) ↦ elim (Option-cases (unpack gzip body)) [
            | inl u ↦ absurd (ground arith)
            | inr (plain, u) ↦ (o, refl, ground arith, ground arith)
          ]
        ]

    pub created-saved :
        (size n : ℕ) (r : PutReply × W) (version : Text) (c : Cluster W)
        → created size n r ≡ (saved version, c)
        → (o : Secret) × (r ≡ (put o, r.1))
    unfolding created
    created-saved size n (put_failed is_not_found, w) version c h = absurd (ground arith)
    created-saved size n (put_failed is_already_exists, w) version c h = absurd (ground arith)
    created-saved size n (put_failed is_conflicting, w) version c h = absurd (ground arith)
    created-saved size n (put_failed (another m), w) version c h = absurd (ground arith)
    created-saved size n (put o, w) version c h = (o, refl)

    updated-saved :
        (size n : ℕ) (r : PutReply × W) (version : Text) (c : Cluster W)
        → updated size n r ≡ (saved version, c)
        → (o : Secret) × (r ≡ (put o, r.1))
    unfolding updated
    updated-saved size n (put_failed is_not_found, w) version c h = absurd (ground arith)
    updated-saved size n (put_failed is_already_exists, w) version c h = absurd (ground arith)
    updated-saved size n (put_failed is_conflicting, w) version c h = absurd (ground arith)
    updated-saved size n (put_failed (another m), w) version c h = absurd (ground arith)
    updated-saved size n (put o, w) version c h = (o, refl)

  module _ {W : Type 0} (api : SecretsApi W) (v : ResourceVersions api) where
    pub load_held :
        (c c' : Cluster W) (bytes version : Text)
        → load gzip api c ≡ (loaded bytes version, c')
        → held (v.object c.world) ≡ some (bytes, version)
    unfolding load
    load_held c c' bytes version h =
        let (o, r, d, e) = load_got-loaded c.stored (api.get c.world) bytes version c' h in
        ap held (v.get_object c.world (api.get c.world).1 o r) ∙ (λ i. some (d i, e i))

    pub save_held :
        (c c' : Cluster W) (bytes version version' : Text)
        → save gzip api bytes version c ≡ (saved version', c')
        → ((version ≡ []) × (held (v.object c.world) ≡ none))
          ⊎ ((old : Text) × (held (v.object c.world) ≡ some (old, version)))
    unfolding save
    save_held c c' bytes version version' h =
        elim (Bool-cases (ltb max_secret_bytes (length (pack gzip bytes)))) [
          | inl big ↦ absurd (ground arith)
          | inr fits ↦ go version refl
        ]
      where
        go :
            (u : Text)
            → version ≡ u
            → ((version ≡ []) × (held (v.object c.world) ≡ none))
              ⊎ ((old : Text) × (held (v.object c.world) ≡ some (old, version)))
        go [] e =
            let (o, r) =
              created-saved (length (pack gzip bytes)) c.stored
                (api.create (pack gzip bytes) c.world) version' c' (ground arith) in
            inl (e, ap held (v.create_object c.world _ _ o r))
        go (x ∷ u) e =
            let (o, r) =
              updated-saved (length (pack gzip bytes)) c.stored
                (api.update (pack gzip bytes) version c.world) version' c' (ground arith) in
            let (old, here, same) = v.update_object c.world _ _ version o r in
            inr (document old, ap held here ∙ (λ i. some (document old, same i)))

    pub one_held :
        (c c' : Cluster W) (bytes bytes' version : Text)
        → held (v.object c.world) ≡ some (bytes, version)
        → held (v.object c'.world) ≡ some (bytes', version)
        → bytes ≡ bytes'
    one_held c c' bytes bytes' version h k = elim (Option-cases (v.object c.world)) [
      | inl e ↦ absurd (ground arith)
      | inr (o, e) ↦ elim (Option-cases (v.object c'.world)) [
        | inl e' ↦ absurd (ground arith)
        | inr (o', e') ↦
            let p = some_inj (sym (ap held e) ∙ h) in
            let q = some_inj (sym (ap held e') ∙ k) in
            let same =
              v.one_content c.world c'.world o o' e e' (ap (λ t. t.1) p ∙ sym (ap (λ t. t.1) q)) in
            sym (ap (λ t. t.0) p) ∙ ap body_of same ∙ ap (λ t. t.0) q
      ]
    ]

    abbrev pub secret_backend-Versioned : Versioned (secret_backend gzip api)
    secret_backend-Versioned = record {
      holds = λ c. held (v.object c.world);
      load_holds = load_held;
      save_holds = save_held;
      one_document = one_held;
    }

    -- No lost update on a Secret. If the API server keeps its promises about resource versions,
    -- a call of `mutate` that reports no error had nothing to write, or created the Secret where
    -- there was none, or replaced it while it still had the resource version that the change
    -- rests on: of the store when the call began, or of the document then read.
    pub mutate_secret-Accounts :
        {A : Type 0} (json : Json) (change : Change A) (s : Store) (c : Cluster W)
        → (mutate json (secret_backend gzip api) change s c).error ≡ none
        → Accounts json
            (secret_backend gzip api)
            change
            secret_backend-Versioned
            s
            (mutate json (secret_backend gzip api) change s c)
    mutate_secret-Accounts json change s c h =
        mutate-Accounts json (secret_backend gzip api) change secret_backend-Versioned s c h
