-- ===== src/Startup/Defaults.antt =====
-- internal/config/config.go: the defaults, and the mark on the logo.
use devops_tools.Prelude.{
  ℕ, ◌-◌, Text, text, Bool, true, ◌&&◌, Option, none, some, List, [], ◌∷◌, ◌++◌, ℤ, pos, negsuc,
  is_empty, is_space, eqb, leb, length, map, all, not, if◌then◌else◌, ◌≡◌, refl, arith, Bool-cases,
  inl, inr,
}
use devops_tools.Startup.{AppConfig, UiConfig, provider_local}

unfoldable pub default : Text → Text → Text
default value field = if is_empty field then value else field

-- Eight hours, in nanoseconds.
abbrev pub default_ttl : ℤ
default_ttl = pos 28_800_000_000_000

unfoldable pub default_duration : ℤ → ℤ → ℤ
default_duration value (pos n) = if eqb n 0 then value else pos n
default_duration value (negsuc n) = negsuc n

abbrev pub default_hidden_namespaces : List Text
default_hidden_namespaces = text "kube-*" ∷ text "default" ∷ []

unfoldable pub default_list : List Text → Option (List Text) → Option (List Text)
default_list value none = some value
default_list value (some l) = some l

unfoldable pub apply_defaults : AppConfig → AppConfig
apply_defaults c = record c {
  server = record c.server { addr = default (text ":8080") c.server.addr };
  environment = default (text "unknown") c.environment;
  auth = record c.auth {
    provider = default provider_local c.auth.provider;
    session = record c.auth.session { ttl = default_duration default_ttl c.auth.session.ttl };
    ldap = record c.auth.ldap {
      user_filter = default (text "(uid=%s)") c.auth.ldap.user_filter;
      email_attribute = default (text "mail") c.auth.ldap.email_attribute;
      group_name_attribute = default (text "cn") c.auth.ldap.group_name_attribute;
    };
    oidc = record c.auth.oidc {
      display_name = default (text "single sign-on") c.auth.oidc.display_name;
    };
  };
  cluster = record c.cluster {
    hidden_namespaces = default_list default_hidden_namespaces c.cluster.hidden_namespaces;
  };
  storage = record c.storage { path = default (text "/data/devops-tools.json") c.storage.path };
  ui = record c.ui { brand_name = default (text "DevOps Tools") c.ui.brand_name };
}

default_idem : (value field : Text) → default value (default value field) ≡ default value field
unfolding default
default_idem value [] = unfold default in again value
  where
    again : (v : Text) → (if is_empty v then v else v) ≡ v
    again [] = refl
    again (_ ∷ _) = refl
default_idem value (c ∷ s) = refl

default_duration_idem :
    (value d : ℤ) → default_duration value (default_duration value d) ≡ default_duration value d
unfolding default_duration
default_duration_idem value (negsuc n) = refl
default_duration_idem value (pos n) = elim (Bool-cases (eqb n 0)) [
  | inl e ↦ rw e (again value)
  | inr e ↦ rw (e, e) refl
]
  where
    again : (v : ℤ) → default_duration v v ≡ v
    again (pos n) = unfold default_duration in ground arith
    again (negsuc n) = unfold default_duration in refl

default_list_idem :
    (value : List Text) (l : Option (List Text))
    → default_list value (default_list value l) ≡ default_list value l
unfolding default_list
default_list_idem value none = refl
default_list_idem value (some l) = refl

-- Applying the defaults a second time changes nothing: what has been set, by the configuration or
-- by a default, is never set again.
pub apply_defaults_idem : (c : AppConfig) → apply_defaults (apply_defaults c) ≡ apply_defaults c
unfolding apply_defaults
apply_defaults_idem c =
    rw
      (
        default_idem (text ":8080") c.server.addr,
        default_idem (text "unknown") c.environment,
        default_idem provider_local c.auth.provider,
        default_duration_idem default_ttl c.auth.session.ttl,
        default_idem (text "(uid=%s)") c.auth.ldap.user_filter,
        default_idem (text "mail") c.auth.ldap.email_attribute,
        default_idem (text "cn") c.auth.ldap.group_name_attribute,
        default_idem (text "single sign-on") c.auth.oidc.display_name,
        default_list_idem default_hidden_namespaces c.cluster.hidden_namespaces,
        default_idem (text "/data/devops-tools.json") c.storage.path,
        default_idem (text "DevOps Tools") c.ui.brand_name,
      )
      refl

-- strings.ToUpper, for the letters a to z
unfoldable pub upper : ℕ → ℕ
upper c = if leb b'a' c && leb c b'z' then c - 32 else c

unfoldable pub to_upper : Text → Text
to_upper s = map upper s

-- The first word, and the words after it; a word that begins is added to.
unfoldable pub fields_from : Text → Text → List Text
fields_from word [] = if is_empty word then [] else word ∷ []
fields_from word (c ∷ s) =
    let ended = fields_from [] s in
    let longer = fields_from (word ++ c ∷ []) s in
    if is_space c then (if is_empty word then ended else word ∷ ended) else longer

-- strings.Fields
unfoldable pub fields : Text → List Text
fields s = fields_from [] s

unfoldable pub first_char : Text → Text
first_char [] = []
first_char (c ∷ s) = c ∷ []

-- UIConfig.Initials, of the words of the name.
unfoldable pub derived_initials : List Text → Text
derived_initials (v ∷ w ∷ words) = to_upper (first_char v ++ first_char w)
derived_initials ((c ∷ d ∷ s) ∷ []) = to_upper (c ∷ d ∷ [])
derived_initials _ = text "DT"

unfoldable pub initials : UiConfig → Text
initials u =
    if is_empty u.brand_initials
    then derived_initials (fields u.brand_name)
    else to_upper u.brand_initials

abbrev all_words : List Text → Bool
all_words = all (λ w. not (is_empty w))

fields_from-words : (word s : Text) → all_words (fields_from word s) ≡ true
unfolding fields_from all
fields_from-words word [] = ground arith
fields_from-words word (c ∷ s) =
    ground (arith, fields_from-words [] s, fields_from-words (word ++ c ∷ []) s)

length-derived_initials :
    (words : List Text) → all_words words ≡ true → length (derived_initials words) ≡ 2
unfolding derived_initials to_upper first_char all
length-derived_initials [] h = refl
length-derived_initials ([] ∷ words) h = absurd (ground arith)
length-derived_initials ((c ∷ []) ∷ []) h = refl
length-derived_initials ((c ∷ d ∷ s) ∷ []) h = refl
length-derived_initials ((c ∷ s) ∷ [] ∷ words) h = absurd (ground arith)
length-derived_initials ((c ∷ s) ∷ (d ∷ t) ∷ words) h = refl

-- Where no mark is configured, the one that is derived from the name has two letters, whatever the
-- name is.
pub length-initials : (u : UiConfig) → u.brand_initials ≡ [] → length (initials u) ≡ 2
unfolding initials fields
length-initials u e =
    rw e (length-derived_initials (fields u.brand_name) (fields_from-words [] u.brand_name))
