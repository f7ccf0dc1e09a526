-- ===== src/ConfigSource/Sources.antt =====
-- internal/configsource/source.go: a place where configuration lives.
use devops_tools.Prelude.{Text, Option, List}

pub data SourceError : Type 0 where
  not_found conflict : SourceError
  failed : Text → SourceError

pub record Entry : Type 0 where
  pub path : Text
  pub version : Text

pub record File : Type 0 where
  pub path : Text
  pub version : Text
  pub content : Text
  pub author : Text
  pub updated_at : Text

pub record Editor : Type 0 where
  pub username : Text
  pub email : Text

pub data Reply (A : Type 0) : Type 0 where
  ok : A → Reply A
  error : SourceError → Reply A

-- A source in a world `W`, which whatever else writes it may change too. A read leaves it alone.
pub record Source (W : Type 0) : Type 0 where
  pub list : W → Reply (List Entry)
  pub get : Text → W → Reply File
  pub put : Text → Text → Text → Editor → W → Option SourceError × W

-- The side that is written without a version check.
pub record Secondary (W : Type 0) : Type 0 where
  pub get : Text → W → Reply File
  pub put_unchecked : Text → Text → W → Option SourceError × W
