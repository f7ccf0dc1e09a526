-- ===== src/Gitlab.antt =====
-- internal/gitlab: the pipelines behind the running images.
pub mod Image
pub mod Pipelines
